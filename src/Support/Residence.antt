-- ===== src/Support/Residence.antt =====
-- The swap pool and the page tables against each other: the data of kaya/phase3/pager.c.
use skara.Base.{
  ℕ, ◌+◌, ◌%◌, ◌*◌, ◌^◌, ◌<◌, ◌≤◌, ◌≡◌, ◌≢◌, refl, sym, ap, ◌∙◌, ◌⊎◌, true, false, inl, inr, arith,
  ◌==◌, update, Bool-cases, ==→eq, subst, update_cases, ==→ne,
}
use skara.Base.Word.{has_bit, xor_bit, field}
use skara.Support.{SwapFrame, Support, max_kuseg, pool_size, kuseg2, kuseg3, page_size}
use skara.Support.Start.{unoccupied}
use skara.Support.Pager.{mapped, valid_on, get_frame_addr, frame_pool_start}

-- A frame of the pool holds a page of the only process.
pub record IsIn (frame : SwapFrame) (segment page : ℕ) : Type 0 where
  pub asid : frame.asid ≡ 1
  pub seg_num : frame.seg_num ≡ segment
  pub page_num : frame.page_num ≡ page

-- The page is the process's own or a shared one, and its table has an entry for it.
pub record IsPage (segment page : ℕ) : Type 0 where
  pub paged : (segment ≡ kuseg2) ⊎ (segment ≡ kuseg3)
  pub listed : page < max_kuseg

-- The entry is valid and names the frame at an address.
pub record Names (lo addr : ℕ) : Type 0 where
  pub valid : has_bit lo valid_on ≡ true
  pub frame : field lo 12 20 * page_size ≡ addr

-- A frame is free, or holds a page whose entry names it.
abbrev pub IsResident : (ℕ → ℕ → ℕ) → ℕ → SwapFrame → Type 0
IsResident lo addr frame =
    (frame.asid ≡ unoccupied)
    ⊎ (IsIn frame frame.seg_num frame.page_num
        × IsPage frame.seg_num frame.page_num
        × Names (lo frame.seg_num frame.page_num) addr)

-- An occupied frame holds a page whose entry names the frame, and a page with a valid entry is in a frame.
-- `addr` gives the frames' addresses and `lo` the entries by segment and page.
pub record Coherent (addr : ℕ → ℕ) (lo : ℕ → ℕ → ℕ) (frames : ℕ → SwapFrame) : Type 0 where
  pub resident : (f : ℕ) → f < pool_size → IsResident lo (addr f) (frames f)
  pub present :
      (segment page : ℕ)
      → IsPage segment page
      → has_bit (lo segment page) valid_on ≡ true
      → (f : ℕ) × (f < pool_size) × IsIn (frames f) segment page

-- Frames are whole pages at different addresses.
pub record AreFrames (addr : ℕ → ℕ) : Type 0 where
  pub aligned : (f : ℕ) → f < pool_size → addr f % page_size ≡ 0
  pub below : (f : ℕ) → f < pool_size → addr f < 2 ^ 32
  pub apart : (f g : ℕ) → f < pool_size → g < pool_size → addr f ≡ addr g → f ≡ g

pub mapped-Names :
    (addr lo : ℕ) → addr % page_size ≡ 0 → addr < 2 ^ 32 → Names (mapped addr lo) addr
mapped-Names addr lo a b = record { valid = ground arith; frame = ground arith }

pub dropped-invalid :
    (lo : ℕ) → has_bit lo valid_on ≡ true → has_bit (xor_bit lo valid_on) valid_on ≡ false
dropped-invalid lo v = ground arith

pub frames-AreFrames :
    (s : Support)
    → 9 * page_size ≤ s.layout.rambase + s.layout.ramsize
    → s.layout.rambase + s.layout.ramsize < 2 ^ 32
    → (s.layout.rambase + s.layout.ramsize) % page_size ≡ 0
    → AreFrames (get_frame_addr (frame_pool_start s))
unfolding get_frame_addr
frames-AreFrames s a b c = record {
  aligned = λ f l. omega arith;
  below = λ f l. omega arith;
  apart = λ f g l m e. omega arith;
}

-- What the eviction from frame `f` does to the entries: the page in the frame is no longer valid.
pub record Frees (f : ℕ) (lo lo' : ℕ → ℕ → ℕ) (frames : ℕ → SwapFrame) : Type 0 where
  pub kept :
      (segment page : ℕ) → ¬ IsIn (frames f) segment page → lo' segment page ≡ lo segment page
  pub gone :
      (segment page : ℕ)
      → IsIn (frames f) segment page
      → has_bit (lo' segment page) valid_on ≡ false

-- What loading a page into frame `f` does to the entries.
pub record Loads (addr segment page : ℕ) (lo lo' : ℕ → ℕ → ℕ) : Type 0 where
  pub kept : (t q : ℕ) → ¬ ((t ≡ segment) × (q ≡ page)) → lo' t q ≡ lo t q
  pub loaded : Names (lo' segment page) addr

pub same_page :
    (t q segment page : ℕ) → ((t ≡ segment) × (q ≡ page)) ⊎ (¬ ((t ≡ segment) × (q ≡ page)))
same_page t q segment page = elim (Bool-cases (t == segment)) [
  | inl e ↦ elim (Bool-cases (q == page)) [
    | inl d ↦ inl (==→eq t segment e, ==→eq q page d)
    | inr d ↦ inr (λ h. ==→ne q page d h.1)
  ]
  | inr e ↦ inr (λ h. ==→ne t segment e h.0)
]

pub IsIn-cases :
    (frame : SwapFrame) (segment page : ℕ) → IsIn frame segment page ⊎ (¬ IsIn frame segment page)
IsIn-cases frame segment page = elim (Bool-cases (frame.asid == 1)) [
  | inl e ↦ elim (same_page frame.seg_num frame.page_num segment page) [
    | inl d ↦ inl (record { asid = ==→eq frame.asid 1 e; seg_num = d.0; page_num = d.1 })
    | inr d ↦ inr (λ h. d (h.seg_num, h.page_num))
  ]
  | inr e ↦ inr (λ h. ==→ne frame.asid 1 e h.asid)
]

pub one_not_unoccupied : 1 ≢ unoccupied
one_not_unoccupied e = absurd (omega (arith, e))

-- A page in a frame has an entry that names the frame.
pub named :
    (addr : ℕ → ℕ) (lo : ℕ → ℕ → ℕ) (frames : ℕ → SwapFrame) (f segment page : ℕ)
    → Coherent addr lo frames
    → f < pool_size
    → IsIn (frames f) segment page
    → Names (lo segment page) (addr f)
named addr lo frames f segment page c l i = elim (c.resident f l) [
  | inl u ↦ absurd (one_not_unoccupied (sym i.asid ∙ u))
  | inr r ↦
      subst (λ (q : ℕ). Names (lo segment q) (addr f)) i.page_num
        (subst (λ (t : ℕ). Names (lo t (frames f).page_num) (addr f)) i.seg_num r.2)
]

-- Two frames do not hold the same page.
pub one_frame :
    (addr : ℕ → ℕ) (lo : ℕ → ℕ → ℕ) (frames : ℕ → SwapFrame) (f g segment page : ℕ)
    → AreFrames addr
    → Coherent addr lo frames
    → f < pool_size
    → g < pool_size
    → IsIn (frames f) segment page
    → IsIn (frames g) segment page
    → f ≡ g
one_frame addr lo frames f g segment page a c l m i j = a.apart f g l m (
    sym (named addr lo frames f segment page c l i).frame
    ∙ (named addr lo frames g segment page c m j).frame)

pub invalid :
    (lo' lo : ℕ) → lo' ≡ lo → has_bit lo' valid_on ≡ true → has_bit lo valid_on ≡ false → ⊥
invalid lo' lo e v w = cc

pub apart_pages :
    (lo : ℕ → ℕ → ℕ) (t q segment page : ℕ)
    → has_bit (lo t q) valid_on ≡ true
    → has_bit (lo segment page) valid_on ≡ false
    → ¬ ((t ≡ segment) × (q ≡ page))
apart_pages lo t q segment page v out h = let (e, d) = h in cc

-- Loading a page whose entry is not valid into a freed frame keeps the pool and the tables coherent.
pub load-Coherent :
    (addr : ℕ → ℕ) (lo lo' lo'' : ℕ → ℕ → ℕ) (frames : ℕ → SwapFrame) (f segment page : ℕ)
    → AreFrames addr
    → Coherent addr lo frames
    → f < pool_size
    → IsPage segment page
    → has_bit (lo segment page) valid_on ≡ false
    → Frees f lo lo' frames
    → Loads (addr f) segment page lo' lo''
    → Coherent addr lo'' (update frames f (record { asid = 1; seg_num = segment; page_num = page }))
load-Coherent addr lo lo' lo'' frames f segment page a c l p out free load =
    let new : SwapFrame = record { asid = 1; seg_num = segment; page_num = page } in
    let here : IsIn new segment page = record { asid = refl; seg_num = refl; page_num = refl } in
    record {
      resident = λ g m.
          update_cases (λ h x. IsResident lo'' (addr h) x) frames f new g
            (inr (here, p, load.loaded))
            (λ y. elim (c.resident g m) [
              | inl u ↦ inl u
              | inr r ↦ inr (
                r.0,
                r.1,
                (let t = (frames g).seg_num in
                    let q = (frames g).page_num in
                    let elsewhere : ¬ IsIn (frames f) t q =
                      λ i. ==→ne g f y (sym (one_frame addr lo frames f g t q a c l m i r.0)) in
                    let e =
                      load.kept t q (apart_pages lo t q segment page r.2.valid out)
                      ∙ free.kept t q elsewhere in
                    subst (λ (x : ℕ). Names x (addr g)) (sym e) r.2),
              )
            ]);
      present = λ t q r v. elim (same_page t q segment page) [
        | inl e ↦ (
          f,
          l,
          update_cases (λ h x. h ≡ f → IsIn x t q) frames f new f
              (λ z. record { asid = refl; seg_num = sym e.0; page_num = sym e.1 })
              (λ y. absurd (==→ne f f y refl)) refl,
        )
        | inr e ↦ elim (IsIn-cases (frames f) t q) [
          | inl i ↦ absurd (invalid (lo'' t q) (lo' t q) (load.kept t q e) v (free.gone t q i))
          | inr i ↦
              (let old =
                  ap (λ (x : ℕ). has_bit x valid_on) (sym (load.kept t q e ∙ free.kept t q i))
                  ∙ v in
                let (g, m, j) = c.present t q r old in
                (
                  g,
                  m,
                  update_cases (λ h x. h ≡ g → IsIn x t q) frames f new g
                      (λ z. absurd (i (subst (λ (x : ℕ). IsIn (frames x) t q) (sym z) j)))
                      (λ y z. j) refl,
                ))
        ]
      ];
    }
