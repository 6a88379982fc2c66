-- ===== src/Support/Eviction.antt =====
-- The eviction of a page in `UserTLBHandler`, kaya/phase3/pager.c.
use skara.Base.{
  ℕ, ◌*◌, ◌<◌, ◌≡◌, ◌≢◌, refl, sym, ◌∙◌, ◌⊎◌, true, false, inl, inr, List, ◌∷◌, ◌==◌, if◌then◌else◌,
  eq→==, ne→==, subst,
}
use skara.Base.Word.{add, sub, has_bit, xor_bit}
use skara.Machine.{Ptr, null, ok, pure}
use skara.Support.{
  PageTable, SwapFrame, Support, Event, Layout, interrupts, tlb_clear, pool_size, kuseg2, kuseg3,
  page_size, max_kuseg, get_head_num,
}
use skara.Support.Start.{unoccupied}
use skara.Support.Transfer.{moved, after_transfer, guarded_transfer-moved}
use skara.Support.Pager.{evict, get_frame_addr, valid_on, get_kuseg3, get_kuseg2}
use skara.Support.Paging.{with_changed, changed, change_entry-changed}
use skara.Support.Residence.{AreFrames, Coherent, IsIn, Frees, one_not_unoccupied}
use skara.Support.Entries.{lo_at, evicted-Frees}

-- The addresses of the frames.
abbrev pub addr_at : Layout → ℕ → ℕ
addr_at at = get_frame_addr (sub (add at.rambase at.ramsize) (9 * page_size))

-- The swap pool and the tables belong together; `shared` is the shared segment's table of the process.
pub record IsPool (at : Layout) (shared : Ptr) (tables : Ptr → PageTable) (frames : ℕ → SwapFrame)
    : Type 0 where
  pub apart : at.kuseg3_pt ≢ at.kuseg2_pt 0
  pub not_null : at.kuseg3_pt ≢ null
  pub one_table : shared ≡ at.kuseg3_pt
  pub are_frames : AreFrames (addr_at at)
  pub coherent : Coherent (addr_at at) (lo_at at tables) frames

-- The events of a change of an entry, and of an eviction.
abbrev pub flipped : List Event → List Event
flipped log = interrupts true ∷ tlb_clear ∷ interrupts false ∷ log

abbrev pub expelled : Layout → SwapFrame → ℕ → List Event → List Event
expelled at old addr log =
    if old.asid == unoccupied
    then log
    else (if old.seg_num == kuseg3
        then moved at 4 old.page_num 0 1 addr (flipped log)
        else moved at 4 old.page_num 1 0 addr (flipped log))

pub head_two : (t : Support) → get_head_num kuseg2 t ≡ ok 0 t
unfolding get_head_num
head_two t = refl

pub head_three : (t : Support) → get_head_num kuseg3 t ≡ ok 1 t
unfolding get_head_num
head_three t = refl

evict_own :
    (s : Support) (page addr : ℕ)
    → page < max_kuseg
    → evict (record { asid = 1; seg_num = kuseg2; page_num = page }) addr s
      ≡ ok tt (
          after_transfer
            (changed s (s.layout.kuseg2_pt 0) page (λ lo. xor_bit lo valid_on))
            4
            page
            1
            0
            addr)
unfolding evict
evict_own s page addr l =
    simp
      (change_entry-changed (get_kuseg2 1) (s.layout.kuseg2_pt 0) page (λ lo. xor_bit lo valid_on) s
        refl l)
      (guarded_transfer-moved (changed s (s.layout.kuseg2_pt 0) page (λ lo. xor_bit lo valid_on)) 4
        page 1 kuseg2 0 addr head_two)

evict_shared :
    (s : Support) (page addr : ℕ)
    → page < max_kuseg
    → (s.segments 1).kuseg3 ≢ null
    → evict (record { asid = 1; seg_num = kuseg3; page_num = page }) addr s
      ≡ ok tt (
          after_transfer
            (changed s (s.segments 1).kuseg3 page (λ lo. xor_bit lo valid_on))
            4
            page
            0
            1
            addr)
unfolding evict
evict_shared s page addr l z =
    simp
      (change_entry-changed (get_kuseg3 1) (s.segments 1).kuseg3 page (λ lo. xor_bit lo valid_on) s
        (simp (ne→== (s.segments 1).kuseg3 null z)) l)
      (guarded_transfer-moved (changed s (s.segments 1).kuseg3 page (λ lo. xor_bit lo valid_on)) 4
        page 0 kuseg3 1 addr head_three)

pub frame_of :
    (frame : SwapFrame) (t q : ℕ)
    → IsIn frame t q
    → frame ≡ record { asid = 1; seg_num = t; page_num = q }
frame_of frame t q h =
    λ k. record { asid = h.asid k; seg_num = h.seg_num k; page_num = h.page_num k }

-- The run of the eviction: what differs after it, the events, and the entries.
pub record Evicts (s t : Support) (f : ℕ) (old : SwapFrame) : Type 0 where
  pub run : (if old.asid == unoccupied then pure tt else evict old (addr_at s.layout f)) s ≡ ok tt t
  pub same : t ≡ record s {
    devices = t.devices;
    status = t.status;
    made = t.made;
    log = t.log;
    tables = t.tables;
  }
  pub events : t.log ≡ expelled s.layout old (addr_at s.layout f) s.log
  pub frees : Frees f (lo_at s.layout s.tables) (lo_at s.layout t.tables) s.frames

Evicts-own :
    (s : Support) (f page : ℕ)
    → page < max_kuseg
    → s.layout.kuseg3_pt ≢ s.layout.kuseg2_pt 0
    → IsIn (s.frames f) kuseg2 page
    → has_bit (lo_at s.layout s.tables kuseg2 page) valid_on ≡ true
    → (t : Support) × Evicts s t f (record { asid = 1; seg_num = kuseg2; page_num = page })
Evicts-own s f page l d i v = (
  after_transfer (changed s (s.layout.kuseg2_pt 0) page (λ lo. xor_bit lo valid_on)) 4 page 1 0
      (addr_at s.layout f),
  record {
    run = evict_own s page (addr_at s.layout f) l;
    same = refl;
    events = refl;
    frees = evicted-Frees s.layout s.tables s.frames f kuseg2 page d (inl refl) i v;
  },
)

Evicts-shared :
    (s : Support) (f page : ℕ)
    → page < max_kuseg
    → s.layout.kuseg3_pt ≢ s.layout.kuseg2_pt 0
    → s.layout.kuseg3_pt ≢ null
    → (s.segments 1).kuseg3 ≡ s.layout.kuseg3_pt
    → IsIn (s.frames f) kuseg3 page
    → has_bit (lo_at s.layout s.tables kuseg3 page) valid_on ≡ true
    → (t : Support) × Evicts s t f (record { asid = 1; seg_num = kuseg3; page_num = page })
Evicts-shared s f page l d z e i v = (
  after_transfer (changed s (s.segments 1).kuseg3 page (λ lo. xor_bit lo valid_on)) 4 page 0 1
      (addr_at s.layout f),
  record {
    run = evict_shared s page (addr_at s.layout f) l (λ n. z (sym e ∙ n));
    same = refl;
    events = refl;
    frees =
        subst
          (λ (a : Ptr).
            Frees f (lo_at s.layout s.tables)
              (lo_at s.layout (with_changed s.tables a page (λ lo. xor_bit lo valid_on))) s.frames)
          (sym e) (evicted-Frees s.layout s.tables s.frames f kuseg3 page d (inr refl) i v);
  },
)

Evicts-page :
    (s : Support) (f segment page : ℕ)
    → (segment ≡ kuseg2) ⊎ (segment ≡ kuseg3)
    → page < max_kuseg
    → IsPool s.layout (s.segments 1).kuseg3 s.tables s.frames
    → IsIn (s.frames f) segment page
    → has_bit (lo_at s.layout s.tables segment page) valid_on ≡ true
    → (t : Support) × Evicts s t f (record { asid = 1; seg_num = segment; page_num = page })
Evicts-page s f segment page (inl e) l p =
    subst
      (λ (g : ℕ).
        IsIn (s.frames f) g page
        → has_bit (lo_at s.layout s.tables g page) valid_on ≡ true
        → (t : Support) × Evicts s t f (record { asid = 1; seg_num = g; page_num = page }))
      (sym e) (Evicts-own s f page l p.apart)
Evicts-page s f segment page (inr e) l p =
    subst
      (λ (g : ℕ).
        IsIn (s.frames f) g page
        → has_bit (lo_at s.layout s.tables g page) valid_on ≡ true
        → (t : Support) × Evicts s t f (record { asid = 1; seg_num = g; page_num = page }))
      (sym e) (Evicts-shared s f page l p.apart p.not_null p.one_table)

pub evict-Evicts :
    (s : Support) (f : ℕ)
    → f < pool_size
    → IsPool s.layout (s.segments 1).kuseg3 s.tables s.frames
    → (t : Support) × Evicts s t f (s.frames f)
evict-Evicts s f l p = elim (p.coherent.resident f l) [
  | inl u ↦ (
    s,
    record {
      run = rw (eq→== (s.frames f).asid unoccupied u) refl;
      same = refl;
      events = rw (eq→== (s.frames f).asid unoccupied u) refl;
      frees = record {
        kept = λ t q n. refl;
        gone = λ t q i. absurd (one_not_unoccupied (sym i.asid ∙ u));
      };
    },
  )
  | inr (i, q, n) ↦
      subst (λ (x : SwapFrame). (t : Support) × Evicts s t f x)
        (sym (frame_of (s.frames f) (s.frames f).seg_num (s.frames f).page_num i))
        (Evicts-page s f (s.frames f).seg_num (s.frames f).page_num q.paged q.listed p i n.valid)
]
