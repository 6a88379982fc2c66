-- ===== src/Support/Fault.antt =====
-- `UserTLBHandler` on a page that is missing, kaya/phase3/pager.c.
use skara.Base.{
  ℕ, suc, ◌+◌, ◌-◌, ◌^◌, ◌%◌, ◌<◌, ◌≡◌, refl, sym, ap, ◌∙◌, ◌⊎◌, Bool, true, false, inl, inr, List,
  ◌∷◌, arith, ◌==◌, update, ltb, subst, ne→==, ◌≢◌, not, ◌&&◌,
}
use skara.Base.Word.{has_bit}
use skara.Machine.{Ptr, null, ok, stop, loads}
use skara.Support.{SwapFrame, Support, Event, call, pool_size, kuseg3, max_kuseg, asid_of}
use skara.Support.Transfer.{moved}
use skara.Support.Pager.{
  find_frame, bring_in, mapped, valid_on, user_tlb_handler, is_here, return_to, exc_code,
  segment_of, page_of,
}
use skara.Support.Paging.{with_changed}
use skara.Support.Residence.{IsPage, Names, Loads, load-Coherent, mapped-Names}
use skara.Support.Entries.{table_at, lo_at, loaded-Loads}
use skara.Support.Eviction.{addr_at, IsPool, Evicts, evict-Evicts, expelled, flipped}
use skara.Support.Arrival.{find_frame-turn, vacated, arrived, arrive_own, arrive_shared}

-- The frame that a fault takes.
abbrev pub turn : Support → ℕ
turn s = (s.next_frame + 1) % pool_size

abbrev pub filled : Support → ℕ → ℕ → ℕ → SwapFrame
filled s segment page =
    update s.frames (turn s) (record { asid = 1; seg_num = segment; page_num = page })

-- A page has come in: the run, the parts of the state that are the same, the events, the page's entry, and
-- the pool.
pub record Arrives (s v : Support) (segment page : ℕ) : Type 0 where
  pub run : bring_in 1 segment page s ≡ ok tt v
  pub same : v ≡ record s {
    devices = v.devices;
    status = v.status;
    made = v.made;
    log = v.log;
    tables = v.tables;
    next_frame = s.next_frame + 1;
    frames = filled s segment page;
  }
  pub events :
      v.log
      ≡ flipped (
          moved s.layout 3 page 1
            (segment - 2)
            (addr_at s.layout (turn s))
            (expelled s.layout (s.frames (turn s)) (addr_at s.layout (turn s)) s.log))
  pub loaded : Names (lo_at s.layout v.tables segment page) (addr_at s.layout (turn s))
  pub pool : IsPool s.layout (s.segments 1).kuseg3 v.tables (filled s segment page)

arrives :
    (s t : Support) (segment page : ℕ) (table : Ptr)
    → Evicts (record s { next_frame = s.next_frame + 1 }) t (turn s) (s.frames (turn s))
    → IsPool s.layout (s.segments 1).kuseg3 s.tables s.frames
    → IsPage segment page
    → has_bit (lo_at s.layout s.tables segment page) valid_on ≡ false
    → table ≡ table_at s.layout segment
    → bring_in 1 segment page s
      ≡ ok tt
          (arrived (vacated s t.devices t.status t.made t.log t.tables) (turn s) segment page table)
    → (v : Support) × Arrives s v segment page
arrives s t segment page table e p q out at_table run =
    let at = s.layout in
    let f = turn s in
    let l : f < pool_size = omega arith in
    let loads : Loads (addr_at at f) segment page (lo_at at t.tables)
        (lo_at at (with_changed t.tables table page (mapped (addr_at at f)))) =
      subst
        (λ (a : Ptr).
          Loads (addr_at at f) segment page (lo_at at t.tables)
            (lo_at at (with_changed t.tables a page (mapped (addr_at at f)))))
        (sym at_table)
        (loaded-Loads at t.tables (addr_at at f) segment page p.apart q.paged (
          mapped-Names (addr_at at f) (lo_at at t.tables segment page) (p.are_frames.aligned f l)
            (p.are_frames.below f l))) in
    (
      arrived (vacated s t.devices t.status t.made t.log t.tables) f segment page table,
      record {
        run = run;
        same = refl;
        events =
            ap (λ (x : List Event). flipped (moved at 3 page 1 (segment - 2) (addr_at at f) x))
              e.events;
        loaded = loads.loaded;
        pool = record {
          apart = p.apart;
          not_null = p.not_null;
          one_table = p.one_table;
          are_frames = p.are_frames;
          coherent =
              load-Coherent (addr_at at) (lo_at at s.tables) (lo_at at t.tables)
                (lo_at at (with_changed t.tables table page (mapped (addr_at at f)))) s.frames f
                segment page p.are_frames p.coherent l q out e.frees loads;
        };
      },
    )

-- What a fault is: the process's own, on an invalid load or store, for a page that is missing. The shared
-- segment's table is looked up under the number below the process's.
pub record IsFault (s : Support) (segment page : ℕ) : Type 0 where
  pub who : asid_of s.entry_hi ≡ 1
  pub why : (exc_code (s.old_areas 0 0).s_cause ≡ 2) ⊎ (exc_code (s.old_areas 0 0).s_cause ≡ 3)
  pub faulting_segment : segment_of (s.old_areas 0 0).s_asid ≡ segment
  pub faulting_page : page_of (s.old_areas 0 0).s_asid ≡ page
  pub is_page : IsPage segment page
  pub missing : has_bit (lo_at s.layout s.tables segment page) valid_on ≡ false
  pub looked_up : segment ≡ kuseg3 → (s.segments 0).kuseg3 ≡ s.layout.kuseg3_pt

pub brings_in :
    (s : Support) (segment page : ℕ)
    → s.next_frame + 1 < 2 ^ 31
    → IsPool s.layout (s.segments 1).kuseg3 s.tables s.frames
    → IsPage segment page
    → has_bit (lo_at s.layout s.tables segment page) valid_on ≡ false
    → (v : Support) × Arrives s v segment page
brings_in s segment page n p q out =
    let f = turn s in
    let found : find_frame s ≡ ok f (record s { next_frame = s.next_frame + 1 }) =
      elim (find_frame-turn s (omega arith)) [
        | inl (_, r, _) ↦ r
        | inr (d, _) ↦ absurd (omega (arith, d))
      ] in
    let l : f < pool_size = omega arith in
    let (t, e) = evict-Evicts (record s { next_frame = s.next_frame + 1 }) f l p in
    let run = e.run ∙ ap (ok tt) e.same in
    elim q.paged [
      | inl g ↦
          arrives s t segment page (s.layout.kuseg2_pt 0) e p q out
            (subst (λ (x : ℕ). s.layout.kuseg2_pt 0 ≡ table_at s.layout x) (sym g) refl)
            (subst
              (λ (x : ℕ).
                bring_in 1 x page s
                ≡ ok tt (
                    arrived (vacated s t.devices t.status t.made t.log t.tables) f x page
                      (s.layout.kuseg2_pt 0)))
              (sym g)
              (arrive_own s f page t.devices t.status t.made t.log t.tables found l q.listed run))
      | inr g ↦
          arrives s t segment page (s.segments 1).kuseg3 e p q out
            (subst (λ (x : ℕ). (s.segments 1).kuseg3 ≡ table_at s.layout x) (sym g) p.one_table)
            (subst
              (λ (x : ℕ).
                bring_in 1 x page s
                ≡ ok tt (
                    arrived (vacated s t.devices t.status t.made t.log t.tables) f x page
                      (s.segments 1).kuseg3))
              (sym g)
              (arrive_shared s f page t.devices t.status t.made t.log t.tables found l q.listed
                (λ z. p.not_null (sym p.one_table ∙ z)) run))
    ]

-- The state after a system call that returns.
abbrev pub called : Support → ℕ → Ptr → Support
called s number a = record s {
  log = call number a 0 0 ∷ s.log;
  made = suc s.made;
  devices = s.works s.made s.devices;
}

pub missing-is_here :
    (s : Support) (segment page : ℕ)
    → s.layout.kuseg3_pt ≢ null
    → IsPage segment page
    → has_bit (lo_at s.layout s.tables segment page) valid_on ≡ false
    → (segment ≡ kuseg3 → (s.segments 0).kuseg3 ≡ s.layout.kuseg3_pt)
    → is_here 1 segment page s ≡ ok false s
unfolding is_here
missing-is_here s segment page z q out same = elim q.paged [
  | inl e ↦ subst (λ (x : ℕ). is_here 1 x page s ≡ ok false s) (sym e) refl
  | inr e ↦
      (let inside : ltb page max_kuseg ≡ true = ground (arith, q.listed) in
        let lo = ((s.tables s.layout.kuseg3_pt).entries page).entry_lo in
        let invalid : has_bit lo valid_on ≡ false =
          subst (λ (x : ℕ). has_bit (lo_at s.layout s.tables x page) valid_on ≡ false) e out in
        subst (λ (x : ℕ). is_here 1 x page s ≡ ok false s) (sym e)
          (simp (same e, ne→== s.layout.kuseg3_pt null z, inside)
            (ap (λ (b : Bool). ok b s) invalid)))
]

pub return_to-called :
    (s : Support) → return_to 0 s ≡ stop (loads (s.old_areas 0 0)) (called s 3 s.layout.swapmutex)
unfolding return_to
return_to-called s = refl

pub handler-steps :
    (s v : Support) (segment page : ℕ)
    → IsFault s segment page
    → is_here 1 segment page (called s 4 s.layout.swapmutex)
      ≡ ok false (called s 4 s.layout.swapmutex)
    → bring_in 1 segment page (called s 4 s.layout.swapmutex) ≡ ok tt v
    → user_tlb_handler s ≡ return_to 0 v
unfolding user_tlb_handler
handler-steps s v segment page q here run =
    let code = exc_code (s.old_areas 0 0).s_cause in
    let expected : (not (code == 2) && not (code == 3)) ≡ false = elim q.why [
      | inl e ↦ ground arith
      | inr e ↦ ground arith
    ] in
    simp (q.who)
      (simp (expected) (simp (q.faulting_segment, q.faulting_page) (simp (here) (simp (run) refl))))
