-- ===== src/Support/Arrival.antt =====
-- The choice of a frame and the arrival of a page in `UserTLBHandler`, kaya/phase3/pager.c.
use skara.Base.{
  ℕ, ◌+◌, ◌-◌, ◌^◌, ◌%◌, ◌<◌, ◌≡◌, ◌≢◌, refl, sym, ◌⊎◌, true, inl, inr, List, arith, ◌==◌,
  if◌then◌else◌, update, Bool-cases, ltb, ==→eq, ne→==, subst,
}
use skara.Base.Word.{sub, srem}
use skara.Machine.{Ptr, null, ok, pure}
use skara.Kernel.{Device}
use skara.Support.{PageTable, SwapFrame, Support, Event, pool_size, kuseg2, kuseg3, max_kuseg}
use skara.Support.Start.{unoccupied}
use skara.Support.Transfer.{after_transfer, guarded_transfer-moved}
use skara.Support.Pager.{find_frame, bring_in, publish, evict, mapped, get_kuseg3, get_kuseg2}
use skara.Support.Paging.{changed, change_entry-changed}
use skara.Support.Eviction.{addr_at, head_two, head_three}

-- For a counter below 2^31, `findFrame` counts one up; if the sum is below 2^31 the frame is the
-- sum modulo 6 and is in the pool, and if it is 2^31 the frame is -2.
pub find_frame-turn :
    (s : Support)
    → s.next_frame < 2 ^ 31
    → ((s.next_frame + 1 < 2 ^ 31)
        × (find_frame s
            ≡ ok ((s.next_frame + 1) % pool_size) (record s { next_frame = s.next_frame + 1 }))
        × ((s.next_frame + 1) % pool_size < pool_size))
      ⊎ ((s.next_frame + 1 ≡ 2 ^ 31)
          × (find_frame s ≡ ok (sub 0 2) (record s { next_frame = 2 ^ 31 })))
unfolding find_frame
find_frame-turn s l = elim (Bool-cases (s.next_frame + 1 == 2 ^ 31)) [
  | inl e ↦
      (let d = ==→eq (s.next_frame + 1) (2 ^ 31) e in
        inr (
          d,
          subst
              (λ (x : ℕ).
                ok (srem (x % 2 ^ 32) pool_size) (record s { next_frame = x % 2 ^ 32 })
                ≡ ok (sub 0 2) (record s { next_frame = 2 ^ 31 }))
              (sym d) refl,
        ))
  | inr e ↦
      (let d : s.next_frame + 1 < 2 ^ 31 = ground arith in
        let small : (s.next_frame + 1) % 2 ^ 32 ≡ s.next_frame + 1 = omega arith in
        let turn : srem (s.next_frame + 1) pool_size ≡ (s.next_frame + 1) % pool_size =
          ground arith in
        inl (d, simp (small, turn), ground arith))
]

-- The state after the eviction, and the state after the arrival of a page.
abbrev pub vacated : Support → (Ptr → Device) → ℕ → ℕ → List Event → (Ptr → PageTable) → Support
vacated s d status m log tables = record s {
  next_frame = s.next_frame + 1;
  devices = d;
  status = status;
  made = m;
  log = log;
  tables = tables;
}

abbrev pub arrived : Support → ℕ → ℕ → ℕ → Ptr → Support
arrived t f segment page table =
    let addr = addr_at t.layout f in
    let new : SwapFrame = record { asid = 1; seg_num = segment; page_num = page } in
    let u = after_transfer t 3 page 1 (segment - 2) addr in
    changed (record u { frames = update t.frames f new }) table page (mapped addr)

pub arrive_own :
    (s : Support) (f page : ℕ) (d : Ptr → Device) (status m : ℕ) (log : List Event)
    (tables : Ptr → PageTable)
    → find_frame s ≡ ok f (record s { next_frame = s.next_frame + 1 })
    → f < pool_size
    → page < max_kuseg
    → (if (s.frames f).asid == unoccupied then pure tt else evict (s.frames f) (addr_at s.layout f))
        (record s { next_frame = s.next_frame + 1 })
      ≡ ok tt (vacated s d status m log tables)
    → bring_in 1 kuseg2 page s
      ≡ ok tt (arrived (vacated s d status m log tables) f kuseg2 page (s.layout.kuseg2_pt 0))
unfolding bring_in publish
arrive_own s f page d status m log tables found l p run =
    let t = vacated s d status m log tables in
    let addr = addr_at s.layout f in
    let u = record (after_transfer t 3 page 1 0 addr) {
      frames = update s.frames f (record { asid = 1; seg_num = kuseg2; page_num = page });
    } in
    let inside : ltb f pool_size ≡ true = ground arith in
    simp (found, inside)
      (simp (run) (
        simp (guarded_transfer-moved t 3 page 1 kuseg2 0 addr head_two)
          (change_entry-changed (get_kuseg2 1) (s.layout.kuseg2_pt 0) page (mapped addr) u refl p)))

pub arrive_shared :
    (s : Support) (f page : ℕ) (d : Ptr → Device) (status m : ℕ) (log : List Event)
    (tables : Ptr → PageTable)
    → find_frame s ≡ ok f (record s { next_frame = s.next_frame + 1 })
    → f < pool_size
    → page < max_kuseg
    → (s.segments 1).kuseg3 ≢ null
    → (if (s.frames f).asid == unoccupied then pure tt else evict (s.frames f) (addr_at s.layout f))
        (record s { next_frame = s.next_frame + 1 })
      ≡ ok tt (vacated s d status m log tables)
    → bring_in 1 kuseg3 page s
      ≡ ok tt (arrived (vacated s d status m log tables) f kuseg3 page (s.segments 1).kuseg3)
unfolding bring_in publish
arrive_shared s f page d status m log tables found l p z run =
    let t = vacated s d status m log tables in
    let addr = addr_at s.layout f in
    let u = record (after_transfer t 3 page 1 1 addr) {
      frames = update s.frames f (record { asid = 1; seg_num = kuseg3; page_num = page });
    } in
    let inside : ltb f pool_size ≡ true = ground arith in
    simp (found, inside)
      (simp (run) (
        simp (guarded_transfer-moved t 3 page 1 kuseg3 1 addr head_three) (
          change_entry-changed (get_kuseg3 1) (s.segments 1).kuseg3 page (mapped addr) u
            (simp (ne→== (s.segments 1).kuseg3 null z)) p)))
