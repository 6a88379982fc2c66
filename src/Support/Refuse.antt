-- ===== src/Support/Refuse.antt =====
-- `UserTLBHandler` where no page comes in, kaya/phase3/pager.c.
use skara.Base.{
  ℕ, ◌+◌, ◌^◌, ◌<◌, ◌≤◌, ◌≡◌, ◌≢◌, refl, ap, ◌∙◌, true, false, inl, inr, arith, ◌==◌, not, ◌&&◌,
  ltb, ◌⊎◌, ne→==,
}
use skara.Base.Word.{has_bit, sub}
use skara.Machine.{null, ok, stop, loads, ends, fault}
use skara.Support.{allow_interrupts, Support, pool_size, max_kuseg, kuseg2, kuseg3, asid_of}
use skara.Support.Transfer.{guarded_transfer-moved}
use skara.Support.Pager.{
  user_tlb_handler, valid_on, find_frame, bring_in, is_here, exc_code, segment_of, page_of, publish,
  change_entry,
}
use skara.Support.Eviction.{addr_at, IsPool, Evicts, evict-Evicts, head_two}
use skara.Support.Arrival.{find_frame-turn, vacated}
use skara.Support.Fault.{turn, called, return_to-called}

-- The process's own fault, on an invalid load or store.
pub record IsOwn (s : Support) (segment page : ℕ) : Type 0 where
  pub who : asid_of s.entry_hi ≡ 1
  pub why : (exc_code (s.old_areas 0 0).s_cause ≡ 2) ⊎ (exc_code (s.old_areas 0 0).s_cause ≡ 3)
  pub faulting_segment : segment_of (s.old_areas 0 0).s_asid ≡ segment
  pub faulting_page : page_of (s.old_areas 0 0).s_asid ≡ page

expects :
    (s : Support) (segment page : ℕ)
    → IsOwn s segment page
    → (let code = exc_code (s.old_areas 0 0).s_cause in not (code == 2) && not (code == 3)) ≡ false
expects s segment page q = elim q.why [ inl e ↦ ground arith | inr e ↦ ground arith ]

-- On a fault in the shared segment at one of 32 pages that the table under number 0, which is not NULL, has as valid,
-- the handler takes and releases the swap mutex, loads the process's old TLB area, and changes
-- nothing else.
pub user_tlb_handler-here :
    (s : Support) (page : ℕ)
    → IsOwn s kuseg3 page
    → page < max_kuseg
    → (s.segments 0).kuseg3 ≢ null
    → has_bit ((s.tables (s.segments 0).kuseg3).entries page).entry_lo valid_on ≡ true
    → user_tlb_handler s
      ≡ stop (loads (s.old_areas 0 0)) (called (called s 4 s.layout.swapmutex) 3 s.layout.swapmutex)
unfolding user_tlb_handler is_here
user_tlb_handler-here s page q l z v =
    let inside : ltb page max_kuseg ≡ true = ground (arith, l) in
    simp (q.who) (
      simp (expects s kuseg3 page q) (
        simp (q.faulting_segment, q.faulting_page)
          (simp (ne→== (s.segments 0).kuseg3 null z, inside, v)
            (return_to-called (called s 4 s.layout.swapmutex)))))

-- On another exception than an invalid load or store, the handler makes a SYS18 and nothing else.
pub user_tlb_handler-ends :
    (s : Support)
    → asid_of s.entry_hi ≡ 1
    → exc_code (s.old_areas 0 0).s_cause ≢ 2
    → exc_code (s.old_areas 0 0).s_cause ≢ 3
    → user_tlb_handler s ≡ stop ends (called s 18 0)
unfolding user_tlb_handler
user_tlb_handler-ends s e m n =
    let code = exc_code (s.old_areas 0 0).s_cause in
    let other : (not (code == 2) && not (code == 3)) ≡ true = ground arith in
    simp (e) (simp (other) refl)

-- When the frame counter is 2^31 - 1, a fault of the process in its own segment makes the counter
-- negative, and the handler goes past the swap pool.
pub user_tlb_handler-overflows :
    (s : Support) (page : ℕ)
    → IsOwn s kuseg2 page
    → s.next_frame + 1 ≡ 2 ^ 31
    → user_tlb_handler s ≡ fault
unfolding user_tlb_handler is_here bring_in
user_tlb_handler-overflows s page q e =
    let s0 = called s 4 s.layout.swapmutex in
    let found : find_frame s0 ≡ ok (sub 0 2) (record s0 { next_frame = 2 ^ 31 }) =
      elim (find_frame-turn s0 (omega (arith, e))) [
        | inl (n, _, _) ↦ absurd (omega (arith, n, e))
        | inr (_, r) ↦ r
      ] in
    simp (q.who) (
      simp (expects s kuseg2 page q)
        (simp (q.faulting_segment, q.faulting_page) (simp (found) refl)))

bring_in-past :
    (s t : Support) (page : ℕ)
    → s.next_frame + 1 < 2 ^ 31
    → Evicts (record s { next_frame = s.next_frame + 1 }) t (turn s) (s.frames (turn s))
    → max_kuseg ≤ page
    → bring_in 1 kuseg2 page s ≡ fault
unfolding bring_in publish change_entry allow_interrupts
bring_in-past s t page n e p =
    let f = turn s in
    let found : find_frame s ≡ ok f (record s { next_frame = s.next_frame + 1 }) =
      elim (find_frame-turn s (omega arith)) [
        | inl (_, r, _) ↦ r
        | inr (d, _) ↦ absurd (omega (arith, d))
      ] in
    let inside : ltb f pool_size ≡ true = ground arith in
    let past : ltb page max_kuseg ≡ false = ground arith in
    let v = vacated s t.devices t.status t.made t.log t.tables in
    simp (found, inside)
      (simp (e.run ∙ ap (ok tt) e.same) (
        simp (guarded_transfer-moved v 3 page 1 kuseg2 0 (addr_at s.layout f) head_two)
          (simp (past) refl)))

-- With a coherent pool and a frame counter below 2^31 - 1, a fault in the process's own segment at
-- a page number of 32 or more, as that of the stack page is, makes the handler go past the 32
-- entries of the page table.
pub user_tlb_handler-past :
    (s : Support) (page : ℕ)
    → IsOwn s kuseg2 page
    → max_kuseg ≤ page
    → s.next_frame + 1 < 2 ^ 31
    → IsPool s.layout (s.segments 1).kuseg3 s.tables s.frames
    → user_tlb_handler s ≡ fault
unfolding user_tlb_handler is_here
user_tlb_handler-past s page q l n p =
    let s0 = called s 4 s.layout.swapmutex in
    let (t, e) =
      evict-Evicts (record s0 { next_frame = s.next_frame + 1 }) (turn s) (omega arith) p in
    simp (q.who) (
      simp (expects s kuseg2 page q)
        (simp (q.faulting_segment, q.faulting_page) (simp (bring_in-past s0 t page n e l) refl)))
