-- ===== src/Support/Service.antt =====
-- Page faults served one after another: `UserTLBHandler` of kaya/phase3/pager.c.
use skara.Base.{ℕ, ◌+◌, ◌-◌, ◌^◌, ◌<◌, ◌≡◌, refl, ap, ◌∙◌, List, ◌∷◌}
use skara.Machine.{ok, stop, loads}
use skara.Support.{Support, Event, call}
use skara.Support.Transfer.{moved}
use skara.Support.Pager.{user_tlb_handler}
use skara.Support.Residence.{Names}
use skara.Support.Entries.{lo_at}
use skara.Support.Eviction.{addr_at, IsPool, expelled, flipped}
use skara.Support.Fault.{
  turn, filled, IsFault, brings_in, called, missing-is_here, return_to-called, handler-steps,
}

-- The service of a fault, as it reads off the states before and after it.
pub record Serves (s w : Support) (segment page : ℕ) : Type 0 where
  pub run : user_tlb_handler s ≡ stop (loads (s.old_areas 0 0)) w
  pub same : w ≡ record s {
    devices = w.devices;
    status = w.status;
    made = w.made;
    log = w.log;
    tables = w.tables;
    next_frame = s.next_frame + 1;
    frames = filled s segment page;
  }
  pub events :
      w.log
      ≡ call 3 s.layout.swapmutex 0 0
        ∷ flipped (
            moved s.layout 3 page 1 (segment - 2) (addr_at s.layout (turn s)) (
              expelled s.layout
                (s.frames (turn s))
                (addr_at s.layout (turn s))
                (call 4 s.layout.swapmutex 0 0 ∷ s.log)))
  pub loaded : Names (lo_at s.layout w.tables segment page) (addr_at s.layout (turn s))
  pub pool : IsPool s.layout (s.segments 1).kuseg3 w.tables (filled s segment page)

-- With a pool that is coherent, a frame counter below 2^31 - 1, and a fault of the process on an
-- invalid load or store of a missing page with a number below 32, of its own segment or of the
-- shared one (if the shared table is also entered under number 0), `UserTLBHandler` ends by loading
-- the process's old TLB area. The next frame in turn then holds the page, whose entry is valid and
-- names that frame, and the pool is coherent again. The events are, in this order: P of the swap
-- mutex; if the frame was occupied, the change of its page's entry and the transfer of the frame to
-- the disk; the transfer of the missing page into the frame; the change of its entry; V of the swap
-- mutex. An entry is changed with interrupts off and the TLB cleared, and a transfer stands between
-- P and V of the disk's mutex. Of the state only the devices, the status, the number of calls, the
-- log, the page tables, the frame counter and that frame's record differ.
pub user_tlb_handler-Serves :
    (s : Support) (segment page : ℕ)
    → s.next_frame + 1 < 2 ^ 31
    → IsPool s.layout (s.segments 1).kuseg3 s.tables s.frames
    → IsFault s segment page
    → (w : Support) × Serves s w segment page
user_tlb_handler-Serves s segment page n p q =
    let s0 = called s 4 s.layout.swapmutex in
    let (v, a) = brings_in s0 segment page n p q.is_page q.missing in
    let here = missing-is_here s0 segment page p.not_null q.is_page q.missing q.looked_up in
    let v1 : Support = record s {
      devices = v.devices;
      status = v.status;
      made = v.made;
      log = v.log;
      tables = v.tables;
      next_frame = s.next_frame + 1;
      frames = filled s segment page;
    } in
    let steps = handler-steps s v1 segment page q here (a.run ∙ ap (ok tt) a.same) in
    (
      called v1 3 s.layout.swapmutex,
      record {
        run = steps ∙ return_to-called v1;
        same = refl;
        events = ap (λ (x : List Event). call 3 s.layout.swapmutex 0 0 ∷ x) a.events;
        loaded = a.loaded;
        pool = a.pool;
      },
    )
