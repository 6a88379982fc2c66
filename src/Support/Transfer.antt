-- ===== src/Support/Transfer.antt =====
-- What a transfer and a change of a page table entry do to the state of the user level.
use skara.Base.{ℕ, suc, ◌≡◌, true, false, List, ◌∷◌, arith, update}
use skara.Base.Word.{or_bit, drop_bit}
use skara.Machine.{Ptr, ok}
use skara.Kernel.{Device}
use skara.Support.{
  Support, Event, Layout, call, command, data0, interrupts, allow_interrupts, transfer,
  guarded_transfer, get_head_num, backing_store, seek_command, block_command, get_cylinder_num,
  get_sector_num, device_sema4,
}

-- Interrupts off and on again is interrupts on.
pub or-drop : (a : ℕ) → or_bit (drop_bit a 1) 1 ≡ or_bit a 1
or-drop a = ground arith

-- The events of a guarded transfer, the latest first.
abbrev pub moved : Layout → ℕ → ℕ → ℕ → ℕ → ℕ → List Event → List Event
moved at operation page proc_num head buffer log =
    call 3 (device_sema4 at 3 0) 0 0
    ∷ interrupts true
    ∷ call 8 3 0 0
    ∷ command backing_store (block_command operation (get_sector_num proc_num) head)
    ∷ data0 backing_store buffer
    ∷ call 8 3 0 0
    ∷ command backing_store (seek_command (get_cylinder_num page))
    ∷ interrupts false
    ∷ call 4 (device_sema4 at 3 0) 0 0
    ∷ log

-- The devices after it: the disk's registers are written and the machine works four times.
abbrev pub stirred : Support → ℕ → ℕ → ℕ → Ptr → Device
stirred s seek block buffer =
    let d = s.works s.made s.devices in
    let d = update d backing_store (record (d backing_store) { d_command = seek }) in
    let d = s.works (suc s.made) d in
    let d = update d backing_store (record (d backing_store) { d_data0 = buffer }) in
    let d = update d backing_store (record (d backing_store) { d_command = block }) in
    s.works (suc (suc (suc s.made))) (s.works (suc (suc s.made)) d)

-- The state after it.
abbrev pub after_transfer : Support → ℕ → ℕ → ℕ → ℕ → ℕ → Support
after_transfer s operation page proc_num head buffer = record s {
  devices =
      stirred s (seek_command (get_cylinder_num page))
        (block_command operation (get_sector_num proc_num) head) buffer;
  status = or_bit s.status 1;
  made = suc (suc (suc (suc s.made)));
  log = moved s.layout operation page proc_num head buffer s.log;
}

pub guarded_transfer-moved :
    (s : Support) (operation page proc_num segment head buffer : ℕ)
    → ((t : Support) → get_head_num segment t ≡ ok head t)
    → guarded_transfer operation page proc_num segment buffer s
      ≡ ok tt (after_transfer s operation page proc_num head buffer)
unfolding guarded_transfer transfer allow_interrupts
guarded_transfer-moved s operation page proc_num segment head buffer h = simp (h, or-drop s.status)
