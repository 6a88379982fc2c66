-- ===== src/Support.antt =====
-- The level of the user processes, kaya/phase3: its globals (initProc.c), what it reads and writes
-- of the machine, and the system calls that it makes.
pub mod Places
pub mod Transfer
pub mod Start
pub mod Pager
pub mod Paging
pub mod Residence
pub mod Entries
pub mod Eviction
pub mod Arrival
pub mod Fault
pub mod Service
pub mod Reach
pub mod Misplaced
pub mod Refuse
pub mod SetUp
pub mod Begin
pub mod Terminal
pub mod Print
pub mod Tape
pub mod Process
mod Tests
pub mod Calls
use skara.Base.{
  ℕ, suc, ◌+◌, ◌-◌, ◌*◌, ◌==◌, ◌||◌, if◌then◌else◌, Bool, true, false, List, ◌∷◌, update, ltb, ◌/◌,
  ◌%◌, ◌^◌,
}
use skara.Base.Word.{add, sub, shl, or_bit, drop_bit, is_neg, sdiv}
use skara.Machine.{
  Ptr, null, ProcState, ends, loads, Cmd, ok, stop, fault, pure, ◌>>=◌, ◌>>◌, get, modify,
}
use skara.Kernel.{Device}
use skara.Kernel.Semaphores.{device_index}

-- `pagetbe_t`.
pub record PageEntry : Type 0 where
  pub entry_hi : ℕ
  pub entry_lo : ℕ

-- `kupagetable_t` and `ospagetable_t`.
pub record PageTable : Type 0 where
  pub header : ℕ
  pub entries : ℕ → PageEntry

-- `segtbe_t`.
pub record Segments : Type 0 where
  pub ksegos : Ptr
  pub kuseg2 : Ptr
  pub kuseg3 : Ptr

-- `frameswappoole_t`, without the field that no code uses.
pub record SwapFrame : Type 0 where
  pub asid : ℕ
  pub seg_num : ℕ
  pub page_num : ℕ

-- What the code asks of the rest of the machine: a system call, the data and command registers of a
-- device and the command register of a terminal's transmitter, the TLB, and whether interrupts are
-- allowed.
pub data Event : Type 0 where
  call : ℕ → ℕ → ℕ → ℕ → Event
  data0 : Ptr → ℕ → Event
  command : Ptr → ℕ → Event
  transmit : Ptr → ℕ → Event
  tlb_clear : Event
  interrupts : Bool → Event

-- Addresses that the linker fixes, and the extent of RAM.
pub record Layout : Type 0 where
  pub master_sema4 : Ptr
  pub swapmutex : Ptr
  pub device_sema4s : Ptr
  pub initial_state : Ptr
  pub ksegos_pt : Ptr
  pub kuseg3_pt : Ptr
  pub kuseg2_pt : ℕ → Ptr
  pub old_areas : ℕ → ℕ → Ptr
  pub new_areas : ℕ → ℕ → Ptr
  pub u_proc_init : ℕ
  pub user_tlb_handler : ℕ
  pub user_program_trap_handler : ℕ
  pub user_syscall_handler : ℕ
  pub rambase : ℕ
  pub ramsize : ℕ

-- `tables` are the page tables by address, `words` the `int`s, `chars` the `char`s widened to words;
-- `old_areas` and `new_areas` are those of `userProcArray`, by index and exception type. `answers` lists
-- what successive system calls return and `works` what the devices do to their registers during them;
-- `made` counts the calls, and `log` holds the events, the latest first. `tod_lo` and `reads` are as in
-- the nucleus.
pub record Support : Type 0 where
  pub layout : Layout
  pub words : Ptr → ℕ
  pub chars : Ptr → ℕ
  pub devices : Ptr → Device
  pub tables : Ptr → PageTable
  pub segments : ℕ → Segments
  pub old_areas : ℕ → ℕ → ProcState
  pub new_areas : ℕ → ℕ → ProcState
  pub frames : ℕ → SwapFrame
  pub next_frame : ℕ
  pub initial_state : ProcState
  pub status : ℕ
  pub entry_hi : ℕ
  pub tod_lo : ℕ → ℕ
  pub reads : ℕ
  pub time_scale : ℕ
  pub answers : ℕ → ℕ
  pub works : ℕ → (Ptr → Device) → Ptr → Device
  pub made : ℕ
  pub log : List Event

abbrev pub proc_cnt : ℕ
proc_cnt = 1

abbrev pub max_kuseg : ℕ
max_kuseg = 32

abbrev pub pool_size : ℕ
pool_size = 6

abbrev pub kuseg2 : ℕ
kuseg2 = 2

abbrev pub kuseg3 : ℕ
kuseg3 = 3

abbrev pub emit : Event → Cmd Support (Unit {0})
emit e = modify (λ s. record s { log = e ∷ s.log })

-- SYSCALL. TERMINATEPROCESS and USERTERMINATE do not come back.
abbrev pub syscall : ℕ → ℕ → ℕ → ℕ → Cmd Support ℕ
syscall a0 a1 a2 a3 s =
    let s' = record s {
      log = call a0 a1 a2 a3 ∷ s.log;
      made = suc s.made;
      devices = s.works s.made s.devices;
    } in
    if a0 == 2 || a0 == 18 then stop ends s' else ok (s.answers s.made) s'

-- The calls by name.
abbrev pub passeren : Ptr → Cmd Support ℕ
passeren semaddr = syscall 4 semaddr 0 0

abbrev pub verhogen : Ptr → Cmd Support ℕ
verhogen semaddr = syscall 3 semaddr 0 0

abbrev pub wait_for_io : ℕ → ℕ → Cmd Support ℕ
wait_for_io line_num device_num = syscall 8 line_num device_num 0

abbrev pub user_exit : Cmd Support ℕ
user_exit = syscall 18 0 0 0

-- `allowInterrupts`: ENABLEINTERRUPTS is 1, and DISABLEINTERRUPTS all other bits.
unfoldable pub allow_interrupts : Bool → Cmd Support (Unit {0})
allow_interrupts on = modify (λ s. record s {
  status = if on then or_bit s.status 1 else drop_bit s.status 1;
  log = interrupts on ∷ s.log;
})

-- `(getENTRYHI() & ASIDMASK) >> ASIDSHIFT`.
abbrev pub asid_of : ℕ → ℕ
asid_of word = (word / 2 ^ 6) % 2 ^ 6

-- An index into `userProcArray`, which is `asid - 1`. Past the array is a fault.
abbrev pub in_procs : {A : Type 0} → ℕ → (ℕ → Cmd Support A) → Cmd Support A
in_procs asid k = if asid == 0 || ltb proc_cnt asid then (λ _. fault) else k (asid - 1)

abbrev pub device_sema4 : Layout → ℕ → ℕ → Ptr
device_sema4 at line_num device_num = add at.device_sema4s (4 * device_index line_num device_num)

-- Writes of a device's registers. A write of its command register starts it.
abbrev pub set_data0 : Ptr → ℕ → Cmd Support (Unit {0})
set_data0 a v = modify (λ s. record s {
  devices = update s.devices a (record (s.devices a) { d_data0 = v });
  log = data0 a v ∷ s.log;
})

abbrev pub set_command : Ptr → ℕ → Cmd Support (Unit {0})
set_command a v = modify (λ s. record s {
  devices = update s.devices a (record (s.devices a) { d_command = v });
  log = command a v ∷ s.log;
})

abbrev pub set_transm_command : Ptr → ℕ → Cmd Support (Unit {0})
set_transm_command a v = modify (λ s. record s {
  devices = update s.devices a (record (s.devices a) { d_data1 = v });
  log = transmit a v ∷ s.log;
})

-- The buffers of the tapes and the disks, and the stack pages (ROMPAGESTART, OSFRAMES, NUMDEVICES,
-- UPROCSTACKSIZE and PAGESIZE are 0x20000000, 30, 8, 3 and 4096).
abbrev pub page_size : ℕ
page_size = 4096

abbrev pub tape_buffer_start : ℕ
tape_buffer_start = 0x20000000 + 30 * page_size

abbrev pub disk_buffer_start : ℕ
disk_buffer_start = tape_buffer_start + 8 * page_size

abbrev pub stack_pool_start : ℕ
stack_pool_start = disk_buffer_start + 8 * page_size

unfoldable pub get_tape_buffer_addr : ℕ → ℕ
get_tape_buffer_addr tape_num = add tape_buffer_start (tape_num * page_size)

unfoldable pub get_disk_buffer_addr : ℕ → ℕ
get_disk_buffer_addr disk_num = add disk_buffer_start (disk_num * page_size)

unfoldable pub get_stack_page_addr : ℕ → ℕ → ℕ
get_stack_page_addr proc_num exception_type =
    add (stack_pool_start + sub proc_num 1 * 3 * page_size) (exception_type * page_size + page_size)

-- Where a page of a process lies on the backing store. The comparison is of `int`s.
unfoldable pub get_cylinder_num : ℕ → ℕ
get_cylinder_num page_num = if is_neg page_num || ltb page_num 31 then page_num else 31

unfoldable pub get_sector_num : ℕ → ℕ
get_sector_num proc_num = sub proc_num 1

-- `getHeadNum` returns nothing for another segment.
unfoldable pub get_head_num : ℕ → Cmd Support ℕ
get_head_num segment =
    if segment == kuseg2 then pure 0 else (if segment == kuseg3 then pure 1 else λ _. fault)

-- The disk that is the backing store: DISKLINE is 3 and BACKINGSTORE is 0.
abbrev pub backing_store : Ptr
backing_store = 0x10000050

-- SEEKCYL, READBLK and WRITEBLK with their operands.
abbrev pub seek_command : ℕ → ℕ
seek_command cylinder = add 2 (shl cylinder 8)

abbrev pub block_command : ℕ → ℕ → ℕ → ℕ
block_command operation sector head = add (add operation (shl sector 8)) (shl head 16)

-- The five statements of every transfer between the backing store and a buffer, from the seek to the
-- second wait.
unfoldable pub transfer : ℕ → ℕ → ℕ → ℕ → ℕ → Cmd Support (Unit {0})
transfer operation page proc_num segment buffer = do
  set_command backing_store (seek_command (get_cylinder_num page))
  wait_for_io 3 0
  set_data0 backing_store buffer
  head ← get_head_num segment
  set_command backing_store (block_command operation (get_sector_num proc_num) head)
  wait_for_io 3 0
  pure tt

-- `transfer` under the disk's mutex and with interrupts off.
unfoldable pub guarded_transfer : ℕ → ℕ → ℕ → ℕ → ℕ → Cmd Support (Unit {0})
guarded_transfer operation page proc_num segment buffer = do
  s ← get
  let mutex = device_sema4 s.layout 3 0
  passeren mutex
  allow_interrupts false
  transfer operation page proc_num segment buffer
  allow_interrupts true
  verhogen mutex
  pure tt
