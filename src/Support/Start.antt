-- ===== src/Support/Start.antt =====
-- The start of the user processes: `test`, `uProcInit` and `readTape` of kaya/phase3/initProc.c.
use skara.Base.{ℕ, zero, suc, ◌+◌, ◌-◌, ◌*◌, ◌==◌, ◌&&◌, if◌then◌else◌, Bool, true, false, update}
use skara.Base.Word.{add, sub, shl}
use skara.Machine.{Ptr, ProcState, loads, Cmd, stop, out_of_fuel, pure, ◌>>=◌, ◌>>◌, get, modify}
use skara.Kernel.Semaphores.{device_address}
use skara.Kernel.Initial.{with_entry}
use skara.Support.{
  PageEntry, PageTable, SwapFrame, Support, proc_cnt, max_kuseg, pool_size, kuseg2, syscall,
  passeren, wait_for_io, allow_interrupts, asid_of, in_procs, set_data0, set_command,
  get_tape_buffer_addr, get_stack_page_addr, guarded_transfer,
}

-- `for(; i < ...; i++) a[i] = f(i, a[i])`, with the rounds left to go.
unfoldable pub fill : {A : Type 0} → (ℕ → A → A) → ℕ → ℕ → (ℕ → A) → ℕ → A
fill f zero i a = a
fill f (suc rounds) i a = fill f rounds (suc i) (update a i (f i (a i)))

-- Page table entries: the page number in entryHi, and the flags dirty, valid and global, 0x400, 0x200
-- and 0x100, in entryLo. The fields do not overlap, so `|` is a sum.
abbrev pub ksegos_entry : ℕ → PageEntry → PageEntry
ksegos_entry i e = record {
  entry_hi = shl (0x20000 + i) 12;
  entry_lo = add (shl (0x20000 + i) 12) 0x700;
}

abbrev pub kuseg3_entry : ℕ → PageEntry → PageEntry
kuseg3_entry i e = record { entry_hi = shl (0xC0000 + i) 12; entry_lo = 0x500 }

abbrev pub kuseg2_entry : ℕ → ℕ → PageEntry → PageEntry
kuseg2_entry n i e = record { entry_hi = add (shl (0x80000 + i) 12) (shl n 6); entry_lo = 0x400 }

-- (MAGICNUM << MAGICNUMSHIFT) | size.
abbrev pub table_header : ℕ → ℕ
table_header size = add (shl 0x2A 24) size

abbrev pub set_table : Ptr → PageTable → Cmd Support (Unit {0})
set_table a t = modify (λ s. record s { tables = update s.tables a t })

unfoldable pub init_ksegos : Cmd Support (Unit {0})
init_ksegos = do
  s ← get
  let a = s.layout.ksegos_pt
  set_table a
      (record { header = table_header 80; entries = fill ksegos_entry 80 0 (s.tables a).entries })

unfoldable pub init_kuseg3 : Cmd Support (Unit {0})
init_kuseg3 = do
  s ← get
  let a = s.layout.kuseg3_pt
  set_table a (record {
    header = table_header max_kuseg;
    entries = fill kuseg3_entry max_kuseg 0 (s.tables a).entries;
  })

-- UNOCCUPIEDFRAME is -1.
abbrev pub unoccupied : ℕ
unoccupied = 0xFFFF_FFFF

unfoldable pub init_frames : Cmd Support (Unit {0})
init_frames = modify (λ s. record s {
  frames = fill (λ i (f : SwapFrame). record f { asid = unoccupied }) pool_size 0 s.frames;
})

abbrev pub set_word : Ptr → ℕ → Cmd Support (Unit {0})
set_word a v = modify (λ s. record s { words = update s.words a v })

-- The loop over `deviceSema4s`, with the rounds left to go. MUTEXINIT is 1.
unfoldable pub init_device_sema4s : ℕ → ℕ → Cmd Support (Unit {0})
init_device_sema4s zero i = pure tt
init_device_sema4s (suc rounds) i = do
  s ← get
  set_word (add s.layout.device_sema4s (4 * i)) 1
  init_device_sema4s rounds (suc i)

unfoldable pub init_sema4s : Cmd Support (Unit {0})
init_sema4s = do
  s ← get
  set_word s.layout.swapmutex 1
  init_device_sema4s 48 0
  set_word s.layout.master_sema4 0

-- The page table of process `n`: entries for the pages of its text and data, the last of them made the
-- entry of the stack page, KUSEG2LAST.
unfoldable pub init_kuseg2 : ℕ → Cmd Support (Unit {0})
init_kuseg2 n = do
  s ← get
  let a = s.layout.kuseg2_pt (n - 1)
  let entries = fill (kuseg2_entry n) max_kuseg 0 (s.tables a).entries
  let stack = record (entries 31) { entry_hi = add (shl 0xBFFFF 12) (shl n 6) }
  set_table a (record { header = table_header max_kuseg; entries = update entries 31 stack })

-- ALLOFF | INTERRUPTSUNMASKED | INTERRUPTMASKON | TEBITON, alone, with VMONPREV, and with KERNELOFF.
abbrev pub support_status : ℕ
support_status = 0x0800FF04

abbrev pub support_vm_status : ℕ
support_vm_status = 0x0A00FF04

abbrev pub user_status : ℕ
user_status = 0x0A00FF0C

-- A state of process `n` that runs from `pc`.
abbrev pub entry_state : ℕ → ℕ → ℕ → ℕ → ProcState → ProcState
entry_state n pc sp status st = record (with_entry pc sp status st) { s_asid = shl n 6 }

-- One round of the loop over the processes.
unfoldable pub init_process : ℕ → Cmd Support (Unit {0})
init_process n = do
  init_kuseg2 n
  modify (λ s. record s {
    segments = update s.segments n (record {
      ksegos = s.layout.ksegos_pt;
      kuseg2 = s.layout.kuseg2_pt (n - 1);
      kuseg3 = s.layout.kuseg3_pt;
    });
    initial_state =
        entry_state n s.layout.u_proc_init (get_stack_page_addr n 0) support_status s.initial_state;
  })
  s ← get
  syscall 1 s.layout.initial_state 0 0
  pure tt

unfoldable pub init_processes : ℕ → ℕ → Cmd Support (Unit {0})
init_processes zero n = pure tt
init_processes (suc rounds) n = do init_process n; init_processes rounds (suc n)

-- The P of the master semaphore for each process. While it waits the processes run: `others` is what they
-- do to the state until it comes back.
unfoldable pub await_processes : (Support → Support) → ℕ → Cmd Support (Unit {0})
await_processes others zero = pure tt
await_processes others (suc rounds) = do
  s ← get
  passeren s.layout.master_sema4
  modify others
  await_processes others rounds

-- `test`.
unfoldable pub test : (Support → Support) → Cmd Support (Unit {0})
test others = do
  init_ksegos
  init_kuseg3
  init_frames
  init_sema4s
  init_processes proc_cnt 1
  await_processes others proc_cnt
  syscall 2 0 0 0
  pure tt

-- `readTape`. TAPELINE is 4, READBLK 3, WRITEBLK 4, READY 1 and EOB 2.
unfoldable pub read_block : Ptr → ℕ → Cmd Support ℕ
read_block tape device_num = do
  allow_interrupts false
  set_data0 tape (get_tape_buffer_addr device_num)
  set_command tape 3
  tape_status ← wait_for_io 4 device_num
  allow_interrupts true
  pure tape_status

unfoldable pub read_blocks : ℕ → ℕ → ℕ → Bool → ℕ → Cmd Support (Unit {0})
read_blocks zero proc_num tape_status more i = λ _. out_of_fuel
read_blocks (suc fuel) proc_num tape_status more i = do
  let device_num = sub proc_num 1
  let tape = device_address 4 device_num
  if tape_status == 1 && more
      then (do
        guarded_transfer 4 i proc_num kuseg2 (get_tape_buffer_addr device_num)
        s ← get
        let more' = (s.devices tape).d_data1 == 2
        tape_status' ← if more' then read_block tape device_num else pure tape_status
        read_blocks fuel proc_num tape_status' more' (suc i))
      else pure tt

-- The loop runs once for a block of the tape, of which there are fewer than an `int` can count.
unfoldable pub read_tape : ℕ → Cmd Support (Unit {0})
read_tape proc_num = do
  let device_num = sub proc_num 1
  tape_status ← read_block (device_address 4 device_num) device_num
  read_blocks 0x8000_0000 proc_num tape_status true 0

abbrev pub set_new_area : ℕ → ℕ → ℕ → ℕ → ℕ → Cmd Support (Unit {0})
set_new_area i asid type pc status = modify (λ s.
    let st = entry_state asid pc (get_stack_page_addr asid type) status (s.new_areas i type) in
    record s { new_areas = update s.new_areas i (update (s.new_areas i) type st) })

-- `SYSCALL(EXCEPTIONSTATEVEC, type, &oldAreas[type], &newAreas[type])`.
abbrev pub specify : ℕ → ℕ → Cmd Support ℕ
specify i type = do s ← get; syscall 5 type (s.layout.old_areas i type) (s.layout.new_areas i type)

-- The assignments and the SYS5s of `uProcInit`: TLBEXCEPTION, PROGRAMTRAPEXCEPTION and
-- SYSCALLEXCEPTION are 0, 1 and 2.
unfoldable pub set_up_handlers : ℕ → ℕ → Cmd Support (Unit {0})
set_up_handlers i asid = do
  s ← get
  set_new_area i asid 0 s.layout.user_tlb_handler support_status
  set_new_area i asid 1 s.layout.user_program_trap_handler support_vm_status
  set_new_area i asid 2 s.layout.user_syscall_handler support_vm_status
  specify i 0
  specify i 1
  specify i 2
  pure tt

-- `uProcInit`: LASTPAGEKUSEG2 and UPROCPCINIT are 0xC0000000 and 0x800000B0. `initial_state` stands for
-- the local variable of this name, with whatever it holds.
unfoldable pub u_proc_init : Cmd Support (Unit {0})
u_proc_init = do
  s ← get
  let asid = asid_of s.entry_hi
  in_procs asid λ i. do
    set_up_handlers i asid
    read_tape asid
    s ← get
    stop (loads (entry_state asid 0x800000B0 0xC0000000 user_status s.initial_state))
