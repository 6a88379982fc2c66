-- ===== src/Kernel/Interrupts.antt =====
-- The interrupt handler: kaya/phase2/interrupts.c.
pub mod Clock
pub mod Quantum
pub mod Lines
pub mod Devices
use skara.Base.{
  ℕ, zero, suc, ◌*◌, ◌/◌, ◌%◌, ◌==◌, ◌&&◌, if◌then◌else◌, Bool, not, update, Option, none, some,
  ltb,
}
use skara.Base.Word.{word_mod, add, sub, is_neg, is_nonpos}
use skara.Machine.{Ptr, null, Cmd, out_of_fuel, fault, pure, ◌>>=◌, ◌>>◌, get, write}
use skara.Pcb.Queue.{max_proc}
use skara.Asl.{remove_blocked}
use skara.Kernel.{
  Kernel, Device, on_asl, get_area, get_p_s, set_p_s, with_v0, get_word, set_word, ldit,
  interval_time, semaphore_at, it_sem_index,
}
use skara.Kernel.Scheduler.{scheduler, make_ready, increment_process_time}
use skara.Kernel.Semaphores.{resume, soft_unblock, device_index, device_address, get_device}

-- `word & bit`, for a power of two.
abbrev pub and_bit : ℕ → ℕ → ℕ
and_bit word bit = if (word / bit) % 2 == 0 then 0 else bit

-- The loops of `DetermineLine` and `DetermineDevice`: `bit` is `lineOn` or `deviceOn`, `i` the round,
-- and the first number counts the rounds left. Without a bit set the C variable is never assigned.
pub first_on : ℕ → ℕ → ℕ → ℕ → Option ℕ
first_on zero i bit word = none
first_on (suc rounds) i bit word =
    if and_bit word bit == 0 then first_on rounds (suc i) ((bit * 2) % word_mod) word else some i

-- `DetermineLine`: NUMLINES is 8, LINE0 is 0x100, and `causeReg & MASKCAUSEREG` keeps bits 8 to 15.
unfoldable pub determine_line : ℕ → Option ℕ
determine_line cause = first_on 8 0 0x100 ((cause / 0x100) % 0x100 * 0x100)

-- `DetermineDevice`: NUMDEVICES is 8, DEVICE0 is 1, and `devBitMap & MASKDEVBITMAP` keeps 8 bits.
unfoldable pub determine_device : ℕ → Option ℕ
determine_device dev_bit_map = first_on 8 0 1 (dev_bit_map % 0x100)

-- `PLTInterruptHandler`.
unfoldable pub plt_interrupt_handler : Cmd Kernel (Unit {0})
plt_interrupt_handler = do
  s ← get
  increment_process_time s.current_process
  make_ready s.current_process
  scheduler

-- The loop of `ITInterruptHandler`, on fuel.
pub unblock_clock : ℕ → Ptr → Cmd Kernel (Unit {0})
unblock_clock zero sema4 = λ _. out_of_fuel
unblock_clock (suc fuel) sema4 = do
  value ← get_word sema4
  if is_neg value
      then (do
        set_word sema4 (add value 1)
        p ← on_asl (remove_blocked sema4)
        make_ready p
        soft_unblock
        unblock_clock fuel sema4)
      else pure tt

-- `ITInterruptHandler`. The fuel is one more than the processes that can wait.
unfoldable pub it_interrupt_handler : Cmd Kernel (Unit {0})
it_interrupt_handler = do
  s ← get
  let sema4 = semaphore_at s.semaphore_array it_sem_index
  unblock_clock (suc max_proc) sema4
  set_word sema4 0
  ldit interval_time

-- `ExitInterruptHandler`.
unfoldable pub exit_interrupt_handler : Ptr → Cmd Kernel (Unit {0})
exit_interrupt_handler interrupt_old = do
  s ← get
  if s.current_process == null then scheduler else resume interrupt_old

abbrev pub interrupt_old_area : Ptr
interrupt_old_area = 0x20000000

abbrev pub set_device : Ptr → Device → Cmd Kernel (Unit {0})
set_device a d = write (λ s. record s { devices = update s.devices a d }) a

-- A terminal's registers have names of their own (kaya/h/types.h): `t_recv_status`,
-- `t_recv_command`, `t_transm_status` and `t_transm_command` are the four in order.
-- The status that is returned, and the write of ACK, by the device: a terminal's transmitter or not.
abbrev pub shown_status : Bool → Device → ℕ
shown_status transmits d = if transmits then d.d_data0 else d.d_status

abbrev pub acknowledged : Bool → Device → Device
acknowledged transmits d =
    if transmits then record d { d_data1 = 1 } else record d { d_command = 1 }

-- The status goes to the process that waited, which becomes ready.
unfoldable pub deliver : Ptr → ℕ → Cmd Kernel (Unit {0})
deliver proc status = do
  own ← get_p_s proc
  set_p_s proc (with_v0 status own)
  soft_unblock
  make_ready proc

-- The semaphore is V'ed. When a process waited, it is served and the device is acknowledged.
unfoldable pub serve_device : Ptr → Ptr → Bool → Cmd Kernel (Unit {0})
serve_device sema4 device_addr transmits = do
  before ← get_word sema4
  set_word sema4 (add before 1)
  value ← get_word sema4
  if is_nonpos value
      then (do
        proc ← on_asl (remove_blocked sema4)
        d ← get_device device_addr
        if proc == null then pure tt else deliver proc (shown_status transmits d)
        set_device device_addr (acknowledged transmits d))
      else pure tt

-- TERMINT is 7. READY is 1, and `& MASKTRANSCHAR` keeps 4 bits.
unfoldable pub device_interrupt_handler : ℕ → ℕ → Cmd Kernel (Unit {0})
device_interrupt_handler line_num dev_num = do
  s ← get
  let device_addr = device_address line_num dev_num
  let index = device_index line_num dev_num
  d ← get_device device_addr
  let receives = (line_num == 7) && (d.d_data0 % 0x10 == 1)
  serve_device (semaphore_at s.semaphore_array (if receives then add index 8 else index))
      device_addr ((line_num == 7) && not receives)

-- What comes after a search. When nothing was found the C code goes on with a variable that was
-- never assigned, which is a fault here.
abbrev pub found : Option ℕ → (ℕ → Cmd Kernel (Unit {0})) → Cmd Kernel (Unit {0})
found none k = λ _. fault
found (some i) k = k i

-- The `else` branch of `InterruptHandler`. A line below 3 is outside the array of bit maps.
unfoldable pub device_line_handler : ℕ → Cmd Kernel (Unit {0})
device_line_handler line_num = do
  s ← get
  if ltb line_num 3
      then (λ _. fault)
      else found (determine_device (s.interrupt_dev (sub line_num 3)))
          (device_interrupt_handler line_num)

-- `InterruptHandler`: PLTLINE is 1 and ITLINE is 2.
unfoldable pub handle_line : ℕ → Cmd Kernel (Unit {0})
handle_line line_num = do
  if line_num == 1 then plt_interrupt_handler else pure tt
  if line_num == 2 then it_interrupt_handler else device_line_handler line_num
  exit_interrupt_handler interrupt_old_area

unfoldable pub interrupt_handler : Cmd Kernel (Unit {0})
interrupt_handler = do
  old ← get_area interrupt_old_area
  found (determine_line old.s_cause) handle_line
