-- ===== src/Kernel/Semaphores.antt =====
-- The system calls of kaya/phase2/exceptions.c on semaphores: SYS3, SYS4, SYS7 and SYS8.
pub mod Verhogen
pub mod Balance
pub mod Passeren
pub mod Io
use skara.Base.{ℕ, ◌+◌, ◌*◌, ◌==◌, if◌then◌else◌}
use skara.Base.Word.{add, sub, is_neg, is_nonpos}
use skara.Machine.{Ptr, null, Cmd, pure, ◌>>=◌, ◌>>◌, get, modify, read}
use skara.Asl.{insert_blocked, remove_blocked}
use skara.Kernel.{
  Kernel, Device, on_asl, get_area, set_area, get_p_s, set_p_s, set_current, with_v0, load_state,
  copy_state, get_word, set_word, semaphore_at, it_sem_index,
}
use skara.Kernel.Scheduler.{scheduler, make_ready, increment_process_time}
use skara.Kernel.Process.{terminate_process}

-- `LoadState(syscallOld)`.
abbrev pub resume : {A : Type 0} → Ptr → Cmd Kernel A
resume old_area = do old ← get_area old_area; load_state old

-- `Verhogen`, SYS3.
unfoldable pub verhogen : Ptr → Ptr → Cmd Kernel (Unit {0})
verhogen syscall_old semaddr = do
  before ← get_word semaddr
  set_word semaddr (add before 1)
  value ← get_word semaddr
  if is_nonpos value
      then (do p ← on_asl (remove_blocked semaddr); if p == null then pure tt else make_ready p)
      else pure tt
  resume syscall_old

-- `BlockHelperFunction`. The result of `insertBlocked` is not looked at.
unfoldable pub block_helper : Ptr → Ptr → Ptr → Cmd Kernel (Unit {0})
block_helper syscall_old semaddr process = do
  increment_process_time process
  before ← get_p_s process
  old ← get_area syscall_old
  set_p_s process (copy_state before old)
  on_asl (insert_blocked semaddr process)
  set_current null
  scheduler

-- `Passeren`, SYS4.
unfoldable pub passeren : Ptr → Ptr → Cmd Kernel (Unit {0})
passeren syscall_old semaddr = do
  before ← get_word semaddr
  set_word semaddr (sub before 1)
  value ← get_word semaddr
  s ← get
  if is_neg value then block_helper syscall_old semaddr s.current_process else resume syscall_old

-- `softBlockCount++` and `softBlockCount--`.
abbrev pub soft_block : Cmd Kernel (Unit {0})
soft_block = modify (λ s. record s { soft_block_count = add s.soft_block_count 1 })

abbrev pub soft_unblock : Cmd Kernel (Unit {0})
soft_unblock = modify (λ s. record s { soft_block_count = sub s.soft_block_count 1 })

-- `WaitForClock`, SYS7.
unfoldable pub wait_for_clock : Ptr → Cmd Kernel (Unit {0})
wait_for_clock syscall_old = do
  s ← get
  soft_block
  passeren syscall_old (semaphore_at s.semaphore_array it_sem_index)

-- (lineNum - INITIALDEVLINENUM) * NUMDEVICESPERTYPE + deviceNum.
abbrev pub device_index : ℕ → ℕ → ℕ
device_index line_num device_num = add (sub line_num 3 * 8) device_num

-- BASEDEVICEADDRESS + (lineNum - INITIALDEVLINENUM) * DEVICETYPESIZE + deviceNum * DEVICESIZE.
abbrev pub device_address : ℕ → ℕ → Ptr
device_address line_num device_num = add (0x10000050 + sub line_num 3 * 0x80) (device_num * 0x10)

abbrev pub get_device : Ptr → Cmd Kernel Device
get_device = read (λ s. s.devices)

-- `WaitForIo`, SYS8, with the statements after the call that blocks or terminates.
unfoldable pub wait_for_io : Ptr → ℕ → ℕ → ℕ → Cmd Kernel (Unit {0})
wait_for_io syscall_old line_num device_num term_read = do
  s ← get
  let index = device_index line_num device_num
  let semaddr = semaphore_at s.semaphore_array (if term_read == 0 then index else add index 8)
  before ← get_word semaddr
  set_word semaddr (sub before 1)
  value ← get_word semaddr
  if is_neg value
      then (do soft_block; block_helper syscall_old semaddr s.current_process)
      else terminate_process s.current_process
  device ← get_device (device_address line_num device_num)
  old ← get_area syscall_old
  set_area syscall_old (with_v0 device.d_status old)
