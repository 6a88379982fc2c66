-- ===== src/Kernel/Initial.antt =====
-- The boot of the nucleus: kaya/phase2/initial.c.
pub mod Boot
use skara.Base.{ℕ, zero, suc, update}
use skara.Base.Word.{add, sub}
use skara.Machine.{Ptr, null, ProcState, Cmd, pure, ◌>>=◌, ◌>>◌, get, modify}
use skara.Pcb.Queue.{mk_empty_proc_q}
use skara.Pcb.Table.{init_pcbs, alloc_pcb}
use skara.Asl.{init_asl}
use skara.Kernel.{
  Kernel, on_asl, on_pcbs, set_current, set_ready_q, get_area, set_area, get_p_s, set_p_s, set_word,
  ldit, interval_time, semaphore_at, sem_count,
}
use skara.Kernel.Scheduler.{scheduler, make_ready}

-- What the linker and the bus registers fix: the addresses of the handlers and of the first
-- process, `rambase` and `ramsize`.
pub record Image : Type 0 where
  pub syscall_handler_pc : ℕ
  pub program_trap_handler_pc : ℕ
  pub tlb_management_handler_pc : ℕ
  pub interrupt_handler_pc : ℕ
  pub test_pc : ℕ
  pub rambase : ℕ
  pub ramsize : ℕ

-- s_sp and s_t9 are the registers 26 and 24.
abbrev pub with_entry : ℕ → ℕ → ℕ → ProcState → ProcState
with_entry pc sp status st = record st {
  s_pc = pc;
  s_reg = update (update st.s_reg 24 pc) 26 sp;
  s_status = status;
}

-- `initializeNewArea`.
unfoldable pub initialize_new_area : Ptr → ℕ → ℕ → ℕ → Cmd Kernel (Unit {0})
initialize_new_area mem_area handler sp status = do
  before ← get_area mem_area
  set_area mem_area (with_entry handler sp status before)

-- `for(i=...; i < SEMCOUNT; i++)`, with the rounds left to go.
pub clear_semaphores : ℕ → ℕ → Cmd Kernel (Unit {0})
clear_semaphores zero i = pure tt
clear_semaphores (suc rounds) i = do
  s ← get
  set_word (semaphore_at s.semaphore_array i) 0
  clear_semaphores rounds (suc i)

-- ALLOFF | INITVMOFF | KERNELON | INTERRUPTSMASKED | TEBITON, and with INTERRUPTSUNMASKED.
abbrev pub handler_status : ℕ
handler_status = 0x08000000

abbrev pub first_status : ℕ
first_status = 0x08000004

abbrev pub page_size : ℕ
page_size = 4096

abbrev pub ramtop : Image → ℕ
ramtop image = add image.rambase image.ramsize

unfoldable pub set_up_areas : Image → Cmd Kernel (Unit {0})
set_up_areas image = do
  initialize_new_area 0x200003D4 image.syscall_handler_pc (ramtop image) handler_status
  initialize_new_area 0x200002BC image.program_trap_handler_pc (ramtop image) handler_status
  initialize_new_area 0x200001A4 image.tlb_management_handler_pc (ramtop image) handler_status
  initialize_new_area 0x2000008C image.interrupt_handler_pc (ramtop image) handler_status

unfoldable pub set_up_globals : Cmd Kernel (Unit {0})
set_up_globals = do
  modify (λ s. record s { process_count = 0; soft_block_count = 0; process_start_time = 0 })
  set_current null
  set_ready_q mk_empty_proc_q
  clear_semaphores sem_count 0

unfoldable pub start_first_process : Image → Cmd Kernel (Unit {0})
start_first_process image = do
  initial_proc ← on_pcbs alloc_pcb
  before ← get_p_s initial_proc
  set_p_s initial_proc (with_entry image.test_pc (sub (ramtop image) page_size) first_status before)
  modify (λ s. record s { process_count = add s.process_count 1 })
  make_ready initial_proc
  ldit interval_time
  scheduler

-- `main`.
unfoldable pub main : Image → Cmd Kernel (Unit {0})
main image = do
  set_up_areas image
  on_pcbs init_pcbs
  on_asl init_asl
  set_up_globals
  start_first_process image
