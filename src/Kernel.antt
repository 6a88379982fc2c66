-- ===== src/Kernel.antt =====
-- The state of the nucleus (kaya/phase2): the phase 2 globals of initial.c, the words, processor
-- states and device registers in memory, and the clocks.
pub mod Scheduler
pub mod State
pub mod Copy
pub mod Process
pub mod Semaphores
pub mod Exceptions
pub mod Interrupts
pub mod Initial
mod Tests
use skara.Base.{ℕ, zero, suc, ◌+◌, ◌*◌, ◌%◌, ◌==◌, if◌then◌else◌, update}
use skara.Base.Word.{word_mod, add, sdiv}
use skara.Machine.{
  Ptr, null, ProcState, Outcome, loads, Cmd, ok, stop, fault, pure, ◌>>=◌, ◌>>◌, get, modify, zoom,
  read, write,
}
use skara.Pcb.Queue.{Links}
use skara.Pcb.Tree.{Tree}
use skara.Pcb.Table.{Pcbs}
use skara.Asl.{Asl}

-- `device_t`.
pub record Device : Type 0 where
  pub d_status : ℕ
  pub d_command : ℕ
  pub d_data0 : ℕ
  pub d_data1 : ℕ

-- `words` are the `int`s in memory, `areas` the processor states outside the process table, by
-- address. `tod_lo` lists what successive reads of the time-of-day clock give, and `reads` counts
-- them. `semaphore_array` is the address of `semaphoreArray`.
pub record Kernel : Type 0 where
  pub asl : Asl
  pub words : Ptr → ℕ
  pub areas : Ptr → ProcState
  pub devices : Ptr → Device
  pub interrupt_dev : ℕ → ℕ
  pub process_count : ℕ
  pub soft_block_count : ℕ
  pub current_process : Ptr
  pub process_start_time : ℕ
  pub ready_q : Ptr
  pub semaphore_array : Ptr
  pub tod_lo : ℕ → ℕ
  pub reads : ℕ
  pub time_scale : ℕ
  pub interval_timer : ℕ
  pub local_timer : ℕ
  pub status : ℕ

abbrev pub on_asl : {A : Type 0} → Cmd Asl A → Cmd Kernel A
on_asl = zoom (λ s. s.asl) (λ t s. record s { asl = t })

abbrev pub on_pcbs : {A : Type 0} → Cmd Pcbs A → Cmd Kernel A
on_pcbs = zoom (λ s. s.asl.pcbs) (λ t s. record s { asl = record (s.asl) { pcbs = t } })

abbrev pub on_links : {A : Type 0} → Cmd Links A → Cmd Kernel A
on_links =
    zoom (λ s. s.asl.pcbs.links)
      (λ t s. record s { asl = record (s.asl) { pcbs = record (s.asl.pcbs) { links = t } } })

abbrev pub on_tree : {A : Type 0} → Cmd Tree A → Cmd Kernel A
on_tree =
    zoom (λ s. s.asl.pcbs.tree)
      (λ t s. record s { asl = record (s.asl) { pcbs = record (s.asl.pcbs) { tree = t } } })

abbrev pub get_word : Ptr → Cmd Kernel ℕ
get_word = read (λ s. s.words)

abbrev pub set_word : Ptr → ℕ → Cmd Kernel (Unit {0})
set_word a v = write (λ s. record s { words = update s.words a v }) a

abbrev pub get_area : Ptr → Cmd Kernel ProcState
get_area = read (λ s. s.areas)

abbrev pub set_area : Ptr → ProcState → Cmd Kernel (Unit {0})
set_area a v = write (λ s. record s { areas = update s.areas a v }) a

abbrev pub with_p_s : Ptr → ProcState → Kernel → Kernel
with_p_s p v s = record s {
  asl = record (s.asl) { pcbs = record (s.asl.pcbs) { p_s = update s.asl.pcbs.p_s p v } };
}

abbrev pub get_p_s : Ptr → Cmd Kernel ProcState
get_p_s = read (λ s. s.asl.pcbs.p_s)

abbrev pub set_p_s : Ptr → ProcState → Cmd Kernel (Unit {0})
set_p_s p v = write (with_p_s p v) p

abbrev pub with_total_time : Ptr → ℕ → Kernel → Kernel
with_total_time p v s = record s {
  asl = record (s.asl) {
    pcbs = record (s.asl.pcbs) { p_total_time = update s.asl.pcbs.p_total_time p v };
  };
}

abbrev pub get_total_time : Ptr → Cmd Kernel ℕ
get_total_time = read (λ s. s.asl.pcbs.p_total_time)

abbrev pub set_total_time : Ptr → ℕ → Cmd Kernel (Unit {0})
set_total_time p v = write (with_total_time p v) p

-- `s_v0` and the argument registers are entries of `s_reg` (kaya/h/types.h).
abbrev pub with_v0 : ℕ → ProcState → ProcState
with_v0 v st = record st { s_reg = update st.s_reg 1 v }

abbrev pub set_current : Ptr → Cmd Kernel (Unit {0})
set_current p = modify (λ s. record s { current_process = p })

abbrev pub set_ready_q : Ptr → Cmd Kernel (Unit {0})
set_ready_q tp = modify (λ s. record s { ready_q = tp })

-- `LDST`: control passes to the state.
abbrev pub load_state : {A : Type 0} → ProcState → Cmd Kernel A
load_state st s = stop (loads st) s

-- `STCK`: signed division of the clock by the time scale.
unfoldable pub stck : Cmd Kernel ℕ
stck s =
    if s.time_scale == 0
    then fault
    else ok (sdiv (s.tod_lo s.reads) s.time_scale) (record s { reads = suc s.reads })

-- `LDIT`.
unfoldable pub ldit : ℕ → Cmd Kernel (Unit {0})
ldit t = modify (λ s. record s { interval_timer = (t * s.time_scale) % word_mod })

abbrev pub set_timer : ℕ → Cmd Kernel (Unit {0})
set_timer t = modify (λ s. record s { local_timer = t })

abbrev pub set_status : ℕ → Cmd Kernel (Unit {0})
set_status v = modify (λ s. record s { status = v })

abbrev pub plt_time : ℕ
plt_time = 5000

abbrev pub interval_time : ℕ
interval_time = 100000

abbrev pub suspend_time : ℕ
suspend_time = 420420

abbrev pub state_reg_num : ℕ
state_reg_num = 31

-- `for(i = ...; i < STATEREGNUM; i++)` of `CopyState`, with the rounds left to go.
copy_regs : ℕ → ℕ → (ℕ → ℕ) → (ℕ → ℕ) → ℕ → ℕ
copy_regs zero i new old = new
copy_regs (suc rounds) i new old = copy_regs rounds (suc i) (update new i (old i)) old

-- `CopyState`, with what the target held before.
unfoldable pub copy_state : ProcState → ProcState → ProcState
unfolding copy_regs
copy_state new old = record {
  s_asid = old.s_asid;
  s_cause = old.s_cause;
  s_status = old.s_status;
  s_pc = old.s_pc;
  s_reg = copy_regs state_reg_num 0 new.s_reg old.s_reg;
}

-- `&(semaphoreArray[index])`.
abbrev pub semaphore_at : Ptr → ℕ → Ptr
semaphore_at base index = add base (4 * index)

-- The index of the interval timer's semaphore, and the size of the array.
abbrev pub it_sem_index : ℕ
it_sem_index = 48

abbrev pub sem_count : ℕ
sem_count = 49
