-- ===== src/Kernel/Tests.antt =====
-- The theorems on kaya/phase2 at concrete states of the nucleus.
mod Families
mod Balances
use skara.Base.{
  ℕ, ◌+◌, ◌*◌, ◌≡◌, refl, inl, inr, List, [], ◌∷◌, ◌==◌, if◌then◌else◌, true, arith, has, update,
}
use skara.Machine.{Ptr, null, ProcState, ok}
use skara.Pcb.Queue.{Links}
use skara.Pcb.Tree.{Tree}
use skara.Pcb.Tree.Shape.{IsChildren}
use skara.Pcb.Table.{Pcbs}
use skara.Pcb.Table.Free.{IsFree}
use skara.Asl.{Asl}
use skara.Asl.Shape.{Desc, Holds, IsAsl, waiting_at}
use skara.Kernel.{Kernel}
use skara.Kernel.State.{IsNucleus}
use skara.Asl.Waiting.{WaitsNowhere}
use skara.Kernel.Scheduler.{scheduler}
use skara.Kernel.Scheduler.Turns.{NextTurn, scheduler-NextTurn}
use skara.Kernel.Semaphores.{wait_for_io}
use skara.Kernel.Semaphores.Verhogen.{Signals, verhogen-Signals}
use skara.Kernel.Semaphores.Passeren.{Acquires, CanBlock, passeren-Acquires, timed}
use skara.Kernel.Semaphores.Io.{SoftBlocks, wait_for_io-SoftBlocks}
use skara.Kernel.Interrupts.{plt_interrupt_handler, it_interrupt_handler, determine_line}
use skara.Kernel.Interrupts.Clock.{AllWoken, it_interrupt_handler-AllWoken}
use skara.Kernel.Interrupts.Quantum.{plt_interrupt_handler-NextTurn}
use skara.Kernel.Interrupts.Lines.{IsFirst, bit_on, determine_line-IsFirst}
use skara.Kernel.Interrupts.Devices.{Serves, serve_device-Serves}
use skara.Kernel.Exceptions.{
  pass_up_or_die, syscall_handler, program_trap_old_area, syscall_old_area,
}
use skara.Kernel.Exceptions.Vector.{Specifies, exception_state_vec-Specifies}
use skara.Kernel.Exceptions.PassUp.{
  PassesUp, trapped, stepped, pass_up_or_die-PassesUp, syscall_handler-trapped,
  syscall_handler-stepped,
}
use skara.Kernel.Process.{honey_i_killed_the_kids}
use skara.Kernel.Process.Create.{AreSpare, Creates, create_process-Creates}
use skara.Kernel.Process.Kill.{AreIdle, Killed}
use skara.Kernel.Process.KillBlocked.{
  honey_i_killed_the_kids-blocked, honey_i_killed_the_kids-stale,
}
use skara.Kernel.Initial.{Image}

-- The ready blocks 3 and 5, the waiting ones 1 and 2, and the free ones 6 and 7.
abbrev links : Links
links = record {
  p_next = λ a.
      if a == 1
      then 2
      else (if a == 2
          then 1
          else (if a == 3 then 5 else (if a == 5 then 3 else (if a == 6 then 7 else 6))));
  p_prev = λ a.
      if a == 1
      then 2
      else (if a == 2
          then 1
          else (if a == 3 then 5 else (if a == 5 then 3 else (if a == 6 then 7 else 6))));
}

abbrev tree : Tree
tree = record {
  p_prnt = λ _. null;
  p_child = λ _. null;
  p_sib_prev = λ _. null;
  p_sib_next = λ _. null;
}

abbrev blank : ProcState
blank = record { s_asid = 0; s_cause = 0; s_status = 0; s_pc = 0; s_reg = λ _. 0 }

-- The semaphore of the interval timer, where 1 and 2 wait, and another, at which 5 once waited.
abbrev timer : Ptr
timer = 0x200100C0

abbrev table : Pcbs
table = record {
  links = links;
  tree = tree;
  p_s = λ a. record blank { s_pc = a };
  p_sem_add =
      λ a. if a == 1 then timer else (if a == 2 then timer else (if a == 5 then 60 else null));
  p_total_time = λ _. 0;
  old_areas = λ _ _. 0x300;
  new_areas = λ _ _. 0x400;
  pcb_list_h = 7;
  proc_table = 0x20008000;
}

abbrev list : Asl
list = record {
  pcbs = table;
  s_next = λ a. if a == 100 then 102 else (if a == 102 then 101 else null);
  s_sem_add = λ a. if a == 102 then timer else (if a == 100 then 0 else null);
  s_proc_q = λ a. if a == 102 then 2 else null;
  semd_h = 100;
  semd_free_h = 103;
  semd_table = 0x20009000;
}

-- The process 9 runs. A call of number `n` was made in user mode.
abbrev kernel : ℕ → Kernel
kernel n = record {
  asl = list;
  words = λ a. if a == timer then 0xFFFF_FFFE else 0;
  areas = λ _. record blank { s_status = 8; s_reg = λ _. n };
  devices = λ _. record { d_status = 1; d_command = 0; d_data0 = 1; d_data1 = 0 };
  interrupt_dev = λ _. 0;
  process_count = 5;
  soft_block_count = 2;
  current_process = 9;
  process_start_time = 0;
  ready_q = 5;
  semaphore_array = 0x20010000;
  tod_lo = λ i. 1000 * i;
  reads = 1;
  time_scale = 1;
  interval_timer = 0;
  local_timer = 0;
  status = 0;
}

abbrev waiters : Desc
waiters = record { node = 102; key = timer; waiting = 1 ∷ 2 ∷ [] }

abbrev ds : List Desc
ds = waiters ∷ []

names : (x : Ptr) → has x (1 ∷ 2 ∷ []) ≡ true → table.p_sem_add x ≡ timer
names x i = ground arith

waiters-Holds : Holds list waiters
waiters-Holds = record {
  address = omega arith;
  below = omega arith;
  key = refl;
  busy = λ e. absurd (cc);
  few = omega arith;
  queue = record {
    tail = refl;
    chain = (refl, refl, (refl, refl, tt));
    distinct = (refl, (refl, tt));
    addresses = refl;
  };
  names = names;
}

list-IsAsl : IsAsl list 100 101 ds (103 ∷ [])
list-IsAsl = record {
  head = refl;
  head_address = omega arith;
  end_address = omega arith;
  end_key = refl;
  chain = (refl, waiters-Holds, refl);
  sorted = tt;
  free = (refl, omega arith, refl);
  count = omega arith;
  distinct = (refl, (refl, (refl, (refl, tt))));
}

kernel-IsNucleus : IsNucleus list 5 100 101 ds (103 ∷ []) (3 ∷ 5 ∷ [])
kernel-IsNucleus = record {
  waits = list-IsAsl;
  ready = record {
    tail = refl;
    chain = (refl, refl, (refl, refl, tt));
    distinct = (refl, (refl, tt));
    addresses = refl;
  };
  apart = λ x i j. ground arith;
}

table-IsFree : IsFree table (6 ∷ 7 ∷ [])
table-IsFree = record {
  tail = refl;
  chain = (refl, refl, (refl, refl, tt));
  distinct = (refl, (refl, tt));
  addresses = refl;
}

frees-AreSpare : AreSpare 9 ds (3 ∷ 5 ∷ []) [] (6 ∷ 7 ∷ [])
frees-AreSpare = record {
  running = λ x i. ground arith;
  idle = λ x i j. ground arith;
  childless = λ x i. ground arith;
}

frees-AreIdle : AreIdle ds (3 ∷ 5 ∷ []) (6 ∷ 7 ∷ [])
frees-AreIdle = record { running = λ x i. ground arith; waiting = λ x i j. ground arith }

no-IsChildren : (p : Ptr) → IsChildren tree p []
no-IsChildren p = record { siblings = refl; distinct = tt }

current-WaitsNowhere : WaitsNowhere 9 ds
current-WaitsNowhere j = ground arith

at_timer : CanBlock timer 9 ds (103 ∷ []) (3 ∷ 5 ∷ [])
at_timer = record {
  address = omega arith;
  idle = current-WaitsNowhere;
  running = refl;
  room = omega arith;
  descriptor = inl (λ e. absurd (cc));
}

at_disk : CanBlock 0x20010000 9 ds (103 ∷ []) (3 ∷ 5 ∷ [])
at_disk = record {
  address = omega arith;
  idle = current-WaitsNowhere;
  running = refl;
  room = omega arith;
  descriptor = inr (λ e. absurd (cc));
}

scheduler-NextTurn_example :
    NextTurn (kernel 1) 100 101 ds (103 ∷ []) (3 ∷ 5 ∷ []) (scheduler (kernel 1))
scheduler-NextTurn_example =
    scheduler-NextTurn (kernel 1) (3 ∷ 5 ∷ []) kernel-IsNucleus (omega arith)

verhogen-Signals_example : Signals (kernel 1) 0x500 100 101 timer ds (3 ∷ 5 ∷ []) (1 ∷ 2 ∷ [])
verhogen-Signals_example =
    verhogen-Signals (kernel 1) 0x500 timer kernel-IsNucleus (omega arith) (omega arith)

passeren-Acquires_example : Acquires (kernel 1) 0x500 100 101 timer ds (3 ∷ 5 ∷ [])
passeren-Acquires_example =
    passeren-Acquires (kernel 1) 0x500 timer kernel-IsNucleus (omega arith) (omega arith) at_timer
      (omega arith)

wait_for_io-SoftBlocks_example :
    SoftBlocks
      (kernel 1)
      0x500
      100
      101
      0x20010000
      ds
      (3 ∷ 5 ∷ [])
      (wait_for_io 0x500 3 0 0 (kernel 1))
wait_for_io-SoftBlocks_example =
    wait_for_io-SoftBlocks (kernel 1) 0x500 kernel-IsNucleus (omega arith) (omega arith) 3 0 0
      (omega arith) at_disk refl

plt_interrupt_handler-NextTurn_example :
    (u : Kernel) × NextTurn u 100 101 ds
      (103 ∷ [])
      (3 ∷ 5 ∷ 9 ∷ [])
      (plt_interrupt_handler (kernel 1))
    × (u.asl.pcbs.p_s ≡ table.p_s)
    × (u.asl.pcbs.p_total_time ≡ (timed (kernel 1) 9).asl.pcbs.p_total_time)
plt_interrupt_handler-NextTurn_example =
    plt_interrupt_handler-NextTurn (kernel 1) kernel-IsNucleus (omega arith) (omega arith) refl
      current-WaitsNowhere

it_interrupt_handler-AllWoken_example :
    (u : Kernel) × (ds' : List Desc) × (fs' : List Ptr) × (it_interrupt_handler (kernel 1)
      ≡ ok tt u)
    × AllWoken (kernel 1) u 100 101 timer ds ds' fs' (3 ∷ 5 ∷ []) (1 ∷ 2 ∷ [])
    × (u.words timer ≡ 0)
    × (u.interval_timer ≡ 100000)
it_interrupt_handler-AllWoken_example =
    it_interrupt_handler-AllWoken (kernel 1) kernel-IsNucleus (omega arith) refl (omega arith)
      (omega arith)

serve_device-Serves_example :
    Serves (kernel 1) 100 101 timer 0x10000050 true ds (3 ∷ 5 ∷ []) (1 ∷ 2 ∷ [])
serve_device-Serves_example =
    serve_device-Serves (kernel 1) timer 0x10000050 true kernel-IsNucleus (omega arith)
      (omega arith)

determine_line-IsFirst_example : IsFirst (λ i. bit_on 0x1800 (8 + i)) 8 0 (determine_line 0x1800)
determine_line-IsFirst_example = determine_line-IsFirst 0x1800

pass_up_or_die-PassesUp_example : PassesUp (kernel 1) 0x500 2 (pass_up_or_die 0x500 2 (kernel 1))
pass_up_or_die-PassesUp_example =
    pass_up_or_die-PassesUp (kernel 1) 0x500 2 (omega arith) (omega arith) (omega arith)

syscall_handler-trapped_example :
    PassesUp (trapped (kernel 1)) program_trap_old_area 1 (syscall_handler (kernel 1))
syscall_handler-trapped_example =
    syscall_handler-trapped (kernel 1) (omega arith) refl (omega arith) (omega arith)

syscall_handler-stepped_example :
    PassesUp (stepped (kernel 9)) syscall_old_area 2 (syscall_handler (kernel 9))
syscall_handler-stepped_example =
    syscall_handler-stepped (kernel 9) (omega arith) (inr (omega arith))

exception_state_vec-Specifies_example : Specifies (kernel 1) 0x500 1 0x700 0x800
exception_state_vec-Specifies_example =
    exception_state_vec-Specifies (kernel 1) 0x500 (omega arith) (omega arith) 1 0x700 0x800

create_process-Creates_example :
    Creates (kernel 1) 0x500 0x600 100 101 ds (103 ∷ []) (3 ∷ 5 ∷ []) [] (6 ∷ 7 ∷ [])
create_process-Creates_example =
    create_process-Creates (kernel 1) 0x500 0x600 kernel-IsNucleus (no-IsChildren 9) (omega arith)
      (omega arith) (omega arith) (6 ∷ 7 ∷ []) table-IsFree frees-AreSpare

honey_i_killed_the_kids-stale_example :
    (u : Kernel) × (honey_i_killed_the_kids 1 5 (kernel 1) ≡ ok tt u)
    × (u.ready_q ≡ 5)
    × IsFree u.asl.pcbs (6 ∷ 7 ∷ 5 ∷ [])
    × (u.words ≡ update (kernel 1).words 60 1)
    × (u.soft_block_count ≡ 2)
honey_i_killed_the_kids-stale_example =
    honey_i_killed_the_kids-stale (kernel 1) 5 (6 ∷ 7 ∷ []) 0 kernel-IsNucleus table-IsFree
      frees-AreIdle (no-IsChildren 5) (omega arith) (omega arith) (omega arith) refl

abbrev image : Image
image = record {
  syscall_handler_pc = 0x20001000;
  program_trap_handler_pc = 0x20001100;
  tlb_management_handler_pc = 0x20001200;
  interrupt_handler_pc = 0x20001300;
  test_pc = 0x20002000;
  rambase = 0x20000000;
  ramsize = 0x40000;
}
