-- ===== src/Kernel/Process.antt =====
-- The system calls of kaya/phase2/exceptions.c that create and terminate processes.
pub mod Create
pub mod Kill
pub mod KillBlocked
pub mod Family
pub mod Deaths
pub mod Doomed
pub mod Descent
pub mod Terminate
use skara.Base.{ℕ, zero, suc, ◌==◌, ◌&&◌, leb, if◌then◌else◌}
use skara.Base.Word.{add, sub}
use skara.Machine.{Ptr, null, Cmd, out_of_fuel, pure, ◌>>=◌, ◌>>◌, get, modify}
use skara.Pcb.Queue.{max_proc, out_proc_q}
use skara.Pcb.Tree.{empty_child, insert_child, remove_child, out_child}
use skara.Pcb.Table.{alloc_pcb, free_pcb}
use skara.Asl.{out_blocked, get_p_sem_add}
use skara.Kernel.{
  Kernel, on_asl, on_pcbs, on_links, on_tree, set_ready_q, get_area, set_area, get_p_s, set_p_s,
  with_v0, load_state, copy_state, get_word, set_word, semaphore_at,
}
use skara.Kernel.Scheduler.{scheduler, make_ready}

-- SYS1FAIL is -1.
abbrev pub sys1_fail : ℕ
sys1_fail = 0xFFFF_FFFF

abbrev pub sys1_success : ℕ
sys1_success = 0

-- `CreateProcess`, SYS1: `syscall_old` and `new_state` are the addresses of states.
unfoldable pub create_process : Ptr → Ptr → Cmd Kernel (Unit {0})
create_process syscall_old new_state = do
  new_process ← on_pcbs alloc_pcb
  if new_process == null
      then (do old ← get_area syscall_old; set_area syscall_old (with_v0 sys1_fail old))
      else (do
        before ← get_p_s new_process
        state ← get_area new_state
        set_p_s new_process (copy_state before state)
        s ← get
        on_tree (insert_child s.current_process new_process)
        make_ready new_process
        modify (λ t. record t { process_count = add t.process_count 1 })
        old ← get_area syscall_old
        set_area syscall_old (with_v0 sys1_success old))
  old ← get_area syscall_old
  load_state old

-- The last steps of `HoneyIKilledTheKids`, when the process has no more children. The first and
-- the last device semaphore are those of index 0 and SEMCOUNT - 2.
unfoldable pub bury : Ptr → Cmd Kernel (Unit {0})
bury p = do
  s ← get
  sem_add ← on_asl (get_p_sem_add p)
  if p == s.current_process
      then on_tree (out_child p) >> pure tt
      else if sem_add == null
      then (do (_, tp) ← on_links (out_proc_q s.ready_q p); set_ready_q tp)
      else (do
        on_asl (out_blocked p)
        if leb (semaphore_at s.semaphore_array 0) sem_add
              && leb sem_add (semaphore_at s.semaphore_array 47)
            then modify (λ t. record t { soft_block_count = sub t.soft_block_count 1 })
            else (do v ← get_word sem_add; set_word sem_add (add v 1)))
  modify (λ t. record t { process_count = sub t.process_count 1 })
  on_pcbs (free_pcb p)

-- `HoneyIKilledTheKids`. A round of its loop kills the first child and comes back to `p`.
unfoldable pub honey_i_killed_the_kids : ℕ → Ptr → Cmd Kernel (Unit {0})
honey_i_killed_the_kids zero p = λ _. out_of_fuel
honey_i_killed_the_kids (suc fuel) p = do
  childless ← on_tree (empty_child p)
  if childless then bury p else (do
    child ← on_tree (remove_child p)
    honey_i_killed_the_kids fuel child
    honey_i_killed_the_kids fuel p)

-- `TerminateProcess`, SYS2. The fuel is the number of processes that can descend from one, with
-- that one.
unfoldable pub terminate_process : Ptr → Cmd Kernel (Unit {0})
terminate_process p = honey_i_killed_the_kids (suc max_proc) p >> scheduler
