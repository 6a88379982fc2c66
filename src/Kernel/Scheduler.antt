-- ===== src/Kernel/Scheduler.antt =====
-- kaya/phase2/scheduler.c, and `IncrementProcessTime` of kaya/phase2/exceptions.c.
pub mod Turns
use skara.Base.{ℕ, ◌==◌, if◌then◌else◌}
use skara.Base.Word.{add, sub}
use skara.Machine.{Ptr, null, Cmd, stop, halts, panics, waits, ◌>>=◌, ◌>>◌, get, modify}
use skara.Pcb.Queue.{remove_proc_q, insert_proc_q}
use skara.Kernel.{
  Kernel, on_links, set_ready_q, set_current, set_timer, set_status, stck, load_state, get_p_s,
  get_total_time, set_total_time, plt_time, suspend_time,
}

-- ALLOFF | CURRINTERRUPTSUNMASKED | INTERRUPTMASKON.
abbrev pub wait_status : ℕ
wait_status = 0xFF01

-- What is done when no process is ready.
unfoldable pub idle : Cmd Kernel (Unit {0})
idle = do
  s ← get
  if s.process_count == 0
      then (do set_current null; stop halts)
      else if s.soft_block_count == 0
      then (do set_current null; stop panics)
      else do set_status wait_status; set_current null; set_timer suspend_time; stop waits

unfoldable pub dispatch : Ptr → Cmd Kernel (Unit {0})
dispatch p = do
  set_current p
  set_timer plt_time
  now ← stck
  modify (λ s. record s { process_start_time = now })
  state ← get_p_s p
  load_state state

unfoldable pub scheduler : Cmd Kernel (Unit {0})
scheduler = do
  s ← get
  (p, tp) ← on_links (remove_proc_q s.ready_q)
  set_ready_q tp
  if p == null then idle else dispatch p

-- `insertProcQ(&readyQ, p)`.
unfoldable pub make_ready : Ptr → Cmd Kernel (Unit {0})
make_ready p = do s ← get; tp ← on_links (insert_proc_q s.ready_q p); set_ready_q tp

unfoldable pub increment_process_time : Ptr → Cmd Kernel (Unit {0})
increment_process_time p = do
  end_time ← stck
  total ← get_total_time p
  s ← get
  set_total_time p (add total (sub end_time s.process_start_time))
