-- ===== src/Kernel/Scheduler/Turns.antt =====
-- The scheduler's choice: kaya/phase2/scheduler.c.
use skara.Base.{
  suc, ◌≡◌, refl, ◌≢◌, inl, inr, true, List, [], ◌∷◌, arith, has, ◌==◌, if◌then◌else◌, Bool-cases,
  ne→==,
}
use skara.Base.Word.{sdiv}
use skara.Machine.{Ptr, null, stop, Run, Outcome, loads, halts, panics, waits}
use skara.Pcb.Queue.Remove.{remove_proc_q-nil, remove_proc_q-IsQueue}
use skara.Asl.Shape.{Desc}
use skara.Kernel.{Kernel, plt_time, suspend_time, stck}
use skara.Kernel.Scheduler.{scheduler, idle, dispatch, wait_status}
use skara.Kernel.State.{IsNucleus}
use skara.Asl.Waiting.{relinked, IsAsl-relinked}

-- How the kernel is left when no process is ready.
abbrev pub idle_outcome : Kernel → Outcome
idle_outcome s =
    if s.process_count == 0 then halts else if s.soft_block_count == 0 then panics else waits

-- The run `r` ends with the next turn of `s`: when a block is ready, the first one's state is loaded, it is
-- the current process, its quantum is on the timer and its start is noted; otherwise the kernel is left
-- idle, with no current process. Beside these, only the links, the ready queue, the status and the count of
-- clock reads can differ from `s`.
abbrev pub NextTurn :
    {A : Type 0} → Kernel → Ptr → Ptr → List Desc → List Ptr → List Ptr → Run Kernel A → Type 0
NextTurn s h e ds fs [] r =
    (u : Kernel) × (r ≡ stop (idle_outcome s) u)
    × IsNucleus u.asl u.ready_q h e ds fs []
    × (u.current_process ≡ null)
    × (u ≡ record s { status = u.status; current_process = null; local_timer = u.local_timer })
NextTurn s h e ds fs (x ∷ rs) r =
    (u : Kernel) × (r ≡ stop (loads (s.asl.pcbs.p_s x)) u)
    × IsNucleus u.asl u.ready_q h e ds fs rs
    × (u.current_process ≡ x)
    × (u.local_timer ≡ plt_time)
    × (u.process_start_time ≡ sdiv (s.tod_lo s.reads) s.time_scale)
    × (u ≡ record s {
      asl = relinked s.asl u.asl.pcbs.links;
      ready_q = u.ready_q;
      current_process = x;
      local_timer = plt_time;
      process_start_time = sdiv (s.tod_lo s.reads) s.time_scale;
      reads = suc s.reads;
    })

module _ {h e : Ptr} {ds : List Desc} {fs : List Ptr} where
  -- With a well-formed ready queue and a time scale that is not 0 the scheduler takes the first
  -- block off the ready queue and starts it. With none ready it halts when there is no process,
  -- panics when none is soft-blocked, and waits otherwise. Beside the current process, the timer, the status,
  -- the start time, the count of clock reads and the ready queue with its links it changes nothing.
  pub scheduler-NextTurn :
      (s : Kernel) (rs : List Ptr)
      → IsNucleus s.asl s.ready_q h e ds fs rs
      → s.time_scale ≢ 0
      → NextTurn s h e ds fs rs (scheduler s)
  unfolding scheduler idle dispatch stck
  scheduler-NextTurn s [] n sc =
      let run = remove_proc_q-nil n.ready in
      elim (Bool-cases (s.process_count == 0)) [
        | inl y ↦ (record s { current_process = null }, simp (run, y), n, refl, refl)
        | inr y ↦ elim (Bool-cases (s.soft_block_count == 0)) [
          | inl z ↦ (record s { current_process = null }, simp (run, y, z), n, refl, refl)
          | inr z ↦ (
            record s { status = wait_status; current_process = null; local_timer = suspend_time },
            simp (run, y, z),
            n,
            refl,
            refl,
          )
        ]
      ]
  scheduler-NextTurn s (x ∷ rs) n sc =
      let (tp, m, run, q, same) = remove_proc_q-IsQueue x rs n.ready in
      let real = n.ready.addresses in
      (
        record s {
          asl = relinked s.asl m;
          ready_q = tp;
          current_process = x;
          local_timer = plt_time;
          process_start_time = sdiv (s.tod_lo s.reads) s.time_scale;
          reads = suc s.reads;
        },
        simp (run, ne→== x null (ground arith), ne→== s.time_scale 0 sc),
        record {
          waits = IsAsl-relinked m n.waits λ y j i.
              same y (ground (arith, n.apart y, λ (k : has y (x ∷ rs) ≡ true). n.apart y k j));
          ready = q;
          apart = λ y i j. n.apart y (ground arith) j;
        },
        refl,
        refl,
        refl,
        refl,
      )
