-- ===== src/Kernel/Interrupts/Quantum.antt =====
-- `PLTInterruptHandler` of kaya/phase2/interrupts.c.
use skara.Base.{◌≡◌, refl, sym, subst, ◌≢◌, false, List, [], ◌∷◌, ◌++◌, has}
use skara.Machine.{Ptr, null}
use skara.Asl.Shape.{Desc}
use skara.Kernel.{Kernel}
use skara.Kernel.Scheduler.{scheduler}
use skara.Kernel.Scheduler.Turns.{NextTurn, scheduler-NextTurn}
use skara.Kernel.State.{IsNucleus, make_ready-IsNucleus, readied}
use skara.Asl.Waiting.{WaitsNowhere, IsAsl-pcbs}
use skara.Kernel.Semaphores.Passeren.{timed, increment_process_time-timed}
use skara.Kernel.Interrupts.{plt_interrupt_handler}

-- With well-formed queues and a time scale that is not 0, at the end of a quantum the current
-- process, which is in no queue, becomes the last of the ready queue and the next turn comes. Its
-- time is brought up to date, but the state in its block, which is loaded at its next turn, stays
-- what it was before: the interrupted state is not copied there.
pub plt_interrupt_handler-NextTurn :
    (s : Kernel) {h e : Ptr} {ds : List Desc} {fs rs : List Ptr}
    → let p = s.current_process in
      IsNucleus s.asl s.ready_q h e ds fs rs
      → s.time_scale ≢ 0
      → p ≢ null
      → has p rs ≡ false
      → WaitsNowhere p ds
      → (u : Kernel) × NextTurn u h e ds fs (rs ++ p ∷ []) (plt_interrupt_handler s)
        × (u.asl.pcbs.p_s ≡ s.asl.pcbs.p_s)
        × (u.asl.pcbs.p_total_time ≡ (timed s p).asl.pcbs.p_total_time)
unfolding plt_interrupt_handler
plt_interrupt_handler-NextTurn s {h} {e} {ds} {fs} {rs} n sc pn out idle =
    let p = s.current_process in
    let s1 = timed s p in
    let n1 : IsNucleus s1.asl s1.ready_q h e ds fs rs = record {
      waits = IsAsl-pcbs s1.asl.pcbs n.waits (λ x j i. (refl, refl)) λ x j i. refl;
      ready = n.ready;
      apart = n.apart;
    } in
    let (l, run, n2, same) = make_ready-IsNucleus s1 p n1 pn out idle in
    let u = readied s1 l p in
    let run' : plt_interrupt_handler s ≡ scheduler u =
      simp (increment_process_time-timed s p pn sc, run) in
    (
      u,
      subst (NextTurn u h e ds fs (rs ++ p ∷ [])) (sym run')
          (scheduler-NextTurn u (rs ++ p ∷ []) n2 sc),
      refl,
      refl,
    )
