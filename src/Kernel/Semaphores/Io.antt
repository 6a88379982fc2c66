-- ===== src/Kernel/Semaphores/Io.antt =====
-- SYS7 and SYS8, `WaitForClock` and `WaitForIo` of kaya/phase2/exceptions.c.
use skara.Base.{
  ℕ, ◌<◌, ◌≡◌, refl, sym, ◌∙◌, ◌≢◌, true, List, [], ◌∷◌, ◌++◌, arith, ◌==◌, if◌then◌else◌, ne→==,
  ==-refl, update,
}
use skara.Base.Word.{add, sub, is_neg}
use skara.Machine.{Ptr, null, Run, Cmd, and_then}
use skara.Asl.Shape.{Desc, waiting_at}
use skara.Kernel.{Kernel, semaphore_at, copy_state}
use skara.Kernel.Scheduler.{scheduler}
use skara.Kernel.Scheduler.Turns.{NextTurn, scheduler-NextTurn}
use skara.Kernel.State.{IsNucleus}
use skara.Kernel.Semaphores.{wait_for_io, device_index}
use skara.Kernel.Semaphores.Passeren.{CanBlock, block_helper-Parked}

-- What comes after the next turn is never run.
NextTurn-and_then :
    {A B : Type 0} (s : Kernel) (h e : Ptr) (ds : List Desc) (fs rs : List Ptr) (r : Run Kernel A)
    (k : A → Cmd Kernel B)
    → NextTurn s h e ds fs rs r
    → NextTurn s h e ds fs rs (and_then r k)
NextTurn-and_then s h e ds fs [] r k (u, run, n, c, w) = (u, rw (run) refl, n, c, w)
NextTurn-and_then s h e ds fs (x ∷ rs) r k (u, run, n, c, t, p, w) =
    (u, rw (run) refl, n, c, t, p, w)

-- The semaphore at which `WaitForIo` waits.
abbrev pub io_semaphore : Kernel → ℕ → ℕ → ℕ → Ptr
io_semaphore s line_num device_num term_read =
    let index = device_index line_num device_num in
    semaphore_at s.semaphore_array (if term_read == 0 then index else add index 8)

-- The run `r` of a soft-blocking call: the current process waits at `k` behind those that did, its
-- state is saved, the semaphore is one less, the soft-block count one more, and the next ready process runs.
abbrev pub SoftBlocks :
    Kernel → Ptr → Ptr → Ptr → Ptr → List Desc → List Ptr → Run Kernel (Unit {0}) → Type 0
SoftBlocks s a h e k ds rs r =
    (u : Kernel) × (ds' : List Desc) × (fs' : List Ptr) × NextTurn u h e ds' fs' rs r
    × ((j : Ptr)
        → waiting_at j ds'
          ≡ (if j == k then waiting_at k ds ++ s.current_process ∷ [] else waiting_at j ds))
    × (u.asl.pcbs.p_s s.current_process ≡ copy_state (s.asl.pcbs.p_s s.current_process) (s.areas a))
    × (u.soft_block_count ≡ add s.soft_block_count 1)
    × (u.process_count ≡ s.process_count)
    × (u.words ≡ update s.words k (sub (s.words k) 1))

module _ (s : Kernel) {h e : Ptr} {ds : List Desc} {fs rs : List Ptr} (a : Ptr)
    (n : IsNucleus s.asl s.ready_q h e ds fs rs) (an : a ≢ null) (sc : s.time_scale ≢ 0) where
  -- Where the semaphore of the device, with well-formed queues, a current process that can block
  -- and a time scale that is not 0, falls below zero, `WaitForIo` blocks the current process there
  -- with its state saved, one more process is soft-blocked, no other semaphore changes, and the
  -- next ready process runs; the statements that would return the device's status are never run.
  pub wait_for_io-SoftBlocks :
      (line_num device_num term_read : ℕ)
      → let k = io_semaphore s line_num device_num term_read in
        k < null
        → CanBlock k s.current_process ds fs rs
        → is_neg (sub (s.words k) 1) ≡ true
        → SoftBlocks s a h e k ds rs (wait_for_io a line_num device_num term_read s)
  unfolding wait_for_io
  wait_for_io-SoftBlocks line_num device_num term_read kn c v =
      let k = io_semaphore s line_num device_num term_read in
      let s1 : Kernel = record s {
        words = update s.words k (sub (s.words k) 1);
        soft_block_count = add s.soft_block_count 1;
      } in
      let (u, ds', fs', run, p, st, w) =
        block_helper-Parked s1 a k s.current_process n an kn c sc in
      let turn = scheduler-NextTurn u rs p.nucleus (λ z. sc (sym p.scale ∙ z)) in
      (
        u,
        ds',
        fs',
        simp (ne→== k null (omega arith), ==-refl k, v, run)
            (NextTurn-and_then u h e ds' fs' rs (scheduler u) _ turn),
        p.waits,
        st,
        p.counts.1,
        p.counts.0,
        w,
      )
