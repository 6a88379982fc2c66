-- ===== src/Kernel/State.antt =====
-- The queues of the nucleus: the ready queue and the active semaphore list in one store of links,
-- and what the nucleus does with both: `insertProcQ(&readyQ, p)` and `removeBlocked`.
use skara.Base.{
  ◌<◌, ◌≡◌, refl, sym, subst, ◌≢◌, true, false, List, [], ◌∷◌, ◌++◌, arith, has, Distinct, ◌==◌,
  if◌then◌else◌, has-append,
}
use skara.Machine.{Ptr, null, ok}
use skara.Pcb.Queue.{Links}
use skara.Pcb.Queue.Shape.{IsQueue, SameOutside, IsQueue-frame}
use skara.Pcb.Queue.Insert.{insert_proc_q-IsQueue}
use skara.Asl.{Asl, remove_blocked}
use skara.Asl.Shape.{Desc, IsAsl, waiting_at}
use skara.Asl.Unblock.Remove.{Removes, remove_blocked-IsAsl}
use skara.Kernel.{Kernel}
use skara.Kernel.Scheduler.{make_ready}
use skara.Asl.Waiting.{
  WaitsNowhere, relinked, IsAsl-relinked, waiting_at-Distinct, has-if, waits-once,
}

-- The ready queue, with tail `q`, holds `rs`; the semaphore list holds `ds`; no block is in both.
pub record IsNucleus (a : Asl) (q h e : Ptr) (ds : List Desc) (fs rs : List Ptr) : Type 0 where
  pub waits : IsAsl a h e ds fs
  pub ready : IsQueue a.pcbs.links q rs
  pub apart : (x : Ptr) → has x rs ≡ true → WaitsNowhere x ds

-- The nucleus after `p` joins the ready queue, with the links `l`.
abbrev pub readied : Kernel → Links → Ptr → Kernel
readied s l p = record s { asl = relinked s.asl l; ready_q = p }

pub make_ready-IsNucleus :
    (s : Kernel) {h e : Ptr} {ds : List Desc} {fs rs : List Ptr} (p : Ptr)
    → IsNucleus s.asl s.ready_q h e ds fs rs
    → p ≢ null
    → has p rs ≡ false
    → WaitsNowhere p ds
    → (l : Links) × (make_ready p s ≡ ok tt (readied s l p))
      × IsNucleus (relinked s.asl l) p h e ds fs (rs ++ p ∷ [])
      × SameOutside (p ∷ rs) s.asl.pcbs.links l
unfolding make_ready
make_ready-IsNucleus s {h} {e} {ds} {fs} {rs} p n pn out idle =
    let (l, run, q, same) = insert_proc_q-IsQueue p rs n.ready pn out in
    (
      l,
      rw (run) refl,
      record {
        waits =
            IsAsl-relinked l n.waits
              λ x j i. same x (ground (arith, idle j, λ (k : has x rs ≡ true). n.apart x k j));
        ready = q;
        apart = λ x i j.
            ground
              (arith, λ (k : has x rs ≡ true). n.apart x k j, idle j, has-append x rs (p ∷ []));
      },
      same,
    )

-- The nucleus after `removeBlocked` and `insertProcQ(&readyQ, x)`: the block `x` that has waited
-- longest at `k` is the last of the ready queue, and `xs` still wait.
pub record Woken (s : Kernel) (a : Asl) (l : Links) (h e k x : Ptr) (ds : List Desc)
    (ds' : List Desc) (fs' rs xs : List Ptr) : Type 0 where
  pub removed : remove_blocked k s.asl ≡ ok x a
  pub address : x ≢ null
  pub queued : make_ready x (record s { asl = a }) ≡ ok tt (readied (record s { asl = a }) l x)
  pub nucleus : IsNucleus (relinked a l) x h e ds' fs' (rs ++ x ∷ [])
  pub waits : (j : Ptr) → waiting_at j ds' ≡ (if j == k then xs else waiting_at j ds)

-- The store after `removeBlocked` has returned `x`, which is in no queue now.
pub record Removed (s : Kernel) (a : Asl) (h e k x : Ptr) (ds : List Desc) (ds' : List Desc)
    (fs' rs xs : List Ptr) : Type 0 where
  pub removed : remove_blocked k s.asl ≡ ok x a
  pub address : x ≢ null
  pub nucleus : IsNucleus a s.ready_q h e ds' fs' rs
  pub running : has x rs ≡ false
  pub idle : WaitsNowhere x ds'
  pub waits : (j : Ptr) → waiting_at j ds' ≡ (if j == k then xs else waiting_at j ds)
  pub states : a.pcbs.p_s ≡ s.asl.pcbs.p_s

module _ (s : Kernel) {h e : Ptr} {ds : List Desc} {fs rs : List Ptr} (k x : Ptr) (xs : List Ptr)
    (n : IsNucleus s.asl s.ready_q h e ds fs rs) (kn : k < null)
    (eq : waiting_at k ds ≡ x ∷ xs) where
  pub Removed-lem :
      (a : Asl) × (ds' : List Desc) × (fs' : List Ptr) × Removed s a h e k x ds ds' fs' rs xs
  Removed-lem =
      let (a, ds', fs', run, u) =
        subst (Removes s.asl h e k ds) eq (remove_blocked-IsAsl k n.waits kn) in
      let (once, real) =
        subst (λ ys. Distinct ys × (has null ys ≡ false)) eq
          (waiting_at-Distinct s.asl e (s.asl.s_next h) k ds n.waits.chain) in
      let there : has x (waiting_at k ds) ≡ true = rw (eq) (ground (arith)) in
      let others : (y : Ptr) → has y rs ≡ true → WaitsNowhere y ds' = λ y i j.
        subst (λ ys. has y ys ≡ false) (sym (u.waits j))
          (has-if y j k xs (waiting_at j ds)
            (ground (arith, subst (λ ys. has y ys ≡ false) eq (n.apart y i k)))
            λ ne. n.apart y i j) in
      (
        a,
        ds',
        fs',
        record {
          removed = run;
          address = ground (arith);
          nucleus = record {
            waits = u.shape;
            ready = IsQueue-frame rs n.ready λ y i. u.links y (n.apart y i k);
            apart = others;
          };
          running = ground (arith, λ (i : has x rs ≡ true). n.apart x i k);
          idle = λ j.
              subst (λ ys. has x ys ≡ false) (sym (u.waits j))
                (has-if x j k xs (waiting_at j ds) once.0
                  (waits-once s.asl e (s.asl.s_next h) j k x ds n.waits.chain there));
          waits = u.waits;
          states = u.states;
        },
      )

  pub Woken-lem :
      (a : Asl) × (l : Links) × (ds' : List Desc) × (fs' : List Ptr) × Woken s a l h e k x ds ds'
        fs' rs xs
  Woken-lem =
      let (a, ds', fs', r) = Removed-lem in
      let (l, ready, n', same) =
        make_ready-IsNucleus (record s { asl = a }) x r.nucleus r.address r.running r.idle in
      (
        a,
        l,
        ds',
        fs',
        record {
          removed = r.removed;
          address = r.address;
          queued = ready;
          nucleus = n';
          waits = r.waits;
        },
      )
