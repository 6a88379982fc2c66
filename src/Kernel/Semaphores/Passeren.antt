-- ===== src/Kernel/Semaphores/Passeren.antt =====
-- SYS4, `Passeren`, and `BlockHelperFunction` of kaya/phase2/exceptions.c.
use skara.Base.{
  suc, ◌<◌, ◌≡◌, refl, ap, sym, subst, ◌∙◌, ◌≢◌, ◌⊎◌, inl, inr, true, false, List, [], ◌∷◌, ◌++◌,
  arith, has, ◌==◌, if◌then◌else◌, Bool-cases, ne→==, ==-refl, update, length, has-append,
}
use skara.Base.Word.{add, sub, is_neg, sdiv}
use skara.Machine.{Ptr, null, ok, stop, loads}
use skara.Pcb.Queue.{max_proc}
use skara.Pcb.Queue.Shape.{IsQueue-frame}
use skara.Asl.{Asl}
use skara.Asl.Shape.{Desc, IsAsl, waiting_at}
use skara.Asl.Block.{Blocked}
use skara.Asl.Block.Insert.{insert_blocked-IsAsl}
use skara.Kernel.{Kernel, copy_state, stck}
use skara.Kernel.Scheduler.{scheduler, increment_process_time}
use skara.Kernel.Scheduler.Turns.{NextTurn, scheduler-NextTurn}
use skara.Kernel.State.{IsNucleus}
use skara.Asl.Waiting.{WaitsNowhere, IsAsl-pcbs, IsIdle-WaitsNowhere, has-if}
use skara.Kernel.Semaphores.{passeren, block_helper}

-- The nucleus after the running time of `p` is brought up to date.
abbrev pub timed : Kernel → Ptr → Kernel
timed s p =
    let now = sdiv (s.tod_lo s.reads) s.time_scale in
    record s {
      reads = suc s.reads;
      asl = record (s.asl) {
        pcbs = record (s.asl.pcbs) {
          p_total_time =
              update s.asl.pcbs.p_total_time p
                (add (s.asl.pcbs.p_total_time p) (sub now s.process_start_time));
        };
      };
    }

pub increment_process_time-timed :
    (s : Kernel) (p : Ptr)
    → p ≢ null
    → s.time_scale ≢ 0
    → increment_process_time p s ≡ ok tt (timed s p)
unfolding increment_process_time stck
increment_process_time-timed s p pn sc = simp (ne→== p null pn, ne→== s.time_scale 0 sc)

-- And after the state at `a` is saved in `p`.
abbrev pub saved : Kernel → Ptr → Ptr → Kernel
saved s p a = record (timed s p) {
  asl = record ((timed s p).asl) {
    pcbs = record ((timed s p).asl.pcbs) {
      p_s = update s.asl.pcbs.p_s p (copy_state (s.asl.pcbs.p_s p) (s.areas a));
    };
  };
}

-- The nucleus after `p` has come to wait at `k`, with its time and its state saved.
pub record Parked (s u : Kernel) (h e a k p : Ptr) (ds ds' : List Desc) (fs' rs : List Ptr)
    : Type 0 where
  pub nucleus : IsNucleus u.asl u.ready_q h e ds' fs' rs
  pub waits :
      (j : Ptr) → waiting_at j ds' ≡ (if j == k then waiting_at k ds ++ p ∷ [] else waiting_at j ds)
  pub named : u.asl.pcbs.p_sem_add p ≡ k
  pub scale : u.time_scale ≡ s.time_scale
  pub counts : (u.process_count ≡ s.process_count) × (u.soft_block_count ≡ s.soft_block_count)

-- A process can block: it is a block that waits nowhere and is not ready, there is room in the queue,
-- and a descriptor is there or can be had.
pub record CanBlock (k p : Ptr) (ds : List Desc) (fs rs : List Ptr) : Type 0 where
  pub address : p ≢ null
  pub idle : WaitsNowhere p ds
  pub running : has p rs ≡ false
  pub room : length (waiting_at k ds) < max_proc
  pub descriptor : (waiting_at k ds ≢ []) ⊎ (fs ≢ [])

module _ (s : Kernel) {h e : Ptr} {ds : List Desc} {fs rs : List Ptr} (a k p : Ptr)
    (n : IsNucleus s.asl s.ready_q h e ds fs rs) (an : a ≢ null) (kn : k < null)
    (c : CanBlock k p ds fs rs) (sc : s.time_scale ≢ 0) where
  saved-IsAsl : IsAsl (saved s p a).asl h e ds fs
  saved-IsAsl = IsAsl-pcbs (saved s p a).asl.pcbs n.waits (λ x j i. (refl, refl)) λ x j i. refl

  parks :
      (a' : Asl) (ds' : List Desc) (fs' : List Ptr)
      → Blocked (saved s p a).asl a' h e k p ds ds' fs'
      → IsNucleus a' s.ready_q h e ds' fs' rs
  parks a' ds' fs' b = record {
    waits = b.shape;
    ready =
        IsQueue-frame rs n.ready
          λ x i. b.links x (ground (arith, c.running, λ (y : has x rs ≡ true). n.apart x y k));
    apart = λ x i j.
        subst (λ ys. has x ys ≡ false) (sym (b.waits j))
          (has-if x j k (waiting_at k ds ++ p ∷ []) (waiting_at j ds)
            (ground (arith, n.apart x i k, has-append x (waiting_at k ds) (p ∷ []), c.running))
            λ ne. n.apart x i j);
  }

  pub block_helper-Parked :
      (u : Kernel) × (ds' : List Desc) × (fs' : List Ptr) × (block_helper a k p s ≡ scheduler u)
      × Parked s u h e a k p ds ds' fs' rs
      × (u.asl.pcbs.p_s p ≡ copy_state (s.asl.pcbs.p_s p) (s.areas a))
      × (u.words ≡ s.words)
  unfolding block_helper
  block_helper-Parked =
      elim (insert_blocked-IsAsl k p saved-IsAsl kn c.address
        (IsIdle-WaitsNowhere p ds n.waits.sorted c.idle) c.room) [
          | inl none ↦ elim c.descriptor [ inl q ↦ absurd (q none.0) | inr q ↦ absurd (q none.1) ]
          | inr some ↦
              let (a', ds', fs', run, b) = some.1 in
              (
                record (saved s p a) { asl = a'; current_process = null },
                ds',
                fs',
                simp (
                  increment_process_time-timed s p c.address sc,
                  ne→== p null c.address,
                  ne→== a null an,
                  run,
                ),
                record {
                  nucleus = parks a' ds' fs' b;
                  waits = b.waits;
                  named = b.named;
                  scale = refl;
                  counts = (refl, refl);
                },
                ap (λ f. f p) b.states ∙ ground (arith, ==-refl p),
                refl,
              )
        ]

-- The two outcomes of a P by the current process, whose state is at `a`, on the semaphore `k`.
abbrev pub Acquires : Kernel → Ptr → Ptr → Ptr → Ptr → List Desc → List Ptr → Type 0
Acquires s a h e k ds rs =
    let v = sub (s.words k) 1 in
    ((is_neg v ≡ false)
      × (passeren a k s ≡ stop (loads (s.areas a)) (record s { words = update s.words k v })))
    ⊎ ((is_neg v ≡ true)
        × ((u : Kernel) × (ds' : List Desc) × (fs' : List Ptr) × NextTurn u h e ds' fs' rs
              (passeren a k s)
            × Parked s u h e a k s.current_process ds ds' fs' rs
            × (u.asl.pcbs.p_s s.current_process
                ≡ copy_state (s.asl.pcbs.p_s s.current_process) (s.areas a))
            × (u.words ≡ update s.words k v)))

module _ (s : Kernel) {h e : Ptr} {ds : List Desc} {fs rs : List Ptr} (a k : Ptr)
    (n : IsNucleus s.asl s.ready_q h e ds fs rs) (an : a ≢ null) (kn : k < null)
    (c : CanBlock k s.current_process ds fs rs) (sc : s.time_scale ≢ 0) where
  -- With well-formed queues, a current process that can block, a semaphore below `NULL` and a time
  -- scale that is not 0, `Passeren` takes one from the semaphore, and changes no other. When the new value is not
  -- negative the caller goes on. Otherwise the current process, with its state saved, waits at the
  -- semaphore behind those that did, nothing else about who waits where changes, and the next
  -- ready process runs.
  pub passeren-Acquires : Acquires s a h e k ds rs
  unfolding passeren
  passeren-Acquires = elim (Bool-cases (is_neg (sub (s.words k) 1))) [
    | inl v ↦
        let s1 : Kernel = record s { words = update s.words k (sub (s.words k) 1) } in
        let (u, ds', fs', run, p, st, w) =
          block_helper-Parked s1 a k s.current_process n an kn c sc in
        let run' : passeren a k s ≡ scheduler u =
          simp (ne→== k null (omega arith), ==-refl k, v, run) in
        inr (
          v,
          (
            u,
            ds',
            fs',
            subst (NextTurn u h e ds' fs' rs) (sym run')
                (scheduler-NextTurn u rs p.nucleus (λ z. sc (sym p.scale ∙ z))),
            record {
              nucleus = p.nucleus;
              waits = p.waits;
              named = p.named;
              scale = p.scale;
              counts = p.counts;
            },
            st,
            w,
          ),
        )
    | inr v ↦ inl (v, simp (ne→== k null (omega arith), ==-refl k, v, ne→== a null an))
  ]
