-- ===== src/Kernel/Process/KillBlocked.antt =====
-- What `HoneyIKilledTheKids` of kaya/phase2/exceptions.c does with a process that names a semaphore.
use skara.Base.{
  ℕ, suc, ◌<◌, ◌≡◌, refl, sym, subst, ◌≢◌, Bool, true, false, ◌&&◌, List, [], ◌∷◌, ◌++◌, arith, has,
  ◌==◌, if◌then◌else◌, Bool-cases, inl, inr, ne→==, eq→==, update, erase, has-erase, leb, last,
}
use skara.Base.Word.{add, sub}
use skara.Machine.{Ptr, null, ok}
use skara.Pcb.Queue.Shape.{IsQueue, IsQueue-frame}
use skara.Pcb.Tree.{empty_child}
use skara.Pcb.Tree.Shape.{IsChildren}
use skara.Pcb.Table.{Pcbs, free_pcb}
use skara.Pcb.Table.Free.{IsFree, free_pcb-IsFree}
use skara.Asl.{Asl, out_blocked}
use skara.Asl.Shape.{Desc, waiting_at}
use skara.Asl.Unblock.Out.{out_blocked-IsAsl}
use skara.Kernel.{Kernel, semaphore_at}
use skara.Kernel.State.{IsNucleus}
use skara.Asl.Waiting.{WaitsNowhere, waiting_at-Distinct, waits-once, has-if}
use skara.Kernel.Process.{honey_i_killed_the_kids, bury}
use skara.Kernel.Process.Kill.{
  AreIdle, joined-AreIdle, Killed, freed, freed-IsNucleus, erase-gone, excludes,
}

-- The address is one of the device semaphores', index 0 to 47.
abbrev pub is_device : Kernel → Ptr → Bool
is_device s k =
    leb (semaphore_at s.semaphore_array 0) k && leb k (semaphore_at s.semaphore_array 47)

-- The nucleus when the death of a process at `k` has been accounted for.
abbrev pub accounted : Bool → Ptr → Kernel → Kernel
accounted device k s = record s {
  soft_block_count = if device then sub s.soft_block_count 1 else s.soft_block_count;
  words = if device then s.words else update s.words k (add (s.words k) 1);
}

blocked_run :
    (s : Kernel) (p k found : Ptr) (fuel : ℕ) (a : Asl) (t : Pcbs) (device : Bool)
    → p ≢ null
    → p ≢ s.current_process
    → s.asl.pcbs.tree.p_child p ≡ null
    → k ≢ null
    → s.asl.pcbs.p_sem_add p ≡ k
    → is_device s k ≡ device
    → out_blocked p s.asl ≡ ok found a
    → free_pcb p a.pcbs ≡ ok tt t
    → honey_i_killed_the_kids (suc fuel) p s
      ≡ ok tt (record (accounted device k s) {
        process_count = sub s.process_count 1;
        asl = record a { pcbs = t };
      })
unfolding honey_i_killed_the_kids bury empty_child
blocked_run s p k found fuel a t true pn pc leaf kn name dev run1 run2 =
    let run1' : out_blocked p
          (record (s.asl) { pcbs = record (s.asl.pcbs) { tree = s.asl.pcbs.tree } })
        ≡ ok found a =
      run1 in
    simp (ne→== p null pn, eq→== (s.asl.pcbs.tree.p_child p) null leaf)
      (simp (ne→== p s.current_process pc, name, ne→== k null kn) (simp run1' (simp (dev, run2))))
blocked_run s p k found fuel a t false pn pc leaf kn name dev run1 run2 =
    let run1' : out_blocked p
          (record (s.asl) { pcbs = record (s.asl.pcbs) { tree = s.asl.pcbs.tree } })
        ≡ ok found a =
      run1 in
    simp (ne→== p null pn, eq→== (s.asl.pcbs.tree.p_child p) null leaf)
      (simp (ne→== p s.current_process pc, name, ne→== k null kn)
        (simp run1' (simp (dev, ne→== k null kn, run2))))

off_erase : (x p : Ptr) (xs : List Ptr) → has x xs ≡ false → has x (erase p xs) ≡ false
off_erase x p xs o = elim (Bool-cases (has x (erase p xs))) [
  | inl y ↦ absurd (ground (arith, has-erase x p xs y))
  | inr y ↦ y
]

module _ (s : Kernel) {h e : Ptr} {ds : List Desc} {fs rs : List Ptr} (p : Ptr) (frees : List Ptr)
    (fuel : ℕ) (n : IsNucleus s.asl s.ready_q h e ds fs rs) (f : IsFree s.asl.pcbs frees)
    (apart : AreIdle ds rs frees) (c : IsChildren s.asl.pcbs.tree p []) (pn : p ≢ null)
    (pc : p ≢ s.current_process) (kn : s.asl.pcbs.p_sem_add p < null) where
  -- With well-formed queues, a process that has no children, is not the current one and waits at
  -- the semaphore it names leaves the queue there, wherever it stands, and is freed. If the
  -- semaphore is a device's, index 0 to 47, the soft-block count is one less, and otherwise, also
  -- for the interval timer's, the semaphore is one more.
  pub honey_i_killed_the_kids-blocked :
      let k = s.asl.pcbs.p_sem_add p in
      has p (waiting_at k ds) ≡ true
      → (u : Kernel) × (ds' : List Desc) × (fs' : List Ptr) × (honey_i_killed_the_kids
            (suc fuel)
            p
            s
          ≡ ok tt u)
        × Killed s u h e p ds' fs' rs frees
        × ((j : Ptr)
            → waiting_at j ds' ≡ (if j == k then erase p (waiting_at k ds) else waiting_at j ds))
        × (u.words ≡ (accounted (is_device s k) k s).words)
        × (u.soft_block_count ≡ (accounted (is_device s k) k s).soft_block_count)
  honey_i_killed_the_kids-blocked i =
      let k = s.asl.pcbs.p_sem_add p in
      let ws = waiting_at k ds in
      let (a, ds', fs', run, u) = out_blocked-IsAsl p n.waits pn kn in
      let (once, real) = waiting_at-Distinct s.asl e (s.asl.s_next h) k ds n.waits.chain in
      let after : (x : Ptr) → WaitsNowhere x ds → WaitsNowhere x ds' = λ x o j.
        subst (λ ys. has x ys ≡ false) (sym (u.waits j))
          (has-if x j k (erase p ws) (waiting_at j ds) (off_erase x p ws (o k)) λ ne. o j) in
      let n1 : IsNucleus a s.ready_q h e ds' fs' rs = record {
        waits = u.shape;
        ready = IsQueue-frame rs n.ready λ x y. u.links x (n.apart x y k);
        apart = λ x y. after x (n.apart x y);
      } in
      let apart' : AreIdle ds' rs frees = record {
        running = apart.running;
        waiting = λ x y. after x (apart.waiting x y);
      } in
      let f1 : IsFree a.pcbs frees =
        subst (λ (q : Ptr). IsQueue a.pcbs.links q frees) (sym u.free_list)
          (IsQueue-frame frees f λ x y. u.links x (apart.waiting x y k)) in
      let resting = excludes p rs ws (λ y. n.apart p y k) i in
      let nowhere : WaitsNowhere p ds' = λ j.
        subst (λ ys. has p ys ≡ false) (sym (u.waits j))
          (has-if p j k (erase p ws) (waiting_at j ds) (erase-gone p ws once)
            (waits-once s.asl e (s.asl.s_next h) j k p ds n.waits.chain i)) in
      let (l, run', n2, f2) =
        freed-IsNucleus (record s { asl = a }) p frees n1 f1 apart' pn resting nowhere
          (excludes p frees ws (λ y. apart.waiting p y k) i) in
      (
        record (accounted (is_device s k) k s) {
          process_count = sub s.process_count 1;
          asl = (freed (record s { asl = a }) l p).asl;
        },
        ds',
        fs',
        blocked_run s p k (if has p ws then p else null) fuel a
            (record (a.pcbs) { links = l; pcb_list_h = p }) (is_device s k) pn pc c.siblings
            (omega arith) refl refl run run',
        record {
          nucleus = n2;
          free = f2;
          count = refl;
          idle = joined-AreIdle p ds' rs frees apart' resting nowhere;
          tree = u.tree;
          names = u.names;
          current = refl;
          array = refl;
        },
        u.waits,
        refl,
        refl,
      )

  -- With well-formed queues, a ready process without children, not the current one, that still
  -- names a semaphore at which it once waited, as `removeBlocked` leaves it, is taken for a
  -- blocked one: the death is accounted to that semaphore, and the block is put on the free list
  -- while the ready queue, with the same tail, is not told.
  pub honey_i_killed_the_kids-stale :
      let k = s.asl.pcbs.p_sem_add p in
      has p rs ≡ true
      → (u : Kernel) × (honey_i_killed_the_kids (suc fuel) p s ≡ ok tt u)
        × (u.ready_q ≡ last null rs)
        × IsFree u.asl.pcbs (frees ++ p ∷ [])
        × (u.words ≡ (accounted (is_device s k) k s).words)
        × (u.soft_block_count ≡ (accounted (is_device s k) k s).soft_block_count)
  honey_i_killed_the_kids-stale i =
      let k = s.asl.pcbs.p_sem_add p in
      let ws = waiting_at k ds in
      let (a, ds', fs', run, u) = out_blocked-IsAsl p n.waits pn kn in
      let f1 : IsFree a.pcbs frees =
        subst (λ (q : Ptr). IsQueue a.pcbs.links q frees) (sym u.free_list)
          (IsQueue-frame frees f λ x y. u.links x (apart.waiting x y k)) in
      let (l, run', f2, same) =
        free_pcb-IsFree a.pcbs p frees f1 pn (excludes p frees rs (apart.running p) i) in
      (
        record (accounted (is_device s k) k s) {
          process_count = sub s.process_count 1;
          asl = (freed (record s { asl = a }) l p).asl;
        },
        blocked_run s p k (if has p ws then p else null) fuel a
            (record (a.pcbs) { links = l; pcb_list_h = p }) (is_device s k) pn pc c.siblings
            (omega arith) refl refl run run',
        n.ready.tail,
        f2,
        refl,
        refl,
      )
