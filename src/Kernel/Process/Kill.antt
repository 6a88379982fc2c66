-- ===== src/Kernel/Process/Kill.antt =====
-- What `HoneyIKilledTheKids` of kaya/phase2/exceptions.c does with a process that has no children.
use skara.Base.{
  ℕ, suc, ◌≤◌, ◌≡◌, refl, ◌≢◌, true, false, List, [], ◌∷◌, ◌++◌, arith, has, if◌then◌else◌,
  Bool-cases, inl, inr, ne→==, eq→==, erase, has-erase, length, Distinct, subst, sym, ==→eq, ◌==◌,
  has-append,
}
use skara.Base.Word.{sub}
use skara.Machine.{Ptr, null, ok}
use skara.Pcb.Queue.{Links, max_proc, out_proc_q}
use skara.Pcb.Queue.Shape.{IsQueue-frame}
use skara.Pcb.Queue.Out.{out_proc_q-IsQueue}
use skara.Pcb.Tree.{empty_child}
use skara.Pcb.Tree.Shape.{IsChildren}
use skara.Pcb.Table.{Pcbs, free_pcb}
use skara.Pcb.Table.Free.{IsFree, free_pcb-IsFree}
use skara.Asl.Shape.{Desc, waiting_at}
use skara.Kernel.{Kernel}
use skara.Kernel.State.{IsNucleus}
use skara.Asl.Waiting.{WaitsNowhere, IsAsl-pcbs, relinked}
use skara.Kernel.Process.{honey_i_killed_the_kids, bury}

-- The free blocks are neither ready nor waiting.
pub record AreIdle (ds : List Desc) (rs frees : List Ptr) : Type 0 where
  pub running : (x : Ptr) → has x frees ≡ true → has x rs ≡ false
  pub waiting : (x : Ptr) → has x frees ≡ true → WaitsNowhere x ds

pub erase-gone : (p : Ptr) (xs : List Ptr) → Distinct xs → has p (erase p xs) ≡ false
erase-gone p [] d = refl
erase-gone p (x ∷ xs) d = ground (arith, erase-gone p xs d.1)

pub excludes :
    (x : Ptr) (xs ys : List Ptr)
    → (has x xs ≡ true → has x ys ≡ false)
    → has x ys ≡ true
    → has x xs ≡ false
excludes x xs ys f i = elim (Bool-cases (has x xs)) [
  | inl y ↦ absurd (ground (arith, f y))
  | inr y ↦ y
]

off_two : (x p : Ptr) (xs : List Ptr) → has x xs ≡ false → x ≢ p → has x (p ∷ xs) ≡ false
off_two x p xs o ne = ground (arith)

ne_member : (x p : Ptr) (xs : List Ptr) → has x xs ≡ true → has p xs ≡ false → x ≢ p
ne_member x p xs i o = λ e. absurd (ground (arith))

newcomer :
    (x p : Ptr) (frees : List Ptr)
    → has x frees ≡ false
    → has x (frees ++ p ∷ []) ≡ true
    → (x == p) ≡ true
newcomer x p frees z y = ground (arith, has-append x frees (p ∷ []))

-- A block that is neither ready nor waiting may join the free ones.
pub joined-AreIdle :
    (p : Ptr) (ds : List Desc) (rs frees : List Ptr)
    → AreIdle ds rs frees
    → has p rs ≡ false
    → WaitsNowhere p ds
    → AreIdle ds rs (frees ++ p ∷ [])
joined-AreIdle p ds rs frees i out w = record {
  running = λ x y. elim (Bool-cases (has x frees)) [
    | inl z ↦ i.running x z
    | inr z ↦ subst (λ (a : Ptr). has a rs ≡ false) (sym (==→eq x p (newcomer x p frees z y))) out
  ];
  waiting = λ x y. elim (Bool-cases (has x frees)) [
    | inl z ↦ i.waiting x z
    | inr z ↦ subst (λ (a : Ptr). WaitsNowhere a ds) (sym (==→eq x p (newcomer x p frees z y))) w
  ];
}

-- The nucleus after `p`, which is in no queue now, is freed.
abbrev pub freed : Kernel → Links → Ptr → Kernel
freed s l p = record s {
  process_count = sub s.process_count 1;
  asl = record (s.asl) { pcbs = record (s.asl.pcbs) { links = l; pcb_list_h = p } };
}

-- From the queues without `p` to those in which `p` is free.
pub freed-IsNucleus :
    (s : Kernel) {h e : Ptr} {ds : List Desc} {fs rs : List Ptr} (p : Ptr) (frees : List Ptr)
    → IsNucleus s.asl s.ready_q h e ds fs rs
    → IsFree s.asl.pcbs frees
    → AreIdle ds rs frees
    → p ≢ null
    → has p rs ≡ false
    → WaitsNowhere p ds
    → has p frees ≡ false
    → (l : Links) × (free_pcb p s.asl.pcbs
        ≡ ok tt (record (s.asl.pcbs) { links = l; pcb_list_h = p }))
      × IsNucleus (freed s l p).asl s.ready_q h e ds fs rs
      × IsFree (freed s l p).asl.pcbs (frees ++ p ∷ [])
freed-IsNucleus s {ds} {rs} p frees n f apart pn out idle new =
    let (l, run, f', same) = free_pcb-IsFree s.asl.pcbs p frees f pn new in
    (
      l,
      run,
      record {
        waits =
            IsAsl-pcbs (freed s l p).asl.pcbs n.waits
              (λ x j i. same x (
                off_two x p frees (excludes x frees (waiting_at j ds) (λ y. apart.waiting x y j) i)
                  (ne_member x p (waiting_at j ds) i (idle j))))
              λ x j i. refl;
        ready = IsQueue-frame rs n.ready λ x i.
            same x (
              off_two x p frees (excludes x frees rs (apart.running x) i) (ne_member x p rs i out));
        apart = n.apart;
      },
      f',
    )

-- The outcome of the death of `p`: the ready queue and the semaphore list are what is left of them,
-- `p` is free behind the others, and the process count is one less. The tree, the names of semaphores
-- and the current process are the same.
pub record Killed (s u : Kernel) (h e p : Ptr) (ds' : List Desc) (fs' rs' frees : List Ptr)
    : Type 0 where
  pub nucleus : IsNucleus u.asl u.ready_q h e ds' fs' rs'
  pub free : IsFree u.asl.pcbs (frees ++ p ∷ [])
  pub count : u.process_count ≡ sub s.process_count 1
  pub idle : AreIdle ds' rs' (frees ++ p ∷ [])
  pub tree : u.asl.pcbs.tree ≡ s.asl.pcbs.tree
  pub names : (x : Ptr) → u.asl.pcbs.p_sem_add x ≡ s.asl.pcbs.p_sem_add x
  pub current : u.current_process ≡ s.current_process
  pub array : u.semaphore_array ≡ s.semaphore_array

ready_run :
    (s : Kernel) (p found tp : Ptr) (fuel : ℕ) (m : Links) (t : Pcbs)
    → p ≢ null
    → p ≢ s.current_process
    → s.asl.pcbs.tree.p_child p ≡ null
    → s.asl.pcbs.p_sem_add p ≡ null
    → out_proc_q s.ready_q p s.asl.pcbs.links ≡ ok (found, tp) m
    → free_pcb p (record (s.asl.pcbs) { links = m }) ≡ ok tt t
    → honey_i_killed_the_kids (suc fuel) p s
      ≡ ok tt (record s {
        ready_q = tp;
        process_count = sub s.process_count 1;
        asl = record (s.asl) { pcbs = t };
      })
unfolding honey_i_killed_the_kids bury empty_child
ready_run s p found tp fuel m t pn pc leaf sem run1 run2 =
    simp (ne→== p null pn, eq→== (s.asl.pcbs.tree.p_child p) null leaf)
      (simp (ne→== p s.current_process pc, eq→== (s.asl.pcbs.p_sem_add p) null sem)
        (simp run1 (simp run2)))

-- With well-formed queues, a ready process that has no children, is not the current one and names
-- no semaphore leaves the ready queue, wherever it stands there, and is freed; who waits where
-- does not change, and the process count is one less.
pub honey_i_killed_the_kids-ready :
    (s : Kernel) {h e : Ptr} {ds : List Desc} {fs rs : List Ptr} (p : Ptr) (frees : List Ptr)
    (fuel : ℕ)
    → IsNucleus s.asl s.ready_q h e ds fs rs
    → IsFree s.asl.pcbs frees
    → AreIdle ds rs frees
    → IsChildren s.asl.pcbs.tree p []
    → p ≢ null
    → p ≢ s.current_process
    → s.asl.pcbs.p_sem_add p ≡ null
    → has p rs ≡ true
    → length rs ≤ max_proc
    → (u : Kernel) × (honey_i_killed_the_kids (suc fuel) p s ≡ ok tt u)
      × Killed s u h e p ds fs (erase p rs) frees
      × (u.words ≡ s.words)
      × (u.soft_block_count ≡ s.soft_block_count)
honey_i_killed_the_kids-ready s {h} {e} {ds} {fs} {rs} p frees fuel n f apart c pn pc nosem i few =
    let found = if has p rs then p else null in
    let (tp, m, run, q, same) = out_proc_q-IsQueue p rs n.ready few pn in
    let s1 : Kernel = record s { asl = relinked s.asl m; ready_q = tp } in
    let n1 : IsNucleus s1.asl s1.ready_q h e ds fs (erase p rs) = record {
      waits =
          IsAsl-pcbs s1.asl.pcbs n.waits
            (λ x j y. same x (excludes x rs (waiting_at j ds) (λ z. n.apart x z j) y))
            λ x j y. refl;
      ready = q;
      apart = λ x y. n.apart x (has-erase x p rs y);
    } in
    let apart' : AreIdle ds (erase p rs) frees = record {
      running = λ x y.
          excludes x (erase p rs) frees
            (λ z. excludes x frees rs (apart.running x) (has-erase x p rs z)) y;
      waiting = apart.waiting;
    } in
    let f1 : IsFree s1.asl.pcbs frees = IsQueue-frame frees f λ x y. same x (apart.running x y) in
    let (l, run', n2, f2) =
      freed-IsNucleus s1 p frees n1 f1 apart' pn (erase-gone p rs n.ready.distinct) (n.apart p i)
        (excludes p frees rs (apart.running p) i) in
    (
      freed s1 l p,
      ready_run s p found tp fuel m (record (s1.asl.pcbs) { links = l; pcb_list_h = p }) pn pc
          c.siblings nosem run run',
      record {
        nucleus = n2;
        free = f2;
        count = refl;
        idle =
            joined-AreIdle p ds (erase p rs) frees apart' (erase-gone p rs n.ready.distinct)
              (n.apart p i);
        tree = refl;
        names = λ x. refl;
        current = refl;
        array = refl;
      },
      refl,
      refl,
    )
