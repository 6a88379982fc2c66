-- ===== src/Kernel/Process/Create.antt =====
-- SYS1, `CreateProcess` of kaya/phase2/exceptions.c.
use skara.Base.{
  ◌≡◌, refl, ◌≢◌, true, false, List, [], ◌∷◌, ◌++◌, arith, has, Bool-cases, inl, inr, ne→==,
  ==-refl, update,
}
use skara.Base.Word.{add}
use skara.Machine.{Ptr, null, ok, stop, loads}
use skara.Pcb.Queue.Shape.{IsQueue-frame}
use skara.Pcb.Tree.Shape.{IsChildren, IsChildren-frame, SameTree}
use skara.Pcb.Tree.Children.{insert_child-IsChildren}
use skara.Pcb.Queue.{Links}
use skara.Pcb.Tree.{Tree, insert_child}
use skara.Pcb.Table.{Pcbs, alloc_pcb}
use skara.Pcb.Table.Free.{IsFree, SameBut, alloc_pcb-IsFree, alloc_pcb-nil}
use skara.Asl.Shape.{Desc, waiting_at}
use skara.Kernel.{Kernel, with_v0, copy_state}
use skara.Kernel.State.{IsNucleus, make_ready-IsNucleus, readied}
use skara.Asl.Waiting.{WaitsNowhere, IsAsl-pcbs}
use skara.Kernel.Scheduler.{make_ready}
use skara.Kernel.Process.{create_process, sys1_fail, sys1_success}

-- The free blocks are in no other queue, and none of them is the current process or its child.
pub record AreSpare (q : Ptr) (ds : List Desc) (rs kids frees : List Ptr) : Type 0 where
  pub running : (x : Ptr) → has x frees ≡ true → has x rs ≡ false
  pub idle : (x : Ptr) → has x frees ≡ true → WaitsNowhere x ds
  pub childless : (x : Ptr) → has x frees ≡ true → has x (q ∷ kids) ≡ false

-- The call of a process whose state is at `a`, for a new one with the state at `b`.
abbrev pub Creates :
    Kernel → Ptr → Ptr → Ptr → Ptr → List Desc → List Ptr → List Ptr → List Ptr → List Ptr → Type 0
Creates s a b h e ds fs rs kids [] =
    let st = with_v0 sys1_fail (s.areas a) in
    create_process a b s ≡ stop (loads st) (record s { areas = update s.areas a st })
Creates s a b h e ds fs rs kids (p ∷ frees) =
    let st = with_v0 sys1_success (s.areas a) in
    (u : Kernel) × (create_process a b s ≡ stop (loads st) u)
    × IsNucleus u.asl u.ready_q h e ds fs (rs ++ p ∷ [])
    × IsFree u.asl.pcbs frees
    × IsChildren u.asl.pcbs.tree s.current_process (p ∷ kids)
    × (u.asl.pcbs.p_s p ≡ copy_state (s.asl.pcbs.p_s p) (s.areas b))
    × (u.process_count ≡ add s.process_count 1)
    × (u.areas ≡ update s.areas a st)

-- The nucleus after the new block has its state and is a child, and when the call is done.
abbrev adopted : Kernel → Ptr → Ptr → Pcbs → Tree → Kernel
adopted s b p t tree = record s {
  asl = record (s.asl) {
    pcbs = record t { p_s = update t.p_s p (copy_state (t.p_s p) (s.areas b)); tree = tree };
  };
}

abbrev created : Kernel → Ptr → Kernel
created u a = record u {
  process_count = add u.process_count 1;
  areas = update u.areas a (with_v0 sys1_success (u.areas a));
}

create_run :
    (s : Kernel) (a b p : Ptr) (t : Pcbs) (tree : Tree) (l : Links)
    → a ≢ null
    → b ≢ null
    → p ≢ null
    → alloc_pcb s.asl.pcbs ≡ ok p t
    → insert_child s.current_process p t.tree ≡ ok tt tree
    → make_ready p (adopted s b p t tree) ≡ ok tt (readied (adopted s b p t tree) l p)
    → create_process a b s
      ≡ stop
          (loads (with_v0 sys1_success (s.areas a)))
          (created (readied (adopted s b p t tree) l p) a)
unfolding create_process
create_run s a b p t tree l an bn pn run1 run2 run3 =
    simp (run1, ne→== p null pn)
      (simp (ne→== b null bn)
        (simp (ne→== p null pn) (simp run2 (simp run3 (simp (ne→== a null an, ==-refl a))))))

off_list :
    (x : Ptr) (xs ys : List Ptr)
    → (has x xs ≡ true → has x ys ≡ false)
    → has x ys ≡ true
    → has x xs ≡ false
off_list x xs ys f i = elim (Bool-cases (has x xs)) [
  | inl y ↦ absurd (ground (arith, f y))
  | inr y ↦ y
]

ne_head : (x p : Ptr) (xs : List Ptr) → has x (p ∷ xs) ≡ false → x ≢ p
ne_head x p xs o = ground (arith)

joined_off :
    (x p : Ptr) (xs rs : List Ptr)
    → has p xs ≡ false
    → has x xs ≡ true
    → (has x (p ∷ xs) ≡ true → has x rs ≡ false)
    → has x (p ∷ rs) ≡ false
joined_off x p xs rs o i f = ground (arith)

alloc-SameTree : (p : Ptr) (s t : Pcbs) → SameBut p s t → SameTree p (p ∷ []) s.tree t.tree
alloc-SameTree p s t b = record {
  child = b.child;
  prnt = λ x o. b.prnt x (λ y. absurd (ground (arith)));
  sib_prev = λ x o. b.sib_prev x (λ y. absurd (ground (arith)));
  sib_next = λ x o. b.sib_next x (λ y. absurd (ground (arith)));
}

module _ (s : Kernel) {h e : Ptr} {ds : List Desc} {fs rs kids : List Ptr} (a b : Ptr)
    (n : IsNucleus s.asl s.ready_q h e ds fs rs)
    (c : IsChildren s.asl.pcbs.tree s.current_process kids) (an : a ≢ null) (bn : b ≢ null)
    (qn : s.current_process ≢ null) where
  -- With well-formed queues, free blocks that are in no other queue, and the children of the
  -- current process in a list: with no free block `CreateProcess` returns -1 and changes nothing
  -- else. Otherwise it returns 0, the first free block is the last of the ready queue and the
  -- first child of the caller, its state is a copy of the one given, and the process count is one
  -- more.
  pub create_process-Creates :
      (frees : List Ptr)
      → IsFree s.asl.pcbs frees
      → AreSpare s.current_process ds rs kids frees
      → Creates s a b h e ds fs rs kids frees
  unfolding create_process
  create_process-Creates [] f spare = simp (alloc_pcb-nil s.asl.pcbs f, ne→== a null an, ==-refl a)
  create_process-Creates (p ∷ frees) f spare =
      let q = s.current_process in
      let (t, run1, free, clear, but, same) = alloc_pcb-IsFree s.asl.pcbs p frees f in
      let real = f.addresses in
      let pn : p ≢ null = ground (arith) in
      let here : has p (p ∷ frees) ≡ true = ground (arith) in
      let kin = spare.childless p here in
      let c' : IsChildren t.tree q kids =
        IsChildren-frame s.asl.pcbs.tree t.tree kids c (alloc-SameTree p s.asl.pcbs t but)
          (ground (arith)) λ x i. ground (arith) in
      let (tree, run2, c'', st) =
        insert_child-IsChildren p kids c' qn pn (ground (arith)) clear.sib_prev clear.sib_next in
      let s1 = adopted s b p t tree in
      let off : (x j : Ptr) → has x (waiting_at j ds) ≡ true → has x (p ∷ frees) ≡ false =
        λ x j i. off_list x (p ∷ frees) (waiting_at j ds) (λ y. spare.idle x y j) i in
      let apart : (x : Ptr) → has x rs ≡ true → has x (p ∷ frees) ≡ false =
        λ x i. off_list x (p ∷ frees) rs (spare.running x) i in
      let n1 : IsNucleus s1.asl s1.ready_q h e ds fs rs = record {
        waits =
            IsAsl-pcbs s1.asl.pcbs n.waits (λ x j i. same x (off x j i))
              λ x j i. but.sem_add x (ne_head x p frees (off x j i));
        ready = IsQueue-frame rs n.ready λ x i. same x (apart x i);
        apart = n.apart;
      } in
      let (l, run3, n2, same') =
        make_ready-IsNucleus s1 p n1 pn (spare.running p here) (spare.idle p here) in
      (
        created (readied s1 l p) a,
        create_run s a b p t tree l an bn pn run1 run2 run3,
        n2,
        IsQueue-frame frees free
            λ x i. same' x (joined_off x p frees rs f.distinct.0 i (spare.running x)),
        c'',
        ground (arith, ==-refl p, but.states p),
        refl,
        refl,
      )
