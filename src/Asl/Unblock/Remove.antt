-- ===== src/Asl/Unblock/Remove.antt =====
-- `removeBlocked` of kaya/phase1/asl.c.
use skara.Base.{
  ◌<◌, ◌≡◌, ap, sym, subst, ◌∙◌, ◌≢◌, inl, inr, true, false, List, [], ◌∷◌, ◌++◌, arith, has, last,
  ◌==◌, length, Bool-cases, ==→eq, ==→ne, ne→==, eq→==, cons_of,
}
use skara.Machine.{Ptr, null, ok}
use skara.Pcb.Queue.{remove_proc_q, Links}
use skara.Pcb.Queue.Shape.{IsQueue}
use skara.Pcb.Queue.Remove.{remove_proc_q-IsQueue}
use skara.Asl.{Asl, remove_blocked, release_empty, search_asl}
use skara.Asl.Shape.{Desc, nodes, IsAsl, waiting_at}
use skara.Asl.Search.{Place, find-Place, waiting_at-hit, waiting_at_miss, first_key}
use skara.Asl.Unblock.{Unblocked, Shrinks, settle, requeued}

-- The result of `removeBlocked` where the blocks `xs` wait.
abbrev pub Removes : Asl → Ptr → Ptr → Ptr → List Desc → List Ptr → Type 0
Removes s h e k ds [] = remove_blocked k s ≡ ok null s
Removes s h e k ds (x ∷ xs) =
    (s' : Asl) × (ds' : List Desc) × (fs' : List Ptr) × (remove_blocked k s ≡ ok x s')
    × Unblocked s s' h e k ds ds' xs fs'

remove_run :
    (s s' : Asl) (k c n tp x : Ptr) (l : Links)
    → search_asl k s ≡ ok c s
    → c ≢ null
    → s.s_next c ≡ n
    → n ≢ null
    → s.s_sem_add n ≡ k
    → remove_proc_q (s.s_proc_q n) s.pcbs.links ≡ ok (x, tp) l
    → release_empty c (requeued s l n tp) ≡ ok tt s'
    → remove_blocked k s ≡ ok x s'
unfolding remove_blocked
remove_run s s' k c n tp x l find cn next nn key run free =
    simp (find, ne→== c null cn, next, ne→== n null nn, eq→== _ k key, run, free)

module _ (s : Asl) (h e k : Ptr) (before : List Desc) (fs : List Ptr) where
  remove_miss :
      (after : List Desc)
      → IsAsl s h e (before ++ after) fs
      → Place s h e k (before ++ after) before after
      → first_key after ≢ k
      → k < null
      → Removes s h e k (before ++ after) (waiting_at k (before ++ after))
  unfolding remove_blocked
  remove_miss after w a n kn =
      subst (Removes s h e k (before ++ after))
        (sym (waiting_at_miss k before after a.less a.rest w.sorted kn n))
        (ground (arith, a.run, a.address, a.next_address, a.next_key))

  remove_hit :
      (d : Desc) (after : List Desc) (x : Ptr) (xs : List Ptr)
      → IsAsl s h e (before ++ d ∷ after) fs
      → Place s h e k (before ++ d ∷ after) before (d ∷ after)
      → d.key ≡ k
      → d.waiting ≡ x ∷ xs
      → Removes s h e k (before ++ d ∷ after) (x ∷ xs)
  unfolding remove_blocked
  remove_hit d after x xs w a hit eq =
      let v = a.chain.1 in
      let (tp, l, run, q, same) =
        remove_proc_q-IsQueue x xs (subst (IsQueue s.pcbs.links (s.s_proc_q d.node)) eq v.queue) in
      let r : Shrinks s.pcbs.links l tp d.waiting xs = record {
        queue = q;
        same = λ y o. same y (subst (λ ys. has y ys ≡ false) eq o);
        part = λ y i. subst (λ ys. has y ys ≡ true) (sym eq) (ground arith);
        shorter = omega (arith, ap length eq);
      } in
      let (s', ds', fs', free, u) = settle s h e k before d after fs w a hit l tp xs r in
      (
        s',
        ds',
        fs',
        remove_run s s' k (last h (nodes before)) d.node tp x l a.run a.address a.chain.0 v.address
            (v.key ∙ hit) run free,
        u,
      )

  remove_at :
      (after : List Desc)
      → IsAsl s h e (before ++ after) fs
      → Place s h e k (before ++ after) before after
      → k < null
      → Removes s h e k (before ++ after) (waiting_at k (before ++ after))
  remove_at [] w a kn = remove_miss [] w a (λ y. absurd (omega arith)) kn
  remove_at (d ∷ after) w a kn = elim (Bool-cases (d.key == k)) [
    | inr y ↦ remove_miss (d ∷ after) w a (==→ne d.key k y) kn
    | inl y ↦
        let hit = ==→eq d.key k y in
        let v = a.chain.1 in
        let (x, xs, eq) = cons_of d.waiting v.busy in
        subst (Removes s h e k (before ++ d ∷ after))
          (sym (waiting_at-hit k before d after a.less hit ∙ eq))
          (remove_hit d after x xs w a hit eq)
  ]

-- In a well-formed list `removeBlocked` of a semaphore below `NULL` returns the block that has
-- waited longest there, and it waits there no more; where none waits it returns `NULL` and changes
-- nothing. The list stays well-formed, nothing else about who waits where changes, and no block's
-- own record of its semaphore does, not even that of the block removed.
pub remove_blocked-IsAsl :
    {s : Asl} {h e : Ptr} (k : Ptr) {ds : List Desc} {fs : List Ptr}
    → IsAsl s h e ds fs
    → k < null
    → Removes s h e k ds (waiting_at k ds)
remove_blocked-IsAsl {s} {h} {e} k {ds} {fs} w kn =
    let (before, after, a) = find-Place s h e k ds fs w (omega arith) in
    let to = λ (P : List Desc → Type 0) (x : P ds). subst P a.split x in
    subst (λ l. Removes s h e k l (waiting_at k l)) (sym a.split)
      (remove_at s h e k before fs after (to (λ l. IsAsl s h e l fs) w)
        (to (λ l. Place s h e k l before after) a) kn)
