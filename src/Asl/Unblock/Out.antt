-- ===== src/Asl/Unblock/Out.antt =====
-- `outBlocked` of kaya/phase1/asl.c.
use mathlib.Core.List.{append-nil}
use skara.Base.{
  ℕ, ◌<◌, ◌≡◌, refl, ap, sym, subst, ◌∙◌, ◌≢◌, inl, inr, true, List, [], ◌∷◌, ◌++◌, arith, has,
  last, ◌==◌, length, if◌then◌else◌, Bool-cases, ==→eq, ==→ne, erase, has-erase, length-erase,
  ne→==, eq→==, zero, suc, Distinct, Distinct-left, Distinct-apart, has-last, ne-last,
}
use skara.Machine.{Ptr, null, ok, fault}
use skara.Pcb.Queue.{out_proc_q, Links, max_proc}
use skara.Pcb.Queue.Out.{out_proc_q-IsQueue, out_proc_q-null}
use skara.Asl.{Asl, out_blocked, release_empty, search_asl, search_loop}
use skara.Asl.Shape.{Desc, nodes, IsAsl, waiting_at, Nodes}
use skara.Asl.Search.{Place, find-Place, waiting_at-hit, waiting_at_miss, first_key, Before}
use skara.Asl.Unblock.{Unblocked, Shrinks, settle, requeued, released, release_run}

out_run :
    (s s' : Asl) (p k c n tp x : Ptr) (l : Links)
    → p ≢ null
    → s.pcbs.p_sem_add p ≡ k
    → search_asl k s ≡ ok c s
    → c ≢ null
    → s.s_next c ≡ n
    → n ≢ null
    → s.s_sem_add n ≡ k
    → out_proc_q (s.s_proc_q n) p s.pcbs.links ≡ ok (x, tp) l
    → release_empty c (requeued s l n tp) ≡ ok tt s'
    → out_blocked p s ≡ ok x s'
unfolding out_blocked
out_run s s' p k c n tp x l pn name find cn next nn key run free =
    simp (
      ne→== p null pn,
      name,
      find,
      ne→== c null cn,
      next,
      ne→== n null nn,
      eq→== _ k key,
      run,
      free,
    )

-- The result of `outBlocked` where the blocks `xs` wait at the semaphore that `p` names.
abbrev pub Takes : Asl → Ptr → Ptr → Ptr → Ptr → List Desc → List Ptr → Type 0
Takes s h e k p ds xs =
    (s' : Asl) × (ds' : List Desc) × (fs' : List Ptr) × (out_blocked p s
      ≡ ok (if has p xs then p else null) s')
    × Unblocked s s' h e k ds ds' (erase p xs) fs'

module _ (s : Asl) (h e k p : Ptr) (before : List Desc) (fs : List Ptr) (pn : p ≢ null)
    (name : s.pcbs.p_sem_add p ≡ k) where
  out_miss :
      (after : List Desc)
      → IsAsl s h e (before ++ after) fs
      → Place s h e k (before ++ after) before after
      → first_key after ≢ k
      → k < null
      → Takes s h e k p (before ++ after) (waiting_at k (before ++ after))
  unfolding out_blocked
  out_miss after w a n kn =
      let none = waiting_at_miss k before after a.less a.rest w.sorted kn n in
      subst (Takes s h e k p (before ++ after)) (sym none) (
        s,
        before ++ after,
        fs,
        ground (arith, a.run, a.address, a.next_address, a.next_key),
        record {
          shape = w;
          waits = λ j. elim (Bool-cases (j == k)) [
            | inl y ↦ rw y (ap (λ x. waiting_at x (before ++ after)) (==→eq j k y) ∙ none)
            | inr y ↦ rw y
          ];
          names = λ x. refl;
          states = refl;
          tree = refl;
          free_list = refl;
          links = λ x o. (refl, refl);
        },
      )

  out_hit :
      (d : Desc) (after : List Desc)
      → IsAsl s h e (before ++ d ∷ after) fs
      → Place s h e k (before ++ d ∷ after) before (d ∷ after)
      → d.key ≡ k
      → Takes s h e k p (before ++ d ∷ after) d.waiting
  out_hit d after w a hit =
      let v = a.chain.1 in
      let (tp, l, run, q, same) = out_proc_q-IsQueue p d.waiting v.queue v.few pn in
      let r : Shrinks s.pcbs.links l tp d.waiting (erase p d.waiting) = record {
        queue = q;
        same = same;
        part = λ y i. has-erase y p d.waiting i;
        shorter = length-erase p d.waiting;
      } in
      let (s', ds', fs', free, u) =
        settle s h e k before d after fs w a hit l tp (erase p d.waiting) r in
      (
        s',
        ds',
        fs',
        out_run s s' p k (last h (nodes before)) d.node tp (if has p d.waiting then p else null) l
            pn name a.run a.address a.chain.0 v.address (v.key ∙ hit) run free,
        u,
      )

  out_at :
      (after : List Desc)
      → IsAsl s h e (before ++ after) fs
      → Place s h e k (before ++ after) before after
      → k < null
      → Takes s h e k p (before ++ after) (waiting_at k (before ++ after))
  out_at [] w a kn = out_miss [] w a (λ y. absurd (omega arith)) kn
  out_at (d ∷ after) w a kn = elim (Bool-cases (d.key == k)) [
    | inr y ↦ out_miss (d ∷ after) w a (==→ne d.key k y) kn
    | inl y ↦
        let hit = ==→eq d.key k y in
        subst (Takes s h e k p (before ++ d ∷ after))
          (sym (waiting_at-hit k before d after a.less hit)) (out_hit d after w a hit)
  ]

-- In a well-formed list, for a block that is not `NULL` and names a semaphore below `NULL`,
-- `outBlocked` takes the block out of that semaphore's queue, wherever it stands there, and
-- returns it; if it does not wait there the result is `NULL`. The list stays well-formed and
-- nothing else about who waits where changes.
pub out_blocked-IsAsl :
    {s : Asl} {h e : Ptr} (p : Ptr) {ds : List Desc} {fs : List Ptr}
    → IsAsl s h e ds fs
    → p ≢ null
    → s.pcbs.p_sem_add p < null
    → Takes s h e (s.pcbs.p_sem_add p) p ds (waiting_at (s.pcbs.p_sem_add p) ds)
out_blocked-IsAsl {s} {h} {e} p {ds} {fs} w pn kn =
    let k = s.pcbs.p_sem_add p in
    let (before, after, a) = find-Place s h e k ds fs w (omega arith) in
    let to = λ (P : List Desc → Type 0) (x : P ds). subst P a.split x in
    subst (λ l. Takes s h e k p l (waiting_at k l)) (sym a.split)
      (out_at s h e k p before fs pn refl after (to (λ l. IsAsl s h e l fs) w)
        (to (λ l. Place s h e k l before after) a) kn)

-- The walk through a list whose end node is gone runs into `NULL`.
walk_fault :
    (s s' : Asl) (e k : Ptr) (fuel : ℕ) (c : Ptr) (ds : List Desc)
    → Nodes s e (s.s_next c) ds
    → Distinct (c ∷ nodes ds)
    → Before k ds
    → ((a : Ptr) → has a (c ∷ nodes ds) ≡ true → a ≢ last c (nodes ds) → s'.s_next a ≡ s.s_next a)
    → ((a : Ptr) → s'.s_sem_add a ≡ s.s_sem_add a)
    → s'.s_next (last c (nodes ds)) ≡ null
    → c ≢ null
    → length ds < fuel
    → search_loop fuel k c s' ≡ fault
unfolding search_loop
walk_fault s s' e k zero c ds n u b same keys lost cn f = absurd (omega arith)
walk_fault s s' e k (suc fuel) c [] n u b same keys lost cn f = ground arith
walk_fault s s' e k (suc fuel) c (d ∷ ds) n u b same keys lost cn f =
    let v = n.1 in
    let next : s'.s_next c ≡ d.node =
      same c (ground arith) (ne-last c d.node (nodes ds) u.0) ∙ n.0 in
    let rec =
      walk_fault s s' e k fuel d.node ds (subst (λ (x : Ptr). Nodes s e (s.s_next x) ds) n.0 n.2)
        u.1 b.1 (λ a i m. same a (ground arith) m) keys lost v.address (omega arith) in
    ground (arith, v.address, v.key, keys d.node)

module _ (s : Asl) (h e p : Ptr) (before : List Desc) (fs : List Ptr) where
  lose_end :
      IsAsl s h e before fs
      → Place s h e null before before []
      → p ≢ null
      → s.pcbs.p_sem_add p ≡ null
      → s.s_proc_q e ≡ null
      → s.s_next e ≡ null
      → (s' : Asl) × (out_blocked p s ≡ ok null s')
        × (s'.semd_free_h ≡ e)
        × ((k : Ptr) → Before k before → search_asl k s' ≡ fault)
  unfolding search_asl
  lose_end w a pn name empty last_one =
      let c = last h (nodes before) in
      let s1 = requeued s s.pcbs.links e null in
      let s' = released s1 c e in
      let u : Distinct (h ∷ nodes before) = Distinct-left (h ∷ nodes before) (e ∷ fs) w.distinct in
      let apart : c ≢ e = ground (
        arith,
        Distinct-apart c (h ∷ nodes before) (e ∷ fs) w.distinct (has-last h (nodes before)),
      ) in
      (
        s',
        out_run s s' p null c e null null s.pcbs.links pn name a.run a.address a.chain w.end_address
            w.end_key
            (ap (λ tp. out_proc_q tp p s.pcbs.links) empty ∙ out_proc_q-null p s.pcbs.links)
            (release_run s1 c e a.address w.end_address a.chain (ground arith)),
        refl,
        λ k b.
            ap (λ x. search_loop (suc max_proc) k x s') w.head
            ∙ walk_fault s s' e k (suc max_proc) h before w.chain u b
                (λ x i m. ground (arith, Distinct-apart x (h ∷ nodes before) (e ∷ fs) w.distinct i))
                (λ x. refl) (ground arith) w.head_address (omega (arith, w.count)),
      )

-- A block that has never waited names the semaphore `NULL`, which is the key of the end node. Then
-- `outBlocked` returns `NULL`, but it also takes the end node off the list and frees it, and every
-- later search for a semaphore behind all that have descriptors reads through `NULL`.
pub out_blocked_unblocked :
    {s : Asl} {h e : Ptr} (p : Ptr) {ds : List Desc} {fs : List Ptr}
    → IsAsl s h e ds fs
    → p ≢ null
    → s.pcbs.p_sem_add p ≡ null
    → s.s_proc_q e ≡ null
    → s.s_next e ≡ null
    → (s' : Asl) × (out_blocked p s ≡ ok null s')
      × (s'.semd_free_h ≡ e)
      × ((k : Ptr) → Before k ds → search_asl k s' ≡ fault)
out_blocked_unblocked {s} {h} {e} p {ds} {fs} w pn name empty last_one =
    let (before, after, a) = find-Place s h e null ds fs w (omega arith) in
    lose_end s h e p ds fs w (at_end before after a) pn name empty last_one
  where
    at_end :
        (before after : List Desc) → Place s h e null ds before after → Place s h e null ds ds []
    at_end before [] a =
        let eq : ds ≡ before = a.split ∙ append-nil before in
        subst (λ l. Place s h e null ds l []) (sym eq) a
    at_end before (d ∷ after) a = let v = a.chain.1 in absurd (omega (arith, v.below, a.rest))
