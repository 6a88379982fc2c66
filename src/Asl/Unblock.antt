-- ===== src/Asl/Unblock.antt =====
-- What `removeBlocked` and `outBlocked` of kaya/phase1/asl.c have in common: a queue loses a block,
-- and its descriptor is released when the queue is empty.
pub mod Remove
pub mod Out
use skara.Base.{
  ℕ, suc, ◌+◌, ◌<◌, ◌≤◌, ◌≡◌, refl, ap, sym, subst, ◌∙◌, ◌≢◌, ◌⊎◌, inl, inr, Bool, true, false,
  List, [], ◌∷◌, ◌++◌, arith, has, last, Distinct, ◌==◌, ◌||◌, length, length-append, ne-last,
  if◌then◌else◌, update, Bool-cases, ==→eq, ==→ne, ne→==, eq→==, ==-refl, has-append,
  Distinct-split, Distinct-insert, Distinct-left, has-last, Distinct-apart,
}
use skara.Machine.{Ptr, null, ok}
use skara.Pcb.Queue.{max_proc, Links}
use skara.Pcb.Queue.Shape.{IsQueue, SameOutside}
use skara.Asl.{Asl, release_empty, free_semd}
use skara.Asl.Shape.{
  Desc, All, nodes, Holds, Nodes, Above, IsSorted, IsAsl, Stack, waiting_at, IsIdle,
}
use skara.Asl.Search.{
  Before, After, first_key, Place, waiting_at-hit, waiting_at_miss, waiting_at-Before,
  waiting_at-Above, IsSorted-right,
}
use skara.Asl.Frame.{Kept, Touches, All-Kept, Nodes-Kept, Nodes-rebuild, Nodes-Holds, Stack-same}
use skara.Asl.Order.{
  IsSorted-drop, IsSorted-insert, nodes-append, Above-ne, Before-ne, All-append_split,
  waiting_at_skip, parts_of, node_freed,
}

-- The list after the queue at `k` has become `zs`. What a block says of where it waits stays as it
-- was, also for the block that left.
pub record Unblocked (s s' : Asl) (h e k : Ptr) (ds ds' : List Desc) (zs fs' : List Ptr)
    : Type 0 where
  pub shape : IsAsl s' h e ds' fs'
  pub waits : (j : Ptr) → waiting_at j ds' ≡ (if j == k then zs else waiting_at j ds)
  pub names : (x : Ptr) → s'.pcbs.p_sem_add x ≡ s.pcbs.p_sem_add x
  pub links : SameOutside (waiting_at k ds) s.pcbs.links s'.pcbs.links
  pub states : s'.pcbs.p_s ≡ s.pcbs.p_s
  pub tree : s'.pcbs.tree ≡ s.pcbs.tree
  pub free_list : s'.pcbs.pcb_list_h ≡ s.pcbs.pcb_list_h

-- The store after the queue of the node has got new links and a new tail.
abbrev pub requeued : Asl → Links → Ptr → Ptr → Asl
requeued s l n tp = record s {
  pcbs = record (s.pcbs) { links = l };
  s_proc_q = update s.s_proc_q n tp;
}

-- The store after the node `n` behind `c` is taken off and freed.
abbrev pub released : Asl → Ptr → Ptr → Asl
released s c n = record s {
  semd_free_h = n;
  s_next = update (update s.s_next c (s.s_next n)) n s.semd_free_h;
}

-- Where the queue behind `c` is empty its node is released.
pub release_run :
    (s : Asl) (c n : Ptr)
    → c ≢ null
    → n ≢ null
    → s.s_next c ≡ n
    → s.s_proc_q n ≡ null
    → release_empty c s ≡ ok tt (released s c n)
unfolding release_empty free_semd
release_run s c n cn nn next q =
    simp (ne→== c null cn, next, ne→== n null nn, eq→== (s.s_proc_q n) null q)

-- A smaller queue in the place of another.
pub record Shrinks (l l' : Links) (tp' : Ptr) (xs zs : List Ptr) : Type 0 where
  pub queue : IsQueue l' tp' zs
  pub same : SameOutside xs l l'
  pub part : (x : Ptr) → has x zs ≡ true → has x xs ≡ true
  pub shorter : length zs ≤ length xs

IsIdle-null : (s : Asl) (ds : List Desc) → All (Holds s) ds → IsIdle null ds
IsIdle-null s [] a = tt
IsIdle-null s (d ∷ ds) a = let q = a.0.queue in (q.addresses, IsIdle-null s ds a.1)

module _ (s : Asl) (h e k : Ptr) (before : List Desc) (d : Desc) (after : List Desc) (fs : List Ptr)
    (w : IsAsl s h e (before ++ d ∷ after) fs)
    (a : Place s h e k (before ++ d ∷ after) before (d ∷ after)) (hit : d.key ≡ k) where
  abbrev here : Ptr
  here = last h (nodes before)

  waits_here : waiting_at k (before ++ d ∷ after) ≡ d.waiting
  waits_here = waiting_at-hit k before d after a.less hit

  Touches-requeued :
      (l : Links) (tp : Ptr)
      → SameOutside d.waiting s.pcbs.links l
      → Touches s (requeued s l d.node tp) d.node k null
  Touches-requeued l tp same =
      let v = a.chain.1 in
      record {
        sem_add = λ x n. refl;
        proc_q = λ x n. ground arith;
        links = λ x n m. same x (ground (arith, v.names x));
        names = λ x n. refl;
      }

  -- Some block still waits.
  settle_busy :
      (l : Links) (tp z : Ptr) (zs : List Ptr)
      → Shrinks s.pcbs.links l tp d.waiting (z ∷ zs)
      → (ds' : List Desc) × (release_empty here (requeued s l d.node tp)
          ≡ ok tt (requeued s l d.node tp))
        × Unblocked s (requeued s l d.node tp) h e k (before ++ d ∷ after) ds' (z ∷ zs) fs
  unfolding release_empty
  settle_busy l tp z zs r =
      let s' = requeued s l d.node tp in
      let v = a.chain.1 in
      let d' : Desc = record d { waiting = z ∷ zs } in
      let (hb, hda) =
        All-append_split (Holds s) before (d ∷ after)
          (Nodes-Holds s e (s.s_next h) (before ++ d ∷ after) w.chain) in
      let (nb, na, dd) =
        Distinct-split d.node (h ∷ nodes before) (nodes after ++ e ∷ fs)
          (parts_of h before d after (e ∷ fs) w.distinct) in
      let na' : has d.node (nodes after) ≡ false =
        ground (arith, has-append d.node (nodes after) (e ∷ fs)) in
      let t = Touches-requeued l tp r.same in
      let kb =
        All-Kept s s' d.node k null before t hb (Before-ne k before a.less) (ground arith)
          (IsIdle-null s before hb) in
      let ka =
        All-Kept s s' d.node k null after t hda.1
          (Above-ne k after d.key (omega arith) (IsSorted-right before d after w.sorted)) na'
          (IsIdle-null s after hda.1) in
      let q = r.queue in
      let v' : Holds s' d' = record {
        address = v.address;
        below = v.below;
        key = v.key;
        busy = λ y. omega (arith, ap length y);
        few = omega (arith, v.few, r.shorter);
        queue = rw (==-refl d.node) q;
        names = λ x i. v.names x (r.part x i);
      } in
      let tn : tp ≢ null = ground (arith, q.tail, q.addresses, has-last z zs) in
      (
        before ++ d' ∷ after,
        ground (arith, a.address, a.next_address, a.chain.0, ==-refl d.node),
        record {
          shape = record {
            head = w.head;
            head_address = w.head_address;
            end_address = w.end_address;
            end_key = w.end_key;
            chain =
                Nodes-rebuild s s' e h before (d ∷ after) (d' ∷ after) w.chain
                  (Distinct-left (h ∷ nodes before) (nodes after ++ e ∷ fs) dd) kb (λ x i ne. refl)
                  (
                    a.chain.0,
                    v',
                    Nodes-Kept s s' e (s.s_next (s.s_next here)) after a.chain.2 ka λ x i. refl,
                  );
            sorted =
                IsSorted-insert before d' after (IsSorted-drop before d after w.sorted)
                  (subst (λ j. Before j before) (sym hit) a.less)
                  (IsSorted-right before d after w.sorted);
            free = Stack-same s s' e s.semd_free_h fs w.free λ x i. refl;
            count = omega (
              arith,
              w.count,
              length-append before (d ∷ after),
              length-append before (d' ∷ after),
            );
            distinct =
                subst (λ ns. Distinct ((h ∷ ns) ++ e ∷ fs))
                  (nodes-append before (d ∷ after) ∙ sym (nodes-append before (d' ∷ after)))
                  w.distinct;
          };
          waits = λ j. elim (Bool-cases (j == k)) [
            | inl y ↦ rw y (
                ap (λ x. waiting_at x (before ++ d' ∷ after)) (==→eq j k y)
                ∙ waiting_at-hit k before d' after a.less hit)
            | inr n ↦
                let ne : d.key ≢ j = λ y. ==→ne j k n (sym y ∙ hit) in
                rw n
                  (waiting_at_skip j before d' after ne ∙ sym (waiting_at_skip j before d after ne))
          ];
          names = λ x. refl;
          links = rw waits_here r.same;
          states = refl;
          tree = refl;
          free_list = refl;
        },
      )

  -- No block waits any more.
  settle_free :
      (l : Links) (tp : Ptr)
      → Shrinks s.pcbs.links l tp d.waiting []
      → let s' = released (requeued s l d.node tp) here d.node in
        (release_empty here (requeued s l d.node tp) ≡ ok tt s')
        × Unblocked s s' h e k (before ++ d ∷ after) (before ++ after) [] (d.node ∷ fs)
  settle_free l tp r =
      let s' = released (requeued s l d.node tp) here d.node in
      let v = a.chain.1 in
      let (hb, hda) =
        All-append_split (Holds s) before (d ∷ after)
          (Nodes-Holds s e (s.s_next h) (before ++ d ∷ after) w.chain) in
      let (nb, na, dd) =
        Distinct-split d.node (h ∷ nodes before) (nodes after ++ e ∷ fs)
          (parts_of h before d after (e ∷ fs) w.distinct) in
      let na' : (has d.node (nodes after) ≡ false) × (has d.node fs ≡ false) =
        ground (arith, has-append d.node (nodes after) (e ∷ fs)) in
      let cn : here ≢ d.node = ground (arith, has-last h (nodes before), nb) in
      let ca : has here (nodes after ++ e ∷ fs) ≡ false =
        Distinct-apart here (h ∷ nodes before) (nodes after ++ e ∷ fs) dd
          (has-last h (nodes before)) in
      let ca' : (has here (nodes after) ≡ false) × (has here fs ≡ false) =
        ground (arith, has-append here (nodes after) (e ∷ fs)) in
      let t0 = Touches-requeued l tp r.same in
      let t : Touches s s' d.node k null = record {
        sem_add = t0.sem_add;
        proc_q = t0.proc_q;
        links = t0.links;
        names = t0.names;
      } in
      let kb =
        All-Kept s s' d.node k null before t hb (Before-ne k before a.less) (ground arith)
          (IsIdle-null s before hb) in
      let ka =
        All-Kept s s' d.node k null after t hda.1
          (Above-ne k after d.key (omega arith) (IsSorted-right before d after w.sorted)) na'.0
          (IsIdle-null s after hda.1) in
      let q = r.queue in
      let gone : waiting_at k (before ++ after) ≡ [] =
        waiting_at-Before k before after a.less
        ∙ waiting_at-Above k after d.key (omega arith) (IsSorted-right before d after w.sorted) in
      let next' : s'.s_next here ≡ s.s_next (s.s_next here) = ground (arith, a.chain.0) in
      (
        release_run (requeued s l d.node tp) here d.node a.address v.address a.chain.0
            (ground (arith, q.tail)),
        record {
          shape = record {
            head = w.head;
            head_address = w.head_address;
            end_address = w.end_address;
            end_key = w.end_key;
            chain =
                Nodes-rebuild s s' e h before (d ∷ after) after w.chain
                  (Distinct-left (h ∷ nodes before) (nodes after ++ e ∷ fs) dd) kb
                  (λ x i ne. ground arith)
                  (subst (λ (x : Ptr). Nodes s' e x after) (sym next')
                    (Nodes-Kept s s' e (s.s_next (s.s_next here)) after a.chain.2 ka
                      λ x i. ground arith));
            sorted = IsSorted-drop before d after w.sorted;
            free = (
              refl,
              v.address,
              subst (λ (x : Ptr). Stack s' x fs) (ground arith)
                  (Stack-same s s' e s.semd_free_h fs w.free λ x i. ground arith),
            );
            count =
                omega
                  (arith, w.count, length-append before (d ∷ after), length-append before after);
            distinct = node_freed d.node h e before after fs nb na dd;
          };
          waits = λ j. elim (Bool-cases (j == k)) [
            | inl y ↦ rw y (ap (λ x. waiting_at x (before ++ after)) (==→eq j k y) ∙ gone)
            | inr n ↦
                let ne : d.key ≢ j = λ y. ==→ne j k n (sym y ∙ hit) in
                rw n (sym (waiting_at_skip j before d after ne))
          ];
          names = λ x. refl;
          links = rw waits_here r.same;
          states = refl;
          tree = refl;
          free_list = refl;
        },
      )

  pub settle :
      (l : Links) (tp : Ptr) (zs : List Ptr)
      → Shrinks s.pcbs.links l tp d.waiting zs
      → (s' : Asl) × (ds' : List Desc) × (fs' : List Ptr) × (release_empty
            (last h (nodes before))
            (requeued s l d.node tp)
          ≡ ok tt s')
        × Unblocked s s' h e k (before ++ d ∷ after) ds' zs fs'
  settle l tp [] r =
      let (run, u) = settle_free l tp r in
      (released (requeued s l d.node tp) here d.node, before ++ after, d.node ∷ fs, run, u)
  settle l tp (z ∷ zs) r =
      let (ds', run, u) = settle_busy l tp z zs r in (requeued s l d.node tp, ds', fs, run, u)
