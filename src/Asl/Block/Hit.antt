-- ===== src/Asl/Block/Hit.antt =====
-- `insertBlocked` of kaya/phase1/asl.c at a semaphore that has a descriptor.
use skara.Base.{
  ◌<◌, ◌≡◌, refl, ap, sym, subst, ◌∙◌, ◌≢◌, inl, inr, false, List, [], ◌∷◌, ◌++◌, arith, has, last,
  Distinct, ◌==◌, length, length-append, Bool-cases, ==→eq, ==→ne, ==-refl, has-append,
  Distinct-split, Distinct-left,
}
use skara.Machine.{Ptr, null, ok}
use skara.Pcb.Queue.{max_proc}
use skara.Pcb.Queue.Insert.{insert_proc_q-IsQueue}
use skara.Asl.{Asl, insert_blocked}
use skara.Asl.Shape.{Desc, nodes, Holds, IsAsl, waiting_at, IsIdle}
use skara.Asl.Search.{Before, Place, waiting_at-hit, IsSorted-right}
use skara.Asl.Order.{
  IsSorted-drop, IsSorted-insert, nodes-append, Above-ne, Before-ne, All-append_split,
  waiting_at_skip, parts_of,
}
use skara.Asl.Frame.{Touches, All-Kept, Nodes-Kept, Nodes-rebuild, Nodes-Holds, Stack-same}
use skara.Asl.Block.{Blocked, enqueued, enqueue_lem}

module _ (s : Asl) (h e k p : Ptr) (before after : List Desc) (fs : List Ptr) where
  -- A semaphore that has a descriptor.
  pub block_hit :
      (d : Desc)
      → IsAsl s h e (before ++ d ∷ after) fs
      → Place s h e k (before ++ d ∷ after) before (d ∷ after)
      → d.key ≡ k
      → p ≢ null
      → IsIdle p (before ++ d ∷ after)
      → length (waiting_at k (before ++ d ∷ after)) < max_proc
      → (s' : Asl) × (ds' : List Desc) × (insert_blocked k p s ≡ ok false s')
        × Blocked s s' h e k p (before ++ d ∷ after) ds' fs
  unfolding insert_blocked
  block_hit d w a hit pn idle f =
      let c = last h (nodes before) in
      let v = a.chain.1 in
      let here : waiting_at k (before ++ d ∷ after) ≡ d.waiting =
        waiting_at-hit k before d after a.less hit in
      let (ib, ida) = All-append_split (λ x. has p x.waiting ≡ false) before (d ∷ after) idle in
      let id : has p d.waiting ≡ false = ida.0 in
      let ia = ida.1 in
      let (l, run, q, same) = insert_proc_q-IsQueue p d.waiting v.queue pn id in
      let s' = enqueued s l d.node k p in
      let d' : Desc = record d { waiting = d.waiting ++ p ∷ [] } in
      let (nb, na, dd) =
        Distinct-split d.node (h ∷ nodes before) (nodes after ++ e ∷ fs)
          (parts_of h before d after (e ∷ fs) w.distinct) in
      let na' : has d.node (nodes after) ≡ false =
        ground (arith, has-append d.node (nodes after) (e ∷ fs)) in
      let t : Touches s s' d.node k p = record {
        sem_add = λ x n. refl;
        proc_q = λ x n. ground arith;
        links = λ x n m. same x (ground (arith, v.names x));
        names = λ x n. ground arith;
      } in
      let kb =
        All-Kept s s' d.node k p before t
          (All-append_split (Holds s) before (d ∷ after)
            (Nodes-Holds s e _ (before ++ d ∷ after) w.chain)).0
          (Before-ne k before a.less) (ground arith) ib in
      let ka =
        All-Kept s s' d.node k p after t (Nodes-Holds s e _ after a.chain.2)
          (Above-ne k after d.key (omega arith) (IsSorted-right before d after w.sorted)) na' ia in
      let v' : Holds s' d' = record {
        address = v.address;
        below = v.below;
        key = v.key;
        busy = λ y. omega (arith, ap length y, length-append d.waiting (p ∷ []));
        few = omega (arith, length-append d.waiting (p ∷ []), ap length here);
        queue = rw (==-refl d.node) q;
        names = λ x i. ground (arith, has-append x d.waiting (p ∷ []), v.names x);
      } in
      (
        s',
        before ++ d' ∷ after,
        ground (
          arith,
          a.run,
          a.address,
          a.next_address,
          a.next_key,
          enqueue_lem s d.node k p l v.address pn run,
        ),
        record {
          shape = record {
            head = w.head;
            head_address = w.head_address;
            end_address = w.end_address;
            end_key = w.end_key;
            chain =
                Nodes-rebuild s s' e h before (d ∷ after) (d' ∷ after) w.chain
                  (Distinct-left (h ∷ nodes before) (nodes after ++ e ∷ fs) dd) kb (λ x i ne. refl)
                  (a.chain.0, v', Nodes-Kept s s' e _ after a.chain.2 ka λ x i. refl);
            sorted =
                IsSorted-insert before d' after (IsSorted-drop before d after w.sorted)
                  (subst (λ j. Before j before) (sym hit) a.less)
                  (IsSorted-right before d after w.sorted);
            free = Stack-same s s' e s.semd_free_h fs w.free λ x i. refl;
            count = omega (
              arith,
              w.count,
              length-append before (d ∷ after),
              length-append before (d' ∷ after),
            );
            distinct =
                subst (λ ns. Distinct ((h ∷ ns) ++ e ∷ fs))
                  (nodes-append before (d ∷ after) ∙ sym (nodes-append before (d' ∷ after)))
                  w.distinct;
          };
          waits = λ j. elim (Bool-cases (j == k)) [
            | inl y ↦ rw y (
                ap (λ x. waiting_at x (before ++ d' ∷ after)) (==→eq j k y)
                ∙ waiting_at-hit k before d' after a.less hit
                ∙ ap (λ xs. xs ++ p ∷ []) (sym here))
            | inr n ↦
                let ne : d.key ≢ j = λ y. ==→ne j k n (sym y ∙ hit) in
                rw n
                  (waiting_at_skip j before d' after ne ∙ sym (waiting_at_skip j before d after ne))
          ];
          named = ground arith;
          states = refl;
          names = λ x n. ground arith;
          links = rw here same;
        },
      )
