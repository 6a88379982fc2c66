-- ===== src/Asl/Block/New.antt =====
-- `insertBlocked` of kaya/phase1/asl.c at a semaphore without a descriptor.
use skara.Base.{
  ◌<◌, ◌≡◌, refl, ap, sym, subst, ◌∙◌, ◌≢◌, inl, inr, true, false, List, [], ◌∷◌, ◌++◌, arith, has,
  last, Distinct, ◌==◌, length, length-append, update, Bool-cases, ==→eq, ==→ne, ==-refl,
  has-append, Distinct-insert, Distinct-left, has-last, Distinct-apart,
}
use skara.Machine.{Ptr, null, ok}
use skara.Pcb.Queue.{insert_proc_q, Links}
use skara.Pcb.Queue.Insert.{insert_proc_q-IsQueue}
use skara.Asl.{Asl, insert_blocked, alloc_semd}
use skara.Asl.Shape.{Desc, nodes, Holds, Nodes, Above, IsSorted, IsAsl, Stack, waiting_at, IsIdle}
use skara.Asl.Search.{After, first_key, Place, waiting_at-hit, waiting_at_miss, IsSorted-right}
use skara.Asl.Order.{
  IsSorted-insert, Above-ne, Before-ne, All-append_split, waiting_at_skip, IsFresh-node, IsFresh,
  node_back,
}
use skara.Asl.Frame.{Touches, All-Kept, Nodes-Kept, Nodes-rebuild, Nodes-Holds, Stack-same}
use skara.Asl.Block.{Blocked, enqueued, enqueue_lem}

pub After-Above :
    (k : Ptr) (before after : List Desc)
    → After k after
    → first_key after ≢ k
    → IsSorted (before ++ after)
    → Above k after
After-Above k before [] a n o = tt
After-Above k before (d ∷ after) a n o = (omega arith, IsSorted-right before d after o)

-- The store after a new node `n` for `k` is put behind `c`.
abbrev inserted : Asl → Ptr → Ptr → Ptr → Asl
inserted s n c k = record s {
  semd_free_h = s.s_next n;
  s_next = update (update (update s.s_next n null) n (update s.s_next n null c)) c n;
  s_sem_add = update (update s.s_sem_add n 0) n k;
  s_proc_q = update (update s.s_proc_q n null) n null;
}

module _ (s : Asl) (h e k p : Ptr) (before after : List Desc) where
  abbrev here : Ptr
  here = last h (nodes before)

  -- No descriptor is there, and none is free.
  pub block_full :
      IsAsl s h e (before ++ after) []
      → Place s h e k (before ++ after) before after
      → first_key after ≢ k
      → insert_blocked k p s ≡ ok true s
  unfolding insert_blocked alloc_semd
  block_full w a n = ground (arith, a.run, a.address, a.next_address, a.next_key, w.free)

  -- No descriptor is there, and a free one is taken.
  block_run :
      (l : Links)
      → Place s h e k (before ++ after) before after
      → first_key after ≢ k
      → s.semd_free_h ≢ null
      → here ≢ s.semd_free_h
      → p ≢ null
      → insert_proc_q null p s.pcbs.links ≡ ok p l
      → insert_blocked k p s
        ≡ ok false (enqueued (inserted s s.semd_free_h here k) l s.semd_free_h k p)
  unfolding insert_blocked alloc_semd
  block_run l a n fn cn pn run = ground (
    arith,
    a.run,
    a.address,
    a.next_address,
    a.next_key,
    ==-refl s.semd_free_h,
    enqueue_lem (inserted s s.semd_free_h here k) s.semd_free_h k p l fn pn,
  )

  pub block_new :
      (f : Ptr) (fs : List Ptr)
      → IsAsl s h e (before ++ after) (f ∷ fs)
      → Place s h e k (before ++ after) before after
      → first_key after ≢ k
      → k < null
      → p ≢ null
      → IsIdle p (before ++ after)
      → (s' : Asl) × (ds' : List Desc) × (insert_blocked k p s ≡ ok false s')
        × Blocked s s' h e k p (before ++ after) ds' fs
  block_new f fs w a miss kn pn idle =
      let n = s.semd_free_h in
      let none = waiting_at_miss k before after a.less a.rest w.sorted kn miss in
      let (ib, ia) = All-append_split (λ x. has p x.waiting ≡ false) before after idle in
      let (hb, ha) =
        All-append_split (Holds s) before after
          (Nodes-Holds s e (s.s_next h) (before ++ after) w.chain) in
      let u : IsFresh n h e before after fs = IsFresh-node n h e before after fs (
        subst (λ x. Distinct ((h ∷ nodes (before ++ after)) ++ e ∷ x ∷ fs)) (sym w.free.0)
          w.distinct) in
      let nn : n ≢ null = λ y. w.free.1 (sym w.free.0 ∙ y) in
      let cn : here ≢ n = ground (arith, has-last h (nodes before), u.left) in
      let ca : has here (nodes after ++ e ∷ fs) ≡ false =
        Distinct-apart here (h ∷ nodes before) (nodes after ++ e ∷ fs) u.rest
          (has-last h (nodes before)) in
      let ca' : (has here (nodes after) ≡ false) × (here ≢ e) × (has here fs ≡ false) =
        ground (arith, has-append here (nodes after) (e ∷ fs)) in
      let (l, run, q, same) =
        insert_proc_q-IsQueue {l = s.pcbs.links} {tp = null} p []
          (record { tail = refl; chain = tt; distinct = tt; addresses = refl }) pn refl in
      let s' = enqueued (inserted s n here k) l n k p in
      let d' : Desc = record { node = n; key = k; waiting = p ∷ [] } in
      let t : Touches s s' n k p = record {
        sem_add = λ x y. ground arith;
        proc_q = λ x y. ground arith;
        links = λ x y z. same x (ground arith);
        names = λ x y. ground arith;
      } in
      let above = After-Above k before after a.rest miss w.sorted in
      let kb = All-Kept s s' n k p before t hb (Before-ne k before a.less) (ground arith) ib in
      let ka = All-Kept s s' n k p after t ha (Above-ne k after k (omega arith) above) u.right ia in
      let v' : Holds s' d' = record {
        address = nn;
        below = kn;
        key = ground arith;
        busy = λ y. omega (arith, ap length y);
        few = omega arith;
        queue = rw (==-refl n) q;
        names = λ x i. ground arith;
      } in
      let next' : s'.s_next here ≡ n = ground arith in
      let after' : Nodes s' e (s'.s_next n) after =
        subst (λ (x : Ptr). Nodes s' e x after) (ground arith)
          (Nodes-Kept s s' e (s.s_next here) after a.chain ka λ x i. ground arith) in
      (
        s',
        before ++ d' ∷ after,
        block_run l a miss nn cn pn run,
        record {
          shape = record {
            head = w.head;
            head_address = w.head_address;
            end_address = w.end_address;
            end_key = ground (arith, u.end, w.end_key);
            chain =
                Nodes-rebuild s s' e h before after (d' ∷ after) w.chain
                  (Distinct-left (h ∷ nodes before) (nodes after ++ e ∷ fs) u.rest) kb
                  (λ x i y. ground arith)
                  (
                    next',
                    v',
                    subst (λ (x : Ptr). Nodes s' e (s'.s_next x) after) (sym next') after',
                  );
            sorted = IsSorted-insert before d' after w.sorted a.less above;
            free =
                Stack-same s s' e (s.s_next n) fs
                  (subst (λ (x : Ptr). Stack s (s.s_next x) fs) (sym w.free.0) w.free.2)
                  λ x i. ground arith;
            count =
                omega
                  (arith, w.count, length-append before after, length-append before (d' ∷ after));
            distinct = node_back h before d' after (e ∷ fs) (
                Distinct-insert n (h ∷ nodes before) (nodes after ++ e ∷ fs) u.rest u.left
                  (ground (arith, has-append n (nodes after) (e ∷ fs))));
          };
          waits = λ j. elim (Bool-cases (j == k)) [
            | inl y ↦ rw y (
                ap (λ x. waiting_at x (before ++ d' ∷ after)) (==→eq j k y)
                ∙ waiting_at-hit k before d' after a.less refl
                ∙ ap (λ xs. xs ++ p ∷ []) (sym none))
            | inr y ↦ rw y (waiting_at_skip j before d' after λ z. ==→ne j k y (sym z))
          ];
          named = ground arith;
          states = refl;
          names = λ x y. ground arith;
          links = rw none same;
        },
      )
