-- ===== src/Asl/Search.antt =====
-- `searchASL` and `headBlocked` of kaya/phase1/asl.c.
use skara.Base.{
  ℕ, zero, suc, ◌<◌, ◌≤◌, ◌≡◌, refl, ap, sym, subst, ◌∙◌, ◌≢◌, inl, inr, List, [], ◌∷◌, ◌++◌, arith,
  last, ◌==◌, ltb, length, Bool-cases, ==→eq, ==→ne,
}
use skara.Machine.{Ptr, null, ok}
use skara.Pcb.Queue.{max_proc, head_proc_q}
use skara.Pcb.Queue.Shape.{first}
use skara.Pcb.Queue.Insert.{head_proc_q-IsQueue}
use skara.Asl.{Asl, search_asl, search_loop, head_blocked}
use skara.Asl.Shape.{Desc, All, nodes, Nodes, Above, IsSorted, IsAsl, waiting_at}

-- Where the semaphore `k` has its place: the keys before are less, the first one after is not.
abbrev pub Before : Ptr → List Desc → Type 0
Before k = All (λ d. d.key < k)

abbrev pub After : Ptr → List Desc → Type 0
After k [] = Unit {0}
After k (d ∷ ds) = k ≤ d.key

-- The first node behind the last of `before`.
abbrev pub first_of : Ptr → List Desc → Ptr
first_of e [] = e
first_of e (d ∷ ds) = d.node

abbrev pub first_key : List Desc → Ptr
first_key [] = null
first_key (d ∷ ds) = d.key

abbrev Found : Asl → Ptr → Ptr → Ptr → List Desc → ℕ → Type 0
Found s e k c ds fuel =
    (before : List Desc) × (after : List Desc) × (ds ≡ before ++ after)
    × Before k before
    × After k after
    × (search_loop fuel k c s ≡ ok (last c (nodes before)) s)

search_loop_lem :
    (s : Asl) (e k : Ptr) (fuel : ℕ) (c : Ptr) (ds : List Desc)
    → Nodes s e (s.s_next c) ds
    → s.s_sem_add e ≡ null
    → e ≢ null
    → c ≢ null
    → k ≤ null
    → length ds < fuel
    → Found s e k c ds fuel
unfolding search_loop
search_loop_lem s e k zero c ds n ek en cn kn f = absurd (omega arith)
search_loop_lem s e k (suc fuel) c [] n ek en cn kn f = ([], [], refl, tt, tt, ground arith)
search_loop_lem s e k (suc fuel) c (d ∷ ds) n ek en cn kn f =
    let a = n.1.address in
    let kd = n.1.key in
    elim (Bool-cases (ltb d.key k)) [
      | inl less ↦
          let (before, after, eq, b, af, run) =
            search_loop_lem s e k fuel d.node ds
              (subst (λ (x : Ptr). Nodes s e (s.s_next x) ds) n.0 n.2) ek en a kn (omega arith) in
          (
            d ∷ before,
            after,
            ap (λ l. d ∷ l) eq,
            (ground arith, b),
            af,
            ground (arith, n.0, a, kd, run),
          )
      | inr more ↦ ([], d ∷ ds, refl, tt, ground arith, ground (arith, n.0, a, kd))
    ]

-- In a well-formed list `searchASL` of a key up to `NULL` ends within its fuel at the node before
-- the place of the key: all descriptors up to it have smaller keys, the next one's is not smaller,
-- and nothing changes.
pub search_asl-IsAsl :
    (s : Asl) (h e k : Ptr) (ds : List Desc) (fs : List Ptr)
    → IsAsl s h e ds fs
    → k ≤ null
    → (before : List Desc) × (after : List Desc) × (ds ≡ before ++ after)
      × Before k before
      × After k after
      × (search_asl k s ≡ ok (last h (nodes before)) s)
unfolding search_asl
search_asl-IsAsl s h e k ds fs w kn =
    let (before, after, eq, b, af, run) =
      search_loop_lem s e k (suc max_proc) h ds w.chain w.end_key w.end_address w.head_address kn
        (ground (arith, w.count)) in
    (before, after, eq, b, af, ap (λ x. search_loop (suc max_proc) k x s) w.head ∙ run)

module _ (s : Asl) (e : Ptr) where
  -- The node behind the place, and its key.
  pub Nodes-split :
      (c : Ptr) (before after : List Desc)
      → Nodes s e (s.s_next c) (before ++ after)
      → Nodes s e (s.s_next (last c (nodes before))) after
  Nodes-split c [] after n = n
  Nodes-split c (d ∷ before) after n =
      Nodes-split d.node before after
        (subst (λ (x : Ptr). Nodes s e (s.s_next x) (before ++ after)) n.0 n.2)

  pub last_address :
      (c : Ptr) (before after : List Desc)
      → Nodes s e (s.s_next c) (before ++ after)
      → c ≢ null
      → last c (nodes before) ≢ null
  last_address c [] after n cn = cn
  last_address c (d ∷ before) after n cn =
      last_address d.node before after
        (subst (λ (x : Ptr). Nodes s e (s.s_next x) (before ++ after)) n.0 n.2) n.1.address

pub waiting_at-Before :
    (k : Ptr) (before after : List Desc)
    → Before k before
    → waiting_at k (before ++ after) ≡ waiting_at k after
waiting_at-Before k [] after b = refl
waiting_at-Before k (d ∷ before) after b = ground (arith, waiting_at-Before k before after b.1)

pub waiting_at-Above :
    (k : Ptr) (ds : List Desc) (j : Ptr) → k ≤ j → Above j ds → waiting_at k ds ≡ []
waiting_at-Above k [] j h a = refl
waiting_at-Above k (d ∷ ds) j h a = ground (arith, waiting_at-Above k ds d.key)

-- All that the functions learn from a search: the split of the list at the place of `k`, the node
-- before it, and the node and the key behind.
pub record Place (s : Asl) (h e k : Ptr) (ds before after : List Desc) : Type 0 where
  pub split : ds ≡ before ++ after
  pub less : Before k before
  pub rest : After k after
  pub run : search_asl k s ≡ ok (last h (nodes before)) s
  pub address : last h (nodes before) ≢ null
  pub chain : Nodes s e (s.s_next (last h (nodes before))) after
  pub next_address : s.s_next (last h (nodes before)) ≢ null
  pub next_key : s.s_sem_add (s.s_next (last h (nodes before))) ≡ first_key after

next_lem :
    (s : Asl) (e c : Ptr) (ds : List Desc)
    → Nodes s e c ds
    → e ≢ null
    → s.s_sem_add e ≡ null
    → (c ≢ null) × (s.s_sem_add c ≡ first_key ds)
next_lem s e c [] n en ek = (ground arith, ap s.s_sem_add n ∙ ek)
next_lem s e c (d ∷ ds) n en ek =
    let a = n.1.address in (ground arith, ap s.s_sem_add n.0 ∙ n.1.key)

pub find-Place :
    (s : Asl) (h e k : Ptr) (ds : List Desc) (fs : List Ptr)
    → IsAsl s h e ds fs
    → k ≤ null
    → (before : List Desc) × (after : List Desc) × Place s h e k ds before after
find-Place s h e k ds fs w kn =
    let (before, after, eq, b, af, run) = search_asl-IsAsl s h e k ds fs w kn in
    let all = subst (Nodes s e (s.s_next h)) eq w.chain in
    let chain = Nodes-split s e h before after all in
    let next =
      next_lem s e (s.s_next (last h (nodes before))) after chain w.end_address w.end_key in
    (
      before,
      after,
      record {
        split = eq;
        less = b;
        rest = af;
        run = run;
        address = last_address s e h before after all w.head_address;
        chain = chain;
        next_address = next.0;
        next_key = next.1;
      },
    )

pub IsSorted-right :
    (before : List Desc) (d : Desc) (after : List Desc)
    → IsSorted (before ++ d ∷ after)
    → Above d.key after
IsSorted-right [] d after o = o
IsSorted-right (b ∷ before) d after o = go b.key before o
  where
    go : (j : Ptr) (ds : List Desc) → Above j (ds ++ d ∷ after) → Above d.key after
    go j [] a = a.1
    go j (x ∷ xs) a = go x.key xs a.1

-- What waits at `k`, read off the descriptor behind its place.
pub waiting_at-hit :
    (k : Ptr) (before : List Desc) (d : Desc) (after : List Desc)
    → Before k before
    → d.key ≡ k
    → waiting_at k (before ++ d ∷ after) ≡ d.waiting
waiting_at-hit k before d after b e = ground (arith, waiting_at-Before k before (d ∷ after) b)

pub waiting_at_miss :
    (k : Ptr) (before after : List Desc)
    → Before k before
    → After k after
    → IsSorted (before ++ after)
    → k < null
    → first_key after ≢ k
    → waiting_at k (before ++ after) ≡ []
waiting_at_miss k before [] b a o kn n = waiting_at-Before k before [] b
waiting_at_miss k before (d ∷ after) b a o kn n = ground (
  arith,
  waiting_at-Before k before (d ∷ after) b,
  waiting_at-Above k after d.key,
  IsSorted-right before d after o,
)

module _ {s : Asl} {h e : Ptr} (k : Ptr) {ds : List Desc} {fs : List Ptr} where
  head_at :
      (before after : List Desc)
      → IsAsl s h e ds fs
      → Place s h e k ds before after
      → k < null
      → head_blocked k s ≡ ok (first (waiting_at k ds)) s
  unfolding head_blocked
  head_at before [] w p kn =
      let none =
        waiting_at_miss k before [] p.less p.rest (subst IsSorted p.split w.sorted) kn
          (λ q. absurd (omega arith)) in
      rw (p.split, none) (ground (arith, p.run, p.address, p.next_address, p.next_key))
  head_at before (d ∷ after) w p kn = elim (Bool-cases (d.key == k)) [
    | inl hit ↦
        let eq = waiting_at-hit k before d after p.less (==→eq d.key k hit) in
        let run =
          subst (λ n. head_proc_q (s.s_proc_q n) s.pcbs.links ≡ ok (first d.waiting) s.pcbs.links)
            (sym p.chain.0) (head_proc_q-IsQueue d.waiting p.chain.1.queue) in
        rw (p.split, eq) (ground (arith, p.run, p.address, p.next_address, p.next_key, run))
    | inr miss ↦
        let none =
          waiting_at_miss k before (d ∷ after) p.less p.rest (subst IsSorted p.split w.sorted) kn
            (==→ne d.key k miss) in
        rw (p.split, none) (ground (arith, p.run, p.address, p.next_address, p.next_key))
  ]

  -- In a well-formed list `headBlocked` gives the first block that waits at a semaphore below
  -- `NULL`, or `NULL` if none does, and changes nothing.
  pub head_blocked-waiting_at :
      IsAsl s h e ds fs → k < null → head_blocked k s ≡ ok (first (waiting_at k ds)) s
  head_blocked-waiting_at w kn =
      let (before, after, p) = find-Place s h e k ds fs w (omega arith) in
      head_at before after w p kn
