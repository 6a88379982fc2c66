-- ===== src/Asl/Waiting.antt =====
-- Which blocks wait where, and what the list of waiting blocks survives.
use skara.Base.{
  ◌<◌, ◌≡◌, refl, ap, sym, subst, ◌∙◌, ◌≢◌, inl, inr, true, false, List, [], ◌∷◌, arith, has,
  Distinct, ◌==◌, if◌then◌else◌, Bool-cases, ==→eq, ==→ne,
}
use skara.Machine.{Ptr, null}
use skara.Pcb.Queue.{Links}
use skara.Pcb.Table.{Pcbs}
use skara.Asl.{Asl}
use skara.Asl.Shape.{Desc, All, Nodes, Above, IsSorted, IsAsl, waiting_at, IsIdle}
use skara.Asl.Frame.{Kept, Nodes-Kept, Stack-same}
use skara.Asl.Order.{All-map, All-both}

-- The block waits at no semaphore.
abbrev pub WaitsNowhere : Ptr → List Desc → Type 0
WaitsNowhere p ds = (j : Ptr) → has p (waiting_at j ds) ≡ false

-- What the descriptors say of the blocks that wait at one semaphore.
module _ (s : Asl) (e : Ptr) where
  pub waiting_at-Distinct :
      (c j : Ptr) (ds : List Desc)
      → Nodes s e c ds
      → Distinct (waiting_at j ds) × (has null (waiting_at j ds) ≡ false)
  waiting_at-Distinct c j [] n = (tt, refl)
  waiting_at-Distinct c j (d ∷ ds) n = elim (Bool-cases (j == d.key)) [
    | inl y ↦ rw (y) (n.1.queue.distinct, n.1.queue.addresses)
    | inr y ↦ rw (y) (waiting_at-Distinct (s.s_next c) j ds n.2)
  ]

  pub waiting_at-names :
      (c j x : Ptr) (ds : List Desc)
      → Nodes s e c ds
      → has x (waiting_at j ds) ≡ true
      → s.pcbs.p_sem_add x ≡ j
  waiting_at-names c j x [] n i = absurd (cc)
  waiting_at-names c j x (d ∷ ds) n i = elim (Bool-cases (j == d.key)) [
    | inl y ↦ n.1.names x (rw (y) at i) ∙ sym (==→eq j d.key y)
    | inr y ↦ waiting_at-names (s.s_next c) j x ds n.2 (rw (y) at i)
  ]

Above-All : (j : Ptr) (ds : List Desc) → Above j ds → All (λ d. j < d.key) ds
Above-All j [] a = tt
Above-All j (d ∷ ds) a = (
  a.0,
  All-map (λ x. d.key < x.key) (λ x. j < x.key) ds (λ x o. omega arith) (Above-All d.key ds a.1),
)

IsSorted-right_of : (d : Desc) (ds : List Desc) → Above d.key ds → IsSorted ds
IsSorted-right_of d [] a = tt
IsSorted-right_of d (x ∷ ds) a = a.1

-- In a sorted list the blocks at a descriptor's semaphore are the descriptor's.
waiting_at_self : (ds : List Desc) → IsSorted ds → All (λ d. waiting_at d.key ds ≡ d.waiting) ds
waiting_at_self [] o = tt
waiting_at_self (d ∷ ds) o = (
  ground (arith),
  All-both (λ x. d.key < x.key) (λ x. waiting_at x.key ds ≡ x.waiting)
      (λ x. waiting_at x.key (d ∷ ds) ≡ x.waiting) ds (λ x less eq. ground arith)
      (Above-All d.key ds o) (waiting_at_self ds (IsSorted-right_of d ds o)),
)

pub IsIdle-WaitsNowhere : (p : Ptr) (ds : List Desc) → IsSorted ds → WaitsNowhere p ds → IsIdle p ds
IsIdle-WaitsNowhere p ds o w =
    All-map (λ d. waiting_at d.key ds ≡ d.waiting) (λ d. has p d.waiting ≡ false) ds
      (λ d eq. subst (λ xs. has p xs ≡ false) eq (w d.key)) (waiting_at_self ds o)

-- The semaphore list survives a change of the blocks that spares what it reads of the waiting ones.
pub IsAsl-pcbs :
    {s : Asl} {h e : Ptr} {ds : List Desc} {fs : List Ptr} (t : Pcbs)
    → IsAsl s h e ds fs
    → ((x j : Ptr)
        → has x (waiting_at j ds) ≡ true
        → (t.links.p_next x ≡ s.pcbs.links.p_next x) × (t.links.p_prev x ≡ s.pcbs.links.p_prev x))
    → ((x j : Ptr) → has x (waiting_at j ds) ≡ true → t.p_sem_add x ≡ s.pcbs.p_sem_add x)
    → IsAsl (record s { pcbs = t }) h e ds fs
IsAsl-pcbs {s} {h} {e} {ds} {fs} t w same named =
    let s' : Asl = record s { pcbs = t } in
    record {
      head = w.head;
      head_address = w.head_address;
      end_address = w.end_address;
      end_key = w.end_key;
      chain =
          Nodes-Kept s s' e (s.s_next h) ds w.chain
            (All-map (λ d. waiting_at d.key ds ≡ d.waiting) (Kept s s') ds
              (λ d eq. record {
                sem_add = refl;
                proc_q = refl;
                links = λ x i. same x d.key (ap (has x) eq ∙ i);
                names = λ x i. named x d.key (ap (has x) eq ∙ i);
              })
              (waiting_at_self ds w.sorted))
            λ a i. refl;
      sorted = w.sorted;
      free = Stack-same s s' e s.semd_free_h fs w.free λ a i. refl;
      count = w.count;
      distinct = w.distinct;
    }

-- The store with other links.
abbrev pub relinked : Asl → Links → Asl
relinked s l = record s { pcbs = record (s.pcbs) { links = l } }

pub IsAsl-relinked :
    {s : Asl} {h e : Ptr} {ds : List Desc} {fs : List Ptr} (l : Links)
    → IsAsl s h e ds fs
    → ((x j : Ptr)
        → has x (waiting_at j ds) ≡ true
        → (l.p_next x ≡ s.pcbs.links.p_next x) × (l.p_prev x ≡ s.pcbs.links.p_prev x))
    → IsAsl (relinked s l) h e ds fs
IsAsl-relinked {s} l w same = IsAsl-pcbs (record (s.pcbs) { links = l }) w same λ x j i. refl

-- A list of waiting blocks that is as it was, in the form that a change at `k` has.
pub keep_waits :
    (k : Ptr) (ds : List Desc) (xs : List Ptr)
    → waiting_at k ds ≡ xs
    → (j : Ptr) → waiting_at j ds ≡ (if j == k then xs else waiting_at j ds)
keep_waits k ds xs eq j = elim (Bool-cases (j == k)) [
  | inl y ↦ rw (y) (ap (λ i. waiting_at i ds) (==→eq j k y) ∙ eq)
  | inr y ↦ rw (y) refl
]

pub has-if :
    (x j k : Ptr) (xs ys : List Ptr)
    → has x xs ≡ false
    → (j ≢ k → has x ys ≡ false)
    → has x (if j == k then xs else ys) ≡ false
has-if x j k xs ys f g = elim (Bool-cases (j == k)) [
  | inl y ↦ rw (y) f
  | inr y ↦ rw (y) (g (==→ne j k y))
]

-- A block waits at one semaphore at most.
pub waits-once :
    (s : Asl) (e c j k x : Ptr) (ds : List Desc)
    → Nodes s e c ds
    → has x (waiting_at k ds) ≡ true
    → j ≢ k
    → has x (waiting_at j ds) ≡ false
waits-once s e c j k x ds n i ne = elim (Bool-cases (has x (waiting_at j ds))) [
  | inl y ↦
      absurd (ne (sym (waiting_at-names s e c j x ds n y) ∙ waiting_at-names s e c k x ds n i))
  | inr y ↦ y
]
