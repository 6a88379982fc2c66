-- ===== src/Asl/Order.antt =====
-- The order of the list, and how often its nodes stand in it, when a descriptor comes or goes.
use skara.Base.{
  ◌<◌, ◌≤◌, ◌≡◌, refl, ap, sym, subst, ◌≢◌, false, List, [], ◌∷◌, ◌++◌, arith, has, Distinct, ◌||◌,
  Distinct-split, has-append, Distinct-insert,
}
use mathlib.Core.List.{append_assoc}
use skara.Machine.{Ptr}
use skara.Asl.Shape.{Desc, All, nodes, Above, IsSorted, waiting_at}
use skara.Asl.Search.{Before}

-- The order of the list when a descriptor leaves it, or comes in at its place.
Above-weaken : (i j : Ptr) (ds : List Desc) → i < j → Above j ds → Above i ds
Above-weaken i j [] h a = tt
Above-weaken i j (d ∷ ds) h a = (omega arith, a.1)

Above-drop :
    (j : Ptr) (before : List Desc) (d : Desc) (after : List Desc)
    → Above j (before ++ d ∷ after)
    → Above j (before ++ after)
Above-drop j [] d after a = Above-weaken j d.key after a.0 a.1
Above-drop j (b ∷ before) d after a = (a.0, Above-drop b.key before d after a.1)

pub IsSorted-drop :
    (before : List Desc) (d : Desc) (after : List Desc)
    → IsSorted (before ++ d ∷ after)
    → IsSorted (before ++ after)
IsSorted-drop [] d [] o = tt
IsSorted-drop [] d (x ∷ after) o = o.1
IsSorted-drop (b ∷ before) d after o = Above-drop b.key before d after o

Above-insert :
    (j : Ptr) (before : List Desc) (d : Desc) (after : List Desc)
    → Above j (before ++ after)
    → Before d.key before
    → j < d.key
    → Above d.key after
    → Above j (before ++ d ∷ after)
Above-insert j [] d after a b h r = (h, r)
Above-insert j (x ∷ before) d after a b h r = (a.0, Above-insert x.key before d after a.1 b.1 b.0 r)

pub IsSorted-insert :
    (before : List Desc) (d : Desc) (after : List Desc)
    → IsSorted (before ++ after)
    → Before d.key before
    → Above d.key after
    → IsSorted (before ++ d ∷ after)
IsSorted-insert [] d after o b r = r
IsSorted-insert (x ∷ before) d after o b r = Above-insert x.key before d after o b.1 b.0 r

pub nodes-append : (xs ys : List Desc) → nodes (xs ++ ys) ≡ nodes xs ++ nodes ys
nodes-append [] ys = refl
nodes-append (x ∷ xs) ys = ap (λ l. x.node ∷ l) (nodes-append xs ys)

-- Keys above `j` are not `j`; keys before a place are not either.
pub Above-ne : (j : Ptr) (ds : List Desc) (i : Ptr) → j ≤ i → Above i ds → All (λ d. d.key ≢ j) ds
Above-ne j [] i h a = tt
Above-ne j (d ∷ ds) i h a = (omega arith, Above-ne j ds d.key (omega arith) a.1)

pub Before-ne : (k : Ptr) (ds : List Desc) → Before k ds → All (λ d. d.key ≢ k) ds
Before-ne k [] b = tt
Before-ne k (d ∷ ds) b = (omega arith, Before-ne k ds b.1)

pub All-map :
    (P Q : Desc → Type 0) (ds : List Desc) → ((d : Desc) → P d → Q d) → All P ds → All Q ds
All-map P Q [] f a = tt
All-map P Q (d ∷ ds) f a = (f d a.0, All-map P Q ds f a.1)

pub All-both :
    (P Q R : Desc → Type 0) (ds : List Desc)
    → ((d : Desc) → P d → Q d → R d)
    → All P ds
    → All Q ds
    → All R ds
All-both P Q R [] f a b = tt
All-both P Q R (d ∷ ds) f a b = (f d a.0 b.0, All-both P Q R ds f a.1 b.1)

pub All-append_split :
    (P : Desc → Type 0) (xs ys : List Desc) → All P (xs ++ ys) → All P xs × All P ys
All-append_split P [] ys a = (tt, a)
All-append_split P (x ∷ xs) ys a = let (l, r) = All-append_split P xs ys a.1 in ((a.0, l), r)

pub waiting_at_skip :
    (j : Ptr) (before : List Desc) (d : Desc) (after : List Desc)
    → d.key ≢ j
    → waiting_at j (before ++ d ∷ after) ≡ waiting_at j (before ++ after)
waiting_at_skip j [] d after n = ground arith
waiting_at_skip j (b ∷ before) d after n = ground (arith, waiting_at_skip j before d after n)

-- The node of a descriptor stands once among the nodes.
pub parts_of :
    (h : Ptr) (before : List Desc) (d : Desc) (after : List Desc) (tail : List Ptr)
    → Distinct ((h ∷ nodes (before ++ d ∷ after)) ++ tail)
    → Distinct ((h ∷ nodes before) ++ d.node ∷ (nodes after ++ tail))
parts_of h before d after tail u =
    subst Distinct (ap (λ ns. h ∷ ns) (append_assoc (nodes before) (d.node ∷ nodes after) tail))
      (subst (λ ns. Distinct ((h ∷ ns) ++ tail)) (nodes-append before (d ∷ after)) u)

pub node_back :
    (h : Ptr) (before : List Desc) (d : Desc) (after : List Desc) (tail : List Ptr)
    → Distinct ((h ∷ nodes before) ++ d.node ∷ (nodes after ++ tail))
    → Distinct ((h ∷ nodes (before ++ d ∷ after)) ++ tail)
node_back h before d after tail u =
    subst (λ ns. Distinct ((h ∷ ns) ++ tail)) (sym (nodes-append before (d ∷ after)))
      (subst Distinct
        (ap (λ ns. h ∷ ns) (sym (append_assoc (nodes before) (d.node ∷ nodes after) tail))) u)

-- The first free node stands nowhere among the nodes, and can be put among them.
pub record IsFresh (n h e : Ptr) (before after : List Desc) (fs : List Ptr) : Type 0 where
  pub left : has n (h ∷ nodes before) ≡ false
  pub right : has n (nodes after) ≡ false
  pub end : n ≢ e
  pub free : has n fs ≡ false
  pub rest : Distinct ((h ∷ nodes before) ++ (nodes after ++ e ∷ fs))

pub IsFresh-node :
    (n h e : Ptr) (before after : List Desc) (fs : List Ptr)
    → Distinct ((h ∷ nodes (before ++ after)) ++ e ∷ n ∷ fs)
    → IsFresh n h e before after fs
IsFresh-node n h e before after fs u =
    let xs = h ∷ nodes (before ++ after) in
    let (l, r, d) =
      Distinct-split n (xs ++ e ∷ []) fs
        (subst Distinct (sym (append_assoc xs (e ∷ []) (n ∷ fs))) u) in
    let d' : Distinct (xs ++ e ∷ fs) = subst Distinct (append_assoc xs (e ∷ []) fs) d in
    let eq = nodes-append before after in
    let l' : has n ((h ∷ (nodes before ++ nodes after)) ++ e ∷ []) ≡ false =
      subst (λ ns. has n ((h ∷ ns) ++ e ∷ []) ≡ false) eq l in
    record {
      left = ground (
        arith,
        has-append n (nodes before ++ nodes after) (e ∷ []),
        has-append n (nodes before) (nodes after),
      );
      right = ground (
        arith,
        has-append n (nodes before ++ nodes after) (e ∷ []),
        has-append n (nodes before) (nodes after),
      );
      end = ground (arith, has-append n (nodes before ++ nodes after) (e ∷ []));
      free = r;
      rest =
          subst Distinct (ap (λ ns. h ∷ ns) (append_assoc (nodes before) (nodes after) (e ∷ fs)))
            (subst (λ ns. Distinct ((h ∷ ns) ++ e ∷ fs)) eq d');
    }

-- A node that leaves the list goes to the free ones.
pub node_freed :
    (n h e : Ptr) (before after : List Desc) (fs : List Ptr)
    → has n (h ∷ nodes before) ≡ false
    → has n (nodes after ++ e ∷ fs) ≡ false
    → Distinct ((h ∷ nodes before) ++ (nodes after ++ e ∷ fs))
    → Distinct ((h ∷ nodes (before ++ after)) ++ e ∷ n ∷ fs)
node_freed n h e before after fs l r u =
    let xs = h ∷ (nodes before ++ nodes after) in
    let u' : Distinct ((xs ++ e ∷ []) ++ fs) = subst Distinct (sym (append_assoc xs (e ∷ []) fs)) (
      subst Distinct (ap (λ ns. h ∷ ns) (sym (append_assoc (nodes before) (nodes after) (e ∷ fs))))
        u) in
    let e' : has n (nodes after ++ e ∷ fs) ≡ (has n (nodes after) || has n (e ∷ fs)) =
      has-append n (nodes after) (e ∷ fs) in
    let v =
      Distinct-insert n (xs ++ e ∷ []) fs u'
        (ground (
          arith,
          has-append n (nodes before ++ nodes after) (e ∷ []),
          has-append n (nodes before) (nodes after),
        ))
        (ground arith) in
    subst (λ ns. Distinct ((h ∷ ns) ++ e ∷ n ∷ fs)) (sym (nodes-append before after))
      (subst Distinct (append_assoc xs (e ∷ []) (n ∷ fs)) v)
