-- ===== src/Pcb/Queue/Shape.antt =====
-- What it is for the links to hold a queue: a circular, doubly linked list with a tail pointer.
use skara.Base.{
  ◌≡◌, refl, ◌≢◌, true, false, List, [], ◌∷◌, ◌++◌, arith, has, last, Distinct, ne-last, has-last,
}
use skara.Machine.{Ptr, null}
use skara.Pcb.Queue.{Links}

-- From `a` the successors are the entries of the list, and each entry's predecessor is the one
-- before it.
abbrev pub Chain : Links → Ptr → List Ptr → Type 0
Chain l a [] = Unit {0}
Chain l a (x ∷ xs) = (l.p_next a ≡ x) × (l.p_prev x ≡ a) × Chain l x xs

-- The first block of a queue, or `NULL`.
abbrev pub first : List Ptr → Ptr
first [] = null
first (x ∷ xs) = x

-- The queue with tail `tp` holds the blocks `xs`, the head first.
pub record IsQueue (l : Links) (tp : Ptr) (xs : List Ptr) : Type 0 where
  pub tail : tp ≡ last null xs
  pub chain : Chain l tp xs
  pub distinct : Distinct xs
  pub addresses : has null xs ≡ false

-- `m` has the links of `l` but at the blocks of `xs`.
abbrev pub SameOutside : List Ptr → Links → Links → Type 0
SameOutside xs l m =
    (a : Ptr) → has a xs ≡ false → (m.p_next a ≡ l.p_next a) × (m.p_prev a ≡ l.p_prev a)

module _ {l m : Links} where
  pub Chain-frame :
      (a : Ptr) (xs : List Ptr)
      → Chain l a xs
      → Distinct (a ∷ xs)
      → ((x : Ptr) → has x xs ≡ true → m.p_prev x ≡ l.p_prev x)
      → ((x : Ptr) → has x (a ∷ xs) ≡ true → x ≢ last a xs → m.p_next x ≡ l.p_next x)
      → Chain m a xs
  Chain-frame a [] c d back forth = tt
  Chain-frame a (x ∷ xs) c d back forth = (
    ground (arith, forth a, ne-last a x xs),
    ground (arith, back x),
    Chain-frame x xs c.2 d.1 (λ y i. back y (ground arith)) λ y i ne. forth y (ground arith) ne,
  )

  Chain-same :
      (a : Ptr) (xs : List Ptr)
      → Chain l a xs
      → ((x : Ptr) → has x (a ∷ xs) ≡ true → (m.p_next x ≡ l.p_next x) × (m.p_prev x ≡ l.p_prev x))
      → Chain m a xs
  Chain-same a [] c same = tt
  Chain-same a (x ∷ xs) c same = (
    ground (arith, same a),
    ground (arith, same x),
    Chain-same x xs c.2 λ y i. same y (ground arith),
  )

  -- A queue survives every change that spares its own blocks.
  pub IsQueue-frame :
      {tp : Ptr} (xs : List Ptr)
      → IsQueue l tp xs
      → ((x : Ptr) → has x xs ≡ true → (m.p_next x ≡ l.p_next x) × (m.p_prev x ≡ l.p_prev x))
      → IsQueue m tp xs
  IsQueue-frame [] q same = record { tail = q.tail; chain = tt; distinct = tt; addresses = refl }
  IsQueue-frame {tp} (y ∷ ys) q same = record {
    tail = q.tail;
    chain = Chain-same tp (y ∷ ys) q.chain λ x i. same x (ground (arith, has-last y ys, q.tail));
    distinct = q.distinct;
    addresses = q.addresses;
  }

module _ (l : Links) where
  pub Chain-append :
      (a x : Ptr) (xs ys : List Ptr)
      → Chain l a xs
      → l.p_next (last a xs) ≡ x
      → l.p_prev x ≡ last a xs
      → Chain l x ys
      → Chain l a (xs ++ x ∷ ys)
  Chain-append a x [] ys c n p d = (n, p, d)
  Chain-append a x (y ∷ xs) ys c n p d = (c.0, c.1, Chain-append y x xs ys c.2 n p d)

  pub Chain-split :
      (a x : Ptr) (xs ys : List Ptr)
      → Chain l a (xs ++ x ∷ ys)
      → Chain l a xs × (l.p_next (last a xs) ≡ x) × (l.p_prev x ≡ last a xs) × Chain l x ys
  Chain-split a x [] ys c = (tt, c.0, c.1, c.2)
  Chain-split a x (y ∷ xs) ys c =
      let (d, n, p, e) = Chain-split y x xs ys c.2 in ((c.0, c.1, d), n, p, e)
