-- ===== src/Pcb/Tree/Shape.antt =====
-- What it is for the tree to hold the children of a block.
use skara.Base.{◌≡◌, ◌≢◌, true, false, List, [], ◌∷◌, ◌++◌, arith, has, Distinct, last, subst, sym}
use skara.Machine.{Ptr, null}
use skara.Pcb.Tree.{Tree}

-- From `c`, whose predecessor is `before`, the siblings are the entries of the list, and each has
-- the parent `q`.
abbrev pub Siblings : Tree → Ptr → Ptr → Ptr → List Ptr → Type 0
Siblings t q before c [] = c ≡ null
Siblings t q before c (x ∷ xs) =
    (c ≡ x)
    × (x ≢ null)
    × (t.p_prnt x ≡ q)
    × (t.p_sib_prev x ≡ before)
    × Siblings t q x (t.p_sib_next x) xs

-- The children of `q`, the latest first.
pub record IsChildren (t : Tree) (q : Ptr) (xs : List Ptr) : Type 0 where
  pub siblings : Siblings t q null (t.p_child q) xs
  pub distinct : Distinct xs

-- `u` has the tree fields of `t` but for the siblings in `xs` and the first child of `q`.
pub record SameTree (q : Ptr) (xs : List Ptr) (t u : Tree) : Type 0 where
  pub child : (a : Ptr) → a ≢ q → u.p_child a ≡ t.p_child a
  pub prnt : (a : Ptr) → has a xs ≡ false → u.p_prnt a ≡ t.p_prnt a
  pub sib_prev : (a : Ptr) → has a xs ≡ false → u.p_sib_prev a ≡ t.p_sib_prev a
  pub sib_next : (a : Ptr) → has a xs ≡ false → u.p_sib_next a ≡ t.p_sib_next a

module _ (t u : Tree) where
  pub Siblings-frame :
      (q before c : Ptr) (xs : List Ptr)
      → Siblings t q before c xs
      → ((x : Ptr) → has x xs ≡ true → u.p_prnt x ≡ t.p_prnt x)
      → ((x : Ptr) → has x xs ≡ true → u.p_sib_prev x ≡ t.p_sib_prev x)
      → ((x : Ptr) → has x xs ≡ true → u.p_sib_next x ≡ t.p_sib_next x)
      → Siblings u q before c xs
  Siblings-frame q before c [] s f g h = s
  Siblings-frame q before c (x ∷ xs) s f g h = (
    s.0,
    s.1,
    ground (arith, f x),
    ground (arith, g x),
    ground (
      arith,
      h x,
      Siblings-frame q x (t.p_sib_next x) xs s.4 (λ y i. f y (ground arith))
          (λ y i. g y (ground arith)) λ y i. h y (ground arith),
    ),
  )

  -- The children of another block are left alone by a change of these.
  pub IsChildren-frame :
      {q r : Ptr} {xs : List Ptr} (ys : List Ptr)
      → IsChildren t r ys
      → SameTree q xs t u
      → r ≢ q
      → ((x : Ptr) → has x ys ≡ true → has x xs ≡ false)
      → IsChildren u r ys
  IsChildren-frame {r} ys c s ne apart = record {
    siblings =
        subst (λ (d : Ptr). Siblings u r null d ys) (sym (s.child r ne))
          (Siblings-frame r null (t.p_child r) ys c.siblings (λ x i. s.prnt x (apart x i))
            (λ x i. s.sib_prev x (apart x i)) λ x i. s.sib_next x (apart x i));
    distinct = c.distinct;
  }

module _ (t : Tree) (q : Ptr) where
  pub Siblings-prnt :
      (before c p : Ptr) (xs : List Ptr)
      → Siblings t q before c xs
      → has p xs ≡ true
      → (t.p_prnt p ≡ q) × (p ≢ null)
  Siblings-prnt before c p [] s i = absurd (cc)
  Siblings-prnt before c p (x ∷ xs) s i = ground (arith, Siblings-prnt x (t.p_sib_next x) p xs s.4)

  -- The neighbours of an entry.
  pub Siblings-around :
      (before c p : Ptr) (front back : List Ptr)
      → Siblings t q before c (front ++ p ∷ back)
      → (t.p_sib_prev p ≡ last before front) × Siblings t q p (t.p_sib_next p) back
  Siblings-around before c p [] back s = (s.3, s.4)
  Siblings-around before c p (x ∷ front) back s =
      Siblings-around x (t.p_sib_next x) p front back s.4
