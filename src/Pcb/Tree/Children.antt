-- ===== src/Pcb/Tree/Children.antt =====
-- `emptyChild`, `insertChild` and `removeChild` of kaya/phase1/pcb.c.
use skara.Base.{◌≡◌, refl, ◌≢◌, false, List, [], ◌∷◌, arith, has, update}
use skara.Machine.{Ptr, null, ok}
use skara.Pcb.Tree.{Tree, insert_child, remove_child}
use skara.Pcb.Tree.Shape.{IsChildren, SameTree, Siblings-frame}

-- The tree after `insertChild` beside the child `c`.
abbrev pushed : Tree → Ptr → Ptr → Ptr → Tree
pushed t q p c = record {
  p_prnt = update t.p_prnt p q;
  p_child = update t.p_child q p;
  p_sib_prev = update t.p_sib_prev c p;
  p_sib_next = update t.p_sib_next p c;
}

-- A block that is not `NULL`, not a child of the parent yet, and has no siblings becomes the first
-- child. The other children keep their order, and no other block's tree fields change.
pub insert_child-IsChildren :
    {t : Tree} {q : Ptr} (p : Ptr) (xs : List Ptr)
    → IsChildren t q xs
    → q ≢ null
    → p ≢ null
    → has p xs ≡ false
    → t.p_sib_prev p ≡ null
    → t.p_sib_next p ≡ null
    → (u : Tree) × (insert_child q p t ≡ ok tt u)
      × IsChildren u q (p ∷ xs)
      × SameTree q (p ∷ xs) t u
unfolding insert_child
insert_child-IsChildren {t} {q} p [] c nq np out before after = (
  record t { p_prnt = update t.p_prnt p q; p_child = update t.p_child q p },
  ground arith,
  record { siblings = ground arith; distinct = (refl, tt) },
  record {
    child = λ a o. ground arith;
    prnt = λ a o. ground arith;
    sib_prev = λ a o. refl;
    sib_next = λ a o. refl;
  },
)
insert_child-IsChildren {t} {q} p (x ∷ xs) c nq np out before after = (
  pushed t q p x,
  ground arith,
  record {
    siblings = (
      ground arith,
      np,
      ground arith,
      ground arith,
      (
        ground arith,
        c.siblings.1,
        ground arith,
        ground arith,
        ground (
          arith,
          Siblings-frame t (pushed t q p x) q x (t.p_sib_next x) xs c.siblings.4
              (λ y i. ground arith) (λ y i. ground arith) λ y i. ground arith,
        ),
      ),
    );
    distinct = (out, c.distinct);
  },
  record {
    child = λ a o. ground arith;
    prnt = λ a o. ground arith;
    sib_prev = λ a o. ground arith;
    sib_next = λ a o. ground arith;
  },
)

-- `removeChild` of a block with no child returns `NULL` and changes nothing.
pub remove_child-nil :
    {t : Tree} {q : Ptr} → IsChildren t q [] → q ≢ null → remove_child q t ≡ ok null t
unfolding remove_child
remove_child-nil c nq = ground arith

-- `removeChild` of a parent with children returns the first child, which is no longer one. No tree
-- fields change but those of the other children and the parent's first child; the block that is
-- removed keeps its parent and sibling pointers.
pub remove_child-IsChildren :
    {t : Tree} {q : Ptr} (x : Ptr) (xs : List Ptr)
    → IsChildren t q (x ∷ xs)
    → q ≢ null
    → (u : Tree) × (remove_child q t ≡ ok x u) × IsChildren u q xs × SameTree q xs t u
unfolding remove_child
remove_child-IsChildren {t} {q} x [] c nq = (
  record t { p_child = update t.p_child q null },
  ground arith,
  record { siblings = ground arith; distinct = tt },
  record {
    child = λ a o. ground arith;
    prnt = λ a o. refl;
    sib_prev = λ a o. refl;
    sib_next = λ a o. refl;
  },
)
remove_child-IsChildren {t} {q} x (y ∷ ys) c nq = (
  record t { p_child = update t.p_child q y; p_sib_prev = update t.p_sib_prev y null },
  ground arith,
  record {
    siblings = (
      ground arith,
      c.siblings.4.1,
      c.siblings.4.2,
      ground arith,
      Siblings-frame t
          (record t { p_child = update t.p_child q y; p_sib_prev = update t.p_sib_prev y null }) q y
          (t.p_sib_next y) ys c.siblings.4.4 (λ z i. refl) (λ z i. ground arith) λ z i. refl,
    );
    distinct = c.distinct.1;
  },
  record {
    child = λ a o. ground arith;
    prnt = λ a o. refl;
    sib_prev = λ a o. ground arith;
    sib_next = λ a o. refl;
  },
)
