-- ===== src/Kernel/Process/Family.antt =====
-- The descendants of a process as the tree of kaya/phase1/pcb.c holds them.
use skara.Base.{
  has_less, has_other, has_rest, off_cons, has_left, has_right, has_later, has-mid, ℕ, suc, ◌+◌,
  ◌≡◌, refl, sym, ◌∙◌, true, false, List, [], ◌∷◌, ◌++◌, arith, has, inl, inr, Bool-cases, Distinct,
  has-append, Distinct-split, Distinct-apart, Distinct-right, subst, length, length-append,
}
use skara.Machine.{Ptr, null}
use skara.Pcb.Tree.{Tree}
use skara.Pcb.Tree.Shape.{Siblings, IsChildren, Siblings-frame}

-- Some siblings and their descendants: the first one, its children, and the other siblings.
pub data Family : Type 0 where
  none : Family
  more : Ptr → Family → Family → Family

-- The siblings themselves; all members, children before parents; and those that are not the siblings.
abbrev pub roots : Family → List Ptr
roots none = []
roots (more p kids others) = p ∷ roots others

abbrev pub members : Family → List Ptr
members none = []
members (more p kids others) = members kids ++ p ∷ members others

abbrev pub inner : Family → List Ptr
inner none = []
inner (more p kids others) = members kids ++ inner others

abbrev pub size : Family → ℕ
size none = 0
size (more p kids others) = suc (size kids + size others)

-- Below the siblings, the tree holds each member's children.
abbrev pub IsFamily : Tree → Family → Type 0
IsFamily t none = Unit {0}
IsFamily t (more p kids others) = IsChildren t p (roots kids) × IsFamily t kids × IsFamily t others

pub roots-members : (x : Ptr) (f : Family) → has x (roots f) ≡ true → has x (members f) ≡ true
roots-members x none i = i
roots-members x (more p kids others) i =
    ground (arith, has-append x (members kids) (p ∷ members others), roots-members x others)

pub inner-members : (x : Ptr) (f : Family) → has x (inner f) ≡ true → has x (members f) ≡ true
inner-members x none i = i
inner-members x (more p kids others) i = ground (
  arith,
  has-append x (members kids) (p ∷ members others),
  has-append x (members kids) (inner others),
  inner-members x others,
)

pub size-members : (f : Family) → length (members f) ≡ size f
size-members none = refl
size-members (more p kids others) =
    length-append (members kids) (p ∷ members others)
    ∙ omega (arith, size-members kids, size-members others)

-- The fields of one block that hold its siblings and its parent, and all four.
pub record SameSiblings (t u : Tree) (a : Ptr) : Type 0 where
  pub prnt : u.p_prnt a ≡ t.p_prnt a
  pub sib_prev : u.p_sib_prev a ≡ t.p_sib_prev a
  pub sib_next : u.p_sib_next a ≡ t.p_sib_next a

pub IsChildren-same :
    (t u : Tree) (q : Ptr) (ys : List Ptr)
    → IsChildren t q ys
    → u.p_child q ≡ t.p_child q
    → ((x : Ptr) → has x ys ≡ true → SameSiblings t u x)
    → IsChildren u q ys
IsChildren-same t u q ys c e same = record {
  siblings =
      subst (λ (d : Ptr). Siblings u q null d ys) (sym e)
        (Siblings-frame t u q null (t.p_child q) ys c.siblings (λ x i. (same x i).prnt)
          (λ x i. (same x i).sib_prev) (λ x i. (same x i).sib_next));
  distinct = c.distinct;
}

pub IsFamily-same :
    (t u : Tree) (f : Family)
    → IsFamily t f
    → ((x : Ptr) → has x (members f) ≡ true → u.p_child x ≡ t.p_child x)
    → ((x : Ptr) → has x (inner f) ≡ true → SameSiblings t u x)
    → IsFamily u f
IsFamily-same t u none w c s = tt
IsFamily-same t u (more p kids others) (a, b, d) c s = (
  IsChildren-same t u p (roots kids) a (c p (has-mid p (members kids) (members others)))
      (λ x i. s x (has_left x (members kids) (inner others) (roots-members x kids i))),
  IsFamily-same t u kids b (λ x i. c x (has_left x (members kids) (p ∷ members others) i))
      (λ x i. s x (has_left x (members kids) (inner others) (inner-members x kids i))),
  IsFamily-same t u others d
      (λ x i.
        c x (has_right x (members kids) (p ∷ members others) (has_later x p (members others) i)))
      (λ x i. s x (has_right x (members kids) (inner others) i)),
)

-- Members that are not the siblings are not among them.
pub inner-roots :
    (x : Ptr) (f : Family) → Distinct (members f) → has x (inner f) ≡ true → has x (roots f) ≡ false
inner-roots x none d i = refl
inner-roots x (more p kids others) d i =
    let (o, l, r) = Distinct-split p (members kids) (members others) d in
    elim (Bool-cases (has x (members kids))) [
      | inl y ↦ off_cons x p (roots others) (has_other x p (members kids) y o) (
          has_less x (roots others) (members others) (roots-members x others)
            (Distinct-apart x (members kids) (members others) r y))
      | inr y ↦
          (let j = has_rest x (members kids) (inner others) y i in
            off_cons x p (roots others)
              (has_other x p (members others) (inner-members x others j) l)
              (inner-roots x others (Distinct-right (members kids) (members others) r) j))
    ]
