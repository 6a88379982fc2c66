-- ===== src/Kernel/Process/Doomed.antt =====
-- The processes that `HoneyIKilledTheKids` of kaya/phase2/exceptions.c has still to kill.
use skara.Base.{
  ◌≡◌, sym, ◌≢◌, true, false, List, [], ◌∷◌, ◌++◌, arith, has, has-append, has-mid, has_left,
  has_right, has_later, has_less, has_other, Distinct, Distinct-split, Distinct-apart,
  Distinct-left, Distinct-right, ==→ne, subst,
}
use skara.Machine.{Ptr, null}
use skara.Pcb.Tree.{Tree}
use skara.Pcb.Tree.Shape.{IsChildren, SameTree}
use skara.Asl.Shape.{Desc}
use skara.Kernel.{Kernel}
use skara.Kernel.Process.Family.{
  Family, more, roots, members, IsFamily, roots-members, inner-members, inner-roots, SameSiblings,
  IsChildren-same, IsFamily-same,
}
use skara.Kernel.Process.Deaths.{AreGone, Lives, erase_all, Lives-AreGone}
use skara.Kernel.Process.Kill.{excludes}

-- `u` has the tree fields of `t` but for the blocks in `ps` and the first child of `q`.
pub record Spares (q : Ptr) (ps : List Ptr) (t u : Tree) : Type 0 where
  pub child : (a : Ptr) → a ≢ q → has a ps ≡ false → u.p_child a ≡ t.p_child a
  pub siblings : (a : Ptr) → has a ps ≡ false → SameSiblings t u a

-- The descendants of `q` are the family; each is ready or waits at the semaphore that it names, and
-- none is the current process.
pub record IsDoomed (s : Kernel) (q : Ptr) (f : Family) (ds : List Desc) (rs : List Ptr)
    : Type 0 where
  pub children : IsChildren s.asl.pcbs.tree q (roots f)
  pub family : IsFamily s.asl.pcbs.tree f
  pub distinct : Distinct (members f)
  pub outside : has q (members f) ≡ false
  pub real : has null (members f) ≡ false
  pub others : has s.current_process (members f) ≡ false
  pub live : (x : Ptr) → has x (members f) ≡ true → Lives s ds rs x

-- The nucleus with another tree.
abbrev pub retreed : Kernel → Tree → Kernel
retreed s t = record s { asl = record (s.asl) { pcbs = record (s.asl.pcbs) { tree = t } } }

off_snoc : (x p : Ptr) (xs : List Ptr) → has x xs ≡ false → x ≢ p → has x (xs ++ p ∷ []) ≡ false
off_snoc x p xs o n = ground (arith, has-append x xs (p ∷ []))

module _ (p : Ptr) (kids others : Family) where
  abbrev all : List Ptr
  all = members kids ++ p ∷ members others

  pub kid_of : (x : Ptr) → has x (members kids) ≡ true → has x all ≡ true
  kid_of x i = has_left x (members kids) (p ∷ members others) i

  pub other_of : (x : Ptr) → has x (members others) ≡ true → has x all ≡ true
  other_of x i = has_right x (members kids) (p ∷ members others) (has_later x p (members others) i)

  pub off_kids : (x : Ptr) → has x all ≡ false → has x (members kids) ≡ false
  off_kids x o = has_less x (members kids) all (kid_of x) o

  pub off_others : (x : Ptr) → has x all ≡ false → has x (members others) ≡ false
  off_others x o = has_less x (members others) all (other_of x) o

  pub off_first : (x : Ptr) → has x all ≡ false → x ≢ p
  off_first x o e = absurd (ground (arith, has-mid p (members kids) (members others)))

  -- The first child's family once it is off its siblings.
  pub kids-IsDoomed :
      (s : Kernel) (q : Ptr) (t : Tree) {ds : List Desc} {rs : List Ptr}
      → IsDoomed s q (more p kids others) ds rs
      → SameTree q (roots others) s.asl.pcbs.tree t
      → IsDoomed (retreed s t) p kids ds rs
  kids-IsDoomed s q t {ds} {rs} d same =
      let (o, l, r) = Distinct-split p (members kids) (members others) d.distinct in
      let (c, k, _) = d.family in
      let not_q : (x : Ptr) → has x all ≡ true → x ≢ q =
        λ x i. ==→ne x q (has_other x q all i d.outside) in
      let apart : (x : Ptr) → has x (members kids) ≡ true → has x (roots others) ≡ false = λ x i.
        has_less x (roots others) (members others) (roots-members x others)
          (Distinct-apart x (members kids) (members others) r i) in
      let sib : (x : Ptr) → has x (members kids) ≡ true → SameSiblings s.asl.pcbs.tree t x = λ x i.
        record {
          prnt = same.prnt x (apart x i);
          sib_prev = same.sib_prev x (apart x i);
          sib_next = same.sib_next x (apart x i);
        } in
      record {
        children =
            IsChildren-same s.asl.pcbs.tree t p (roots kids) c
              (same.child p (not_q p (has-mid p (members kids) (members others))))
              (λ x i. sib x (roots-members x kids i));
        family =
            IsFamily-same s.asl.pcbs.tree t kids k (λ x i. same.child x (not_q x (kid_of x i)))
              (λ x i. sib x (inner-members x kids i));
        distinct = Distinct-left (members kids) (members others) r;
        outside = o;
        real = off_kids null d.real;
        others = off_kids s.current_process d.others;
        live = λ x i. d.live x (kid_of x i);
      }

  -- The other siblings once the first child and its family are dead.
  pub others-IsDoomed :
      (s u : Kernel) (q : Ptr) (t : Tree) {h e : Ptr} {ds : List Desc} {rs frees : List Ptr}
      {ds' : List Desc} {fs' : List Ptr}
      → IsDoomed s q (more p kids others) ds rs
      → SameTree q (roots others) s.asl.pcbs.tree t
      → IsChildren t q (roots others)
      → Spares p (members kids) t u.asl.pcbs.tree
      → AreGone s u h e (members kids ++ p ∷ []) ds rs frees ds' fs'
      → IsDoomed u q others ds' (erase_all (members kids ++ p ∷ []) rs)
  others-IsDoomed s u q t {ds} {rs} {ds'} d same left spares gone =
      let (o, l, r) = Distinct-split p (members kids) (members others) d.distinct in
      let (_, _, w) = d.family in
      let v = u.asl.pcbs.tree in
      let alive = Distinct-right (members kids) (members others) r in
      let spared : (x : Ptr)
          → has x (members others) ≡ true
          → (x ≢ p) × (has x (members kids) ≡ false) =
        λ x i. (
          ==→ne x p (has_other x p (members others) i l),
          excludes x (members kids) (members others)
              (Distinct-apart x (members kids) (members others) r) i,
        ) in
      let not_q : (x : Ptr) → has x (members others) ≡ true → x ≢ q =
        λ x i. ==→ne x q (has_other x q all (other_of x i) d.outside) in
      record {
        children =
            IsChildren-same t v q (roots others) left
              (spares.child q (off_first q d.outside) (off_kids q d.outside))
              (λ x i. spares.siblings x (spared x (roots-members x others i)).1);
        family =
            IsFamily-same t v others
              (IsFamily-same s.asl.pcbs.tree t others w (λ x i. same.child x (not_q x i))
                (λ x i. record {
                  prnt = same.prnt x (inner-roots x others alive i);
                  sib_prev = same.sib_prev x (inner-roots x others alive i);
                  sib_next = same.sib_next x (inner-roots x others alive i);
                }))
              (λ x i. (let (a, b) = spared x i in spares.child x a b))
              (λ x i. spares.siblings x (spared x (inner-members x others i)).1);
        distinct = alive;
        outside = off_others q d.outside;
        real = off_others null d.real;
        others =
            subst (λ (c : Ptr). has c (members others) ≡ false) (sym gone.current)
              (off_others s.current_process d.others);
        live = λ x i.
            (let (a, b) = spared x i in
              Lives-AreGone s u (members kids ++ p ∷ []) x gone (off_snoc x p (members kids) b a)
                (d.live x (other_of x i)));
      }
