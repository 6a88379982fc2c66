-- ===== src/Pcb/Tree/Out.antt =====
-- `outChild` of kaya/phase1/pcb.c.
use skara.Base.{
  ℕ, zero, suc, ◌≤◌, ◌<◌, ◌≡◌, refl, sym, subst, ◌≢◌, inl, inr, true, false, List, [], ◌∷◌, ◌++◌,
  arith, has, Distinct, last, erase, length, ◌==◌, update, if◌then◌else◌, Bool-cases, has-append,
  has-last, has-split, Distinct-split, ==→eq, erase-append, has-mid, eq→==,
}
use skara.Machine.{Ptr, null, ok, fault}
use skara.Pcb.Queue.{max_proc}
use skara.Pcb.Tree.{Tree, out_child, out_child_loop, out_sibling}
use skara.Pcb.Tree.Shape.{
  Siblings, IsChildren, SameTree, Siblings-frame, Siblings-prnt, Siblings-around,
}
use skara.Pcb.Tree.Children.{remove_child-IsChildren}

-- The tree after the siblings beside `p` are joined.
abbrev joined : Tree → Ptr → Tree
joined t p = record t {
  p_sib_prev =
      if t.p_sib_next p == null
      then t.p_sib_prev
      else update t.p_sib_prev (t.p_sib_next p) (t.p_sib_prev p);
  p_sib_next = update t.p_sib_next (t.p_sib_prev p) (t.p_sib_next p);
}

out_sibling-joined :
    (t : Tree) (p : Ptr) → p ≢ null → t.p_sib_prev p ≢ null → out_sibling p t ≡ ok tt (joined t p)
unfolding out_sibling
out_sibling-joined t p np na = ground arith

first_ne :
    (t : Tree) (q before c f : Ptr) (xs : List Ptr)
    → Siblings t q before c xs
    → has f xs ≡ false
    → f ≢ null
    → f ≢ c
first_ne t q before c f [] s out n = ground arith
first_ne t q before c f (x ∷ xs) s out n = ground arith

module _ (t : Tree) (q p : Ptr) where
  joined-Siblings :
      (before c f : Ptr) (front back : List Ptr)
      → Siblings t q before c (f ∷ front ++ p ∷ back)
      → Distinct (f ∷ front ++ p ∷ back)
      → Siblings (joined t p) q before c (f ∷ front ++ back)
  joined-Siblings before c f [] [] s d = ground arith
  joined-Siblings before c f [] (y ∷ back) s d = (
    s.0,
    s.1,
    s.2,
    ground arith,
    (
      ground arith,
      s.4.4.1,
      s.4.4.2,
      ground arith,
      ground (
        arith,
        Siblings-frame t (joined t p) q y (t.p_sib_next y) back s.4.4.4 (λ x i. refl)
            (λ x i. ground arith) λ x i. ground arith,
      ),
    ),
  )
  joined-Siblings before c f (g ∷ front) back s d =
      let (a, r) = Siblings-around t q f (t.p_sib_next f) p (g ∷ front) back s.4 in
      let apart : (has f (g ∷ front) ≡ false) × (has f back ≡ false) =
        ground (arith, has-append f (g ∷ front) (p ∷ back)) in
      let na : f ≢ t.p_sib_prev p = ground (arith, has-last g front) in
      let nn : f ≢ t.p_sib_next p = first_ne t q p (t.p_sib_next p) f back r apart.1 s.1 in
      (
        s.0,
        s.1,
        s.2,
        ground arith,
        ground (arith, joined-Siblings f (t.p_sib_next f) g front back s.4 d.1),
      )

  -- The walk comes to `p` if it is among the siblings.
  out_child_loop-has :
      (fuel : ℕ) (before c : Ptr) (xs : List Ptr)
      → Siblings t q before c xs
      → has p xs ≡ true
      → length xs < fuel
      → out_child_loop fuel p c t ≡ out_sibling p t
  unfolding out_child_loop
  out_child_loop-has zero before c xs s i f = absurd (omega arith)
  out_child_loop-has (suc fuel) before c [] s i f = absurd (cc)
  out_child_loop-has (suc fuel) before c (x ∷ xs) s i f =
      ground (arith, out_child_loop-has fuel x (t.p_sib_next x) xs s.4)

  -- And goes through `NULL` if it is not.
  out_child_loop_fault :
      (fuel : ℕ) (before c : Ptr) (xs : List Ptr)
      → Siblings t q before c xs
      → has p xs ≡ false
      → p ≢ null
      → length xs < fuel
      → out_child_loop fuel p c t ≡ fault
  unfolding out_child_loop
  out_child_loop_fault zero before c xs s i n f = absurd (omega arith)
  out_child_loop_fault (suc fuel) before c [] s i n f = ground arith
  out_child_loop_fault (suc fuel) before c (x ∷ xs) s i n f =
      ground (arith, out_child_loop_fault fuel x (t.p_sib_next x) xs s.4)

first_has :
    (t : Tree) (q before c : Ptr) (xs : List Ptr)
    → Siblings t q before c xs
    → (c == null) ≡ false
    → has c xs ≡ true
first_has t q before c [] s n = ground arith
first_has t q before c (x ∷ xs) s n = ground arith

module _ (t : Tree) (q p x : Ptr) where
  abbrev Taken : List Ptr → Type 0
  Taken xs =
      (u : Tree) × (out_child p t ≡ ok p u)
      × IsChildren u q (erase p (x ∷ xs))
      × SameTree q (x ∷ xs) t u

  out_first : (xs : List Ptr) → IsChildren t q (x ∷ xs) → q ≢ null → p ≡ x → Taken xs
  unfolding out_child
  out_first xs c nq e =
      let (u, run, c', s) = remove_child-IsChildren x xs c nq in
      (
        u,
        ground (arith, run),
        rw (eq→== p x e) c',
        record {
          child = s.child;
          prnt = λ a o. s.prnt a (ground arith);
          sib_prev = λ a o. s.sib_prev a (ground arith);
          sib_next = λ a o. s.sib_next a (ground arith);
        },
      )

  out_later :
      (front back : List Ptr)
      → IsChildren t q (x ∷ front ++ p ∷ back)
      → q ≢ null
      → length (x ∷ front ++ p ∷ back) ≤ max_proc
      → Taken (front ++ p ∷ back)
  unfolding out_child
  out_later front back c nq f =
      let (a, r) = Siblings-around t q null (t.p_child q) p (x ∷ front) back c.siblings in
      let ip : has p (x ∷ front ++ p ∷ back) ≡ true = has-mid p (x ∷ front) back in
      let ia : has (last x front) (x ∷ front ++ p ∷ back) ≡ true =
        ground (arith, has-append (last x front) (x ∷ front) (p ∷ back), has-last x front) in
      let (pq, np) = Siblings-prnt t q null (t.p_child q) p (x ∷ front ++ p ∷ back) c.siblings ip in
      let (aq, na) =
        Siblings-prnt t q null (t.p_child q) (last x front) (x ∷ front ++ p ∷ back) c.siblings ia in
      let walk =
        out_child_loop-has t q p (suc max_proc) null (t.p_child q) (x ∷ front ++ p ∷ back)
          c.siblings ip (omega arith) in
      let (pf, pb, d) = Distinct-split p (x ∷ front) back c.distinct in
      (
        joined t p,
        ground (arith, walk, out_sibling-joined t p np),
        subst (IsChildren (joined t p) q) (sym (erase-append p (x ∷ front) back pf)) (record {
          siblings = joined-Siblings t q p null (t.p_child q) x front back c.siblings c.distinct;
          distinct = d;
        }),
        record {
          child = λ b o. refl;
          prnt = λ b o. refl;
          sib_prev = λ b o.
              ground
                (arith, has-append b front (p ∷ back), first_has t q p (t.p_sib_next p) back r);
          sib_next = λ b o. ground arith;
        },
      )

-- Where a parent has at most `MAXPROC` children `outChild` takes a child of it out wherever it
-- stands among its siblings, and returns it. The other children keep their order, and no other
-- block's tree fields change.
pub out_child-IsChildren :
    {t : Tree} {q : Ptr} (p : Ptr) (xs : List Ptr)
    → IsChildren t q xs
    → q ≢ null
    → has p xs ≡ true
    → length xs ≤ max_proc
    → (u : Tree) × (out_child p t ≡ ok p u) × IsChildren u q (erase p xs) × SameTree q xs t u
out_child-IsChildren {t} {q} p [] c nq i f = absurd (cc)
out_child-IsChildren {t} {q} p (x ∷ xs) c nq i f = elim (Bool-cases (p == x)) [
  | inl e ↦ out_first t q p x xs c nq (==→eq p x e)
  | inr ne ↦
      let (front, back, e, er) = has-split p xs (ground arith) in
      subst (Taken t q p x) (sym e) (
        out_later t q p x front back (subst (λ ys. IsChildren t q (x ∷ ys)) e c) nq
          (subst (λ ys. length (x ∷ ys) ≤ max_proc) e f))
]

-- A block that names a parent but is not among its at most `MAXPROC` children, such as one that
-- `removeChild` took out, makes the walk of `outChild` fault at the end of the siblings.
pub out_child_fault :
    {t : Tree} {q : Ptr} (p : Ptr) (xs : List Ptr)
    → IsChildren t q xs
    → q ≢ null
    → p ≢ null
    → t.p_prnt p ≡ q
    → has p xs ≡ false
    → length xs ≤ max_proc
    → out_child p t ≡ fault
unfolding out_child
out_child_fault {t} {q} p [] c nq np e i f =
    ground (arith, out_child_loop_fault t q p (suc max_proc) null (t.p_child q) [] c.siblings i np)
out_child_fault {t} {q} p (x ∷ xs) c nq np e i f =
    ground
      (arith, out_child_loop_fault t q p (suc max_proc) null (t.p_child q) (x ∷ xs) c.siblings i np)
