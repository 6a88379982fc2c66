-- ===== src/Pcb/Queue/Out.antt =====
-- `outProcQ` of kaya/phase1/pcb.c.
use skara.Base.{
  erase-absent, ◌≤◌, zero, suc, ℕ, zero, suc, ◌<◌, ◌≡◌, sym, ◌≢◌, true, false, List, [], ◌∷◌, ◌++◌,
  arith, has, last, Distinct, ne-last, has-last, has-append, last-append, ◌==◌, ◌||◌,
  Distinct-apart, Distinct-left, Distinct-right, Distinct-split, length, Bool-cases, inl, inr,
  if◌then◌else◌, ==→eq, ◌∙◌, subst, erase, has-split, refl, ne→==, ==-refl, ==→ne,
}
use mathlib.Core.List.{append-nil}
use skara.Machine.{Ptr, null, ok}
use skara.Pcb.Queue.{out_proc_q, remove_proc_q, max_proc, Links, out_loop, unlink}
use skara.Pcb.Queue.Shape.{Chain, IsQueue, SameOutside, Chain-frame, Chain-append, Chain-split}
use skara.Pcb.Queue.Remove.{skipped, remove_proc_q-skipped, remove_proc_q-IsQueue}

module _ (l : Links) (tp p : Ptr) where
  -- A block with another one behind it.
  unlink-inner :
      (front : List Ptr) (b : Ptr) (back : List Ptr)
      → IsQueue l tp (front ++ p ∷ b ∷ back)
      → (m : Links) × (unlink p l ≡ ok p m)
        × IsQueue m tp (front ++ b ∷ back)
        × SameOutside (front ++ p ∷ b ∷ back) l m
  unfolding unlink
  unlink-inner front b back q =
      let (ch, n, pr, rest) = Chain-split l tp p front (b ∷ back) q.chain in
      let end : tp ≡ last b back = q.tail ∙ last-append null p front (b ∷ back) in
      let (pf, pb, d) = Distinct-split p front (b ∷ back) q.distinct in
      let na : has null (front ++ p ∷ b ∷ back) ≡ false = q.addresses in
      let there : has (last tp front) (tp ∷ front) ≡ true = has-last tp front in
      let there' : has (last b back) (b ∷ back) ≡ true = has-last b back in
      let split : has null (front ++ p ∷ b ∷ back) ≡ (has null front || has null (p ∷ b ∷ back)) =
        has-append null front (p ∷ b ∷ back) in
      let ne : last tp front ≢ null = ground arith in
      let pne : p ≢ null = ground arith in
      let bne : b ≢ null = ground arith in
      let apart : last tp front ≢ p = ground arith in
      let out : has tp front ≡ false = ground (arith, Distinct-apart tp front (b ∷ back) d) in
      let db : Distinct (b ∷ back) = Distinct-right front (b ∷ back) d in
      let m : Links = skipped l (last tp front) b in
      (
        m,
        ground (arith, remove_proc_q-skipped l (last tp front) p b ne pne bne apart n rest.0),
        record {
          tail = end ∙ sym (last-append null b front back);
          chain =
              Chain-append m tp b front back
                (Chain-frame tp front ch (out, Distinct-left front (b ∷ back) d)
                  (λ x i. ground (arith, Distinct-apart x front (b ∷ back) d))
                  (λ x i ne. ground arith))
                (ground arith) (ground arith)
                (Chain-frame b back rest.2 db (λ x i. ground (arith, db))
                  (λ x i ne. ground (arith, Distinct-apart (last tp front) front (b ∷ back) d)));
          distinct = d;
          addresses = ground (arith, has-append null front (b ∷ back));
        },
        λ x o. ground (arith, has-append x front (p ∷ b ∷ back)),
      )

  -- The tail, where there is another block before it.
  unlink_tail :
      (f : Ptr) (front : List Ptr)
      → IsQueue l tp (f ∷ front ++ p ∷ [])
      → (m : Links) × (remove_proc_q (l.p_prev p) l ≡ ok (p, l.p_prev p) m)
        × IsQueue m (l.p_prev p) (f ∷ front)
        × SameOutside (f ∷ front ++ p ∷ []) l m
  unlink_tail f front q =
      let (ch, n, pr, rest) = Chain-split l f p front [] q.chain.2 in
      let end : tp ≡ p = q.tail ∙ last-append f p front [] in
      let (pf, pb, d) = Distinct-split p (f ∷ front) [] q.distinct in
      let na : has null (f ∷ front ++ p ∷ []) ≡ false = q.addresses in
      let there : has (last f front) (f ∷ front) ≡ true = has-last f front in
      let split : has null (front ++ p ∷ []) ≡ (has null front || has null (p ∷ [])) =
        has-append null front (p ∷ []) in
      let a = l.p_prev p in
      let ne : a ≢ null = ground arith in
      let pne : p ≢ null = ground arith in
      let fne : f ≢ null = ground arith in
      let apart : a ≢ p = ground arith in
      (
        skipped l a f,
        remove_proc_q-skipped l a p f ne pne fne apart (ground arith) (ground arith),
        record {
          tail = pr;
          chain = (
            ground arith,
            ground arith,
            Chain-frame f front ch (Distinct-left (f ∷ front) (p ∷ []) q.distinct)
                (λ x i. ground (arith, Distinct-left (f ∷ front) (p ∷ []) q.distinct))
                (λ x i ne. ground arith),
          );
          distinct = Distinct-left (f ∷ front) (p ∷ []) q.distinct;
          addresses = ground arith;
        },
        λ x o. ground (arith, has-append x front (p ∷ [])),
      )

  -- The walk from `c` over the rest of the queue comes to `p` if it is there.
  out_loop-has :
      (fuel : ℕ) (c r : Ptr) (rs : List Ptr)
      → Chain l c (r ∷ rs)
      → tp ≡ last r rs
      → Distinct (r ∷ rs)
      → has null (c ∷ r ∷ rs) ≡ false
      → p ≢ tp
      → p ≢ c
      → length (r ∷ rs) < fuel
      → out_loop fuel tp p c l ≡ (if has p (r ∷ rs) then unlink p l else ok null l)
  unfolding out_loop
  out_loop-has zero c r rs ch t d a np nc f = absurd (omega arith)
  out_loop-has (suc fuel) c r [] ch t d a np nc f = ground arith
  out_loop-has (suc zero) c r (s ∷ rs) ch t d a np nc f = absurd (omega arith)
  out_loop-has (suc (suc fuel)) c r (s ∷ rs) ch t d a np nc f = elim (Bool-cases (p == r)) [
    | inl e ↦ ground (arith, ==→eq p r e, ne-last r s rs)
    | inr ne ↦ ground (arith, ne-last r s rs, out_loop-has (suc fuel) r s rs ch.2 t d.1)
  ]

-- A block behind the first: the links after it is removed, by its place in the queue.
out_behind :
    {l : Links} {tp : Ptr} (p x y : Ptr) (ys front back : List Ptr)
    → IsQueue l tp (x ∷ y ∷ ys)
    → length (x ∷ y ∷ ys) ≤ max_proc
    → has p (x ∷ y ∷ ys) ≡ true
    → x ∷ y ∷ ys ≡ front ++ p ∷ back
    → (tp' : Ptr) × (m : Links) × (out_proc_q tp p l ≡ ok (p, tp') m)
      × IsQueue m tp' (front ++ back)
      × SameOutside (x ∷ y ∷ ys) l m
unfolding out_proc_q
out_behind p x y ys [] [] q f i e = absurd (cc)
out_behind {l} {tp} p x y ys (a ∷ front) [] q f i e =
    let q' = subst (IsQueue l tp) e q in
    let (m, run, left, same) = unlink_tail l tp p a front q' in
    let end : tp ≡ p = q'.tail ∙ last-append a p front [] in
    (
      l.p_prev p,
      m,
      ground (arith, has-last y ys, run),
      simp append-nil left,
      λ c o. same c (subst (λ zs. has c zs ≡ false) e o),
    )
out_behind {l} {tp} p x y ys front (b ∷ back) q f i e =
    let q' = subst (IsQueue l tp) e q in
    let (m, run, left, same) = unlink-inner l tp p front b back q' in
    let end : tp ≡ last b back = q'.tail ∙ last-append null p front (b ∷ back) in
    let (pf, pb, d) = Distinct-split p front (b ∷ back) q'.distinct in
    let ne : p ≢ tp = ground (arith, has-last b back) in
    let walk =
      out_loop-has l tp p (suc max_proc) tp x (y ∷ ys) q.chain q.tail q.distinct
        (ground (arith, has-last y ys)) ne ne (omega arith) in
    (
      tp,
      m,
      ground (arith, has-last y ys, walk, run),
      left,
      λ c o. same c (subst (λ zs. has c zs ≡ false) e o),
    )

-- In a queue of one block, another block is not found.
out_one :
    (l : Links) (x p : Ptr) → l.p_next x ≡ x → x ≢ null → p ≢ x → out_proc_q x p l ≡ ok (null, x) l
unfolding out_proc_q
out_one l x p e n ne = simp (ne→== x null n, e, ==-refl x, ne→== x p (λ h. ne (sym h)))

-- On a queue of at most `MAXPROC` blocks `outProcQ` takes a block that is not `NULL` out wherever
-- it stands in the queue, and returns it; for a block that is not there it returns `NULL`. The
-- other blocks keep their order, and no links change but those of the queue's blocks.
pub out_proc_q-IsQueue :
    {l : Links} {tp : Ptr} (p : Ptr) (xs : List Ptr)
    → IsQueue l tp xs
    → length xs ≤ max_proc
    → p ≢ null
    → (tp' : Ptr) × (m : Links) × (out_proc_q tp p l ≡ ok (if has p xs then p else null, tp') m)
      × IsQueue m tp' (erase p xs)
      × SameOutside xs l m
unfolding out_proc_q
out_proc_q-IsQueue {l} {tp} p [] q f ne = (tp, l, ground (arith, q.tail), q, λ a o. (refl, refl))
out_proc_q-IsQueue {l} {tp} p (x ∷ []) q f ne = elim (Bool-cases (p == x)) [
  | inl e ↦
      let (tp', m, run, q', s) = remove_proc_q-IsQueue x [] q in
      (tp', m, ground (arith, q.tail, run, ==→eq p x e), rw e q', s)
  | inr ab ↦ (
    tp,
    l,
    rw (ab, q.tail) (out_one l x p (ground (arith, q.tail)) (ground arith) (==→ne p x ab)),
    rw ab q,
    λ a o. (refl, refl),
  )
]
out_proc_q-IsQueue {l} {tp} p (x ∷ y ∷ ys) q f ne = elim (Bool-cases (has p (x ∷ y ∷ ys))) [
  | inl i ↦
      let (front, back, e, er) = has-split p (x ∷ y ∷ ys) i in
      let (tp', m, run, q', s) = out_behind p x y ys front back q f i e in
      (tp', m, rw i run, rw er q', s)
  | inr ab ↦
      let ne' : p ≢ tp = ground (arith, has-last y ys) in
      (
        tp,
        l,
        ground (
          arith,
          has-last y ys,
          out_loop-has l tp p (suc max_proc) tp x (y ∷ ys) q.chain q.tail q.distinct
              (ground (arith, has-last y ys)) ne' ne' (omega arith),
        ),
        rw (erase-absent p (x ∷ y ∷ ys) ab) q,
        λ a o. (refl, refl),
      )
]

pub out_proc_q-null : (p : Ptr) (l : Links) → out_proc_q null p l ≡ ok (null, null) l
unfolding out_proc_q
out_proc_q-null p l = refl
