-- ===== src/Pcb/Queue/Remove.antt =====
-- `removeProcQ` of kaya/phase1/pcb.c.
use skara.Base.{◌≡◌, refl, ◌≢◌, List, [], ◌∷◌, arith, has-last, update}
use skara.Machine.{Ptr, null, ok}
use skara.Pcb.Queue.{Links, remove_proc_q}
use skara.Pcb.Queue.Shape.{IsQueue, SameOutside, Chain-frame}

-- The links after the block behind `a` is taken out and `y` follows `a`.
abbrev pub skipped : Links → Ptr → Ptr → Links
skipped l a y = record { p_next = update l.p_next a y; p_prev = update l.p_prev y a }

-- The code at a tail with another block as its head: the head is skipped.
pub remove_proc_q-skipped :
    (l : Links) (a x y : Ptr)
    → a ≢ null
    → x ≢ null
    → y ≢ null
    → a ≢ x
    → l.p_next a ≡ x
    → l.p_next x ≡ y
    → remove_proc_q a l ≡ ok (x, a) (skipped l a y)
unfolding remove_proc_q
remove_proc_q-skipped l a x y na nx ny ne e f = ground arith

-- On an empty queue `removeProcQ` returns `NULL` and changes nothing.
pub remove_proc_q-nil :
    {l : Links} {tp : Ptr} → IsQueue l tp [] → remove_proc_q tp l ≡ ok (null, tp) l
unfolding remove_proc_q
remove_proc_q-nil q = ground (arith, q.tail)

-- `removeProcQ` on a queue that is not empty returns the head, the new tail is that of the rest,
-- the rest stays in order, and no links change but those of the queue's blocks.
pub remove_proc_q-IsQueue :
    {l : Links} {tp : Ptr} (x : Ptr) (xs : List Ptr)
    → IsQueue l tp (x ∷ xs)
    → (tp' : Ptr) × (m : Links) × (remove_proc_q tp l ≡ ok (x, tp') m)
      × IsQueue m tp' xs
      × SameOutside (x ∷ xs) l m
unfolding remove_proc_q
remove_proc_q-IsQueue {l} {tp} x [] q = (
  null,
  l,
  ground (arith, q.tail),
  record { tail = refl; chain = tt; distinct = tt; addresses = refl },
  λ a o. (refl, refl),
)
remove_proc_q-IsQueue {l} {tp} x (y ∷ ys) q = (
  tp,
  skipped l tp y,
  remove_proc_q-skipped l tp x y (ground (arith, q.tail, has-last y ys)) (ground arith)
      (ground arith) (ground (arith, q.tail, has-last y ys)) (ground (arith, q.tail))
      (ground (arith, q.tail)),
  record {
    tail = q.tail;
    chain = (
      ground arith,
      ground arith,
      Chain-frame y ys q.chain.2.2 q.distinct.1 (λ z i. ground arith)
          λ z i d. ground (arith, q.tail),
    );
    distinct = q.distinct.1;
    addresses = ground arith;
  },
  λ a o. ground (arith, q.tail, has-last y ys),
)
