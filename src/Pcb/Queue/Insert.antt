-- ===== src/Pcb/Queue/Insert.antt =====
-- `insertProcQ` and `headProcQ` of kaya/phase1/pcb.c.
use skara.Base.{
  ◌≡◌, refl, ◌≢◌, false, List, [], ◌∷◌, ◌++◌, arith, has, has-last, has-append, last-append,
  Distinct-snoc, update,
}
use skara.Machine.{Ptr, null, ok}
use skara.Pcb.Queue.{Links, insert_proc_q, head_proc_q}
use skara.Pcb.Queue.Shape.{IsQueue, SameOutside, Chain-frame, Chain-append, first}

-- The links after `insertProcQ` on the queue with tail `tp`, whose head is `y`.
abbrev linked : Links → Ptr → Ptr → Ptr → Links
linked l tp y p = record {
  p_next = update (update l.p_next p y) tp p;
  p_prev = update (update l.p_prev y p) p tp;
}

-- Inserting a block that is not `NULL` and not in the queue puts it at the end of the queue, makes
-- it the tail, and touches no links but those of the queue's blocks and its own.
pub insert_proc_q-IsQueue :
    {l : Links} {tp : Ptr} (p : Ptr) (xs : List Ptr)
    → IsQueue l tp xs
    → p ≢ null
    → has p xs ≡ false
    → (m : Links) × (insert_proc_q tp p l ≡ ok p m)
      × IsQueue m p (xs ++ p ∷ [])
      × SameOutside (p ∷ xs) l m
unfolding insert_proc_q
insert_proc_q-IsQueue {l} {tp} p [] q ne out = (
  record { p_next = update l.p_next p p; p_prev = update l.p_prev p p },
  ground (arith, q.tail),
  record { tail = refl; chain = ground arith; distinct = (refl, tt); addresses = ground arith },
  λ a o. ground arith,
)
insert_proc_q-IsQueue {l} {tp} p (y ∷ ys) q ne out = (
  linked l tp y p,
  ground (arith, q.tail, has-last y ys),
  record {
    tail = ground (arith, last-append y p ys []);
    chain = (
      ground (arith, q.tail, has-last y ys),
      ground (arith, q.tail, has-last y ys),
      Chain-append (linked l tp y p) y p ys []
          (Chain-frame y ys q.chain.2 q.distinct (λ x i. ground arith)
            λ x i d. ground (arith, q.tail))
          (ground (arith, q.tail)) (ground (arith, q.tail)) tt,
    );
    distinct = Distinct-snoc p (y ∷ ys) q.distinct out;
    addresses = ground (arith, has-append null ys (p ∷ []));
  },
  λ a o. ground (arith, q.tail, has-last y ys),
)

-- `headProcQ` returns the first block of a queue, or `NULL` if there is none, and changes nothing.
pub head_proc_q-IsQueue :
    {l : Links} {tp : Ptr} (xs : List Ptr) → IsQueue l tp xs → head_proc_q tp l ≡ ok (first xs) l
unfolding head_proc_q
head_proc_q-IsQueue [] q = ground (arith, q.tail)
head_proc_q-IsQueue (y ∷ ys) q = ground (arith, q.tail, has-last y ys)
