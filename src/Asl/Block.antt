-- ===== src/Asl/Block.antt =====
-- What a block's coming to wait changes: `insertBlocked` of kaya/phase1/asl.c.
pub mod Hit
pub mod New
pub mod Insert
use skara.Base.{
  ◌<◌, ◌≡◌, refl, ap, sym, subst, ◌∙◌, ◌≢◌, ◌⊎◌, inl, inr, true, false, List, [], ◌∷◌, ◌++◌, arith,
  has, last, Distinct, ◌==◌, length, length-append, if◌then◌else◌, update, Bool-cases, ==→eq, ==→ne,
  ne→==, ==-refl, has-append, Distinct-split, Distinct-insert, Distinct-left, has-last,
  Distinct-apart,
}
use skara.Machine.{Ptr, null, ok}
use skara.Pcb.Queue.{max_proc, insert_proc_q, Links}
use skara.Pcb.Queue.Shape.{SameOutside}
use skara.Pcb.Queue.Insert.{insert_proc_q-IsQueue}
use skara.Asl.{Asl, insert_blocked, alloc_semd, enqueue}
use skara.Asl.Shape.{Desc, nodes, Holds, Nodes, Above, IsSorted, IsAsl, Stack, waiting_at, IsIdle}
use skara.Asl.Search.{
  Before, After, first_key, Place, find-Place, waiting_at-hit, waiting_at_miss, IsSorted-right,
}
use skara.Asl.Order.{
  IsSorted-drop, IsSorted-insert, nodes-append, Above-ne, Before-ne, All-append_split,
  waiting_at_skip, parts_of, IsFresh-node, IsFresh, node_back,
}
use skara.Asl.Frame.{Touches, All-Kept, Nodes-Kept, Nodes-rebuild, Nodes-Holds, Stack-same}

-- The list after `p` has come to wait at `k`.
pub record Blocked (s s' : Asl) (h e k p : Ptr) (ds ds' : List Desc) (fs' : List Ptr) : Type 0 where
  pub shape : IsAsl s' h e ds' fs'
  pub waits :
      (j : Ptr) → waiting_at j ds' ≡ (if j == k then waiting_at k ds ++ p ∷ [] else waiting_at j ds)
  pub named : s'.pcbs.p_sem_add p ≡ k
  pub names : (x : Ptr) → x ≢ p → s'.pcbs.p_sem_add x ≡ s.pcbs.p_sem_add x
  pub links : SameOutside (p ∷ waiting_at k ds) s.pcbs.links s'.pcbs.links
  pub states : s'.pcbs.p_s ≡ s.pcbs.p_s

-- The store after `p` is put on the queue of a node.
abbrev pub enqueued : Asl → Links → Ptr → Ptr → Ptr → Asl
enqueued s l n k p = record s {
  pcbs = record (s.pcbs) { links = l; p_sem_add = update s.pcbs.p_sem_add p k };
  s_proc_q = update s.s_proc_q n p;
}

pub enqueue_lem :
    (s : Asl) (n k p : Ptr) (l : Links)
    → n ≢ null
    → p ≢ null
    → insert_proc_q (s.s_proc_q n) p s.pcbs.links ≡ ok p l
    → enqueue n k p s ≡ ok tt (enqueued s l n k p)
unfolding enqueue
enqueue_lem s n k p l nn pn run = rw (ne→== n null nn, run, ne→== n null nn, ne→== p null pn)
