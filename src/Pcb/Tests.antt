-- ===== src/Pcb/Tests.antt =====
-- The theorems on kaya/phase1/pcb.c at concrete blocks.
use skara.Base.{◌≡◌, refl, [], ◌∷◌, ◌==◌, if◌then◌else◌, arith}
use skara.Machine.{Ptr, null, ProcState, ok}
use skara.Pcb.Queue.{Links, insert_proc_q, remove_proc_q, out_proc_q}
use skara.Pcb.Queue.Shape.{IsQueue, SameOutside}
use skara.Pcb.Queue.Insert.{insert_proc_q-IsQueue}
use skara.Pcb.Queue.Remove.{remove_proc_q-IsQueue}
use skara.Pcb.Queue.Out.{out_proc_q-IsQueue}
use skara.Pcb.Tree.{Tree, insert_child, out_child}
use skara.Pcb.Tree.Shape.{IsChildren, SameTree}
use skara.Pcb.Tree.Children.{insert_child-IsChildren}
use skara.Pcb.Tree.Out.{out_child-IsChildren}
use skara.Pcb.Table.{Pcbs, alloc_pcb}
use skara.Pcb.Table.Free.{IsFree, IsClear, SameBut, alloc_pcb-IsFree}

-- The queue of the blocks 1, 2 and 3.
abbrev three : Links
three = record {
  p_next = λ a. if a == 1 then 2 else (if a == 2 then 3 else (if a == 3 then 1 else null));
  p_prev = λ a. if a == 1 then 3 else (if a == 2 then 1 else (if a == 3 then 2 else null));
}

three-IsQueue : IsQueue three 3 (1 ∷ 2 ∷ 3 ∷ [])
three-IsQueue = record {
  tail = refl;
  chain = (refl, refl, (refl, refl, (refl, refl, tt)));
  distinct = (refl, (refl, (refl, tt)));
  addresses = refl;
}

insert_proc_q-IsQueue_example :
    (m : Links) × (insert_proc_q 3 4 three ≡ ok 4 m)
    × IsQueue m 4 (1 ∷ 2 ∷ 3 ∷ 4 ∷ [])
    × SameOutside (4 ∷ 1 ∷ 2 ∷ 3 ∷ []) three m
insert_proc_q-IsQueue_example =
    insert_proc_q-IsQueue 4 (1 ∷ 2 ∷ 3 ∷ []) three-IsQueue (omega arith) refl

remove_proc_q-IsQueue_example :
    (tp : Ptr) × (m : Links) × (remove_proc_q 3 three ≡ ok (1, tp) m)
    × IsQueue m tp (2 ∷ 3 ∷ [])
    × SameOutside (1 ∷ 2 ∷ 3 ∷ []) three m
remove_proc_q-IsQueue_example = remove_proc_q-IsQueue 1 (2 ∷ 3 ∷ []) three-IsQueue

out_proc_q-IsQueue_example :
    (tp : Ptr) × (m : Links) × (out_proc_q 3 3 three ≡ ok (3, tp) m)
    × IsQueue m tp (1 ∷ 2 ∷ [])
    × SameOutside (1 ∷ 2 ∷ 3 ∷ []) three m
out_proc_q-IsQueue_example =
    out_proc_q-IsQueue 3 (1 ∷ 2 ∷ 3 ∷ []) three-IsQueue (omega arith) (omega arith)

-- The block 9 with the children 2 and 1. The block 5 names 9 as its parent, but 9 has no child 5.
abbrev family : Tree
family = record {
  p_prnt = λ a. if a == 1 then 9 else (if a == 2 then 9 else (if a == 5 then 9 else null));
  p_child = λ a. if a == 9 then 2 else null;
  p_sib_prev = λ a. if a == 1 then 2 else null;
  p_sib_next = λ a. if a == 2 then 1 else null;
}

family-IsChildren : IsChildren family 9 (2 ∷ 1 ∷ [])
family-IsChildren = record {
  siblings = (refl, omega arith, refl, refl, (refl, omega arith, refl, refl, refl));
  distinct = (refl, (refl, tt));
}

insert_child-IsChildren_example :
    (u : Tree) × (insert_child 9 3 family ≡ ok tt u)
    × IsChildren u 9 (3 ∷ 2 ∷ 1 ∷ [])
    × SameTree 9 (3 ∷ 2 ∷ 1 ∷ []) family u
insert_child-IsChildren_example =
    insert_child-IsChildren 3 (2 ∷ 1 ∷ []) family-IsChildren (omega arith) (omega arith) refl refl
      refl

out_child-IsChildren_example :
    (u : Tree) × (out_child 1 family ≡ ok 1 u)
    × IsChildren u 9 (2 ∷ [])
    × SameTree 9 (2 ∷ 1 ∷ []) family u
out_child-IsChildren_example =
    out_child-IsChildren 1 (2 ∷ 1 ∷ []) family-IsChildren (omega arith) refl (omega arith)

abbrev blank : ProcState
blank = record { s_asid = 0; s_cause = 0; s_status = 0; s_pc = 0; s_reg = λ _. 0 }

-- The blocks 1, 2 and 3 are free.
abbrev table : Pcbs
table = record {
  links = three;
  tree = family;
  p_s = λ _. blank;
  p_sem_add = λ _. 7;
  p_total_time = λ _. 70;
  old_areas = λ _ _. 0;
  new_areas = λ _ _. 0;
  pcb_list_h = 3;
  proc_table = 0x20008000;
}

alloc_pcb-IsFree_example :
    (u : Pcbs) × (alloc_pcb table ≡ ok 1 u)
    × IsFree u (2 ∷ 3 ∷ [])
    × IsClear u 1
    × SameBut 1 table u
    × SameOutside (1 ∷ 2 ∷ 3 ∷ []) three u.links
alloc_pcb-IsFree_example = alloc_pcb-IsFree table 1 (2 ∷ 3 ∷ []) three-IsQueue
