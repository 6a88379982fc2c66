-- ===== src/Asl/Tests.antt =====
-- The theorems on kaya/phase1/asl.c at a concrete list.
use skara.Base.{◌+◌, ◌*◌, ◌≡◌, refl, [], ◌∷◌, ◌==◌, if◌then◌else◌, true, arith, has}
use skara.Machine.{Ptr, null, ProcState, ok, fault}
use skara.Pcb.Queue.{Links}
use skara.Pcb.Tree.{Tree}
use skara.Pcb.Table.{Pcbs}
use skara.Asl.{Asl, search_asl, out_blocked, init_asl}
use skara.Asl.Shape.{Desc, Holds, IsAsl}
use skara.Asl.Search.{Before}
use skara.Asl.Block.Insert.{Blocks, insert_blocked-IsAsl}
use skara.Asl.Unblock.Remove.{Removes, remove_blocked-IsAsl}
use skara.Asl.Unblock.Out.{Takes, out_blocked-IsAsl, out_blocked_unblocked}
use skara.Asl.Init.{IsNew, stacked, init_asl-IsAsl}

abbrev links : Links
links = record {
  p_next = λ a. if a == 1 then 2 else (if a == 2 then 1 else null);
  p_prev = λ a. if a == 1 then 2 else (if a == 2 then 1 else null);
}

abbrev tree : Tree
tree = record {
  p_prnt = λ _. null;
  p_child = λ _. null;
  p_sib_prev = λ _. null;
  p_sib_next = λ _. null;
}

abbrev blank : ProcState
blank = record { s_asid = 0; s_cause = 0; s_status = 0; s_pc = 0; s_reg = λ _. 0 }

abbrev blocks : Pcbs
blocks = record {
  links = links;
  tree = tree;
  p_s = λ _. blank;
  p_sem_add = λ a. if a == 1 then 50 else (if a == 2 then 50 else null);
  p_total_time = λ _. 0;
  old_areas = λ _ _. null;
  new_areas = λ _ _. null;
  pcb_list_h = null;
  proc_table = 0x20008000;
}

-- The dummy nodes are 100 and 101. The blocks 1 and 2 wait at the semaphore 50, whose descriptor is
-- 102, and 103 is free.
abbrev list : Asl
list = record {
  pcbs = blocks;
  s_next = λ a. if a == 100 then 102 else (if a == 102 then 101 else null);
  s_sem_add = λ a. if a == 102 then 50 else (if a == 100 then 0 else null);
  s_proc_q = λ a. if a == 102 then 2 else null;
  semd_h = 100;
  semd_free_h = 103;
  semd_table = 0x20009000;
}

abbrev waiters : Desc
waiters = record { node = 102; key = 50; waiting = 1 ∷ 2 ∷ [] }

names : (x : Ptr) → has x (1 ∷ 2 ∷ []) ≡ true → blocks.p_sem_add x ≡ 50
names x i = ground arith

waiters-Holds : Holds list waiters
waiters-Holds = record {
  address = omega arith;
  below = omega arith;
  key = refl;
  busy = λ e. absurd (cc);
  few = omega arith;
  queue = record {
    tail = refl;
    chain = (refl, refl, (refl, refl, tt));
    distinct = (refl, (refl, tt));
    addresses = refl;
  };
  names = names;
}

list-IsAsl : IsAsl list 100 101 (waiters ∷ []) (103 ∷ [])
list-IsAsl = record {
  head = refl;
  head_address = omega arith;
  end_address = omega arith;
  end_key = refl;
  chain = (refl, waiters-Holds, refl);
  sorted = tt;
  free = (refl, omega arith, refl);
  count = omega arith;
  distinct = (refl, (refl, (refl, (refl, tt))));
}

insert_blocked-IsAsl_example : Blocks list 100 101 50 3 (waiters ∷ []) (103 ∷ [])
insert_blocked-IsAsl_example =
    insert_blocked-IsAsl 50 3 list-IsAsl (omega arith) (omega arith) (refl, tt) (omega arith)

remove_blocked-IsAsl_example : Removes list 100 101 50 (waiters ∷ []) (1 ∷ 2 ∷ [])
remove_blocked-IsAsl_example = remove_blocked-IsAsl 50 list-IsAsl (omega arith)

out_blocked-IsAsl_example : Takes list 100 101 50 2 (waiters ∷ []) (1 ∷ 2 ∷ [])
out_blocked-IsAsl_example = out_blocked-IsAsl 2 list-IsAsl (omega arith) (omega arith)

out_blocked_unblocked_example :
    (s : Asl) × (out_blocked 3 list ≡ ok null s)
    × (s.semd_free_h ≡ 101)
    × ((k : Ptr) → Before k (waiters ∷ []) → search_asl k s ≡ fault)
out_blocked_unblocked_example = out_blocked_unblocked 3 list-IsAsl (omega arith) refl refl refl

init_asl-IsAsl_example :
    (u : Asl) × (init_asl list ≡ ok tt u)
    × IsNew u (0x20009000 + 21 * 12) (0x20009000 + 20 * 12) (stacked 0x20009000 20 0 [])
    × (u.pcbs ≡ blocks)
init_asl-IsAsl_example = init_asl-IsAsl list (omega arith)
