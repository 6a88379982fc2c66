-- ===== src/Kernel/Tests/Families.antt =====
-- The theorems on the deaths of families, kaya/phase2/exceptions.c, at a concrete process tree.
use skara.Base.{
  ◌≡◌, refl, inl, inr, List, [], ◌∷◌, arith, has, ◌==◌, if◌then◌else◌, true, Bool-cases, ==→eq,
  subst, sym,
}
use skara.Machine.{Ptr, null, ok}
use skara.Pcb.Tree.{Tree}
use skara.Pcb.Tree.Shape.{IsChildren}
use skara.Asl.Shape.{Desc}
use skara.Kernel.{Kernel}
use skara.Kernel.Process.{honey_i_killed_the_kids}
use skara.Kernel.Process.Family.{Family, none, more}
use skara.Kernel.Process.Deaths.{AreGone, Lives}
use skara.Kernel.Process.Doomed.{IsDoomed, Spares, retreed}
use skara.Kernel.Process.Descent.{IsSound, retreed-IsSound}
use skara.Kernel.Process.Terminate.{
  Terminates, honey_i_killed_the_kids-AreGone, terminate_process-Terminates,
}
use skara.Kernel.Tests.{
  kernel, ds, kernel-IsNucleus, table-IsFree, frees-AreIdle, current-WaitsNowhere,
}

-- 9 is a child of 11, 3 one of 9, and 2 and 1 are the children of 3.
abbrev grown : Tree
grown = record {
  p_prnt = λ a.
      if a == 3
      then 9
      else (if a == 2 then 3 else (if a == 1 then 3 else (if a == 9 then 11 else null)));
  p_child = λ a. if a == 11 then 9 else (if a == 9 then 3 else (if a == 3 then 2 else null));
  p_sib_prev = λ a. if a == 1 then 2 else null;
  p_sib_next = λ a. if a == 2 then 1 else null;
}

abbrev settled : Kernel
settled = retreed (kernel 1) grown

abbrev pair : Family
pair = more 2 none (more 1 none none)

settled-IsSound : IsSound settled 100 101 ds (103 ∷ []) (3 ∷ 5 ∷ []) (6 ∷ 7 ∷ [])
settled-IsSound = retreed-IsSound (kernel 1) grown (record {
  nucleus = kernel-IsNucleus;
  free = table-IsFree;
  idle = frees-AreIdle;
  few = omega arith;
})

leaf-IsChildren : (x : Ptr) → grown.p_child x ≡ null → IsChildren grown x []
leaf-IsChildren x e = record { siblings = e; distinct = tt }

pair-IsChildren : IsChildren grown 3 (2 ∷ 1 ∷ [])
pair-IsChildren = record {
  siblings = (refl, (omega arith), refl, refl, (refl, (omega arith), refl, refl, refl));
  distinct = (refl, (refl, tt));
}

pair-live : (x : Ptr) → has x (2 ∷ 1 ∷ []) ≡ true → Lives settled ds (3 ∷ 5 ∷ []) x
pair-live x i = elim (Bool-cases (x == 2)) [
  | inl y ↦
      subst (λ (a : Ptr). Lives settled ds (3 ∷ 5 ∷ []) a) (sym (==→eq x 2 y))
        (inr (omega arith, refl))
  | inr y ↦
      subst (λ (a : Ptr). Lives settled ds (3 ∷ 5 ∷ []) a) {x = 1} {y = x} (ground arith)
        (inr (omega arith, refl))
]

pair-IsDoomed : IsDoomed settled 3 pair ds (3 ∷ 5 ∷ [])
pair-IsDoomed = record {
  children = pair-IsChildren;
  family = (leaf-IsChildren 2 refl, tt, (leaf-IsChildren 1 refl, tt, tt));
  distinct = (refl, (refl, tt));
  outside = refl;
  real = refl;
  others = refl;
  live = pair-live;
}

honey_i_killed_the_kids-AreGone_example :
    (u : Kernel) × (ds' : List Desc) × (fs' : List Ptr) × (honey_i_killed_the_kids 3 3 settled
      ≡ ok tt u)
    × AreGone settled u 100 101 (2 ∷ 1 ∷ 3 ∷ []) ds (3 ∷ 5 ∷ []) (6 ∷ 7 ∷ []) ds' fs'
    × Spares 3 (2 ∷ 1 ∷ []) grown u.asl.pcbs.tree
honey_i_killed_the_kids-AreGone_example =
    honey_i_killed_the_kids-AreGone settled 3 pair 3 (6 ∷ 7 ∷ []) settled-IsSound pair-IsDoomed
      (omega arith) (omega arith) (inl (refl, refl)) (omega arith)

all-live : (x : Ptr) → has x (2 ∷ 1 ∷ 3 ∷ []) ≡ true → Lives settled ds (3 ∷ 5 ∷ []) x
all-live x i = elim (Bool-cases (x == 3)) [
  | inl y ↦
      subst (λ (a : Ptr). Lives settled ds (3 ∷ 5 ∷ []) a) (sym (==→eq x 3 y)) (inl (refl, refl))
  | inr y ↦ pair-live x (ground arith)
]

all-IsDoomed : IsDoomed settled 9 (more 3 pair none) ds (3 ∷ 5 ∷ [])
all-IsDoomed = record {
  children = record { siblings = (refl, (omega arith), refl, refl, refl); distinct = (refl, tt) };
  family = (pair-IsChildren, pair-IsDoomed.family, tt);
  distinct = (refl, (refl, (refl, tt)));
  outside = refl;
  real = refl;
  others = refl;
  live = all-live;
}

terminate_process-Terminates_example :
    (u : Kernel) × (ds' : List Desc) × (fs' : List Ptr) × Terminates settled u 100 101 9 11
      (more 3 pair none)
      ds
      (3 ∷ 5 ∷ [])
      (6 ∷ 7 ∷ [])
      (9 ∷ [])
      ds'
      fs'
terminate_process-Terminates_example =
    terminate_process-Terminates settled 9 11 (more 3 pair none) (6 ∷ 7 ∷ []) (9 ∷ [])
      settled-IsSound all-IsDoomed
      (record {
        current = refl;
        parent = record {
          siblings = (refl, (omega arith), refl, refl, refl);
          distinct = (refl, tt);
        };
        child = refl;
        few = omega arith;
        real = omega arith;
        parent_real = omega arith;
        parent_other = omega arith;
        parent_outside = refl;
        siblings_outside = λ x i. ground arith;
        not_ready = refl;
        not_waiting = current-WaitsNowhere;
        not_free = refl;
      })
      (omega arith)
