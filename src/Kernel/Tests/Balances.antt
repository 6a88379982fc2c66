-- ===== src/Kernel/Tests/Balances.antt =====
-- The theorems on the values of semaphores, kaya/phase2/exceptions.c, at a concrete nucleus.
use skara.Base.{◌≡◌, refl, ◌⊎◌, inl, inr, List, [], ◌∷◌, arith, ◌==◌, Bool-cases}
use skara.Machine.{Ptr, stop, loads}
use skara.Asl.Shape.{Desc}
use skara.Kernel.{Kernel}
use skara.Kernel.State.{IsNucleus}
use skara.Kernel.Scheduler.{scheduler}
use skara.Kernel.Semaphores.{passeren, verhogen}
use skara.Kernel.Semaphores.Balance.{IsBalanced, passeren-IsBalanced, verhogen-IsBalanced}
use skara.Kernel.Tests.{kernel, ds, timer, kernel-IsNucleus, at_timer}

kernel-IsBalanced : IsBalanced (kernel 1).words ds
kernel-IsBalanced j l = elim (Bool-cases (j == timer)) [ inl y ↦ rw (y) refl | inr y ↦ rw (y) refl ]

passeren-IsBalanced_example :
    (u : Kernel) × (ds' : List Desc) × (fs' : List Ptr) × ((passeren 0x500 timer (kernel 1)
        ≡ stop (loads ((kernel 1).areas 0x500)) u)
      ⊎ (passeren 0x500 timer (kernel 1) ≡ scheduler u))
    × IsNucleus u.asl u.ready_q 100 101 ds' fs' (3 ∷ 5 ∷ [])
    × IsBalanced u.words ds'
passeren-IsBalanced_example =
    passeren-IsBalanced (kernel 1) 0x500 timer kernel-IsNucleus (omega arith) (omega arith)
      kernel-IsBalanced (omega arith) at_timer (omega arith)

verhogen-IsBalanced_example :
    (u : Kernel) × (ds' : List Desc) × (fs' : List Ptr) × (rs' : List Ptr) × (verhogen 0x500 timer
        (kernel 1)
      ≡ stop (loads ((kernel 1).areas 0x500)) u)
    × IsNucleus u.asl u.ready_q 100 101 ds' fs' rs'
    × IsBalanced u.words ds'
verhogen-IsBalanced_example =
    verhogen-IsBalanced (kernel 1) 0x500 timer kernel-IsNucleus (omega arith) (omega arith)
      kernel-IsBalanced (omega arith) (omega arith)
