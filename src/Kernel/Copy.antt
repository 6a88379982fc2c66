-- ===== src/Kernel/Copy.antt =====
-- `CopyState` of kaya/phase2/exceptions.c.
use skara.Base.{
  ℕ, zero, suc, ◌+◌, ◌<◌, ◌≤◌, ◌≡◌, refl, ◌∙◌, inl, inr, arith, ◌==◌, Bool-cases, update,
}
use skara.Machine.{ProcState}
use skara.Kernel.{copy_state, copy_regs}

copy_regs-out : (n i k : ℕ) (new old : ℕ → ℕ) → (k < i) → copy_regs n i new old k ≡ new k
unfolding copy_regs
copy_regs-out zero i k new old l = refl
copy_regs-out (suc n) i k new old l =
    copy_regs-out n (suc i) k (update new i (old i)) old (omega arith) ∙ ground (arith)

copy_regs-past : (n i k : ℕ) (new old : ℕ → ℕ) → (i + n ≤ k) → copy_regs n i new old k ≡ new k
unfolding copy_regs
copy_regs-past zero i k new old l = refl
copy_regs-past (suc n) i k new old l =
    copy_regs-past n (suc i) k (update new i (old i)) old (omega arith) ∙ ground (arith)

copy_regs-in : (n i k : ℕ) (new old : ℕ → ℕ) → i ≤ k → k < i + n → copy_regs n i new old k ≡ old k
unfolding copy_regs
copy_regs-in zero i k new old l m = absurd (omega arith)
copy_regs-in (suc n) i k new old l m = elim (Bool-cases (k == i)) [
  | inl y ↦ copy_regs-out n (suc i) k (update new i (old i)) old (ground arith) ∙ ground (arith)
  | inr y ↦ copy_regs-in n (suc i) k (update new i (old i)) old (ground arith) (omega arith)
]

-- `CopyState` copies the four scalar fields and all 31 registers, and writes nothing past them.
pub copy_state-same :
    (new old : ProcState)
    → let c = copy_state new old in
      (c.s_asid ≡ old.s_asid)
      × (c.s_cause ≡ old.s_cause)
      × (c.s_status ≡ old.s_status)
      × (c.s_pc ≡ old.s_pc)
      × ((i : ℕ) → i < 31 → c.s_reg i ≡ old.s_reg i)
      × ((i : ℕ) → 31 ≤ i → c.s_reg i ≡ new.s_reg i)
unfolding copy_state
copy_state-same new old = (
  refl,
  refl,
  refl,
  refl,
  λ i l. copy_regs-in 31 0 i new.s_reg old.s_reg (omega arith) (omega arith),
  λ i l. copy_regs-past 31 0 i new.s_reg old.s_reg (omega arith),
)
