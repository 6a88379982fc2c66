-- ===== src/Machine.antt =====
-- The machine under the kernel: processor states (kaya/h/types.h), how a piece of kernel code can
-- end, and the state monad in which the C functions are written.
use skara.Base.{ℕ, ◌==◌, if◌then◌else◌}

-- A pointer or an address is a 32-bit word. `NULL` is `(void *) 0xFFFFFFFF` (kaya/h/const.h).
abbrev pub Ptr : Type 0
Ptr = ℕ

abbrev pub null : Ptr
null = 0xFFFF_FFFF

-- `state_t`.
pub record ProcState : Type 0 where
  pub s_asid : ℕ
  pub s_cause : ℕ
  pub s_status : ℕ
  pub s_pc : ℕ
  pub s_reg : ℕ → ℕ

-- How control leaves the code: `LDST` of a state, `HALT`, `PANIC`, `WAIT` for an interrupt, or a
-- system call that ends the calling process.
pub data Outcome : Type 0 where
  loads : ProcState → Outcome
  halts panics waits ends : Outcome

-- A piece of code returns, leaves the kernel for good, faults (it reads or writes through `NULL`, or
-- past an array), or loops beyond the fuel it was given.
pub data Run (S A : Type 0) : Type 0 where
  ok : A → S → Run S A
  stop : Outcome → S → Run S A
  fault : Run S A
  out_of_fuel : Run S A

abbrev pub Cmd : Type 0 → Type 0 → Type 0
Cmd S A = S → Run S A

abbrev pub pure : {S A : Type 0} → A → Cmd S A
pure a s = ok a s

abbrev pub and_then : {S A B : Type 0} → Run S A → (A → Cmd S B) → Run S B
and_then (ok a s) k = k a s
and_then (stop o s) k = stop o s
and_then fault k = fault
and_then out_of_fuel k = out_of_fuel

infixl 5 ◌>>=◌ ◌>>◌
abbrev pub ◌>>=◌ : {S A B : Type 0} → Cmd S A → (A → Cmd S B) → Cmd S B
m >>= k = λ s. and_then (m s) k

abbrev pub ◌>>◌ : {S A B : Type 0} → Cmd S A → Cmd S B → Cmd S B
m >> k = m >>= λ _. k

abbrev pub get : {S : Type 0} → Cmd S S
get s = ok s s

abbrev pub modify : {S : Type 0} → (S → S) → Cmd S (Unit {0})
modify f s = ok tt (f s)

-- A command on one part of the state, run on the whole.
abbrev pub relay : {S T A : Type 0} → (T → S) → Run T A → Run S A
relay f (ok a t) = ok a (f t)
relay f (stop o t) = stop o (f t)
relay f fault = fault
relay f out_of_fuel = out_of_fuel

abbrev pub zoom : {S T A : Type 0} → (S → T) → (T → S → S) → Cmd T A → Cmd S A
zoom view put m s = relay (λ t. put t s) (m (view s))

-- Reads and writes of a field of the struct at `p`. `NULL` is no address.
abbrev pub read : {S A : Type 0} → (S → Ptr → A) → Ptr → Cmd S A
read field p s = if p == null then fault else ok (field s p) s

abbrev pub write : {S : Type 0} → (S → S) → Ptr → Cmd S (Unit {0})
write change p s = if p == null then fault else ok tt (change s)
