-- ===== src/Base/Word.antt =====
-- 32-bit words as numbers below 2 ^ 32, with the wrap-around of each operation written out.
use Prim.Native.Nat.{ℕ, ◌+◌, ◌-◌, ◌/◌, ◌%◌, ◌^◌, ◌*◌}
use mathlib.Core.Bool.{Bool, true}
use skara.Base.Tests.{leb, ◌==◌, if◌then◌else◌}

abbrev pub word_mod : ℕ
word_mod = 2 ^ 32

abbrev pub add : ℕ → ℕ → ℕ
add a b = (a + b) % word_mod

abbrev pub sub : ℕ → ℕ → ℕ
sub a b = (a + (word_mod - b)) % word_mod

-- The signed reading of a word is negative: its top bit is set.
abbrev pub is_neg : ℕ → Bool
is_neg a = leb (2 ^ 31) a

-- a <= 0 as signed words.
abbrev pub is_nonpos : ℕ → Bool
is_nonpos a = if a == 0 then true else is_neg a

abbrev pub magnitude : ℕ → ℕ
magnitude a = if is_neg a then word_mod - a else a

-- Signed division, which truncates towards zero.
pub sdiv : ℕ → ℕ → ℕ
sdiv a b =
    let q = magnitude a / magnitude b in
    if is_neg a then (if is_neg b then q else sub 0 q) else (if is_neg b then sub 0 q else q)

-- a << k.
abbrev pub shl : ℕ → ℕ → ℕ
shl a k = (a * 2 ^ k) % word_mod

-- (a & MASK) >> k, where MASK has `w` ones from bit `k` on.
abbrev pub field : ℕ → ℕ → ℕ → ℕ
field a k w = (a / 2 ^ k) % 2 ^ w

-- The bit `b`, a power of two, and `|`, `^` and `& ~` with it.
abbrev pub has_bit : ℕ → ℕ → Bool
has_bit a b = (a / b) % 2 == 1

abbrev pub or_bit : ℕ → ℕ → ℕ
or_bit a b = if has_bit a b then a else a + b

abbrev pub xor_bit : ℕ → ℕ → ℕ
xor_bit a b = if has_bit a b then a - b else a + b

abbrev pub drop_bit : ℕ → ℕ → ℕ
drop_bit a b = if has_bit a b then a - b else a

-- Signed remainder by a positive number.
abbrev pub srem : ℕ → ℕ → ℕ
srem a b = if is_neg a then sub 0 (magnitude a % b) else a % b
