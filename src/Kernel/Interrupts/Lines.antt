-- ===== src/Kernel/Interrupts/Lines.antt =====
-- `DetermineLine` and `DetermineDevice` of kaya/phase2/interrupts.c.
use skara.Base.{
  ℕ, zero, suc, ◌+◌, ◌*◌, ◌/◌, ◌%◌, ◌^◌, ◌<◌, ◌≤◌, ◌≡◌, ap, ◌∙◌, inl, inr, Bool, true, false, not,
  arith, ◌==◌, Bool-cases, Option, none, some,
}
use skara.Base.Word.{word_mod}
use skara.Kernel.Interrupts.{and_bit, first_on, determine_line, determine_device}

-- Bit `i` of a word.
abbrev pub bit_on : ℕ → ℕ → Bool
bit_on word i = (word / 2 ^ i) % 2 == 1

-- The outcome of a search for the first index from `i` on, among `n`, at which `b` holds.
abbrev pub IsFirst : (ℕ → Bool) → ℕ → ℕ → Option ℕ → Type 0
IsFirst b n i none = (j : ℕ) → i ≤ j → j < i + n → b j ≡ false
IsFirst b n i (some k) =
    (i ≤ k) × (k < i + n) × (b k ≡ true) × ((j : ℕ) → i ≤ j → j < k → b j ≡ false)

-- The bit after `n` rounds of doubling.
abbrev doubled : ℕ → ℕ → ℕ
doubled zero bit = bit
doubled (suc n) bit = doubled n ((bit * 2) % word_mod)

IsFirst-next :
    (b : ℕ → Bool) (n i : ℕ) (r : Option ℕ)
    → b i ≡ false
    → IsFirst b n (suc i) r
    → IsFirst b (suc n) i r
IsFirst-next b n i none off f = λ j l m. elim (Bool-cases (j == i)) [
  | inl y ↦ ground (arith, off)
  | inr y ↦ f j (ground arith) (omega arith)
]
IsFirst-next b n i (some k) off f = (
  omega (arith, f.0),
  omega (arith, f.1),
  f.2,
  λ j l m. elim (Bool-cases (j == i)) [
    | inl y ↦ ground (arith, off)
    | inr y ↦ f.3 j (ground arith) m
  ],
)

first_on-IsFirst :
    (b : ℕ → Bool) (n i bit word : ℕ)
    → ((j : ℕ) → j < n → (and_bit word (doubled j bit) == 0) ≡ not (b (i + j)))
    → IsFirst b n i (first_on n i bit word)
unfolding first_on
first_on-IsFirst b zero i bit word f = λ j l m. absurd (omega arith)
first_on-IsFirst b (suc n) i bit word f = elim (Bool-cases (and_bit word bit == 0)) [
  | inl y ↦ rw (y) (
      IsFirst-next b n i (first_on n (suc i) ((bit * 2) % word_mod) word) (ground (arith, f 0)) (
        first_on-IsFirst b n (suc i) ((bit * 2) % word_mod) word
          λ j l. f (suc j) (omega arith) ∙ ap (λ x. not (b x)) (omega arith)))
  | inr y ↦ rw (y) (omega arith, omega arith, ground (arith, f 0), λ j l m. absurd (omega arith))
]

line_bit :
    (c j : ℕ)
    → j < 8
    → (and_bit ((c / 0x100) % 0x100 * 0x100) (doubled j 0x100) == 0) ≡ not (bit_on c (8 + (0 + j)))
line_bit c zero l = ground arith
line_bit c (suc zero) l = ground arith
line_bit c (suc (suc zero)) l = ground arith
line_bit c (suc (suc (suc zero))) l = ground arith
line_bit c (suc (suc (suc (suc zero)))) l = ground arith
line_bit c (suc (suc (suc (suc (suc zero))))) l = ground arith
line_bit c (suc (suc (suc (suc (suc (suc zero)))))) l = ground arith
line_bit c (suc (suc (suc (suc (suc (suc (suc zero))))))) l = ground arith
line_bit c (suc (suc (suc (suc (suc (suc (suc (suc j)))))))) l = absurd (omega arith)

device_bit : (c j : ℕ) → j < 8 → (and_bit (c % 0x100) (doubled j 1) == 0) ≡ not (bit_on c (0 + j))
device_bit c zero l = ground arith
device_bit c (suc zero) l = ground arith
device_bit c (suc (suc zero)) l = ground arith
device_bit c (suc (suc (suc zero))) l = ground arith
device_bit c (suc (suc (suc (suc zero)))) l = ground arith
device_bit c (suc (suc (suc (suc (suc zero))))) l = ground arith
device_bit c (suc (suc (suc (suc (suc (suc zero)))))) l = ground arith
device_bit c (suc (suc (suc (suc (suc (suc (suc zero))))))) l = ground arith
device_bit c (suc (suc (suc (suc (suc (suc (suc (suc j)))))))) l = absurd (omega arith)

-- `DetermineLine` gives the lowest line whose interrupt-pending bit, bit 8 and up, is on in the cause,
-- and nothing exactly where none of the 8 is.
pub determine_line-IsFirst :
    (cause : ℕ) → IsFirst (λ i. bit_on cause (8 + i)) 8 0 (determine_line cause)
unfolding determine_line
determine_line-IsFirst cause =
    first_on-IsFirst (λ i. bit_on cause (8 + i)) 8 0 0x100 ((cause / 0x100) % 0x100 * 0x100)
      (line_bit cause)

-- `DetermineDevice` gives the lowest device whose bit is on in the bit map, and nothing exactly where
-- none of the 8 is.
pub determine_device-IsFirst :
    (bit_map : ℕ) → IsFirst (bit_on bit_map) 8 0 (determine_device bit_map)
unfolding determine_device
determine_device-IsFirst bit_map =
    first_on-IsFirst (bit_on bit_map) 8 0 1 (bit_map % 0x100) (device_bit bit_map)
