-- ===== src/Base/Lists.antt =====
-- Lists of addresses: membership as a test, distinctness, removal, the last entry.
use Prim.Native.Nat.{ℕ, suc, ◌+◌, ◌≤◌}
use mathlib.Core.Path.{◌≡◌, refl, ap}
use mathlib.Core.Logic.{◌≢◌, inl, inr}
use mathlib.Core.Bool.{Bool, true, false, ◌||◌}
use mathlib.Core.List.{List, [], ◌∷◌, ◌++◌}
use native.Mathlib.Omega.{arith}
use skara.Base.Tests.{◌==◌, if◌then◌else◌, Bool-cases, ==→eq}

abbrev pub length {ℓ} : {A : Type ℓ} → List A → ℕ
length [] = 0
length (x ∷ xs) = suc (length xs)

pub length-append {ℓ} : {A : Type ℓ} (xs ys : List A) → length (xs ++ ys) ≡ length xs + length ys
length-append [] ys = omega arith
length-append (x ∷ xs) ys = omega (arith, length-append xs ys)

abbrev pub has : ℕ → List ℕ → Bool
has a [] = false
has a (x ∷ xs) = (a == x) || has a xs

abbrev pub Distinct : List ℕ → Type 0
Distinct [] = Unit {0}
Distinct (x ∷ xs) = (has x xs ≡ false) × Distinct xs

abbrev pub erase : ℕ → List ℕ → List ℕ
erase a [] = []
erase a (x ∷ xs) = if a == x then xs else x ∷ erase a xs

-- The last entry of `a ∷ xs`.
abbrev pub last : ℕ → List ℕ → ℕ
last a [] = a
last a (x ∷ xs) = last x xs

pub has-append : (a : ℕ) (xs ys : List ℕ) → has a (xs ++ ys) ≡ (has a xs || has a ys)
has-append a [] ys = refl
has-append a (x ∷ xs) ys = ground (arith, has-append a xs ys)

pub last-append : (a x : ℕ) (xs ys : List ℕ) → last a (xs ++ x ∷ ys) ≡ last x ys
last-append a x [] ys = refl
last-append a x (y ∷ xs) ys = last-append y x xs ys

pub has-last : (a : ℕ) (xs : List ℕ) → has (last a xs) (a ∷ xs) ≡ true
has-last a [] = ground arith
has-last a (x ∷ xs) = ground (arith, has-last x xs)

pub ne-last : (a x : ℕ) (xs : List ℕ) → has a (x ∷ xs) ≡ false → a ≢ last x xs
ne-last a x xs out e = ground (arith, has-last x xs)

pub has-mid : (x : ℕ) (xs ys : List ℕ) → has x (xs ++ x ∷ ys) ≡ true
has-mid x xs ys = ground (arith, has-append x xs (x ∷ ys))

-- An entry splits the list, and `erase` takes it out there.
pub has-split :
    (a : ℕ) (xs : List ℕ)
    → has a xs ≡ true
    → (front back : List ℕ) × (xs ≡ front ++ a ∷ back) × (erase a xs ≡ front ++ back)
has-split a [] h = absurd (cc)
has-split a (x ∷ xs) h = elim (Bool-cases (a == x)) [
  | inl e ↦ ([], xs, ap (λ y. y ∷ xs) (omega (arith, ==→eq a x)), rw e)
  | inr ne ↦
      let (front, back, e, f) = has-split a xs (rw (ne) at h) in
      (x ∷ front, back, ap (λ l. x ∷ l) e, rw ne (ap (λ l. x ∷ l) f))
]

pub erase-append : (a : ℕ) (xs ys : List ℕ) → has a xs ≡ false → erase a (xs ++ a ∷ ys) ≡ xs ++ ys
erase-append a [] ys h = ground arith
erase-append a (x ∷ xs) ys h = ground (arith, erase-append a xs ys)

pub Distinct-split :
    (x : ℕ) (xs ys : List ℕ)
    → Distinct (xs ++ x ∷ ys)
    → (has x xs ≡ false) × (has x ys ≡ false) × Distinct (xs ++ ys)
Distinct-split x [] ys d = (refl, d.0, d.1)
Distinct-split x (y ∷ xs) ys d =
    let (p, q, r) = Distinct-split x xs ys d.1 in
    ground (arith, has-append y xs (x ∷ ys), has-append y xs ys)

pub Distinct-snoc : (x : ℕ) (xs : List ℕ) → Distinct xs → has x xs ≡ false → Distinct (xs ++ x ∷ [])
Distinct-snoc x [] d h = (refl, tt)
Distinct-snoc x (y ∷ xs) d h = ground (arith, has-append y xs (x ∷ []), Distinct-snoc x xs d.1)

pub Distinct-apart :
    (a : ℕ) (xs ys : List ℕ) → Distinct (xs ++ ys) → has a xs ≡ true → has a ys ≡ false
Distinct-apart a [] ys d h = absurd (cc)
Distinct-apart a (x ∷ xs) ys d h = elim (Bool-cases (a == x)) [
  | inl e ↦ ground (arith, ==→eq a x e, has-append x xs ys)
  | inr ne ↦ Distinct-apart a xs ys d.1 (ground arith)
]

pub Distinct-left : (xs ys : List ℕ) → Distinct (xs ++ ys) → Distinct xs
Distinct-left [] ys d = tt
Distinct-left (x ∷ xs) ys d = (ground (arith, has-append x xs ys), Distinct-left xs ys d.1)

pub Distinct-right : (xs ys : List ℕ) → Distinct (xs ++ ys) → Distinct ys
Distinct-right [] ys d = d
Distinct-right (x ∷ xs) ys d = Distinct-right xs ys d.1

pub erase-absent : (a : ℕ) (xs : List ℕ) → has a xs ≡ false → erase a xs ≡ xs
erase-absent a [] h = refl
erase-absent a (x ∷ xs) h = ground (arith, erase-absent a xs)

pub Distinct-insert :
    (x : ℕ) (xs ys : List ℕ)
    → Distinct (xs ++ ys)
    → has x xs ≡ false
    → has x ys ≡ false
    → Distinct (xs ++ x ∷ ys)
Distinct-insert x [] ys d h k = (k, d)
Distinct-insert x (y ∷ xs) ys d h k = (
  ground (arith, has-append y xs (x ∷ ys), has-append y xs ys),
  Distinct-insert x xs ys d.1 (ground arith) k,
)

pub has-erase : (x a : ℕ) (xs : List ℕ) → has x (erase a xs) ≡ true → has x xs ≡ true
has-erase x a [] h = h
has-erase x a (y ∷ xs) h = ground (arith, has-erase x a xs)

pub length-erase : (a : ℕ) (xs : List ℕ) → length (erase a xs) ≤ length xs
length-erase a [] = omega arith
length-erase a (x ∷ xs) = ground (arith, length-erase a xs)

pub cons_of : (xs : List ℕ) → xs ≢ [] → (x : ℕ) × (ys : List ℕ) × (xs ≡ x ∷ ys)
cons_of [] n = absurd (n refl)
cons_of (x ∷ xs) n = (x, xs, refl)

pub has_left : (x : ℕ) (xs ys : List ℕ) → has x xs ≡ true → has x (xs ++ ys) ≡ true
has_left x xs ys i = ground (arith, has-append x xs ys)

pub has_right : (x : ℕ) (xs ys : List ℕ) → has x ys ≡ true → has x (xs ++ ys) ≡ true
has_right x xs ys i = ground (arith, has-append x xs ys)

pub has_later : (x y : ℕ) (ys : List ℕ) → has x ys ≡ true → has x (y ∷ ys) ≡ true
has_later x y ys i = ground arith

pub has_less :
    (x : ℕ) (xs ys : List ℕ)
    → (has x xs ≡ true → has x ys ≡ true)
    → has x ys ≡ false
    → has x xs ≡ false
has_less x xs ys f o = elim (Bool-cases (has x xs)) [
  | inl y ↦ absurd (ground (arith, f y))
  | inr y ↦ y
]

pub has_other : (x p : ℕ) (xs : List ℕ) → has x xs ≡ true → has p xs ≡ false → (x == p) ≡ false
has_other x p xs i o = elim (Bool-cases (x == p)) [
  | inl e ↦ absurd (ground (arith, ==→eq x p e))
  | inr e ↦ e
]

pub has_rest :
    (x : ℕ) (xs ys : List ℕ) → has x xs ≡ false → has x (xs ++ ys) ≡ true → has x ys ≡ true
has_rest x xs ys o i = ground (arith, has-append x xs ys)

pub off_cons :
    (x y : ℕ) (ys : List ℕ) → (x == y) ≡ false → has x ys ≡ false → has x (y ∷ ys) ≡ false
off_cons x y ys n o = ground arith

pub erase-has :
    (x p : ℕ) (xs : List ℕ) → (x == p) ≡ false → has x xs ≡ true → has x (erase p xs) ≡ true
erase-has x p [] n i = i
erase-has x p (y ∷ xs) n i = ground (arith, erase-has x p xs n)

pub append_assoc : (xs ys zs : List ℕ) → (xs ++ ys) ++ zs ≡ xs ++ (ys ++ zs)
append_assoc [] ys zs = refl
append_assoc (x ∷ xs) ys zs = ap (λ (l : List ℕ). x ∷ l) (append_assoc xs ys zs)

pub append_nil : (xs : List ℕ) → xs ++ [] ≡ xs
append_nil [] = refl
append_nil (x ∷ xs) = ap (λ (l : List ℕ). x ∷ l) (append_nil xs)
