-- ===== src/Support/Print.antt =====
-- A whole SYS10: `WriteToTerminal` of kaya/phase3/sysSupport.c.
use skara.Base.{
  ℕ, zero, suc, ◌+◌, ◌-◌, ◌^◌, ◌%◌, ◌<◌, ◌≤◌, ◌≡◌, ◌≢◌, refl, sym, ap, ◌∙◌, List, ◌∷◌, subst, true,
  false, inl, inr, arith, ◌==◌, ◌||◌, if◌then◌else◌, Bool-cases, ltb, ◌⊎◌, eq→==, ==→eq, ==→ne,
}
use skara.Base.Word.{word_mod, sub, is_neg}
use skara.Machine.{Ptr, stop, loads}
use skara.Kernel.{with_v0}
use skara.Support.{Support, Event, call, device_sema4}
use skara.Support.Fault.{called}
use skara.Support.Calls.{write_chars, write_to_terminal}
use skara.Support.Terminal.{
  sent, sent-snoc, all_typed, all_typed-same, same_args, write_chars-end, write_chars-failure,
  write_chars-rounds,
}

-- `c` is the address of a string of `n` characters.
pub record IsString (chars : Ptr → ℕ) (c n : ℕ) : Type 0 where
  pub before : (j : ℕ) → j < n → chars (c + j) ≢ 0
  pub at_end : chars (c + n) ≡ 0
  pub in_memory : c + n < word_mod

-- How far the terminal gets: `m` of `n` characters are transmitted, all of them or those before the
-- first failure.
abbrev pub Transmits : (ℕ → ℕ) → ℕ → ℕ → Type 0
Transmits answers n m =
    ((j : ℕ) → j < m → answers j % 0x100 ≡ 5) × ((m ≡ n) ⊎ ((m < n) × (answers m % 0x100 ≢ 5)))

transmits : (answers : ℕ → ℕ) (n : ℕ) → (m : ℕ) × Transmits answers n m
transmits answers zero = (0, ((λ j l. absurd (omega arith)), inl refl))
transmits answers (suc n) =
    let (m, (good, e)) = transmits answers n in
    elim e [
      | inr (l, bad) ↦ (m, (good, inr (omega arith, bad)))
      | inl d ↦ elim (Bool-cases (answers m % 0x100 == 5)) [
        | inl y ↦ (
          suc m,
          (
            (λ j l. elim (Bool-cases (j == m)) [
              | inl q ↦
                  subst (λ (x : ℕ). answers x % 0x100 ≡ 5) (sym (==→eq j m q))
                    (==→eq (answers m % 0x100) 5 y)
              | inr q ↦ good j (ground arith)
            ]),
            inl (omega (arith, d)),
          ),
        )
        | inr y ↦ (m, (good, inr (omega (arith, d), ==→ne (answers m % 0x100) 5 y)))
      ]
    ]

-- What the call gives back, and what it has the machine do.
abbrev pub answer_of : (ℕ → ℕ) → ℕ → ℕ → ℕ
answer_of answers n m = if m == n then n else sub 0 (answers m)

abbrev pub attempted : ℕ → ℕ → ℕ
attempted n m = if m == n then n else suc m

pub record Prints (s w : Support) (i c length n m : ℕ) : Type 0 where
  pub transmitted : Transmits (λ j. s.answers (suc s.made + j)) n m
  pub run :
      write_to_terminal i c length s
      ≡ stop (loads (with_v0 (answer_of (λ j. s.answers (suc s.made + j)) n m) (s.old_areas i 2))) w
  pub events :
      w.log
      ≡ call 3 (device_sema4 s.layout 7 i) 0 0
        ∷ sent s.chars i c (attempted n m) (call 4 (device_sema4 s.layout 7 i) 0 0 ∷ s.log)

prints_all :
    (s : Support) (i c n : ℕ)
    → IsString s.chars c n
    → ((j : ℕ) → j < n → s.answers (s.made + j) % 0x100 ≡ 5)
    → (w : Support) × (write_chars word_mod i c 0 s ≡ stop (loads (with_v0 n (s.old_areas i 2))) w)
      × (w.log ≡ call 3 (device_sema4 s.layout 7 i) 0 0 ∷ sent s.chars i c n s.log)
prints_all s i c n h good =
    let t : Support = all_typed i c n s in
    let fuel = word_mod - n - 1 in
    let in_memory = h.in_memory in
    let same = all_typed-same i c n s in
    let ended =
      same_args i s word_mod (n + suc fuel) c c 0 0 (omega arith) refl refl
      ∙ write_chars-rounds n (suc fuel) i c 0 s (omega arith) (omega arith) h.before good
      ∙ same_args i t (suc fuel) (suc fuel) (c + n) (c + n) (0 + n) n refl refl (omega arith) in
    let u : Support = record s {
      devices = t.devices;
      status = t.status;
      made = s.made + n;
      log = sent s.chars i c n s.log;
    } in
    (
      _,
      ended
          ∙ ap (λ (x : Support). write_chars (suc fuel) i (c + n) n x) same
          ∙ write_chars-end fuel i (c + n) n u h.at_end,
      refl,
    )

prints_some :
    (s : Support) (i c n m : ℕ)
    → IsString s.chars c n
    → m < n
    → ((j : ℕ) → j < m → s.answers (s.made + j) % 0x100 ≡ 5)
    → s.answers (s.made + m) % 0x100 ≢ 5
    → (w : Support) × (write_chars word_mod i c 0 s
        ≡ stop (loads (with_v0 (sub 0 (s.answers (s.made + m))) (s.old_areas i 2))) w)
      × (w.log ≡ call 3 (device_sema4 s.layout 7 i) 0 0 ∷ sent s.chars i c (suc m) s.log)
prints_some s i c n m h l good bad =
    let t : Support = all_typed i c m s in
    let fuel = word_mod - m - 1 in
    let in_memory = h.in_memory in
    let same = all_typed-same i c m s in
    let ended =
      same_args i s word_mod (m + suc fuel) c c 0 0 (omega arith) refl refl
      ∙ write_chars-rounds m (suc fuel) i c 0 s (omega arith) (omega arith)
          (λ j k. h.before j (omega arith)) good in
    let u : Support = record s {
      devices = t.devices;
      status = t.status;
      made = s.made + m;
      log = sent s.chars i c m s.log;
    } in
    (
      _,
      ended
          ∙ ap (λ (x : Support). write_chars (suc fuel) i (c + m) (0 + m) x) same
          ∙ write_chars-failure fuel i (c + m) (0 + m) u (h.before m l) bad,
      ap (λ (x : List Event). call 3 (device_sema4 s.layout 7 i) 0 0 ∷ x)
          (sym (sent-snoc s.chars i c m s.log)),
    )

-- SYS10 on a legal address of a string and a length that is not negative: so many characters as the
-- terminal transmits, and one more that it does not, are sent, and v0 tells which case it was.
pub write_to_terminal-Prints :
    (s : Support) (i c length n : ℕ)
    → 0x8000_0000 ≤ c
    → length < 2 ^ 31
    → IsString s.chars c n
    → (m : ℕ) × (w : Support) × Prints s w i c length n m
unfolding write_to_terminal
write_to_terminal-Prints s i c length n a b h =
    let (m, (good, e)) = transmits (λ j. s.answers (suc s.made + j)) n in
    let s1 = called s 4 (device_sema4 s.layout 7 i) in
    let legal : (ltb c 0x8000_0000 || is_neg length) ≡ false = ground arith in
    elim e [
      | inl d ↦
          (let (w, run, events) = prints_all s1 i c n h (λ j l. good j (omega (arith, d))) in
            let same : (m == n) ≡ true = eq→== m n d in
            (
              m,
              w,
              record {
                transmitted = (good, inl d);
                run = simp (legal, same) run;
                events = rw (same) events;
              },
            ))
      | inr (l, bad) ↦
          (let (w, run, events) = prints_some s1 i c n m h l good bad in
            let other : (m == n) ≡ false = ground (arith, l) in
            (
              m,
              w,
              record {
                transmitted = (good, inr (l, bad));
                run = simp (legal, other) run;
                events = rw (other) events;
              },
            ))
    ]
