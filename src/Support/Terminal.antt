-- ===== src/Support/Terminal.antt =====
-- `WriteToTerminal` of kaya/phase3/sysSupport.c.
use skara.Base.{
  ℕ, zero, suc, ◌+◌, ◌%◌, ◌<◌, ◌≡◌, ◌≢◌, refl, ap, ◌∙◌, List, ◌∷◌, subst, true, false, arith, ne→==,
  eq→==, update, ==-refl,
}
use skara.Base.Word.{word_mod, sub, add, shl, or_bit}
use skara.Machine.{Ptr, stop, loads}
use skara.Kernel.{with_v0}
use skara.Kernel.Semaphores.{device_address}
use skara.Support.{Support, Event, call, transmit, interrupts, allow_interrupts, device_sema4}
use skara.Support.Transfer.{or-drop}
use skara.Support.Fault.{called}
use skara.Support.Calls.{write_chars}

-- The events of sending the character at `c`.
abbrev pub one_sent : (Ptr → ℕ) → ℕ → ℕ → List Event → List Event
one_sent chars i c log =
    interrupts true
    ∷ call 8 7 i 0
    ∷ transmit (device_address 7 i) (add 2 (shl (chars c) 8))
    ∷ interrupts false
    ∷ log

-- The events of sending `n` characters from `c` on.
unfoldable pub sent : (Ptr → ℕ) → ℕ → ℕ → ℕ → List Event → List Event
sent chars i c zero log = log
sent chars i c (suc n) log = sent chars i (c + 1) n (one_sent chars i c log)

pub sent-snoc :
    (chars : Ptr → ℕ) (i c n : ℕ) (log : List Event)
    → sent chars i c (suc n) log ≡ one_sent chars i (c + n) (sent chars i c n log)
unfolding sent
sent-snoc chars i c zero log = ap (λ (x : ℕ). one_sent chars i x log) (omega arith)
sent-snoc chars i c (suc n) log =
    sent-snoc chars i (c + 1) n (one_sent chars i c log)
    ∙ ap (λ (x : ℕ). one_sent chars i x (sent chars i c (suc n) log)) (omega arith)

-- The state after one character.
abbrev pub typed : Support → ℕ → ℕ → Support
typed s i c =
    let a = device_address 7 i in
    let v = add 2 (shl (s.chars c) 8) in
    record s {
      devices = s.works s.made (update s.devices a (record (s.devices a) { d_data1 = v }));
      status = or_bit s.status 1;
      made = suc s.made;
      log = interrupts true ∷ call 8 7 i 0 ∷ transmit a v ∷ interrupts false ∷ s.log;
    }

unfoldable pub all_typed : ℕ → ℕ → ℕ → Support → Support
all_typed i c zero s = s
all_typed i c (suc n) s = all_typed i (c + 1) n (typed s i c)

pub all_typed-same :
    (i c n : ℕ) (s : Support)
    → let t = all_typed i c n s in
      t ≡ record s {
        devices = t.devices;
        status = t.status;
        made = s.made + n;
        log = sent s.chars i c n s.log;
      }
unfolding all_typed sent
all_typed-same i c zero s = ap (λ (m : ℕ). record s { made = m }) (omega arith)
all_typed-same i c (suc n) s =
    let t = all_typed i (c + 1) n (typed s i c) in
    all_typed-same i (c + 1) n (typed s i c)
    ∙ ap
        (λ (m : ℕ). record s {
          devices = t.devices;
          status = t.status;
          made = m;
          log = sent s.chars i c (suc n) s.log;
        })
        (omega arith)

-- One round of the loop.
write_chars-round :
    (fuel i c n : ℕ) (s : Support)
    → s.chars c ≢ 0
    → s.answers s.made % 0x100 ≡ 5
    → write_chars (suc fuel) i c n s ≡ write_chars fuel i (add c 1) (add n 1) (typed s i c)
unfolding write_chars allow_interrupts
write_chars-round fuel i c n s h g =
    simp (ne→== (s.chars c) 0 h)
      (simp (or-drop s.status, eq→== (s.answers s.made % 0x100) 5 g) refl)

pub write_chars-end :
    (fuel i c n : ℕ) (s : Support)
    → s.chars c ≡ 0
    → write_chars (suc fuel) i c n s
      ≡ stop
          (loads (with_v0 n (s.old_areas i 2)))
          (record (called s 3 (device_sema4 s.layout 7 i)) {
            old_areas =
                update s.old_areas i (update (s.old_areas i) 2 (with_v0 n (s.old_areas i 2)));
          })
unfolding write_chars
write_chars-end fuel i c n s h = simp (eq→== (s.chars c) 0 h) (rw (==-refl i) refl)

pub write_chars-failure :
    (fuel i c n : ℕ) (s : Support)
    → s.chars c ≢ 0
    → s.answers s.made % 0x100 ≢ 5
    → let v = with_v0 (sub 0 (s.answers s.made)) (s.old_areas i 2) in
      write_chars (suc fuel) i c n s
      ≡ stop (loads v) (record (called (typed s i c) 3 (device_sema4 s.layout 7 i)) {
        old_areas = update s.old_areas i (update (s.old_areas i) 2 v);
      })
unfolding write_chars allow_interrupts
write_chars-failure fuel i c n s h g =
    simp (ne→== (s.chars c) 0 h)
      (simp (or-drop s.status, ne→== (s.answers s.made % 0x100) 5 g) (rw (==-refl i) refl))

pub same_args :
    (i : ℕ) (s : Support) (f f' c c' n n' : ℕ)
    → f ≡ f'
    → c ≡ c'
    → n ≡ n'
    → write_chars f i c n s ≡ write_chars f' i c' n' s
same_args i s f f' c c' n n' d e g = λ k. write_chars (d k) i (e k) (g k) s

-- `m` rounds of the loop.
pub write_chars-rounds :
    (m fuel i c n : ℕ) (s : Support)
    → c + m < word_mod
    → n + m < word_mod
    → ((j : ℕ) → j < m → s.chars (c + j) ≢ 0)
    → ((j : ℕ) → j < m → s.answers (s.made + j) % 0x100 ≡ 5)
    → write_chars (m + fuel) i c n s ≡ write_chars fuel i (c + m) (n + m) (all_typed i c m s)
unfolding all_typed
write_chars-rounds zero fuel i c n s a b h g =
    same_args i s (0 + fuel) fuel c (c + 0) n (n + 0) (omega arith) (omega arith) (omega arith)
write_chars-rounds (suc m) fuel i c n s a b h g =
    let s1 = typed s i c in
    let good : s.answers s.made % 0x100 ≡ 5 =
      subst (λ (x : ℕ). s.answers x % 0x100 ≡ 5) (omega arith) (g 0 (omega arith)) in
    let some_char : s.chars c ≢ 0 =
      λ e. h 0 (omega arith) (subst (λ (x : ℕ). s.chars x ≡ 0) (omega arith) e) in
    same_args i s (suc m + fuel) (suc (m + fuel)) c c n n (omega arith) refl refl
    ∙ write_chars-round (m + fuel) i c n s some_char good
    ∙ same_args i s1 (m + fuel) (m + fuel) (add c 1) (c + 1) (add n 1) (n + 1) refl (omega arith)
        (omega arith)
    ∙ write_chars-rounds m fuel i (c + 1) (n + 1) s1 (omega arith) (omega arith)
        (λ j l e. h (suc j) (omega arith) (subst (λ (x : ℕ). s.chars x ≡ 0) (omega arith) e))
        (λ j l. subst (λ (x : ℕ). s.answers x % 0x100 ≡ 5) (omega arith) (g (suc j) (omega arith)))
    ∙ same_args i (all_typed i (c + 1) m s1) fuel fuel (c + 1 + m) (c + suc m) (n + 1 + m)
        (n + suc m) refl (omega arith) (omega arith)
