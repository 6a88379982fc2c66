-- ===== src/Kernel/Semaphores/Balance.antt =====
-- The values of semaphores against the processes that wait there, under SYS3 and SYS4 of
-- kaya/phase2/exceptions.c.
use skara.Base.{
  ℕ, ◌+◌, ◌-◌, ◌<◌, ◌≡◌, refl, sym, ap, subst, ◌∙◌, ◌≢◌, inl, inr, true, false, List, [], ◌∷◌, ◌++◌,
  arith, ◌==◌, if◌then◌else◌, Bool-cases, length, length-append, update, ne→==, ==-refl, ◌⊎◌,
}
use skara.Base.Word.{word_mod, add, sub, is_neg, is_nonpos}
use skara.Machine.{Ptr, null, stop, loads}
use skara.Pcb.Queue.{max_proc}
use skara.Asl.Shape.{Desc, waiting_at}
use skara.Kernel.{Kernel}
use skara.Kernel.State.{IsNucleus}
use skara.Kernel.Scheduler.{scheduler}
use skara.Asl.Waiting.{keep_waits}
use skara.Kernel.Semaphores.{passeren, verhogen}
use skara.Kernel.Semaphores.Passeren.{CanBlock, block_helper-Parked}
use skara.Kernel.Semaphores.Verhogen.{verhogen-Signals, rest_of}

-- How far a semaphore is below 0, read as an `int`.
abbrev pub deficit : ℕ → ℕ
deficit v = if is_neg v then word_mod - v else 0

-- As many blocks wait at a semaphore as it is below 0.
abbrev pub IsBalanced : (Ptr → ℕ) → List Desc → Type 0
IsBalanced words ds = (j : Ptr) → j < null → length (waiting_at j ds) ≡ deficit (words j)

-- A change at one semaphore.
IsBalanced-at :
    (words : Ptr → ℕ) (ds ds' : List Desc) (k v : ℕ) (xs : List Ptr)
    → IsBalanced words ds
    → ((j : Ptr) → waiting_at j ds' ≡ (if j == k then xs else waiting_at j ds))
    → length xs ≡ deficit v
    → IsBalanced (update words k v) ds'
IsBalanced-at words ds ds' k v xs b w l j jn =
    ap (λ (ys : List Ptr). length ys) (w j)
    ∙ elim (Bool-cases (j == k)) [ inl y ↦ rw (y) l | inr y ↦ rw (y) (b j jn) ]

-- Taking one, where it can be done without waiting and where it cannot, and giving one.
taken :
    (w n : ℕ)
    → w < word_mod
    → n ≡ deficit w
    → n < max_proc
    → is_neg (sub w 1) ≡ false
    → n ≡ deficit (sub w 1)
taken w n a e f v = ground arith

owed :
    (w n : ℕ)
    → w < word_mod
    → n ≡ deficit w
    → n < max_proc
    → is_neg (sub w 1) ≡ true
    → n + 1 ≡ deficit (sub w 1)
owed w n a e f v = ground arith

given :
    (w : ℕ) (xs : List Ptr)
    → w < word_mod
    → w ≢ 0x7FFF_FFFF
    → length xs ≡ deficit w
    → length (if is_nonpos (add w 1) then rest_of xs else xs) ≡ deficit (add w 1)
given w [] a m e = ground arith
given w (x ∷ xs) a m e = ground arith

module _ (s : Kernel) {h e : Ptr} {ds : List Desc} {fs rs : List Ptr} (a k : Ptr)
    (n : IsNucleus s.asl s.ready_q h e ds fs rs) (an : a ≢ null) (kn : k < null)
    (b : IsBalanced s.words ds) (word : s.words k < word_mod) where
  -- With well-formed queues, a current process that can block and a time scale that is not 0, if as
  -- many blocks wait at every semaphore as it is below 0, then this is so again, with well-formed queues,
  -- when `Passeren` on a semaphore goes on with its caller or comes to the scheduler, one of which it does.
  pub passeren-IsBalanced :
      CanBlock k s.current_process ds fs rs
      → s.time_scale ≢ 0
      → (u : Kernel) × (ds' : List Desc) × (fs' : List Ptr) × ((passeren a k s
            ≡ stop (loads (s.areas a)) u)
          ⊎ (passeren a k s ≡ scheduler u))
        × IsNucleus u.asl u.ready_q h e ds' fs' rs
        × IsBalanced u.words ds'
  unfolding passeren
  passeren-IsBalanced c sc =
      let w = s.words k in
      let s1 : Kernel = record s { words = update s.words k (sub w 1) } in
      let few = c.room in
      elim (Bool-cases (is_neg (sub w 1))) [
        | inl v ↦
            (let (u, ds', fs', run, p, _, same) =
                block_helper-Parked s1 a k s.current_process n an kn c sc in
              (
                u,
                ds',
                fs',
                inr (simp (ne→== k null (omega arith), ==-refl k, v, run)),
                p.nucleus,
                subst (λ (f : Ptr → ℕ). IsBalanced f ds') (sym same)
                    (IsBalanced-at s.words ds ds' k (sub w 1)
                      (waiting_at k ds ++ s.current_process ∷ []) b p.waits
                      (length-append (waiting_at k ds) (s.current_process ∷ [])
                        ∙ owed w (length (waiting_at k ds)) word (b k kn) few v)),
              ))
        | inr v ↦ (
          s1,
          ds,
          fs,
          inl (simp (ne→== k null (omega arith), ==-refl k, v, ne→== a null an)),
          n,
          IsBalanced-at s.words ds ds k (sub w 1) (waiting_at k ds) b
              (keep_waits k ds (waiting_at k ds) refl)
              (taken w (length (waiting_at k ds)) word (b k kn) few v),
        )
      ]

  -- With well-formed queues and a semaphore that is not the greatest `int`, if as many blocks wait at every
  -- semaphore as it is below 0, then this is so again, with well-formed queues, when `Verhogen` on that
  -- semaphore goes on with its caller, which it does.
  pub verhogen-IsBalanced :
      s.words k ≢ 0x7FFF_FFFF
      → (u : Kernel) × (ds' : List Desc) × (fs' : List Ptr) × (rs' : List Ptr) × (verhogen a k s
          ≡ stop (loads (s.areas a)) u)
        × IsNucleus u.asl u.ready_q h e ds' fs' rs'
        × IsBalanced u.words ds'
  verhogen-IsBalanced top =
      let w = s.words k in
      let xs = waiting_at k ds in
      let (u, ds', fs', run, same, nucleus, waits) = verhogen-Signals s a k n an kn in
      (
        u,
        ds',
        fs',
        _,
        run,
        nucleus,
        subst (λ (f : Ptr → ℕ). IsBalanced f ds') (sym same)
            (IsBalanced-at s.words ds ds' k (add w 1)
              (if is_nonpos (add w 1) then rest_of xs else xs) b waits
              (given w xs word top (b k kn))),
      )
