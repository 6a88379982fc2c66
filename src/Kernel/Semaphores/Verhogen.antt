-- ===== src/Kernel/Semaphores/Verhogen.antt =====
-- SYS3, `Verhogen` of kaya/phase2/exceptions.c.
use mathlib.Core.List.{append-nil}
use skara.Base.{
  ◌<◌, ◌≡◌, refl, subst, ◌≢◌, inl, inr, true, false, List, [], ◌∷◌, ◌++◌, arith, ◌==◌,
  if◌then◌else◌, Bool-cases, ne→==, ==-refl, update,
}
use skara.Base.Word.{add, is_nonpos}
use skara.Machine.{Ptr, null, stop, loads}
use skara.Asl.Shape.{Desc, waiting_at}
use skara.Asl.Unblock.Remove.{Removes, remove_blocked-IsAsl}
use skara.Kernel.{Kernel}
use skara.Kernel.State.{IsNucleus, Woken-lem, readied}
use skara.Asl.Waiting.{keep_waits}
use skara.Kernel.Semaphores.{verhogen}

-- The first entry of a list, and the others.
abbrev pub front_of : List Ptr → List Ptr
front_of [] = []
front_of (x ∷ xs) = x ∷ []

abbrev pub rest_of : List Ptr → List Ptr
rest_of [] = []
rest_of (x ∷ xs) = xs

-- The run of a V by a block whose state is at `a`, when `xs` wait and the semaphore becomes `v`: the
-- caller goes on, and one block wakes if the new value is not positive.
abbrev pub Signals : Kernel → Ptr → Ptr → Ptr → Ptr → List Desc → List Ptr → List Ptr → Type 0
Signals s a h e k ds rs xs =
    let v = add (s.words k) 1 in
    (u : Kernel) × (ds' : List Desc) × (fs' : List Ptr) × (verhogen a k s
      ≡ stop (loads (s.areas a)) u)
    × (u.words ≡ update s.words k v)
    × IsNucleus u.asl u.ready_q h e ds' fs' (rs ++ (if is_nonpos v then front_of xs else []))
    × ((j : Ptr)
        → waiting_at j ds'
          ≡ (if j == k then (if is_nonpos v then rest_of xs else xs) else waiting_at j ds))

module _ (s : Kernel) {h e : Ptr} {ds : List Desc} {fs rs : List Ptr} (a k : Ptr)
    (n : IsNucleus s.asl s.ready_q h e ds fs rs) (an : a ≢ null) (kn : k < null) where
  signal_quiet :
      (xs : List Ptr)
      → waiting_at k ds ≡ xs
      → is_nonpos (add (s.words k) 1) ≡ false
      → Signals s a h e k ds rs xs
  unfolding verhogen
  signal_quiet xs eq v = (
    record s { words = update s.words k (add (s.words k) 1) },
    ds,
    fs,
    simp (ne→== k null (omega arith), ==-refl k, v, ne→== a null an),
    refl,
    rw (v) (rw (append-nil) n),
    rw (v) (keep_waits k ds xs eq),
  )

  signal :
      (xs : List Ptr)
      → waiting_at k ds ≡ xs
      → is_nonpos (add (s.words k) 1) ≡ true
      → Signals s a h e k ds rs xs
  unfolding verhogen
  signal [] eq v =
      let run = subst (Removes s.asl h e k ds) eq (remove_blocked-IsAsl k n.waits kn) in
      (
        record s { words = update s.words k (add (s.words k) 1) },
        ds,
        fs,
        simp (ne→== k null (omega arith), ==-refl k, v, run, ne→== a null an),
        refl,
        rw (v) (rw (append-nil) n),
        rw (v) (keep_waits k ds [] eq),
      )
  signal (x ∷ xs) eq v =
      let s1 : Kernel = record s { words = update s.words k (add (s.words k) 1) } in
      let (b, l, ds', fs', w) = Woken-lem s1 k x xs n kn eq in
      (
        readied (record s1 { asl = b }) l x,
        ds',
        fs',
        simp (
          ne→== k null (omega arith),
          ==-refl k,
          v,
          w.removed,
          ne→== x null w.address,
          w.queued,
          ne→== a null an,
        ),
        refl,
        rw (v) w.nucleus,
        rw (v) w.waits,
      )

  -- With well-formed queues and a semaphore below `NULL`, `Verhogen` adds one to the semaphore, changes no other, and
  -- goes on with the caller's state. When the new value is not positive the block that has waited
  -- longest there, if there is one, becomes the last of the ready queue; nothing else about who
  -- waits where changes.
  pub verhogen-Signals : Signals s a h e k ds rs (waiting_at k ds)
  verhogen-Signals = elim (Bool-cases (is_nonpos (add (s.words k) 1))) [
    | inl v ↦ signal (waiting_at k ds) refl v
    | inr v ↦ signal_quiet (waiting_at k ds) refl v
  ]
