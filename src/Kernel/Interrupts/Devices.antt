-- ===== src/Kernel/Interrupts/Devices.antt =====
-- The device branch of `InterruptHandler` in kaya/phase2/interrupts.c.
use mathlib.Core.List.{append-nil}
use skara.Base.{
  ℕ, ◌<◌, ◌≡◌, refl, ap, subst, ◌≢◌, ◌⊎◌, inl, inr, Bool, true, false, List, [], ◌∷◌, ◌++◌, arith,
  ◌==◌, if◌then◌else◌, Bool-cases, ne→==, ==-refl, update,
}
use skara.Base.Word.{add, sub, is_nonpos}
use skara.Machine.{Ptr, null, ok, ProcState}
use skara.Asl.Shape.{Desc, waiting_at}
use skara.Asl.Unblock.Remove.{Removes, remove_blocked-IsAsl}
use skara.Kernel.{Kernel, with_p_s, with_v0}
use skara.Kernel.State.{IsNucleus, Removed-lem, make_ready-IsNucleus, readied}
use skara.Asl.Waiting.{IsAsl-pcbs, keep_waits}
use skara.Kernel.Semaphores.Verhogen.{front_of, rest_of}
use skara.Kernel.Interrupts.{serve_device, deliver, shown_status, acknowledged}

-- What the states of the blocks are when `xs` wait: the first is given the status.
abbrev pub with_status : ℕ → List Ptr → (Ptr → ProcState) → Ptr → ProcState
with_status v [] f = f
with_status v (x ∷ xs) f = update f x (with_v0 v (f x))

abbrev pub less_one : List Ptr → ℕ → ℕ
less_one [] c = c
less_one (x ∷ xs) c = sub c 1

-- The result of an interrupt of the device at `d` whose semaphore is `k`, where `xs` wait: `u` is the
-- nucleus if the semaphore's new value is not positive. Otherwise only the semaphore changes.
abbrev pub Serves : Kernel → Ptr → Ptr → Ptr → Ptr → Bool → List Desc → List Ptr → List Ptr → Type 0
Serves s h e k d transmits ds rs xs =
    let v = add (s.words k) 1 in
    ((is_nonpos v ≡ false)
      × (serve_device k d transmits s ≡ ok tt (record s { words = update s.words k v })))
    ⊎ ((is_nonpos v ≡ true)
        × ((u : Kernel) × (ds' : List Desc) × (fs' : List Ptr) × (serve_device k d transmits s
              ≡ ok tt u)
            × IsNucleus u.asl u.ready_q h e ds' fs' (rs ++ front_of xs)
            × ((j : Ptr) → waiting_at j ds' ≡ (if j == k then rest_of xs else waiting_at j ds))
            × (u.asl.pcbs.p_s
                ≡ with_status (shown_status transmits (s.devices d)) xs s.asl.pcbs.p_s)
            × (u.soft_block_count ≡ less_one xs s.soft_block_count)
            × (u.devices ≡ update s.devices d (acknowledged transmits (s.devices d)))
            × (u.words k ≡ v)))

module _ (s : Kernel) {h e : Ptr} {ds : List Desc} {fs rs : List Ptr} (k d : Ptr) (transmits : Bool)
    (n : IsNucleus s.asl s.ready_q h e ds fs rs) (kn : k < null) (dn : d ≢ null) where
  serve :
      (xs : List Ptr)
      → waiting_at k ds ≡ xs
      → is_nonpos (add (s.words k) 1) ≡ true
      → Serves s h e k d transmits ds rs xs
  unfolding serve_device deliver
  serve [] eq v =
      let run = subst (Removes s.asl h e k ds) eq (remove_blocked-IsAsl k n.waits kn) in
      inr (
        v,
        (
          record s {
            words = update s.words k (add (s.words k) 1);
            devices = update s.devices d (acknowledged transmits (s.devices d));
          },
          ds,
          fs,
          simp (ne→== k null (omega arith), ==-refl k, v, run, ne→== d null dn),
          rw (append-nil) n,
          keep_waits k ds [] eq,
          refl,
          refl,
          refl,
          ground (arith, ==-refl k),
        ),
      )
  serve (x ∷ xs) eq v =
      let w = update s.words k (add (s.words k) 1) in
      let s1 : Kernel = record s { words = w } in
      let (a, ds', fs', r) = Removed-lem s1 k x xs n kn eq in
      let status = shown_status transmits (s.devices d) in
      let s2 : Kernel =
        record (with_p_s x (with_v0 status (a.pcbs.p_s x)) (record s1 { asl = a })) {
          soft_block_count = sub s.soft_block_count 1;
        } in
      let n2 : IsNucleus s2.asl s2.ready_q h e ds' fs' rs = record {
        waits = IsAsl-pcbs s2.asl.pcbs r.nucleus.waits (λ y j i. (refl, refl)) λ y j i. refl;
        ready = r.nucleus.ready;
        apart = r.nucleus.apart;
      } in
      let (l, ready, n3, same) = make_ready-IsNucleus s2 x n2 r.address r.running r.idle in
      inr (
        v,
        (
          record (readied s2 l x) {
            devices = update s.devices d (acknowledged transmits (s.devices d));
          },
          ds',
          fs',
          simp (
            ne→== k null (omega arith),
            ==-refl k,
            v,
            r.removed,
            ne→== x null r.address,
            ready,
            ne→== d null dn,
          ),
          n3,
          r.waits,
          ap (λ (f : Ptr → ProcState). update f x (with_v0 status (f x))) r.states,
          refl,
          refl,
          ground (arith, ==-refl k),
        ),
      )

  -- With well-formed queues an interrupt of a device adds one to its semaphore. When the new value
  -- is not positive the device is acknowledged, and the block that has waited longest, if there is
  -- one, becomes the last of the ready queue with the device's status in its v0, and the
  -- soft-block count is one less. Otherwise nothing else happens: the interrupt is not
  -- acknowledged.
  pub serve_device-Serves : Serves s h e k d transmits ds rs (waiting_at k ds)
  unfolding serve_device
  serve_device-Serves = elim (Bool-cases (is_nonpos (add (s.words k) 1))) [
    | inl v ↦ serve (waiting_at k ds) refl v
    | inr v ↦ inl (v, simp (ne→== k null (omega arith), ==-refl k, v))
  ]
