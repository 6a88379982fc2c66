-- ===== src/Kernel/Exceptions/Vector.antt =====
-- SYS5, `ExceptionStateVec` of kaya/phase2/exceptions.c.
use skara.Base.{
  ℕ, ◌<◌, ◌≤◌, ◌≡◌, refl, ◌≢◌, ◌⊎◌, inl, inr, arith, ◌==◌, Bool-cases, ==→eq, ==→ne, ne→==, update,
  ltb,
}
use skara.Machine.{Ptr, null, fault, stop, loads}
use skara.Kernel.{Kernel}
use skara.Kernel.Process.{terminate_process}
use skara.Kernel.Exceptions.{with_old_area, with_new_area, exception_state_vec, in_vector}

-- The outcome of a call for an exception type: the current process has given no area for it yet, or it
-- has, or the type is none of the three.
abbrev pub Specifies : Kernel → Ptr → ℕ → Ptr → Ptr → Type 0
Specifies s a type old new =
    let p = s.current_process in
    let o = s.asl.pcbs.old_areas p in
    let w = s.asl.pcbs.new_areas p in
    let run = exception_state_vec a type old new s in
    ((type < 3)
      × (o type ≡ null)
      × (w type ≡ null)
      × ((u : Kernel) × (run ≡ stop (loads (s.areas a)) u)
          × (u.asl.pcbs.old_areas ≡ update s.asl.pcbs.old_areas p (update o type old))
          × (u.asl.pcbs.new_areas ≡ update s.asl.pcbs.new_areas p (update w type new))))
    ⊎ ((type < 3) × ((o type ≢ null) ⊎ (w type ≢ null)) × (run ≡ terminate_process p s))
    ⊎ ((3 ≤ type) × (run ≡ fault))

module _ (s : Kernel) (a : Ptr) (an : a ≢ null) (pn : s.current_process ≢ null) where
  -- Where there is a current process, its first call for one of the three exception types sets both areas and goes
  -- on with the caller's state. Where one of the areas is set already the process is terminated. For any
  -- other type the code indexes its arrays out of bounds.
  pub exception_state_vec-Specifies : (type : ℕ) (old new : Ptr) → Specifies s a type old new
  unfolding exception_state_vec in_vector
  exception_state_vec-Specifies type old new =
      let p = s.current_process in
      let o = s.asl.pcbs.old_areas p type in
      let w = s.asl.pcbs.new_areas p type in
      let p' = ne→== p null pn in
      elim (Bool-cases (ltb type 3)) [
        | inl t ↦ elim (Bool-cases (o == null)) [
          | inl y ↦ elim (Bool-cases (w == null)) [
            | inl z ↦ inl (
              ground arith,
              ==→eq o null y,
              ==→eq w null z,
              (
                with_new_area p type new (with_old_area p type old s),
                simp (t, p', y, z, ne→== a null an),
                refl,
                refl,
              ),
            )
            | inr z ↦ inr (inl (ground arith, inr (==→ne w null z), simp (t, p', y, z)))
          ]
          | inr y ↦ inr (inl (ground arith, inl (==→ne o null y), simp (t, p', y)))
        ]
        | inr t ↦ inr (inr (ground arith, simp (t)))
      ]
