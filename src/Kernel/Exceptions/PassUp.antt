-- ===== src/Kernel/Exceptions/PassUp.antt =====
-- `PassUpOrDie` of kaya/phase2/exceptions.c, and the system calls that come to it.
use skara.Base.{
  ℕ, ◌<◌, ◌≤◌, ◌≡◌, refl, sym, subst, ◌≢◌, ◌⊎◌, inl, inr, Bool, true, false, ◌&&◌, arith, ◌==◌,
  Bool-cases, ==→eq, ==→ne, ne→==, ==-refl, update, leb, ltb,
}
use skara.Base.Word.{add}
use skara.Machine.{Ptr, null, Run, stop, loads}
use skara.Kernel.{Kernel, with_p_s, copy_state}
use skara.Kernel.Process.{terminate_process}
use skara.Kernel.Exceptions.{
  pass_up_or_die, in_vector, syscall_handler, dispatch_syscall, in_user_mode, syscall_old_area,
  program_trap_old_area, priviledged_instr, program_trap_handler,
}

-- The nucleus after the state at `area` is copied to `o`, and the one at `w` to the current process.
abbrev passed : Kernel → Ptr → Ptr → Ptr → Kernel
passed s area o w =
    let areas' = update s.areas o (copy_state (s.areas o) (s.areas area)) in
    with_p_s s.current_process (copy_state (s.asl.pcbs.p_s s.current_process) (areas' w))
      (record s { areas = areas' })

-- The run `r` passes an exception up, or terminates the current process: the state at `area` is the
-- one that met the exception.
abbrev pub PassesUp : Kernel → Ptr → ℕ → Run Kernel (Unit {0}) → Type 0
PassesUp s area type r =
    let p = s.current_process in
    let o = s.asl.pcbs.old_areas p type in
    let w = s.asl.pcbs.new_areas p type in
    (((o ≡ null) ⊎ (w ≡ null)) × (r ≡ terminate_process p s))
    ⊎ ((o ≢ null)
        × (w ≢ null)
        × ((u : Kernel) × (r ≡ stop (loads (u.areas w)) u)
            × (u.areas ≡ update s.areas o (copy_state (s.areas o) (s.areas area)))
            × (u.asl.pcbs.p_s p ≡ copy_state (s.asl.pcbs.p_s p) (u.areas w))))

module _ (s : Kernel) (area : Ptr) (type : ℕ) (an : area ≢ null) (known : type < 3)
    (pn : s.current_process ≢ null) where
  -- An exception of one of the three types is passed up when there is a current process and it has
  -- given both areas for the type: the state goes to the old area, and the state of the new area
  -- is saved in the block and loaded. Otherwise the current process is terminated.
  pub pass_up_or_die-PassesUp : PassesUp s area type (pass_up_or_die area type s)
  unfolding pass_up_or_die in_vector
  pass_up_or_die-PassesUp =
      let p = s.current_process in
      let o = s.asl.pcbs.old_areas p type in
      let w = s.asl.pcbs.new_areas p type in
      let t : ltb type 3 ≡ true = ground arith in
      let p' = ne→== p null pn in
      elim (Bool-cases (o == null)) [
        | inl y ↦ inl (inl (==→eq o null y), simp (t, p', y))
        | inr y ↦ elim (Bool-cases (w == null)) [
          | inl z ↦ inl (inr (==→eq w null z), simp (t, p', y, z))
          | inr z ↦ inr (
            ==→ne o null y,
            ==→ne w null z,
            (
              passed s area o w,
              simp (t, p', y, z, ne→== area null an),
              refl,
              ground (arith, ==-refl p),
            ),
          )
        ]
      ]

-- The nucleus after a privileged call from user mode is turned into a program trap: the trap's old
-- area holds the caller's state with the cause of a reserved instruction.
abbrev pub trapped : Kernel → Kernel
trapped s =
    let old = s.areas syscall_old_area in
    let before = s.areas program_trap_old_area in
    record s {
      areas =
          update s.areas program_trap_old_area
            (record (copy_state before old) { s_cause = priviledged_instr });
    }

-- And after the caller's pc is past the instruction of the call.
abbrev pub stepped : Kernel → Kernel
stepped s =
    let old = s.areas syscall_old_area in
    record s { areas = update s.areas syscall_old_area (record old { s_pc = add old.s_pc 4 }) }

-- The number of the call, in a0.
abbrev pub call_number : Kernel → ℕ
call_number s = (s.areas syscall_old_area).s_reg 3

no_call : (b : Bool) (n : ℕ) → (n ≡ 0) ⊎ (8 < n) → (b && leb 1 n && leb n 8) ≡ false
no_call b n other = ground arith

module _ (s : Kernel) (pn : s.current_process ≢ null) where
  -- System calls 1 to 8 that the current process makes in user mode are handled as program traps
  -- with the cause of a reserved instruction: passed up where the process has given the areas, and
  -- otherwise its end.
  pub syscall_handler-trapped :
      in_user_mode (s.areas syscall_old_area).s_status ≡ true
      → 1 ≤ call_number s
      → call_number s ≤ 8
      → PassesUp (trapped s) program_trap_old_area 1 (syscall_handler s)
  unfolding syscall_handler program_trap_handler
  syscall_handler-trapped user low high =
      let lo : leb 1 (call_number s) ≡ true = ground arith in
      let hi : leb (call_number s) 8 ≡ true = ground arith in
      let run : syscall_handler s ≡ pass_up_or_die program_trap_old_area 1 (trapped s) =
        simp (user, lo, hi) in
      subst (PassesUp (trapped s) program_trap_old_area 1) (sym run)
        (pass_up_or_die-PassesUp (trapped s) program_trap_old_area 1 (omega arith) (omega arith) pn)

  -- A system call of any other number than 1 to 8, in either mode, is passed up with the pc past
  -- the call where the current process has given the areas, and is otherwise its end.
  pub syscall_handler-stepped :
      (call_number s ≡ 0) ⊎ (8 < call_number s)
      → PassesUp (stepped s) syscall_old_area 2 (syscall_handler s)
  unfolding syscall_handler dispatch_syscall
  syscall_handler-stepped other =
      let n = call_number s in
      let run : syscall_handler s ≡ pass_up_or_die syscall_old_area 2 (stepped s) = simp (
        no_call (in_user_mode (s.areas syscall_old_area).s_status) n other,
        ne→== n 1 (ground arith),
        ne→== n 2 (ground arith),
        ne→== n 3 (ground arith),
        ne→== n 4 (ground arith),
        ne→== n 5 (ground arith),
        ne→== n 6 (ground arith),
        ne→== n 7 (ground arith),
        ne→== n 8 (ground arith),
      ) in
      subst (PassesUp (stepped s) syscall_old_area 2) (sym run)
        (pass_up_or_die-PassesUp (stepped s) syscall_old_area 2 (omega arith) (omega arith) pn)
