-- ===== src/Support/Calls.antt =====
-- The system calls of the user level: kaya/phase3/sysSupport.c.
use skara.Base.{ℕ, zero, suc, ◌%◌, ◌==◌, ◌||◌, if◌then◌else◌, true, false, update, ltb}
use skara.Base.Word.{word_mod, add, sub, shl, is_neg, sdiv}
use skara.Machine.{ProcState, loads, Cmd, stop, fault, out_of_fuel, pure, ◌>>=◌, ◌>>◌, get, modify}
use skara.Kernel.{with_v0}
use skara.Kernel.Semaphores.{device_address}
use skara.Support.{
  Support, syscall, passeren, verhogen, user_exit, wait_for_io, allow_interrupts, asid_of, in_procs,
  device_sema4, set_transm_command,
}

-- The old area of the system calls, SYSCALLEXCEPTION, of the process with index `i`.
abbrev pub get_old : ℕ → Cmd Support ProcState
get_old i s = pure (s.old_areas i 2) s

abbrev pub set_old : ℕ → ProcState → Cmd Support (Unit {0})
set_old i st =
    modify (λ s. record s { old_areas = update s.old_areas i (update (s.old_areas i) 2 st) })

-- `LDST(syscallOld)`, with a result in v0.
abbrev pub return_value : ℕ → ℕ → Cmd Support (Unit {0})
return_value i v = do old ← get_old i; set_old i (with_v0 v old); old ← get_old i; stop (loads old)

-- The loop of `WriteToTerminal`: `s` is the next character's address and `n` the number transmitted.
-- TRANSMITCHAR is 2, CHARTRANSMITTED 5 and TERMINALLINE 7; the fields of the command do not overlap.
unfoldable pub write_chars : ℕ → ℕ → ℕ → ℕ → Cmd Support (Unit {0})
write_chars zero i c n = λ _. out_of_fuel
write_chars (suc fuel) i c n = do
  s ← get
  let mutex = device_sema4 s.layout 7 i
  if s.chars c == 0 then (do verhogen mutex; return_value i n) else (do
    allow_interrupts false
    set_transm_command (device_address 7 i) (add 2 (shl (s.chars c) 8))
    status ← wait_for_io 7 i
    allow_interrupts true
    if status % 0x100 == 5 then write_chars fuel i (add c 1) (add n 1) else (do
      old ← get_old i
      set_old i (with_v0 (sub 0 status) old)
      verhogen mutex
      old ← get_old i
      stop (loads old)))

-- `WriteToTerminal`, SYS10. The address is compared as unsigned, since LEGALADDRSTART is. The loop
-- does not look at the length. The fuel is the number of addresses.
unfoldable pub write_to_terminal : ℕ → ℕ → ℕ → Cmd Support (Unit {0})
write_to_terminal i source_addr length = do
  if ltb source_addr 0x8000_0000 || is_neg length then user_exit >> pure tt else pure tt
  s ← get
  passeren (device_sema4 s.layout 7 i)
  write_chars word_mod i source_addr 0

-- `GetTOD`, SYS17: STCK is signed division of the clock by the time scale.
unfoldable pub get_tod : ℕ → Cmd Support (Unit {0})
get_tod i = do
  s ← get
  if s.time_scale == 0 then (λ _. fault) else modify (λ s. record s { reads = suc s.reads })
  return_value i (sdiv (s.tod_lo s.reads) s.time_scale)

-- `UserTerminate`, SYS18.
unfoldable pub user_terminate : Cmd Support (Unit {0})
user_terminate = do s ← get; verhogen s.layout.master_sema4; syscall 2 0 0 0; pure tt

-- The `switch` of `UserSyscallHandler`. `ReadFromTerminal` and `WriteToPrinter` have empty bodies.
unfoldable pub dispatch_user_call : ℕ → ℕ → ℕ → ℕ → Cmd Support (Unit {0})
dispatch_user_call i a0 a1 a2 =
    if a0 == 9
    then pure tt
    else (if a0 == 10
        then write_to_terminal i a1 a2
        else (if a0 == 16
            then pure tt
            else (if a0 == 17
                then get_tod i
                else (if a0 == 18 then user_terminate else user_exit >> pure tt))))

-- `UserSyscallHandler`.
unfoldable pub user_syscall_handler : Cmd Support (Unit {0})
user_syscall_handler = do
  s ← get
  in_procs (asid_of s.entry_hi) λ i. do
    old ← get_old i
    set_old i (record old { s_pc = add old.s_pc 4 })
    dispatch_user_call i (old.s_reg 3) (old.s_reg 4) (old.s_reg 5)

-- `UserProgramTrapHandler`.
unfoldable pub user_program_trap_handler : Cmd Support (Unit {0})
user_program_trap_handler = user_exit >> pure tt
