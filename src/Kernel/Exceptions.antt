-- ===== src/Kernel/Exceptions.antt =====
-- The exception handlers of kaya/phase2/exceptions.c.
pub mod PassUp
pub mod Vector
use skara.Base.{ℕ, ◌/◌, ◌%◌, ◌==◌, ◌&&◌, leb, ltb, if◌then◌else◌, Bool, true, false, update}
use skara.Base.Word.{add, sub}
use skara.Machine.{Ptr, null, Cmd, fault, pure, ◌>>=◌, ◌>>◌, get, read, write}
use skara.Pcb.Table.{num_exception_types}
use skara.Kernel.{
  Kernel, get_area, set_area, get_p_s, set_p_s, get_total_time, with_v0, copy_state, stck,
}
use skara.Kernel.Process.{create_process, terminate_process}
use skara.Kernel.Semaphores.{resume, verhogen, passeren, wait_for_clock, wait_for_io}

-- `p->oldAreas[type]` and `p->newAreas[type]`. An index past the arrays is a fault.
unfoldable pub in_vector : {A : Type 0} → ℕ → Cmd Kernel A → Cmd Kernel A
in_vector type m = if ltb type num_exception_types then m else λ _. fault

abbrev pub get_old_area : Ptr → ℕ → Cmd Kernel Ptr
get_old_area p type = in_vector type (read (λ s a. s.asl.pcbs.old_areas a type) p)

abbrev pub get_new_area : Ptr → ℕ → Cmd Kernel Ptr
get_new_area p type = in_vector type (read (λ s a. s.asl.pcbs.new_areas a type) p)

abbrev pub with_old_area : Ptr → ℕ → Ptr → Kernel → Kernel
with_old_area p type a s = record s {
  asl = record (s.asl) {
    pcbs = record (s.asl.pcbs) {
      old_areas = update s.asl.pcbs.old_areas p (update (s.asl.pcbs.old_areas p) type a);
    };
  };
}

abbrev pub with_new_area : Ptr → ℕ → Ptr → Kernel → Kernel
with_new_area p type a s = record s {
  asl = record (s.asl) {
    pcbs = record (s.asl.pcbs) {
      new_areas = update s.asl.pcbs.new_areas p (update (s.asl.pcbs.new_areas p) type a);
    };
  };
}

abbrev pub set_old_area : Ptr → ℕ → Ptr → Cmd Kernel (Unit {0})
set_old_area p type a = in_vector type (write (with_old_area p type a) p)

abbrev pub set_new_area : Ptr → ℕ → Ptr → Cmd Kernel (Unit {0})
set_new_area p type a = in_vector type (write (with_new_area p type a) p)

-- `ExceptionStateVec`, SYS5. `&&` reads the second area when the first one is `NULL`.
unfoldable pub exception_state_vec : Ptr → ℕ → Ptr → Ptr → Cmd Kernel (Unit {0})
exception_state_vec syscall_old type old_loc new_loc = do
  s ← get
  let p = s.current_process
  old ← get_old_area p type
  unset ← if old == null then (do new ← get_new_area p type; pure (new == null)) else pure false
  if unset
      then (do set_old_area p type old_loc; set_new_area p type new_loc; resume syscall_old)
      else terminate_process p

-- `GetCpuTime`, SYS6.
unfoldable pub get_cpu_time : Ptr → Cmd Kernel (Unit {0})
get_cpu_time syscall_old = do
  s ← get
  time ← get_total_time s.current_process
  end_time ← stck
  old ← get_area syscall_old
  set_area syscall_old (with_v0 (add time (sub end_time s.process_start_time)) old)
  resume syscall_old

-- `PassUpOrDie`. `||` reads the second area when the first one is not `NULL`.
unfoldable pub pass_up_or_die : Ptr → ℕ → Cmd Kernel (Unit {0})
pass_up_or_die old_state type = do
  s ← get
  let p = s.current_process
  old_area ← get_old_area p type
  dies ← if old_area == null then pure true else (do new ← get_new_area p type; pure (new == null))
  if dies then terminate_process p else (do
    new_area ← get_new_area p type
    before ← get_area old_area
    old ← get_area old_state
    set_area old_area (copy_state before old)
    own ← get_p_s p
    new ← get_area new_area
    set_p_s p (copy_state own new)
    resume new_area)

abbrev pub syscall_old_area : Ptr
syscall_old_area = 0x20000348

abbrev pub program_trap_old_area : Ptr
program_trap_old_area = 0x20000230

abbrev pub tlb_management_old_area : Ptr
tlb_management_old_area = 0x20000118

-- PRIVILEDGEDINSTR.
abbrev pub priviledged_instr : ℕ
priviledged_instr = 0x28

-- `ProgramTrapHandler`, with PROGRAMTRAPEXCEPTION.
unfoldable pub program_trap_handler : Cmd Kernel (Unit {0})
program_trap_handler = pass_up_or_die program_trap_old_area 1

-- `TLBManagementHandler`, with TLBEXCEPTION.
unfoldable pub tlb_management_handler : Cmd Kernel (Unit {0})
tlb_management_handler = pass_up_or_die tlb_management_old_area 0

-- Whether `status & KERNELOFF` is not 0: KERNELOFF is 8.
abbrev pub in_user_mode : ℕ → Bool
in_user_mode status = (status / 8) % 2 == 1

-- The `switch` of `SyscallHandler`, on the argument registers.
unfoldable pub dispatch_syscall : ℕ → ℕ → ℕ → ℕ → Cmd Kernel (Unit {0})
dispatch_syscall a0 a1 a2 a3 = do
  s ← get
  if a0 == 1
      then create_process syscall_old_area a1
      else (if a0 == 2
          then terminate_process s.current_process
          else (if a0 == 3
              then verhogen syscall_old_area a1
              else (if a0 == 4
                  then passeren syscall_old_area a1
                  else (if a0 == 5
                      then exception_state_vec syscall_old_area a1 a2 a3
                      else (if a0 == 6
                          then get_cpu_time syscall_old_area
                          else (if a0 == 7
                              then wait_for_clock syscall_old_area
                              else (if a0 == 8
                                  then wait_for_io syscall_old_area a1 a2 a3
                                  else pass_up_or_die syscall_old_area 2)))))))

-- `SyscallHandler`: s_a0 to s_a3 are the registers 3 to 6.
unfoldable pub syscall_handler : Cmd Kernel (Unit {0})
syscall_handler = do
  old ← get_area syscall_old_area
  let a0 = old.s_reg 3
  if in_user_mode old.s_status && leb 1 a0 && leb a0 8
      then (do
        before ← get_area program_trap_old_area
        set_area program_trap_old_area
            (record (copy_state before old) { s_cause = priviledged_instr })
        program_trap_handler)
      else (do
        set_area syscall_old_area (record old { s_pc = add old.s_pc 4 })
        dispatch_syscall a0 (old.s_reg 4) (old.s_reg 5) (old.s_reg 6))
