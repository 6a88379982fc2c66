-- ===== src/Support/Process.antt =====
-- The life of a user process: `uProcInit` of kaya/phase3/initProc.c and `UserSyscallHandler` of
-- kaya/phase3/sysSupport.c.
use skara.Base.{
  ℕ, suc, ◌+◌, ◌^◌, ◌<◌, ◌≤◌, ◌≡◌, ◌≢◌, refl, sym, ap, ◌∙◌, List, ◌∷◌, inl, inr, ◌==◌,
  if◌then◌else◌, Bool-cases, ne→==, update,
}
use mathlib.Core.Path.{transport}
use skara.Base.Word.{add}
use skara.Machine.{ProcState, ok, stop, loads, ends}
use skara.Kernel.{with_v0}
use skara.Support.{
  Support, Event, Layout, call, asid_of, backing_store, get_stack_page_addr, device_sema4,
}
use skara.Support.Start.{
  u_proc_init, set_up_handlers, entry_state, support_status, support_vm_status, user_status,
}
use skara.Support.Fault.{called}
use skara.Support.Tape.{Copies, copies-same, reread, read_tape-Copies, commands_of, written}
use skara.Support.Calls.{user_syscall_handler, dispatch_user_call, user_terminate}
use skara.Support.Terminal.{sent}
use skara.Support.Print.{IsString, Transmits, answer_of, attempted, write_to_terminal-Prints}

-- One new area of the process set, and all three.
abbrev pub with_area : (ℕ → ℕ → ProcState) → ℕ → ℕ → ℕ → ℕ → ℕ → ProcState
with_area areas type pc status =
    update areas 0
      (update (areas 0) type (entry_state 1 pc (get_stack_page_addr 1 type) status (areas 0 type)))

abbrev pub three_areas : Support → ℕ → ℕ → ProcState
three_areas s =
    with_area
      (with_area (with_area s.new_areas 0 s.layout.user_tlb_handler support_status) 1
        s.layout.user_program_trap_handler support_vm_status)
      2 s.layout.user_syscall_handler support_vm_status

-- The state after the three SYS5s.
abbrev pub specified : Support → Support
specified s = record s {
  new_areas = three_areas s;
  devices = s.works (suc (suc s.made)) (s.works (suc s.made) (s.works s.made s.devices));
  made = suc (suc (suc s.made));
  log =
      call 5 2 (s.layout.old_areas 0 2) (s.layout.new_areas 0 2)
      ∷ call 5 1 (s.layout.old_areas 0 1) (s.layout.new_areas 0 1)
      ∷ call 5 0 (s.layout.old_areas 0 0) (s.layout.new_areas 0 0)
      ∷ s.log;
}

-- An area from which a handler starts: at `pc`, on the stack of its exception type.
pub record IsHandler (st : ProcState) (pc type status : ℕ) : Type 0 where
  pub starts : st.s_pc ≡ pc
  pub stack : st.s_reg 26 ≡ get_stack_page_addr 1 type
  pub who : asid_of st.s_asid ≡ 1
  pub how : st.s_status ≡ status

set_up_handlers-specified : (s : Support) → set_up_handlers 0 1 s ≡ ok tt (specified s)
unfolding set_up_handlers
set_up_handlers-specified s = refl

-- A process starts.
pub record Begins (s t : Support) (n : ℕ) : Type 0 where
  pub run :
      u_proc_init s
      ≡ stop (loads (entry_state 1 0x800000B0 0xC0000000 user_status s.initial_state)) t
  pub tlb : IsHandler (t.new_areas 0 0) t.layout.user_tlb_handler 0 support_status
  pub trap : IsHandler (t.new_areas 0 1) t.layout.user_program_trap_handler 1 support_vm_status
  pub call : IsHandler (t.new_areas 0 2) t.layout.user_syscall_handler 2 support_vm_status
  pub stored : commands_of backing_store t.log ≡ written 0 n (commands_of backing_store s.log)

-- If the tape's first read succeeds and the copying of the tape, a relation that follows the blocks
-- until the tape shows no further one or a read fails, takes `n` < 2^31 blocks, `uProcInit` of
-- process 1 ends by loading a state in user mode at 0x800000B0 with the stack at 0xC0000000. The
-- three new areas start the three handlers of the user level, each on a stack of its own and with
-- the process's number. The commands to the disk have written the blocks of the tape in order, the
-- blocks 0 to 30 to the cylinders of these numbers and every later one to cylinder 31, the place of
-- the stack page.
pub u_proc_init-Begins :
    (s t : Support) (n : ℕ)
    → asid_of s.entry_hi ≡ 1
    → s.answers (specified s).made ≡ 1
    → Copies 0 (reread (specified s)) n t
    → n < 2 ^ 31
    → Begins s t n
unfolding u_proc_init commands_of
u_proc_init-Begins s t n who read c l =
    let (run, stored) = read_tape-Copies (specified s) t n read c l in
    let same = copies-same 0 n (reread (specified s)) t c in
    let ends_well =
      ap
        (λ (x : Support).
          stop (loads (entry_state 1 0x800000B0 0xC0000000 user_status x.initial_state)) t)
        same in
    let areas = ap (λ (x : Support). x.new_areas) same in
    let at = ap (λ (x : Support). x.layout) same in
    record {
      run = simp (who) (simp (set_up_handlers-specified s) (simp (run) ends_well));
      tlb =
          transport (λ k. IsHandler (sym areas k 0 0) (sym at k).user_tlb_handler 0 support_status)
            (record { starts = refl; stack = refl; who = refl; how = refl });
      trap =
          transport
            (λ k.
              IsHandler (sym areas k 0 1) (sym at k).user_program_trap_handler 1 support_vm_status)
            (record { starts = refl; stack = refl; who = refl; how = refl });
      call =
          transport
            (λ k. IsHandler (sym areas k 0 2) (sym at k).user_syscall_handler 2 support_vm_status)
            (record { starts = refl; stack = refl; who = refl; how = refl });
      stored = stored;
    }

-- The state in which a call is served: the process will go on after the call.
abbrev pub moved_on : Support → Support
moved_on s =
    let old = s.old_areas 0 2 in
    record s {
      old_areas =
          update s.old_areas 0 (update (s.old_areas 0) 2 (record old { s_pc = add old.s_pc 4 }));
    }

user_syscall_handler-moved_on :
    (s : Support)
    → asid_of s.entry_hi ≡ 1
    → let r = (s.old_areas 0 2).s_reg in
      user_syscall_handler s ≡ dispatch_user_call 0 (r 3) (r 4) (r 5) (moved_on s)
unfolding user_syscall_handler
user_syscall_handler-moved_on s who = simp (who) refl

-- A SYS10 of the process on a legal address of a string of `n` characters and a length that is not
-- negative, whatever that length is, is answered: the handler ends by loading the state of the call
-- behind the call instruction, with `n` in v0 if the terminal transmits every character, and
-- otherwise with the negated status of the first character that it does not transmit. The
-- characters up to that one are sent once each and in order, between P and V of the terminal's
-- mutex.
pub user_syscall_handler-prints :
    (s : Support) (n : ℕ)
    → asid_of s.entry_hi ≡ 1
    → (s.old_areas 0 2).s_reg 3 ≡ 10
    → 0x8000_0000 ≤ (s.old_areas 0 2).s_reg 4
    → (s.old_areas 0 2).s_reg 5 < 2 ^ 31
    → IsString s.chars ((s.old_areas 0 2).s_reg 4) n
    → let old = s.old_areas 0 2 in
      (m : ℕ) × (w : Support) × Transmits (λ j. s.answers (suc s.made + j)) n m
      × (user_syscall_handler s
          ≡ stop
              (loads (
                with_v0
                  (answer_of (λ j. s.answers (suc s.made + j)) n m)
                  (record old { s_pc = add old.s_pc 4 })))
              w)
      × (w.log
          ≡ call 3 (device_sema4 s.layout 7 0) 0 0
            ∷ sent s.chars 0
                (old.s_reg 4)
                (attempted n m)
                (call 4 (device_sema4 s.layout 7 0) 0 0 ∷ s.log))
unfolding dispatch_user_call
user_syscall_handler-prints s n who number legal short string =
    let r = (s.old_areas 0 2).s_reg in
    let (m, w, p) = write_to_terminal-Prints (moved_on s) 0 (r 4) (r 5) n legal short string in
    (m, w, p.transmitted, user_syscall_handler-moved_on s who ∙ simp (number) p.run, p.events)

-- The other calls that end the process.
abbrev pub end_calls : Layout → ℕ → List Event → List Event
end_calls at number log =
    if number == 18 then call 2 0 0 0 ∷ call 3 at.master_sema4 0 0 ∷ log else call 18 0 0 0 ∷ log

-- A user call whose number is not 9, 10, 16 or 17 ends the process: SYS18 by a V of the master
-- semaphore and then a SYS2, any other number by a SYS18.
pub user_syscall_handler-ends :
    (s : Support)
    → asid_of s.entry_hi ≡ 1
    → (s.old_areas 0 2).s_reg 3 ≢ 9
    → (s.old_areas 0 2).s_reg 3 ≢ 10
    → (s.old_areas 0 2).s_reg 3 ≢ 16
    → (s.old_areas 0 2).s_reg 3 ≢ 17
    → (w : Support) × (user_syscall_handler s ≡ stop ends w)
      × (w.log ≡ end_calls s.layout ((s.old_areas 0 2).s_reg 3) s.log)
unfolding dispatch_user_call user_terminate
user_syscall_handler-ends s who a b c d =
    let r = (s.old_areas 0 2).s_reg in
    let first = user_syscall_handler-moved_on s who in
    elim (Bool-cases (r 3 == 18)) [
      | inl e ↦ (
        called (called (moved_on s) 3 s.layout.master_sema4) 2 0,
        first
            ∙ simp (ne→== (r 3) 9 a, ne→== (r 3) 10 b, ne→== (r 3) 16 c, ne→== (r 3) 17 d, e) refl,
        rw (e) refl,
      )
      | inr e ↦ (
        called (moved_on s) 18 0,
        first
            ∙ simp (ne→== (r 3) 9 a, ne→== (r 3) 10 b, ne→== (r 3) 16 c, ne→== (r 3) 17 d, e) refl,
        rw (e) refl,
      )
    ]
