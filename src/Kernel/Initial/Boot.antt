-- ===== src/Kernel/Initial/Boot.antt =====
-- `main` of kaya/phase2/initial.c.
use skara.Base.{ℕ, ◌*◌, ◌%◌, ◌<◌, ◌≡◌, List, [], ◌∷◌, update}
use skara.Base.Word.{word_mod, sub}
use skara.Machine.{Ptr, ProcState}
use skara.Pcb.Table.Free.{IsFree}
use skara.Kernel.{Kernel, semaphore_at}
use skara.Kernel.State.{IsNucleus}
use skara.Kernel.Initial.{Image, with_entry, ramtop, page_size, handler_status, first_status}

-- What holds when `main` comes to the scheduler: the block `p` is the only process and is ready, no
-- block waits, the blocks `xs` are free, and the semaphores are 0.
pub record Booted (image : Image) (s u : Kernel) (h e p : Ptr) (fs xs : List Ptr) : Type 0 where
  pub nucleus : IsNucleus u.asl u.ready_q h e [] fs (p ∷ [])
  pub free : IsFree u.asl.pcbs xs
  pub entry :
      ((u.asl.pcbs.p_s p).s_pc ≡ image.test_pc)
      × ((u.asl.pcbs.p_s p).s_reg 24 ≡ image.test_pc)
      × ((u.asl.pcbs.p_s p).s_reg 26 ≡ sub (ramtop image) page_size)
      × ((u.asl.pcbs.p_s p).s_status ≡ first_status)
  pub counts : (u.process_count ≡ 1) × (u.soft_block_count ≡ 0)
  pub zeros : (j : ℕ) → j < 49 → u.words (semaphore_at s.semaphore_array j) ≡ 0
  pub timer : u.interval_timer ≡ (100000 * s.time_scale) % word_mod
  pub handlers :
      ((u.areas 0x200003D4).s_pc ≡ image.syscall_handler_pc)
      × ((u.areas 0x200002BC).s_pc ≡ image.program_trap_handler_pc)
      × ((u.areas 0x200001A4).s_pc ≡ image.tlb_management_handler_pc)
      × ((u.areas 0x2000008C).s_pc ≡ image.interrupt_handler_pc)

-- The processor state areas that `main` writes.
abbrev booted_areas : Image → (Ptr → ProcState) → Ptr → ProcState
booted_areas image f =
    let top = ramtop image in
    let f1 =
      update f 0x200003D4 (with_entry image.syscall_handler_pc top handler_status (f 0x200003D4)) in
    let f2 =
      update f1 0x200002BC
        (with_entry image.program_trap_handler_pc top handler_status (f1 0x200002BC)) in
    let f3 =
      update f2 0x200001A4
        (with_entry image.tlb_management_handler_pc top handler_status (f2 0x200001A4)) in
    update f3 0x2000008C (with_entry image.interrupt_handler_pc top handler_status (f3 0x2000008C))
