-- ===== src/Support/Tests.antt =====
-- The theorems on kaya/phase3 at concrete states of the user level.
mod Shared
use skara.Base.{
  ℕ, ◌+◌, ◌*◌, ◌%◌, ◌≤◌, ◌≡◌, ◌≢◌, refl, sym, ap, [], ◌∷◌, subst, false, inl, inr, arith, ◌==◌,
  if◌then◌else◌, Bool-cases, ltb, ne→==, ==→eq, ==→ne,
}
use skara.Base.Word.{has_bit, field}
use skara.Machine.{Ptr, ProcState, stop, loads, ends, fault}
use skara.Kernel.{Device, with_v0}
use skara.Support.{
  call, device_sema4, seek_command, block_command, get_cylinder_num, get_sector_num,
  get_tape_buffer_addr, get_disk_buffer_addr, get_stack_page_addr, PageTable, Support, Layout,
  kuseg2, page_size,
}
use skara.Support.Start.{test, unoccupied}
use skara.Support.Pager.{user_tlb_handler, valid_on, get_frame_addr}
use skara.Support.Residence.{
  IsResident, IsPage, Names, same_page, invalid, AreFrames, frames-AreFrames,
}
use skara.Support.Entries.{lo_at}
use skara.Support.Eviction.{addr_at, IsPool}
use skara.Support.Fault.{IsFault, called}
use skara.Support.Refuse.{user_tlb_handler-past}
use skara.Support.Begin.{AreApart, IsSetUp, test-IsSetUp}
use skara.Support.Terminal.{sent}
use skara.Support.Print.{IsString, Transmits, answer_of, attempted}
use skara.Support.Tape.{reread, stored, last, next}
use skara.Support.Process.{
  specified, Begins, u_proc_init-Begins, user_syscall_handler-prints, user_syscall_handler-ends,
}
use skara.Support.Calls.{user_syscall_handler}
use skara.Support.Places.{block_command-field, get_stack_page_addr_apart}
use skara.Support.Service.{Serves, user_tlb_handler-Serves}
use skara.Support.Reach.{IsFresh, fresh, served, fresh-IsPool, Paged-IsPool}

abbrev pub layout : Layout
layout = record {
  master_sema4 = 0x20008000;
  swapmutex = 0x20008004;
  device_sema4s = 0x20008008;
  initial_state = 0x20007F00;
  ksegos_pt = 0x20009000;
  kuseg3_pt = 0x20009400;
  kuseg2_pt = λ _. 0x20009800;
  old_areas = λ _ type. 0x2000A000 + type * 0x100;
  new_areas = λ _ type. 0x2000B000 + type * 0x100;
  u_proc_init = 0x20001000;
  user_tlb_handler = 0x20002000;
  user_program_trap_handler = 0x20003000;
  user_syscall_handler = 0x20004000;
  rambase = 0x20000000;
  ramsize = 0x100000;
}

abbrev device : Device
device = record { d_status = 1; d_command = 0; d_data0 = 0; d_data1 = 0 }

-- An area with an invalid load at page 7 of the process, or the SYS10 of a string.
abbrev pub blank : ProcState
blank = record { s_asid = 0x80007040; s_cause = 8; s_status = 0; s_pc = 0x80000100; s_reg = λ _. 0 }

abbrev asking : ℕ → ProcState
asking number = record blank {
  s_reg =
      λ r. if r == 3 then number else (if r == 4 then 0x80000200 else (if r == 5 then 2 else 0));
}

abbrev pub table : PageTable
table = record { header = 0; entries = λ _. record { entry_hi = 0; entry_lo = 0x400 } }

-- Before the first fault; the string is at 0x80000200.
abbrev pub quiet : Support
quiet = record {
  layout = layout;
  words = λ _. 0;
  chars = λ a. if a == 0x80000200 then 104 else (if a == 0x80000201 then 105 else 0);
  devices = λ _. device;
  tables = λ _. table;
  segments = λ _. record { ksegos = 0x20009000; kuseg2 = 0x20009800; kuseg3 = 0x20009400 };
  old_areas = λ _ _. blank;
  new_areas = λ _ _. blank;
  frames = λ _. record { asid = unoccupied; seg_num = 0; page_num = 0 };
  next_frame = 0;
  initial_state = blank;
  status = 0;
  entry_hi = 0x40;
  tod_lo = λ n. n;
  reads = 0;
  time_scale = 1;
  answers = λ n. if n == 2 then 4 else 5;
  works = λ _ d. d;
  made = 0;
  log = [];
}

frames-AreFrames_layout : AreFrames (addr_at layout)
frames-AreFrames_layout = frames-AreFrames quiet (omega arith) (omega arith) refl

quiet-IsFresh : IsFresh quiet
quiet-IsFresh = record {
  apart = λ e. absurd (omega (arith, e));
  not_null = λ e. absurd (omega (arith, e));
  one_table = refl;
  are_frames = frames-AreFrames_layout;
  empty = λ f l. refl;
  invalid = λ t q p. elim p.paged [
    | inl e ↦
        subst (λ (x : ℕ). has_bit (lo_at layout quiet.tables x q) valid_on ≡ false) (sym e) refl
    | inr e ↦
        subst (λ (x : ℕ). has_bit (lo_at layout quiet.tables x q) valid_on ≡ false) (sym e) refl
  ];
  counter = refl;
}

quiet-IsFault : IsFault quiet kuseg2 7
quiet-IsFault = record {
  who = refl;
  why = inl refl;
  faulting_segment = refl;
  faulting_page = refl;
  is_page = record { paged = inl refl; listed = omega arith };
  missing = refl;
  looked_up = λ e. refl;
}

-- The next frame, 1, is occupied by page 5 of a segment, whose table is at an address.
abbrev pub holding : ℕ → Ptr → Support
holding segment a = record quiet {
  tables = λ b.
      if b == a
      then record {
        header = 0;
        entries = λ q. record { entry_hi = 0; entry_lo = if q == 5 then 0x200F8600 else 0x400 };
      }
      else table;
  frames = λ f.
      if f == 1
      then record { asid = 1; seg_num = segment; page_num = 5 }
      else record { asid = unoccupied; seg_num = 0; page_num = 0 };
}

pub holding-IsPool :
    (segment : ℕ) (a : Ptr)
    → let lo = lo_at layout (holding segment a).tables in
      IsPage segment 5
      → Names (lo segment 5) (addr_at layout 1)
      → ((t q : ℕ) → IsPage t q → ¬ ((t ≡ segment) × (q ≡ 5)) → has_bit (lo t q) valid_on ≡ false)
      → IsPool layout 0x20009400 (holding segment a).tables (holding segment a).frames
holding-IsPool segment a page names others = record {
  apart = λ e. absurd (omega (arith, e));
  not_null = λ e. absurd (omega (arith, e));
  one_table = refl;
  are_frames = frames-AreFrames_layout;
  coherent = record {
    resident = λ f l. elim (Bool-cases (f == 1)) [
      | inl y ↦
          subst
            (λ (x : ℕ).
              IsResident (lo_at layout (holding segment a).tables) (addr_at layout x)
                ((holding segment a).frames x))
            (sym (==→eq f 1 y))
            (inr (record { asid = refl; seg_num = refl; page_num = refl }, page, names))
      | inr y ↦ rw (y) (inl refl)
    ];
    present = λ t q p v. elim (same_page t q segment 5) [
      | inl (e, d) ↦ (1, omega arith, record { asid = refl; seg_num = sym e; page_num = sym d })
      | inr n ↦ absurd (
          invalid (lo_at layout (holding segment a).tables t q)
            (lo_at layout (holding segment a).tables t q) refl v (others t q p n))
    ];
  };
}

pub holding-lo : (q : ℕ) → q ≢ 5 → let lo : ℕ = if q == 5 then 0x200F8600 else 0x400 in lo ≡ 0x400
holding-lo q n = rw (ne→== q 5 n) refl

abbrev full : Support
full = holding 2 0x20009800

full-IsPool : IsPool layout 0x20009400 full.tables full.frames
unfolding get_frame_addr
full-IsPool =
    holding-IsPool 2 0x20009800 (record { paged = inl refl; listed = omega arith })
      (record { valid = refl; frame = refl })
      λ t q p n. elim p.paged [
        | inr e ↦
            subst (λ (x : ℕ). has_bit (lo_at layout full.tables x q) valid_on ≡ false) (sym e) refl
        | inl e ↦
            subst (λ (x : ℕ). has_bit (lo_at layout full.tables x q) valid_on ≡ false) (sym e)
              (ap (λ (x : ℕ). has_bit x valid_on) (holding-lo q (λ d. n (e, d))))
      ]

user_tlb_handler-Serves_example : (w : Support) × Serves full w kuseg2 7
user_tlb_handler-Serves_example =
    user_tlb_handler-Serves full 2 7 (omega arith) full-IsPool (record {
      who = refl;
      why = inl refl;
      faulting_segment = refl;
      faulting_page = refl;
      is_page = record { paged = inl refl; listed = omega arith };
      missing = refl;
      looked_up = λ e. refl;
    })

-- Once page 7 has come in.
abbrev come : (w : Support) × Serves quiet w kuseg2 7
come =
    user_tlb_handler-Serves quiet 2 7 (omega arith) (fresh-IsPool quiet quiet-IsFresh) quiet-IsFault

Paged-IsPool_example :
    IsPool come.0.layout (come.0.segments 1).kuseg3 come.0.tables come.0.frames
    × (come.0.next_frame ≡ 1)
Paged-IsPool_example =
    Paged-IsPool 1 come.0
      (served 0 2 7 quiet come.0 come.0 (fresh quiet quiet-IsFresh) quiet-IsFault come.1.run
        (record { layout = refl; segments = refl; tables = refl; frames = refl; counter = refl }))
      (omega arith)

layout-AreApart : AreApart layout
layout-AreApart = record {
  not_null = λ e. absurd (omega (arith, e));
  os_shared = λ e. absurd (omega (arith, e));
  os_own = λ e. absurd (omega (arith, e));
  shared_own = λ e. absurd (omega (arith, e));
  master_swap = λ e. absurd (omega (arith, e));
  master_device = λ j l e. absurd (omega (arith, e));
  devices_fit = omega arith;
}

test-IsSetUp_example :
    (w : Support) × IsSetUp quiet w
    × ((others : Support → Support) → test others quiet ≡ stop ends (called (others w) 2 0))
test-IsSetUp_example = test-IsSetUp quiet layout-AreApart frames-AreFrames_layout refl

-- The fault of a stack page.
abbrev at_stack : Support
at_stack = record full { old_areas = λ _ _. record blank { s_asid = 0xBFFFF040 } }

user_tlb_handler-past_example : user_tlb_handler at_stack ≡ fault
user_tlb_handler-past_example =
    user_tlb_handler-past at_stack 0x3FFFF
      (record { who = refl; why = inl refl; faulting_segment = refl; faulting_page = refl })
      (omega arith) (omega arith) full-IsPool

-- The SYS10 of a string of two characters; the second is not transmitted.
abbrev printing : Support
printing = record quiet { old_areas = λ _ _. asking 10 }

printing-IsString : IsString printing.chars 0x80000200 2
printing-IsString = record {
  before = λ j l. elim (Bool-cases (j == 0)) [
    | inl y ↦
        subst (λ (x : ℕ). printing.chars (0x80000200 + x) ≢ 0) (sym (==→eq j 0 y))
          (λ e. absurd (omega (arith, e)))
    | inr y ↦
        subst (λ (x : ℕ). printing.chars (0x80000200 + x) ≢ 0) {x = 1} {y = j} (ground arith)
          (λ (e : printing.chars (0x80000200 + 1) ≡ 0). absurd (omega (arith, e)))
  ];
  at_end = refl;
  in_memory = omega arith;
}

user_syscall_handler-prints_example :
    (m : ℕ) × (w : Support) × Transmits (λ j. printing.answers (1 + j)) 2 m
    × (user_syscall_handler printing
        ≡ stop
            (loads (
              with_v0
                (answer_of (λ j. printing.answers (1 + j)) 2 m)
                (record (asking 10) { s_pc = 0x80000104 })))
            w)
    × (w.log
        ≡ call 3 (device_sema4 layout 7 0) 0 0
          ∷ sent printing.chars 0 0x80000200
              (attempted 2 m)
              (call 4 (device_sema4 layout 7 0) 0 0 ∷ []))
user_syscall_handler-prints_example =
    user_syscall_handler-prints printing 2 refl refl (omega arith) (omega arith) printing-IsString

abbrev leaving : Support
leaving = record quiet { old_areas = λ _ _. asking 18 }

user_syscall_handler-ends_example :
    (w : Support) × (user_syscall_handler leaving ≡ stop ends w)
    × (w.log ≡ call 2 0 0 0 ∷ call 3 0x20008000 0 0 ∷ [])
user_syscall_handler-ends_example =
    user_syscall_handler-ends leaving refl (λ e. absurd (omega (arith, e)))
      (λ e. absurd (omega (arith, e))) (λ e. absurd (omega (arith, e)))
      (λ e. absurd (omega (arith, e)))

-- A tape of two blocks.
abbrev taped : Support
taped = record quiet {
  answers = λ _. 1;
  works = λ n d a. record (d a) { d_data1 = if ltb n 8 then 2 else 0 };
}

abbrev first : Support
first = reread (specified taped)

u_proc_init-Begins_example : Begins taped (stored (reread (stored first 0)) 1) 2
u_proc_init-Begins_example =
    u_proc_init-Begins taped (stored (reread (stored first 0)) 1) 2 refl refl
      (next 0 1 first (stored (reread (stored first 0)) 1) refl refl
        (last 1 (reread (stored first 0)) (λ e. absurd (omega (arith, e)))))
      (omega arith)

block_command-field_example :
    let seek = seek_command (get_cylinder_num 5) in
    let block = block_command 4 (get_sector_num 1) 0 in
    (seek % 0x100 ≡ 2)
    × (field seek 8 16 ≡ 5)
    × (block % 0x100 ≡ 4)
    × (field block 8 8 + 1 ≡ 1)
    × (field block 16 8 ≡ 0)
block_command-field_example =
    block_command-field 4 5 1 0 (omega arith) (omega arith) (omega arith) (omega arith)
      (omega arith)

get_stack_page_addr_apart_example :
    (get_tape_buffer_addr 7 + page_size ≤ get_disk_buffer_addr 0)
    × (get_disk_buffer_addr 0 + page_size + page_size ≤ get_stack_page_addr 1 2)
    × (get_stack_page_addr 1 2 + page_size ≤ get_stack_page_addr 2 0)
get_stack_page_addr_apart_example =
    get_stack_page_addr_apart 7 0 1 2 2 0 (omega arith) (omega arith) (omega arith) (omega arith)
      (omega arith) (omega arith) (omega arith) (omega arith) (inl (omega arith))
