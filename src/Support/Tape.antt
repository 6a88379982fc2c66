-- ===== src/Support/Tape.antt =====
-- `readTape` of kaya/phase3/initProc.c.
use skara.Base.{
  ℕ, zero, suc, ◌^◌, ◌<◌, ◌≡◌, ◌≢◌, refl, List, [], ◌∷◌, true, false, arith, ◌==◌, if◌then◌else◌,
  ne→==, eq→==, update,
}
use skara.Base.Word.{or_bit}
use skara.Machine.{Ptr, ok}
use skara.Kernel.Semaphores.{device_address}
use skara.Support.{
  Support, Event, call, data0, command, transmit, tlb_clear, interrupts, kuseg2, backing_store,
  seek_command, block_command, get_cylinder_num, get_sector_num, get_tape_buffer_addr,
  allow_interrupts,
}
use skara.Support.Transfer.{or-drop, after_transfer, guarded_transfer-moved}
use skara.Support.Eviction.{head_two}
use skara.Support.Start.{read_block, read_blocks, read_tape}

-- The only process's tape and its buffer.
abbrev pub tape : Ptr
tape = device_address 4 0

abbrev pub buffer : ℕ
buffer = get_tape_buffer_addr 0

-- The state after a block has been read off the tape, and after one has been written.
abbrev pub reread : Support → Support
reread s =
    let d = update s.devices tape (record (s.devices tape) { d_data0 = buffer }) in
    let d = update d tape (record (d tape) { d_command = 3 }) in
    record s {
      devices = s.works s.made d;
      status = or_bit s.status 1;
      made = suc s.made;
      log =
          interrupts true
          ∷ call 8 4 0 0
          ∷ command tape 3
          ∷ data0 tape buffer
          ∷ interrupts false
          ∷ s.log;
    }

abbrev pub stored : Support → ℕ → Support
stored s i = after_transfer s 4 i 1 0 buffer

read_block-reread : (s : Support) → read_block tape 0 s ≡ ok (s.answers s.made) (reread s)
unfolding read_block allow_interrupts
read_block-reread s = simp (or-drop s.status)

-- The copying of a tape: in the state `s`, with a block in the buffer that is page `i`, `n` blocks are
-- written and the state is then `t`. A tape ends where it shows no further block, or where a read fails.
pub data Copies : ℕ → Support → ℕ → Support → Type 0 where
  last : (i : ℕ) (s : Support) → ((stored s i).devices tape).d_data1 ≢ 2 → Copies i s 1 (stored s i)
  failed :
      (i : ℕ) (s : Support)
      → ((stored s i).devices tape).d_data1 ≡ 2
      → (stored s i).answers (stored s i).made ≢ 1
      → Copies i s 1 (reread (stored s i))
  next :
      (i n : ℕ) (s t : Support)
      → ((stored s i).devices tape).d_data1 ≡ 2
      → (stored s i).answers (stored s i).made ≡ 1
      → Copies (suc i) (reread (stored s i)) n t
      → Copies i s (suc n) t

pub read_blocks-Copies :
    (fuel i n : ℕ) (s t : Support)
    → Copies i s n t
    → n < fuel
    → read_blocks fuel 1 1 true i s ≡ ok tt t
unfolding read_blocks
read_blocks-Copies zero i n s t c l = absurd (omega arith)
read_blocks-Copies (suc zero) i _ s _ (last _ _ e) l = absurd (omega arith)
read_blocks-Copies (suc zero) i _ s _ (failed _ _ e f) l = absurd (omega arith)
read_blocks-Copies (suc (suc fuel)) i _ s _ (last _ _ e) l =
    simp (guarded_transfer-moved s 4 i 1 kuseg2 0 buffer head_two)
      (simp (ne→== ((stored s i).devices tape).d_data1 2 e) refl)
read_blocks-Copies (suc (suc fuel)) i _ s _ (failed _ _ e f) l =
    simp (guarded_transfer-moved s 4 i 1 kuseg2 0 buffer head_two) (
      simp (eq→== ((stored s i).devices tape).d_data1 2 e) (
        simp (read_block-reread (stored s i))
          (simp (ne→== ((stored s i).answers (stored s i).made) 1 f) refl)))
read_blocks-Copies (suc fuel) i _ s t (next _ m _ _ e f c) l =
    simp (guarded_transfer-moved s 4 i 1 kuseg2 0 buffer head_two) (
      simp (eq→== ((stored s i).devices tape).d_data1 2 e) (
        simp (read_block-reread (stored s i))
          (simp (f) (read_blocks-Copies fuel (suc i) m (reread (stored s i)) t c (omega arith)))))

-- The commands among the events that a device got, the latest first.
unfoldable pub commands_of : Ptr → List Event → List ℕ
commands_of a [] = []
commands_of a (command b v ∷ log) = if b == a then v ∷ commands_of a log else commands_of a log
commands_of a (call w x y z ∷ log) = commands_of a log
commands_of a (data0 b v ∷ log) = commands_of a log
commands_of a (transmit b v ∷ log) = commands_of a log
commands_of a (tlb_clear ∷ log) = commands_of a log
commands_of a (interrupts on ∷ log) = commands_of a log

-- The commands that write `n` pages from page `i` on, the latest first.
pub written : ℕ → ℕ → List ℕ → List ℕ
written i zero log = log
written i (suc n) log =
    written (suc i) n
      (block_command 4 (get_sector_num 1) 0 ∷ seek_command (get_cylinder_num i) ∷ log)

copies-written :
    (i n : ℕ) (s t : Support)
    → Copies i s n t
    → commands_of backing_store t.log ≡ written i n (commands_of backing_store s.log)
unfolding commands_of written
copies-written i _ s _ (last _ _ e) = refl
copies-written i _ s _ (failed _ _ e f) = refl
copies-written i _ s t (next _ m _ _ e f c) = copies-written (suc i) m (reread (stored s i)) t c

pub copies-same :
    (i n : ℕ) (s t : Support)
    → Copies i s n t
    → t ≡ record s { devices = t.devices; status = t.status; made = t.made; log = t.log }
copies-same i _ s _ (last _ _ e) = refl
copies-same i _ s _ (failed _ _ e f) = refl
copies-same i _ s t (next _ m _ _ e f c) = copies-same (suc i) m (reread (stored s i)) t c

-- A tape whose first read succeeds is copied as the relation says, and the pages are written in
-- order.
pub read_tape-Copies :
    (s t : Support) (n : ℕ)
    → s.answers s.made ≡ 1
    → Copies 0 (reread s) n t
    → n < 2 ^ 31
    → (read_tape 1 s ≡ ok tt t)
      × (commands_of backing_store t.log ≡ written 0 n (commands_of backing_store s.log))
unfolding read_tape commands_of
read_tape-Copies s t n e c l = (
  simp (read_block-reread s) (simp (e) (read_blocks-Copies 0x8000_0000 0 n (reread s) t c l)),
  copies-written 0 n (reread s) t c,
)

read_blocks-unread :
    (fuel status i : ℕ) (s : Support)
    → 0 < fuel
    → status ≢ 1
    → read_blocks fuel 1 status true i s ≡ ok tt s
unfolding read_blocks
read_blocks-unread zero status i s l e = absurd (omega arith)
read_blocks-unread (suc fuel) status i s l e = simp (ne→== status 1 e) refl

-- If the first read of the tape fails, `readTape` returns and no page has been written.
pub read_tape-unread :
    (s : Support)
    → s.answers s.made ≢ 1
    → (read_tape 1 s ≡ ok tt (reread s))
      × (commands_of backing_store (reread s).log ≡ commands_of backing_store s.log)
unfolding read_tape commands_of
read_tape-unread s e = (
  simp (read_block-reread s)
      (read_blocks-unread 0x8000_0000 (s.answers s.made) 0 (reread s) (omega arith) e),
  refl,
)
