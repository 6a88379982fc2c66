-- ===== src/Support/Misplaced.antt =====
-- Where `UserTLBHandler` of kaya/phase3/pager.c puts a page of the shared segment that it evicts.
use skara.Base.{ℕ, ◌+◌, ◌%◌, ◌^◌, ◌<◌, ◌≡◌, refl, ap, ◌∙◌, List, ◌∷◌}
use skara.Base.Word.{field}
use skara.Machine.{stop, loads}
use skara.Support.{
  Support, SwapFrame, Event, kuseg3, backing_store, seek_command, block_command, get_cylinder_num,
  get_sector_num, call,
}
use skara.Support.Transfer.{moved}
use skara.Support.Pager.{user_tlb_handler}
use skara.Support.Residence.{IsIn}
use skara.Support.Eviction.{addr_at, IsPool, expelled, flipped, frame_of}
use skara.Support.Fault.{IsFault, turn}
use skara.Support.Service.{user_tlb_handler-Serves}
use skara.Support.Tape.{commands_of}

-- The commands of the transfer that writes a shared page and of the one that reads one, for process 1.
abbrev write_command : ℕ
write_command = block_command 4 (get_sector_num 0) 1

abbrev read_command : ℕ
read_command = block_command 3 (get_sector_num 1) 1

-- The place on the disk to which a page of the shared segment goes, and the one from which one comes.
pub record Misplaces (write read : ℕ) : Type 0 where
  pub writes : write % 0x100 ≡ 4
  pub reads : read % 0x100 ≡ 3
  pub written_at : (field write 8 8 ≡ 255) × (field write 16 8 ≡ 0)
  pub read_at : (field read 8 8 ≡ 0) × (field read 16 8 ≡ 1)

commands-misplaced : Misplaces write_command read_command
unfolding get_sector_num
commands-misplaced = record {
  writes = refl;
  reads = refl;
  written_at = (refl, refl);
  read_at = (refl, refl);
}

-- The commands among the events of a fault in the shared segment that evicts a shared page.
commands_of-swap :
    (s : Support) (page q : ℕ) (frame : SwapFrame)
    → IsIn frame kuseg3 q
    → let addr = addr_at s.layout (turn s) in
      commands_of backing_store (
        call 3 s.layout.swapmutex 0 0
        ∷ flipped (
            moved s.layout 3 page 1 1 addr
              (expelled s.layout frame addr (call 4 s.layout.swapmutex 0 0 ∷ s.log))))
      ≡ read_command
        ∷ seek_command (get_cylinder_num page)
        ∷ write_command
        ∷ seek_command (get_cylinder_num q)
        ∷ commands_of backing_store s.log
unfolding commands_of
commands_of-swap s page q frame i =
    let addr = addr_at s.layout (turn s) in
    ap
      (λ (x : SwapFrame). commands_of backing_store (
        call 3 s.layout.swapmutex 0 0
        ∷ flipped (
            moved s.layout 3 page 1 1 addr
              (expelled s.layout x addr (call 4 s.layout.swapmutex 0 0 ∷ s.log)))))
      (frame_of frame kuseg3 q i)

-- With a coherent pool, a frame counter below 2^31 - 1 and a fault of the process on an invalid load
-- or store of a missing page of the shared segment, numbered below 32, whose table is also entered
-- under number 0, let the next frame in turn hold another page of the shared segment.
-- `UserTLBHandler` ends by loading the process's old TLB area, and its commands to the disk are to
-- seek the cylinder of the evicted page, to write at sector 255 and head 0, to seek the cylinder of
-- the missing page and to read at sector 0 and head 1: a shared page is not written where shared
-- pages are read.
pub user_tlb_handler-Misplaces :
    (s : Support) (page q : ℕ)
    → s.next_frame + 1 < 2 ^ 31
    → IsPool s.layout (s.segments 1).kuseg3 s.tables s.frames
    → IsFault s kuseg3 page
    → IsIn (s.frames (turn s)) kuseg3 q
    → (w : Support) × (write : ℕ) × (read : ℕ) × (user_tlb_handler s
        ≡ stop (loads (s.old_areas 0 0)) w)
      × (commands_of backing_store w.log
          ≡ read
            ∷ seek_command (get_cylinder_num page)
            ∷ write
            ∷ seek_command (get_cylinder_num q)
            ∷ commands_of backing_store s.log)
      × Misplaces write read
user_tlb_handler-Misplaces s page q n p f i =
    let (w, v) = user_tlb_handler-Serves s kuseg3 page n p f in
    (
      w,
      write_command,
      read_command,
      v.run,
      ap (λ (x : List Event). commands_of backing_store x) v.events
          ∙ commands_of-swap s page q (s.frames (turn s)) i,
      commands-misplaced,
    )
