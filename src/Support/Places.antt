-- ===== src/Support/Places.antt =====
-- Where the buffers, the stacks and the pages on the backing store lie: the address functions of
-- kaya/phase3/initProc.c.
use skara.Base.{ℕ, ◌+◌, ◌%◌, ◌≤◌, ◌<◌, ◌≡◌, ◌⊎◌, arith}
use skara.Base.Word.{field}
use skara.Support.{
  get_tape_buffer_addr, get_disk_buffer_addr, get_stack_page_addr, get_cylinder_num, get_sector_num,
  seek_command, block_command, page_size,
}

-- For any two of eight processes and three exception types, the page below the first one's stack
-- top lies wholly below the page of the second, and both lie above the disk buffers, which lie
-- above the tape buffers.
pub get_stack_page_addr_apart :
    (tape disk m n s t : ℕ)
    → tape < 8
    → disk < 8
    → 1 ≤ m
    → m ≤ 8
    → 1 ≤ n
    → n ≤ 8
    → s < 3
    → t < 3
    → (m < n) ⊎ ((m ≡ n) × (s < t))
    → (get_tape_buffer_addr tape + page_size ≤ get_disk_buffer_addr disk)
      × (get_disk_buffer_addr disk + page_size + page_size ≤ get_stack_page_addr m s)
      × (get_stack_page_addr m s + page_size ≤ get_stack_page_addr n t)
unfolding get_tape_buffer_addr get_disk_buffer_addr get_stack_page_addr
get_stack_page_addr_apart tape disk m n s t a b c d e f g h o =
    (ground arith, ground arith, ground arith)

-- The commands to the backing store carry the page, the process and the head of a transfer: for one of
-- 32 pages, eight processes and two heads, the device reads off the cylinder, the sector and the head that
-- the code means, and the operation.
pub block_command-field :
    (operation page n head : ℕ)
    → operation < 0x100
    → page < 32
    → 1 ≤ n
    → n ≤ 8
    → head < 2
    → let seek = seek_command (get_cylinder_num page) in
      let block = block_command operation (get_sector_num n) head in
      (seek % 0x100 ≡ 2)
      × (field seek 8 16 ≡ page)
      × (block % 0x100 ≡ operation)
      × (field block 8 8 + 1 ≡ n)
      × (field block 16 8 ≡ head)
unfolding get_cylinder_num get_sector_num
block_command-field operation page n head a b c d e =
    (ground arith, ground arith, ground arith, ground arith, ground arith)
