-- ===== src/Support/Pager.antt =====
-- The pager, `UserTLBHandler` of kaya/phase3/pager.c.
use skara.Base.{ℕ, ◌-◌, ◌*◌, ◌%◌, ◌==◌, ◌&&◌, not, if◌then◌else◌, Bool, true, false, update, ltb}
use skara.Base.Word.{add, sub, has_bit, or_bit, xor_bit, field, srem}
use skara.Machine.{Ptr, null, loads, Cmd, stop, fault, pure, ◌>>=◌, ◌>>◌, get, modify}
use skara.Support.{
  PageEntry, SwapFrame, Support, tlb_clear, proc_cnt, max_kuseg, pool_size, kuseg2, kuseg3, emit,
  passeren, verhogen, user_exit, allow_interrupts, asid_of, in_procs, guarded_transfer, page_size,
}
use skara.Support.Start.{unoccupied}

-- `findFrame`, and `getFrameAddr`.
unfoldable pub find_frame : Cmd Support ℕ
find_frame s =
    let next = add s.next_frame 1 in pure (srem next pool_size) (record s { next_frame = next })

unfoldable pub get_frame_addr : ℕ → ℕ → ℕ
get_frame_addr frame_pool_start frame_num = add frame_pool_start (frame_num * page_size)

-- (rambase + ramsize) - (POOLSIZE + 3) * PAGESIZE.
abbrev pub frame_pool_start : Support → ℕ
frame_pool_start s = sub (add s.layout.rambase s.layout.ramsize) (9 * page_size)

-- The cause's exception code, and the segment and the page of an address or an entryHi.
abbrev pub exc_code : ℕ → ℕ
exc_code cause = field cause 2 5

abbrev pub segment_of : ℕ → ℕ
segment_of word = field word 30 2

abbrev pub page_of : ℕ → ℕ
page_of word = field word 12 18

-- VALIDON.
abbrev pub valid_on : ℕ
valid_on = 0x200

-- An entry of a page table with MAXKUSEG entries; `segTable->entries` has PROCCNT + 1. Past either is a
-- fault.
abbrev pub get_entry : Ptr → ℕ → Cmd Support PageEntry
get_entry table page s =
    if ltb page max_kuseg then pure ((s.tables table).entries page) s else fault

abbrev pub with_entry_lo : Ptr → ℕ → ℕ → Support → Support
with_entry_lo table page lo s = record s {
  tables = update s.tables table (record (s.tables table) {
    entries =
        update (s.tables table).entries page
          (record ((s.tables table).entries page) { entry_lo = lo });
  });
}

abbrev pub set_entry_lo : Ptr → ℕ → ℕ → Cmd Support (Unit {0})
set_entry_lo table page lo s =
    if ltb page max_kuseg then pure tt (with_entry_lo table page lo s) else fault

-- The table that is then used; through NULL this is a fault.
abbrev pub get_kuseg3 : ℕ → Cmd Support Ptr
get_kuseg3 index s =
    if ltb proc_cnt index
    then fault
    else (if (s.segments index).kuseg3 == null then fault else pure (s.segments index).kuseg3 s)

-- A change of an entry's flags, with interrupts off and the TLB cleared.
unfoldable pub change_entry : Cmd Support Ptr → ℕ → (ℕ → ℕ) → Cmd Support (Unit {0})
change_entry get_table page f = do
  allow_interrupts false
  table ← get_table
  entry ← get_entry table page
  set_entry_lo table page (f entry.entry_lo)
  emit tlb_clear
  allow_interrupts true

-- `&(userProcArray[asid-1].kuseg2PT)`.
abbrev pub get_kuseg2 : ℕ → Cmd Support Ptr
get_kuseg2 asid = in_procs asid (λ i s. pure (s.layout.kuseg2_pt i) s)

-- The page in an occupied frame loses its valid bit and is written back.
unfoldable pub evict : SwapFrame → ℕ → Cmd Support (Unit {0})
evict old frame_addr =
    if old.seg_num == kuseg3
    then (do
      change_entry (get_kuseg3 old.asid) old.page_num (λ lo. xor_bit lo valid_on)
      guarded_transfer 4 old.page_num 0 old.seg_num frame_addr)
    else (if old.seg_num == kuseg2
        then (do
          change_entry (get_kuseg2 old.asid) old.page_num (λ lo. xor_bit lo valid_on)
          guarded_transfer 4 old.page_num old.asid old.seg_num frame_addr)
        else pure tt)

-- (frameAddr) + ((entryLo | VALIDON) & FRAMENUMMASK).
abbrev pub mapped : ℕ → ℕ → ℕ
mapped frame_addr lo = add frame_addr (or_bit lo valid_on % 0x1000)

-- The update of the faulting page's entry.
unfoldable pub publish : ℕ → ℕ → ℕ → ℕ → Cmd Support (Unit {0})
publish asid segment page frame_addr =
    if segment == kuseg3
    then change_entry (get_kuseg3 asid) page (mapped frame_addr)
    else (if segment == kuseg2
        then change_entry (get_kuseg2 asid) page (mapped frame_addr)
        else pure tt)

-- Whether the faulting page is in the shared segment and here already.
unfoldable pub is_here : ℕ → ℕ → ℕ → Cmd Support Bool
is_here asid segment page =
    if segment == kuseg3
    then (do
      table ← get_kuseg3 (asid - 1)
      entry ← get_entry table page
      pure (has_bit entry.entry_lo valid_on))
    else pure false

abbrev pub get_frame : ℕ → Cmd Support SwapFrame
get_frame frame s = if ltb frame pool_size then pure (s.frames frame) s else fault

abbrev pub set_frame : ℕ → SwapFrame → Cmd Support (Unit {0})
set_frame frame f = modify (λ s. record s { frames = update s.frames frame f })

-- Release of the swap pool's mutex and return to the process.
unfoldable pub return_to : ℕ → Cmd Support (Unit {0})
return_to i = do s ← get; verhogen s.layout.swapmutex; s ← get; stop (loads (s.old_areas i 0))

-- The page that is missing is brought in.
unfoldable pub bring_in : ℕ → ℕ → ℕ → Cmd Support (Unit {0})
bring_in asid segment page = do
  frame ← find_frame
  s ← get
  let frame_addr = get_frame_addr (frame_pool_start s) frame
  old ← get_frame frame
  if old.asid == unoccupied then pure tt else evict old frame_addr
  guarded_transfer 3 page asid segment frame_addr
  set_frame frame (record { asid = asid; seg_num = segment; page_num = page })
  publish asid segment page frame_addr

-- `UserTLBHandler`: TLBINVALIDLOAD and TLBINVALIDSTORE are 2 and 3.
unfoldable pub user_tlb_handler : Cmd Support (Unit {0})
user_tlb_handler = do
  s ← get
  let asid = asid_of s.entry_hi
  in_procs asid λ i. do
    let code = exc_code (s.old_areas i 0).s_cause
    if not (code == 2) && not (code == 3) then user_exit >> pure tt else pure tt
    let segment = segment_of (s.old_areas i 0).s_asid
    let page = page_of (s.old_areas i 0).s_asid
    passeren s.layout.swapmutex
    here ← is_here asid segment page
    if here then return_to i else (do bring_in asid segment page; return_to i)
