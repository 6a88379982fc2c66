-- ===== src/Support/Begin.antt =====
-- What `test` of kaya/phase3/initProc.c leaves behind.
use skara.Base.{
  ℕ, ◌+◌, ◌*◌, ◌^◌, ◌<◌, ◌≡◌, ◌≢◌, refl, sym, ap, ◌∙◌, ◌∷◌, subst, true, false, inl, inr, arith,
  ◌==◌, if◌then◌else◌, Bool-cases, ne→==, update, ==-refl,
}
use skara.Base.Word.{has_bit, field, add, shl}
use skara.Machine.{Ptr, null, stop, ends}
use skara.Support.{
  get_stack_page_addr, PageTable, PageEntry, SwapFrame, Support, Layout, call, pool_size, max_kuseg,
  kuseg2, kuseg3, asid_of,
}
use skara.Support.Start.{test, ksegos_entry, kuseg2_entry, kuseg3_entry, unoccupied}
use skara.Support.Pager.{valid_on, segment_of, page_of}
use skara.Support.Residence.{IsPage, AreFrames}
use skara.Support.Entries.{lo_at, entry_at}
use skara.Support.Eviction.{addr_at}
use skara.Support.Fault.{called}
use skara.Support.Reach.{IsFresh}
use skara.Support.SetUp.{
  fill_within, ksegos_table, kuseg3_table, kuseg2_table, shared_tables, all_tables, set_up,
  test-set_up,
}

-- The places that `test` writes are different.
pub record AreApart (at : Layout) : Type 0 where
  pub not_null : at.kuseg3_pt ≢ null
  pub os_shared : at.ksegos_pt ≢ at.kuseg3_pt
  pub os_own : at.ksegos_pt ≢ at.kuseg2_pt 0
  pub shared_own : at.kuseg3_pt ≢ at.kuseg2_pt 0
  pub master_swap : at.swapmutex ≢ at.master_sema4
  pub master_device : (j : ℕ) → j < 48 → add at.device_sema4s (4 * j) ≢ at.master_sema4
  pub devices_fit : at.device_sema4s + 4 * 48 < 2 ^ 32

own_table :
    (s : Support)
    → all_tables s (s.layout.kuseg2_pt 0) ≡ kuseg2_table (shared_tables s) (s.layout.kuseg2_pt 0)
own_table s = rw (==-refl (s.layout.kuseg2_pt 0)) refl

shared_table :
    (s : Support)
    → AreApart s.layout
    → (tables : Ptr → PageTable) × (all_tables s s.layout.kuseg3_pt
        ≡ kuseg3_table tables s.layout.kuseg3_pt)
shared_table s a = (
  update s.tables s.layout.ksegos_pt (ksegos_table s),
  rw (ne→== s.layout.kuseg3_pt (s.layout.kuseg2_pt 0) a.shared_own)
      (rw (==-refl s.layout.kuseg3_pt) refl),
)

os_table : (s : Support) → AreApart s.layout → all_tables s s.layout.ksegos_pt ≡ ksegos_table s
os_table s a = rw (ne→== s.layout.ksegos_pt (s.layout.kuseg2_pt 0) a.os_own) (
    rw (ne→== s.layout.ksegos_pt s.layout.kuseg3_pt a.os_shared)
      (rw (==-refl s.layout.ksegos_pt) refl))

own_lo :
    (tables : Ptr → PageTable) (a i : ℕ)
    → i < max_kuseg
    → ((kuseg2_table tables a).entries i).entry_lo ≡ 0x400
own_lo tables a i l = elim (Bool-cases (i == 31)) [
  | inl e ↦ rw (e) (
      ap (λ (x : PageEntry). x.entry_lo)
        (fill_within (kuseg2_entry 1) max_kuseg 0 (tables a).entries 31 (omega arith)
          (omega arith)))
  | inr e ↦ rw (e) (
      ap (λ (x : PageEntry). x.entry_lo)
        (fill_within (kuseg2_entry 1) max_kuseg 0 (tables a).entries i (omega arith) (omega arith)))
]

-- The page that an entry is for, the last one of the process's being the stack's.
abbrev pub page_for : ℕ → ℕ
page_for i = if i == 31 then 0x3FFFF else i

own_hi :
    (tables : Ptr → PageTable) (a i : ℕ)
    → i < max_kuseg
    → ((kuseg2_table tables a).entries i).entry_hi ≡ 0x80000000 + page_for i * 0x1000 + 0x40
own_hi tables a i l = elim (Bool-cases (i == 31)) [
  | inl e ↦ rw (e) refl
  | inr e ↦ rw (e) (
      ap (λ (x : PageEntry). x.entry_hi)
        (fill_within (kuseg2_entry 1) max_kuseg 0 (tables a).entries i (omega arith) (omega arith))
      ∙ omega arith)
]

-- What the entry of a page says: its segment, its page, its process, and its flags.
pub record IsEntryFor (e : PageEntry) (of_segment of_page of_asid : ℕ) : Type 0 where
  pub segment : segment_of e.entry_hi ≡ of_segment
  pub page : page_of e.entry_hi ≡ of_page
  pub asid : asid_of e.entry_hi ≡ of_asid

own_entry :
    (e : PageEntry) (p : ℕ)
    → p < 0x40000
    → e.entry_hi ≡ 0x80000000 + p * 0x1000 + 0x40
    → IsEntryFor e kuseg2 p 1
own_entry e p l h = record {
  segment = omega (arith, h);
  page = omega (arith, h);
  asid = omega (arith, h);
}

shared_entry :
    (e : PageEntry) (i : ℕ)
    → i < max_kuseg
    → e.entry_hi ≡ shl (0xC0000 + i) 12
    → IsEntryFor e kuseg3 i 0
shared_entry e i l h = record {
  segment = omega (arith, h);
  page = omega (arith, h);
  asid = omega (arith, h);
}

-- The kernel's pages are mapped to themselves.
kernel_entry :
    (e : PageEntry) (i : ℕ)
    → i < 80
    → e.entry_hi ≡ shl (0x20000 + i) 12
    → e.entry_lo ≡ add (shl (0x20000 + i) 12) 0x700
    → (field e.entry_hi 12 20 ≡ 0x20000 + i)
      × (field e.entry_lo 12 20 ≡ 0x20000 + i)
      × (has_bit e.entry_lo valid_on ≡ true)
kernel_entry e i l h g = (omega (arith, h), omega (arith, g), ground (arith, g))

page_for-small : (i : ℕ) → i < max_kuseg → page_for i < 0x40000
page_for-small i l = ground arith

-- What holds when `test` waits for the processes.
pub record IsSetUp (s w : Support) : Type 0 where
  pub fresh : IsFresh w
  pub own :
      (i : ℕ)
      → i < max_kuseg
      → IsEntryFor (entry_at w.layout w.tables kuseg2 i) kuseg2 (page_for i) 1
  pub shared : (i : ℕ) → i < max_kuseg → IsEntryFor (entry_at w.layout w.tables kuseg3 i) kuseg3 i 0
  pub kernel :
      (i : ℕ)
      → i < 80
      → let e = (w.tables w.layout.ksegos_pt).entries i in
        (field e.entry_hi 12 20 ≡ 0x20000 + i)
        × (field e.entry_lo 12 20 ≡ 0x20000 + i)
        × (has_bit e.entry_lo valid_on ≡ true)
  pub mutex : w.words w.layout.swapmutex ≡ 1
  pub mutexes : (j : ℕ) → j < 48 → w.words (add w.layout.device_sema4s (4 * j)) ≡ 1
  pub master : w.words w.layout.master_sema4 ≡ 0
  pub process :
      (w.initial_state.s_pc ≡ w.layout.u_proc_init)
      × (asid_of w.initial_state.s_asid ≡ 1)
      × (w.initial_state.s_reg 26 ≡ get_stack_page_addr 1 0)
  pub calls : w.log ≡ call 4 w.layout.master_sema4 0 0 ∷ call 1 w.layout.initial_state 0 0 ∷ s.log

set_up-invalid :
    (s : Support) (segment page : ℕ)
    → AreApart s.layout
    → IsPage segment page
    → has_bit (lo_at s.layout (all_tables s) segment page) valid_on ≡ false
set_up-invalid s segment page a q = elim q.paged [
  | inl e ↦
      subst (λ (x : ℕ). has_bit (lo_at s.layout (all_tables s) x page) valid_on ≡ false) (sym e)
        (ap (λ (x : PageTable). has_bit (x.entries page).entry_lo valid_on) (own_table s)
          ∙ ap (λ (x : ℕ). has_bit x valid_on)
              (own_lo (shared_tables s) (s.layout.kuseg2_pt 0) page q.listed))
  | inr e ↦
      (let (tables, t) = shared_table s a in
        subst (λ (x : ℕ). has_bit (lo_at s.layout (all_tables s) x page) valid_on ≡ false) (sym e)
          (ap (λ (x : PageTable). has_bit (x.entries page).entry_lo valid_on) t
            ∙ ap (λ (x : PageEntry). has_bit x.entry_lo valid_on)
                (fill_within kuseg3_entry max_kuseg 0 (tables s.layout.kuseg3_pt).entries page
                  (omega arith) (omega (arith, q.listed)))))
]

set_up-shared :
    (s : Support) (i : ℕ)
    → AreApart s.layout
    → i < max_kuseg
    → (all_tables s s.layout.kuseg3_pt).entries i
      ≡ record { entry_hi = shl (0xC0000 + i) 12; entry_lo = 0x500 }
set_up-shared s i a l =
    let (tables, t) = shared_table s a in
    ap (λ (x : PageTable). x.entries i) t
    ∙ fill_within kuseg3_entry max_kuseg 0 (tables s.layout.kuseg3_pt).entries i (omega arith)
        (omega arith)

set_up-kernel :
    (s : Support) (i : ℕ)
    → AreApart s.layout
    → i < 80
    → (all_tables s s.layout.ksegos_pt).entries i
      ≡ ksegos_entry i ((s.tables s.layout.ksegos_pt).entries i)
set_up-kernel s i a l =
    ap (λ (x : PageTable). x.entries i) (os_table s a)
    ∙ fill_within ksegos_entry 80 0 (s.tables s.layout.ksegos_pt).entries i (omega arith)
        (omega arith)

-- Where the tables, the semaphores and the frames lie apart, the shared table is not at `NULL`, and
-- the counter is 0, `test` makes the SYS1 of the first process and one P of the master semaphore,
-- and when it comes back from this, whatever the processes did to the state in the meantime, it
-- ends by its SYS2. When it makes the P, no frame is occupied and no page of the process or of the
-- shared segment is valid; the entries of the process's table are for its pages 0 to 30 and its
-- stack page, those of the shared table for pages 0 to 31, and the kernel's 80 entries map the
-- pages from 0x20000 on to themselves; the swap mutex and the 48 device semaphores are 1 and the
-- master semaphore is 0; the state given to SYS1 starts `uProcInit` as process 1 on its first
-- stack.
pub test-IsSetUp :
    (s : Support)
    → AreApart s.layout
    → AreFrames (addr_at s.layout)
    → s.next_frame ≡ 0
    → (w : Support) × IsSetUp s w
      × ((others : Support → Support) → test others s ≡ stop ends (called (others w) 2 0))
test-IsSetUp s a f n =
    let (words, run, mutex, mutexes) = test-set_up s a.devices_fit in
    let at = s.layout in
    (
      set_up s words,
      record {
        fresh = record {
          apart = a.shared_own;
          not_null = a.not_null;
          one_table = refl;
          are_frames = f;
          empty = λ g l.
              ap (λ (x : SwapFrame). x.asid)
                (fill_within (λ i (x : SwapFrame). record x { asid = unoccupied }) pool_size 0
                  s.frames g (omega arith) (omega arith));
          invalid = λ t q p. set_up-invalid s t q a p;
          counter = n;
        };
        own = λ i l.
            own_entry (entry_at at (all_tables s) kuseg2 i) (page_for i) (page_for-small i l) (
              ap (λ (x : PageTable). (x.entries i).entry_hi) (own_table s)
              ∙ own_hi (shared_tables s) (at.kuseg2_pt 0) i l);
        shared = λ i l.
            shared_entry (entry_at at (all_tables s) kuseg3 i) i l
              (ap (λ (x : PageEntry). x.entry_hi) (set_up-shared s i a l));
        kernel = λ i l.
            kernel_entry ((all_tables s at.ksegos_pt).entries i) i l
              (ap (λ (x : PageEntry). x.entry_hi) (set_up-kernel s i a l))
              (ap (λ (x : PageEntry). x.entry_lo) (set_up-kernel s i a l));
        mutex = rw (ne→== at.swapmutex at.master_sema4 a.master_swap) mutex;
        mutexes = λ j l.
            rw (ne→== (add at.device_sema4s (4 * j)) at.master_sema4 (a.master_device j l))
              (mutexes j l);
        master = rw (==-refl at.master_sema4) refl;
        process = (refl, refl, refl);
        calls = refl;
      },
      run,
    )
