-- ===== src/Support/SetUp.antt =====
-- `test` of kaya/phase3/initProc.c.
use skara.Base.{
  ℕ, zero, suc, ◌+◌, ◌*◌, ◌^◌, ◌<◌, ◌≤◌, ◌≡◌, refl, sym, ◌∙◌, ◌∷◌, subst, inl, inr, arith, ◌==◌,
  Bool-cases, ne→==, update, update_cases, ==→eq, ==-refl,
}
use skara.Base.Word.{add, shl}
use skara.Machine.{Ptr, ok, stop, ends}
use skara.Support.{get_stack_page_addr, PageTable, SwapFrame, Support, call, pool_size, max_kuseg}
use skara.Support.Fault.{called}
use skara.Support.Start.{
  test, init_ksegos, init_kuseg3, init_frames, init_sema4s, init_kuseg2, init_process,
  init_processes, await_processes, entry_state, support_status, fill, ksegos_entry, kuseg2_entry,
  kuseg3_entry, table_header, unoccupied, init_device_sema4s,
}

-- A loop over an array changes the entries from `i` on, each by what it held.
fill_below :
    {A : Type 0} (f : ℕ → A → A) (rounds i : ℕ) (a : ℕ → A) (j : ℕ)
    → j < i
    → fill f rounds i a j ≡ a j
unfolding fill
fill_below f zero i a j l = refl
fill_below f (suc n) i a j l =
    fill_below f n (suc i) (update a i (f i (a i))) j (omega arith)
    ∙ rw (ne→== j i (omega arith)) refl

pub fill_within :
    {A : Type 0} (f : ℕ → A → A) (rounds i : ℕ) (a : ℕ → A) (j : ℕ)
    → i ≤ j
    → j < i + rounds
    → fill f rounds i a j ≡ f j (a j)
unfolding fill
fill_within f zero i a j l m = absurd (omega arith)
fill_within f (suc n) i a j l m = elim (Bool-cases (j == i)) [
  | inl e ↦
      fill_below f n (suc i) (update a i (f i (a i))) j (omega (arith, ==→eq j i e))
      ∙ rw (e) (subst (λ (x : ℕ). f x (a x) ≡ f j (a j)) (==→eq j i e) refl)
  | inr e ↦
      fill_within f n (suc i) (update a i (f i (a i))) j (ground arith) (omega arith) ∙ rw (e) refl
]

-- The loop over the semaphores.
init_device_sema4s-words :
    (n i : ℕ) (s : Support)
    → s.layout.device_sema4s + 4 * (i + n) < 2 ^ 32
    → (w : Ptr → ℕ) × (init_device_sema4s n i s ≡ ok tt (record s { words = w }))
      × ((j : ℕ) → i ≤ j → j < i + n → w (add s.layout.device_sema4s (4 * j)) ≡ 1)
      × ((a : Ptr) → s.words a ≡ 1 → w a ≡ 1)
unfolding init_device_sema4s
init_device_sema4s-words zero i s fits = (s.words, refl, (λ j l m. absurd (omega arith)), λ a h. h)
init_device_sema4s-words (suc n) i s fits =
    let a = add s.layout.device_sema4s (4 * i) in
    let s1 : Support = record s { words = update s.words a 1 } in
    let (w, run, ones, kept) = init_device_sema4s-words n (suc i) s1 (omega arith) in
    let stay : (b : Ptr) → s.words b ≡ 1 → update s.words a 1 b ≡ 1 =
      λ b h. update_cases (λ q v. s.words q ≡ 1 → v ≡ 1) s.words a 1 b (λ z. refl) (λ y z. z) h in
    (
      w,
      run,
      (λ j l m. elim (Bool-cases (j == i)) [
        | inl y ↦ kept (add s.layout.device_sema4s (4 * j)) (
            subst (λ (x : ℕ). update s.words a 1 (add s.layout.device_sema4s (4 * x)) ≡ 1)
              (sym (==→eq j i y)) (rw (==-refl a) refl))
        | inr y ↦ ones j (ground arith) (omega arith)
      ]),
      λ b h. kept b (stay b h),
    )

-- The page tables that `test` writes.
abbrev pub ksegos_table : Support → PageTable
ksegos_table s = record {
  header = table_header 80;
  entries = fill ksegos_entry 80 0 (s.tables s.layout.ksegos_pt).entries;
}

abbrev pub kuseg3_table : (Ptr → PageTable) → Ptr → PageTable
kuseg3_table tables a = record {
  header = table_header max_kuseg;
  entries = fill kuseg3_entry max_kuseg 0 (tables a).entries;
}

abbrev pub kuseg2_table : (Ptr → PageTable) → Ptr → PageTable
kuseg2_table tables a =
    let entries = fill (kuseg2_entry 1) max_kuseg 0 (tables a).entries in
    let stack = record (entries 31) { entry_hi = add (shl 0xBFFFF 12) (shl 1 6) } in
    record { header = table_header max_kuseg; entries = update entries 31 stack }

abbrev pub shared_tables : Support → Ptr → PageTable
shared_tables s =
    let os = update s.tables s.layout.ksegos_pt (ksegos_table s) in
    update os s.layout.kuseg3_pt (kuseg3_table os s.layout.kuseg3_pt)

abbrev pub all_tables : Support → Ptr → PageTable
all_tables s =
    let a = s.layout.kuseg2_pt 0 in update (shared_tables s) a (kuseg2_table (shared_tables s) a)

-- When the processes come to run: the P of the master semaphore is made.
abbrev pub set_up : Support → (Ptr → ℕ) → Support
set_up s w = record s {
  tables = all_tables s;
  frames = fill (λ i (f : SwapFrame). record f { asid = unoccupied }) pool_size 0 s.frames;
  words = update w s.layout.master_sema4 0;
  segments = update s.segments 1 (record {
    ksegos = s.layout.ksegos_pt;
    kuseg2 = s.layout.kuseg2_pt 0;
    kuseg3 = s.layout.kuseg3_pt;
  });
  initial_state =
      entry_state 1 s.layout.u_proc_init (get_stack_page_addr 1 0) support_status s.initial_state;
  devices = s.works (suc s.made) (s.works s.made s.devices);
  made = suc (suc s.made);
  log = call 4 s.layout.master_sema4 0 0 ∷ call 1 s.layout.initial_state 0 0 ∷ s.log;
}

pub test-set_up :
    (s : Support)
    → s.layout.device_sema4s + 4 * 48 < 2 ^ 32
    → (w : Ptr → ℕ) × ((others : Support → Support)
        → test others s ≡ stop ends (called (others (set_up s w)) 2 0))
      × (w s.layout.swapmutex ≡ 1)
      × ((j : ℕ) → j < 48 → w (add s.layout.device_sema4s (4 * j)) ≡ 1)
unfolding test init_ksegos init_kuseg3 init_frames init_sema4s init_kuseg2 init_process
    init_processes await_processes
test-set_up s fits =
    let s1 : Support = record s {
      tables = shared_tables s;
      frames = fill (λ i (f : SwapFrame). record f { asid = unoccupied }) pool_size 0 s.frames;
      words = update s.words s.layout.swapmutex 1;
    } in
    let (w, run, ones, kept) = init_device_sema4s-words 48 0 s1 (omega arith) in
    (
      w,
      (λ others. simp (run)),
      kept s.layout.swapmutex (rw (==-refl s.layout.swapmutex) refl),
      λ j l. ones j (omega arith) (omega arith),
    )
