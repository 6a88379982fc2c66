-- ===== src/Support/Paging.antt =====
-- What the steps of the pager do: kaya/phase3/pager.c.
use skara.Base.{ℕ, ◌<◌, ◌≡◌, true, false, ◌∷◌, arith, update, ltb}
use skara.Base.Word.{or_bit, drop_bit}
use skara.Machine.{Ptr, ok, Cmd}
use skara.Support.{PageTable, Support, interrupts, tlb_clear, allow_interrupts, max_kuseg}
use skara.Support.Transfer.{or-drop}
use skara.Support.Pager.{change_entry}

-- The state in the middle of a change of an entry, and after it.
abbrev pub masked : Support → Support
masked s = record s { status = drop_bit s.status 1; log = interrupts false ∷ s.log }

abbrev pub with_changed : (Ptr → PageTable) → Ptr → ℕ → (ℕ → ℕ) → Ptr → PageTable
with_changed tables table page f =
    let t = tables table in
    let e = t.entries page in
    update tables table
      (record t { entries = update t.entries page (record e { entry_lo = f e.entry_lo }) })

abbrev pub changed : Support → Ptr → ℕ → (ℕ → ℕ) → Support
changed s table page f = record s {
  tables = with_changed s.tables table page f;
  status = or_bit s.status 1;
  log = interrupts true ∷ tlb_clear ∷ interrupts false ∷ s.log;
}

pub change_entry-changed :
    (get_table : Cmd Support Ptr) (table page : ℕ) (f : ℕ → ℕ) (s : Support)
    → get_table (masked s) ≡ ok table (masked s)
    → page < max_kuseg
    → change_entry get_table page f s ≡ ok tt (changed s table page f)
unfolding change_entry allow_interrupts
change_entry-changed get_table table page f s h l =
    let inside : ltb page max_kuseg ≡ true = ground arith in simp (h, inside, or-drop s.status)
