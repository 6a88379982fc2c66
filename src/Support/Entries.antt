-- ===== src/Support/Entries.antt =====
-- The page tables' entries by segment and page, and what the pager's changes do to them:
-- kaya/phase3/pager.c.
use skara.Base.{
  ℕ, ◌≡◌, ◌≢◌, refl, sym, ◌∙◌, ◌⊎◌, true, false, inl, inr, arith, ◌==◌, if◌then◌else◌, Bool-cases,
  ◌||◌, ==→eq, subst, ne→==, ==-refl,
}
use skara.Base.Word.{has_bit, xor_bit}
use skara.Machine.{Ptr}
use skara.Support.{PageTable, PageEntry, SwapFrame, Layout, kuseg2, kuseg3}
use skara.Support.Pager.{mapped, valid_on}
use skara.Support.Paging.{with_changed}
use skara.Support.Residence.{IsIn, Names, Frees, Loads, dropped-invalid}

abbrev pub table_at : Layout → ℕ → Ptr
table_at at segment = if segment == kuseg3 then at.kuseg3_pt else at.kuseg2_pt 0

abbrev pub entry_at : Layout → (Ptr → PageTable) → ℕ → ℕ → PageEntry
entry_at at tables segment page = (tables (table_at at segment)).entries page

-- The low words of the entries, 0 for a segment without pages.
abbrev pub lo_at : Layout → (Ptr → PageTable) → ℕ → ℕ → ℕ
lo_at at tables segment page =
    if segment == kuseg2 || segment == kuseg3 then (entry_at at tables segment page).entry_lo else 0

lo_changed :
    (tables : Ptr → PageTable) (a page : ℕ) (f : ℕ → ℕ)
    → ((with_changed tables a page f a).entries page).entry_lo
      ≡ f ((tables a).entries page).entry_lo
lo_changed tables a page f = rw (==-refl a) (rw (==-refl page) refl)

lo_kept_page :
    (tables : Ptr → PageTable) (a page : ℕ) (f : ℕ → ℕ) (b q : ℕ)
    → (q == page) ≡ false
    → ((with_changed tables a page f b).entries q).entry_lo ≡ ((tables b).entries q).entry_lo
lo_kept_page tables a page f b q n = elim (Bool-cases (b == a)) [
  | inl e ↦ rw (e) (
      rw (n) (
        subst (λ (x : Ptr). ((tables a).entries q).entry_lo ≡ ((tables x).entries q).entry_lo)
          (sym (==→eq b a e)) refl))
  | inr e ↦ rw (e) refl
]

lo_kept_table :
    (tables : Ptr → PageTable) (a page : ℕ) (f : ℕ → ℕ) (b q : ℕ)
    → b ≢ a
    → ((with_changed tables a page f b).entries q).entry_lo ≡ ((tables b).entries q).entry_lo
lo_kept_table tables a page f b q n = rw (ne→== b a n) refl

pub lo_at-changed :
    (at : Layout) (tables : Ptr → PageTable) (segment page : ℕ) (f : ℕ → ℕ)
    → (segment ≡ kuseg2) ⊎ (segment ≡ kuseg3)
    → lo_at at (with_changed tables (table_at at segment) page f) segment page
      ≡ f (lo_at at tables segment page)
lo_at-changed at tables segment page f (inl e) =
    subst
      (λ (g : ℕ).
        lo_at at (with_changed tables (table_at at g) page f) g page ≡ f (lo_at at tables g page))
      (sym e) (lo_changed tables (at.kuseg2_pt 0) page f)
lo_at-changed at tables segment page f (inr e) =
    subst
      (λ (g : ℕ).
        lo_at at (with_changed tables (table_at at g) page f) g page ≡ f (lo_at at tables g page))
      (sym e) (lo_changed tables at.kuseg3_pt page f)

-- Different segments have different tables.
tables_apart :
    (at : Layout) (t segment : ℕ)
    → at.kuseg3_pt ≢ at.kuseg2_pt 0
    → (t == kuseg2 || t == kuseg3) ≡ true
    → (segment ≡ kuseg2) ⊎ (segment ≡ kuseg3)
    → t ≢ segment
    → table_at at t ≢ table_at at segment
tables_apart at t segment d h p n = ground arith

pub lo_at-kept :
    (at : Layout) (tables : Ptr → PageTable) (segment page : ℕ) (f : ℕ → ℕ) (t q : ℕ)
    → at.kuseg3_pt ≢ at.kuseg2_pt 0
    → (segment ≡ kuseg2) ⊎ (segment ≡ kuseg3)
    → ¬ ((t ≡ segment) × (q ≡ page))
    → lo_at at (with_changed tables (table_at at segment) page f) t q ≡ lo_at at tables t q
lo_at-kept at tables segment page f t q d p n = elim (Bool-cases (t == kuseg2 || t == kuseg3)) [
  | inr e ↦ rw (e) refl
  | inl e ↦ rw (e) (elim (Bool-cases (q == page)) [
    | inr y ↦ lo_kept_page tables (table_at at segment) page f (table_at at t) q y
    | inl y ↦
        lo_kept_table tables (table_at at segment) page f (table_at at t) q
          (tables_apart at t segment d e p (λ z. n (z, ==→eq q page y)))
  ])
]

-- The eviction of a page that is in a frame, and the load of one.
pub evicted-Frees :
    (at : Layout) (tables : Ptr → PageTable) (frames : ℕ → SwapFrame) (f segment page : ℕ)
    → at.kuseg3_pt ≢ at.kuseg2_pt 0
    → (segment ≡ kuseg2) ⊎ (segment ≡ kuseg3)
    → IsIn (frames f) segment page
    → has_bit (lo_at at tables segment page) valid_on ≡ true
    → Frees f
        (lo_at at tables)
        (lo_at at (with_changed tables (table_at at segment) page (λ lo. xor_bit lo valid_on)))
        frames
evicted-Frees at tables frames f segment page d p i v =
    let flip : ℕ → ℕ = λ lo. xor_bit lo valid_on in
    record {
      kept = λ t q n. lo_at-kept at tables segment page flip t q d p (λ h. n (record {
        asid = i.asid;
        seg_num = i.seg_num ∙ sym h.0;
        page_num = i.page_num ∙ sym h.1;
      }));
      gone = λ t q j.
          let after = lo_at at (with_changed tables (table_at at segment) page flip) in
          let there : has_bit (after segment page) valid_on ≡ false =
            subst (λ (x : ℕ). has_bit x valid_on ≡ false)
              (sym (lo_at-changed at tables segment page flip p))
              (dropped-invalid (lo_at at tables segment page) v) in
          subst (λ (y : ℕ). has_bit (after t y) valid_on ≡ false) (sym i.page_num ∙ j.page_num)
            (subst (λ (x : ℕ). has_bit (after x page) valid_on ≡ false) (sym i.seg_num ∙ j.seg_num)
              there);
    }

pub loaded-Loads :
    (at : Layout) (tables : Ptr → PageTable) (addr segment page : ℕ)
    → at.kuseg3_pt ≢ at.kuseg2_pt 0
    → (segment ≡ kuseg2) ⊎ (segment ≡ kuseg3)
    → Names (mapped addr (lo_at at tables segment page)) addr
    → Loads addr segment page
        (lo_at at tables)
        (lo_at at (with_changed tables (table_at at segment) page (mapped addr)))
loaded-Loads at tables addr segment page d p n = record {
  kept = λ t q m. lo_at-kept at tables segment page (mapped addr) t q d p m;
  loaded =
      subst (λ (x : ℕ). Names x addr) (sym (lo_at-changed at tables segment page (mapped addr) p))
        n;
}
