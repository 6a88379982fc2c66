-- ===== src/Support/Reach.antt =====
-- The states that page faults lead to from a fresh pool: kaya/phase3/initProc.c and
-- kaya/phase3/pager.c.
use skara.Base.{ℕ, zero, suc, ◌+◌, ◌^◌, ◌<◌, ◌≡◌, ◌≢◌, refl, sym, ap, ◌∙◌, subst, false, inl, arith}
use skara.Base.Word.{has_bit}
use skara.Machine.{null, ok, stop, loads, Run, fault, out_of_fuel}
use skara.Support.{Support, pool_size}
use skara.Support.Start.{unoccupied}
use skara.Support.Pager.{user_tlb_handler, valid_on}
use skara.Support.Residence.{IsPage, AreFrames, invalid}
use skara.Support.Entries.{lo_at}
use skara.Support.Eviction.{addr_at, IsPool}
use skara.Support.Fault.{IsFault, filled}
use skara.Support.Service.{Serves, user_tlb_handler-Serves}
use mathlib.Core.Path.{transport}

-- A pool before the first fault: no frame is occupied and no page is valid.
pub record IsFresh (s : Support) : Type 0 where
  pub apart : s.layout.kuseg3_pt ≢ s.layout.kuseg2_pt 0
  pub not_null : s.layout.kuseg3_pt ≢ null
  pub one_table : (s.segments 1).kuseg3 ≡ s.layout.kuseg3_pt
  pub are_frames : AreFrames (addr_at s.layout)
  pub empty : (f : ℕ) → f < pool_size → (s.frames f).asid ≡ unoccupied
  pub invalid :
      (segment page : ℕ)
      → IsPage segment page
      → has_bit (lo_at s.layout s.tables segment page) valid_on ≡ false
  pub counter : s.next_frame ≡ 0

-- What the pager has to itself: between two faults no other code changes it.
pub record Keeps (w u : Support) : Type 0 where
  pub layout : w.layout ≡ u.layout
  pub segments : w.segments ≡ u.segments
  pub tables : w.tables ≡ u.tables
  pub frames : w.frames ≡ u.frames
  pub counter : w.next_frame ≡ u.next_frame

-- The states after `n` faults.
pub data Paged : ℕ → Support → Type 0 where
  fresh : (s : Support) → IsFresh s → Paged 0 s
  served :
      (n segment page : ℕ) (s w u : Support)
      → Paged n s
      → IsFault s segment page
      → user_tlb_handler s ≡ stop (loads (s.old_areas 0 0)) w
      → Keeps w u
      → Paged (suc n) u

pub fresh-IsPool :
    (s : Support) → IsFresh s → IsPool s.layout (s.segments 1).kuseg3 s.tables s.frames
fresh-IsPool s f = record {
  apart = f.apart;
  not_null = f.not_null;
  one_table = f.one_table;
  are_frames = f.are_frames;
  coherent = record {
    resident = λ g l. inl (f.empty g l);
    present = λ t q p v. absurd (
        invalid (lo_at s.layout s.tables t q) (lo_at s.layout s.tables t q) refl v
          (f.invalid t q p));
  };
}

kept-IsPool :
    (w u : Support)
    → Keeps w u
    → IsPool w.layout (w.segments 1).kuseg3 w.tables w.frames
    → IsPool u.layout (u.segments 1).kuseg3 u.tables u.frames
kept-IsPool w u k p =
    transport (λ i. IsPool (k.layout i) (k.segments i 1).kuseg3 (k.tables i) (k.frames i)) p

abbrev final : {A : Type 0} → Support → Run Support A → Support
final d (ok a s) = d
final d (stop o s) = s
final d fault = d
final d out_of_fuel = d

-- The state that a service ends in, as the pool sees it.
served-Keeps :
    (s w : Support) (segment page : ℕ)
    → Serves s w segment page
    → Keeps
        (record s {
          tables = w.tables;
          next_frame = s.next_frame + 1;
          frames = filled s segment page;
        })
        w
served-Keeps s w segment page v = record {
  layout = ap (λ (x : Support). x.layout) (sym v.same);
  segments = ap (λ (x : Support). x.segments) (sym v.same);
  tables = refl;
  frames = ap (λ (x : Support). x.frames) (sym v.same);
  counter = ap (λ (x : Support). x.next_frame) (sym v.same);
}

-- Take a pool without occupied frames and valid pages, a counter of 0, and fewer than 2^31 faults
-- of the process one after another, each an invalid load or store of a page that is missing, has a
-- number below 32 and is of its own segment or, where the shared table is also entered under number
-- 0, of the shared one, and each ended by the handler's loading the process, while between them
-- only the pager changes the tables, the segments, the frames and the counter. In the state after
-- them an occupied frame holds a page whose entry is valid and names this frame, a page with a
-- number below 32 and a valid entry is in a frame, and the counter is the number of these faults.
pub Paged-IsPool :
    (n : ℕ) (s : Support)
    → Paged n s
    → n < 2 ^ 31
    → IsPool s.layout (s.segments 1).kuseg3 s.tables s.frames × (s.next_frame ≡ n)
Paged-IsPool zero s (fresh _ f) l = (fresh-IsPool s f, f.counter)
Paged-IsPool (suc n) u (served _ segment page s w _ p q run k) l =
    let (pool, c) = Paged-IsPool n s p (omega arith) in
    let (x, v) = user_tlb_handler-Serves s segment page (omega (arith, c)) pool q in
    let e : x ≡ w = ap (final s) (sym v.run ∙ run) in
    let k' = served-Keeps s x segment page v in
    let after =
      kept-IsPool
        (record s {
          tables = x.tables;
          next_frame = s.next_frame + 1;
          frames = filled s segment page;
        })
        x k' v.pool in
    let counted : u.next_frame ≡ s.next_frame + 1 =
      sym k.counter ∙ ap (λ (y : Support). y.next_frame) (sym e) ∙ sym k'.counter in
    (
      kept-IsPool w u k (
          subst (λ (y : Support). IsPool y.layout (y.segments 1).kuseg3 y.tables y.frames) e after),
      omega (arith, c, counted),
    )
