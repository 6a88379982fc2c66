-- ===== src/Pcb/Table/Init.antt =====
-- `initPcbs` of kaya/phase1/pcb.c.
use skara.Base.{
  ℕ, zero, suc, ◌+◌, ◌*◌, ◌≤◌, ◌<◌, ◌≡◌, refl, false, List, [], ◌∷◌, ◌++◌, arith, has, has-append,
}
use mathlib.Core.List.{append_assoc, append-nil}
use skara.Machine.{Ptr, null, ok}
use skara.Pcb.Table.{Pcbs, init_pcbs, free_table, pcb_size}
use skara.Pcb.Table.Free.{IsFree, free_pcb-IsFree}

-- The addresses of `n` blocks of the table from index `i`.
abbrev pub blocks : ℕ → ℕ → ℕ → List Ptr
blocks base zero i = []
blocks base (suc n) i = (base + i * pcb_size) ∷ blocks base n (suc i)

has-blocks : (base n i j : ℕ) → j < i → has (base + j * pcb_size) (blocks base n i) ≡ false
has-blocks base zero i j h = refl
has-blocks base (suc n) i j h = ground (arith, has-blocks base n (suc i) j)

free_table-IsFree :
    (s : Pcbs) (n i : ℕ) (xs : List Ptr)
    → IsFree s xs
    → ((j : ℕ) → i ≤ j → has (s.proc_table + j * pcb_size) xs ≡ false)
    → s.proc_table + (i + n) * pcb_size ≤ null
    → (u : Pcbs) × (free_table n i s ≡ ok tt u) × IsFree u (xs ++ blocks s.proc_table n i)
unfolding free_table
free_table-IsFree s zero i xs q new fits = (s, refl, simp append-nil q)
free_table-IsFree s (suc n) i xs q new fits =
    let p = s.proc_table + i * pcb_size in
    let (l, run, q', same) = free_pcb-IsFree s p xs q (omega arith) (new i (omega arith)) in
    let s' : Pcbs = record s { links = l; pcb_list_h = p } in
    let (u, rest, q'') =
      free_table-IsFree s' n (suc i) (xs ++ p ∷ []) q'
        (λ j h. ground (arith, new j, has-append (s.proc_table + j * pcb_size) xs (p ∷ [])))
        (omega arith) in
    (u, rw (run) rest, simp append_assoc at q'')

-- After `initPcbs` the free list holds exactly the `MAXPROC` blocks of the table, in order, wherever
-- the table lies below `NULL`, and whatever the list was before.
pub init_pcbs-IsFree :
    (s : Pcbs)
    → s.proc_table + 20 * pcb_size ≤ null
    → (u : Pcbs) × (init_pcbs s ≡ ok tt u) × IsFree u (blocks s.proc_table 20 0)
unfolding init_pcbs
init_pcbs-IsFree s fits =
    free_table-IsFree (record s { pcb_list_h = null }) 20 0 []
      (record { tail = refl; chain = tt; distinct = tt; addresses = refl }) (λ j h. refl)
      (omega arith)
