-- ===== src/Asl/Init.antt =====
-- `initASL` of kaya/phase1/asl.c.
use skara.Base.{
  ℕ, zero, suc, ◌+◌, ◌*◌, ◌≤◌, ◌≡◌, refl, subst, ◌≢◌, false, List, [], ◌∷◌, arith, has, Distinct,
  length, update, ne→==, ◌∙◌,
}
use skara.Machine.{Ptr, null, ok}
use skara.Pcb.Queue.{max_proc}
use skara.Asl.{Asl, init_asl, link_dummies, alloc_semd, free_semd, free_table, semd_size}
use skara.Asl.Shape.{IsAsl, Stack}
use skara.Asl.Frame.{Stack-same}

-- The stack after `n` nodes of the table, from index `i`, are put on the stack `fs`.
abbrev pub stacked : ℕ → ℕ → ℕ → List Ptr → List Ptr
stacked base zero i fs = fs
stacked base (suc n) i fs = stacked base n (suc i) ((base + i * semd_size) ∷ fs)

free_table-Stack :
    (s : Asl) (n i : ℕ) (fs : List Ptr)
    → Stack s s.semd_free_h fs
    → Distinct fs
    → ((j : ℕ) → i ≤ j → has (s.semd_table + j * semd_size) fs ≡ false)
    → s.semd_table + (i + n) * semd_size ≤ null
    → (u : Asl) × (free_table n i s ≡ ok tt u)
      × Stack u u.semd_free_h (stacked s.semd_table n i fs)
      × Distinct (stacked s.semd_table n i fs)
      × (u.pcbs ≡ s.pcbs)
unfolding free_table free_semd
free_table-Stack s zero i fs t d new fits = (s, refl, t, d, refl)
free_table-Stack s (suc n) i fs t d new fits =
    let f = s.semd_table + i * semd_size in
    let s' : Asl = record s { s_next = update s.s_next f s.semd_free_h; semd_free_h = f } in
    let fn : f ≢ null = omega arith in
    let out = new i (omega arith) in
    let t' : Stack s' f (f ∷ fs) = (
      refl,
      fn,
      subst (λ (x : Ptr). Stack s' x fs) (ground arith)
          (Stack-same s s' f s.semd_free_h fs t λ x i. ground arith),
    ) in
    let (u, run, t'', d'', same) =
      free_table-Stack s' n (suc i) (f ∷ fs) t' (out, d) (λ j h. ground (arith, new j))
        (omega arith) in
    (u, rw (ne→== f null fn) run, t'', d'', same)

-- The store after the nodes `d` and `e` are taken from the stack and linked.
abbrev linked : Asl → Ptr → Ptr → Asl
linked s d e = record s {
  s_next = update (update (update s.s_next d null) e null) d e;
  s_sem_add = update (update (update (update s.s_sem_add d 0) e 0) d 0) e null;
  s_proc_q = update (update s.s_proc_q d null) e null;
  semd_free_h = s.s_next e;
  semd_h = d;
}

-- A list with no descriptors, whose end node has no queue and no successor.
pub record IsNew (s : Asl) (h e : Ptr) (fs : List Ptr) : Type 0 where
  pub shape : IsAsl s h e [] fs
  pub no_queue : s.s_proc_q e ≡ null
  pub no_next : s.s_next e ≡ null

link_dummies-IsNew :
    (s : Asl) (d e : Ptr) (fs : List Ptr)
    → Stack s s.semd_free_h (d ∷ e ∷ fs)
    → Distinct (d ∷ e ∷ fs)
    → length fs ≤ max_proc
    → (u : Asl) × (link_dummies s ≡ ok tt u) × IsNew u d e fs × (u.pcbs ≡ s.pcbs)
unfolding link_dummies alloc_semd
link_dummies-IsNew s d e fs t u few =
    let s' = linked s d e in
    let ne : e ≢ d = ground arith in
    let nd : d ≢ e = ground arith in
    let te : s.s_next d ≡ e = t.2.0 in
    (
      s',
      simp (t.0, ne→== d null t.1, te, ne→== e d ne, ne→== e null t.2.1),
      record {
        shape = record {
          head = refl;
          head_address = t.1;
          end_address = t.2.1;
          end_key = ground arith;
          chain = ground arith;
          sorted = tt;
          free = Stack-same s s' e (s.s_next e) fs t.2.2 λ x i. ground arith;
          count = omega (arith, few);
          distinct = u;
        };
        no_queue = ground arith;
        no_next = ground arith;
      },
      refl,
    )

-- After `initASL` no block waits anywhere, `MAXPROC` descriptors are free, and the list is the two
-- dummy nodes, wherever the table lies below `NULL`, and whatever was there before. No block changes.
pub init_asl-IsAsl :
    (s : Asl)
    → s.semd_table + 22 * semd_size ≤ null
    → (u : Asl) × (init_asl s ≡ ok tt u)
      × IsNew u
          (s.semd_table + 21 * semd_size)
          (s.semd_table + 20 * semd_size)
          (stacked s.semd_table 20 0 [])
      × (u.pcbs ≡ s.pcbs)
unfolding init_asl
init_asl-IsAsl s fits =
    let (v, run, t, d, same) =
      free_table-Stack (record s { semd_free_h = null }) 22 0 [] refl tt (λ j h. refl)
        (omega arith) in
    let (u, run', new, same') =
      link_dummies-IsNew v (s.semd_table + 21 * semd_size) (s.semd_table + 20 * semd_size)
        (stacked s.semd_table 20 0 []) t d (omega arith) in
    (u, rw run run', new, same' ∙ same)
