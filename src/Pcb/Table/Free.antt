-- ===== src/Pcb/Table/Free.antt =====
-- `freePcb` and `allocPcb` of kaya/phase1/pcb.c.
use skara.Base.{ℕ, ◌<◌, ◌≡◌, refl, ◌≢◌, false, List, [], ◌∷◌, ◌++◌, arith, has, ◌==◌, has-last}
use skara.Machine.{Ptr, null, ok}
use skara.Pcb.Queue.{Links}
use skara.Pcb.Queue.Shape.{IsQueue, SameOutside, IsQueue-frame}
use skara.Pcb.Queue.Insert.{insert_proc_q-IsQueue}
use skara.Pcb.Queue.Remove.{remove_proc_q-IsQueue}
use skara.Pcb.Table.{Pcbs, free_pcb, alloc_pcb, clear_fields}

-- The free list holds the blocks `xs`, first to be allocated first.
abbrev pub IsFree : Pcbs → List Ptr → Type 0
IsFree s xs = IsQueue s.links s.pcb_list_h xs

-- Every field of the block but its state is `NULL` or zero.
pub record IsClear (s : Pcbs) (p : Ptr) : Type 0 where
  pub next : s.links.p_next p ≡ null
  pub prev : s.links.p_prev p ≡ null
  pub prnt : s.tree.p_prnt p ≡ null
  pub child : s.tree.p_child p ≡ null
  pub sib_prev : s.tree.p_sib_prev p ≡ null
  pub sib_next : s.tree.p_sib_next p ≡ null
  pub sem_add : s.p_sem_add p ≡ null
  pub total_time : s.p_total_time p ≡ 0
  pub areas : (i : ℕ) → i < 3 → (s.old_areas p i ≡ null) × (s.new_areas p i ≡ null)

-- `u` has the fields of `s` at every block but `p`, links aside.
pub record SameBut (p : Ptr) (s u : Pcbs) : Type 0 where
  pub prnt : (a : Ptr) → a ≢ p → u.tree.p_prnt a ≡ s.tree.p_prnt a
  pub child : (a : Ptr) → a ≢ p → u.tree.p_child a ≡ s.tree.p_child a
  pub sib_prev : (a : Ptr) → a ≢ p → u.tree.p_sib_prev a ≡ s.tree.p_sib_prev a
  pub sib_next : (a : Ptr) → a ≢ p → u.tree.p_sib_next a ≡ s.tree.p_sib_next a
  pub sem_add : (a : Ptr) → a ≢ p → u.p_sem_add a ≡ s.p_sem_add a
  pub total_time : (a : Ptr) → a ≢ p → u.p_total_time a ≡ s.p_total_time a
  pub states : (a : Ptr) → u.p_s a ≡ s.p_s a
  pub areas :
      (a : Ptr) (i : ℕ)
      → a ≢ p
      → (u.old_areas a i ≡ s.old_areas a i) × (u.new_areas a i ≡ s.new_areas a i)

-- `freePcb` of a block that is not `NULL` and not free puts it at the end of the free list, and
-- changes nothing but links of free blocks and its own.
pub free_pcb-IsFree :
    (s : Pcbs) (p : Ptr) (xs : List Ptr)
    → IsFree s xs
    → p ≢ null
    → has p xs ≡ false
    → (l : Links) × (free_pcb p s ≡ ok tt (record s { links = l; pcb_list_h = p }))
      × IsFree (record s { links = l; pcb_list_h = p }) (xs ++ p ∷ [])
      × SameOutside (p ∷ xs) s.links l
unfolding free_pcb
free_pcb-IsFree s p xs q ne out =
    let (l, run, q', same) = insert_proc_q-IsQueue p xs q ne out in (l, rw run, q', same)

-- When no block is free `allocPcb` returns `NULL` and changes nothing.
pub alloc_pcb-nil : (s : Pcbs) → IsFree s [] → alloc_pcb s ≡ ok null s
unfolding alloc_pcb
alloc_pcb-nil s q = ground (arith, q.tail)

clear_fields-IsClear : (s : Pcbs) (p : Ptr) → IsClear (clear_fields p s) p
unfolding clear_fields
clear_fields-IsClear s p = record {
  next = ground arith;
  prev = ground arith;
  prnt = ground arith;
  child = ground arith;
  sib_prev = ground arith;
  sib_next = ground arith;
  sem_add = ground arith;
  total_time = ground arith;
  areas = λ i h. ground arith;
}

clear_fields-SameBut :
    (s : Pcbs) (l : Links) (tp p : Ptr)
    → SameBut p s (clear_fields p (record s { links = l; pcb_list_h = tp }))
unfolding clear_fields
clear_fields-SameBut s l tp p = record {
  prnt = λ a n. ground arith;
  child = λ a n. ground arith;
  sib_prev = λ a n. ground arith;
  sib_next = λ a n. ground arith;
  sem_add = λ a n. ground arith;
  total_time = λ a n. ground arith;
  states = λ a. refl;
  areas = λ a i n. ground arith;
}

-- When a block is free `allocPcb` returns the first free one and takes it off the free list. Every
-- field of it is cleared but its state: unlike what the comment on `allocPcb` promises, the state
-- that the block had before stays in it. No field of another block changes, but for the links of free
-- blocks.
pub alloc_pcb-IsFree :
    (s : Pcbs) (x : Ptr) (xs : List Ptr)
    → IsFree s (x ∷ xs)
    → (u : Pcbs) × (alloc_pcb s ≡ ok x u)
      × IsFree u xs
      × IsClear u x
      × SameBut x s u
      × SameOutside (x ∷ xs) s.links u.links
unfolding alloc_pcb
alloc_pcb-IsFree s x xs q =
    let (tp, l, run, q', same) = remove_proc_q-IsQueue x xs q in
    let h : (s.pcb_list_h == null) ≡ false = ground (arith, q.tail, has-last x xs) in
    let n : (x == null) ≡ false = ground arith in
    let u : Pcbs = clear_fields x (record s { links = l; pcb_list_h = tp }) in
    (
      u,
      rw (h, run, n),
      IsQueue-frame xs q' (λ y i. ground arith),
      clear_fields-IsClear (record s { links = l; pcb_list_h = tp }) x,
      clear_fields-SameBut s l tp x,
      λ a o. ground (arith, same a),
    )
