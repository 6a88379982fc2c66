-- ===== src/Pcb/Table.antt =====
-- The table of process control blocks and the free list of kaya/phase1/pcb.c.
pub mod Free
pub mod Init
use skara.Base.{ℕ, zero, suc, ◌+◌, ◌*◌, Bool, true, false, ◌==◌, if◌then◌else◌, update, ltb}
use skara.Machine.{Ptr, null, ProcState, Cmd, ok, pure, ◌>>=◌, ◌>>◌, get, modify, zoom, read, write}
use skara.Pcb.Queue.{Links, max_proc, mk_empty_proc_q, empty_proc_q, insert_proc_q, remove_proc_q}
use skara.Pcb.Tree.{Tree}

abbrev pub num_exception_types : ℕ
num_exception_types = 3

-- The size of a `pcb_t` in bytes: six pointers, a state of 35 words, two words, six pointers.
abbrev pub pcb_size : ℕ
pcb_size = 196

-- Every field of every `pcb_t`, the list head `pcbList_h`, and the address of `procTable`.
pub record Pcbs : Type 0 where
  pub links : Links
  pub tree : Tree
  pub p_s : Ptr → ProcState
  pub p_sem_add : Ptr → Ptr
  pub p_total_time : Ptr → ℕ
  pub old_areas : Ptr → ℕ → Ptr
  pub new_areas : Ptr → ℕ → Ptr
  pub pcb_list_h : Ptr
  pub proc_table : Ptr

abbrev pub on_links : {A : Type 0} → Cmd Links A → Cmd Pcbs A
on_links = zoom (λ s. s.links) (λ l s. record s { links = l })

abbrev pub on_tree : {A : Type 0} → Cmd Tree A → Cmd Pcbs A
on_tree = zoom (λ s. s.tree) (λ t s. record s { tree = t })

unfoldable pub free_pcb : Ptr → Cmd Pcbs (Unit {0})
free_pcb p = do
  s ← get
  tp ← on_links (insert_proc_q s.pcb_list_h p)
  modify (λ s. record s { pcb_list_h = tp })

abbrev pub clear_links : Ptr → Links → Links
clear_links p l = record { p_prev = update l.p_prev p null; p_next = update l.p_next p null }

abbrev pub clear_tree : Ptr → Tree → Tree
clear_tree p t = record {
  p_prnt = update t.p_prnt p null;
  p_child = update t.p_child p null;
  p_sib_prev = update t.p_sib_prev p null;
  p_sib_next = update t.p_sib_next p null;
}

-- `for(i = ...; i < NUMEXCEPTIONTYPES; i++)`, with the rounds left to go.
clear_areas : ℕ → ℕ → Ptr → Pcbs → Pcbs
clear_areas zero i p s = s
clear_areas (suc rounds) i p s = clear_areas rounds (suc i) p (record s {
  old_areas = update s.old_areas p (update (s.old_areas p) i null);
  new_areas = update s.new_areas p (update (s.new_areas p) i null);
})

-- The assignments to the fields of the new block. The state `p_s` is not among them.
clear_fields : Ptr → Pcbs → Pcbs
unfolding clear_areas
clear_fields p s = clear_areas num_exception_types 0 p (record s {
  links = clear_links p s.links;
  tree = clear_tree p s.tree;
  p_sem_add = update s.p_sem_add p null;
  p_total_time = update s.p_total_time p 0;
})

unfoldable pub alloc_pcb : Cmd Pcbs Ptr
unfolding clear_fields
alloc_pcb = do
  s ← get
  if empty_proc_q s.pcb_list_h then pure null else (do
    (elem, tp) ← on_links (remove_proc_q s.pcb_list_h)
    modify (λ s. record s { pcb_list_h = tp })
    write (clear_fields elem) elem
    pure elem)

-- `for(i = ...; i < MAXPROC; i++)`, with the rounds left to go.
free_table : ℕ → ℕ → Cmd Pcbs (Unit {0})
free_table zero i = pure tt
free_table (suc rounds) i = do
  s ← get
  free_pcb (s.proc_table + i * pcb_size)
  free_table rounds (suc i)

unfoldable pub init_pcbs : Cmd Pcbs (Unit {0})
unfolding free_table
init_pcbs = do modify (λ s. record s { pcb_list_h = mk_empty_proc_q }); free_table max_proc 0
