-- ===== src/Asl.antt =====
-- kaya/phase1/asl.c: the active semaphore list, sorted by the semaphores' addresses between two
-- dummy nodes, and the stack of free descriptors.
pub mod Shape
pub mod Search
pub mod Order
pub mod Frame
pub mod Waiting
pub mod Block
pub mod Unblock
pub mod Init
mod Tests
use skara.Base.{ℕ, zero, suc, ◌+◌, ◌*◌, Bool, true, false, ◌==◌, if◌then◌else◌, update, ltb}
use skara.Machine.{
  Ptr, null, Cmd, ok, out_of_fuel, pure, ◌>>=◌, ◌>>◌, get, modify, zoom, read, write,
}
use skara.Pcb.Queue.{
  max_proc, mk_empty_proc_q, empty_proc_q, head_proc_q, insert_proc_q, remove_proc_q, out_proc_q,
}
use skara.Pcb.Table.{Pcbs, on_links}

-- The size of a `semd_t` in bytes.
abbrev pub semd_size : ℕ
semd_size = 12

-- The fields of every `semd_t`, the heads `semd_h` and `semdFree_h`, the address of `semdTable`,
-- and the blocks that wait.
pub record Asl : Type 0 where
  pub pcbs : Pcbs
  pub s_next : Ptr → Ptr
  pub s_sem_add : Ptr → Ptr
  pub s_proc_q : Ptr → Ptr
  pub semd_h : Ptr
  pub semd_free_h : Ptr
  pub semd_table : Ptr

abbrev pub on_pcbs : {A : Type 0} → Cmd Pcbs A → Cmd Asl A
on_pcbs = zoom (λ s. s.pcbs) (λ t s. record s { pcbs = t })

abbrev pub get_s_next : Ptr → Cmd Asl Ptr
get_s_next = read (λ s. s.s_next)

abbrev pub get_s_sem_add : Ptr → Cmd Asl Ptr
get_s_sem_add = read (λ s. s.s_sem_add)

abbrev pub get_s_proc_q : Ptr → Cmd Asl Ptr
get_s_proc_q = read (λ s. s.s_proc_q)

abbrev pub set_s_next : Ptr → Ptr → Cmd Asl (Unit {0})
set_s_next d v = write (λ s. record s { s_next = update s.s_next d v }) d

abbrev pub set_s_sem_add : Ptr → Ptr → Cmd Asl (Unit {0})
set_s_sem_add d v = write (λ s. record s { s_sem_add = update s.s_sem_add d v }) d

abbrev pub set_s_proc_q : Ptr → Ptr → Cmd Asl (Unit {0})
set_s_proc_q d v = write (λ s. record s { s_proc_q = update s.s_proc_q d v }) d

abbrev pub get_p_sem_add : Ptr → Cmd Asl Ptr
get_p_sem_add = read (λ s. s.pcbs.p_sem_add)

abbrev pub set_p_sem_add : Ptr → Ptr → Cmd Asl (Unit {0})
set_p_sem_add p v =
    write (λ s. record s { pcbs = record (s.pcbs) { p_sem_add = update s.pcbs.p_sem_add p v } }) p

unfoldable pub free_semd : Ptr → Cmd Asl (Unit {0})
free_semd d = do s ← get; set_s_next d s.semd_free_h; modify (λ s. record s { semd_free_h = d })

unfoldable pub alloc_semd : Cmd Asl Ptr
alloc_semd = do
  s ← get
  if s.semd_free_h == null then pure null else (do
    next ← get_s_next s.semd_free_h
    modify (λ t. record t { semd_free_h = next })
    set_s_next s.semd_free_h null
    set_s_sem_add s.semd_free_h 0
    set_s_proc_q s.semd_free_h null
    pure s.semd_free_h)

-- The walk to the node before the first whose address is not below `sem_add`.
pub search_loop : ℕ → Ptr → Ptr → Cmd Asl Ptr
search_loop zero sem_add current = λ _. out_of_fuel
search_loop (suc fuel) sem_add current = do
  next ← get_s_next current
  key ← get_s_sem_add next
  if ltb key sem_add then search_loop fuel sem_add next else pure current

-- The list has at most `MAXPROC` descriptors besides the dummies.
unfoldable pub search_asl : Ptr → Cmd Asl Ptr
search_asl sem_add = do s ← get; search_loop (suc max_proc) sem_add s.semd_h

-- `insertProcQ(&(node->s_procQ), p)` and the write of `p_semAdd`.
unfoldable pub enqueue : Ptr → Ptr → Ptr → Cmd Asl (Unit {0})
enqueue node sem_add p = do
  tp ← get_s_proc_q node
  tp' ← on_pcbs (on_links (insert_proc_q tp p))
  set_s_proc_q node tp'
  set_p_sem_add p sem_add

-- True if a descriptor is needed and none is free.
unfoldable pub insert_blocked : Ptr → Ptr → Cmd Asl Bool
insert_blocked sem_add p = do
  temp ← search_asl sem_add
  next ← get_s_next temp
  key ← get_s_sem_add next
  if key == sem_add then (do enqueue next sem_add p; pure false) else (do
    temp2 ← alloc_semd
    if temp2 == null then pure true else (do
      set_s_sem_add temp2 sem_add
      set_s_proc_q temp2 mk_empty_proc_q
      next ← get_s_next temp
      set_s_next temp2 next
      set_s_next temp temp2
      enqueue temp2 sem_add p
      pure false))

-- Takes the node behind `temp` off the list, if no block waits there, and frees it.
unfoldable pub release_empty : Ptr → Cmd Asl (Unit {0})
release_empty temp = do
  node ← get_s_next temp
  tp ← get_s_proc_q node
  if empty_proc_q tp
      then (do following ← get_s_next node; set_s_next temp following; free_semd node)
      else pure tt

unfoldable pub remove_blocked : Ptr → Cmd Asl Ptr
remove_blocked sem_add = do
  temp ← search_asl sem_add
  node ← get_s_next temp
  key ← get_s_sem_add node
  if key == sem_add
      then (do
        tp ← get_s_proc_q node
        (removed, tp') ← on_pcbs (on_links (remove_proc_q tp))
        set_s_proc_q node tp'
        release_empty temp
        pure removed)
      else pure null

unfoldable pub out_blocked : Ptr → Cmd Asl Ptr
out_blocked p = do
  sem_add ← get_p_sem_add p
  temp ← search_asl sem_add
  node ← get_s_next temp
  key ← get_s_sem_add node
  if key == sem_add
      then (do
        tp ← get_s_proc_q node
        (removed, tp') ← on_pcbs (on_links (out_proc_q tp p))
        set_s_proc_q node tp'
        release_empty temp
        pure removed)
      else pure null

unfoldable pub head_blocked : Ptr → Cmd Asl Ptr
head_blocked sem_add = do
  temp ← search_asl sem_add
  node ← get_s_next temp
  key ← get_s_sem_add node
  if key == sem_add
      then (do tp ← get_s_proc_q node; on_pcbs (on_links (head_proc_q tp)))
      else pure null

-- `for(i = ...; i < MAXPROC + 2; i++)`, with the rounds left to go.
free_table : ℕ → ℕ → Cmd Asl (Unit {0})
free_table zero i = pure tt
free_table (suc rounds) i = do
  s ← get
  free_semd (s.semd_table + i * semd_size)
  free_table rounds (suc i)

-- The allocation and linking of the two dummy nodes.
unfoldable pub link_dummies : Cmd Asl (Unit {0})
link_dummies = do
  dummy1 ← alloc_semd
  dummy2 ← alloc_semd
  set_s_sem_add dummy1 0
  set_s_sem_add dummy2 null
  modify (λ s. record s { semd_h = dummy1 })
  set_s_next dummy1 dummy2

unfoldable pub init_asl : Cmd Asl (Unit {0})
unfolding free_table
init_asl = do
  modify (λ s. record s { semd_free_h = null })
  free_table (max_proc + 2) 0
  link_dummies
