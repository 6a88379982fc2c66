-- ===== src/Pcb/Queue.antt =====
-- The process queues of kaya/phase1/pcb.c. A queue is known by its tail pointer; a function that
-- takes `pcb_PTR *tp` is given the pointer's value and returns the new one.
pub mod Shape
pub mod Insert
pub mod Remove
pub mod Out
use skara.Base.{ℕ, zero, suc, Bool, true, false, ◌==◌, if◌then◌else◌, update}
use skara.Machine.{Ptr, null, Cmd, ok, out_of_fuel, pure, ◌>>=◌, ◌>>◌, read, write}

-- The fields `p_next` and `p_prev` of every `pcb_t`.
pub record Links : Type 0 where
  pub p_next : Ptr → Ptr
  pub p_prev : Ptr → Ptr

abbrev pub get_next : Ptr → Cmd Links Ptr
get_next = read (λ l. l.p_next)

abbrev pub get_prev : Ptr → Cmd Links Ptr
get_prev = read (λ l. l.p_prev)

abbrev pub set_next : Ptr → Ptr → Cmd Links (Unit {0})
set_next p v = write (λ l. record l { p_next = update l.p_next p v }) p

abbrev pub set_prev : Ptr → Ptr → Cmd Links (Unit {0})
set_prev p v = write (λ l. record l { p_prev = update l.p_prev p v }) p

abbrev pub max_proc : ℕ
max_proc = 20

abbrev pub mk_empty_proc_q : Ptr
mk_empty_proc_q = null

abbrev pub empty_proc_q : Ptr → Bool
empty_proc_q tp = tp == null

unfoldable pub head_proc_q : Ptr → Cmd Links Ptr
head_proc_q tp = if empty_proc_q tp then pure null else get_next tp

-- Returns the new tail.
unfoldable pub insert_proc_q : Ptr → Ptr → Cmd Links Ptr
insert_proc_q tp p = if empty_proc_q tp then (do set_prev p p; set_next p p; pure p) else do
  head ← get_next tp
  set_next p head
  head ← get_next tp
  set_prev head p
  set_prev p tp
  set_next tp p
  pure p

-- Returns the removed element and the new tail.
unfoldable pub remove_proc_q : Ptr → Cmd Links (Ptr × Ptr)
unfolding head_proc_q
remove_proc_q tp = if empty_proc_q tp then pure (null, tp) else do
  first ← head_proc_q tp
  if tp == first then pure (tp, mk_empty_proc_q) else do
    head ← get_next tp
    second ← get_next head
    set_next tp second
    second ← get_next tp
    set_prev second tp
    pure (head, tp)

-- What happens at the element: it is removed as the head of a queue whose tail is its predecessor.
unlink : Ptr → Cmd Links Ptr
unfolding remove_proc_q
unlink p = do temp ← get_prev p; (head, _) ← remove_proc_q temp; pure head

-- The walk round the queue, from `current` until the element or the tail is met.
out_loop : ℕ → Ptr → Ptr → Ptr → Cmd Links Ptr
unfolding unlink
out_loop zero tp p current = λ _. out_of_fuel
out_loop (suc fuel) tp p current = if current == p then unlink current else do
  following ← get_next current
  if following == tp then pure null else out_loop fuel tp p following

-- Returns the removed element, or `NULL`, and the new tail. A queue holds at most `MAXPROC`
-- elements, so the walk ends within the fuel.
unfoldable pub out_proc_q : Ptr → Ptr → Cmd Links (Ptr × Ptr)
unfolding head_proc_q remove_proc_q out_loop
out_proc_q tp p = if empty_proc_q tp then pure (null, tp) else do
  first ← head_proc_q tp
  if tp == first
      then (if tp == p then remove_proc_q tp else pure (null, tp))
      else if tp == p
      then (do prev ← get_prev tp; remove_proc_q prev)
      else do found ← out_loop (suc max_proc) tp p tp; pure (found, tp)
