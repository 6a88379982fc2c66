-- ===== src/Pcb/Tree.antt =====
-- The process tree of kaya/phase1/pcb.c: each block has a first child, and the children of a block
-- form a NULL-terminated, doubly linked list of siblings.
pub mod Shape
pub mod Children
pub mod Out
use skara.Base.{ℕ, zero, suc, Bool, true, false, ◌==◌, if◌then◌else◌, update, ◌&&◌}
use skara.Machine.{Ptr, null, Cmd, ok, out_of_fuel, pure, ◌>>=◌, ◌>>◌, read, write}
use skara.Pcb.Queue.{max_proc}

-- The fields `p_prnt`, `p_child`, `p_sib_prev` and `p_sib_next` of every `pcb_t`.
pub record Tree : Type 0 where
  pub p_prnt : Ptr → Ptr
  pub p_child : Ptr → Ptr
  pub p_sib_prev : Ptr → Ptr
  pub p_sib_next : Ptr → Ptr

abbrev pub get_prnt : Ptr → Cmd Tree Ptr
get_prnt = read (λ t. t.p_prnt)

abbrev pub get_child : Ptr → Cmd Tree Ptr
get_child = read (λ t. t.p_child)

abbrev pub get_sib_prev : Ptr → Cmd Tree Ptr
get_sib_prev = read (λ t. t.p_sib_prev)

abbrev pub get_sib_next : Ptr → Cmd Tree Ptr
get_sib_next = read (λ t. t.p_sib_next)

abbrev pub set_prnt : Ptr → Ptr → Cmd Tree (Unit {0})
set_prnt p v = write (λ t. record t { p_prnt = update t.p_prnt p v }) p

abbrev pub set_child : Ptr → Ptr → Cmd Tree (Unit {0})
set_child p v = write (λ t. record t { p_child = update t.p_child p v }) p

abbrev pub set_sib_prev : Ptr → Ptr → Cmd Tree (Unit {0})
set_sib_prev p v = write (λ t. record t { p_sib_prev = update t.p_sib_prev p v }) p

abbrev pub set_sib_next : Ptr → Ptr → Cmd Tree (Unit {0})
set_sib_next p v = write (λ t. record t { p_sib_next = update t.p_sib_next p v }) p

unfoldable pub empty_child : Ptr → Cmd Tree Bool
empty_child p = do child ← get_child p; pure (child == null)

unfoldable pub insert_child : Ptr → Ptr → Cmd Tree (Unit {0})
unfolding empty_child
insert_child prnt p = do
  set_prnt p prnt
  childless ← empty_child prnt
  if childless then set_child prnt p else (do
    child ← get_child prnt
    set_sib_next p child
    child ← get_child prnt
    set_sib_prev child p
    set_child prnt p)

unfoldable pub remove_child : Ptr → Cmd Tree Ptr
unfolding empty_child
remove_child p = do
  childless ← empty_child p
  if childless then pure null else (do
    child ← get_child p
    following ← get_sib_next child
    previous ← get_sib_prev child
    if (following == null) && (previous == null)
        then (do set_child p null; pure child)
        else (do set_child p following; first ← get_child p; set_sib_prev first null; pure child))

-- The unlinking of a child that is not the first.
out_sibling : Ptr → Cmd Tree (Unit {0})
out_sibling p = do
  following ← get_sib_next p
  previous ← get_sib_prev p
  if following == null
      then set_sib_next previous following
      else (do set_sib_next previous following; set_sib_prev following previous)

-- The walk along the siblings, from `current` until `p` is met. It has no other end.
out_child_loop : ℕ → Ptr → Ptr → Cmd Tree (Unit {0})
unfolding out_sibling
out_child_loop zero p current = λ _. out_of_fuel
out_child_loop (suc fuel) p current =
    if current == p
    then out_sibling p
    else do following ← get_sib_next current; out_child_loop fuel p following

-- A block has fewer than `MAXPROC` siblings, so the walk ends within the fuel.
unfoldable pub out_child : Ptr → Cmd Tree Ptr
unfolding remove_child out_child_loop
out_child p = do
  parent ← get_prnt p
  if parent == null then pure null else (do
    child ← get_child parent
    if child == p then remove_child parent else do out_child_loop (suc max_proc) p child; pure p)
