-- ===== src/Asl/Shape.antt =====
-- What it is for the store to hold an active semaphore list, and the map from semaphores to waiting
-- blocks that the list stands for.
use skara.Base.{
  ◌<◌, ◌+◌, ◌≤◌, ◌≡◌, ◌≢◌, true, false, List, [], ◌∷◌, ◌++◌, has, Distinct, ◌==◌, if◌then◌else◌,
  length,
}
use skara.Machine.{Ptr, null}
use skara.Pcb.Queue.{max_proc}
use skara.Pcb.Queue.Shape.{IsQueue}
use skara.Asl.{Asl}

-- An active descriptor: its address, its semaphore, and the blocks that wait there, first to last.
pub record Desc : Type 0 where
  pub node : Ptr
  pub key : Ptr
  pub waiting : List Ptr

abbrev pub All : (Desc → Type 0) → List Desc → Type 0
All P [] = Unit {0}
All P (d ∷ ds) = P d × All P ds

abbrev pub nodes : List Desc → List Ptr
nodes [] = []
nodes (d ∷ ds) = d.node ∷ nodes ds

-- The fields of a descriptor's node, its queue, and the semaphore that its blocks name.
pub record Holds (s : Asl) (d : Desc) : Type 0 where
  pub address : d.node ≢ null
  pub below : d.key < null
  pub key : s.s_sem_add d.node ≡ d.key
  pub busy : d.waiting ≢ []
  pub few : length d.waiting ≤ max_proc
  pub queue : IsQueue s.pcbs.links (s.s_proc_q d.node) d.waiting
  pub names : (x : Ptr) → has x d.waiting ≡ true → s.pcbs.p_sem_add x ≡ d.key

-- From `c` the successors lead through the nodes of the descriptors to the end node `e`.
abbrev pub Nodes : Asl → Ptr → Ptr → List Desc → Type 0
Nodes s e c [] = c ≡ e
Nodes s e c (d ∷ ds) = (c ≡ d.node) × Holds s d × Nodes s e (s.s_next c) ds

-- From `c` the successors lead through the free descriptors to `NULL`.
abbrev pub Stack : Asl → Ptr → List Ptr → Type 0
Stack s c [] = c ≡ null
Stack s c (f ∷ fs) = (c ≡ f) × (f ≢ null) × Stack s (s.s_next f) fs

-- The semaphores' addresses rise along the list.
abbrev pub Above : Ptr → List Desc → Type 0
Above k [] = Unit {0}
Above k (d ∷ ds) = (k < d.key) × Above d.key ds

abbrev pub IsSorted : List Desc → Type 0
IsSorted [] = Unit {0}
IsSorted (d ∷ ds) = Above d.key ds

-- The list between the dummy nodes `h` and `e` holds the descriptors `ds`, and `fs` are free.
pub record IsAsl (s : Asl) (h e : Ptr) (ds : List Desc) (fs : List Ptr) : Type 0 where
  pub head : s.semd_h ≡ h
  pub head_address : h ≢ null
  pub end_address : e ≢ null
  pub end_key : s.s_sem_add e ≡ null
  pub chain : Nodes s e (s.s_next h) ds
  pub sorted : IsSorted ds
  pub free : Stack s s.semd_free_h fs
  pub count : length ds + length fs ≤ max_proc
  pub distinct : Distinct ((h ∷ nodes ds) ++ e ∷ fs)

-- The blocks that wait at a semaphore.
abbrev pub waiting_at : Ptr → List Desc → List Ptr
waiting_at k [] = []
waiting_at k (d ∷ ds) = if k == d.key then d.waiting else waiting_at k ds

-- The block waits nowhere.
abbrev pub IsIdle : Ptr → List Desc → Type 0
IsIdle p = All (λ d. has p d.waiting ≡ false)
