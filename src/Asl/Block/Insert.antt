-- ===== src/Asl/Block/Insert.antt =====
-- `insertBlocked` of kaya/phase1/asl.c.
use skara.Base.{
  ◌<◌, ◌≡◌, refl, sym, subst, ◌∙◌, ◌≢◌, ◌⊎◌, inl, inr, true, false, List, [], ◌∷◌, ◌++◌, arith,
  ◌==◌, length, Bool-cases, ==→eq, ==→ne,
}
use skara.Machine.{Ptr, null, ok}
use skara.Pcb.Queue.{max_proc}
use skara.Asl.{Asl, insert_blocked}
use skara.Asl.Shape.{Desc, IsAsl, waiting_at, IsIdle}
use skara.Asl.Search.{first_key, Place, find-Place, waiting_at-hit, waiting_at_miss}
use skara.Asl.Block.{Blocked}
use skara.Asl.Block.Hit.{block_hit}
use skara.Asl.Block.New.{block_full, block_new}

-- The two results of `insertBlocked`, by whether a descriptor is there or can be had.
abbrev pub Blocks : Asl → Ptr → Ptr → Ptr → Ptr → List Desc → List Ptr → Type 0
Blocks s h e k p ds fs =
    ((waiting_at k ds ≡ []) × (fs ≡ []) × (insert_blocked k p s ≡ ok true s))
    ⊎ (((waiting_at k ds ≢ []) ⊎ (fs ≢ []))
        × ((s' : Asl) × (ds' : List Desc) × (fs' : List Ptr) × (insert_blocked k p s ≡ ok false s')
            × Blocked s s' h e k p ds ds' fs'))

module _ (s : Asl) (h e k p : Ptr) (before : List Desc) where
  block_miss :
      (after : List Desc) (fs : List Ptr)
      → IsAsl s h e (before ++ after) fs
      → Place s h e k (before ++ after) before after
      → first_key after ≢ k
      → k < null
      → p ≢ null
      → IsIdle p (before ++ after)
      → Blocks s h e k p (before ++ after) fs
  block_miss after [] w a n kn pn idle = inl (
    waiting_at_miss k before after a.less a.rest w.sorted kn n,
    refl,
    block_full s h e k p before after w a n,
  )
  block_miss after (f ∷ fs) w a n kn pn idle =
      let (s', ds', run, b) = block_new s h e k p before after f fs w a n kn pn idle in
      inr (inr (λ y. cc), (s', ds', fs, run, b))

  block_at :
      (after : List Desc) (fs : List Ptr)
      → IsAsl s h e (before ++ after) fs
      → Place s h e k (before ++ after) before after
      → k < null
      → p ≢ null
      → IsIdle p (before ++ after)
      → length (waiting_at k (before ++ after)) < max_proc
      → Blocks s h e k p (before ++ after) fs
  block_at [] fs w a kn pn idle few = block_miss [] fs w a (λ y. absurd (omega arith)) kn pn idle
  block_at (d ∷ after) fs w a kn pn idle few = elim (Bool-cases (d.key == k)) [
    | inl y ↦
        let hit = ==→eq d.key k y in
        let (s', ds', run, b) = block_hit s h e k p before after fs d w a hit pn idle few in
        let busy = a.chain.1.busy in
        inr (
          inl (λ z. busy (sym (waiting_at-hit k before d after a.less hit) ∙ z)),
          (s', ds', fs, run, b),
        )
    | inr y ↦ block_miss (d ∷ after) fs w a (==→ne d.key k y) kn pn idle
  ]

-- In a well-formed list, for a semaphore below `NULL` at which fewer than `MAXPROC` blocks wait
-- and a block that is not `NULL` and waits nowhere, `insertBlocked` fails, and changes nothing,
-- exactly where no block waits at the semaphore and no descriptor is free. Otherwise the list
-- stays well-formed, the block waits there, behind those that did, and nothing else about who
-- waits where changes.
pub insert_blocked-IsAsl :
    {s : Asl} {h e : Ptr} (k p : Ptr) {ds : List Desc} {fs : List Ptr}
    → IsAsl s h e ds fs
    → k < null
    → p ≢ null
    → IsIdle p ds
    → length (waiting_at k ds) < max_proc
    → Blocks s h e k p ds fs
insert_blocked-IsAsl {s} {h} {e} k p {ds} {fs} w kn pn idle few =
    let (before, after, a) = find-Place s h e k ds fs w (omega arith) in
    let to = λ (P : List Desc → Type 0) (x : P ds). subst P a.split x in
    subst (λ l. Blocks s h e k p l fs) (sym a.split)
      (block_at s h e k p before after fs (to (λ l. IsAsl s h e l fs) w)
        (to (λ l. Place s h e k l before after) a) kn pn (to (IsIdle p) idle)
        (to (λ l. length (waiting_at k l) < max_proc) few))
