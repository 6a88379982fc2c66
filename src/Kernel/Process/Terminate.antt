-- ===== src/Kernel/Process/Terminate.antt =====
-- The death of a process with all its descendants: `HoneyIKilledTheKids` and `TerminateProcess` of
-- kaya/phase2/exceptions.c.
use skara.Base.{
  has-append, ℕ, suc, ◌<◌, ◌≤◌, ◌≡◌, refl, sym, ap, ◌∙◌, ◌≢◌, true, false, List, [], ◌∷◌, ◌++◌,
  arith, has, length, subst, ne→==, eq→==, erase,
}
use skara.Base.Word.{sub}
use skara.Machine.{Ptr, null, ok, and_then}
use skara.Pcb.Queue.{max_proc, Links}
use skara.Pcb.Tree.{Tree, empty_child, out_child}
use skara.Pcb.Tree.Shape.{IsChildren}
use skara.Pcb.Table.{free_pcb}
use skara.Pcb.Table.Free.{IsFree}
use skara.Asl.Shape.{Desc, waiting_at}
use skara.Asl.Waiting.{WaitsNowhere}
use skara.Kernel.{Kernel}
use skara.Kernel.State.{IsNucleus}
use skara.Kernel.Process.{honey_i_killed_the_kids, bury, terminate_process}
use skara.Kernel.Scheduler.{scheduler}
use skara.Pcb.Tree.Out.{out_child-IsChildren}
use skara.Kernel.Process.Kill.{freed, freed-IsNucleus}
use skara.Kernel.Process.Family.{Family, members, size, IsChildren-same}
use skara.Kernel.Process.Deaths.{
  erase_all, fewer, soft_after, words_after, off-erase_all, AreGone, Lives, both-AreGone,
  leaf-AreGone, Lives-AreGone,
}
use skara.Kernel.Process.Doomed.{IsDoomed, Spares, retreed}
use skara.Kernel.Process.Descent.{IsSound, gone-IsSound, retreed-IsSound, bereaves}

-- Given well-formed queues and a process that is not the current one, let it and each of its
-- descendants in the process tree, none of them the current process, either be ready and name no
-- semaphore, or wait at the semaphore that it names. With more fuel than there are descendants,
-- `HoneyIKilledTheKids` returns and all of them have died, children before their parents: the ready
-- queue and the semaphores' queues hold the others, in their order; the dead stand on the free list
-- behind the blocks that were free; the process count is one less for each. For each that waited
-- the soft-block count is one less if its semaphore is a device's, index 0 to 47, and otherwise,
-- also for the interval timer's, that semaphore is one more. No other block's tree fields change,
-- and of the process itself only its first child.
pub honey_i_killed_the_kids-AreGone :
    (s : Kernel) (q : Ptr) (f : Family) (fuel : ℕ) {h e : Ptr} {ds : List Desc} {fs rs : List Ptr}
    (frees : List Ptr)
    → IsSound s h e ds fs rs frees
    → IsDoomed s q f ds rs
    → q ≢ null
    → q ≢ s.current_process
    → Lives s ds rs q
    → size f < fuel
    → (u : Kernel) × (ds' : List Desc) × (fs' : List Ptr) × (honey_i_killed_the_kids fuel q s
        ≡ ok tt u)
      × AreGone s u h e (members f ++ q ∷ []) ds rs frees ds' fs'
      × Spares q (members f) s.asl.pcbs.tree u.asl.pcbs.tree
honey_i_killed_the_kids-AreGone s q f fuel {ds} {rs} frees n d qn qc life l =
    let (u, ds1, fs1, g, b) = bereaves f s q fuel frees n d qn l in
    let n1 = gone-IsSound s u (members f) n b.gone in
    let (v, ds2, fs2, death, gone, tree) =
      leaf-AreGone u q (frees ++ members f) g n1.nucleus n1.free n1.idle b.childless qn
        (λ e. qc (e ∙ b.gone.current)) n1.few
        (Lives-AreGone s u (members f) q b.gone d.outside life) in
    (
      v,
      ds2,
      fs2,
      b.run ∙ death,
      both-AreGone s u v (members f) (q ∷ []) b.gone gone,
      subst (λ (x : Tree). Spares q (members f) s.asl.pcbs.tree x) (sym tree) b.spares,
    )

off_both :
    (x : Ptr) (xs ys : List Ptr) → has x xs ≡ false → has x ys ≡ false → has x (xs ++ ys) ≡ false
off_both x xs ys o p = ground (arith, has-append x xs ys)

-- The end of the current process, when its descendants are dead.
bury_current :
    (s : Kernel) (q found : Ptr) (t : Tree) (l : Links) (fuel : ℕ)
    → q ≢ null
    → q ≡ s.current_process
    → s.asl.pcbs.tree.p_child q ≡ null
    → out_child q s.asl.pcbs.tree ≡ ok found t
    → free_pcb q (retreed s t).asl.pcbs
      ≡ ok tt (record ((retreed s t).asl.pcbs) { links = l; pcb_list_h = q })
    → honey_i_killed_the_kids (suc fuel) q s ≡ ok tt (freed (retreed s t) l q)
unfolding honey_i_killed_the_kids bury empty_child
bury_current s q found t l fuel qn current leaf run1 run2 =
    simp (ne→== q null qn, eq→== (s.asl.pcbs.tree.p_child q) null leaf)
      (simp (eq→== q s.current_process current) (simp (run1) (simp (run2) refl)))

-- `TerminateProcess` of the current process `q`, a child of `r`.
pub record Terminates (s u : Kernel) (h e q r : Ptr) (f : Family) (ds : List Desc)
    (rs frees xs : List Ptr) (ds' : List Desc) (fs' : List Ptr) : Type 0 where
  pub run : terminate_process q s ≡ scheduler u
  pub nucleus : IsNucleus u.asl u.ready_q h e ds' fs' (erase_all (members f) rs)
  pub free : IsFree u.asl.pcbs ((frees ++ members f) ++ q ∷ [])
  pub waits : (j : Ptr) → waiting_at j ds' ≡ erase_all (members f) (waiting_at j ds)
  pub siblings : IsChildren u.asl.pcbs.tree r (erase q xs)
  pub count : u.process_count ≡ sub (fewer (members f) s.process_count) 1
  pub soft :
      u.soft_block_count
      ≡ soft_after s.asl.pcbs.p_sem_add s.semaphore_array (members f) s.soft_block_count
  pub words : u.words ≡ words_after s.asl.pcbs.p_sem_add s.semaphore_array (members f) s.words

-- Where `q` is: among the children of `r`, and in no queue.
pub record IsCurrent (s : Kernel) (q r : Ptr) (f : Family) (ds : List Desc) (rs frees xs : List Ptr)
    : Type 0 where
  pub current : q ≡ s.current_process
  pub parent : IsChildren s.asl.pcbs.tree r xs
  pub child : has q xs ≡ true
  pub few : length xs ≤ max_proc
  pub real : q ≢ null
  pub parent_real : r ≢ null
  pub parent_other : r ≢ q
  pub parent_outside : has r (members f) ≡ false
  pub siblings_outside : (x : Ptr) → has x xs ≡ true → has x (members f) ≡ false
  pub not_ready : has q rs ≡ false
  pub not_waiting : WaitsNowhere q ds
  pub not_free : has q frees ≡ false

-- Given well-formed queues and the current process, in no queue and one of at most `MAXPROC`
-- children of a process that is not one of its descendants, let each of its at most `MAXPROC`
-- descendants in the process tree either be ready and name no semaphore, or wait at the semaphore
-- that it names. `TerminateProcess` then comes to the scheduler: the queues hold the others in
-- their order, the free list has the descendants, children before parents, and then the process
-- behind the blocks that were free, the parent has lost this child alone, and the process count is
-- one less for each. The soft-block count and the semaphores are accounted for the descendants that
-- waited, and not for the process.
pub terminate_process-Terminates :
    (s : Kernel) (q r : Ptr) (f : Family) {h e : Ptr} {ds : List Desc} {fs rs : List Ptr}
    (frees xs : List Ptr)
    → IsSound s h e ds fs rs frees
    → IsDoomed s q f ds rs
    → IsCurrent s q r f ds rs frees xs
    → size f ≤ max_proc
    → (u : Kernel) × (ds' : List Desc) × (fs' : List Ptr) × Terminates s u h e q r f ds rs frees xs
        ds' fs'
unfolding terminate_process
terminate_process-Terminates s q r f {ds} {rs} frees xs n d c l =
    let (u, ds1, fs1, g, b) = bereaves f s q (suc max_proc) frees n d c.real (omega arith) in
    let parent =
      IsChildren-same s.asl.pcbs.tree u.asl.pcbs.tree r xs c.parent
        (b.spares.child r c.parent_other c.parent_outside)
        (λ x i. b.spares.siblings x (c.siblings_outside x i)) in
    let (t, run1, siblings, _) = out_child-IsChildren q xs parent c.parent_real c.child c.few in
    let v = retreed u t in
    let n1 = retreed-IsSound u t (gone-IsSound s u (members f) n b.gone) in
    let (links, run2, n2, f2) =
      freed-IsNucleus v q (frees ++ members f) n1.nucleus n1.free n1.idle c.real
        (off-erase_all q (members f) rs c.not_ready)
        (λ j.
          subst (λ ys. has q ys ≡ false) (sym (b.gone.waits j))
            (off-erase_all q (members f) (waiting_at j ds) (c.not_waiting j)))
        (off_both q frees (members f) c.not_free d.outside) in
    let death =
      b.run
      ∙ bury_current u q q t links g c.real (c.current ∙ sym b.gone.current) b.childless.siblings
          run1 run2 in
    (
      freed v links q,
      ds1,
      fs1,
      record {
        run = ap (λ m. and_then m (λ _. scheduler)) death;
        nucleus = n2;
        free = f2;
        waits = b.gone.waits;
        siblings = siblings;
        count = ap (λ k. sub k 1) b.gone.count;
        soft = b.gone.soft;
        words = b.gone.words;
      },
    )
