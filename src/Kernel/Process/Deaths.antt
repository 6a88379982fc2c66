-- ===== src/Kernel/Process/Deaths.antt =====
-- Several deaths one after another, in `HoneyIKilledTheKids` of kaya/phase2/exceptions.c.
use skara.Base.{
  has_less, has-erase, erase-has, append_assoc, length, length-erase, ℕ, suc, ◌<◌, ◌≤◌, ◌≡◌, refl,
  sym, ap, ◌∙◌, ◌≢◌, ◌⊎◌, Bool, true, false, List, [], ◌∷◌, ◌++◌, arith, has, inl, inr, Bool-cases,
  erase, erase-absent, update, ==→eq, ==→ne, ◌==◌, subst, if◌then◌else◌, ◌&&◌, leb, ne→==, eq→==,
}
use skara.Base.Word.{add, sub}
use skara.Machine.{Ptr, null, ok}
use skara.Pcb.Queue.{max_proc}
use skara.Pcb.Tree.Shape.{IsChildren}
use skara.Pcb.Table.Free.{IsFree}
use skara.Asl.Shape.{Desc, waiting_at}
use skara.Asl.Waiting.{waits-once}
use skara.Kernel.{Kernel, semaphore_at}
use skara.Kernel.State.{IsNucleus}
use skara.Kernel.Process.{honey_i_killed_the_kids}
use skara.Kernel.Process.Kill.{AreIdle, excludes, honey_i_killed_the_kids-ready}
use skara.Kernel.Process.KillBlocked.{honey_i_killed_the_kids-blocked}

-- Lists and counts without the blocks that died.
unfoldable pub erase_all : List Ptr → List Ptr → List Ptr
erase_all [] xs = xs
erase_all (p ∷ ps) xs = erase_all ps (erase p xs)

unfoldable pub fewer : List Ptr → ℕ → ℕ
fewer [] c = c
fewer (p ∷ ps) c = fewer ps (sub c 1)

-- The account of a death in the soft-block count or at the semaphore, from the semaphore that the block
-- names, `NULL` if it is ready.
abbrev pub at_device : ℕ → Ptr → Bool
at_device array k = leb (semaphore_at array 0) k && leb k (semaphore_at array 47)

unfoldable pub soft_after : (Ptr → Ptr) → ℕ → List Ptr → ℕ → ℕ
soft_after names array [] c = c
soft_after names array (p ∷ ps) c =
    soft_after names array ps
      (if names p == null then c else if at_device array (names p) then sub c 1 else c)

unfoldable pub words_after : (Ptr → Ptr) → ℕ → List Ptr → (Ptr → ℕ) → Ptr → ℕ
words_after names array [] w = w
words_after names array (p ∷ ps) w = words_after names array ps (
    if names p == null
    then w
    else if at_device array (names p)
    then w
    else update w (names p) (add (w (names p)) 1))

pub erase_all-append :
    (ps qs xs : List Ptr) → erase_all (ps ++ qs) xs ≡ erase_all qs (erase_all ps xs)
unfolding erase_all
erase_all-append [] qs xs = refl
erase_all-append (p ∷ ps) qs xs = erase_all-append ps qs (erase p xs)

fewer-append : (ps qs : List Ptr) (c : ℕ) → fewer (ps ++ qs) c ≡ fewer qs (fewer ps c)
unfolding fewer
fewer-append [] qs c = refl
fewer-append (p ∷ ps) qs c = fewer-append ps qs (sub c 1)

soft_after-append :
    (names : Ptr → Ptr) (array : ℕ) (ps qs : List Ptr) (c : ℕ)
    → soft_after names array (ps ++ qs) c ≡ soft_after names array qs (soft_after names array ps c)
unfolding soft_after
soft_after-append names array [] qs c = refl
soft_after-append names array (p ∷ ps) qs c =
    soft_after-append names array ps qs
      (if names p == null then c else if at_device array (names p) then sub c 1 else c)

words_after-append :
    (names : Ptr → Ptr) (array : ℕ) (ps qs : List Ptr) (w : Ptr → ℕ)
    → words_after names array (ps ++ qs) w
      ≡ words_after names array qs (words_after names array ps w)
unfolding words_after
words_after-append names array [] qs w = refl
words_after-append names array (p ∷ ps) qs w = words_after-append names array ps qs (
    if names p == null
    then w
    else if at_device array (names p)
    then w
    else update w (names p) (add (w (names p)) 1))

pub has-erase_all :
    (x : Ptr) (ps xs : List Ptr)
    → has x ps ≡ false
    → has x xs ≡ true
    → has x (erase_all ps xs) ≡ true
unfolding erase_all
has-erase_all x [] xs o i = i
has-erase_all x (p ∷ ps) xs o i =
    has-erase_all x ps (erase p xs) (ground arith) (erase-has x p xs (ground arith) i)

-- The blocks `ps` have died, in this order: they are off the queues and free, behind the others, and each
-- death is accounted for.
pub record AreGone (s u : Kernel) (h e : Ptr) (ps : List Ptr) (ds : List Desc) (rs frees : List Ptr)
    (ds' : List Desc) (fs' : List Ptr) : Type 0 where
  pub nucleus : IsNucleus u.asl u.ready_q h e ds' fs' (erase_all ps rs)
  pub free : IsFree u.asl.pcbs (frees ++ ps)
  pub idle : AreIdle ds' (erase_all ps rs) (frees ++ ps)
  pub waits : (j : Ptr) → waiting_at j ds' ≡ erase_all ps (waiting_at j ds)
  pub names : u.asl.pcbs.p_sem_add ≡ s.asl.pcbs.p_sem_add
  pub array : u.semaphore_array ≡ s.semaphore_array
  pub current : u.current_process ≡ s.current_process
  pub count : u.process_count ≡ fewer ps s.process_count
  pub soft :
      u.soft_block_count ≡ soft_after s.asl.pcbs.p_sem_add s.semaphore_array ps s.soft_block_count
  pub words : u.words ≡ words_after s.asl.pcbs.p_sem_add s.semaphore_array ps s.words

pub length-erase_all : (ps xs : List Ptr) → length (erase_all ps xs) ≤ length xs
unfolding erase_all
length-erase_all [] xs = omega arith
length-erase_all (p ∷ ps) xs = omega (arith, length-erase_all ps (erase p xs), length-erase p xs)

-- Deaths after deaths.
pub both-AreGone :
    (s u w : Kernel) {h e : Ptr} (ps qs : List Ptr) {ds : List Desc} {rs frees : List Ptr}
    {ds1 : List Desc} {fs1 : List Ptr} {ds2 : List Desc} {fs2 : List Ptr}
    → AreGone s u h e ps ds rs frees ds1 fs1
    → AreGone u w h e qs ds1 (erase_all ps rs) (frees ++ ps) ds2 fs2
    → AreGone s w h e (ps ++ qs) ds rs frees ds2 fs2
both-AreGone s u w {h} {e} ps qs {ds} {rs} {frees} {ds1} {fs1} {ds2} {fs2} a b =
    let erased = erase_all-append ps qs rs in
    let joined = append_assoc frees ps qs in
    record {
      nucleus = subst (λ xs. IsNucleus w.asl w.ready_q h e ds2 fs2 xs) (sym erased) b.nucleus;
      free = subst (λ xs. IsFree w.asl.pcbs xs) joined b.free;
      idle =
          subst (λ xs. AreIdle ds2 xs (frees ++ (ps ++ qs))) (sym erased)
            (subst (λ xs. AreIdle ds2 (erase_all qs (erase_all ps rs)) xs) joined b.idle);
      waits = λ j.
          b.waits j
          ∙ ap (λ xs. erase_all qs xs) (a.waits j)
          ∙ sym (erase_all-append ps qs (waiting_at j ds));
      names = b.names ∙ a.names;
      array = b.array ∙ a.array;
      current = b.current ∙ a.current;
      count = b.count ∙ ap (λ c. fewer qs c) a.count ∙ sym (fewer-append ps qs s.process_count);
      soft =
          b.soft
          ∙ (λ k. soft_after (a.names k) (a.array k) qs (a.soft k))
          ∙ sym (soft_after-append s.asl.pcbs.p_sem_add s.semaphore_array ps qs s.soft_block_count);
      words =
          b.words
          ∙ (λ k. words_after (a.names k) (a.array k) qs (a.words k))
          ∙ sym (words_after-append s.asl.pcbs.p_sem_add s.semaphore_array ps qs s.words);
    }

-- One death.
abbrev pub Lives : Kernel → List Desc → List Ptr → Ptr → Type 0
Lives s ds rs p =
    ((s.asl.pcbs.p_sem_add p ≡ null) × (has p rs ≡ true))
    ⊎ ((s.asl.pcbs.p_sem_add p < null) × (has p (waiting_at (s.asl.pcbs.p_sem_add p) ds) ≡ true))

pub leaf-AreGone :
    (s : Kernel) {h e : Ptr} {ds : List Desc} {fs rs : List Ptr} (p : Ptr) (frees : List Ptr)
    (fuel : ℕ)
    → IsNucleus s.asl s.ready_q h e ds fs rs
    → IsFree s.asl.pcbs frees
    → AreIdle ds rs frees
    → IsChildren s.asl.pcbs.tree p []
    → p ≢ null
    → p ≢ s.current_process
    → length rs ≤ max_proc
    → Lives s ds rs p
    → (u : Kernel) × (ds' : List Desc) × (fs' : List Ptr) × (honey_i_killed_the_kids (suc fuel) p s
        ≡ ok tt u)
      × AreGone s u h e (p ∷ []) ds rs frees ds' fs'
      × (u.asl.pcbs.tree ≡ s.asl.pcbs.tree)
unfolding erase_all fewer soft_after words_after
leaf-AreGone s {h} {e} {ds} {fs} {rs} p frees fuel n f apart c pn pc few (inl (named, i)) =
    let (u, run, k, words, soft) =
      honey_i_killed_the_kids-ready s p frees fuel n f apart c pn pc named i few in
    let unnamed = eq→== (s.asl.pcbs.p_sem_add p) null named in
    (
      u,
      ds,
      fs,
      run,
      record {
        nucleus = k.nucleus;
        free = k.free;
        idle = k.idle;
        waits = λ j. sym (erase-absent p (waiting_at j ds) (n.apart p i j));
        names = λ d x. k.names x d;
        array = k.array;
        current = k.current;
        count = k.count;
        soft = rw (unnamed) soft;
        words = rw (unnamed) words;
      },
      k.tree,
    )
leaf-AreGone s {h} {e} {ds} {fs} {rs} p frees fuel n f apart c pn pc few (inr (named, i)) =
    let at = s.asl.pcbs.p_sem_add p in
    let (u, ds', fs', run, k, waits, words, soft) =
      honey_i_killed_the_kids-blocked s p frees fuel n f apart c pn pc named i in
    let off : has p rs ≡ false = excludes p rs (waiting_at at ds) (λ y. n.apart p y at) i in
    let named' = ne→== at null (omega arith) in
    (
      u,
      ds',
      fs',
      run,
      record {
        nucleus =
            subst (λ xs. IsNucleus u.asl u.ready_q h e ds' fs' xs) (sym (erase-absent p rs off))
              k.nucleus;
        free = k.free;
        idle = subst (λ xs. AreIdle ds' xs (frees ++ p ∷ [])) (sym (erase-absent p rs off)) k.idle;
        waits = λ j. waits j ∙ elim (Bool-cases (j == at)) [
          | inl y ↦ rw (y) (ap (λ (x : Ptr). erase p (waiting_at x ds)) (sym (==→eq j at y)))
          | inr y ↦ rw (y) (
              sym (
                erase-absent p (waiting_at j ds)
                  (waits-once s.asl e (s.asl.s_next h) j at p ds n.waits.chain i (==→ne j at y))))
        ];
        names = λ d x. k.names x d;
        array = k.array;
        current = k.current;
        count = k.count;
        soft = rw (named') soft;
        words = rw (named') words;
      },
      k.tree,
    )

-- The others live on.
pub Lives-AreGone :
    (s u : Kernel) {h e : Ptr} (ps : List Ptr) {ds : List Desc} {rs frees : List Ptr}
    {ds' : List Desc} {fs' : List Ptr} (x : Ptr)
    → AreGone s u h e ps ds rs frees ds' fs'
    → has x ps ≡ false
    → Lives s ds rs x
    → Lives u ds' (erase_all ps rs) x
Lives-AreGone s u ps {rs} x a o (inl (named, i)) =
    inl (ap (λ (f : Ptr → Ptr). f x) a.names ∙ named, has-erase_all x ps rs o i)
Lives-AreGone s u ps {ds} {ds'} x a o (inr (named, i)) =
    let name = ap (λ (f : Ptr → Ptr). f x) a.names in
    inr (
      subst (λ (k : Ptr). k < null) (sym name) named,
      subst (λ (k : Ptr). has x (waiting_at k ds') ≡ true) (sym name)
          (subst (λ xs. has x xs ≡ true) (sym (a.waits (s.asl.pcbs.p_sem_add x)))
            (has-erase_all x ps (waiting_at (s.asl.pcbs.p_sem_add x) ds) o i)),
    )

pub off-erase_all :
    (x : Ptr) (ps xs : List Ptr) → has x xs ≡ false → has x (erase_all ps xs) ≡ false
unfolding erase_all
off-erase_all x [] xs o = o
off-erase_all x (p ∷ ps) xs o =
    off-erase_all x ps (erase p xs) (has_less x (erase p xs) xs (has-erase x p xs) o)
