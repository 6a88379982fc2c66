-- ===== src/Kernel/Process/Descent.antt =====
-- `HoneyIKilledTheKids` of kaya/phase2/exceptions.c on a process with any descendants.
use skara.Base.{
  Distinct-split, ℕ, zero, suc, ◌<◌, ◌≤◌, ◌≡◌, refl, sym, ap, ◌∙◌, ◌≢◌, List, [], ◌∷◌, ◌++◌, arith,
  has_less, has-mid, append_assoc, append_nil, length, subst, ne→==,
}
use skara.Machine.{Ptr, null, ok, and_then}
use skara.Pcb.Queue.{max_proc}
use skara.Pcb.Tree.{Tree, empty_child, remove_child}
use skara.Pcb.Tree.Shape.{IsChildren, SameTree}
use skara.Pcb.Tree.Children.{remove_child-IsChildren}
use skara.Pcb.Table.Free.{IsFree}
use skara.Asl.Shape.{Desc}
use skara.Asl.Waiting.{IsAsl-pcbs}
use skara.Kernel.{Kernel}
use skara.Kernel.State.{IsNucleus}
use skara.Kernel.Process.{honey_i_killed_the_kids}
use skara.Kernel.Process.Kill.{AreIdle}
use skara.Kernel.Process.Family.{Family, none, more, roots, members, size, roots-members}
use skara.Kernel.Process.Deaths.{
  AreGone, erase_all, fewer, soft_after, words_after, both-AreGone, leaf-AreGone, length-erase_all,
  Lives-AreGone,
}
use skara.Kernel.Process.Doomed.{
  Spares, IsDoomed, retreed, kids-IsDoomed, others-IsDoomed, off_kids, off_others, off_first,
}

-- The queues and the free list, which the deaths keep well-formed.
pub record IsSound (s : Kernel) (h e : Ptr) (ds : List Desc) (fs rs frees : List Ptr) : Type 0 where
  pub nucleus : IsNucleus s.asl s.ready_q h e ds fs rs
  pub free : IsFree s.asl.pcbs frees
  pub idle : AreIdle ds rs frees
  pub few : length rs ≤ max_proc

pub retreed-IsSound :
    (s : Kernel) (t : Tree) {h e : Ptr} {ds : List Desc} {fs rs frees : List Ptr}
    → IsSound s h e ds fs rs frees
    → IsSound (retreed s t) h e ds fs rs frees
retreed-IsSound s t n = record {
  nucleus = record {
    waits =
        IsAsl-pcbs (record (s.asl.pcbs) { tree = t }) n.nucleus.waits (λ x j i. (refl, refl))
          (λ x j i. refl);
    ready = n.nucleus.ready;
    apart = n.nucleus.apart;
  };
  free = n.free;
  idle = n.idle;
  few = n.few;
}

pub gone-IsSound :
    (s u : Kernel) {h e : Ptr} (ps : List Ptr) {ds : List Desc} {fs rs frees : List Ptr}
    {ds' : List Desc} {fs' : List Ptr}
    → IsSound s h e ds fs rs frees
    → AreGone s u h e ps ds rs frees ds' fs'
    → IsSound u h e ds' fs' (erase_all ps rs) (frees ++ ps)
gone-IsSound s u ps {rs} n a = record {
  nucleus = a.nucleus;
  free = a.free;
  idle = a.idle;
  few = omega (arith, length-erase_all ps rs, n.few);
}

-- The end of a loop over the children of `q`: what is left to do is to kill `q`.
pub record Bereaves (s u : Kernel) (h e q : Ptr) (f : Family) (ds : List Desc) (rs frees : List Ptr)
    (ds' : List Desc) (fs' : List Ptr) (fuel g : ℕ) : Type 0 where
  pub run : honey_i_killed_the_kids fuel q s ≡ honey_i_killed_the_kids (suc g) q u
  pub gone : AreGone s u h e (members f) ds rs frees ds' fs'
  pub childless : IsChildren u.asl.pcbs.tree q []
  pub spares : Spares q (members f) s.asl.pcbs.tree u.asl.pcbs.tree

-- A round of the loop.
round :
    (s : Kernel) (q k : Ptr) (t : Tree) (fuel : ℕ)
    → q ≢ null
    → s.asl.pcbs.tree.p_child q ≢ null
    → remove_child q s.asl.pcbs.tree ≡ ok k t
    → honey_i_killed_the_kids (suc fuel) q s
      ≡ and_then
          (honey_i_killed_the_kids fuel k (retreed s t))
          (λ _. honey_i_killed_the_kids fuel q)
unfolding honey_i_killed_the_kids empty_child
round s q k t fuel qn some run =
    simp (ne→== q null qn, ne→== (s.asl.pcbs.tree.p_child q) null some) (simp (run) refl)

none-AreGone :
    (s : Kernel) {h e : Ptr} {ds : List Desc} {fs rs frees : List Ptr}
    → IsSound s h e ds fs rs frees
    → AreGone s s h e [] ds rs frees ds fs
unfolding erase_all fewer soft_after words_after
none-AreGone s {ds} {rs} {frees} n = record {
  nucleus = n.nucleus;
  free = subst (λ xs. IsFree s.asl.pcbs xs) (sym (append_nil frees)) n.free;
  idle = subst (λ xs. AreIdle ds rs xs) (sym (append_nil frees)) n.idle;
  waits = λ j. refl;
  names = refl;
  array = refl;
  current = refl;
  count = refl;
  soft = refl;
  words = refl;
}

-- The deaths of a first child's family, seen from before it was taken off its siblings.
retreed-AreGone :
    (s u : Kernel) (t : Tree) {h e : Ptr} (ps : List Ptr) {ds : List Desc} {rs frees : List Ptr}
    {ds' : List Desc} {fs' : List Ptr}
    → AreGone (retreed s t) u h e ps ds rs frees ds' fs'
    → AreGone s u h e ps ds rs frees ds' fs'
retreed-AreGone s u t ps a = record {
  nucleus = a.nucleus;
  free = a.free;
  idle = a.idle;
  waits = a.waits;
  names = a.names;
  array = a.array;
  current = a.current;
  count = a.count;
  soft = a.soft;
  words = a.words;
}

module _ (p : Ptr) (kids others : Family) where
  -- The whole loop from its first round and the rest.
  after-first :
      (s v u : Kernel) (q : Ptr) (t : Tree) (fuel g : ℕ) {h e : Ptr} {ds : List Desc}
      {rs frees : List Ptr} {ds1 : List Desc} {fs1 : List Ptr} {ds2 : List Desc} {fs2 : List Ptr}
      → IsDoomed s q (more p kids others) ds rs
      → SameTree q (roots others) s.asl.pcbs.tree t
      → Spares p (members kids) t v.asl.pcbs.tree
      → AreGone s v h e (members kids ++ p ∷ []) ds rs frees ds1 fs1
      → honey_i_killed_the_kids (suc fuel) q s ≡ honey_i_killed_the_kids fuel q v
      → Bereaves v u h e q others ds1
          (erase_all (members kids ++ p ∷ []) rs)
          (frees ++ (members kids ++ p ∷ []))
          ds2
          fs2
          fuel
          g
      → Bereaves s u h e q (more p kids others) ds rs frees ds2 fs2 (suc fuel) g
  after-first s v u q t fuel g {h} {e} {ds} {rs} {frees} {ds2} {fs2} d same spares gone run b =
      record {
        run = run ∙ b.run;
        gone =
            subst (λ xs. AreGone s u h e xs ds rs frees ds2 fs2)
              (append_assoc (members kids) (p ∷ []) (members others))
              (both-AreGone s v u (members kids ++ p ∷ []) (members others) gone b.gone);
        childless = b.childless;
        spares = record {
          child = λ a n o.
              b.spares.child a n (off_others p kids others a o)
              ∙ spares.child a (off_first p kids others a o) (off_kids p kids others a o)
              ∙ same.child a n;
          siblings = λ a o.
              let late = b.spares.siblings a (off_others p kids others a o) in
              let mid = spares.siblings a (off_kids p kids others a o) in
              let off =
                has_less a (roots others) (members others) (roots-members a others)
                  (off_others p kids others a o) in
              record {
                prnt = late.prnt ∙ mid.prnt ∙ same.prnt a off;
                sib_prev = late.sib_prev ∙ mid.sib_prev ∙ same.sib_prev a off;
                sib_next = late.sib_next ∙ mid.sib_next ∙ same.sib_next a off;
              };
        };
      }

  first-real :
      (s : Kernel) (q : Ptr) {ds : List Desc} {rs : List Ptr}
      → IsDoomed s q (more p kids others) ds rs
      → p ≢ null
  first-real s q d e = off_first p kids others null d.real (sym e)

  -- The first child, once its family is dead.
  first-dies :
      (s u : Kernel) (q : Ptr) (t : Tree) (fuel g : ℕ) {h e : Ptr} {ds : List Desc}
      {fs rs frees : List Ptr} {ds1 : List Desc} {fs1 : List Ptr}
      → IsSound s h e ds fs rs frees
      → IsDoomed s q (more p kids others) ds rs
      → Bereaves (retreed s t) u h e p kids ds rs frees ds1 fs1 fuel g
      → (v : Kernel) × (ds2 : List Desc) × (fs2 : List Ptr) × (honey_i_killed_the_kids fuel p
            (retreed s t)
          ≡ ok tt v)
        × AreGone s v h e (members kids ++ p ∷ []) ds rs frees ds2 fs2
        × Spares p (members kids) t v.asl.pcbs.tree
  first-dies s u q t fuel g {ds} {rs} {frees} n d b =
      let s1 = retreed s t in
      let (o, _, _) = Distinct-split p (members kids) (members others) d.distinct in
      let pc : p ≢ u.current_process =
        λ e. off_first p kids others s.current_process d.others (sym b.gone.current ∙ sym e) in
      let n1 = gone-IsSound s1 u (members kids) (retreed-IsSound s t n) b.gone in
      let life =
        Lives-AreGone s1 u (members kids) p b.gone o
          (d.live p (has-mid p (members kids) (members others))) in
      let (v, ds2, fs2, death, gone, tree) =
        leaf-AreGone u p (frees ++ members kids) g n1.nucleus n1.free n1.idle b.childless
          (first-real s q d) pc n1.few life in
      (
        v,
        ds2,
        fs2,
        b.run ∙ death,
        retreed-AreGone s v t (members kids ++ p ∷ [])
            (both-AreGone s1 u v (members kids) (p ∷ []) b.gone gone),
        subst (λ (x : Tree). Spares p (members kids) t x) (sym tree) b.spares,
      )

  first-round :
      (s v : Kernel) (q : Ptr) (t : Tree) (fuel : ℕ) {ds : List Desc} {rs : List Ptr}
      → IsDoomed s q (more p kids others) ds rs
      → q ≢ null
      → remove_child q s.asl.pcbs.tree ≡ ok p t
      → honey_i_killed_the_kids fuel p (retreed s t) ≡ ok tt v
      → honey_i_killed_the_kids (suc fuel) q s ≡ honey_i_killed_the_kids fuel q v
  first-round s v q t fuel d qn removed death =
      round s q p t fuel qn (λ z. first-real s q d (sym d.children.siblings.0 ∙ z)) removed
      ∙ ap (λ r. and_then r (λ _. honey_i_killed_the_kids fuel q)) death

-- The loop kills all descendants of `q`, children before parents, within one more unit of fuel than there
-- are descendants.
pub bereaves :
    (f : Family) (s : Kernel) (q : Ptr) (fuel : ℕ) {h e : Ptr} {ds : List Desc} {fs rs : List Ptr}
    (frees : List Ptr)
    → IsSound s h e ds fs rs frees
    → IsDoomed s q f ds rs
    → q ≢ null
    → size f < fuel
    → (u : Kernel) × (ds' : List Desc) × (fs' : List Ptr) × (g : ℕ) × Bereaves s u h e q f ds rs
        frees ds' fs' fuel g
bereaves f s q zero frees n d qn l = absurd (omega arith)
bereaves none s q (suc fuel) {ds} {fs} frees n d qn l = (
  s,
  ds,
  fs,
  fuel,
  record {
    run = refl;
    gone = none-AreGone s n;
    childless = d.children;
    spares = record {
      child = λ a m o. refl;
      siblings = λ a o. record { prnt = refl; sib_prev = refl; sib_next = refl };
    };
  },
)
bereaves (more p kids others) s q (suc fuel) {h} {e} {ds} {fs} {rs} frees n d qn l =
    let (t, removed, left, same) = remove_child-IsChildren p (roots others) d.children qn in
    let (u, ds1, fs1, g, b) =
      bereaves kids (retreed s t) p fuel frees (retreed-IsSound s t n)
        (kids-IsDoomed p kids others s q t d same) (first-real p kids others s q d) (omega arith) in
    let (v, ds2, fs2, death, gone, spares) = first-dies p kids others s u q t fuel g n d b in
    let (w, ds3, fs3, g', c) =
      bereaves others v q fuel (frees ++ (members kids ++ p ∷ []))
        (gone-IsSound s v (members kids ++ p ∷ []) n gone)
        (others-IsDoomed p kids others s v q t d same left spares gone) qn (omega arith) in
    (
      w,
      ds3,
      fs3,
      g',
      after-first p kids others s v w q t fuel g' d same spares gone
          (first-round p kids others s v q t fuel d qn removed death) c,
    )
