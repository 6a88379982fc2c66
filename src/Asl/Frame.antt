-- ===== src/Asl/Frame.antt =====
-- How descriptors survive changes elsewhere, and how the list is put together again round a change.
use skara.Base.{
  ◌≡◌, sym, subst, ◌∙◌, ◌≢◌, true, false, List, [], ◌∷◌, ◌++◌, arith, has, last, Distinct, ne-last,
}
use skara.Machine.{Ptr}
use skara.Pcb.Queue.Shape.{IsQueue, IsQueue-frame}
use skara.Asl.{Asl}
use skara.Asl.Shape.{Desc, All, nodes, Holds, Nodes, Stack, IsIdle}

-- The change from `s` to `s'` spares a descriptor.
pub record Kept (s s' : Asl) (d : Desc) : Type 0 where
  pub sem_add : s'.s_sem_add d.node ≡ s.s_sem_add d.node
  pub proc_q : s'.s_proc_q d.node ≡ s.s_proc_q d.node
  pub links :
      (x : Ptr)
      → has x d.waiting ≡ true
      → (s'.pcbs.links.p_next x ≡ s.pcbs.links.p_next x)
        × (s'.pcbs.links.p_prev x ≡ s.pcbs.links.p_prev x)
  pub names : (x : Ptr) → has x d.waiting ≡ true → s'.pcbs.p_sem_add x ≡ s.pcbs.p_sem_add x

module _ (s s' : Asl) (e : Ptr) where
  pub Holds-Kept : (d : Desc) → Holds s d → Kept s s' d → Holds s' d
  Holds-Kept d v k = record {
    address = v.address;
    below = v.below;
    key = k.sem_add ∙ v.key;
    busy = v.busy;
    few = v.few;
    queue =
        subst (λ (q : Ptr). IsQueue s'.pcbs.links q d.waiting) (sym k.proc_q)
          (IsQueue-frame d.waiting v.queue k.links);
    names = λ x i. k.names x i ∙ v.names x i;
  }

  pub Nodes-Kept :
      (c : Ptr) (ds : List Desc)
      → Nodes s e c ds
      → All (Kept s s') ds
      → ((a : Ptr) → has a (nodes ds) ≡ true → s'.s_next a ≡ s.s_next a)
      → Nodes s' e c ds
  Nodes-Kept c [] n k same = n
  Nodes-Kept c (d ∷ ds) n k same = (
    n.0,
    Holds-Kept d n.1 k.0,
    subst (λ (x : Ptr). Nodes s' e x ds) (sym (same c (ground (arith, n.0))))
        (Nodes-Kept (s.s_next c) ds n.2 k.1 λ a i. same a (ground arith)),
  )

  -- The part before a change is as it was; the part after it is given.
  pub Nodes-rebuild :
      (c : Ptr) (before after after' : List Desc)
      → Nodes s e (s.s_next c) (before ++ after)
      → Distinct (c ∷ nodes before)
      → All (Kept s s') before
      → ((a : Ptr)
          → has a (c ∷ nodes before) ≡ true
          → a ≢ last c (nodes before)
          → s'.s_next a ≡ s.s_next a)
      → Nodes s' e (s'.s_next (last c (nodes before))) after'
      → Nodes s' e (s'.s_next c) (before ++ after')
  Nodes-rebuild c [] after after' n d k same m = m
  Nodes-rebuild c (b ∷ before) after after' n d k same m =
      let eq : s'.s_next c ≡ b.node =
        same c (ground arith) (ne-last c b.node (nodes before) d.0) ∙ n.0 in
      let rec =
        Nodes-rebuild b.node before after after'
          (subst (λ (x : Ptr). Nodes s e (s.s_next x) (before ++ after)) n.0 n.2) d.1 k.1
          (λ a i ne. same a (ground arith) ne) m in
      (
        eq,
        Holds-Kept b n.1 k.0,
        subst (λ (x : Ptr). Nodes s' e (s'.s_next x) (before ++ after')) (sym eq) rec,
      )

  pub Stack-same :
      (c : Ptr) (fs : List Ptr)
      → Stack s c fs
      → ((a : Ptr) → has a fs ≡ true → s'.s_next a ≡ s.s_next a)
      → Stack s' c fs
  Stack-same c [] t same = t
  Stack-same c (f ∷ fs) t same = (
    t.0,
    t.1,
    subst (λ (x : Ptr). Stack s' x fs) (sym (same f (ground arith)))
        (Stack-same (s.s_next f) fs t.2 λ a i. same a (ground arith)),
  )

pub Nodes-Holds : (s : Asl) (e c : Ptr) (ds : List Desc) → Nodes s e c ds → All (Holds s) ds
Nodes-Holds s e c [] n = tt
Nodes-Holds s e c (d ∷ ds) n = (n.1, Nodes-Holds s e (s.s_next c) ds n.2)

-- The change is at the node `n`, at the blocks that name `k`, and at `p`.
pub record Touches (s s' : Asl) (n k p : Ptr) : Type 0 where
  pub sem_add : (a : Ptr) → a ≢ n → s'.s_sem_add a ≡ s.s_sem_add a
  pub proc_q : (a : Ptr) → a ≢ n → s'.s_proc_q a ≡ s.s_proc_q a
  pub links :
      (x : Ptr)
      → s.pcbs.p_sem_add x ≢ k
      → x ≢ p
      → (s'.pcbs.links.p_next x ≡ s.pcbs.links.p_next x)
        × (s'.pcbs.links.p_prev x ≡ s.pcbs.links.p_prev x)
  pub names : (x : Ptr) → x ≢ p → s'.pcbs.p_sem_add x ≡ s.pcbs.p_sem_add x

Touches-Kept :
    (s s' : Asl) (n k p : Ptr) (d : Desc)
    → Touches s s' n k p
    → Holds s d
    → d.key ≢ k
    → d.node ≢ n
    → has p d.waiting ≡ false
    → Kept s s' d
Touches-Kept s s' n k p d t v kn nn idle = record {
  sem_add = t.sem_add d.node nn;
  proc_q = t.proc_q d.node nn;
  links = λ x i. t.links x (λ q. kn (sym (v.names x i) ∙ q)) (ground arith);
  names = λ x i. t.names x (ground arith);
}

pub All-Kept :
    (s s' : Asl) (n k p : Ptr) (ds : List Desc)
    → Touches s s' n k p
    → All (Holds s) ds
    → All (λ d. d.key ≢ k) ds
    → has n (nodes ds) ≡ false
    → IsIdle p ds
    → All (Kept s s') ds
All-Kept s s' n k p [] t v kn nn idle = tt
All-Kept s s' n k p (d ∷ ds) t v kn nn idle = (
  Touches-Kept s s' n k p d t v.0 kn.0 (ground arith) idle.0,
  All-Kept s s' n k p ds t v.1 kn.1 (ground arith) idle.1,
)
