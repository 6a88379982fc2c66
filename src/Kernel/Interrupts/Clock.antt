-- ===== src/Kernel/Interrupts/Clock.antt =====
-- `ITInterruptHandler` of kaya/phase2/interrupts.c.
use mathlib.Core.List.{append_assoc, append-nil}
use skara.Base.{
  ℕ, zero, suc, ◌+◌, ◌*◌, ◌%◌, ◌<◌, ◌≤◌, ◌≡◌, refl, ap, ◌∙◌, inl, inr, true, List, [], ◌∷◌, ◌++◌,
  arith, ◌==◌, if◌then◌else◌, Bool-cases, ne→==, ==-refl, length, update,
}
use skara.Base.Word.{word_mod, add, sub, is_neg}
use skara.Machine.{Ptr, null, ok}
use skara.Pcb.Queue.{max_proc}
use skara.Asl.Shape.{Desc, waiting_at, Nodes}
use skara.Asl.{Asl}
use skara.Kernel.{Kernel, semaphore_at, it_sem_index, interval_time, ldit}
use skara.Kernel.State.{IsNucleus, Woken-lem, readied}
use skara.Asl.Waiting.{keep_waits}
use skara.Kernel.Interrupts.{unblock_clock, it_interrupt_handler}

-- The nucleus after the blocks `xs` that waited at `k` have become ready, in their order.
pub record AllWoken (s u : Kernel) (h e k : Ptr) (ds ds' : List Desc) (fs' rs xs : List Ptr)
    : Type 0 where
  pub nucleus : IsNucleus u.asl u.ready_q h e ds' fs' (rs ++ xs)
  pub waits : (j : Ptr) → waiting_at j ds' ≡ (if j == k then [] else waiting_at j ds)
  pub count : u.soft_block_count + length xs ≡ s.soft_block_count
  pub current : u.current_process ≡ s.current_process
  pub scale : u.time_scale ≡ s.time_scale

both_waits :
    (j k : Ptr) (ys ys1 ys2 xs : List Ptr)
    → ys1 ≡ (if j == k then xs else ys)
    → ys2 ≡ (if j == k then [] else ys1)
    → ys2 ≡ (if j == k then [] else ys)
both_waits j k ys ys1 ys2 xs f g = elim (Bool-cases (j == k)) [
  | inl y ↦ rw (y) (rw (y) at g)
  | inr y ↦ rw (y) ((rw (y) at g) ∙ (rw (y) at f))
]

unblock_clock-lem :
    (fuel : ℕ) (s : Kernel) {h e : Ptr} (k : Ptr) {ds : List Desc} {fs rs : List Ptr}
    (xs : List Ptr)
    → IsNucleus s.asl s.ready_q h e ds fs rs
    → k < null
    → waiting_at k ds ≡ xs
    → s.words k ≡ sub 0 (length xs)
    → length xs < fuel
    → length xs ≤ 20
    → length xs ≤ s.soft_block_count
    → s.soft_block_count < word_mod
    → (u : Kernel) × (ds' : List Desc) × (fs' : List Ptr) × (unblock_clock fuel k s ≡ ok tt u)
      × AllWoken s u h e k ds ds' fs' rs xs
unfolding unblock_clock
unblock_clock-lem zero s k xs n kn eq v f l c b = absurd (omega arith)
unblock_clock-lem (suc fuel) s {h} {e} k {ds} {fs} {rs} [] n kn eq v f l c b = (
  s,
  ds,
  fs,
  simp (ne→== k null (omega arith), v),
  record {
    nucleus = rw (append-nil) n;
    waits = keep_waits k ds [] eq;
    count = omega arith;
    current = refl;
    scale = refl;
  },
)
unblock_clock-lem (suc fuel) s {h} {e} k {ds} {fs} {rs} (x ∷ xs) n kn eq v f l c b =
    let w = add (s.words k) 1 in
    let s1 : Kernel = record s { words = update s.words k w } in
    let (a, q, ds1, fs1, woken) = Woken-lem s1 k x xs n kn eq in
    let s2 : Kernel = record (readied (record s1 { asl = a }) q x) {
      soft_block_count = sub s.soft_block_count 1;
    } in
    let neg : is_neg (s.words k) ≡ true = ground arith in
    let v' : s2.words k ≡ sub 0 (length xs) = ground (arith, ==-refl k) in
    let (u, ds', fs', run, all) =
      unblock_clock-lem fuel s2 k xs woken.nucleus kn (ground (arith, woken.waits k, ==-refl k)) v'
        (omega arith) (omega arith) (omega arith) (omega arith) in
    (
      u,
      ds',
      fs',
      simp (ne→== k null (omega arith), neg, woken.removed, woken.queued, run),
      record {
        nucleus = simp append_assoc at all.nucleus;
        waits = λ j.
            both_waits j k (waiting_at j ds) (waiting_at j ds1) (waiting_at j ds') xs
              (woken.waits j) (all.waits j);
        count = omega (arith, all.count);
        current = all.current;
        scale = all.scale;
      },
    )

waiting_at-few :
    (s : Asl) (e c k : Ptr) (ds : List Desc) → Nodes s e c ds → length (waiting_at k ds) ≤ max_proc
waiting_at-few s e c k [] n = omega arith
waiting_at-few s e c k (d ∷ ds) n = elim (Bool-cases (k == d.key)) [
  | inl y ↦ rw (y) n.1.few
  | inr y ↦ rw (y) (waiting_at-few s e (s.s_next c) k ds n.2)
]

-- The semaphore of the interval timer.
abbrev pub clock : Kernel → Ptr
clock s = semaphore_at s.semaphore_array it_sem_index

-- With well-formed queues, when the interval timer's semaphore is the number of blocks that wait
-- at it, negated, and the soft-block count counts them, the handler ends within its fuel and makes
-- all of them ready, in the order in which they came, behind those that were. The semaphore is 0
-- then, the soft-block count is less by their number, the timer is loaded, and nobody's waiting at
-- another semaphore changes.
pub it_interrupt_handler-AllWoken :
    (s : Kernel) {h e : Ptr} {ds : List Desc} {fs rs : List Ptr}
    → IsNucleus s.asl s.ready_q h e ds fs rs
    → clock s < null
    → s.words (clock s) ≡ sub 0 (length (waiting_at (clock s) ds))
    → length (waiting_at (clock s) ds) ≤ s.soft_block_count
    → s.soft_block_count < word_mod
    → (u : Kernel) × (ds' : List Desc) × (fs' : List Ptr) × (it_interrupt_handler s ≡ ok tt u)
      × AllWoken s u h e (clock s) ds ds' fs' rs (waiting_at (clock s) ds)
      × (u.words (clock s) ≡ 0)
      × (u.interval_timer ≡ (interval_time * s.time_scale) % word_mod)
unfolding it_interrupt_handler ldit
it_interrupt_handler-AllWoken s {h} {e} {ds} {fs} {rs} n kn v c b =
    let k = clock s in
    let few = waiting_at-few s.asl e (s.asl.s_next h) k ds n.waits.chain in
    let (u, ds', fs', run, all) =
      unblock_clock-lem 21 s k (waiting_at k ds) n kn refl v (omega arith) few c b in
    let u' : Kernel = record u {
      words = update u.words k 0;
      interval_timer = (interval_time * u.time_scale) % word_mod;
    } in
    (
      u',
      ds',
      fs',
      simp (run, ne→== k null (omega arith)),
      record {
        nucleus = all.nucleus;
        waits = all.waits;
        count = all.count;
        current = all.current;
        scale = all.scale;
      },
      ground (arith, ==-refl k),
      ap (λ t. (interval_time * t) % word_mod) all.scale,
    )
