-- ===== src/Sched/Remove.antt =====
-- remove_and_destroy of src/kernel/sched/scheduler.cpp.
use los_tac_os.Base.{
  ℕ, ◌<◌, ◌≡◌, ◌≢◌, refl, sym, ap, ◌∙◌, true, false, Option, none, some, List, [], ◌∷◌, ◌==◌,
  if◌then◌else◌, arith, length, ==_refl, ==_ne, Option-cases, Bool-cases, inl, inr,
}
use los_tac_os.Sched.{
  Sched, points_at, set_next, destroy_task, walk_before, unlink, release, remove_and_destroy,
}
use los_tac_os.Sched.Chain.{
  has, Distinct, last_of, without, IsQueue, has-without, Distinct-without, has_last, last_of-none,
}
use los_tac_os.Sched.Before.{
  before, walk_before-before, before-none, Chain-without, last_of-without,
}

-- A task of the list that is not the first has a predecessor.
has-before : (x : ℕ) (xs : List ℕ) (a : ℕ) → has a xs ≡ true → before a (x ∷ xs) ≢ none
has-before x xs a h e = ground (arith, before-none a x xs e)

-- release changes neither the list nor the tasks.
pub release-list :
    (task : ℕ) (s : Sched)
    → ((release task s).tasks ≡ s.tasks)
      × (((release task s).head ≡ s.head)
          × (((release task s).tail ≡ s.tail) × ((release task s).current ≡ s.current)))
unfolding release destroy_task
release-list task s = elim (Option-cases (s.tasks task).process) [
  | inl e ↦ ground (arith, e)
  | inr (p, e) ↦ ground (arith, e)
]

-- What is left of the list `xs` of `s` when `task` is out of it.
pub record Unlinked (task : ℕ) (xs : List ℕ) (s s' : Sched) : Type 0 where
  pub queue : IsQueue s' (without task xs)
  pub kept : (a : ℕ) → (s'.tasks a).state ≡ (s.tasks a).state
  pub current : s'.current ≡ s.current

-- The result is there, and leaves this.
pub data Leaves (task : ℕ) (xs : List ℕ) (s : Sched) : Option Sched → Type 0 where
  left : (s' : Sched) → Unlinked task xs s s' → Leaves task xs s (some s')

-- The state after the removal of the first task, and of a task behind `t`.
abbrev headless : ℕ → Sched → Sched
headless x s = record s {
  head = (s.tasks x).next;
  tail = if points_at s.tail x then (s.tasks x).next else s.tail;
}

abbrev linked : ℕ → ℕ → Sched → Sched
linked t task s = record (set_next t (s.tasks task).next s) {
  tail = if points_at s.tail task then some t else s.tail;
}

unlink-headless : (fuel x : ℕ) (s : Sched) → s.head ≡ some x → unlink fuel x s ≡ some (headless x s)
unfolding unlink
unlink-headless fuel x s e = ground (arith, e)

unlink-linked :
    (fuel task x t : ℕ) (s : Sched)
    → s.head ≡ some x
    → x ≢ task
    → walk_before fuel task s.head s ≡ some (some t)
    → unlink fuel task s ≡ some (linked t task s)
unfolding unlink
unlink-linked fuel task x t s e ne w = ground (arith, e, w)

tail-head :
    (x : ℕ) (xs : List ℕ) (n l : Option ℕ)
    → Distinct (x ∷ xs)
    → l ≡ last_of (x ∷ xs)
    → (xs ≡ [] → n ≡ none)
    → (if points_at l x then n else l) ≡ last_of xs
tail-head x [] n l d e z = ground arith
tail-head x (y ∷ ys) n l d e z = elim (Option-cases l) [
  | inl h ↦ absurd (ground (arith, last_of-none (y ∷ ys) (sym e ∙ h)))
  | inr (w, h) ↦ ground (arith, has_last (y ∷ ys) w (sym e ∙ h))
]

unlink-head :
    (fuel x : ℕ) (xs : List ℕ) (s : Sched)
    → IsQueue s (x ∷ xs)
    → Leaves x (x ∷ xs) s (unlink fuel x s)
unlink-head fuel x xs s q =
    rw (unlink-headless fuel x s q.chain.0)
      (left (headless x s) record { queue = queue; kept = λ a. refl; current = refl })
  where
    queue : IsQueue (headless x s) (without x (x ∷ xs))
    queue = rw (==_refl x) record {
      chain = q.chain.1;
      distinct = q.distinct.1;
      last =
          tail-head x xs (s.tasks x).next s.tail q.distinct q.last
            (λ e. ground (arith, e, q.chain.1));
    }

unlink-inner :
    (fuel x : ℕ) (xs : List ℕ) (task t : ℕ) (s : Sched)
    → IsQueue s (x ∷ xs)
    → length (x ∷ xs) < fuel
    → x ≢ task
    → before task (x ∷ xs) ≡ some t
    → Leaves task (x ∷ xs) s (unlink fuel task s)
unlink-inner fuel x xs task t s q f ne e =
    rw
      (unlink-linked fuel task x t s q.chain.0 ne
        (walk_before-before fuel task s.head (x ∷ xs) s q.chain f ∙ ap some e))
      (left (linked t task s) record { queue = queue; kept = λ a. ground arith; current = refl })
  where
    queue : IsQueue (linked t task s) (without task (x ∷ xs))
    queue = rw (==_ne x task ne) record {
      chain =
          Chain-without s.tasks (linked t task s).tasks s.head x xs t task q.chain q.distinct ne e
            (ground arith) (λ b h. ground (arith, h));
      distinct = (has-without task x xs q.distinct.0, Distinct-without task xs q.distinct.1);
      last = rw q.last (sym (last_of-without x xs task t q.distinct ne e));
    }

-- Taking a task of the list out of it.
unlink-Leaves :
    (fuel task : ℕ) (xs : List ℕ) (s : Sched)
    → IsQueue s xs
    → has task xs ≡ true
    → length xs < fuel
    → Leaves task xs s (unlink fuel task s)
unlink-Leaves fuel task [] s q h f = cc
unlink-Leaves fuel task (x ∷ xs) s q h f = elim (Bool-cases (x == task)) [
  | inl e ↦ let same : x ≡ task = ground arith in rw⁻¹ same (unlink-head fuel x xs s q)
  | inr e' ↦
      let ne : x ≢ task = ground arith in
      elim (Option-cases (before task (x ∷ xs))) [
        | inl e ↦ absurd (has-before x xs task (ground arith) e)
        | inr (t, e) ↦ unlink-inner fuel x xs task t s q f ne e
      ]
]

-- The list after release.
release-Unlinked :
    (task : ℕ) (xs : List ℕ) (s s' : Sched)
    → Unlinked task xs s s'
    → Unlinked task xs s (release task s')
release-Unlinked task xs s s' u =
    let same : (release task s').tasks ≡ s'.tasks = (release-list task s').0 in
    let head : (release task s').head ≡ s'.head = (release-list task s').1.0 in
    let tail : (release task s').tail ≡ s'.tail = (release-list task s').1.1.0 in
    let current : (release task s').current ≡ s'.current = (release-list task s').1.1.1 in
    record {
      queue = record {
        chain = simp (same, head) u.queue.chain;
        distinct = u.queue.distinct;
        last = tail ∙ u.queue.last;
      };
      kept = λ a. ap (λ m. (m a).state) same ∙ u.kept a;
      current = current ∙ u.current;
    }

-- remove_and_destroy takes a task of the list that is not the current one out of it, whatever its
-- place: with more fuel than tasks it returns, the list keeps the others in their order, and no
-- task changes its state.
pub remove_and_destroy-Leaves :
    (fuel task : ℕ) (xs : List ℕ) (s : Sched)
    → IsQueue s xs
    → has task xs ≡ true
    → points_at s.current task ≡ false
    → length xs < fuel
    → Leaves task xs s (remove_and_destroy fuel task s)
unfolding remove_and_destroy
remove_and_destroy-Leaves fuel task xs s q h c f =
    rw c (released (unlink fuel task s) (unlink-Leaves fuel task xs s q h f))
  where
    released :
        (o : Option Sched)
        → Leaves task xs s o
        → Leaves task xs s (elim o [ none ↦ none | some s' ↦ some (release task s') ])
    released _ (left s' u) = left (release task s') (release-Unlinked task xs s s' u)
