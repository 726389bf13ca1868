-- ===== src/Sched/Before.antt =====
-- The walk of remove_and_destroy to the task before another, src/kernel/sched/scheduler.cpp.
use los_tac_os.Base.{
  ℕ, zero, suc, ◌<◌, ◌≡◌, ◌≢◌, refl, sym, ap, ◌∙◌, true, false, Option, none, some, List, [], ◌∷◌,
  ◌==◌, if◌then◌else◌, arith, length, Option-cases, Bool-cases, inl, inr,
}
use los_tac_os.Sched.{Task, Sched, points_at, walk_before}
use los_tac_os.Sched.Chain.{
  Chain, has, Distinct, last_of, without, Chain-same, has_last, last_of-none,
}

-- The predecessor of `a` in a list that does not begin with it.
abbrev pub before : ℕ → List ℕ → Option ℕ
before a [] = none
before a (x ∷ []) = none
before a (x ∷ (y ∷ ys)) = if y == a then some x else before a (y ∷ ys)

-- With more fuel than nodes the walk ends, at the predecessor.
pub walk_before-before :
    (fuel a : ℕ) (p : Option ℕ) (xs : List ℕ) (s : Sched)
    → Chain s.tasks p xs
    → length xs < fuel
    → walk_before fuel a p s ≡ some (before a xs)
unfolding walk_before
walk_before-before zero a p xs s c h = absurd (omega arith)
walk_before-before (suc fuel) a p [] s c h = rw c
walk_before-before (suc fuel) a p (x ∷ []) s c h =
    rw c.0 (ground (arith, c.1, walk_before-before fuel a (s.tasks x).next [] s c.1 (omega arith)))
walk_before-before (suc fuel) a p (x ∷ (y ∷ ys)) s c h =
    rw c.0 (
      ground
        (arith, c.1.0, walk_before-before fuel a (s.tasks x).next (y ∷ ys) s c.1 (omega arith)))

pub before-has : (a t : ℕ) (xs : List ℕ) → before a xs ≡ some t → has t xs ≡ true
before-has a t [] e = cc
before-has a t (x ∷ []) e = cc
before-has a t (x ∷ (y ∷ ys)) e = ground (arith, before-has a t (y ∷ ys))

pub before-none : (a x : ℕ) (xs : List ℕ) → before a (x ∷ xs) ≡ none → has a xs ≡ false
before-none a x [] e = refl
before-none a x (y ∷ ys) e = ground (arith, before-none a y ys)

-- Linking past `a`, which is not the first.
pub Chain-without :
    (tasks tasks' : ℕ → Task) (p : Option ℕ) (x : ℕ) (xs : List ℕ) (t a : ℕ)
    → Chain tasks p (x ∷ xs)
    → Distinct (x ∷ xs)
    → x ≢ a
    → before a (x ∷ xs) ≡ some t
    → (tasks' t).next ≡ (tasks a).next
    → ((b : ℕ) → b ≢ t → (tasks' b).next ≡ (tasks b).next)
    → (p ≡ some x) × Chain tasks' (tasks' x).next (without a xs)
Chain-without tasks tasks' p x [] t a c d ne e n same = cc
Chain-without tasks tasks' p x (y ∷ ys) t a c d ne e n same = elim (Bool-cases (y == a)) [
  | inl hit ↦
      let here : x ≡ t = ground arith in
      let there : y ≡ a = ground arith in
      rw hit (
        c.0,
        Chain-same tasks tasks' (tasks' x).next ys (λ b h. same b (λ q. ground (arith, d.0, h)))
            (moved (ap (λ u. (tasks' u).next) here ∙ n ∙ ap (λ u. (tasks u).next) (sym there))
              c.1.1),
      )
  | inr miss ↦
      let after : before a (y ∷ ys) ≡ some t = ground arith in
      let far : x ≢ t = λ q. ground (arith, before-has a t (y ∷ ys) after, d.0) in
      let kept : (tasks' x).next ≡ (tasks x).next = same x far in
      rw miss (
        c.0,
        Chain-without tasks tasks' (tasks' x).next y ys t a (kept ∙ c.1.0, c.1.1) d.1 (ground arith)
            after n same,
      )
]
  where
    moved : {q r : Option ℕ} → q ≡ r → Chain tasks r ys → Chain tasks q ys
    moved e h = rw e h

pub last_of-without :
    (x : ℕ) (xs : List ℕ) (a t : ℕ)
    → Distinct (x ∷ xs)
    → x ≢ a
    → before a (x ∷ xs) ≡ some t
    → last_of (x ∷ without a xs)
      ≡ (if points_at (last_of (x ∷ xs)) a then some t else last_of (x ∷ xs))
last_of-without x [] a t d ne e = cc
last_of-without x (y ∷ []) a t d ne e = ground arith
last_of-without x (y ∷ (z ∷ zs)) a t d ne e = elim (Bool-cases (y == a)) [
  | inl hit ↦ rw hit (elim (Option-cases (last_of (z ∷ zs))) [
    | inl l ↦ absurd (cons_nil (last_of-none (z ∷ zs) l))
    | inr (w, l) ↦
        let inside : has w (z ∷ zs) ≡ true = has_last (z ∷ zs) w l in
        rw l (ground (arith, d.1.0, inside))
  ])
  | inr miss ↦ rw miss (last_of-without y (z ∷ zs) a t d.1 (ground arith) (ground arith))
]
  where
    cons_nil : (z ∷ zs) ≡ [] → ⊥
    cons_nil e = cc
