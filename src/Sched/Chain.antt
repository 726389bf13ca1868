-- ===== src/Sched/Chain.antt =====
-- The linked list of tasks, src/kernel/sched/scheduler.cpp, as the list of their addresses.
use los_tac_os.Base.{
  ℕ, ◌≡◌, refl, Bool, true, false, ◌||◌, Option, none, some, List, [], ◌∷◌, ◌++◌, ◌==◌,
  if◌then◌else◌, arith,
}
use los_tac_os.Sched.{Task, Sched}

-- From the pointer `p` the `next` fields lead through the tasks `xs` to the null pointer.
abbrev pub Chain : (ℕ → Task) → Option ℕ → List ℕ → Type 0
Chain tasks p [] = p ≡ none
Chain tasks p (x ∷ xs) = (p ≡ some x) × Chain tasks (tasks x).next xs

abbrev pub has : ℕ → List ℕ → Bool
has a [] = false
has a (x ∷ xs) = (a == x) || has a xs

abbrev pub Distinct : List ℕ → Type 0
Distinct [] = Unit {0}
Distinct (x ∷ xs) = (has x xs ≡ false) × Distinct xs

abbrev pub last_of : List ℕ → Option ℕ
last_of [] = none
last_of (x ∷ []) = some x
last_of (x ∷ (y ∷ ys)) = last_of (y ∷ ys)

abbrev pub without : ℕ → List ℕ → List ℕ
without a [] = []
without a (x ∷ xs) = if x == a then xs else x ∷ without a xs

-- The task list holds `xs`, once each, and `tail` is the last of them.
pub record IsQueue (s : Sched) (xs : List ℕ) : Type 0 where
  pub chain : Chain s.tasks s.head xs
  pub distinct : Distinct xs
  pub last : s.tail ≡ last_of xs

-- A change of memory outside the list, or one that keeps the `next` fields.
pub Chain-same :
    (tasks tasks' : ℕ → Task) (p : Option ℕ) (xs : List ℕ)
    → ((a : ℕ) → has a xs ≡ true → (tasks' a).next ≡ (tasks a).next)
    → Chain tasks p xs
    → Chain tasks' p xs
Chain-same tasks tasks' p [] same c = c
Chain-same tasks tasks' p (x ∷ xs) same c = (
  c.0,
  Chain-same tasks tasks' (tasks' x).next xs (λ a h. same a (ground arith))
      (ground (arith, same x, c.1)),
)

pub has-append : (a : ℕ) (xs ys : List ℕ) → has a (xs ++ ys) ≡ (has a xs || has a ys)
has-append a [] ys = refl
has-append a (x ∷ xs) ys = ground (arith, has-append a xs ys)

pub has-without : (a b : ℕ) (xs : List ℕ) → has b xs ≡ false → has b (without a xs) ≡ false
has-without a b [] h = refl
has-without a b (x ∷ xs) h = ground (arith, has-without a b xs)

pub has-without_self : (a : ℕ) (xs : List ℕ) → Distinct xs → has a (without a xs) ≡ false
has-without_self a [] d = refl
has-without_self a (x ∷ xs) d = ground (arith, has-without_self a xs d.1)

pub Distinct-without : (a : ℕ) (xs : List ℕ) → Distinct xs → Distinct (without a xs)
Distinct-without a [] d = tt
Distinct-without a (x ∷ xs) d = ground (arith, Distinct-without a xs d.1, has-without a x xs d.0)

pub Distinct-snoc : (xs : List ℕ) (a : ℕ) → Distinct xs → has a xs ≡ false → Distinct (xs ++ a ∷ [])
Distinct-snoc [] a d h = ground arith
Distinct-snoc (x ∷ xs) a d h = ground (arith, Distinct-snoc xs a d.1, has-append x xs (a ∷ []))

pub last_of-snoc : (xs : List ℕ) (a : ℕ) → last_of (xs ++ a ∷ []) ≡ some a
last_of-snoc [] a = refl
last_of-snoc (x ∷ []) a = refl
last_of-snoc (x ∷ (y ∷ ys)) a = last_of-snoc (y ∷ ys) a

pub has_last : (xs : List ℕ) (t : ℕ) → last_of xs ≡ some t → has t xs ≡ true
has_last [] t e = cc
has_last (x ∷ []) t e = ground arith
has_last (x ∷ (y ∷ ys)) t e = ground (arith, has_last (y ∷ ys) t e)

pub last_of-none : (xs : List ℕ) → last_of xs ≡ none → xs ≡ []
last_of-none [] e = refl
last_of-none (x ∷ []) e = cc
last_of-none (x ∷ (y ∷ ys)) e = ground (arith, last_of-none (y ∷ ys) e)
