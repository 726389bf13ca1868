-- ===== src/Base/Chain.antt =====
-- Singly linked lists in memory, as the list of their addresses.
use Prim.Native.Nat.{ℕ}
use mathlib.Core.Path.{◌≡◌, refl, sym, ap, ◌∙◌}
use mathlib.Core.Logic.{◌≢◌, inl, inr}
use mathlib.Core.Bool.{Bool, true, false, ◌||◌}
use mathlib.Core.Option.{Option, none, some}
use mathlib.Core.List.{List, [], ◌∷◌}
use native.Mathlib.Omega.{arith}
use los_tac_os.Base.Tests.{Bool-cases, ◌==◌, if◌then◌else◌}

-- From the pointer `p` the links lead through `xs` to the null pointer.
abbrev pub Links : (ℕ → Option ℕ) → Option ℕ → List ℕ → Type 0
Links next p [] = p ≡ none
Links next p (x ∷ xs) = (p ≡ some x) × Links next (next x) xs

abbrev pub holds : ℕ → List ℕ → Bool
holds a [] = false
holds a (x ∷ xs) = (a == x) || holds a xs

abbrev pub NoneTwice : List ℕ → Type 0
NoneTwice [] = Unit {0}
NoneTwice (x ∷ xs) = (holds x xs ≡ false) × NoneTwice xs

abbrev pub minus : ℕ → List ℕ → List ℕ
minus a [] = []
minus a (x ∷ xs) = if x == a then xs else x ∷ minus a xs

-- The element before `a` in a list that does not begin with it.
abbrev pub precedes : ℕ → List ℕ → Option ℕ
precedes a [] = none
precedes a (x ∷ []) = none
precedes a (x ∷ (y ∷ ys)) = if y == a then some x else precedes a (y ∷ ys)

pub Links-same :
    (next next' : ℕ → Option ℕ) (p : Option ℕ) (xs : List ℕ)
    → ((a : ℕ) → holds a xs ≡ true → next' a ≡ next a)
    → Links next p xs
    → Links next' p xs
Links-same next next' p [] same c = c
Links-same next next' p (x ∷ xs) same c = (
  c.0,
  Links-same next next' (next' x) xs (λ a h. same a (ground arith)) (ground (arith, same x, c.1)),
)

pub holds-minus : (a b : ℕ) (xs : List ℕ) → holds b xs ≡ false → holds b (minus a xs) ≡ false
holds-minus a b [] h = refl
holds-minus a b (x ∷ xs) h = ground (arith, holds-minus a b xs)

pub NoneTwice-minus : (a : ℕ) (xs : List ℕ) → NoneTwice xs → NoneTwice (minus a xs)
NoneTwice-minus a [] d = tt
NoneTwice-minus a (x ∷ xs) d = ground (arith, NoneTwice-minus a xs d.1, holds-minus a x xs d.0)

pub minus-holds : (a b : ℕ) (xs : List ℕ) → holds b (minus a xs) ≡ true → holds b xs ≡ true
minus-holds a b [] h = h
minus-holds a b (x ∷ xs) h = ground (arith, minus-holds a b xs)

pub precedes-holds : (a t : ℕ) (xs : List ℕ) → precedes a xs ≡ some t → holds t xs ≡ true
precedes-holds a t [] e = cc
precedes-holds a t (x ∷ []) e = cc
precedes-holds a t (x ∷ (y ∷ ys)) e = ground (arith, precedes-holds a t (y ∷ ys))

pub precedes-none : (a x : ℕ) (xs : List ℕ) → precedes a (x ∷ xs) ≡ none → holds a xs ≡ false
precedes-none a x [] e = refl
precedes-none a x (y ∷ ys) e = ground (arith, precedes-none a y ys)

-- Linking past `a`, which is not the first.
pub Links-minus :
    (next next' : ℕ → Option ℕ) (p : Option ℕ) (x : ℕ) (xs : List ℕ) (t a : ℕ)
    → Links next p (x ∷ xs)
    → NoneTwice (x ∷ xs)
    → x ≢ a
    → precedes a (x ∷ xs) ≡ some t
    → next' t ≡ next a
    → ((b : ℕ) → b ≢ t → next' b ≡ next b)
    → Links next' p (x ∷ minus a xs)
Links-minus next next' p x [] t a c d ne e n same = cc
Links-minus next next' p x (y ∷ ys) t a c d ne e n same = (
  c.0,
  elim (Bool-cases (y == a)) [
    | inl hit ↦
        let here : x ≡ t = ground arith in
        let there : y ≡ a = ground arith in
        let past : Links next (next' x) ys = rw (ap next' here ∙ n ∙ ap next (sym there)) c.1.1 in
        rw hit
          (Links-same next next' (next' x) ys (λ b h. same b (λ q. ground (arith, d.0, h))) past)
    | inr miss ↦
        let after : precedes a (y ∷ ys) ≡ some t = ground arith in
        let far : x ≢ t = λ q. ground (arith, precedes-holds a t (y ∷ ys) after, d.0) in
        rw miss (
          Links-minus next next' (next' x) y ys t a (same x far ∙ c.1.0, c.1.1) d.1 (ground arith)
            after n same)
  ],
)
