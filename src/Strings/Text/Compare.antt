-- ===== src/Strings/Text/Compare.antt =====
-- strcmp, strncmp, strnlen and the copies of src/lib/string.cpp against lists of characters.
use los_tac_os.Base.{
  ℕ, zero, suc, ◌+◌, ◌<◌, ◌≡◌, ◌≢◌, inl, inr, refl, ◌==◌, some, List, [], ◌∷◌, length, Bool-cases,
  if◌then◌else◌, arith,
}
use los_tac_os.Base.Int.{ℤ, pos}
use los_tac_os.Strings.{diff}
use los_tac_os.Strings.Text.{strcmp, strncmp}

-- At the address `p` stands the string with the characters `cs`.
abbrev pub StringAt : (ℕ → ℕ) → ℕ → List ℕ → Type 0
StringAt m p [] = m p ≡ 0
StringAt m p (c ∷ cs) = (m p ≡ c) × ((c ≢ 0) × StringAt m (p + 1) cs)

-- The lexicographic order of two lists of characters, the end of a list below all of them.
abbrev pub compare : List ℕ → List ℕ → ℤ
compare [] [] = pos 0
compare [] (y ∷ ys) = diff 0 y
compare (x ∷ xs) [] = diff x 0
compare (x ∷ xs) (y ∷ ys) = if x == y then compare xs ys else diff x y

abbrev pub take_chars : ℕ → List ℕ → List ℕ
take_chars zero cs = []
take_chars (suc n) [] = []
take_chars (suc n) (c ∷ cs) = c ∷ take_chars n cs

-- strcmp of two strings returns, with more fuel than the first has characters, and its result is
-- the difference of the first characters that differ, the end of a string counting as 0.
pub strcmp-compare :
    (fuel a b : ℕ) (xs ys : List ℕ) (m : ℕ → ℕ)
    → StringAt m a xs
    → StringAt m b ys
    → length xs < fuel
    → strcmp fuel a b m ≡ some (compare xs ys)
unfolding strcmp diff
strcmp-compare zero a b xs ys m s t f = absurd (omega arith)
strcmp-compare (suc fuel) a b [] [] m s t f = rw (s, t) refl
strcmp-compare (suc fuel) a b [] (y ∷ ys) m s t f = rw (s, t.0) refl
strcmp-compare (suc fuel) a b (x ∷ xs) [] m s t f = ground (arith, s.0, s.1.0)
strcmp-compare (suc fuel) a b (x ∷ xs) (y ∷ ys) m s t f = elim (Bool-cases (x == y)) [
  | inl e ↦ ground (
    arith,
    s.0,
    s.1.0,
    t.0,
    strcmp-compare fuel (a + 1) (b + 1) xs ys m s.1.1 t.1.1 (omega arith),
  )
  | inr e ↦ ground (arith, s.0, s.1.0, t.0)
]

-- strncmp of two strings is the comparison of their first `n` characters.
pub strncmp-compare :
    (n a b : ℕ) (xs ys : List ℕ) (m : ℕ → ℕ)
    → StringAt m a xs
    → StringAt m b ys
    → strncmp n a b m ≡ compare (take_chars n xs) (take_chars n ys)
unfolding strncmp diff
strncmp-compare zero a b xs ys m s t = refl
strncmp-compare (suc n) a b [] [] m s t = ground (arith, s, t)
strncmp-compare (suc n) a b [] (y ∷ ys) m s t = ground (arith, s, t.0, t.1.0)
strncmp-compare (suc n) a b (x ∷ xs) [] m s t = ground (arith, s.0, s.1.0, t)
strncmp-compare (suc n) a b (x ∷ xs) (y ∷ ys) m s t =
    ground (arith, s.0, s.1.0, t.0, t.1.0, strncmp-compare n (a + 1) (b + 1) xs ys m s.1.1 t.1.1)
