-- ===== src/Mounts/Registry.antt =====
-- The registry of src/fs/fs.cpp.
use los_tac_os.Base.{
  ℕ, ◌≤◌, ◌≡◌, refl, ◌∙◌, true, false, ◌||◌, leb, some, List, [], ◌∷◌, ◌++◌, length, length-append,
  Bool-cases, inl, inr, ◌⊎◌, arith,
}
use los_tac_os.Mounts.{contains, register_filesystem}

abbrev NoneTwice : List ℕ → Type 0
NoneTwice [] = Unit {0}
NoneTwice (f ∷ fss) = (contains f fss ≡ false) × NoneTwice fss

-- At most 16 file systems, each once.
pub record IsRegistry (fss : List ℕ) : Type 0 where
  pub room : length fss ≤ 16
  pub once : NoneTwice fss

contains-append :
    (f : ℕ) (xs ys : List ℕ) → contains f (xs ++ ys) ≡ (contains f xs || contains f ys)
unfolding contains
contains-append f [] ys = refl
contains-append f (x ∷ xs) ys = ground (arith, contains-append f xs ys)

contains_self : (f : ℕ) → contains f (f ∷ []) ≡ true
unfolding contains
contains_self f = ground arith

NoneTwice-snoc :
    (fss : List ℕ) (f : ℕ) → NoneTwice fss → contains f fss ≡ false → NoneTwice (fss ++ f ∷ [])
unfolding contains
NoneTwice-snoc [] f d h = (refl, tt)
NoneTwice-snoc (x ∷ fss) f d h =
    (ground (arith, contains-append x fss (f ∷ []), d.0), NoneTwice-snoc fss f d.1 (ground arith))

-- register_filesystem keeps the registry within its 16 places and free of repetitions; a file
-- system that it is given is in it afterwards, unless the 16 places are full.
pub register_filesystem-IsRegistry :
    (f : ℕ) (fss : List ℕ)
    → IsRegistry fss
    → IsRegistry (register_filesystem (some f) fss)
      × ((contains f (register_filesystem (some f) fss) ≡ true) ⊎ (16 ≤ length fss))
unfolding register_filesystem
register_filesystem-IsRegistry f fss q = elim (Bool-cases (contains f fss || leb 16 (length fss))) [
  | inl e ↦ rw e (q, ground arith)
  | inr e ↦ rw e (
    record {
      room = ground (arith, length-append fss (f ∷ []));
      once = NoneTwice-snoc fss f q.once (ground arith);
    },
    inl (inside fss),
  )
]
  where
    inside : (xs : List ℕ) → contains f (xs ++ f ∷ []) ≡ true
    inside xs = contains-append f xs (f ∷ []) ∙ ground (arith, contains_self f)
