-- ===== src/Vfs/Tree/Lookup.antt =====
-- find_in of src/fs/vfs.cpp is the lookup in the list of entries.
use los_tac_os.Base.{
  ℕ, zero, suc, ◌<◌, ◌≡◌, ◌≢◌, refl, ap, Bool, true, Option, none, some, List, [], ◌∷◌, length,
  arith, inl, inr, Bool-cases, Option-cases,
}
use los_tac_os.Base.Run.{done}
use los_tac_os.Base.Chain.{Links, holds}
use los_tac_os.Vfs.{Node, equal_names, find_child, find_in}
use los_tac_os.Vfs.Tree.{IsTree, next_of, name_from, name_of, entries, look}

pub equal_names_refl : (xs : List ℕ) → equal_names xs xs ≡ true
unfolding equal_names
equal_names_refl [] = refl
equal_names_refl (x ∷ xs) = ground (arith, equal_names_refl xs)

pub equal_names→eq : (xs ys : List ℕ) → equal_names xs ys ≡ true → xs ≡ ys
unfolding equal_names
equal_names→eq [] [] h = refl
equal_names→eq [] (y ∷ ys) h = cc
equal_names→eq (x ∷ xs) [] h = cc
equal_names→eq (x ∷ xs) (y ∷ ys) h = ground (arith, equal_names→eq xs ys)

pub find_child-look :
    (walk : ℕ) (name : List ℕ) (p : Option ℕ) (ns : List ℕ) (m : ℕ → Node)
    → Links (next_of m) p ns
    → ((n : ℕ) → holds n ns ≡ true → (m n).name ≢ none)
    → length ns < walk
    → find_child walk name p m ≡ done (look name (entries m ns))
unfolding find_child look
find_child-look zero name p ns m c g f = absurd (omega arith)
find_child-look (suc walk) name p [] m c g f = rw c refl
find_child-look (suc walk) name p (n ∷ ns) m c g f = elim (Option-cases (m n).name) [
  | inl e ↦ absurd (g n (ground arith) e)
  | inr (given, e) ↦
      let test : equal_names (name_of (m n)) name ≡ equal_names given name =
        ap (λ o. equal_names (name_from o) name) e in
      rw (c.0) (
        rw (find_child-look walk name (m n).next ns m c.1 (λ x h. g x (ground arith)) (omega arith))
          (rw test (
            simp e (elim (Bool-cases (equal_names given name)) [
              | inl g ↦ rw g refl
              | inr g ↦ rw g refl
            ]))))
]

-- With more fuel than children, find_in returns the first entry of the directory with the name.
pub find_in-look :
    (walk d : ℕ) (name : List ℕ) (m : ℕ → Node) (live : ℕ → Bool) (kids : ℕ → List ℕ)
    → IsTree m live kids
    → live d ≡ true
    → length (kids d) < walk
    → find_in walk d name m ≡ done (look name (entries m (kids d)))
unfolding find_in
find_in-look walk d name m live kids t l f =
    find_child-look walk name (m d).children (kids d) m (t.chain d l)
      (λ n h. t.named n (t.alive d n l h)) f

-- What is found is a child.
pub look-holds :
    (q : List ℕ) (m : ℕ → Node) (ns : List ℕ) (x : ℕ)
    → look q (entries m ns) ≡ some x
    → holds x ns ≡ true
unfolding look
look-holds q m [] x e = cc
look-holds q m (n ∷ ns) x e = elim (Bool-cases (equal_names (name_of (m n)) q)) [
  | inl g ↦ let same : x ≡ n = ground arith in ground arith
  | inr g ↦ ground (arith, look-holds q m ns x)
]
