-- ===== src/Vfs/Tree/Resolve.antt =====
-- find of src/fs/vfs.cpp over the tree, and the round trip with create_dir_path.
use los_tac_os.Base.{
  ℕ, ◌<◌, ◌≡◌, false, List, [], ◌∷◌, length, length-append, ◌==◌, arith, inl, inr, Bool-cases,
}
use los_tac_os.Base.Run.{Run}
use los_tac_os.Vfs.{Vfs}
use los_tac_os.Vfs.Paths.{slash, push_char, flush, parts_from, is_dot, is_dot_dot}
use los_tac_os.Vfs.Tree.{block_limit}
use los_tac_os.Vfs.Tree.Dirs.{AllShort}

-- No part is "." or "..".
abbrev pub AllNamed : List (List ℕ) → Type 0
AllNamed [] = Unit {0}
AllNamed (p ∷ ps) = (is_dot p ≡ false) × (is_dot_dot p ≡ false) × AllNamed ps

push_char-short :
    (part : List ℕ) (c : ℕ) → length part < block_limit → length (push_char part c) < block_limit
unfolding push_char
push_char-short part c h = ground (arith, length-append part (c ∷ []))

-- A part has at most the 127 characters of its buffer, however long the path is.
pub parts_from-AllShort :
    (part path : List ℕ) → length part < block_limit → AllShort (parts_from part path)
unfolding parts_from
parts_from-AllShort [] [] h = tt
parts_from-AllShort (x ∷ xs) [] h = (h, tt)
parts_from-AllShort part (c ∷ cs) h = elim (Bool-cases (c == slash)) [
  | inl e ↦ rw e (flushed part (parts_from [] cs) h (parts_from-AllShort [] cs (omega arith)))
  | inr e ↦ rw e (parts_from-AllShort (push_char part c) cs (push_char-short part c h))
]
  where
    flushed :
        (p : List ℕ) (ps : List (List ℕ))
        → length p < block_limit
        → AllShort ps
        → AllShort (flush p ps)
    flushed [] ps s a = a
    flushed (x ∷ xs) ps s a = (s, a)
