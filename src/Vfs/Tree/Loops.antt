-- ===== src/Vfs/Tree/Loops.antt =====
-- find of src/fs/vfs.cpp on a symbolic link that leads to itself. Its counter of links is local to a
-- call, and find calls itself for the target of each.
use los_tac_os.Base.{
  ℕ, zero, suc, ◌<◌, ◌≡◌, refl, ap, ◌∙◌, Bool, true, false, Option, some, List, [], ◌∷◌, length,
  ◌==◌, ltb, arith, inl, inr, Bool-cases,
}
use los_tac_os.Base.Run.{Run, done, out}
use los_tac_os.Vfs.{Vfs, FileSystems, is_link, start_dir}
use los_tac_os.Vfs.Paths.{
  slash, push_char, flush, parts_from, parts, is_dot, is_dot_dot, is_absolute,
}
use los_tac_os.Vfs.Find.{link_target, follow, enter, find_loop, find}
use los_tac_os.Vfs.Tree.{IsTree, entries, look}
use los_tac_os.Vfs.Tree.Lookup.{find_in-look}

module _ {W : Type 0} (f : FileSystems W) (behind : List ℕ → List ℕ) (walk : ℕ) where
  -- The loop of find over a path of one part ends where that part does.
  find_loop-out :
      (again : List ℕ → Vfs W → Run (Option ℕ × Vfs W)) (path name : List ℕ) (d : ℕ) (s : Vfs W)
      → ((rest : List ℕ) → enter f behind walk again d name rest s ≡ out)
      → (part rest : List ℕ) → parts_from part rest ≡ name ∷ []
      → find_loop f behind walk again path d part rest s ≡ out
  unfolding find_loop parts_from enter
  find_loop-out again path name d s o [] [] e = cc
  find_loop-out again path name d s o (x ∷ xs) [] e =
      let same : x ∷ xs ≡ name = cc e in
      rw (ap (λ y. enter f behind walk again d y (behind path) s) same ∙ o (behind path)) refl
  find_loop-out again path name d s o [] (c ∷ cs) e = elim (Bool-cases (c == slash)) [
    | inl g ↦ rw g (find_loop-out again path name d s o [] cs (rw g at e))
    | inr g ↦ rw g (find_loop-out again path name d s o (push_char [] c) cs (rw g at e))
  ]
  find_loop-out again path name d s o (x ∷ xs) (c ∷ cs) e = elim (Bool-cases (c == slash)) [
    | inl g ↦
        let e' : flush (x ∷ xs) (parts_from [] cs) ≡ name ∷ [] = rw g at e in
        let same : x ∷ xs ≡ name = cc e' in
        rw (g, ap (λ y. enter f behind walk again d y cs s) same ∙ o cs) refl
    | inr g ↦ rw g (find_loop-out again path name d s o (push_char (x ∷ xs) c) cs (rw g at e))
  ]

  link_target-absolute :
      (n : ℕ) (path : List ℕ) (s : Vfs W)
      → (s.nodes n).symlink ≡ some path
      → is_absolute path ≡ true
      → length path < 256
      → link_target f behind walk n s ≡ done path
  unfolding link_target
  link_target-absolute n path s l b r =
      let fits : ltb (length path) 256 ≡ true = ground arith in simp (l, b, fits) refl

  -- A name that is that of a link, where find of what it stands for does not end.
  enter-out :
      (again : List ℕ → Vfs W → Run (Option ℕ × Vfs W)) (path name : List ℕ) (d n : ℕ) (s : Vfs W)
      (live : ℕ → Bool) (kids : ℕ → List ℕ)
      → IsTree s.nodes live kids
      → live d ≡ true
      → length (kids d) < walk
      → look name (entries s.nodes (kids d)) ≡ some n
      → (length name == 0) ≡ false
      → is_dot name ≡ false
      → is_dot_dot name ≡ false
      → is_link (s.nodes n).kind ≡ true
      → link_target f behind walk n s ≡ done path
      → again path s ≡ out
      → (rest : List ℕ) → enter f behind walk again d name rest s ≡ out
  unfolding enter follow
  enter-out again path name d n s live kids t h room e z p q k l o rest =
      rw (z, p, q, find_in-look walk d name s.nodes live kids t h room, e, k, l, o) refl

  -- find does not end, with any fuel, on an absolute path of one part that is the name of a symbolic
  -- link to that same path.
  pub find-self_link :
      (fuel d n x : ℕ) (cs xs : List ℕ) (s : Vfs W) (live : ℕ → Bool) (kids : ℕ → List ℕ)
      → IsTree s.nodes live kids
      → start_dir true s ≡ some d
      → live d ≡ true
      → length (kids d) < walk
      → look (x ∷ xs) (entries s.nodes (kids d)) ≡ some n
      → is_dot (x ∷ xs) ≡ false
      → is_dot_dot (x ∷ xs) ≡ false
      → is_link (s.nodes n).kind ≡ true
      → (s.nodes n).symlink ≡ some (slash ∷ cs)
      → parts (slash ∷ cs) ≡ (x ∷ xs) ∷ []
      → length (slash ∷ cs) < 256
      → find f behind walk fuel (slash ∷ cs) s ≡ out
  unfolding find parts parts_from
  find-self_link zero d n x cs xs s live kids t r h room e p q k l one short = refl
  find-self_link (suc fuel) d n x cs xs s live kids t r h room e p q k l one short =
      let inner : find f behind walk fuel (slash ∷ cs) s ≡ out =
        find-self_link fuel d n x cs xs s live kids t r h room e p q k l one short in
      let target : link_target f behind walk n s ≡ done (slash ∷ cs) =
        link_target-absolute n (slash ∷ cs) s l refl short in
      let full : (length (x ∷ xs) == 0) ≡ false = ground arith in
      rw r (
        find_loop-out (find f behind walk fuel) (slash ∷ cs) (x ∷ xs) d s
          (enter-out (find f behind walk fuel) (slash ∷ cs) (x ∷ xs) d n s live kids t h room e full
            p q k target inner)
          [] cs one)
