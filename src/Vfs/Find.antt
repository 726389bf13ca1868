-- ===== src/Vfs/Find.antt =====
-- find of src/fs/vfs.cpp. A call of find on the target of a symbolic link takes fuel.
use los_tac_os.Base.{
  ℕ, zero, suc, Bool, true, false, Option, none, some, List, [], ◌∷◌, ◌++◌, length, ltb, ◌==◌,
  if◌then◌else◌,
}
use los_tac_os.Base.Run.{Run, done, out, ◌>>=◌, ◌>>◌, deref, within}
use los_tac_os.Vfs.{Vfs, FileSystems, is_link, is_mount, find_in, start_dir}
use los_tac_os.Vfs.Paths.{slash, push_char, is_absolute, is_dot, is_dot_dot, get_path}

abbrev pub ends_in_slash : List ℕ → Bool
ends_in_slash [] = false
ends_in_slash (c ∷ []) = c == slash
ends_in_slash (c ∷ (d ∷ cs)) = ends_in_slash (d ∷ cs)

abbrev pub with_slash : List ℕ → List ℕ
with_slash cs = if ends_in_slash cs then cs else cs ++ slash ∷ []

-- The rest of the path behind `rel`; `inside` says that the last character was copied by the inner
-- loop.
pub relative : (inside : Bool) → (rel rest : List ℕ) → List ℕ
relative inside rel [] = rel
relative inside rel (c ∷ cs) =
    if c == slash
    then relative false (rel ++ slash ∷ []) cs
    else relative true ((if inside then rel else with_slash rel) ++ c ∷ []) cs

-- Where one part of a path leads: on to a node, to a mount whose file system has the rest, or to
-- nothing.
pub data Step : Type 0 where
  onward : ℕ → Step
  arrived : ℕ → Step
  lost : Step

-- `behind` gives the bytes that stand in memory behind the end of a path, up to the next 0: where
-- the last part is missing, the copy of the rest of the path starts after the end.
module _ {W : Type 0} (f : FileSystems W) (behind : List ℕ → List ℕ) (walk : ℕ) where
  -- No child has the name: the file system of a mount is asked for the rest of the path.
  unfoldable pub ask_mount : (node : ℕ) → (part rest : List ℕ) → Vfs W → Run (Step × Vfs W)
  unfolding relative
  ask_mount node part rest s =
      let rel = relative false part rest in
      if is_mount (s.nodes node).kind
      then elim (s.nodes node).filesystem [
        | none ↦ done (lost, s)
        | some fs ↦ elim (f.fs_open fs) [
          | none ↦ done (lost, s)
          | some open_file ↦
              within (ltb (length rel) 256)
              >> (let (h, w) = open_file (s.nodes node).mount_data rel s.world in
                  elim h [
                    | none ↦ done (lost, record s { world = w })
                    | some handle ↦ deref (f.fs_close fs) >>= λ close.
                        done (arrived node, record s { world = close handle w })
                  ])
        ]
      ]
      else done (lost, s)

  -- The path that a symbolic link stands for.
  unfoldable pub link_target : ℕ → Vfs W → Run (List ℕ)
  link_target n s = do
    target ← deref (s.nodes n).symlink
    full ← if is_absolute target then done target else (do
      base ← elim (s.nodes n).parent [ none ↦ done (slash ∷ []) | some p ↦ get_path walk p s ]
      done (with_slash base ++ target))
    within (ltb (length full) 256)
    done full

  -- The loop over symbolic links, of which it passes `k` at most; `again` is find.
  unfoldable pub follow :
      (again : List ℕ → Vfs W → Run (Option ℕ × Vfs W)) → (k n : ℕ) → Vfs W → Run (Step × Vfs W)
  unfolding link_target
  follow again zero n s = done (if is_link (s.nodes n).kind then lost else onward n, s)
  follow again (suc k) n s =
      if is_link (s.nodes n).kind
      then (link_target n s >>= λ t.
          again t s >>= λ r. elim r.0 [ none ↦ done (lost, r.1) | some n' ↦ follow again k n' r.1 ])
      else done (onward n, s)

  -- What find does at the end of a part; `rest` is what stands behind it.
  unfoldable pub enter :
      (again : List ℕ → Vfs W → Run (Option ℕ × Vfs W))
      → (node : ℕ) → (part rest : List ℕ) → Vfs W
      → Run (Step × Vfs W)
  unfolding ask_mount
  enter again node part rest s =
      if length part == 0
      then done (onward node, s)
      else if is_dot part
      then done (onward node, s)
      else if is_dot_dot part
      then done (elim (s.nodes node).parent [ none ↦ onward node | some p ↦ onward p ], s)
      else (do
        next ← find_in walk node part s.nodes
        elim next [ none ↦ ask_mount node part rest s | some n ↦ follow again 8 n s ])

  -- The loop of find over the characters of the path; `path` is the whole of it.
  unfoldable pub find_loop :
      (again : List ℕ → Vfs W → Run (Option ℕ × Vfs W))
      → (path : List ℕ) → (node : ℕ) → (part rest : List ℕ) → Vfs W
      → Run (Option ℕ × Vfs W)
  find_loop again path node part [] s = do
    r ← enter again node part (behind path) s
    elim r.0 [
      | onward n ↦ done (some n, r.1)
      | arrived n ↦ done (some n, r.1)
      | lost ↦ done (none, r.1)
    ]
  find_loop again path node part (c ∷ cs) s =
      if c == slash
      then (do
        r ← enter again node part cs s
        elim r.0 [
          | onward n ↦ find_loop again path n [] cs r.1
          | arrived n ↦ done (some n, r.1)
          | lost ↦ done (none, r.1)
        ])
      else find_loop again path node (push_char part c) cs s

  -- A leading slash is skipped: it would end an empty part.
  unfoldable pub find : ℕ → (path : List ℕ) → Vfs W → Run (Option ℕ × Vfs W)
  find zero path s = out
  find (suc fuel) [] s = done (s.current_dir, s)
  find (suc fuel) (c ∷ cs) s = do
    node ← deref (start_dir (c == slash) s)
    find_loop (find fuel) (c ∷ cs) node [] (if c == slash then cs else c ∷ cs) s
