-- ===== src/Vfs/Paths.antt =====
-- Paths in src/fs/vfs.cpp: create_file_path, create_dir_path, get_path and find. A call of find on
-- the target of a symbolic link takes fuel. A path that is looked up before there is a root is a
-- fault.
use los_tac_os.Base.{
  ℕ, zero, suc, ◌+◌, Bool, true, false, ◌&&◌, Option, none, some, List, [], ◌∷◌, ◌++◌, length, ltb,
  ◌==◌, if◌then◌else◌,
}
use los_tac_os.Base.Run.{Run, done, fault, out, ◌>>=◌, ◌>>◌, deref, within}
use los_tac_os.Vfs.{
  Node, vfs_symlink, Vfs, Allocator, set_node, find_in, start_dir, create_node, strdup,
}

-- The character '/'.
abbrev pub slash : ℕ
slash = 47

-- `if (i < sizeof(part) - 1) part[i++] = c`
unfoldable pub push_char : List ℕ → ℕ → List ℕ
push_char part c = if ltb (length part) 127 then part ++ c ∷ [] else part

abbrev pub flush : List ℕ → List (List ℕ) → List (List ℕ)
flush [] ps = ps
flush (c ∷ cs) ps = (c ∷ cs) ∷ ps

-- The parts of a path between its slashes, those that are empty left out; `part` is what was read
-- of the current one.
unfoldable pub parts_from : List ℕ → List ℕ → List (List ℕ)
unfolding push_char
parts_from part [] = flush part []
parts_from part (c ∷ cs) =
    if c == slash then flush part (parts_from [] cs) else parts_from (push_char part c) cs

unfoldable pub parts : List ℕ → List (List ℕ)
unfolding parts_from
parts path = parts_from [] path

abbrev pub is_absolute : List ℕ → Bool
is_absolute [] = false
is_absolute (c ∷ cs) = c == slash

-- "." and ".."
abbrev pub is_dot : List ℕ → Bool
is_dot (c ∷ []) = c == 46
is_dot _ = false

abbrev pub is_dot_dot : List ℕ → Bool
is_dot_dot (c ∷ (d ∷ [])) = (c == 46) && (d == 46)
is_dot_dot _ = false

module _ {W : Type 0} (a : Allocator W) (walk : ℕ) where
  -- The loop of create_dir_path.
  unfoldable pub create_dirs : List (List ℕ) → (dir : ℕ) → Vfs W → Run (ℕ × Vfs W)
  create_dirs [] dir s = done (dir, s)
  create_dirs (part ∷ ps) dir s = do
    found ← find_in walk dir part s.nodes
    elim found [
      | some n ↦ create_dirs ps n s
      | none ↦ create_node a part true dir s >>= λ r. create_dirs ps r.0 r.1
    ]

  -- `none` is the null pointer, for an empty path.
  unfoldable pub create_dir_path : List ℕ → Vfs W → Run (Option ℕ × Vfs W)
  create_dir_path path s = if length path == 0 then done (none, s) else (do
    dir ← deref (start_dir (is_absolute path) s)
    r ← create_dirs (parts path) dir s
    done (some r.0, r.1))

  -- The loop of create_file_path: the last part is a file, the others directories.
  pub create_file_in : List (List ℕ) → (dir : ℕ) → Vfs W → Run (Option ℕ × Vfs W)
  create_file_in [] dir s = done (none, s)
  create_file_in (part ∷ []) dir s = do
    found ← find_in walk dir part s.nodes
    elim found [
      | some n ↦ done (some n, s)
      | none ↦ create_node a part false dir s >>= λ r. done (some r.0, r.1)
    ]
  create_file_in (part ∷ (next ∷ ps)) dir s = do
    found ← find_in walk dir part s.nodes
    elim found [
      | none ↦ create_node a part true dir s >>= λ r. create_file_in (next ∷ ps) r.0 r.1
      | some n ↦ if (s.nodes n).directory then create_file_in (next ∷ ps) n s else done (none, s)
    ]

  pub create_file_path : List ℕ → Vfs W → Run (Option ℕ × Vfs W)
  create_file_path path s = elim s.root [
    | none ↦ done (none, s)
    | some _ ↦
        if length path == 0
        then done (none, s)
        else (do dir ← deref (start_dir (is_absolute path) s); create_file_in (parts path) dir s)
  ]

  pub create_symlink_path : (path target : List ℕ) → Vfs W → Run (Option ℕ × Vfs W)
  unfolding strdup
  create_symlink_path path target s = do
    r ← create_file_path path s
    elim r.0 [
      | none ↦ done (none, r.1)
      | some n ↦ do
        let s = r.1
        let (p, w) = a.kmalloc (length target + 1) s.world
        let v = record (s.nodes n) { kind = vfs_symlink; symlink = some target }
        if p == 0 then fault else done (some n, set_node n v (record s { world = w }))
    ]

abbrev pub is_node : ℕ → Option ℕ → Bool
is_node n none = false
is_node n (some r) = n == r

-- The loop of get_path, which puts the names of the nodes up to the root before `temp`; past 1023
-- characters it writes past its buffer.
pub path_up : ℕ → (root : Option ℕ) → Option ℕ → (temp : List ℕ) → (ℕ → Node) → Run (List ℕ)
path_up zero root p temp m = out
path_up (suc fuel) root none temp m = done temp
path_up (suc fuel) root (some n) temp m =
    if is_node n root
    then done temp
    else (deref (m n).name >>= λ given.
        let longer = slash ∷ (given ++ temp) in
        within (ltb (length longer) 1024) >> path_up fuel root (m n).parent longer m)

unfoldable pub get_path : ℕ → {W : Type 0} → (node : ℕ) → Vfs W → Run (List ℕ)
unfolding path_up
get_path walk node s =
    if is_node node s.root then done (slash ∷ []) else path_up walk s.root (some node) [] s.nodes
