-- ===== src/Mounts.antt =====
-- The registry of file systems, src/fs/fs.cpp, and the lookup of a mount, src/fs/mount.cpp. A path
-- is the list of its characters, an object its address, and the list of mounts a List.
pub mod Find
pub mod Registry
mod Tests
use los_tac_os.Base.{
  ℕ, zero, suc, ◌+◌, ◌-◌, Bool, true, false, ◌&&◌, ◌||◌, not, ◌==◌, ltb, leb, if◌then◌else◌, Option,
  none, some, List, [], ◌∷◌, ◌++◌, length,
}
use los_tac_os.Base.Run.{Run, done, fault}

-- The path is `none` where there was no memory for it.
pub record Mount : Type 0 where
  pub path : Option (List ℕ)
  pub file_system : Option ℕ
  pub mount_data : ℕ

-- `strncmp(path, prefix, strlen(prefix)) == 0`, with the rest of `path`.
pub strip : (prefix path : List ℕ) → Option (List ℕ)
strip [] path = some path
strip (c ∷ cs) [] = none
strip (c ∷ cs) (d ∷ ds) = if c == d then strip cs ds else none

-- The byte behind the prefix is '/' or 0.
abbrev pub at_end : Option (List ℕ) → Bool
at_end none = false
at_end (some []) = true
at_end (some (c ∷ cs)) = c == 47

-- The loop of find_mount with the `best` mount so far and the length of its path. The length of a
-- null path is a fault.
pub find_mount_loop : List Mount → List ℕ → Option Mount → ℕ → Run (Option Mount)
find_mount_loop [] path best best_len = done best
find_mount_loop (m ∷ ms) path best best_len =
    let taken : ℕ → Run (Option Mount) = λ len. find_mount_loop ms path (some m) len in
    let passed = find_mount_loop ms path best best_len in
    elim m.path [
      | none ↦ fault
      | some own ↦
          if at_end (strip own path) && ltb best_len (length own)
          then taken (length own)
          else passed
    ]

pub find_mount : List Mount → List ℕ → Run (Option Mount)
find_mount mounts path = find_mount_loop mounts path none 0

-- `filesystems` up to `fs_count`.
pub contains : ℕ → List ℕ → Bool
contains fs [] = false
contains fs (f ∷ fss) = (f == fs) || contains fs fss

-- register_filesystem; a null pointer is `none`.
pub register_filesystem : Option ℕ → List ℕ → List ℕ
register_filesystem none fss = fss
register_filesystem (some fs) fss =
    if contains fs fss || leb 16 (length fss) then fss else fss ++ fs ∷ []

-- The test `strcmp(a, b) == 0`.
pub same_name : List ℕ → List ℕ → Bool
same_name [] [] = true
same_name [] (y ∷ ys) = false
same_name (x ∷ xs) [] = false
same_name (x ∷ xs) (y ∷ ys) = (x == y) && same_name xs ys

-- The loop of get_filesystem; `name_of` gives the name of a file system, if it has one.
pub get_loop : (ℕ → Option (List ℕ)) → List ℕ → List ℕ → Option ℕ
get_loop name_of name [] = none
get_loop name_of name (f ∷ fss) = elim (name_of f) [
  | none ↦ get_loop name_of name fss
  | some n ↦ if same_name n name then some f else get_loop name_of name fss
]

pub get_filesystem : (ℕ → Option (List ℕ)) → Option (List ℕ) → List ℕ → Option ℕ
get_filesystem name_of none fss = none
get_filesystem name_of (some name) fss = get_loop name_of name fss
