-- ===== src/Vfs/Mounting.antt =====
-- mount and umount of src/fs/mount.cpp, and the functions of src/fs/vfs.cpp that set the current
-- directory and make devices.
use los_tac_os.Base.{
  ℕ, Bool, true, false, Option, none, some, List, [], ◌∷◌, length, ◌==◌, if◌then◌else◌,
}
use los_tac_os.Base.Run.{Run, done, ◌>>=◌}
use los_tac_os.Mounts.{Mount, same_name}
use los_tac_os.Vfs.{
  Vfs, Allocator, FileSystems, is_mount, set_node, create_node, strdup, vfs_dev, vfs_dir, vfs_mount,
}
use los_tac_os.Vfs.Paths.{create_dir_path}
use los_tac_os.Vfs.Find.{find}

-- sizeof(Mount)
abbrev pub mount_size : ℕ
mount_size = 32

-- The first mount of the path, and the list without it.
pub take_mount : (path : List ℕ) → List Mount → Option (List Mount)
take_mount path [] = none
take_mount path (m ∷ ms) =
    let later : Option (List Mount) = elim (take_mount path ms) [
      | none ↦ none
      | some rest ↦ some (m ∷ rest)
    ] in
    elim m.path [ none ↦ later | some own ↦ if same_name own path then some ms else later ]

-- "/dev"
abbrev pub dev_path : List ℕ
dev_path = 47 ∷ (100 ∷ (101 ∷ (118 ∷ [])))

module _ {W : Type 0} (a : Allocator W) (f : FileSystems W) (behind : List ℕ → List ℕ)
    (walk : ℕ) where
  -- The node becomes a mount, and the mount the first of the list, with a null path where there is
  -- no memory for it.
  pub add_mount :
      (path : List ℕ)
      → (fs : Option ℕ) → (mount_data n : ℕ) → List Mount
      → Vfs W
      → Run (Bool × List Mount × Vfs W)
  add_mount path fs mount_data n ms s =
      let v = record (s.nodes n) { kind = vfs_mount; filesystem = fs; mount_data = mount_data } in
      let s = set_node n v s in
      let (p, w) = a.kmalloc mount_size s.world in
      if p == 0
      then done (false, ms, record s { world = w })
      else (let (own, w) = strdup a path w in
          let ms = record { path = own; file_system = fs; mount_data = mount_data } ∷ ms in
          let start : Option (W → Bool × W) = elim fs [ none ↦ none | some k ↦ f.fs_init k ] in
          elim start [
            | none ↦ done (true, ms, record s { world = w })
            | some call ↦ let (ok, w) = call w in done (ok, ms, record s { world = w })
          ])

  pub mount :
      ℕ
      → (path : List ℕ) → (fs : Option ℕ) → (mount_data : ℕ) → List Mount
      → Vfs W
      → Run (Bool × List Mount × Vfs W)
  unfolding add_mount
  mount fuel path fs mount_data ms s = if length path == 0 then done (false, ms, s) else (do
    r ← find f behind walk fuel path s
    r ← elim r.0 [ some n ↦ done (some n, r.1) | none ↦ create_dir_path a walk path r.1 ]
    elim r.0 [ none ↦ done (false, ms, r.1) | some n ↦ add_mount path fs mount_data n ms r.1 ])

  -- The node of a mount is a directory again.
  abbrev pub clear_mount : Option ℕ → Vfs W → Vfs W
  clear_mount none s = s
  clear_mount (some n) s =
      if is_mount (s.nodes n).kind
      then set_node n (record (s.nodes n) { kind = vfs_dir; filesystem = none; mount_data = 0 }) s
      else s

  pub umount : ℕ → (path : List ℕ) → List Mount → Vfs W → Run (Bool × List Mount × Vfs W)
  unfolding take_mount
  umount fuel path ms s = elim (take_mount path ms) [
    | none ↦ done (false, ms, s)
    | some rest ↦ do r ← find f behind walk fuel path s; done (true, rest, clear_mount r.0 r.1)
  ]

  -- create_dev; `none` is the null pointer.
  pub create_dev : ℕ → (name : List ℕ) → (dev : ℕ) → Vfs W → Run (Option ℕ × Vfs W)
  create_dev fuel name dev s = do
    r ← find f behind walk fuel dev_path s
    elim r.0 [
      | none ↦ done (none, r.1)
      | some d ↦ do
        q ← create_node a name false d r.1
        let v = record (q.1.nodes q.0) { dev = some dev; kind = vfs_dev }
        done (some q.0, set_node q.0 v q.1)
    ]

  pub change_dir : ℕ → (path : List ℕ) → Vfs W → Run (Vfs W)
  change_dir fuel path s = do
    r ← find f behind walk fuel path s
    elim r.0 [
      | none ↦ done r.1
      | some n ↦ done (if (r.1.nodes n).directory then record r.1 { current_dir = some n } else r.1)
    ]
