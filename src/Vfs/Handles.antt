-- ===== src/Vfs/Handles.antt =====
-- Reading and writing through nodes and handles in src/fs/vfs.cpp. A path that is opened is cut to
-- the 255 characters of its buffer.
use los_tac_os.Base.{
  ℕ, zero, suc, Bool, false, Option, none, some, List, [], ◌∷◌, ◌++◌, length, take, drop, ltb, ◌==◌,
  if◌then◌else◌,
}
use los_tac_os.Base.Int.{ℤ, negsuc, int32}
use los_tac_os.Base.Run.{Run, done, ◌>>=◌, deref}
use los_tac_os.Mounts.{Mount, find_mount}
use los_tac_os.Vfs.{Node, Vfs, Allocator, FileSystems, is_dev, get_process_cwd}
use los_tac_os.Vfs.Paths.{slash, is_absolute, get_path}
use los_tac_os.Vfs.Find.{find, with_slash}

pub record Handle : Type 0 where
  pub node : Option ℕ
  pub mount : Option Mount
  pub fs_handle : Option ℕ
  pub directory : Bool

-- sizeof(VfsHandle)
abbrev pub handle_size : ℕ
handle_size = 32

-- What a read gives: its result and the bytes that it stored.
abbrev pub Bytes : Type 0
Bytes = ℤ × List ℕ

abbrev pub failed : Bytes
failed = (negsuc 0, [])

unfoldable pub slice : ℕ → (ℕ → ℕ) → List ℕ
slice zero m = []
slice (suc n) m = slice n m ++ m n ∷ []

-- `while (*sub == '/') sub++`
pub skip_slashes : List ℕ → List ℕ
skip_slashes [] = []
skip_slashes (c ∷ cs) = if c == slash then skip_slashes cs else c ∷ cs

-- The content of a plain file, at most `size` bytes of it.
unfoldable pub read_content : ℕ → Node → Bytes
unfolding slice
read_content size v = if v.directory then failed else (elim v.file [
  | none ↦ failed
  | some f ↦ elim f.content [
    | none ↦ failed
    | some m ↦ let n = if ltb f.size size then f.size else size in (int32 n, slice n m)
  ]
])

module _ {W : Type 0} (f : FileSystems W) where
  -- read of a device, with its size_t made an int.
  abbrev pub read_dev :
      ℕ → (d : ℕ) → Option (ℕ → ℕ → W → (ℕ × List ℕ) × W) → Vfs W → Option (Bytes × Vfs W)
  read_dev size d none s = none
  read_dev size d (some call) s =
      let ((n, bs), w) = call size 0 s.world in some ((int32 n, bs), record s { world = w })

  -- What read(VfsHandle *, ...) does with a node.
  pub read_plain : ℕ → (n : ℕ) → Vfs W → Bytes × Vfs W
  unfolding read_content
  read_plain size n s =
      let v = s.nodes n in
      let found : Option (Bytes × Vfs W) = elim v.dev [
        | none ↦ none
        | some d ↦ if is_dev v.kind then read_dev size d (f.dev_read d) s else none
      ] in
      elim found [ some r ↦ r | none ↦ (read_content size v, s) ]

  -- read(VfsHandle *, ...), with a handle and a buffer that are not null.
  pub read_handle : ℕ → Handle → Vfs W → Run (Bytes × Vfs W)
  unfolding read_plain
  read_handle size h s =
      let local : Bytes × Vfs W = elim h.node [
        | none ↦ (failed, s)
        | some n ↦ read_plain size n s
      ] in
      elim h.mount [
        | none ↦ done local
        | some m ↦ elim m.file_system [
          | none ↦ done local
          | some fs ↦ elim (f.fs_read fs) [
            | none ↦ done local
            | some call ↦ deref h.fs_handle >>= λ k.
                let (r, w) = call k size s.world in done (r, record s { world = w })
          ]
        ]
      ]

  -- write(VfsHandle *, ...)
  pub write_handle : List ℕ → Handle → Vfs W → Run (ℤ × Vfs W)
  write_handle bs h s =
      let plain : ℤ × Vfs W = elim h.node [
        | none ↦ (negsuc 0, s)
        | some n ↦ elim (s.nodes n).dev [
          | none ↦ (negsuc 0, s)
          | some d ↦ elim (f.dev_write d) [
            | none ↦ (negsuc 0, s)
            | some call ↦ let (k, w) = call bs 0 s.world in (int32 k, record s { world = w })
          ]
        ]
      ] in
      elim h.mount [
        | none ↦ done plain
        | some m ↦ elim m.file_system [
          | none ↦ done plain
          | some fs ↦ elim (f.fs_write fs) [
            | none ↦ done plain
            | some call ↦ deref h.fs_handle >>= λ k.
                let (r, w) = call k bs s.world in done (r, record s { world = w })
          ]
        ]
      ]

  -- close; the handle's own block is a value.
  pub close_handle : Handle → Vfs W → Run (Vfs W)
  close_handle h s = elim h.mount [
    | none ↦ done s
    | some m ↦ elim m.file_system [
      | none ↦ done s
      | some fs ↦ elim (f.fs_close fs) [
        | none ↦ done s
        | some call ↦ deref h.fs_handle >>= λ k. done (record s { world = call k s.world })
      ]
    ]
  ]

  module _ (a : Allocator W) (behind : List ℕ → List ℕ) (walk : ℕ) (mounts : List Mount) where
    -- The path from the root, in a buffer of 256 bytes.
    pub resolve : List ℕ → Vfs W → Run (List ℕ)
    resolve path s = if is_absolute path then done (take 255 path) else (do
      cwd ← deref (get_process_cwd s)
      base ← get_path walk cwd s
      done (take 255 (with_slash base ++ path)))

    -- A block for the handle; `k` is the clean-up where there is none.
    pub give_handle : Handle → (W → W) → Vfs W → Option Handle × Vfs W
    give_handle h k s =
        let (p, w) = a.kmalloc handle_size s.world in
        if p == 0 then (none, record s { world = k w }) else (some h, record s { world = w })

    -- The part of open after the search for a mount.
    pub open_node : ℕ → (resolved : List ℕ) → Vfs W → Run (Option Handle × Vfs W)
    unfolding give_handle
    open_node fuel resolved s = do
      r ← find f behind walk fuel resolved s
      elim r.0 [
        | none ↦ done (none, r.1)
        | some n ↦
            let h : Handle = record {
              node = some n;
              mount = none;
              fs_handle = none;
              directory = (r.1.nodes n).directory;
            } in
            done (give_handle h (λ w. w) r.1)
      ]

    -- The file system of the mount opens the path below it.
    pub open_mounted :
        (m : Mount)
        → (fs : ℕ) → (ℕ → List ℕ → W → Option ℕ × W)
        → (sub : List ℕ) → Vfs W
        → Option Handle × Vfs W
    unfolding give_handle
    open_mounted m fs call sub s =
        let (r, w) = call m.mount_data sub s.world in
        let s = record s { world = w } in
        elim r [
          | none ↦ (none, s)
          | some k ↦
              let h : Handle = record {
                node = none;
                mount = some m;
                fs_handle = some k;
                directory = false;
              } in
              let undo : W → W = elim (f.fs_close fs) [ none ↦ λ w. w | some close ↦ close k ] in
              give_handle h undo s
        ]

    pub open_path : ℕ → List ℕ → Vfs W → Run (Option Handle × Vfs W)
    unfolding resolve open_node open_mounted skip_slashes
    open_path fuel path s = if length path == 0 then done (none, s) else (do
      resolved ← resolve path s
      best ← find_mount mounts resolved
      elim best [
        | none ↦ open_node fuel resolved s
        | some m ↦ elim m.file_system [
          | none ↦ open_node fuel resolved s
          | some fs ↦ elim (f.fs_open fs) [
            | none ↦ open_node fuel resolved s
            | some call ↦ deref m.path >>= λ own.
                let sub = skip_slashes (drop (length own) resolved) in
                if length sub == 0
                then open_node fuel resolved s
                else done (open_mounted m fs call sub s)
          ]
        ]
      ])
