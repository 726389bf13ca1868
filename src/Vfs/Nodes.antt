-- ===== src/Vfs/Nodes.antt =====
-- read and write on nodes in src/fs/vfs.cpp. A size is below 2 ^ 31.
use los_tac_os.Base.{ℕ, Option, none, some, List, [], length, if◌then◌else◌}
use los_tac_os.Base.Int.{ℤ, pos, negsuc, int32}
use los_tac_os.Base.Run.{Run, done, ◌>>=◌, deref}
use los_tac_os.Vfs.{Vfs, Allocator, FileSystems, is_mount, is_dev}
use los_tac_os.Vfs.Content.{write_content}
use los_tac_os.Vfs.Handles.{Bytes, failed, read_plain}

module _ {W : Type 0} (f : FileSystems W) where
  -- The mounted file system of a node opens, reads and closes its own root.
  pub read_mounted :
      (n fs size : ℕ)
      → (ℕ → List ℕ → W → Option ℕ × W)
      → (ℕ → ℕ → W → Bytes × W)
      → Vfs W
      → Run (Bytes × Vfs W)
  read_mounted n fs size call_open call_read s =
      let (h, w) = call_open (s.nodes n).mount_data [] s.world in
      elim h [
        | none ↦ done (failed, record s { world = w })
        | some handle ↦
            let (r, w) = call_read handle size w in
            deref (f.fs_close fs) >>= λ call_close.
            done (r, record s { world = call_close handle w })
      ]

  -- read(Node *, ...); where no mounted file system answers, it does as read of a handle does.
  pub read_at : ℕ → (n : ℕ) → Vfs W → Run (Bytes × Vfs W)
  unfolding read_mounted
  read_at size n s =
      let own : Run (Bytes × Vfs W) = done (read_plain f size n s) in
      if is_mount (s.nodes n).kind
      then elim (s.nodes n).filesystem [
        | none ↦ own
        | some fs ↦ elim (f.fs_open fs) [
          | none ↦ own
          | some call_open ↦ elim (f.fs_read fs) [
            | none ↦ own
            | some call_read ↦ read_mounted n fs size call_open call_read s
          ]
        ]
      ]
      else own

  -- write(Node *, const char *, size_t), on devices only.
  pub write_device : List ℕ → (n : ℕ) → Vfs W → Run (ℕ × Vfs W)
  write_device bs n s = elim (s.nodes n).dev [
    | none ↦ done (0, s)
    | some d ↦ deref (f.dev_write d) >>= λ call.
        let (k, w) = call bs 0 s.world in done (length bs, record s { world = w })
  ]

  -- write(Node *, const char *, int): a file is found again by its own name, as a path.
  pub write_at :
      Allocator W → (List ℕ → List ℕ) → (walk fuel : ℕ) → List ℕ → (n : ℕ) → Vfs W → Run (ℤ × Vfs W)
  write_at a behind walk fuel bs n s =
      let v = s.nodes n in
      let path : List ℕ = elim v.name [ none ↦ [] | some given ↦ given ] in
      let to_dev : Option (ℤ × Vfs W) = elim v.dev [
        | none ↦ none
        | some d ↦ elim (f.dev_write d) [
          | none ↦ none
          | some call ↦
              let (k, w) = call bs 0 s.world in
              if is_dev v.kind then some (int32 k, record s { world = w }) else none
        ]
      ] in
      let to_file : Run (ℤ × Vfs W) = write_content a f behind walk fuel path bs s >>= λ r.
      done (if r.0 then pos (length bs) else negsuc 0, r.1) in
      elim to_dev [ some r ↦ done r | none ↦ if v.directory then done (negsuc 0, s) else to_file ]
