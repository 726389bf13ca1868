-- ===== src/Fd/Io.antt =====
-- read, write, lseek and fsize on descriptors, src/user/syscall.cpp.
pub mod Files
use los_tac_os.Base.{
  ℕ, zero, suc, ◌+◌, ◌-◌, ◌*◌, ◌%◌, ◌^◌, Bool, true, false, ◌&&◌, ◌||◌, Option, none, some, List,
  [], ◌∷◌, ltb, leb, ◌==◌, if◌then◌else◌, update, length,
}
use los_tac_os.Base.Int.{ℤ, pos, negsuc, int32, int64}
use los_tac_os.Fd.{
  FdType, fd_none, fd_file, fd_pipe, fd_tty, FdEntry, File, Inode, Sys, Drivers, Outcome, done,
  waits, fault, Slot, entry_at, set_entry, get_fd_entry, open_entry, fail, is_free, is_pipe,
}
use los_tac_os.Fd.Pipes.{write_pipe, read_pipe}

abbrev is_tty : FdType → Bool
is_tty fd_tty = true
is_tty _ = false

-- memcpy of a list of bytes to the address `a`.
pub store_bytes : (ℕ → ℕ) → ℕ → List ℕ → ℕ → ℕ
store_bytes m a [] = m
store_bytes m a (b ∷ bs) = store_bytes (update m a b) (a + 1) bs

-- `n` bytes from the address `a` on.
pub load_bytes : (ℕ → ℕ) → ℕ → ℕ → List ℕ
load_bytes m a zero = []
load_bytes m a (suc n) = m a ∷ load_bytes m (a + 1) n

-- memcpy of the first `n` bytes of `src` over `dst`.
pub copy_front : ℕ → (ℕ → ℕ) → (ℕ → ℕ) → ℕ → ℕ
copy_front n src dst i = if ltb i n then src i else dst i

abbrev empty_file : File
empty_file = record { size = 0; offset = 0; content = none; reader = none }

module _ {W : Type 0} (d : Drivers W) where
  abbrev set_inode : ℕ → Inode → Sys W → Sys W
  set_inode n x s = record s { inodes = update s.inodes n x }

  -- A result of the drivers, as the result of the call.
  abbrev returned : {A : Type 0} → A × W → Sys W → Outcome W A
  returned (a, w) s = done a (record s { world = w })

  -- vfs::ensure_file_storage for a node that is no directory; `none` where the heap is exhausted.
  -- The File takes 40 bytes.
  pub ensure_file : Inode → W → Option (File × W)
  ensure_file x w = elim x.file [
    | some f ↦ some (f, w)
    | none ↦ elim (d.kmalloc 40 w) [ none ↦ none | some (_, w') ↦ some (empty_file, w') ]
  ]

  -- The content that holds `new_offset` bytes: the old block, or a larger one with the old bytes.
  pub grow_file : File → (new_offset : ℕ) → W → Option (File × W)
  unfolding copy_front
  grow_file f new_offset w =
      if ltb f.size new_offset
      then elim (d.kmalloc (new_offset + 1) w) [
        | none ↦ none
        | some (fresh, w') ↦ elim f.content [
          | none ↦ some (record f { content = some fresh; size = new_offset }, w')
          | some old ↦ some (
            record f { content = some (copy_front f.size old fresh); size = new_offset },
            d.kfree old w',
          )
        ]
      ]
      else some (f, w)

  -- The last part of the file branch of sys_write: the bytes, the closing 0 and the new offset.
  pub put_file : Slot → FdEntry → ℕ → Inode → File → List ℕ → Sys W → Outcome W ℕ
  unfolding store_bytes
  put_file slot e n x f bs s = elim f.content [
    | none ↦ fault
    | some m ↦ done (length bs) (
        set_entry slot (record e { offset = (e.offset + length bs) % 2 ^ 64 })
          (set_inode n
            (record x {
              file =
                  some (record f { content = some (update (store_bytes m e.offset bs) f.size 0) });
            })
            s))
  ]

  pub write_file : Slot → FdEntry → ℕ → List ℕ → Sys W → Outcome W ℕ
  write_file slot e n bs s =
      let x = s.inodes n in
      elim (ensure_file x s.world) [
        | none ↦ done fail s
        | some (f, w) ↦ elim (grow_file f ((e.offset + length bs) % 2 ^ 64) w) [
          | none ↦ done fail (set_inode n (record x { file = some f }) (record s { world = w }))
          | some (f', w') ↦ put_file slot e n x f' bs (record s { world = w' })
        ]
      ]

  -- The branches of sys_write on a node.
  pub write_node : Slot → FdEntry → ℕ → List ℕ → Sys W → Outcome W ℕ
  write_node slot e n bs s =
      let plain = if (s.inodes n).directory then done fail s else write_file slot e n bs s in
      elim (s.inodes n).dev [
        | none ↦ plain
        | some v ↦ elim (d.dev_write v) [
          | none ↦ plain
          | some write ↦
              let (k, w) = write bs e.offset s.world in
              let e' = if ltb 0 k then record e { offset = (e.offset + k) % 2 ^ 64 } else e in
              done k (set_entry slot e' (record s { world = w }))
        ]
      ]

  abbrev write_by_node : Slot → FdEntry → List ℕ → Sys W → Outcome W ℕ
  write_by_node slot e bs s = elim e.node [ none ↦ done fail s | some n ↦ write_node slot e n bs s ]

  -- The branches of sys_write on an open entry that is neither terminal nor pipe.
  pub write_entry : Slot → List ℕ → Sys W → Outcome W ℕ
  write_entry slot bs s =
      let e = entry_at slot s in
      elim e.node [
        | some n ↦ write_node slot e n bs s
        | none ↦ elim e.mount [
          | none ↦ done fail s
          | some m ↦ elim e.fs_handle [
            | none ↦ done fail s
            | some h ↦ elim (d.fs_write m) [
              | none ↦ done fail s
              | some write ↦ returned (write h bs s.world) s
            ]
          ]
        ]
      ]

  -- The tests of sys_write on an entry that get_fd_entry found.
  pub write_slot : Slot → (std : Bool) → List ℕ → Sys W → Outcome W ℕ
  write_slot slot std bs s =
      let e = entry_at slot s in
      if std && (is_free e.kind || is_tty e.kind)
      then returned (d.tty_write bs s.world) s
      else if is_free e.kind
      then done fail s
      else if is_tty e.kind
      then returned (d.tty_write bs s.world) s
      else if is_pipe e.kind
      then write_pipe e bs s
      else write_entry slot bs s

  -- The buffer is `none` for the null pointer.
  pub sys_write : ℕ → Option (List ℕ) → Sys W → Outcome W ℕ
  sys_write a none s = done 0 s
  sys_write a (some []) s = done 0 s
  sys_write a (some (b ∷ bs)) s =
      let std = (a % 2 ^ 32 == 1) || (a % 2 ^ 32 == 2) in
      elim (get_fd_entry (int32 a) s) [
        | none ↦ if std then returned (d.tty_write (b ∷ bs) s.world) s else done fail s
        | some slot ↦ write_slot slot std (b ∷ bs) s
      ]

  -- The copy of a file's bytes from the entry's offset.
  pub read_file : Slot → FdEntry → ℕ → File → ℕ → Sys W → Outcome W (ℕ × List ℕ)
  unfolding load_bytes
  read_file slot e n f len s = elim f.content [
    | none ↦ done (0, []) s
    | some m ↦
        let remaining = f.size - e.offset in
        let k = if ltb len remaining then len else remaining in
        if f.size == 0
        then done (0, []) s
        else if leb f.size e.offset
        then done (0, []) s
        else done (k, load_bytes m e.offset k)
            (set_entry slot (record e { offset = e.offset + k }) s)
  ]

  -- The branches of sys_read on a node that is no device with a read callback.
  pub read_plain : Slot → FdEntry → ℕ → ℕ → Sys W → Outcome W (ℕ × List ℕ)
  read_plain slot e n len s =
      if (s.inodes n).directory then done (fail, []) s else elim (s.inodes n).file [
        | none ↦ done (0, []) s
        | some f ↦ elim f.reader [
          | none ↦ read_file slot e n f len s
          | some r ↦
              let ((k, bs, f'), w) = d.file_read r (record f { offset = e.offset }) len s.world in
              done (k, bs)
                (set_entry slot (record e { offset = f'.offset })
                  (set_inode n (record (s.inodes n) { file = some f' }) (record s { world = w })))
        ]
      ]

  pub read_node : Slot → FdEntry → ℕ → ℕ → Sys W → Outcome W (ℕ × List ℕ)
  read_node slot e n len s = elim (s.inodes n).dev [
    | none ↦ read_plain slot e n len s
    | some v ↦ elim (d.dev_read v) [
      | none ↦ read_plain slot e n len s
      | some read ↦
          let ((k, bs), w) = read len e.offset s.world in
          let e' = if ltb 0 k then record e { offset = (e.offset + k) % 2 ^ 64 } else e in
          done (k, bs) (set_entry slot e' (record s { world = w }))
    ]
  ]

  -- After the file system's branch: a pipe, or a node.
  pub read_local : Slot → ℕ → Sys W → Outcome W (ℕ × List ℕ)
  read_local slot len s =
      let e = entry_at slot s in
      if is_pipe e.kind
      then read_pipe e len s
      else elim e.node [ none ↦ done (fail, []) s | some n ↦ read_node slot e n len s ]

  pub read_entry : Slot → ℕ → Sys W → Outcome W (ℕ × List ℕ)
  read_entry slot len s =
      let e = entry_at slot s in
      elim e.node [
        | some n ↦ read_local slot len s
        | none ↦ elim e.mount [
          | none ↦ read_local slot len s
          | some m ↦ elim e.fs_handle [
            | none ↦ read_local slot len s
            | some h ↦ elim (d.fs_read m) [
              | none ↦ read_local slot len s
              | some read ↦ returned (read h len s.world) s
            ]
          ]
        ]
      ]

  -- Descriptor 0 is the terminal, whatever the table holds.
  pub sys_read : ℕ → ℕ → Sys W → Outcome W (ℕ × List ℕ)
  sys_read a len s =
      if a % 2 ^ 32 == 0
      then returned (d.tty_read len s.world) s
      else elim (open_entry (int32 a) s) [
        | none ↦ done (fail, []) s
        | some slot ↦ read_entry slot len s
      ]

  pub file_size : FdEntry → Sys W → ℕ
  file_size e s = elim e.node [
    | none ↦ 0
    | some n ↦ elim (s.inodes n).file [ none ↦ 0 | some f ↦ f.size ]
  ]

  -- `base + offset` as an int64_t, and its effect.
  pub seek_to : Slot → (base : ℕ) → (offset : ℕ) → Sys W → ℕ × Sys W
  seek_to slot base offset s =
      let new_offset = (base + offset) % 2 ^ 64 in
      if leb (2 ^ 63) new_offset
      then (fail, s)
      else (new_offset, set_entry slot (record (entry_at slot s) { offset = new_offset }) s)

  pub seek_local : Slot → (offset whence : ℕ) → Sys W → ℕ × Sys W
  unfolding seek_to file_size
  seek_local slot offset whence s =
      let e = entry_at slot s in
      if whence == 0
      then seek_to slot 0 offset s
      else if whence == 1
      then seek_to slot e.offset offset s
      else if whence == 2
      then seek_to slot (file_size e s) offset s
      else (fail, s)

  -- The file system's own lseek: a result that is not negative is the entry's offset.
  pub seek_fs : Slot → ℕ × W → Sys W → ℕ × Sys W
  seek_fs slot (ret, w) s =
      let s' = record s { world = w } in
      if leb (2 ^ 63) ret
      then (ret, s')
      else (ret, set_entry slot (record (entry_at slot s) { offset = ret }) s')

  pub seek_entry : Slot → (offset whence : ℕ) → Sys W → ℕ × Sys W
  seek_entry slot offset whence s =
      let e = entry_at slot s in
      elim e.node [
        | some n ↦ seek_local slot offset whence s
        | none ↦ elim e.mount [
          | none ↦ seek_local slot offset whence s
          | some m ↦ elim e.fs_handle [
            | none ↦ seek_local slot offset whence s
            | some h ↦ elim (d.fs_lseek m) [
              | none ↦ seek_local slot offset whence s
              | some lseek ↦ seek_fs slot (lseek h offset (int32 whence) s.world) s
            ]
          ]
        ]
      ]

  -- `b` is the 64-bit pattern of the signed offset.
  pub sys_lseek : (a b c : ℕ) → Sys W → ℕ × Sys W
  sys_lseek a b c s = elim (open_entry (int32 a) s) [
    | none ↦ (fail, s)
    | some slot ↦
        if is_pipe (entry_at slot s).kind
        then (fail, s)
        else seek_entry slot (b % 2 ^ 64) (c % 2 ^ 32) s
  ]

  pub sys_fsize : ℕ → Sys W → ℕ
  sys_fsize a s = elim (open_entry (int32 a) s) [
    | none ↦ fail
    | some slot ↦ if is_pipe (entry_at slot s).kind then 0 else file_size (entry_at slot s) s
  ]
