-- ===== src/Vfs/Content.antt =====
-- Files in memory in src/fs/vfs.cpp: write_content, append_content and remove. Names, files and
-- their bytes are values; `Blocks` gives the addresses that remove hands to kfree for them, and the
-- kfree of a content that is replaced is left out.
use los_tac_os.Base.{
  ℕ, zero, suc, ◌+◌, ◌-◌, Bool, true, false, ◌&&◌, Option, none, some, List, [], ◌∷◌, length, ltb,
  ◌==◌, if◌then◌else◌,
}
use los_tac_os.Base.Run.{Run, done, out, ◌>>=◌, deref}
use los_tac_os.Fd.{File}
use los_tac_os.Vfs.{Node, Vfs, Allocator, FileSystems, set_node, create_here}
use los_tac_os.Vfs.Paths.{is_node}
use los_tac_os.Vfs.Find.{find}

-- sizeof(File)
abbrev pub file_size : ℕ
file_size = 40

-- What memset leaves of a file.
abbrev pub empty_file : File
empty_file = record { size = 0; offset = 0; content = none; reader = none }

-- The byte at an index of a buffer, 0 behind its bytes.
unfoldable pub byte_at : List ℕ → ℕ → ℕ
byte_at [] i = 0
byte_at (b ∷ bs) zero = b
byte_at (b ∷ bs) (suc i) = byte_at bs i

-- The first `n` bytes of a buffer, and those of `bs` behind them.
unfoldable pub joined : (n : ℕ) → (ℕ → ℕ) → List ℕ → ℕ → ℕ
unfolding byte_at
joined n old bs i = if ltb i n then old i else byte_at bs (i - n)

abbrev pub bytes_of : File → ℕ → ℕ
bytes_of f = elim f.content [ none ↦ λ _. 0 | some m ↦ m ]

module _ {W : Type 0} (a : Allocator W) where
  -- ensure_file_storage, with the file that is there afterwards.
  unfoldable pub ensure_storage : (n : ℕ) → Vfs W → Option File × Vfs W
  ensure_storage n s = if (s.nodes n).directory then (none, s) else (elim (s.nodes n).file [
    | some f ↦ (some f, s)
    | none ↦
        let (p, w) = a.kmalloc file_size s.world in
        let s = record s { world = w } in
        if p == 0
        then (none, s)
        else (some empty_file, set_node n (record (s.nodes n) { file = some empty_file }) s)
  ])

  -- A new buffer becomes the content of the node's file.
  unfoldable pub install : (n size : ℕ) → (ℕ → ℕ) → File → Vfs W → Bool × Vfs W
  install n size m f s =
      let (p, w) = a.kmalloc (size + 1) s.world in
      let s = record s { world = w } in
      if p == 0 then (false, s) else (
        true,
        set_node n (record (s.nodes n) { file = some (record f { size = size; content = some m }) })
            s,
      )

  -- write_content on the node that it found or made.
  unfoldable pub overwrite : (n : ℕ) → List ℕ → Vfs W → Bool × Vfs W
  unfolding ensure_storage install byte_at
  overwrite n bs s =
      if (s.nodes n).directory
      then (false, s)
      else (let (o, s) = ensure_storage n s in
          elim o [ none ↦ (false, s) | some f ↦ install n (length bs) (byte_at bs) f s ])

  -- append_content on the node that it found; the size does not wrap.
  unfoldable pub extend : (n : ℕ) → List ℕ → Vfs W → Bool × Vfs W
  unfolding ensure_storage install joined
  extend n bs s =
      if (s.nodes n).directory
      then (false, s)
      else (let (o, s) = ensure_storage n s in
          elim o [
            | none ↦ (false, s)
            | some f ↦ install n (f.size + length bs) (joined f.size (bytes_of f) bs) f s
          ])

  module _ (f : FileSystems W) (behind : List ℕ → List ℕ) (walk : ℕ) where
    -- A file that is missing is created in the current directory, with the whole path as its name.
    pub write_content : ℕ → (path bs : List ℕ) → Vfs W → Run (Bool × Vfs W)
    unfolding overwrite
    write_content fuel path bs s = do
      r ← find f behind walk fuel path s
      r ← elim r.0 [ some n ↦ done (n, r.1) | none ↦ create_here a path false r.1 ]
      done (overwrite r.0 bs r.1)

    pub append_content : ℕ → (path bs : List ℕ) → Vfs W → Run (Bool × Vfs W)
    unfolding extend
    append_content fuel path bs s = do
      r ← find f behind walk fuel path s
      elim r.0 [ none ↦ write_content fuel path bs r.1 | some n ↦ done (extend n bs r.1) ]

-- The addresses of what belongs to a node: its name, its File and the content of that.
pub record Blocks : Type 0 where
  pub name_block : ℕ → ℕ
  pub file_block : ℕ → ℕ
  pub content_block : ℕ → ℕ

-- The loop of remove to the node before `n`.
unfoldable pub find_prev : ℕ → (n : ℕ) → Option ℕ → (ℕ → Node) → Run (Option ℕ)
find_prev zero n p m = out
find_prev (suc walk) n none m = done none
find_prev (suc walk) n (some p) m =
    let rest = find_prev walk n (m p).next m in if is_node n (m p).next then done (some p) else rest

module _ {W : Type 0} where
  -- The node leaves the children of its parent.
  unfoldable pub unlink_node : ℕ → (n parent : ℕ) → Vfs W → Run (Vfs W)
  unfolding find_prev
  unlink_node walk n parent s =
      let up = s.nodes parent in
      if is_node n up.children
      then done (set_node parent (record up { children = (s.nodes n).next }) s)
      else (find_prev walk n up.children s.nodes >>= λ prev. elim prev [
        | none ↦ done s
        | some p ↦ done (set_node p (record (s.nodes p) { next = (s.nodes n).next }) s)
      ])

  -- What remove gives back of the file of a node that is no directory.
  unfoldable pub free_file : Allocator W → Blocks → (n : ℕ) → Node → W → W
  free_file a b n v w = if v.directory then w else (elim v.file [
    | none ↦ w
    | some f ↦ elim f.content [
      | none ↦ a.kfree (b.file_block n) w
      | some _ ↦ a.kfree (b.file_block n) (a.kfree (b.content_block n) w)
    ]
  ])

  -- remove on the node that it found.
  unfoldable pub remove_node : Allocator W → Blocks → ℕ → (n : ℕ) → Vfs W → Run (Bool × Vfs W)
  unfolding unlink_node free_file
  remove_node a b walk n s =
      let v = s.nodes n in
      let has_children : Bool = elim v.children [ none ↦ false | some _ ↦ true ] in
      if is_node n s.root
      then done (false, s)
      else if v.directory && has_children
      then done (false, s)
      else (do
        parent ← deref v.parent
        s ← unlink_node walk n parent s
        let w = a.kfree (b.name_block n) (free_file a b n v s.world)
        done (true, record s { world = a.kfree n w }))

  module _ (a : Allocator W) (b : Blocks) (f : FileSystems W) (behind : List ℕ → List ℕ)
      (walk : ℕ) where
    pub remove : ℕ → (path : List ℕ) → Vfs W → Run (Bool × Vfs W)
    unfolding remove_node
    remove fuel path s = do
      r ← find f behind walk fuel path s
      elim r.0 [ none ↦ done (false, r.1) | some n ↦ remove_node a b walk n r.1 ]
