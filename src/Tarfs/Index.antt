-- ===== src/Tarfs/Index.antt =====
-- build_index of src/fs/tarfs.cpp against the members of the archive.
use los_tac_os.Base.{
  ℕ, zero, suc, ◌+◌, ◌*◌, ◌%◌, ◌^◌, ◌≤◌, ◌<◌, ◌≡◌, ◌≢◌, refl, ap, ◌∙◌, sym, true, false, ltb, List,
  [], ◌∷◌, ◌++◌, length, length-append, take, take-nil, lt→ltb, arith,
}
use los_tac_os.Base.Run.{done}
use los_tac_os.Tarfs.{TarEntry, max_tar_files, size_at, step_of, add_entry, index_loop, build_index}
use los_tac_os.Tarfs.Headers.{IsMember, empty_block-true, empty_block-false, IsMember-entry_at}
use mathlib.Core.List.{append_assoc, append-nil}

-- The members from the header at an address on, up to the end of the archive or a block of zeros:
-- the next header stands behind the least number of blocks of 512 bytes that hold the contents.
pub data Members (m : ℕ → ℕ) (end_ : ℕ) : ℕ → List TarEntry → Type 0 where
  past : (ptr : ℕ) → end_ ≤ ptr → Members m end_ ptr []
  last : (ptr : ℕ) → ptr < end_ → ((i : ℕ) → i < 512 → m (ptr + i) ≡ 0) → Members m end_ ptr []
  member :
      (ptr i count : ℕ) (e : TarEntry) (es : List TarEntry)
      → ptr < end_
      → i < 512
      → m (ptr + i) ≢ 0
      → IsMember m ptr e
      → e.size ≤ 512 * count
      → 512 * count < e.size + 512
      → ptr + 512 + 512 * count < 2 ^ 64
      → Members m end_ (ptr + 512 + 512 * count) es
      → Members m end_ ptr (e ∷ es)

next_header :
    (ptr size count : ℕ)
    → size ≤ 512 * count
    → 512 * count < size + 512
    → ptr + 512 + 512 * count < 2 ^ 64
    → (ptr + step_of size) % 2 ^ 64 ≡ ptr + 512 + 512 * count
next_header ptr size count lo hi small = omega arith

-- The index after entries are added.
abbrev filled : List TarEntry → List TarEntry → List TarEntry
filled acc [] = acc
filled acc (e ∷ es) = filled (add_entry e acc) es

index_loop-filled :
    (fuel ptr end_ : ℕ) (m : ℕ → ℕ) (acc es : List TarEntry)
    → Members m end_ ptr es
    → length es < fuel
    → index_loop fuel ptr end_ m acc ≡ done (filled acc es)
unfolding index_loop
index_loop-filled zero ptr end_ m acc es h few = absurd (omega arith)
index_loop-filled (suc fuel) _ end_ m acc _ (past ptr behind) few =
    let over : ltb ptr end_ ≡ false = ground arith in rw over refl
index_loop-filled (suc fuel) _ end_ m acc _ (last ptr inside zeros) few =
    rw (lt→ltb _ _ inside, empty_block-true ptr m zeros) refl
index_loop-filled (suc fuel) _ end_ m acc _ (member ptr i count e es inside l ne is lo hi low h)
      few =
    let next : (ptr + step_of (size_at ptr m)) % 2 ^ 64 ≡ ptr + 512 + 512 * count =
      ap (λ n. (ptr + step_of n) % 2 ^ 64) (sym is.size) ∙ next_header ptr e.size count lo hi low in
    rw (lt→ltb _ _ inside, empty_block-false ptr i m l ne, next, IsMember-entry_at ptr m e is)
      (index_loop-filled fuel _ end_ m (add_entry e acc) es h (omega arith))

full : (acc es : List TarEntry) → max_tar_files ≤ length acc → filled acc es ≡ acc
full acc [] h = refl
full acc (e ∷ es) h =
    let no_room : ltb (length acc) max_tar_files ≡ false = ground arith in
    rw no_room (full acc es h)

filled-take :
    (room : ℕ) (acc es : List TarEntry)
    → room + length acc ≡ max_tar_files
    → filled acc es ≡ acc ++ take room es
filled-take room acc [] h = rw (take-nil {A = TarEntry} room) (sym (append-nil acc))
filled-take zero acc (e ∷ es) h = full acc (e ∷ es) (omega arith) ∙ sym (append-nil acc)
filled-take (suc room) acc (e ∷ es) h =
    let fits : ltb (length acc) max_tar_files ≡ true = ground arith in
    rw fits (
      filled-take room (acc ++ e ∷ []) es (omega (arith, length-append acc (e ∷ [])))
      ∙ append_assoc acc (e ∷ []) (take room es))

-- The index holds the first 512 members of the archive in order, whatever follows them; a fuel
-- above the number of members is enough.
pub build_index-take :
    (fuel tar_start tar_size : ℕ) (m : ℕ → ℕ) (es : List TarEntry)
    → Members m ((tar_start + tar_size) % 2 ^ 64) tar_start es
    → length es < fuel
    → build_index fuel tar_start tar_size m ≡ done (take max_tar_files es)
unfolding build_index
build_index-take fuel tar_start tar_size m es h few =
    index_loop-filled fuel tar_start _ m [] es h few ∙ ap done (filled-take 512 [] es refl)
