-- ===== src/Tarfs/Mount.antt =====
-- mount_vfs and mount of src/fs/tarfs.cpp: an archive becomes files, directories and links in the
-- tree of nodes, and a compressed archive is unpacked first.
pub mod Unpacked
use los_tac_os.Base.{
  ℕ, zero, suc, ◌+◌, ◌-◌, ◌*◌, ◌/◌, ◌%◌, ◌^◌, Bool, true, false, ◌&&◌, ◌||◌, not, ◌==◌, ltb, leb,
  if◌then◌else◌, Option, none, some, List, [], ◌∷◌, ◌++◌, length,
}
use los_tac_os.Base.Run.{Run, done, fault, out, ◌>>=◌}
use los_tac_os.Fd.{File}
use los_tac_os.Vfs.{Vfs, Allocator, set_node}
use los_tac_os.Vfs.Content.{file_size}
use los_tac_os.Vfs.Paths.{create_symlink_path, create_dir_path, create_file_path}
use los_tac_os.Gzip.{is_gzip}
use los_tac_os.Gzip.Blocks.{Inflated, decompress}
use los_tac_os.Tarfs.{
  TarEntry, text_at, empty_block, size_at, step_of, size_field, typeflag_field, linkname_field,
  prefix_field, normalize, build_index,
}

-- A last slash is cut off.
abbrev pub cut_slash : List ℕ → List ℕ
cut_slash [] = []
cut_slash (c ∷ []) = if c == b'/' then [] else c ∷ []
cut_slash (c ∷ (d ∷ cs)) = c ∷ cut_slash (d ∷ cs)

-- The path of a header: the prefix and the name, or the name alone.
pub path_at : ℕ → (ℕ → ℕ) → List ℕ
path_at hdr m =
    let name = text_at 100 hdr m in
    cut_slash (
      normalize (
        if m (hdr + prefix_field) == 0
        then name
        else text_at 155 (hdr + prefix_field) m ++ b'/' ∷ name))

module _ {W : Type 0} (a : Allocator W) (walk : ℕ) (old_offset : ℕ → ℕ) where
  -- The file of a node; the block is not tested for null, and its offset keeps what the memory held.
  pub attach : (ptr size : ℕ) → (ℕ → ℕ) → (n : ℕ) → Vfs W → Run (Vfs W)
  attach ptr size m n s =
      let (p, w) = a.kmalloc file_size s.world in
      let f : File = record {
        size = size;
        offset = old_offset p;
        content = some (λ i. m (ptr + 512 + i));
        reader = none;
      } in
      let v = record (s.nodes n) { file = some f } in
      if p == 0 then fault else done (set_node n v (record s { world = w }))

  -- What the loop does with the header at `ptr`.
  pub add_member : (ptr : ℕ) → (ℕ → ℕ) → Vfs W → Run (Vfs W)
  add_member ptr m s =
      let flag = m (ptr + typeflag_field) in
      let path = path_at ptr m in
      let state : Option ℕ × Vfs W → Run (Vfs W) = λ r. done r.1 in
      let file : Option ℕ × Vfs W → Run (Vfs W) =
        λ r. elim r.0 [ none ↦ done r.1 | some n ↦ attach ptr (size_at ptr m) m n r.1 ] in
      if flag == b'2'
      then create_symlink_path a walk path (text_at 100 (ptr + linkname_field) m) s >>= state
      else if length path == 0
      then done s
      else if flag == b'5'
      then create_dir_path a walk path s >>= state
      else if (flag == b'0') || (flag == 0)
      then create_file_path a walk path s >>= file
      else done s

  pub mount_loop : (fuel ptr end_ : ℕ) → (ℕ → ℕ) → Vfs W → Run (Vfs W)
  mount_loop zero ptr end_ m s = out
  mount_loop (suc fuel) ptr end_ m s =
      let again : Vfs W → Run (Vfs W) =
        mount_loop fuel ((ptr + step_of (size_at ptr m)) % 2 ^ 64) end_ m in
      let rest = add_member ptr m s >>= again in
      if ltb ptr end_ then (if empty_block ptr m then done s else rest) else done s

  pub mount_vfs : (fuel tar_start tar_size : ℕ) → (ℕ → ℕ) → Vfs W → Run (Vfs W)
  mount_vfs fuel tar_start tar_size m s =
      if tar_start == 0
      then done s
      else mount_loop fuel tar_start ((tar_start + tar_size) % 2 ^ 64) m s

-- The buffer for an unpacked archive.
abbrev pub unpacked_size : ℕ
unpacked_size = 4 * 1024 * 1024

-- The state of the module behind mount.
pub record Archive (W : Type 0) : Type 0 where
  pub tar_start : ℕ
  pub tar_size : ℕ
  pub entries : List TarEntry
  pub memory : ℕ → ℕ
  pub world : W

-- The memory with the bytes of the buffer at `p`.
abbrev pub with_buffer : (p : ℕ) → (ℕ → ℕ) → (ℕ → ℕ) → ℕ → ℕ
with_buffer p bytes m i = if leb p i && ltb i (p + unpacked_size) then bytes (i - p) else m i

module _ {W : Type 0} (a : Allocator W) where
  pub set_archive : (fuel start size : ℕ) → (ℕ → ℕ) → W → Run (Archive W)
  set_archive fuel start size m w =
      let made : List TarEntry → Run (Archive W) = λ es.
        done record { tar_start = start; tar_size = size; entries = es; memory = m; world = w } in
      build_index fuel start size m >>= made

  -- An archive that cannot be unpacked is indexed as it is.
  pub mount : (fuel address size : ℕ) → (ℕ → ℕ) → W → Run (Archive W)
  mount fuel address size m w =
      let (p, w') = a.kmalloc unpacked_size w in
      let unpacked : Inflated → Run (Archive W) = λ r.
        let m' = with_buffer p r.output m in
        let n : ℕ = elim r.written [ none ↦ 0 | some n ↦ n ] in
        if r.ok then set_archive fuel p n m' w' else set_archive fuel address size m' w' in
      let bytes : ℕ → ℕ = λ i. m (address + i) in
      let inflate : Run (Archive W) =
        decompress fuel bytes size (λ i. m (p + i)) (some unpacked_size) >>= unpacked in
      if not (address == 0) && is_gzip bytes size
      then (if p == 0 then set_archive fuel address size m w' else inflate)
      else set_archive fuel address size m w
