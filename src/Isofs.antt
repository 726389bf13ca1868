-- ===== src/Isofs.antt =====
-- The ISO 9660 file system of src/fs/isofs.cpp. `disk` is atapi::read of a port and a block, `none`
-- for an error; the blocks on the heap hold their old bytes, `old`, until they are read.
pub mod Read
mod Tests
use los_tac_os.Base.{
  ℕ, zero, suc, ◌+◌, ◌-◌, ◌*◌, ◌/◌, ◌%◌, ◌^◌, min, Bool, true, false, ◌&&◌, ◌||◌, not, Option, none,
  some, List, [], ◌∷◌, ◌++◌, length, take, ltb, leb, ◌==◌, if◌then◌else◌,
}
use los_tac_os.Base.Int.{ℤ, pos, negsuc, int32}
use los_tac_os.Base.Run.{Run, done, fault, out, ◌>>=◌}
use los_tac_os.Elf.{word, copy_in}
use los_tac_os.Vfs.{equal_names}

pub record IsoVolume : Type 0 where
  pub port : ℕ
  pub block_size : ℕ
  pub root_extent : ℕ
  pub root_size : ℕ

pub record IsoHandle : Type 0 where
  pub vol : IsoVolume
  pub extent : ℕ
  pub size : ℕ
  pub offset : ℕ
  pub is_dir : Bool

abbrev pub Disk : Type 0
Disk = ℕ → ℕ → Option (ℕ → ℕ)

-- The loop of isofs_read. A block size of 0 is a fault, and so is one that leads past the block of
-- 2048 bytes on the stack.
pub read_loop :
    (fuel : ℕ)
    → Disk
    → (to_read read_bytes : ℕ) → (ℕ → ℕ)
    → IsoHandle
    → Run (ℕ × (ℕ → ℕ) × IsoHandle)
read_loop zero disk to_read read_bytes buf h = out
read_loop (suc fuel) disk to_read read_bytes buf h =
    let size = h.vol.block_size in
    let lba = (h.extent + h.offset / size) % 2 ^ 32 in
    let block_off = h.offset % size in
    let chunk = min (size - block_off) (to_read - read_bytes) in
    let again : (ℕ → ℕ) → Run (ℕ × (ℕ → ℕ) × IsoHandle) = λ block.
      read_loop fuel disk to_read (read_bytes + chunk)
        (copy_in read_bytes chunk (λ i. block (block_off + i)) buf)
        (record h { offset = h.offset + chunk }) in
    let step : Run (ℕ × (ℕ → ℕ) × IsoHandle) = elim (disk h.vol.port lba) [
      | none ↦ done (read_bytes, buf, h)
      | some block ↦ if ltb 2048 (block_off + chunk) then fault else again block
    ] in
    if ltb read_bytes to_read
    then (if size == 0 then fault else step)
    else done (read_bytes, buf, h)

-- The result is `(int)read_bytes`.
pub isofs_read : Disk → (buf : ℕ → ℕ) → (size : ℕ) → IsoHandle → Run (ℤ × (ℕ → ℕ) × IsoHandle)
isofs_read disk buf size h =
    let to_read = min size (h.size - h.offset) in
    let result : ℕ × (ℕ → ℕ) × IsoHandle → Run (ℤ × (ℕ → ℕ) × IsoHandle) =
      λ r. done (int32 r.0, r.1, r.2) in
    if h.is_dir
    then done (negsuc 0, buf, h)
    else if leb h.size h.offset
    then done (pos 0, buf, h)
    else read_loop (to_read + 1) disk to_read 0 buf h >>= result

-- The loop that reads a directory of `size` bytes, `remaining` of them still to come.
pub read_dir : (fuel : ℕ) → Disk → (port lba size remaining : ℕ) → (ℕ → ℕ) → ℕ → ℕ
read_dir zero disk port lba size remaining dir = dir
read_dir (suc fuel) disk port lba size remaining dir =
    let again : (ℕ → ℕ) → ℕ → ℕ = λ block.
      read_dir fuel disk port ((lba + 1) % 2 ^ 32) size (remaining - min remaining 2048)
        (copy_in (size - remaining) 2048 block dir) in
    let step : ℕ → ℕ = elim (disk port lba) [ none ↦ dir | some block ↦ again block ] in
    if ltb 0 remaining then step else dir

-- `n` characters at `p`, up to a ';', with capitals made small.
pub name_at : (n p : ℕ) → (ℕ → ℕ) → List ℕ
name_at zero p dir = []
name_at (suc n) p dir =
    let c = dir p in
    let rest = name_at n (p + 1) dir in
    if c == b';' then [] else (if leb b'A' c && leb c b'Z' then c + 32 else c) ∷ rest

-- The name of the record at `p`. The search for a version behind a dot finds none, since the name
-- has no ';' there.
pub record_name : (p : ℕ) → (ℕ → ℕ) → List ℕ
record_name p dir =
    let n = dir (p + 32) in
    let c = dir (p + 33) in
    if leb 2 n && (c == 0)
    then b'.' ∷ []
    else if leb 2 n && (c == 1)
    then b'.' ∷ b'.' ∷ []
    else name_at n (p + 33) dir

-- The record of a name, from `p` on.
pub find_record : (fuel p size : ℕ) → (component : List ℕ) → (ℕ → ℕ) → Option ℕ
find_record zero p size component dir = none
find_record (suc fuel) p size component dir =
    let len = dir p in
    let after_zero = find_record fuel (p + 1) size component dir in
    let after_record = find_record fuel (p + len) size component dir in
    if leb size p
    then none
    else if len == 0
    then after_zero
    else if ltb size (p + len)
    then none
    else if equal_names (record_name p dir) component
    then some p
    else after_record

abbrev pub extent_of : ℕ → (ℕ → ℕ) → ℕ
extent_of p dir = word 4 (p + 2) dir

abbrev pub length_of : ℕ → (ℕ → ℕ) → ℕ
length_of p dir = word 4 (p + 10) dir

-- ISO_FLAG_DIRECTORY is the flag 2.
abbrev pub is_directory : ℕ → (ℕ → ℕ) → Bool
is_directory p dir = dir (p + 25) / 2 % 2 == 1

-- The components of a path, of at most 255 characters; `c` is the one that is being read.
pub components : (path c : List ℕ) → List (List ℕ)
components [] [] = []
components [] (x ∷ c) = (x ∷ c) ∷ []
components (ch ∷ path) c =
    let ended = components path [] in
    let longer = components path (take 255 (c ++ ch ∷ [])) in
    if ch == b'/' then (if length c == 0 then ended else c ∷ ended) else longer

module _ {W : Type 0} (disk : Disk) (old : ℕ → ℕ → ℕ) (kmalloc : ℕ → W → ℕ × W)
    (kfree : ℕ → W → W) where
  -- h = kmalloc(sizeof(IsoHandle)).
  pub new_handle : IsoVolume → (extent size : ℕ) → Bool → W → Option IsoHandle × W
  new_handle vol extent size is_dir w =
      let (p, w) = kmalloc 40 w in
      (
        if p == 0
            then none
            else some
                record { vol = vol; extent = extent; size = size; offset = 0; is_dir = is_dir },
        w,
      )

  -- The loop of isofs_open over the components. The last record is read after its block was freed,
  -- when it still has its bytes.
  pub open_components : List (List ℕ) → IsoVolume → (extent size : ℕ) → W → Option IsoHandle × W
  open_components [] vol extent size w = (none, w)
  open_components (c ∷ cs) vol extent size w =
      let (p, w) = kmalloc ((size + 2048) % 2 ^ 32) w in
      let dir = read_dir size disk vol.port extent size size (old p) in
      let w' = kfree p w in
      let deeper : ℕ → Option IsoHandle × W =
        λ r. open_components cs vol (extent_of r dir) (length_of r dir) w' in
      let last : ℕ → Option IsoHandle × W =
        λ r. new_handle vol (extent_of r dir) (length_of r dir) (is_directory r dir) w' in
      if p == 0 then (none, w) else elim (find_record (size + 1) 0 size c dir) [
        | none ↦ (none, w')
        | some r ↦ if length cs == 0 then last r else deeper r
      ]

  pub isofs_open : IsoVolume → List ℕ → W → Option IsoHandle × W
  isofs_open vol path w =
      let cs = components path [] in
      if length cs == 0
      then new_handle vol vol.root_extent vol.root_size true w
      else elim (disk vol.port vol.root_extent) [
        | none ↦ (none, w)
        | some _ ↦ open_components cs vol vol.root_extent vol.root_size w
      ]

  -- The volume of a disc whose block 16 starts with the type 1 and "CD001".
  pub mount : (port : ℕ) → W → Option IsoVolume × W
  mount port w =
      let volume : (ℕ → ℕ) → Option IsoVolume × W = λ b.
        let (p, w) = kmalloc 16 w in
        (
          if p == 0
              then none
              else some record {
                port = port;
                block_size = word 2 128 b;
                root_extent = word 4 (156 + 2) b;
                root_size = word 4 (156 + 10) b;
              },
          w,
        ) in
      let is_pvd : (ℕ → ℕ) → Bool = λ b.
        (b 0 == 1)
        && ((b 1 == b'C')
            && ((b 2 == b'D') && ((b 3 == b'0') && ((b 4 == b'0') && (b 5 == b'1'))))) in
      elim (disk port 16) [ none ↦ (none, w) | some b ↦ if is_pvd b then volume b else (none, w) ]
