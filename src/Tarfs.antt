-- ===== src/Tarfs.antt =====
-- The archive in memory of src/fs/tarfs.cpp: its headers, the index of its files, find and read. `m`
-- is the memory of bytes; a loop over the archive takes fuel, one unit for each header.
pub mod Octal
pub mod Headers
pub mod Index
pub mod Loops
pub mod Mount
mod Tests
use los_tac_os.Base.{
  ℕ, zero, suc, ◌+◌, ◌-◌, ◌*◌, ◌/◌, ◌%◌, ◌^◌, Bool, true, false, ◌&&◌, ◌||◌, not, ◌==◌, ltb, leb,
  if◌then◌else◌, Option, none, some, List, [], ◌∷◌, ◌++◌, length,
}
use los_tac_os.Base.Run.{Run, done, out, ◌>>=◌}
use los_tac_os.Strings.{memcpy}
use los_tac_os.Vfs.{equal_names}

-- The offsets of the fields of TarHeader.
abbrev pub size_field : ℕ
size_field = 124

abbrev pub typeflag_field : ℕ
typeflag_field = 156

abbrev pub linkname_field : ℕ
linkname_field = 157

abbrev pub prefix_field : ℕ
prefix_field = 345

-- The string at an address, up to a byte 0, of at most `n` characters.
unfoldable pub text_at : (n p : ℕ) → (ℕ → ℕ) → List ℕ
text_at zero p m = []
text_at (suc n) p m = let rest = text_at n (p + 1) m in if m p == 0 then [] else m p ∷ rest

-- A file of the index; `name` is the string in the array of 256 characters.
pub record TarEntry : Type 0 where
  pub name : List ℕ
  pub contents : ℕ
  pub size : ℕ
  pub directory : Bool

abbrev pub max_tar_files : ℕ
max_tar_files = 512

-- `n` bytes from `p` on are 0.
unfoldable pub zeros_from : (n p : ℕ) → (ℕ → ℕ) → Bool
zeros_from zero p m = true
zeros_from (suc n) p m = let rest = zeros_from n (p + 1) m in if m p == 0 then rest else false

unfoldable pub empty_block : ℕ → (ℕ → ℕ) → Bool
unfolding zeros_from
empty_block hdr m = zeros_from 512 hdr m

-- `c - '0'` for a signed char, as a size_t.
abbrev pub digit_of : ℕ → ℕ
digit_of c = if ltb c 128 then (c + (2 ^ 64 - 48)) % 2 ^ 64 else (c + (2 ^ 64 - 304)) % 2 ^ 64

-- The loop of octal_to_int with `len` characters to go.
unfoldable pub octal_loop : (len str value : ℕ) → (ℕ → ℕ) → ℕ
octal_loop zero str value m = value
octal_loop (suc len) str value m =
    let rest = octal_loop len (str + 1) ((value * 8 % 2 ^ 64 + digit_of (m str)) % 2 ^ 64) m in
    if (m str == 0) || (m str == b' ') then value else rest

unfoldable pub octal_to_int : (str len : ℕ) → (ℕ → ℕ) → ℕ
unfolding octal_loop
octal_to_int str len m = octal_loop len str 0 m

-- `hdr->size` as a number, and the distance to the next header.
abbrev pub size_at : ℕ → (ℕ → ℕ) → ℕ
size_at hdr m = octal_to_int (hdr + size_field) 12 m

abbrev pub step_of : ℕ → ℕ
step_of size = (512 + (size + 511) % 2 ^ 64 / 512 * 512) % 2 ^ 64

-- strncpy copies up to 255 characters, past the name of the header if it has no byte 0.
unfoldable pub entry_at : ℕ → (ℕ → ℕ) → TarEntry
unfolding text_at octal_to_int
entry_at hdr m = record {
  name = text_at 255 hdr m;
  contents = hdr + 512;
  size = size_at hdr m;
  directory = m (hdr + typeflag_field) == b'5';
}

-- `entries[entry_count++] = e`, if there is room.
abbrev pub add_entry : TarEntry → List TarEntry → List TarEntry
add_entry e es = if ltb (length es) max_tar_files then es ++ e ∷ [] else es

-- The loop of build_index from the header at `ptr` on, over an archive that ends at `end_`.
pub index_loop : (fuel ptr end_ : ℕ) → (ℕ → ℕ) → List TarEntry → Run (List TarEntry)
index_loop zero ptr end_ m es = out
index_loop (suc fuel) ptr end_ m es =
    let rest =
      index_loop fuel ((ptr + step_of (size_at ptr m)) % 2 ^ 64) end_ m
        (add_entry (entry_at ptr m) es) in
    if ltb ptr end_ then (if empty_block ptr m then done es else rest) else done es

pub build_index : (fuel tar_start tar_size : ℕ) → (ℕ → ℕ) → Run (List TarEntry)
build_index fuel tar_start tar_size m =
    index_loop fuel tar_start ((tar_start + tar_size) % 2 ^ 64) m []

-- The File that find fills; its name holds as many characters as that of an entry.
unfoldable pub find : List TarEntry → List ℕ → Option TarEntry
find [] name = none
find (e ∷ es) name = let rest = find es name in if equal_names e.name name then some e else rest

abbrev pub normalize : List ℕ → List ℕ
normalize [] = []
normalize (c ∷ []) = c ∷ []
normalize (c ∷ (d ∷ cs)) = if (c == b'.') && (d == b'/') then cs else c ∷ (d ∷ cs)

-- A null file or buffer is `none`.
pub read : Option TarEntry → Option ℕ → (size : ℕ) → (ℕ → ℕ) → ℕ → ℕ
read none buffer size m = m
read (some f) none size m = m
read (some f) (some buffer) size m =
    memcpy buffer f.contents (if ltb f.size size then f.size else size) m

pub filesize : Option TarEntry → ℕ
filesize none = 0
filesize (some f) = f.size
