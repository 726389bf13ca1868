-- ===== src/Elf.antt =====
-- The loader of src/exec/elf.cpp. `file` is the content of the file by its offset, `memory` the bytes
-- of the pages by their physical address; the page tables lie elsewhere.
pub mod Segments
mod Tests
use los_tac_os.Base.{
  ℕ, zero, suc, ◌+◌, ◌-◌, ◌*◌, ◌/◌, ◌%◌, ◌^◌, Bool, true, false, ◌&&◌, ◌||◌, not, Option, none,
  some, ltb, leb, ◌==◌, if◌then◌else◌,
}
use los_tac_os.Base.Run.{Run, done, out, ◌>>=◌}
use los_tac_os.Paging.{Tables, page_of, get_page, map_page}

-- The little-endian number of `n` bytes at an offset.
unfoldable pub word : (n at : ℕ) → (ℕ → ℕ) → ℕ
word zero at file = 0
word (suc n) at file = file at + 256 * word n (at + 1) file

-- The fields of Elf64_Ehdr and Elf64_Phdr that load reads, by their offsets.
abbrev pub e_entry : (ℕ → ℕ) → ℕ
e_entry = word 8 24

abbrev pub e_phoff : (ℕ → ℕ) → ℕ
e_phoff = word 8 32

abbrev pub e_phnum : (ℕ → ℕ) → ℕ
e_phnum = word 2 56

pub record Phdr : Type 0 where
  pub p_type : ℕ
  pub p_offset : ℕ
  pub p_vaddr : ℕ
  pub p_filesz : ℕ
  pub p_memsz : ℕ

pub phdr_at : ℕ → (ℕ → ℕ) → Phdr
phdr_at p file = record {
  p_type = word 4 p file;
  p_offset = word 8 (p + 8) file;
  p_vaddr = word 8 (p + 16) file;
  p_filesz = word 8 (p + 32) file;
  p_memsz = word 8 (p + 40) file;
}

abbrev pub is_elf : (ℕ → ℕ) → Bool
is_elf file = (file 0 == 0x7F) && ((file 1 == b'E') && ((file 2 == b'L') && (file 3 == b'F')))

pub record Image : Type 0 where
  pub tables : Tables
  pub memory : ℕ → ℕ

-- `len` bytes of a source at `dst`.
abbrev pub copy_in : (dst len : ℕ) → (ℕ → ℕ) → (ℕ → ℕ) → ℕ → ℕ
copy_in dst len src m a = if leb dst a && ltb a (dst + len) then src (a - dst) else m a

-- What a page at `addr` gets of the file: the overlap with the bytes that the segment has there.
unfoldable pub copy_page : Phdr → (addr page : ℕ) → (ℕ → ℕ) → (ℕ → ℕ) → ℕ → ℕ
copy_page ph addr page file m =
    let file_end = (ph.p_vaddr + ph.p_filesz) % 2 ^ 64 in
    let page_end = (addr + 0x1000) % 2 ^ 64 in
    let copy_start = if ltb addr ph.p_vaddr then ph.p_vaddr else addr in
    let copy_end = if ltb file_end page_end then file_end else page_end in
    let file_off = (ph.p_offset + (copy_start - ph.p_vaddr)) % 2 ^ 64 in
    if ltb copy_start copy_end
    then copy_in (page + (copy_start - addr)) (copy_end - copy_start) (λ i. file (file_off + i)) m
    else m

-- A page of a segment; the result of map_page is not looked at. `false` is "OOM".
pub load_page : (pml4 : ℕ) → Phdr → (addr : ℕ) → (ℕ → ℕ) → Image → Bool × Image
unfolding copy_page
load_page pml4 ph addr file im =
    let (o, t) = get_page im.tables in
    elim o [
      | none ↦ (false, record im { tables = t })
      | some p ↦ (
        true,
        record {
          tables = (map_page pml4 addr p 7 t).1;
          memory = copy_page ph addr p file (copy_in p 0x1000 (λ _. 0) im.memory);
        },
      )
    ]

-- The loop over the pages of a segment, up to `seg_end`.
pub load_pages : (fuel pml4 : ℕ) → Phdr → (addr seg_end : ℕ) → (ℕ → ℕ) → Image → Run (Bool × Image)
load_pages zero pml4 ph addr seg_end file im = out
load_pages (suc fuel) pml4 ph addr seg_end file im =
    let r = load_page pml4 ph addr file im in
    let rest = load_pages fuel pml4 ph ((addr + 0x1000) % 2 ^ 64) seg_end file r.1 in
    if ltb addr seg_end then (if r.0 then rest else done r) else done (true, im)

abbrev pub seg_end_of : Phdr → ℕ
seg_end_of ph = page_of ((ph.p_vaddr + ph.p_memsz + 0xFFF) % 2 ^ 64)

-- The loop over the program headers from the i-th on.
pub load_segments : (fuel left i pml4 : ℕ) → (ℕ → ℕ) → Image → Run (Bool × Image)
load_segments fuel zero i pml4 file im = done (true, im)
load_segments fuel (suc left) i pml4 file im =
    let ph = phdr_at (e_phoff file + i * 56) file in
    let next : Image → Run (Bool × Image) = load_segments fuel left (i + 1) pml4 file in
    let loaded : Bool × Image → Run (Bool × Image) = λ r. if r.0 then next r.1 else done r in
    if ph.p_type == 1
    then load_pages fuel pml4 ph (page_of ph.p_vaddr) (seg_end_of ph) file im >>= loaded
    else next im

-- load behind the search for the file: `content` is what get_content gives, `pml4` the table of the
-- address space. The result is the entry point, 0 for a failure; the fuel is for the pages of one
-- segment.
pub load : (fuel : ℕ) → (pml4 : Option ℕ) → (content : Option (ℕ → ℕ)) → Image → Run (ℕ × Image)
load fuel none content im = done (0, im)
load fuel (some pml4) none im = done (0, im)
load fuel (some pml4) (some file) im =
    let finish : Bool × Image → Run (ℕ × Image) =
      λ r. done (if r.0 then e_entry file else 0, r.1) in
    if is_elf file
    then load_segments fuel (e_phnum file) 0 pml4 file im >>= finish
    else done (0, im)
