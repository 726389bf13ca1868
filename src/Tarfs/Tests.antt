-- ===== src/Tarfs/Tests.antt =====
-- Archives of one header, a size field, and an archive in a gzip member.
use los_tac_os.Base.{
  ℕ, ◌+◌, ◌/◌, ◌≤◌, ◌<◌, ◌≡◌, refl, false, ◌||◌, ◌==◌, ltb, if◌then◌else◌, List, [], ◌∷◌, length,
  take, arith,
}
use los_tac_os.Base.Run.{done, out}
use los_tac_os.Gzip.Blocks.{entry}
use los_tac_os.Gzip.Blocks.Stored.{IsStored}
use los_tac_os.Kprintf.Numbers.{digits-numeral}
use los_tac_os.Vfs.{Allocator}
use los_tac_os.Tarfs.{
  TarEntry, max_tar_files, text_at, empty_block, octal_to_int, octal_loop, build_index,
}
use los_tac_os.Tarfs.Octal.{octal_to_int-digits}
use los_tac_os.Tarfs.Headers.{letter, ended}
use los_tac_os.Tarfs.Index.{Members, past, member, build_index-take}
use los_tac_os.Tarfs.Loops.{
  HasSizes, build_index_ends, IsStuck, build_index_stuck, IsHeader, first_header, header_behind,
}
use los_tac_os.Tarfs.Mount.{unpacked_size, mount}
use los_tac_os.Tarfs.Mount.Unpacked.{mount-set_archive}

-- "0017" and a byte 0.
abbrev size_bytes : ℕ → ℕ
size_bytes = entry (b'0' ∷ b'0' ∷ b'1' ∷ b'7' ∷ 0 ∷ [])

octal_to_int-digits_example : octal_to_int 0 12 size_bytes ≡ 15
octal_to_int-digits_example =
    octal_to_int-digits 2 15 0 12 size_bytes (omega arith)
      (digits-numeral 8 false (omega arith) 15 (omega arith))
      (refl, (refl, (refl, (refl, (refl, tt))))) (omega arith)

-- An empty file "a", whose header stands at 1024.
abbrev one_file : ℕ → ℕ
one_file i = if i == 1024 then b'a' else 0

abbrev one_member : TarEntry
one_member = record { name = b'a' ∷ []; contents = 1536; size = 0; directory = false }

one_file-Members : Members one_file 1536 1024 (one_member ∷ [])
unfolding text_at octal_to_int octal_loop
one_file-Members =
    member 1024 0 0 one_member [] (omega arith) (omega arith) (λ z. cc (z))
      record {
        name = letter 254 1024 b'a' [] refl (λ z. cc (z)) (ended 254 1025 refl);
        size = refl;
        contents = refl;
        is_dir = λ e. cc (e);
        is_file = λ e z. cc (z);
      }
      (omega arith) (omega arith) (omega arith) (past 1536 (omega arith))

build_index-take_example :
    build_index 2 1024 512 one_file ≡ done (take max_tar_files (one_member ∷ []))
build_index-take_example =
    build_index-take 2 1024 512 one_file (one_member ∷ []) one_file-Members (omega arith)

-- The only header of an archive of 512 bytes is its first.
one_header :
    (m : ℕ → ℕ) (start p : ℕ) → IsHeader m start (start + 512) p → p < start + 512 → p ≡ start
one_header m start _ first_header hi = refl
one_header m start _ (header_behind ptr i count h inside l ne lo small) hi =
    absurd (omega (arith, hi, one_header m start ptr h inside))

one_file-HasSizes : HasSizes one_file 1024 (1024 + 512)
unfolding octal_to_int octal_loop
one_file-HasSizes p h hi = rw (one_header one_file 1024 p h hi) (omega arith)

build_index_ends_example :
    (es : List TarEntry) × (build_index (512 / 512 + 2) 1024 512 one_file ≡ done es)
    × (length es ≤ max_tar_files)
build_index_ends_example = build_index_ends 1024 512 one_file one_file-HasSizes (omega arith)

-- A header with the name "a" and the size field "/000".
abbrev bad_size : ℕ → ℕ
bad_size i =
    if i == 1024
    then b'a'
    else if i == 1148
    then b'/'
    else if (i == 1149) || (i == 1150) || (i == 1151)
    then b'0'
    else 0

bad_size-IsStuck : IsStuck 1024 bad_size
unfolding empty_block
bad_size-IsStuck = record {
  slash = refl;
  zero_one = refl;
  zero_two = refl;
  zero_three = refl;
  stop = refl;
  used = refl;
}

build_index_stuck_example : build_index 1000 1024 1024 bad_size ≡ out
build_index_stuck_example =
    build_index_stuck 1000 1024 1024 bad_size bad_size-IsStuck (omega arith) (omega arith)

-- An archive of one empty file "a" in a gzip member at address 1: 512 bytes in a stored block.
abbrev packed : ℕ → ℕ
packed i =
    if i == 16
    then b'a'
    else if ltb i 16
    then entry (0 ∷ 0x1f ∷ 0x8b ∷ 8 ∷ 0 ∷ 0 ∷ 0 ∷ 0 ∷ 0 ∷ 0 ∷ 255 ∷ 1 ∷ 0 ∷ 2 ∷ 255 ∷ 253 ∷ []) i
    else if i == 533
    then 2
    else 0

packed-IsStored : IsStored 512 (λ i. packed (1 + i))
packed-IsStored = record {
  magic = refl;
  magic_too = refl;
  flags = refl;
  last_stored = refl;
  size = refl;
}

packed-HasSizes : HasSizes packed (1 + 15) (1 + 15 + 512)
unfolding octal_to_int octal_loop
packed-HasSizes p h hi = rw (one_header packed 16 p h hi) (omega arith)

abbrev counting : Allocator ℕ
counting = record { kmalloc = λ n w. (8192, w + n); kfree = λ p w. w }

mount-set_archive_example :
    (m' : ℕ → ℕ) × (es : List TarEntry) × Members m' (8192 + 512) 8192 es
    × (mount counting 4 1 (15 + 512 + 8) packed 0
        ≡ done record {
          tar_start = 8192;
          tar_size = 512;
          entries = take max_tar_files es;
          memory = m';
          world = 0 + unpacked_size;
        })
    × ((i : ℕ) → i < 512 → m' (8192 + i) ≡ packed (1 + 15 + i))
mount-set_archive_example =
    mount-set_archive counting 3 1 512 packed 0 (cc) packed-IsStored (omega arith) (omega arith)
      refl packed-HasSizes (cc) (omega arith) (omega arith)
