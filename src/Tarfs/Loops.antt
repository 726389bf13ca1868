-- ===== src/Tarfs/Loops.antt =====
-- When the loop of build_index in src/fs/tarfs.cpp ends, and a header at which it does not.
use los_tac_os.Base.{
  ℕ, zero, suc, ◌+◌, ◌-◌, ◌*◌, ◌/◌, ◌%◌, ◌^◌, ◌≤◌, ◌<◌, ◌≡◌, ◌≢◌, refl, sym, false, ltb, List, [],
  ◌∷◌, length, take, length-take, inl, inr, Bool-cases, ltb→lt, ltb→ge, lt→ltb, arith,
}
use los_tac_os.Base.Run.{done, out}
use mathlib.Core.Path.{subst}
use los_tac_os.Tarfs.{
  TarEntry, max_tar_files, empty_block, octal_loop, octal_to_int, size_at, step_of, entry_at,
  add_entry, index_loop, build_index,
}
use los_tac_os.Tarfs.Headers.{IsMember, empty_block-zeros, empty_block-used, entry_at-IsMember}
use los_tac_os.Tarfs.Index.{Members, past, last, member, build_index-take}

-- The places where the headers of an archive stand: its start, and behind the contents of a header
-- that is not a block of zeros, which fill the least number of blocks of 512 bytes that holds them.
pub data IsHeader (m : ℕ → ℕ) (start end_ : ℕ) : ℕ → Type 0 where
  first_header : IsHeader m start end_ start
  header_behind :
      (ptr i count : ℕ)
      → IsHeader m start end_ ptr
      → ptr < end_
      → i < 512
      → m (ptr + i) ≢ 0
      → octal_to_int (ptr + 124) 12 m ≤ 512 * count
      → 512 * count < octal_to_int (ptr + 124) 12 m + 512
      → IsHeader m start end_ (ptr + 512 + 512 * count)

-- The size in every header of the archive is below 2^62.
abbrev pub HasSizes : (ℕ → ℕ) → (start end_ : ℕ) → Type 0
HasSizes m start end_ =
    (p : ℕ) → IsHeader m start end_ p → p < end_ → octal_to_int (p + 124) 12 m < 2 ^ 62

members_of :
    (fuel start ptr end_ : ℕ) (m : ℕ → ℕ)
    → HasSizes m start end_
    → end_ < 2 ^ 63
    → IsHeader m start end_ ptr
    → end_ < ptr + 512 * fuel
    → (es : List TarEntry) × Members m end_ ptr es × (length es < fuel + 1)
members_of zero start ptr end_ m sizes low at near = ([], past ptr (omega arith), omega arith)
members_of (suc fuel) start ptr end_ m sizes low at near = elim (Bool-cases (ltb ptr end_)) [
  | inr over ↦ ([], past ptr (ltb→ge _ _ over), omega arith)
  | inl inside ↦
      let here = ltb→lt _ _ inside in
      elim (Bool-cases (empty_block ptr m)) [
        | inl zeros ↦ ([], last ptr here (empty_block-zeros ptr m zeros), omega arith)
        | inr used ↦
            let (i, l, ne) = empty_block-used ptr m used in
            let size = octal_to_int (ptr + 124) 12 m in
            let small : size < 2 ^ 62 = sizes ptr at here in
            let count = (size + 511) / 512 in
            let is : IsMember m ptr (entry_at ptr m) = entry_at-IsMember ptr m in
            let (es, h, few) =
              members_of fuel start (ptr + 512 + 512 * count) end_ m sizes low
                (header_behind ptr i count at here l ne (omega arith) (omega arith))
                (omega arith) in
            (
              entry_at ptr m ∷ es,
              member ptr i count (entry_at ptr m) es here l ne is (omega (arith, is.size))
                  (omega (arith, is.size)) (omega (arith, small, here, low)) h,
              omega (arith, few),
            )
      ]
]

-- The members of an archive with such sizes: one unit of fuel for each block of 512 bytes, and two
-- more, are enough for them.
pub archive_members :
    (fuel tar_start tar_size : ℕ) (m : ℕ → ℕ)
    → HasSizes m tar_start (tar_start + tar_size)
    → tar_start + tar_size < 2 ^ 63
    → tar_size / 512 + 2 ≤ fuel
    → (es : List TarEntry) × Members m (tar_start + tar_size) tar_start es × (length es < fuel)
archive_members fuel tar_start tar_size m sizes low enough =
    let (es, h, few) =
      members_of (tar_size / 512 + 1) tar_start tar_start (tar_start + tar_size) m sizes low
        first_header (omega arith) in
    (es, h, omega (arith, few))

-- If the size in every header of the archive is below 2^62, and the archive ends below 2^63,
-- build_index ends within one header for each 512 bytes, and one more, and leaves at most 512
-- entries.
pub build_index_ends :
    (tar_start tar_size : ℕ) (m : ℕ → ℕ)
    → HasSizes m tar_start (tar_start + tar_size)
    → tar_start + tar_size < 2 ^ 63
    → (es : List TarEntry) × (build_index (tar_size / 512 + 2) tar_start tar_size m ≡ done es)
      × (length es ≤ max_tar_files)
build_index_ends tar_start tar_size m sizes low =
    let flat : (tar_start + tar_size) % 2 ^ 64 ≡ tar_start + tar_size = omega arith in
    let (es, h, few) =
      archive_members (tar_size / 512 + 2) tar_start tar_size m sizes low (omega arith) in
    (
      take max_tar_files es,
      build_index-take (tar_size / 512 + 2) tar_start tar_size m es
          (subst (λ e. Members m e tar_start es) (sym flat) h) few,
      omega (arith, length-take max_tar_files es),
    )

-- A header whose size field is "/000": the character before '0' counts as -1.
pub record IsStuck (hdr : ℕ) (m : ℕ → ℕ) : Type 0 where
  pub slash : m (hdr + 124) ≡ b'/'
  pub zero_one : m (hdr + 124 + 1) ≡ b'0'
  pub zero_two : m (hdr + 124 + 1 + 1) ≡ b'0'
  pub zero_three : m (hdr + 124 + 1 + 1 + 1) ≡ b'0'
  pub stop : m (hdr + 124 + 1 + 1 + 1 + 1) ≡ 0
  pub used : empty_block hdr m ≡ false

size_at_stuck : (hdr : ℕ) (m : ℕ → ℕ) → IsStuck hdr m → size_at hdr m ≡ 2 ^ 64 - 512
unfolding octal_to_int octal_loop
size_at_stuck hdr m h = rw (h.slash, h.zero_one, h.zero_two, h.zero_three, h.stop) refl

index_loop_stuck :
    (fuel hdr end_ : ℕ) (m : ℕ → ℕ) (es : List TarEntry)
    → IsStuck hdr m
    → hdr < end_
    → hdr < 2 ^ 64
    → index_loop fuel hdr end_ m es ≡ out
unfolding index_loop
index_loop_stuck zero hdr end_ m es h inside small = refl
index_loop_stuck (suc fuel) hdr end_ m es h inside small =
    let back : (hdr + step_of (size_at hdr m)) % 2 ^ 64 ≡ hdr =
      omega (arith, size_at_stuck hdr m h) in
    rw (lt→ltb _ _ inside, h.used, back)
      (index_loop_stuck fuel hdr end_ m (add_entry (entry_at hdr m) es) h inside small)

-- The index of an archive whose first header has the size field "/000" is never complete: that
-- header's step is 0, and no fuel is enough.
pub build_index_stuck :
    (fuel tar_start tar_size : ℕ) (m : ℕ → ℕ)
    → IsStuck tar_start m
    → 0 < tar_size
    → tar_start + tar_size < 2 ^ 64
    → build_index fuel tar_start tar_size m ≡ out
unfolding build_index
build_index_stuck fuel tar_start tar_size m h some_bytes low =
    index_loop_stuck fuel tar_start ((tar_start + tar_size) % 2 ^ 64) m [] h (omega arith)
      (omega arith)
