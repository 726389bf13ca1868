-- ===== src/Isofs/Read.antt =====
-- isofs_read of src/fs/isofs.cpp against the bytes of the file on the disc.
use los_tac_os.Base.{
  ℕ, zero, suc, ◌+◌, ◌-◌, ◌/◌, ◌%◌, ◌^◌, ◌≤◌, ◌<◌, min, ◌≡◌, refl, ap, ◌∙◌, true, false, ◌&&◌, some,
  ltb, leb, if◌then◌else◌, inl, inr, Bool-cases, ltb→lt, ltb→ge, arith,
}
use los_tac_os.Base.Int.{int32}
use los_tac_os.Base.Run.{Run, done}
use los_tac_os.Elf.{copy_in}
use los_tac_os.Isofs.{IsoHandle, Disk, read_loop, isofs_read}

-- The byte at a place of a file whose blocks are given.
abbrev pub content : (ℕ → ℕ → ℕ) → ℕ → ℕ
content blocks k = blocks (k / 2048) (k % 2048)

-- The buffer gets the bytes of the file from `offset` on, at the places from `from` up to `upto`.
abbrev pub with_bytes : (ℕ → ℕ → ℕ) → (from upto offset : ℕ) → (ℕ → ℕ) → ℕ → ℕ
with_bytes blocks from upto offset buf i =
    if leb from i && ltb i upto then content blocks (offset + (i - from)) else buf i

module _ (disk : Disk) (blocks : ℕ → ℕ → ℕ) (port root_extent root_size extent size : ℕ)
    (there : (j : ℕ) → j ≤ size / 2048 → disk port (extent + j) ≡ some (blocks j))
    (small : extent + size < 2 ^ 32) where
  -- The handle of the file at an offset.
  abbrev pub handle : ℕ → IsoHandle
  handle offset = record {
    vol = record {
      port = port;
      block_size = 2048;
      root_extent = root_extent;
      root_size = root_size;
    };
    extent = extent;
    size = size;
    offset = offset;
    is_dir = false;
  }

  record Filled (from upto offset : ℕ) (buf : ℕ → ℕ) (m : Run (ℕ × (ℕ → ℕ) × IsoHandle))
      : Type 0 where
    bytes : ℕ → ℕ
    ran : m ≡ done (upto, bytes, handle (offset + (upto - from)))
    right : (i : ℕ) → bytes i ≡ with_bytes blocks from upto offset buf i

  chunk_right :
      (from upto offset n : ℕ) (buf : ℕ → ℕ) (i : ℕ)
      → n ≤ upto - from
      → offset % 2048 + n ≤ 2048
      → with_bytes blocks
          (from + n)
          upto
          (offset + n)
          (copy_in from n (λ j. blocks (offset / 2048) (offset % 2048 + j)) buf)
          i
        ≡ with_bytes blocks from upto offset buf i
  chunk_right from upto offset n buf i within inside = elim (Bool-cases (leb (from + n) i)) [
    | inl later ↦
        let from_too : leb from i ≡ true = ground arith in
        let same : offset + n + (i - (from + n)) ≡ offset + (i - from) = ground arith in
        rw (later, from_too, same)
          (elim (Bool-cases (ltb i upto)) [ inl e ↦ rw e refl | inr e ↦ rw e (ground arith) ])
    | inr sooner ↦ rw sooner (elim (Bool-cases (leb from i)) [
      | inr before ↦ rw before refl
      | inl inner ↦
          let chunk : ltb i (from + n) ≡ true = ground arith in
          let wanted : ltb i upto ≡ true = ground arith in
          let block : (offset + (i - from)) / 2048 ≡ offset / 2048 = ground arith in
          let place : (offset + (i - from)) % 2048 ≡ offset % 2048 + (i - from) = ground arith in
          rw (inner, chunk, wanted, block, place) refl
    ])
  ]

  read_loop-Filled :
      (fuel from upto offset : ℕ) (buf : ℕ → ℕ)
      → from ≤ upto
      → upto < fuel + from
      → offset + (upto - from) ≤ size
      → Filled from upto offset buf (read_loop fuel disk upto from buf (handle offset))
  unfolding read_loop
  read_loop-Filled zero from upto offset buf le few fits = absurd (omega arith)
  read_loop-Filled (suc fuel) from upto offset buf le few fits = elim (Bool-cases (ltb from upto)) [
    | inr over ↦
        let at : from ≡ upto = omega (arith, ltb→ge _ _ over) in
        rw over record {
          bytes = buf;
          ran =
              ap (λ f. done (f, buf, handle offset)) at
              ∙ ap (λ o. done (upto, buf, handle o)) (omega (arith, at));
          right = λ i. ground (arith, at);
        }
    | inl more ↦
        let n = min (2048 - offset % 2048) (upto - from) in
        let here = ltb→lt _ _ more in
        let flat : (extent + offset / 2048) % 2 ^ 32 ≡ extent + offset / 2048 =
          omega (arith, here) in
        let got : disk port (extent + offset / 2048) ≡ some (blocks (offset / 2048)) =
          there (offset / 2048) (omega (arith, here)) in
        let inner : ltb 2048 (offset % 2048 + n) ≡ false = ground arith in
        let buf' = copy_in from n (λ j. blocks (offset / 2048) (offset % 2048 + j)) buf in
        let f =
          read_loop-Filled fuel (from + n) upto (offset + n) buf' (omega (arith, here))
            (omega (arith, here)) (omega (arith, here)) in
        rw (more, flat, got, inner)
          record {
            bytes = f.bytes;
            ran = f.ran ∙ ap (λ o. done (upto, f.bytes, handle o)) (omega (arith, here));
            right =
                λ i. f.right i ∙ chunk_right from upto offset n buf i (omega arith) (omega arith);
          }
  ]

  -- isofs_read of a file whose blocks can be read, with blocks of 2048 bytes, from an offset within
  -- the file: it returns how many bytes there were up to the wanted number, moves the offset by
  -- that, and stores exactly those bytes of the file; the rest of the buffer is unchanged.
  pub isofs_read-with_bytes :
      (buf : ℕ → ℕ) (wanted offset : ℕ)
      → offset < size
      → (bytes : ℕ → ℕ) × (isofs_read disk buf wanted (handle offset)
          ≡ done (
            int32 (min wanted (size - offset)),
            bytes,
            handle (offset + min wanted (size - offset)),
          ))
        × ((i : ℕ) → bytes i ≡ with_bytes blocks 0 (min wanted (size - offset)) offset buf i)
  unfolding isofs_read
  isofs_read-with_bytes buf wanted offset inside =
      let n = min wanted (size - offset) in
      let f = read_loop-Filled (n + 1) 0 n offset buf (omega arith) (omega arith) (omega arith) in
      let open_ : leb size offset ≡ false = ground arith in
      let moved : offset + (n - 0) ≡ offset + n = omega arith in
      rw (open_, f.ran) (f.bytes, ap (λ o. done (int32 n, f.bytes, handle o)) moved, f.right)
