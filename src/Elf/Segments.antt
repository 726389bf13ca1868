-- ===== src/Elf/Segments.antt =====
-- The pages of a segment in src/exec/elf.cpp: the bytes that each gets, and the end of the loop.
use los_tac_os.Base.{
  ℕ, ◌+◌, ◌-◌, ◌%◌, ◌^◌, ◌≤◌, ◌<◌, ◌≡◌, refl, ap, ◌∙◌, Bool, true, false, ◌&&◌, ltb, leb,
  if◌then◌else◌, inl, inr, Bool-cases, ltb→lt, ltb→ge, arith,
}
use los_tac_os.Elf.{Phdr, copy_in, copy_page}

-- The byte of a segment at a virtual address: that of the file, or 0 where the file has none.
abbrev pub segment_byte : Phdr → (ℕ → ℕ) → ℕ → ℕ
segment_byte ph file va =
    if leb ph.p_vaddr va && ltb va (ph.p_vaddr + ph.p_filesz)
    then file (ph.p_offset + (va - ph.p_vaddr))
    else 0

-- Copying from `start` to `end_`, both within the page at `addr`, into a page of zeros.
module _ (ph : Phdr) (addr page start end_ : ℕ) (file m : ℕ → ℕ) (i : ℕ) (in_page : addr ≤ start)
    (in_segment : ph.p_vaddr ≤ start) (up_to : end_ ≤ addr + 0x1000)
    (up_to_file : end_ ≤ ph.p_vaddr + ph.p_filesz)
    (short : ph.p_offset + ph.p_filesz < 2 ^ 64) where
  abbrev zeroed : ℕ → ℕ
  zeroed = copy_in page 0x1000 (λ _. 0) m

  abbrev copied : ℕ → ℕ
  copied =
      let file_off = (ph.p_offset + (start - ph.p_vaddr)) % 2 ^ 64 in
      if ltb start end_
      then copy_in (page + (start - addr)) (end_ - start) (λ j. file (file_off + j)) zeroed
      else zeroed

  abbrev in_range : Bool
  in_range = leb (page + (start - addr)) i && ltb i (page + (start - addr) + (end_ - start))

  copied_no : (ltb start end_ ≡ true → in_range ≡ false) → copied i ≡ zeroed i
  copied_no none_here = elim (Bool-cases (ltb start end_)) [
    | inl some_bytes ↦ rw (some_bytes, none_here some_bytes) refl
    | inr none_there ↦ rw none_there refl
  ]

  copied_outside : (leb page i && ltb i (page + 0x1000)) ≡ false → copied i ≡ m i
  copied_outside beside =
      copied_no (λ some_bytes. ground (arith, ltb→lt _ _ some_bytes)) ∙ (rw beside refl)

  copied_zero :
      (leb page i && ltb i (page + 0x1000)) ≡ true
      → (leb start (addr + (i - page)) && ltb (addr + (i - page)) end_) ≡ false
      → copied i ≡ 0
  copied_zero inside apart =
      copied_no (λ some_bytes. ground (arith, ltb→lt _ _ some_bytes)) ∙ (rw inside refl)

  copied_byte :
      (leb page i && ltb i (page + 0x1000)) ≡ true
      → start ≤ addr + (i - page)
      → addr + (i - page) < end_
      → copied i ≡ file (ph.p_offset + (addr + (i - page) - ph.p_vaddr))
  copied_byte inside lo hi =
      let some_bytes : ltb start end_ ≡ true = ground arith in
      let here : in_range ≡ true = ground arith in rw (some_bytes, here) (ap file (ground arith))

  -- Where the copied range is the overlap, the page gets the bytes of the segment.
  copied_overlap :
      ((va : ℕ)
        → addr ≤ va
        → va < addr + 0x1000
        → ph.p_vaddr ≤ va
        → va < ph.p_vaddr + ph.p_filesz
        → (start ≤ va) × (va < end_))
      → copied i ≡ (
          if leb page i && ltb i (page + 0x1000)
          then segment_byte ph file (addr + (i - page))
          else m i)
  copied_overlap all = elim (Bool-cases (leb page i && ltb i (page + 0x1000))) [
    | inr beside ↦ rw beside (copied_outside beside)
    | inl inside ↦
        let va = addr + (i - page) in
        let low : va < addr + 0x1000 = ground arith in
        rw inside (elim (Bool-cases (leb ph.p_vaddr va && ltb va (ph.p_vaddr + ph.p_filesz))) [
          | inl given ↦
              let (lo, hi) = all va (omega arith) low (ground arith) (ground arith) in
              rw given (copied_byte inside lo hi)
          | inr absent ↦ rw absent (copied_zero inside (ground arith))
        ])
  ]

-- A page that holds zeros is filled with exactly the bytes that the segment has at its addresses,
-- and no other page is written, for a segment that ends below 2^64 in memory and in the file.
pub copy_page-segment_byte :
    (ph : Phdr) (addr page : ℕ) (file m : ℕ → ℕ) (i : ℕ)
    → ph.p_vaddr + ph.p_filesz < 2 ^ 64
    → ph.p_offset + ph.p_filesz < 2 ^ 64
    → addr + 0x1000 < 2 ^ 64
    → copy_page ph addr page file (copy_in page 0x1000 (λ _. 0) m) i ≡ (
        if leb page i && ltb i (page + 0x1000)
        then segment_byte ph file (addr + (i - page))
        else m i)
unfolding copy_page
copy_page-segment_byte ph addr page file m i small_end small_file small_page =
    let file_end : (ph.p_vaddr + ph.p_filesz) % 2 ^ 64 ≡ ph.p_vaddr + ph.p_filesz = omega arith in
    let page_end : (addr + 0x1000) % 2 ^ 64 ≡ addr + 0x1000 = omega arith in
    rw (file_end, page_end)
      (elim (Bool-cases (ltb addr ph.p_vaddr)) [
        | inl later ↦ rw later (elim (Bool-cases (ltb (ph.p_vaddr + ph.p_filesz) (addr + 0x1000))) [
          | inl inner ↦ rw inner (
              copied_overlap ph addr page ph.p_vaddr (ph.p_vaddr + ph.p_filesz) file m i
                (omega (arith, ltb→lt _ _ later)) (omega arith) (omega (arith, ltb→lt _ _ inner))
                (omega arith) small_file (λ va a b c d. (c, d)))
          | inr outer ↦ rw outer (
              copied_overlap ph addr page ph.p_vaddr (addr + 0x1000) file m i
                (omega (arith, ltb→lt _ _ later)) (omega arith) (omega arith)
                (omega (arith, ltb→ge _ _ outer)) small_file (λ va a b c d. (c, b)))
        ])
        | inr sooner ↦
            rw sooner (elim (Bool-cases (ltb (ph.p_vaddr + ph.p_filesz) (addr + 0x1000))) [
              | inl inner ↦ rw inner (
                  copied_overlap ph addr page addr (ph.p_vaddr + ph.p_filesz) file m i (omega arith)
                    (omega (arith, ltb→ge _ _ sooner)) (omega (arith, ltb→lt _ _ inner))
                    (omega arith) small_file (λ va a b c d. (a, d)))
              | inr outer ↦ rw outer (
                  copied_overlap ph addr page addr (addr + 0x1000) file m i (omega arith)
                    (omega (arith, ltb→ge _ _ sooner)) (omega arith)
                    (omega (arith, ltb→ge _ _ outer)) small_file (λ va a b c d. (a, b)))
            ])
      ])
