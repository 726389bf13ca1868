-- ===== src/Pmm/Alloc.antt =====
-- alloc_page and free_page of src/mm/pmm.cpp.
use los_tac_os.Base.{
  ℕ, zero, suc, ◌+◌, ◌-◌, ◌*◌, ◌/◌, ◌≤◌, ◌<◌, ◌≡◌, ◌≢◌, refl, Bool, true, false, arith, ltb, ◌==◌,
  if◌then◌else◌, Bool-cases, inl, inr, Option, none, some, ◌∙◌, ap, sym,
}
use los_tac_os.Pmm.Bitmap.{test_bit-set_bit, test_bit-clear_bit}
use los_tac_os.Pmm.Count.{Inv, claim-Inv, free_page-Inv, count_clear-same}
use los_tac_os.Pmm.{
  Pmm, page_size, max_pages, test_bit, IsBytes, scan, claim, alloc_page, free_page,
}

-- What a scan of `n` pages from `i` on reports.
abbrev Scanned : ℕ → ℕ → (ℕ → ℕ) → Option ℕ → Type 0
Scanned n i m none = (j : ℕ) → i ≤ j → j < i + n → test_bit m j ≡ true
Scanned n i m (some k) =
    (i ≤ k) × (k < i + n) × (test_bit m k ≡ false) × ((j : ℕ) → i ≤ j → j < k → test_bit m j ≡ true)

scan-Scanned : (n i : ℕ) (m : ℕ → ℕ) → Scanned n i m (scan n i m)
unfolding scan
scan-Scanned zero i m = λ j a b. absurd (omega arith)
scan-Scanned (suc n) i m = go (test_bit m i) refl (scan n (i + 1) m) (scan-Scanned n (i + 1) m)
  where
    go :
        (b : Bool)
        → test_bit m i ≡ b
        → (o : Option ℕ) → Scanned n (i + 1) m o
        → Scanned (suc n) i m (if b then o else some i)
    go false e o s = (omega arith, omega arith, e, λ j a b. absurd (omega arith))
    go true e none s = λ j a b. elim (Bool-cases (j == i)) [
      | inl q ↦ ground arith
      | inr q ↦ s j (ground arith) (omega arith)
    ]
    go true e (some k) s = (
      omega arith,
      omega arith,
      s.2,
      λ j a b. elim (Bool-cases (j == i)) [ inl q ↦ ground arith | inr q ↦ s.3 j (ground arith) b ],
    )

-- What alloc_page returns: a free page, the first at or after the cursor or else the first of all,
-- or 0 with nothing changed where every page is in use.
pub data Allocated (p : Pmm) : ℕ × Pmm → Type 0 where
  ahead :
      (i : ℕ)
      → p.last_page ≤ i
      → i < max_pages
      → test_bit p.bitmap i ≡ false
      → ((j : ℕ) → p.last_page ≤ j → j < i → test_bit p.bitmap j ≡ true)
      → Allocated p (claim i p)
  wrapped :
      (i : ℕ)
      → i < p.last_page
      → test_bit p.bitmap i ≡ false
      → ((j : ℕ) → p.last_page ≤ j → j < max_pages → test_bit p.bitmap j ≡ true)
      → ((j : ℕ) → j < i → test_bit p.bitmap j ≡ true)
      → Allocated p (claim i p)
  full : ((j : ℕ) → j < max_pages → test_bit p.bitmap j ≡ true) → Allocated p (0, p)

abbrev choose : Pmm → Option ℕ → Option ℕ → ℕ × Pmm
choose p a b = elim a [ some i ↦ claim i p | none ↦ elim b [ some i ↦ claim i p | none ↦ (0, p) ] ]

choose-Allocated :
    (p : Pmm) (a b : Option ℕ)
    → p.last_page ≤ max_pages
    → Scanned (max_pages - p.last_page) p.last_page p.bitmap a
    → Scanned p.last_page 0 p.bitmap b
    → Allocated p (choose p a b)
choose-Allocated p (some i) b c s t = ahead i s.0 (omega arith) s.2 s.3
choose-Allocated p none (some i) c s t =
    wrapped i (omega arith) t.2 (λ j x y. s j x (omega arith)) (λ j x. t.3 j (omega arith) x)
choose-Allocated p none none c s t = full λ j x. elim (Bool-cases (ltb j p.last_page)) [
  | inl e ↦ t j (omega arith) (ground arith)
  | inr e ↦ s j (ground arith) (omega arith)
]

-- alloc_page marks the first free page at or after the cursor, where there is none the first free
-- page below it, and it returns 0 with nothing changed exactly where the bitmap is full.
pub alloc_page-Allocated : (p : Pmm) → p.last_page ≤ max_pages → Allocated p (alloc_page p)
unfolding alloc_page
alloc_page-Allocated p c =
    choose-Allocated p (scan (max_pages - p.last_page) p.last_page p.bitmap)
      (scan p.last_page 0 p.bitmap) c (scan-Scanned (max_pages - p.last_page) p.last_page p.bitmap)
      (scan-Scanned p.last_page 0 p.bitmap)

Allocated-Inv : (p : Pmm) {r : ℕ × Pmm} → Inv p → Allocated p r → Inv r.1
Allocated-Inv p v (ahead i a b c d) = claim-Inv i p b c v
Allocated-Inv p v (wrapped i a b c d) = claim-Inv i p (omega (arith, v.cursor)) b v
Allocated-Inv p v (full h) = v

-- alloc_page keeps the free-page counter equal to the number of clear bits.
pub alloc_page-Inv : (p : Pmm) → Inv p → Inv (alloc_page p).1
alloc_page-Inv p v = Allocated-Inv p v (alloc_page-Allocated p v.cursor)

claim-bit :
    (p : Pmm) (i j : ℕ)
    → IsBytes p.bitmap
    → test_bit (claim i p).1.bitmap j ≡ (if j == i then true else test_bit p.bitmap j)
unfolding claim
claim-bit p i j b = test_bit-set_bit p.bitmap b i j

-- free_page clears the bit of the page that holds the address, and no other.
pub free_page-bit :
    (p : Pmm) (addr j : ℕ)
    → IsBytes p.bitmap
    → test_bit (free_page addr p).bitmap j
      ≡ (if j == addr / page_size then false else test_bit p.bitmap j)
unfolding free_page
free_page-bit p addr j b = ground (arith, test_bit-clear_bit p.bitmap b (addr / page_size) j)

-- The same pages are free, and as many.
pub record Restored (p q : Pmm) : Type 0 where
  pub bits : (j : ℕ) → test_bit q.bitmap j ≡ test_bit p.bitmap j
  pub count : q.free_pages_count ≡ p.free_pages_count

free_page-claim :
    (p : Pmm) (i : ℕ)
    → Inv p
    → i < max_pages
    → test_bit p.bitmap i ≡ false
    → Restored p (free_page (claim i p).0 (claim i p).1)
unfolding claim
free_page-claim p i v l e =
    let q : Pmm = (claim i p).1 in
    let v' : Inv q = claim-Inv i p l e v in
    let r : Pmm = free_page (i * page_size) q in
    let w : Inv r = free_page-Inv (i * page_size) q (omega arith) v' in
    let bits : (j : ℕ) → test_bit r.bitmap j ≡ test_bit p.bitmap j =
      λ j. ground (arith, free_page-bit q (i * page_size) j v'.bytes, claim-bit p i j v.bytes) in
    record {
      bits = bits;
      count =
          w.counted
          ∙ count_clear-same max_pages (test_bit p.bitmap) (test_bit r.bitmap) (λ j _. bits j)
          ∙ sym v.counted;
    }

Allocated-Restored :
    (p : Pmm) {r : ℕ × Pmm} → Inv p → Allocated p r → r.0 ≢ 0 → Restored p (free_page r.0 r.1)
Allocated-Restored p v (ahead i a b c d) ne = free_page-claim p i v b c
Allocated-Restored p v (wrapped i a b c d) ne = free_page-claim p i v (omega (arith, v.cursor)) b
Allocated-Restored p v (full h) ne = absurd (ne refl)

-- To free what alloc_page has just returned gives back the same set of free pages and the same
-- count, unless alloc_page returned 0.
pub free_page-alloc_page :
    (p : Pmm)
    → Inv p
    → (alloc_page p).0 ≢ 0
    → Restored p (free_page (alloc_page p).0 (alloc_page p).1)
free_page-alloc_page p v ne = Allocated-Restored p v (alloc_page-Allocated p v.cursor) ne

Allocated-cursor :
    (p : Pmm) {r : ℕ × Pmm}
    → p.last_page < max_pages
    → test_bit p.bitmap p.last_page ≡ false
    → Allocated p r
    → r.0 ≡ p.last_page * page_size
unfolding claim
Allocated-cursor p l e (ahead i a b c d) = elim (Bool-cases (ltb p.last_page i)) [
  | inl lt ↦ ground (arith, d p.last_page)
  | inr ge ↦ ground arith
]
Allocated-cursor p l e (wrapped i a b c d) = ground (arith, c p.last_page)
Allocated-cursor p l e (full h) = ground (arith, h p.last_page)

free_page-cursor :
    (p : Pmm) (page : ℕ)
    → page < p.last_page
    → test_bit p.bitmap page ≡ true
    → (free_page (page * page_size) p).last_page ≡ page
unfolding free_page
free_page-cursor p page l e =
    let d : page * page_size / page_size ≡ page = omega arith in ground arith

-- A page freed behind the cursor is the next one that alloc_page returns.
pub alloc_page-free_page :
    (p : Pmm) (page : ℕ)
    → Inv p
    → page < p.last_page
    → test_bit p.bitmap page ≡ true
    → (alloc_page (free_page (page * page_size) p)).0 ≡ page * page_size
alloc_page-free_page p page v l e =
    let q : Pmm = free_page (page * page_size) p in
    let w : Inv q = free_page-Inv (page * page_size) p (omega (arith, v.cursor)) v in
    let at : q.last_page ≡ page = free_page-cursor p page l e in
    Allocated-cursor q (omega (arith, v.cursor))
      (ground (arith, free_page-bit p (page * page_size) q.last_page v.bytes))
      (alloc_page-Allocated q w.cursor)
    ∙ ap (λ k. k * page_size) at

Allocated-page :
    (p : Pmm) {r : ℕ × Pmm}
    → p.last_page ≤ max_pages
    → Allocated p r
    → (i : ℕ) × (i < max_pages) × (r.0 ≡ i * page_size)
unfolding claim
Allocated-page p l (ahead i a b c d) = (i, b, refl)
Allocated-page p l (wrapped i a b c d) = (i, omega (arith, l), refl)
Allocated-page p l (full h) = (0, omega arith, refl)

-- The result of alloc_page is the address of a page.
pub alloc_page_page :
    (p : Pmm)
    → p.last_page ≤ max_pages
    → (i : ℕ) × (i < max_pages) × ((alloc_page p).0 ≡ i * page_size)
alloc_page_page p l = Allocated-page p l (alloc_page-Allocated p l)

-- The page that alloc_page took was free, and its bit is the only one that changed.
pub record Taken (p : Pmm) (r : ℕ × Pmm) : Type 0 where
  pub was_free : test_bit p.bitmap (r.0 / page_size) ≡ false
  pub bits :
      (j : ℕ) → test_bit r.1.bitmap j ≡ (if j == r.0 / page_size then true else test_bit p.bitmap j)

claim-Taken : (p : Pmm) (i : ℕ) → Inv p → test_bit p.bitmap i ≡ false → Taken p (claim i p)
unfolding claim
claim-Taken p i v e =
    let at : i * page_size / page_size ≡ i = omega arith in
    record { was_free = ap (test_bit p.bitmap) at ∙ e; bits = λ j. rw at (claim-bit p i j v.bytes) }

Allocated-Taken : (p : Pmm) {r : ℕ × Pmm} → Inv p → Allocated p r → r.0 ≢ 0 → Taken p r
Allocated-Taken p v (ahead i a b c d) ne = claim-Taken p i v c
Allocated-Taken p v (wrapped i a b c d) ne = claim-Taken p i v b
Allocated-Taken p v (full h) ne = absurd (ne refl)

pub alloc_page-Taken : (p : Pmm) → Inv p → (alloc_page p).0 ≢ 0 → Taken p (alloc_page p)
alloc_page-Taken p v ne = Allocated-Taken p v (alloc_page-Allocated p v.cursor) ne

Allocated-keeps :
    (p : Pmm) {r : ℕ × Pmm} (j : ℕ)
    → IsBytes p.bitmap
    → Allocated p r
    → test_bit p.bitmap j ≡ true
    → test_bit r.1.bitmap j ≡ true
Allocated-keeps p j b (ahead i x y c d) h = ground (arith, claim-bit p i j b)
Allocated-keeps p j b (wrapped i x y c d) h = ground (arith, claim-bit p i j b)
Allocated-keeps p j b (full f) h = h

-- A page in use stays so, whatever alloc_page returns.
pub alloc_page_keeps :
    (p : Pmm) (j : ℕ)
    → Inv p
    → test_bit p.bitmap j ≡ true
    → test_bit (alloc_page p).1.bitmap j ≡ true
alloc_page_keeps p j v h = Allocated-keeps p j v.bytes (alloc_page-Allocated p v.cursor) h
