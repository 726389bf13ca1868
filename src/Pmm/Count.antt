-- ===== src/Pmm/Count.antt =====
-- The invariant of src/mm/pmm.cpp: free_pages_count is the number of clear bits, and the cursor
-- stays within the bitmap.
use los_tac_os.Base.{
  ℕ, zero, suc, ◌+◌, ◌*◌, ◌/◌, ◌≤◌, ◌<◌, ◌≡◌, ◌≢◌, refl, Bool, true, false, arith, ◌==◌,
  if◌then◌else◌, Bool-cases, inl, inr, ltb, ltb→lt,
}
use los_tac_os.Pmm.Bitmap.{set_bit-IsBytes, clear_bit-IsBytes, test_bit-set_bit, test_bit-clear_bit}
use los_tac_os.Pmm.{
  Pmm, max_pages, set_bit, clear_bit, test_bit, IsBytes, reserve_step, free_step, claim, free_page,
  page_size,
}

-- How many of the first `n` pages are free by `f`.
pub count_clear : ℕ → (ℕ → Bool) → ℕ
count_clear zero f = 0
count_clear (suc n) f = (if f n then 0 else 1) + count_clear n f

pub count_clear-le : (n : ℕ) (f : ℕ → Bool) → count_clear n f ≤ n
unfolding count_clear
count_clear-le zero f = omega arith
count_clear-le (suc n) f = ground (arith, count_clear-le n f)

pub count_clear-same :
    (n : ℕ) (f g : ℕ → Bool) → ((j : ℕ) → j < n → g j ≡ f j) → count_clear n g ≡ count_clear n f
unfolding count_clear
count_clear-same zero f g h = refl
count_clear-same (suc n) f g h =
    ground (arith, h n, count_clear-same n f g (λ j l. h j (omega arith)))

pub count_clear-none : (n : ℕ) (f : ℕ → Bool) → ((j : ℕ) → f j ≡ true) → count_clear n f ≡ 0
unfolding count_clear
count_clear-none zero f h = refl
count_clear-none (suc n) f h = ground (arith, h n, count_clear-none n f h)

-- Marking one free page takes one away.
pub count_clear-mark :
    (n i : ℕ) (f g : ℕ → Bool)
    → i < n
    → f i ≡ false
    → g i ≡ true
    → ((j : ℕ) → j ≢ i → g j ≡ f j)
    → suc (count_clear n g) ≡ count_clear n f
unfolding count_clear
count_clear-mark zero i f g l a b h = absurd (omega arith)
count_clear-mark (suc n) i f g l a b h = elim (Bool-cases (i == n)) [
  | inl e ↦ ground (arith, count_clear-same n f g (λ j m. h j (ground arith)))
  | inr e ↦ ground (arith, h n, count_clear-mark n i f g (ground arith) a b h)
]

pub record Inv (p : Pmm) : Type 0 where
  pub bytes : IsBytes p.bitmap
  pub counted : p.free_pages_count ≡ count_clear max_pages (test_bit p.bitmap)
  pub cursor : p.last_page ≤ max_pages

-- The steps of the loops and of the operations, and what they keep.
-- A bitmap with one more bit set, and the counter one less.
module _ (m : ℕ → ℕ) (bytes : IsBytes m) (i : ℕ) (l : i < max_pages) where
  pub count_clear-set_bit :
      test_bit m i ≡ false
      → suc (count_clear max_pages (test_bit (set_bit m i))) ≡ count_clear max_pages (test_bit m)
  count_clear-set_bit e =
      count_clear-mark max_pages i (test_bit m) (test_bit (set_bit m i)) l e
        (ground (arith, test_bit-set_bit m bytes i i))
        (λ j ne. ground (arith, test_bit-set_bit m bytes i j))

  pub count_clear-clear_bit :
      test_bit m i ≡ true
      → suc (count_clear max_pages (test_bit m)) ≡ count_clear max_pages (test_bit (clear_bit m i))
  count_clear-clear_bit e =
      count_clear-mark max_pages i (test_bit (clear_bit m i)) (test_bit m) l
        (ground (arith, test_bit-clear_bit m bytes i i)) e
        (λ j ne. ground (arith, test_bit-clear_bit m bytes i j))

pub claim-Inv :
    (i : ℕ) (p : Pmm) → i < max_pages → test_bit p.bitmap i ≡ false → Inv p → Inv (claim i p).1
unfolding claim
claim-Inv i p l e v = record {
  bytes = set_bit-IsBytes p.bitmap v.bytes i;
  counted = omega (
    arith,
    v.counted,
    count_clear-set_bit p.bitmap v.bytes i l e,
    count_clear-le max_pages (test_bit p.bitmap),
  );
  cursor = omega arith;
}

pub reserve_step-Inv : (i : ℕ) (p : Pmm) → Inv p → Inv (reserve_step i p)
unfolding reserve_step
reserve_step-Inv i p v = elim (Bool-cases (ltb i max_pages)) [
  | inr off ↦ rw off v
  | inl on ↦ elim (Bool-cases (test_bit p.bitmap i)) [
    | inl set ↦ rw (on, set) v
    | inr clear ↦
        rw (on, clear)
          (record {
            bytes = set_bit-IsBytes p.bitmap v.bytes i;
            counted = omega (
              arith,
              v.counted,
              count_clear-set_bit p.bitmap v.bytes i (ltb→lt _ _ on) clear,
              count_clear-le max_pages (test_bit p.bitmap),
            );
            cursor = v.cursor;
          })
  ]
]

pub free_step-Inv : (i : ℕ) (p : Pmm) → Inv p → Inv (free_step i p)
unfolding free_step
free_step-Inv i p v = elim (Bool-cases (ltb i max_pages)) [
  | inr off ↦ rw off v
  | inl on ↦ elim (Bool-cases (test_bit p.bitmap i)) [
    | inr clear ↦ rw (on, clear) v
    | inl set ↦
        rw (on, set)
          (record {
            bytes = clear_bit-IsBytes p.bitmap v.bytes i;
            counted = omega (
              arith,
              v.counted,
              count_clear-clear_bit p.bitmap v.bytes i (ltb→lt _ _ on) set,
              count_clear-le max_pages (test_bit (clear_bit p.bitmap i)),
            );
            cursor = v.cursor;
          })
  ]
]

pub free_page-Inv :
    (addr : ℕ) (p : Pmm) → addr < max_pages * page_size → Inv p → Inv (free_page addr p)
unfolding free_page
free_page-Inv addr p l v = elim (Bool-cases (test_bit p.bitmap (addr / page_size))) [
  | inr clear ↦ rw clear v
  | inl set ↦ rw set (record {
    bytes = clear_bit-IsBytes p.bitmap v.bytes (addr / page_size);
    counted = omega (
      arith,
      v.counted,
      count_clear-clear_bit p.bitmap v.bytes (addr / page_size) (omega arith) set,
      count_clear-le max_pages (test_bit (clear_bit p.bitmap (addr / page_size))),
    );
    cursor = ground (arith, v.cursor);
  })
]
