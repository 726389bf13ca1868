-- ===== src/Pmm/Region.antt =====
-- reserve_region and free_region of src/mm/pmm.cpp: exactly which pages they mark.
use los_tac_os.Base.{
  ℕ, zero, suc, ◌+◌, ◌-◌, ◌*◌, ◌/◌, ◌%◌, ◌≤◌, ◌<◌, ◌≡◌, refl, Bool, true, false, ◌&&◌, arith, ltb,
  leb, ◌==◌, if◌then◌else◌,
}
use los_tac_os.Pmm.Bitmap.{test_bit-set_bit, test_bit-clear_bit}
use los_tac_os.Pmm.Count.{Inv, reserve_step-Inv, free_step-Inv}
use los_tac_os.Pmm.{
  Pmm, page_size, max_pages, u64, test_bit, IsBytes, reserve_step, reserve_loop, reserve_region,
  free_step, free_loop, free_region,
}

reserve_step-bit :
    (i j : ℕ) (p : Pmm)
    → IsBytes p.bitmap
    → test_bit (reserve_step i p).bitmap j
      ≡ (if (j == i) && ltb i max_pages then true else test_bit p.bitmap j)
unfolding reserve_step
reserve_step-bit i j p b = ground (arith, test_bit-set_bit p.bitmap b i j)

free_step-bit :
    (i j : ℕ) (p : Pmm)
    → IsBytes p.bitmap
    → test_bit (free_step i p).bitmap j
      ≡ (if (j == i) && ltb i max_pages then false else test_bit p.bitmap j)
unfolding free_step
free_step-bit i j p b = ground (arith, test_bit-clear_bit p.bitmap b i j)

pub reserve_loop-Inv : (n i : ℕ) (p : Pmm) → Inv p → Inv (reserve_loop n i p)
unfolding reserve_loop
reserve_loop-Inv zero i p v = v
reserve_loop-Inv (suc n) i p v =
    reserve_loop-Inv n (i + 1) (reserve_step i p) (reserve_step-Inv i p v)

free_loop-Inv : (n i : ℕ) (p : Pmm) → Inv p → Inv (free_loop n i p)
unfolding free_loop
free_loop-Inv zero i p v = v
free_loop-Inv (suc n) i p v = free_loop-Inv n (i + 1) (free_step i p) (free_step-Inv i p v)

-- Page `j` is one of the `n` pages from `i` on.
abbrev pub within : ℕ → ℕ → ℕ → Bool
within i n j = leb i j && (ltb j (i + n) && ltb j max_pages)

reserve_loop-bit :
    (n i j : ℕ) (p : Pmm)
    → Inv p
    → test_bit (reserve_loop n i p).bitmap j ≡ (if within i n j then true else test_bit p.bitmap j)
unfolding reserve_loop
reserve_loop-bit zero i j p v = ground arith
reserve_loop-bit (suc n) i j p v = ground (
  arith,
  reserve_loop-bit n (i + 1) j (reserve_step i p) (reserve_step-Inv i p v),
  reserve_step-bit i j p v.bytes,
)

free_loop-bit :
    (n i j : ℕ) (p : Pmm)
    → Inv p
    → test_bit (free_loop n i p).bitmap j ≡ (if within i n j then false else test_bit p.bitmap j)
unfolding free_loop
free_loop-bit zero i j p v = ground arith
free_loop-bit (suc n) i j p v = ground (
  arith,
  free_loop-bit n (i + 1) j (free_step i p) (free_step-Inv i p v),
  free_step-bit i j p v.bytes,
)

pub reserve_region-Inv : (addr len : ℕ) (p : Pmm) → Inv p → Inv (reserve_region addr len p)
unfolding reserve_region
reserve_region-Inv addr len p v =
    reserve_loop-Inv ((addr + len + page_size - 1) % u64 / page_size - addr / page_size)
      (addr / page_size) p v

pub free_region-Inv : (addr len : ℕ) (p : Pmm) → Inv p → Inv (free_region addr len p)
unfolding free_region
free_region-Inv addr len p v =
    free_loop-Inv ((addr + len) % u64 / page_size - addr / page_size) (addr / page_size) p v

-- For a region that does not wrap round at 2 ^ 64, reserve_region sets the bit of every page of the
-- bitmap from the page of `addr` up to the last page that starts below `addr + len`, and no other.
pub reserve_region-bit :
    (addr len j : ℕ) (p : Pmm)
    → Inv p
    → addr + len + page_size ≤ u64
    → test_bit (reserve_region addr len p).bitmap j ≡ (
        if leb (addr / page_size) j && (ltb (j * page_size) (addr + len) && ltb j max_pages)
        then true
        else test_bit p.bitmap j)
unfolding reserve_region
reserve_region-bit addr len j p v fits = ground (
  arith,
  reserve_loop-bit ((addr + len + page_size - 1) % u64 / page_size - addr / page_size)
      (addr / page_size) j p v,
)

module _ (addr len j : ℕ) (p : Pmm) (v : Inv p) (fits : addr + len + page_size ≤ u64)
    (l : j < max_pages) where
  -- A page that meets the region is marked.
  pub reserve_region_marks :
      addr < (j + 1) * page_size
      → j * page_size < addr + len
      → test_bit (reserve_region addr len p).bitmap j ≡ true
  reserve_region_marks a b =
      let first : addr / page_size ≤ j = omega arith in
      ground (arith, reserve_region-bit addr len j p v fits)

  -- A page in use stays in use.
  pub reserve_region_keeps :
      test_bit p.bitmap j ≡ true → test_bit (reserve_region addr len p).bitmap j ≡ true
  reserve_region_keeps e = rw (reserve_region-bit addr len j p v fits) (keep _ e)
    where
      keep : (b : Bool) {c : Bool} → c ≡ true → (if b then true else c) ≡ true
      keep true e = refl
      keep false e = e

-- For a region that does not wrap round at 2 ^ 64, free_region clears the bit of every page of the
-- bitmap from the page of `addr` (rounded down) up to the last page that ends by `addr + len`, and
-- no other.
pub free_region-bit :
    (addr len j : ℕ) (p : Pmm)
    → Inv p
    → addr + len < u64
    → test_bit (free_region addr len p).bitmap j ≡ (
        if leb (addr / page_size) j && (leb ((j + 1) * page_size) (addr + len) && ltb j max_pages)
        then false
        else test_bit p.bitmap j)
unfolding free_region
free_region-bit addr len j p v fits = ground (
  arith,
  free_loop-bit ((addr + len) % u64 / page_size - addr / page_size) (addr / page_size) j p v,
)
