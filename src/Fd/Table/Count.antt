-- ===== src/Fd/Table/Count.antt =====
-- How many entries of the tables of the first processes satisfy a test, and how one write to a
-- table changes that number.
use los_tac_os.Base.{
  ℕ, zero, suc, ◌+◌, ◌≤◌, ◌<◌, ◌≡◌, refl, Bool, true, false, arith, ◌==◌, update, Bool-cases, inl,
  inr,
}
use native.Mathlib.Numerals.{add-one}
use los_tac_os.Fd.{FdEntry}

abbrev pub one_if : Bool → ℕ
one_if true = 1
one_if false = 0

unfoldable pub count_row : (FdEntry → Bool) → ℕ → (ℕ → FdEntry) → ℕ
count_row f zero t = 0
count_row f (suc n) t = one_if (f (t n)) + count_row f n t

unfoldable pub count_all : (FdEntry → Bool) → ℕ → ℕ → (ℕ → ℕ → FdEntry) → ℕ
unfolding count_row
count_all f width zero fds = 0
count_all f width (suc n) fds = count_row f width (fds n) + count_all f width n fds

module _ (f : FdEntry → Bool) where
  count_row-past :
      (n k : ℕ) (t : ℕ → FdEntry) (e : FdEntry)
      → n ≤ k
      → count_row f n (update t k e) ≡ count_row f n t
  unfolding count_row
  count_row-past zero k t e h = refl
  count_row-past (suc n) k t e h = ground (arith, count_row-past n k t e (omega arith))

  -- One entry is replaced.
  pub count_row-update :
      (n k : ℕ) (t : ℕ → FdEntry) (e : FdEntry)
      → k < n
      → count_row f n (update t k e) + one_if (f (t k)) ≡ count_row f n t + one_if (f e)
  unfolding count_row
  count_row-update zero k t e h = absurd (omega arith)
  count_row-update (suc n) k t e h = elim (Bool-cases (k == n)) [
    | inl q ↦ ground (arith, count_row-past n k t e (ground arith))
    | inr q ↦ ground (arith, count_row-update n k t e (ground arith))
  ]

  count_all-past :
      (width n p : ℕ) (fds : ℕ → ℕ → FdEntry) (t : ℕ → FdEntry)
      → n ≤ p
      → count_all f width n (update fds p t) ≡ count_all f width n fds
  unfolding count_all
  count_all-past width zero p fds t h = refl
  count_all-past width (suc n) p fds t h =
      ground (arith, count_all-past width n p fds t (omega arith))

  -- One process's table is replaced.
  pub count_all-update :
      (width n p : ℕ) (fds : ℕ → ℕ → FdEntry) (t : ℕ → FdEntry)
      → p < n
      → count_all f width n (update fds p t) + count_row f width (fds p)
        ≡ count_all f width n fds + count_row f width t
  unfolding count_all
  count_all-update width zero p fds t h = absurd (omega arith)
  count_all-update width (suc n) p fds t h = elim (Bool-cases (p == n)) [
    | inl q ↦ ground (arith, count_all-past width n p fds t (ground arith))
    | inr q ↦ ground (arith, count_all-update width n p fds t (ground arith))
  ]

  -- One entry of one process is replaced.
  pub count_all-set :
      (width n p k : ℕ) (fds : ℕ → ℕ → FdEntry) (e : FdEntry)
      → p < n
      → k < width
      → count_all f width n (update fds p (update (fds p) k e)) + one_if (f (fds p k))
        ≡ count_all f width n fds + one_if (f e)
  count_all-set width n p k fds e hp hk = omega (
    arith,
    count_all-update width n p fds (update (fds p) k e) hp,
    count_row-update width k (fds p) e hk,
  )

  pub count_row-none : (n : ℕ) (t : ℕ → FdEntry) → ((k : ℕ) → f (t k) ≡ false) → count_row f n t ≡ 0
  unfolding count_row
  count_row-none zero t h = refl
  count_row-none (suc n) t h = ground (arith, h n, count_row-none n t h)

  -- The count of `n` entries from `i` on, in the order of a loop.
  unfoldable pub count_from : ℕ → ℕ → (ℕ → FdEntry) → ℕ
  count_from zero i t = 0
  count_from (suc n) i t = one_if (f (t i)) + count_from n (i + 1) t

  count_row-zero : (t : ℕ → FdEntry) → count_row f 0 t ≡ 0
  unfolding count_row
  count_row-zero t = refl

  count_row-suc :
      (i : ℕ) (t : ℕ → FdEntry) → count_row f (i + 1) t ≡ one_if (f (t i)) + count_row f i t
  unfolding count_row
  count_row-suc i t = rw add-one

  count_row-split :
      (n i m : ℕ) (t : ℕ → FdEntry)
      → i + n ≡ m
      → count_row f m t ≡ count_row f i t + count_from n i t
  unfolding count_from
  count_row-split zero i m t e = let e' : i ≡ m = omega arith in rw e' (omega arith)
  count_row-split (suc n) i m t e =
      omega (arith, count_row-split n (i + 1) m t (omega arith), count_row-suc i t)

  pub count_from-row : (n : ℕ) (t : ℕ → FdEntry) → count_from n 0 t ≡ count_row f n t
  count_from-row n t = omega (arith, count_row-split n 0 n t (omega arith), count_row-zero t)
