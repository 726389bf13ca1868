-- ===== src/Pmm/Bitmap.antt =====
-- set_bit, clear_bit and test_bit of src/mm/pmm.cpp: bit `b % 8` of byte `b / 8`.
use Prim.Native.Nat.{bit_and, bit_or}
use los_tac_os.Base.{
  ℕ, ◌-◌, ◌/◌, ◌%◌, ◌^◌, ◌<◌, ◌≡◌, Bool, true, false, arith, ◌==◌, if◌then◌else◌, update,
}
use los_tac_os.Base.Bits.{bit, bit-set, bit-clear, set-lt, clear-lt}

unfoldable pub set_bit : (ℕ → ℕ) → ℕ → ℕ → ℕ
set_bit m b = update m (b / 8) (bit_or (m (b / 8)) (2 ^ (b % 8)))

unfoldable pub clear_bit : (ℕ → ℕ) → ℕ → ℕ → ℕ
clear_bit m b = update m (b / 8) (bit_and (m (b / 8)) (255 - 2 ^ (b % 8)))

unfoldable pub test_bit : (ℕ → ℕ) → ℕ → Bool
test_bit m b = bit (m (b / 8)) (b % 8)

abbrev pub IsBytes : (ℕ → ℕ) → Type 0
IsBytes m = (i : ℕ) → m i < 256

module _ (m : ℕ → ℕ) (bytes : IsBytes m) where
  pub set_bit-IsBytes : (b : ℕ) → IsBytes (set_bit m b)
  unfolding set_bit
  set_bit-IsBytes b i =
      ground
        (arith, bytes i, set-lt (m (b / 8)) (b % 8) 0 (bytes (b / 8)) (omega arith) (omega arith))

  pub clear_bit-IsBytes : (b : ℕ) → IsBytes (clear_bit m b)
  unfolding clear_bit
  clear_bit-IsBytes b i =
      ground
        (arith, bytes i, clear-lt (m (b / 8)) (b % 8) 0 (bytes (b / 8)) (omega arith) (omega arith))

  pub test_bit-set_bit :
      (b j : ℕ) → test_bit (set_bit m b) j ≡ (if j == b then true else test_bit m j)
  unfolding test_bit set_bit
  test_bit-set_bit b j =
      ground
        (arith, bit-set (m (b / 8)) (b % 8) (j % 8) (bytes (b / 8)) (omega arith) (omega arith))

  pub test_bit-clear_bit :
      (b j : ℕ) → test_bit (clear_bit m b) j ≡ (if j == b then false else test_bit m j)
  unfolding test_bit clear_bit
  test_bit-clear_bit b j =
      ground
        (arith, bit-clear (m (b / 8)) (b % 8) (j % 8) (bytes (b / 8)) (omega arith) (omega arith))
