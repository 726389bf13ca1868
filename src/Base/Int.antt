-- ===== src/Base/Int.antt =====
-- Signed machine integers over the native numbers: the value of a C `int` or `int64_t`.
use Prim.Native.Nat.{ℕ, zero, suc, ◌-◌, ◌%◌, ◌^◌}
use mathlib.Core.Path.{◌≡◌, refl}
use mathlib.Core.Bool.{Bool, true, false}
use los_tac_os.Base.Tests.{ltb, ◌==◌, if◌then◌else◌}

-- `negsuc n` is -(n + 1).
pub data ℤ : Type 0 where
  pos : ℕ → ℤ
  negsuc : ℕ → ℤ

abbrev pub inc : ℤ → ℤ
inc (pos n) = pos (suc n)
inc (negsuc zero) = pos 0
inc (negsuc (suc n)) = negsuc n

abbrev pub dec : ℤ → ℤ
dec (pos zero) = negsuc 0
dec (pos (suc n)) = pos n
dec (negsuc n) = negsuc (suc n)

-- The tests `x == 0` and `x <= 0`.
abbrev pub is_zero : ℤ → Bool
is_zero (pos n) = n == 0
is_zero (negsuc n) = false

abbrev pub le_zero : ℤ → Bool
le_zero (pos n) = n == 0
le_zero (negsuc n) = true

-- The conversions `(int)a` and `(int64_t)a` of a 64-bit pattern.
abbrev pub int32 : ℕ → ℤ
int32 a = if ltb (a % 2 ^ 32) (2 ^ 31) then pos (a % 2 ^ 32) else negsuc (2 ^ 32 - a % 2 ^ 32 - 1)

abbrev pub int64 : ℕ → ℤ
int64 a = if ltb (a % 2 ^ 64) (2 ^ 63) then pos (a % 2 ^ 64) else negsuc (2 ^ 64 - a % 2 ^ 64 - 1)

pub dec-inc : (z : ℤ) → dec (inc z) ≡ z
dec-inc (pos n) = refl
dec-inc (negsuc zero) = refl
dec-inc (negsuc (suc n)) = refl
