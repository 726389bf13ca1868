-- ===== src/Base/Digits.antt =====
-- The low and the high binary digits of `a | b`.
use Prim.Native.Nat.{
  ℕ, zero, suc, ◌+◌, ◌*◌, ◌/◌, ◌%◌, ◌≤◌, ◌<◌, max, digits, bit_or, bit_or-bitwise,
}
use mathlib.Core.Path.{◌≡◌, refl, sym, ap, ◌∙◌}
use native.Mathlib.Omega.{arith}

abbrev or_digits : ℕ → ℕ → ℕ → ℕ
or_digits = digits (λ b. b) max

or_digits-none : (k b : ℕ) → or_digits k zero b ≡ b
or_digits-none zero b = refl
or_digits-none (suc k) b = refl

-- More fuel than digits makes no difference.
or_digits-fuel : (n m a b : ℕ) → a ≤ n → a ≤ m → or_digits n a b ≡ or_digits m a b
or_digits-fuel zero zero a b x y = refl
or_digits-fuel n m zero b x y = or_digits-none n b ∙ sym (or_digits-none m b)
or_digits-fuel zero m (suc a) b x y = absurd (omega arith)
or_digits-fuel n zero (suc a) b x y = absurd (omega arith)
or_digits-fuel (suc n) (suc m) (suc a) b x y =
    ap (λ q. q * 2 + max (suc a % 2) (b % 2))
      (or_digits-fuel n m (suc a / 2) (b / 2) (omega arith) (omega arith))

or_digits-zero : (n a : ℕ) → a ≤ n → or_digits n a 0 ≡ a
or_digits-zero zero a h = omega arith
or_digits-zero (suc n) zero h = refl
or_digits-zero (suc n) (suc a) h = omega (arith, or_digits-zero n (suc a / 2) (omega arith))

bit_or-zero : (a : ℕ) → bit_or a 0 ≡ a
bit_or-zero a = simp bit_or-bitwise (or_digits-zero a a (omega arith))

bit_or-digits : (a b : ℕ) → bit_or a b ≡ bit_or (a / 2) (b / 2) * 2 + max (a % 2) (b % 2)
bit_or-digits zero b = simp bit_or-bitwise (omega arith)
bit_or-digits (suc a) b = simp bit_or-bitwise (
    ap (λ q. q * 2 + max (suc a % 2) (b % 2))
      (or_digits-fuel a (suc a / 2) (suc a / 2) (b / 2) (omega arith) (omega arith)))

-- `k` digits less.
abbrev halves : ℕ → ℕ → ℕ
halves zero a = a
halves (suc k) a = halves k (a / 2)

halves-bit_or : (k a b : ℕ) → halves k b ≡ 0 → halves k (bit_or a b) ≡ halves k a
halves-bit_or zero a b h = ap (bit_or a) h ∙ bit_or-zero a
halves-bit_or (suc k) a b h =
    ap (halves k) (omega (arith, bit_or-digits a b)) ∙ halves-bit_or k (a / 2) (b / 2) h

-- The bits of a page's address stand above the flags.
pub bit_or_page : (a b : ℕ) → b < 4096 → bit_or a b / 4096 ≡ a / 4096
bit_or_page a b h = omega (arith, halves-bit_or 12 a b (omega arith))

pub bit_or_odd : (a b : ℕ) → b % 2 ≡ 1 → bit_or a b % 2 ≡ 1
bit_or_odd a b h = omega (arith, bit_or-digits a b)
