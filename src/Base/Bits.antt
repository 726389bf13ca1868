-- ===== src/Base/Bits.antt =====
-- The bits of one byte: laws of `|= 1 << k` and `&= ~(1 << k)`, by evaluation of all the cases.
use Prim.Native.Nat.{ℕ, zero, suc, ◌-◌, ◌^◌, ◌<◌, bit_and, bit_or}
use mathlib.Core.Path.{◌≡◌, refl}
use mathlib.Core.Bool.{Bool, true, false, ◌&&◌, not}
use native.Mathlib.Omega.{arith}
use los_tac_os.Base.Tests.{ltb, ◌==◌, if◌then◌else◌, ltb→lt}

-- A test passes on each of the numbers before `bound`.
passes : (ℕ → Bool) → ℕ → Bool
passes test zero = true
passes test (suc bound) = if test bound then passes test bound else false

passes_at :
    (test : ℕ → Bool) {bound : ℕ} (i : ℕ) → i < bound → passes test bound ≡ true → test i ≡ true
unfolding passes
passes_at test {bound = zero} i below all = absurd (omega (arith, below))
passes_at test {bound = suc bound} i below all = ground (arith, passes_at test {bound = bound} i)

-- Bit `k` of `x` is set.
abbrev pub bit : ℕ → ℕ → Bool
bit x k = not (bit_and x (2 ^ k) == 0)

abbrev eqb : Bool → Bool → Bool
eqb a b = if a then b else not b

eqb→eq : (a b : Bool) → eqb a b ≡ true → a ≡ b
eqb→eq a b h = ground arith

abbrev or_case : ℕ → ℕ → ℕ → Bool
or_case x k j =
    eqb (bit (bit_or x (2 ^ k)) j) (if j == k then true else bit x j) && ltb (bit_or x (2 ^ k)) 256

abbrev and_case : ℕ → ℕ → ℕ → Bool
and_case x k j =
    eqb (bit (bit_and x (255 - 2 ^ k)) j) (if j == k then false else bit x j)
    && ltb (bit_and x (255 - 2 ^ k)) 256

-- All bytes, all bits to change and all bits to look at.
abbrev cases : (ℕ → ℕ → ℕ → Bool) → Bool
cases f = passes (λ x. passes (λ k. passes (f x k) 8) 8) 256

case_at :
    (f : ℕ → ℕ → ℕ → Bool) (x k j : ℕ) → cases f ≡ true → x < 256 → k < 8 → j < 8 → f x k j ≡ true
case_at f x k j all hx hk hj = passes_at (f x k) j hj (
    passes_at (λ l. passes (f x l) 8) k hk
      (passes_at (λ y. passes (λ l. passes (f y l) 8) 8) x hx all))

or_table : cases or_case ≡ true
unfolding passes
or_table = refl

and_table : cases and_case ≡ true
unfolding passes
and_table = refl

&&_left : (a b : Bool) → (a && b) ≡ true → a ≡ true
&&_left a b h = ground arith

&&_right : (a b : Bool) → (a && b) ≡ true → b ≡ true
&&_right a b h = ground arith

module _ (x k j : ℕ) (hx : x < 256) (hk : k < 8) (hj : j < 8) where
  -- Setting bit `k` sets it and keeps the other bits.
  pub bit-set : bit (bit_or x (2 ^ k)) j ≡ (if j == k then true else bit x j)
  bit-set = eqb→eq _ _ (&&_left _ _ (case_at or_case x k j or_table hx hk hj))

  pub bit-clear : bit (bit_and x (255 - 2 ^ k)) j ≡ (if j == k then false else bit x j)
  bit-clear = eqb→eq _ _ (&&_left _ _ (case_at and_case x k j and_table hx hk hj))

  pub set-lt : bit_or x (2 ^ k) < 256
  set-lt = ltb→lt _ _ (&&_right _ _ (case_at or_case x k j or_table hx hk hj))

  pub clear-lt : bit_and x (255 - 2 ^ k) < 256
  clear-lt = ltb→lt _ _ (&&_right _ _ (case_at and_case x k j and_table hx hk hj))

full_table : passes (bit 255) 8 ≡ true
unfolding passes
full_table = refl

-- Every bit of 0xff is set.
pub bit_full : (k : ℕ) → k < 8 → bit 255 k ≡ true
bit_full k h = passes_at (bit 255) k h full_table
