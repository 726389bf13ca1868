-- ===== src/Base/Maps.antt =====
-- Memory and tables as functions from an address or an index, and the pointwise update.
use Prim.Native.Nat.{ℕ}
use mathlib.Core.Path.{◌≡◌}
use mathlib.Core.Logic.{◌≢◌}
use los_tac_os.Base.Tests.{◌==◌, if◌then◌else◌, ==_refl, ==_ne}

module _ {ℓ} {A : Type ℓ} where
  -- `m` with the entry at `k` replaced by `v`.
  abbrev pub update : (ℕ → A) → ℕ → A → ℕ → A
  update m k v i = if i == k then v else m i

  pub update_self : (m : ℕ → A) (k : ℕ) (v : A) → update m k v k ≡ v
  update_self m k v = rw (==_refl k)

  pub update_ne : (m : ℕ → A) (k i : ℕ) (v : A) → i ≢ k → update m k v i ≡ m i
  update_ne m k i v h = rw (==_ne i k h)
