-- ===== src/Base/Run.antt =====
-- What a function of the kernel comes to: a result, an access through a null pointer or past a
-- buffer, or the end of the fuel that its loops were given.
use mathlib.Core.Path.{◌≡◌, refl, subst}
use los_tac_os.Base.Tests.{if◌then◌else◌}
use mathlib.Core.Bool.{Bool, true, false}
use mathlib.Core.Option.{Option, none, some}

pub data Run {ℓ} (A : Type ℓ) : Type ℓ where
  done : A → Run A
  fault : Run A
  out : Run A

infixl 5 ◌>>=◌ ◌>>◌
abbrev pub ◌>>=◌ {ℓ κ} : {A : Type ℓ} {B : Type κ} → Run A → (A → Run B) → Run B
done a >>= f = f a
fault >>= f = fault
out >>= f = out

abbrev pub ◌>>◌ {ℓ} : {B : Type ℓ} → Run (Unit {0}) → Run B → Run B
m >> k = m >>= λ _. k

-- A pointer that is followed.
abbrev pub deref {ℓ} : {A : Type ℓ} → Option A → Run A
deref none = fault
deref (some a) = done a

-- A condition without which the code writes past a buffer.
abbrev pub within : Bool → Run (Unit {0})
within true = done tt
within false = fault

pub >>=-eq-done {ℓ κ} :
    {A : Type ℓ} {B : Type κ} (m : Run A) (f : A → Run B) {b : B}
    → (m >>= f) ≡ done b
    → (a : A) × (m ≡ done a) × (f a ≡ done b)
>>=-eq-done (done a) f h = (a, refl, h)
>>=-eq-done fault f h = cc
>>=-eq-done out f h = cc

-- What holds of a result, if there is one.
pub record Each {A : Type 0} (P : A → Type 0) (m : Run A) : Type 0 where
  pub holds : (a : A) → m ≡ done a → P a

module _ {A : Type 0} {P : A → Type 0} where
  pub done-Each : {a : A} → P a → Each P (done a)
  done-Each {a} p = record { holds = λ b h. let e : a ≡ b = cc in subst P e p }

  pub fault-Each : Each P fault
  fault-Each = record { holds = λ b h. absurd (cc h) }

  pub out-Each : Each P out
  out-Each = record { holds = λ b h. absurd (cc h) }

  pub if_Each : (b : Bool) {m m' : Run A} → Each P m → Each P m' → Each P (if b then m else m')
  if_Each true h h' = h
  if_Each false h h' = h'

  pub >>=-Each :
      {B : Type 0} {Q : B → Type 0} {m : Run A} {f : A → Run B}
      → Each P m
      → ((a : A) → P a → Each Q (f a))
      → Each Q (m >>= f)
  >>=-Each {m} {f} p k = record {
    holds = λ b h. let (a, ran, h') = >>=-eq-done m f h in (k a (p.holds a ran)).holds b h';
  }
