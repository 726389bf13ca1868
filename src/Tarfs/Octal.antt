-- ===== src/Tarfs/Octal.antt =====
-- octal_to_int of src/fs/tarfs.cpp on the digits that src/lib/kprintf.cpp prints.
use los_tac_os.Base.{
  ℕ, zero, suc, ◌+◌, ◌*◌, ◌/◌, ◌%◌, ◌^◌, ◌≤◌, ◌<◌, ◌≡◌, refl, ap, ◌∙◌, sym, false, ◌||◌, ◌==◌, ltb,
  List, [], ◌∷◌, ◌++◌, length, length-append, inl, inr, Bool-cases, ltb→lt, arith,
}
use los_tac_os.Base.Run.{done}
use los_tac_os.Kprintf.{digit, digits}
use los_tac_os.Kprintf.Numbers.{numeral, digits-numeral, read_number, read_number-digits, worth}
use los_tac_os.Kprintf.Texts.{times}
use los_tac_os.Tarfs.{octal_loop, octal_to_int, digit_of}
use mathlib.Core.Path.{subst}
use mathlib.Core.List.{foldl}

-- The memory spells a text from `p` on.
abbrev pub Spells : (ℕ → ℕ) → ℕ → List ℕ → Type 0
Spells m p [] = Unit {0}
Spells m p (c ∷ cs) = (m p ≡ c) × Spells m (p + 1) cs

abbrev pub AreOctal : List ℕ → Type 0
AreOctal [] = Unit {0}
AreOctal (c ∷ cs) = (b'0' ≤ c) × (c ≤ b'7') × AreOctal cs

AreOctal-append : (xs ys : List ℕ) → AreOctal xs → AreOctal ys → AreOctal (xs ++ ys)
AreOctal-append [] ys a b = b
AreOctal-append (x ∷ xs) ys (lo, hi, a) b = (lo, hi, AreOctal-append xs ys a b)

digit-octal : (d : ℕ) → d < 8 → (b'0' ≤ digit false d) × (digit false d ≤ b'7')
digit-octal d h = ground arith

AreOctal-numeral : (fuel value : ℕ) → AreOctal (numeral fuel value 8 false)
AreOctal-numeral zero value = tt
AreOctal-numeral (suc fuel) value = elim (Bool-cases (ltb value 8)) [
  | inl last ↦ let (lo, hi) = digit-octal value (ltb→lt _ _ last) in rw last (lo, hi, tt)
  | inr more ↦
      let (lo, hi) = digit-octal (value % 8) (omega arith) in
      rw more (
        AreOctal-append (numeral fuel (value / 8) 8 false) (digit false (value % 8) ∷ [])
          (AreOctal-numeral fuel (value / 8)) (lo, hi, tt))
]

AreOctal-times : (k : ℕ) → AreOctal (times k b'0')
AreOctal-times zero = tt
AreOctal-times (suc k) = (omega arith, omega arith, AreOctal-times k)

abbrev spelled : ℕ → List ℕ → ℕ
spelled = foldl (λ n c. n * 8 + worth c)

le-spelled : (cs : List ℕ) (v : ℕ) → v ≤ spelled v cs
le-spelled [] v = omega arith
le-spelled (c ∷ cs) v = omega (arith, le-spelled cs (v * 8 + worth c))

-- Digits that fit, up to a byte 0.
octal_loop-spelled :
    (cs : List ℕ) (len p v : ℕ) (m : ℕ → ℕ)
    → AreOctal cs
    → Spells m p (cs ++ 0 ∷ [])
    → length cs < len
    → spelled v cs < 2 ^ 64
    → octal_loop len p v m ≡ spelled v cs
unfolding octal_loop
octal_loop-spelled cs zero p v m o t short fits = absurd (omega arith)
octal_loop-spelled [] (suc len) p v m o (e, t) short fits = rw e refl
octal_loop-spelled (c ∷ cs) (suc len) p v m (lo, hi, o) (e, t) short fits =
    let going : ((m p == 0) || (m p == b' ')) ≡ false = ground (arith, e) in
    let next : (v * 8 % 2 ^ 64 + digit_of (m p)) % 2 ^ 64 ≡ v * 8 + worth c =
      ground (arith, e, le-spelled cs (v * 8 + worth c)) in
    rw (going, next) (octal_loop-spelled cs len (p + 1) (v * 8 + worth c) m o t (omega arith) fits)

spelled-times : (k : ℕ) (ds : List ℕ) → spelled 0 (times k b'0' ++ ds) ≡ spelled 0 ds
spelled-times zero ds = refl
spelled-times (suc k) ds = spelled-times k ds

length-times : (k c : ℕ) → length (times k c) ≡ k
length-times zero c = omega arith
length-times (suc k) c = omega (arith, length-times k c)

-- A field that holds leading zeros, the octal digits that the formatter prints for a 64-bit number,
-- and a byte 0, is read as that number.
pub octal_to_int-digits :
    (nulls value p len : ℕ) (m : ℕ → ℕ) {ds : List ℕ}
    → value < 2 ^ 64
    → digits value 8 false ≡ done ds
    → Spells m p ((times nulls b'0' ++ ds) ++ 0 ∷ [])
    → nulls + length ds < len
    → octal_to_int p len m ≡ value
unfolding octal_to_int
octal_to_int-digits nulls value p len m {ds} small printed text short =
    let (es, ran, back) = read_number-digits 8 false (omega arith) (omega arith) value small in
    let same : ds ≡ es = cc (printed, ran) in
    let shape : ds ≡ numeral 64 value 8 false =
      cc (printed, digits-numeral 8 false (omega arith) value small) in
    let octal : AreOctal ds = subst AreOctal (sym shape) (AreOctal-numeral 64 value) in
    let all = AreOctal-append (times nulls b'0') ds (AreOctal-times nulls) octal in
    let total : spelled 0 (times nulls b'0' ++ ds) ≡ value =
      spelled-times nulls ds ∙ ap (read_number 8) same ∙ back in
    octal_loop-spelled (times nulls b'0' ++ ds) len p 0 m all text
      (omega (arith, length-append (times nulls b'0') ds, length-times nulls b'0'))
      (omega (arith, total, small))
    ∙ total
