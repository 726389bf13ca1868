-- ===== src/Kprintf/Numbers.antt =====
-- The digits of print_number and sn_print_number, and the length of number_length.
use los_tac_os.Base.{
  ℕ, zero, suc, ◌+◌, ◌-◌, ◌*◌, ◌/◌, ◌%◌, ◌^◌, ◌≤◌, ◌<◌, ◌≡◌, refl, ◌∙◌, ap, Bool, true, false, ◌==◌,
  ltb, leb, if◌then◌else◌, List, [], ◌∷◌, ◌++◌, length, length-append, inl, inr, Bool-cases, ltb→lt,
  lt→ltb, ltb→ge, arith,
}
use los_tac_os.Base.Run.{done}
use los_tac_os.Kprintf.{digit, digits_loop, digits, number_length}
use mathlib.Core.List.{foldl, foldl-append, append-nil}

-- The numeral of a number, from its first digit on.
abbrev pub numeral : (fuel value base : ℕ) → Bool → List ℕ
numeral zero value base upper = []
numeral (suc fuel) value base upper =
    let front = numeral fuel (value / base) base upper in
    if ltb value base then digit upper value ∷ [] else front ++ digit upper (value % base) ∷ []

div_small : (v b : ℕ) → v < b → v / b ≡ 0
div_small v b h = grind arith

mod_small : (v b : ℕ) → v < b → v % b ≡ v
mod_small v b h = grind arith

div_positive : (v b : ℕ) → 2 ≤ b → b ≤ v → 0 < v / b
div_positive v b h k = grind arith

div_half : (v b m : ℕ) → 2 ≤ b → v < 2 * m → v / b < m
div_half v b m h k = grind arith

div_mod : (v b : ℕ) → 2 ≤ b → v / b * b + v % b ≡ v
div_mod v b h = grind arith

mod_below : (v b : ℕ) → 2 ≤ b → v % b < b
mod_below v b h = grind arith

snoc_append : (xs : List ℕ) (c : ℕ) (ys : List ℕ) → xs ++ c ∷ ys ≡ (xs ++ c ∷ []) ++ ys
snoc_append [] c ys = refl
snoc_append (x ∷ xs) c ys = ap (λ zs. x ∷ zs) (snoc_append xs c ys)

module _ (base : ℕ) (upper : Bool) (two : 2 ≤ base) where
  digits_loop_zero : (room : ℕ) (acc : List ℕ) → digits_loop room 0 base upper acc ≡ done acc
  unfolding digits_loop
  digits_loop_zero zero acc = refl
  digits_loop_zero (suc room) acc = refl

  digits_loop-numeral :
      (room value : ℕ) (acc : List ℕ)
      → 0 < value
      → value < 2 ^ room
      → digits_loop room value base upper acc ≡ done (numeral room value base upper ++ acc)
  unfolding digits_loop
  digits_loop-numeral zero value acc lo hi = absurd (omega arith)
  digits_loop-numeral (suc room) value acc lo hi =
      let busy : (value == 0) ≡ false = ground arith in
      elim (Bool-cases (ltb value base)) [
        | inl last ↦ rw busy (
            rw last (
              rw (div_small value base (ltb→lt _ _ last)) (
                rw (mod_small value base (ltb→lt _ _ last))
                  (digits_loop_zero room (digit upper value ∷ acc)))))
        | inr more ↦ rw busy (
            rw more (
              digits_loop-numeral room (value / base) (digit upper (value % base) ∷ acc)
                (div_positive value base two (ltb→ge _ _ more))
                (div_half value base (2 ^ room) two (omega arith))
              ∙ ap done (
                  snoc_append (numeral room (value / base) base upper) (digit upper (value % base))
                    acc)))
      ]

  -- Every 64-bit number has its numeral in the buffer of 64 characters.
  pub digits-numeral :
      (value : ℕ) → value < 2 ^ 64 → digits value base upper ≡ done (numeral 64 value base upper)
  unfolding digits
  digits-numeral zero h = rw (lt→ltb 0 base (omega arith))
  digits-numeral (suc n) h =
      let some_digit : (suc n == 0) ≡ false = ground arith in
      rw some_digit (
        digits_loop-numeral 64 (suc n) [] (omega arith) h
        ∙ ap done (append-nil (numeral 64 (suc n) base upper)))

-- What a character is worth as a digit.
abbrev pub worth : ℕ → ℕ
worth c = if leb c b'9' then c - b'0' else if leb c b'F' then c - b'A' + 10 else c - b'a' + 10

abbrev pub read_number : ℕ → List ℕ → ℕ
read_number base = foldl (λ n c. n * base + worth c) 0

worth-digit : (upper : Bool) (d : ℕ) → d < 16 → worth (digit upper d) ≡ d
worth-digit true d h = ground arith
worth-digit false d h = ground arith

module _ (base : ℕ) (upper : Bool) (two : 2 ≤ base) (sixteen : base ≤ 16) where
  read_number-numeral :
      (fuel value : ℕ) → value < 2 ^ fuel → read_number base (numeral fuel value base upper) ≡ value
  read_number-numeral zero value h = omega arith
  read_number-numeral (suc fuel) value h = elim (Bool-cases (ltb value base)) [
    | inl last ↦ rw last (omega (arith, worth-digit upper value (omega (arith, ltb→lt _ _ last))))
    | inr more ↦ rw more (
        foldl-append (λ n c. n * base + worth c) 0 (numeral fuel (value / base) base upper)
          (digit upper (value % base) ∷ [])
        ∙ (let front : read_number base (numeral fuel (value / base) base upper) ≡ value / base =
              read_number-numeral fuel (value / base)
                (div_half value base (2 ^ fuel) two (omega arith)) in
            let final =
              worth-digit upper (value % base) (omega (arith, mod_below value base two)) in
            rw (front, final) (div_mod value base two)))
  ]

  -- The digits that are printed, read in their base, are the number.
  pub read_number-digits :
      (value : ℕ)
      → value < 2 ^ 64
      → (ds : List ℕ) × (digits value base upper ≡ done ds) × (read_number base ds ≡ value)
  read_number-digits value h = (
    numeral 64 value base upper,
    digits-numeral base upper two value h,
    read_number-numeral 64 value h,
  )

room_left : (fuel value : ℕ) → 2 ≤ value → value < 2 ^ suc fuel → 0 < fuel
room_left zero value h k = absurd (omega arith)
room_left (suc fuel) value h k = omega arith

module _ (base : ℕ) (upper : Bool) (two : 2 ≤ base) where
  number_length-numeral :
      (fuel value len d : ℕ)
      → 0 < fuel
      → value < 2 ^ fuel
      → d + 1 ≡ len + length (numeral fuel value base upper)
      → number_length fuel value base len ≡ done d
  unfolding number_length
  number_length-numeral zero value len d lo hi e = absurd (omega arith)
  number_length-numeral (suc fuel) value len d lo hi e = elim (Bool-cases (leb base value)) [
    | inl more ↦
        let wide : ltb value base ≡ false = ground arith in
        let e' = rw wide at e in
        rw more (
          number_length-numeral fuel (value / base) (len + 1) d
            (room_left fuel value (ground arith) hi)
            (div_half value base (2 ^ fuel) two (omega arith))
            (omega (
              arith,
              e',
              length-append (numeral fuel (value / base) base upper)
                  (digit upper (value % base) ∷ []),
            )))
    | inr last ↦
        let narrow : ltb value base ≡ true = ground arith in
        let e' = rw narrow at e in rw last (ap done (omega (arith, e')))
  ]

  -- number_length is the number of the digits that are printed.
  pub number_length-digits :
      (value : ℕ)
      → value < 2 ^ 64
      → (ds : List ℕ) × (digits value base upper ≡ done ds)
        × (number_length 64 value base 1 ≡ done (length ds))
  number_length-digits value h = (
    numeral 64 value base upper,
    digits-numeral base upper two value h,
    number_length-numeral 64 value 1 _ (omega arith) h (omega arith),
  )
