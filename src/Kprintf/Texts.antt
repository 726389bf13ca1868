-- ===== src/Kprintf/Texts.antt =====
-- The text of a format, as a list of characters, and what the loop over the format does to a sink.
use los_tac_os.Base.{
  ℕ, zero, suc, ◌+◌, ◌-◌, ◌%◌, ◌^◌, ◌≤◌, ◌<◌, ◌≡◌, refl, Bool, true, false, ◌||◌, ◌==◌, leb,
  if◌then◌else◌, List, [], ◌∷◌, ◌++◌, length, inl, inr, Bool-cases, arith,
}
use los_tac_os.Base.Run.{Run, done}
use los_tac_os.Kprintf.{
  Sink, Directive, put_times, puts, print_number, print_string, padding, fill_from, text_at,
  nil_text, hex_text, peek, skip, read_directive, signed_arg, unsigned_arg, print_signed,
  print_pointer, taken, convert,
}
use los_tac_os.Kprintf.Numbers.{numeral, digits-numeral}
use mathlib.Core.List.{append_assoc, append-nil}

abbrev pub times : ℕ → ℕ → List ℕ
times zero c = []
times (suc n) c = c ∷ times n c

abbrev pub number_text : (value base width : ℕ) → (zeros upper : Bool) → List ℕ
number_text value base width zeros upper =
    let ds = numeral 64 value base upper in
    times (padding width (length ds)) (if zeros then b'0' else b' ') ++ ds

abbrev pub string_text : List ℕ → ℕ → Bool → List ℕ
string_text str width left =
    let blank = times (fill_from width (length str)) b' ' in
    if left then str ++ blank else blank ++ str

abbrev pub signed_text : Directive → ℕ → List ℕ
signed_text d n =
    if leb (2 ^ 63) n
    then b'-' ∷ number_text ((2 ^ 64 - n) % 2 ^ 64) 10 d.width d.zeros false
    else number_text n 10 d.width d.zeros false

abbrev pub pointer_text : Directive → ℕ → List ℕ
pointer_text d p =
    if p == 0
    then string_text nil_text 0 false
    else string_text hex_text 0 false ++ number_text p 16 d.width d.zeros false

-- The text of a conversion and the number of the next argument; `unknown` is the text of a letter
-- that is none of those listed.
abbrev pub converted : (ℕ → List ℕ) → (ℕ → List ℕ) → (ℕ → ℕ) → Directive → ℕ → List ℕ × ℕ
converted unknown texts args d k =
    let c = peek d.rest in
    let n = unsigned_arg d.long_flag (args k) in
    if c == b's'
    then (string_text (text_at texts (args k)) d.width d.left, k + 1)
    else if c == b'c'
    then (args k % 256 ∷ [], k + 1)
    else if (c == b'd') || (c == b'i')
    then (signed_text d (signed_arg d.long_flag (args k)), k + 1)
    else if c == b'u'
    then (number_text n 10 d.width d.zeros false, k + 1)
    else if (c == b'x') || (c == b'X')
    then (number_text n 16 d.width d.zeros (c == b'X'), k + 1)
    else if c == b'o'
    then (number_text n 8 d.width d.zeros false, k + 1)
    else if c == b'p'
    then (pointer_text d (args k % 2 ^ 64), k + 1)
    else if c == b'%'
    then (b'%' ∷ [], k)
    else (unknown c, k)

-- The text of a format of at most `fuel` characters.
abbrev pub rendered : (ℕ → List ℕ) → (ℕ → List ℕ) → (ℕ → ℕ) → ℕ → List ℕ → ℕ → List ℕ
rendered unknown texts args zero cs k = []
rendered unknown texts args (suc fuel) [] k = []
rendered unknown texts args (suc fuel) (c ∷ cs) k =
    let d : Directive = read_directive cs in
    let r : List ℕ × ℕ = converted unknown texts args d k in
    let plain : List ℕ = rendered unknown texts args fuel cs k in
    let behind : List ℕ = rendered unknown texts args fuel (skip d.rest) r.1 in
    if c == b'%' then r.0 ++ behind else c ∷ plain

signed_arg_small : (f w : ℕ) → signed_arg f w < 2 ^ 64
signed_arg_small f w = ground arith

unsigned_arg_small : (f w : ℕ) → unsigned_arg f w < 2 ^ 64
unsigned_arg_small f w = ground arith

-- A sink that shows what was put there.
pub record IsSink {S : Type 0} (o : Sink S) (unknown : ℕ → List ℕ) (Shows : S → List ℕ → Type 0)
    : Type 0 where
  pub puts_one : (s : S) (xs : List ℕ) (c : ℕ) → Shows s xs → Shows (o.put s c) (xs ++ c ∷ [])
  pub flushed : (s : S) (xs : List ℕ) → Shows s xs → Shows (o.flush s) xs
  pub unknowns :
      (s : S) (xs : List ℕ) (c : ℕ) → Shows s xs → Shows (o.unknown s c) (xs ++ unknown c)

module _ {S : Type 0} (o : Sink S) (unknown : ℕ → List ℕ) (Shows : S → List ℕ → Type 0)
    (sink : IsSink o unknown Shows) where
  pub regroup :
      (s : S) (xs ys zs : List ℕ) → Shows s ((xs ++ ys) ++ zs) → Shows s (xs ++ (ys ++ zs))
  regroup s xs ys zs h = rw (← append_assoc xs ys zs) h

  pub puts-Shows : (cs : List ℕ) (s : S) (xs : List ℕ) → Shows s xs → Shows (puts o cs s) (xs ++ cs)
  unfolding puts
  puts-Shows [] s xs h = rw (append-nil xs) h
  puts-Shows (c ∷ cs) s xs h =
      regroup _ xs (c ∷ []) cs (puts-Shows cs (o.put s c) (xs ++ c ∷ []) (sink.puts_one s xs c h))

  put_times-Shows :
      (n c : ℕ) (s : S) (xs : List ℕ) → Shows s xs → Shows (put_times o n c s) (xs ++ times n c)
  unfolding put_times
  put_times-Shows zero c s xs h = rw (append-nil xs) h
  put_times-Shows (suc n) c s xs h =
      regroup _ xs (c ∷ []) (times n c)
        (put_times-Shows n c (o.put s c) (xs ++ c ∷ []) (sink.puts_one s xs c h))

  -- A step that ends, and shows a text behind what was there.
  abbrev Prints : Run S → List ℕ → List ℕ → Type 0
  Prints m xs t = (s : S) × (m ≡ done s) × Shows s (xs ++ t)

  print_number-Prints :
      (s : S) (xs : List ℕ) (value base width : ℕ) (zeros upper : Bool)
      → 2 ≤ base
      → value < 2 ^ 64
      → Shows s xs
      → Prints
          (print_number o s value base width zeros upper)
          xs
          (number_text value base width zeros upper)
  unfolding print_number
  print_number-Prints s xs value base width zeros upper two small h =
      let ds = numeral 64 value base upper in
      let n = padding width (length ds) in
      let blank : ℕ = if zeros then b'0' else b' ' in
      (
        puts o ds (put_times o n blank s),
        rw (digits-numeral base upper two value small),
        regroup _ xs (times n blank) ds (puts-Shows ds _ _ (put_times-Shows n blank s xs h)),
      )

  print_string-Shows :
      (s : S) (xs str : List ℕ) (width : ℕ) (left : Bool)
      → Shows s xs
      → Shows (print_string o s str width left) (xs ++ string_text str width left)
  unfolding print_string
  print_string-Shows s xs str width true h =
      let n = fill_from width (length str) in
      sink.flushed _ _
        (regroup _ xs str (times n b' ') (put_times-Shows n b' ' _ _ (puts-Shows str s xs h)))
  print_string-Shows s xs str width false h =
      let n = fill_from width (length str) in
      sink.flushed _ _
        (regroup _ xs (times n b' ') str (puts-Shows str _ _ (put_times-Shows n b' ' s xs h)))

  print_signed-Prints :
      (s : S) (xs : List ℕ) (d : Directive) (n : ℕ)
      → n < 2 ^ 64
      → Shows s xs
      → Prints (print_signed o s d n) xs (signed_text d n)
  unfolding print_signed
  print_signed-Prints s xs d n small h = elim (Bool-cases (leb (2 ^ 63) n)) [
    | inl minus ↦
        let m = (2 ^ 64 - n) % 2 ^ 64 in
        let (s', ran, shown) =
          print_number-Prints (o.put s b'-') (xs ++ b'-' ∷ []) m 10 d.width d.zeros false
            (omega arith) (omega arith) (sink.puts_one s xs b'-' h) in
        rw minus (s', ran, regroup s' xs (b'-' ∷ []) (number_text m 10 d.width d.zeros false) shown)
    | inr plus ↦ rw plus (print_number-Prints s xs n 10 d.width d.zeros false (omega arith) small h)
  ]

  print_pointer-Prints :
      (s : S) (xs : List ℕ) (d : Directive) (p : ℕ)
      → p < 2 ^ 64
      → Shows s xs
      → Prints (print_pointer o s d p) xs (pointer_text d p)
  unfolding print_pointer
  print_pointer-Prints s xs d p small h = elim (Bool-cases (p == 0)) [
    | inl null ↦ rw null (_, refl, print_string-Shows s xs nil_text 0 false h)
    | inr valid ↦
        let hex = string_text hex_text 0 false in
        let (s', ran, shown) =
          print_number-Prints (print_string o s hex_text 0 false) (xs ++ hex) p 16 d.width d.zeros
            false (omega arith) small (print_string-Shows s xs hex_text 0 false h) in
        rw valid (s', ran, regroup s' xs hex (number_text p 16 d.width d.zeros false) shown)
  ]

  -- A conversion that ends, shows its text, and leaves the right number of the next argument.
  pub record Converts (m : Run (S × ℕ)) (xs : List ℕ) (t : List ℕ × ℕ) : Type 0 where
    pub end : S × ℕ
    pub ran : m ≡ done end
    pub shown : Shows end.0 (xs ++ t.0)
    pub used : end.1 ≡ t.1

  either :
      (b : Bool) {m m' : Run (S × ℕ)} {xs : List ℕ} {t t' : List ℕ × ℕ}
      → Converts m xs t
      → Converts m' xs t'
      → Converts (if b then m else m') xs (if b then t else t')
  either true h h' = h
  either false h h' = h'

  taken-Converts :
      (k : ℕ) {m : Run S} {xs t : List ℕ} → Prints m xs t → Converts (taken k m) xs (t, k + 1)
  taken-Converts k (s, r, h) = record { end = (s, k + 1); ran = rw r; shown = h; used = refl }

  plain : (k : ℕ) {s : S} {xs t : List ℕ} → Shows s (xs ++ t) → Converts (done (s, k)) xs (t, k)
  plain k {s} h = record { end = (s, k); ran = refl; shown = h; used = refl }

  pub convert-Converts :
      (texts : ℕ → List ℕ) (args : ℕ → ℕ) (s : S) (xs : List ℕ) (d : Directive) (k : ℕ)
      → Shows s xs
      → Converts (convert o texts args s d k) xs (converted unknown texts args d k)
  unfolding convert
  convert-Converts texts args s xs d k h =
      let c = peek d.rest in
      let a = args k in
      let n = unsigned_arg d.long_flag a in
      let number = print_number-Prints s xs n in
      let small = unsigned_arg_small d.long_flag a in
      either (c == b's')
        (taken-Converts k (_, refl, print_string-Shows s xs (text_at texts a) d.width d.left h))
        (either (c == b'c') (taken-Converts k (_, refl, sink.puts_one s xs (a % 256) h)) (
          either ((c == b'd') || (c == b'i'))
            (taken-Converts k (
              print_signed-Prints s xs d (signed_arg d.long_flag a) (signed_arg_small d.long_flag a)
                h))
            (either (c == b'u')
              (taken-Converts k (number 10 d.width d.zeros false (omega arith) small h))
              (either ((c == b'x') || (c == b'X'))
                (taken-Converts k (number 16 d.width d.zeros (c == b'X') (omega arith) small h))
                (either (c == b'o')
                  (taken-Converts k (number 8 d.width d.zeros false (omega arith) small h))
                  (either (c == b'p')
                    (taken-Converts k (print_pointer-Prints s xs d (a % 2 ^ 64) (omega arith) h))
                    (either (c == b'%') (plain k (sink.puts_one s xs b'%' h))
                      (plain k (sink.unknowns s xs c h)))))))))
