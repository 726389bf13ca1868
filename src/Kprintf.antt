-- ===== src/Kprintf.antt =====
-- The formatted output of src/lib/kprintf.cpp. The source has its functions twice, for a buffer and
-- for the console; here they are once, over a sink. A C string is the list of its characters, none of
-- which is 0, and its end reads as 0. Arguments are 64-bit words, the k-th of which is `args k`;
-- `texts` gives the string at an address. An `int` is its 32-bit pattern.
pub mod Numbers
pub mod Texts
pub mod Loop
pub mod Buffer
mod Tests
use los_tac_os.Base.{
  ℕ, zero, suc, ◌+◌, ◌-◌, ◌*◌, ◌/◌, ◌%◌, ◌^◌, Bool, true, false, ◌&&◌, ◌||◌, ◌==◌, ltb, leb,
  if◌then◌else◌, List, [], ◌∷◌, length, update,
}
use los_tac_os.Base.Int.{ℤ, pos, negsuc, int32}
use los_tac_os.Base.Run.{Run, done, fault, out, ◌>>=◌}

-- Where characters go. `flush` ends a string, and `unknown` is the default case of the switch.
pub record Sink (S : Type 0) : Type 0 where
  pub put : S → ℕ → S
  pub flush : S → S
  pub unknown : S → ℕ → S

-- `for (; n > 0; n--) put(c)`, and the characters of a string.
pub put_times : {S : Type 0} → Sink S → ℕ → ℕ → S → S
put_times o zero c s = s
put_times o (suc n) c s = put_times o n c (o.put s c)

pub puts : {S : Type 0} → Sink S → List ℕ → S → S
puts o [] s = s
puts o (c ∷ cs) s = puts o cs (o.put s c)

-- The characters "0123456789abcdef", or their capitals.
abbrev pub digit : Bool → ℕ → ℕ
digit upper d = if ltb d 10 then b'0' + d else (if upper then b'A' else b'a') + (d - 10)

-- The digits of a number, the last one first, into a buffer with `room` left; `acc` holds the
-- digits so far, the latest one first.
pub digits_loop : (room value base : ℕ) → Bool → List ℕ → Run (List ℕ)
digits_loop zero value base upper acc = if value == 0 then done acc else fault
digits_loop (suc room) value base upper acc =
    let rest = digits_loop room (value / base) base upper (digit upper (value % base) ∷ acc) in
    if value == 0 then done acc else rest

pub digits : ℕ → ℕ → Bool → Run (List ℕ)
digits value base upper =
    if value == 0 then done (b'0' ∷ []) else digits_loop 64 value base upper []

-- The rounds of `while (n-- > 0)`, and the difference of two `int`s.
abbrev pub rounds : ℤ → ℕ
rounds (pos n) = n
rounds (negsuc n) = 0

abbrev pub padding : ℕ → ℕ → ℕ
padding width i = rounds (int32 (width + 2 ^ 32 - i % 2 ^ 32))

pub print_number : {S : Type 0} → Sink S → S → (value base width : ℕ) → (zeros upper : Bool) → Run S
print_number o s value base width zeros upper = digits value base upper >>= λ ds.
    done (puts o ds (put_times o (padding width (length ds)) (if zeros then b'0' else b' ') s))

-- sn_number_length and number_length; at most 64 rounds.
pub number_length : ℕ → ℕ → ℕ → ℕ → Run ℕ
number_length zero value base len = out
number_length (suc fuel) value base len =
    let rest = number_length fuel (value / base) base (len + 1) in
    if leb base value then rest else done len

abbrev pub null_text : List ℕ
null_text = b'(' ∷ b'n' ∷ b'u' ∷ b'l' ∷ b'l' ∷ b')' ∷ []

abbrev pub text_at : (ℕ → List ℕ) → ℕ → List ℕ
text_at texts p = if p == 0 then null_text else texts p

-- The rounds of `for (int i = len; i < width; i++)`.
abbrev pub fill_from : ℕ → ℕ → ℕ
fill_from width len = rounds (int32 width) - len

pub print_string : {S : Type 0} → Sink S → S → List ℕ → ℕ → Bool → S
print_string o s str width left =
    let n = fill_from width (length str) in
    o.flush (if left then put_times o n b' ' (puts o str s) else puts o str (put_times o n b' ' s))

-- A conversion behind its `%`; `rest` starts at its letter.
pub record Directive : Type 0 where
  pub left : Bool
  pub zeros : Bool
  pub width : ℕ
  pub long_flag : ℕ
  pub rest : List ℕ

-- `*fmt`, and `fmt++`.
abbrev pub peek : List ℕ → ℕ
peek [] = 0
peek (c ∷ cs) = c

abbrev pub skip : List ℕ → List ℕ
skip [] = []
skip (c ∷ cs) = cs

pub read_flags : (left zeros : Bool) → List ℕ → Bool × Bool × List ℕ
read_flags left zeros [] = (left, zeros, [])
read_flags left zeros (c ∷ cs) =
    let minus = read_flags true zeros cs in
    let nought = read_flags left true cs in
    if c == b'-' then minus else if c == b'0' then nought else (left, zeros, c ∷ cs)

pub read_width : ℕ → List ℕ → ℕ × List ℕ
read_width width [] = (width, [])
read_width width (c ∷ cs) =
    let more = read_width ((width * 10 + (c - b'0')) % 2 ^ 32) cs in
    if leb b'0' c && leb c b'9' then more else (width, c ∷ cs)

pub read_length : List ℕ → ℕ × List ℕ
read_length cs =
    if peek cs == b'l'
    then (if peek (skip cs) == b'l' then (2, skip (skip cs)) else (1, skip cs))
    else if peek cs == b'z'
    then (1, skip cs)
    else if peek cs == b'h'
    then (0, if peek (skip cs) == b'h' then skip (skip cs) else skip cs)
    else (0, cs)

pub read_directive : List ℕ → Directive
read_directive cs =
    let (left, zeros, after_flags) = read_flags false false cs in
    let (width, after_width) = read_width 0 after_flags in
    let (long_flag, rest) = read_length after_width in
    record { left = left; zeros = zeros; width = width; long_flag = long_flag; rest = rest }

-- An integer argument: an `int` is extended to 64 bits by its sign, an `unsigned int` by zeros.
abbrev pub signed_arg : ℕ → ℕ → ℕ
signed_arg long_flag w =
    if long_flag == 0
    then (if ltb (w % 2 ^ 32) (2 ^ 31) then w % 2 ^ 32 else w % 2 ^ 32 + (2 ^ 64 - 2 ^ 32))
    else w % 2 ^ 64

abbrev pub unsigned_arg : ℕ → ℕ → ℕ
unsigned_arg long_flag w = if long_flag == 0 then w % 2 ^ 32 else w % 2 ^ 64

abbrev pub nil_text : List ℕ
nil_text = b'(' ∷ b'n' ∷ b'i' ∷ b'l' ∷ b')' ∷ []

abbrev pub hex_text : List ℕ
hex_text = b'0' ∷ b'x' ∷ []

pub print_signed : {S : Type 0} → Sink S → S → Directive → ℕ → Run S
print_signed o s d n =
    if leb (2 ^ 63) n
    then print_number o (o.put s b'-') ((2 ^ 64 - n) % 2 ^ 64) 10 d.width d.zeros false
    else print_number o s n 10 d.width d.zeros false

-- sn_puts writes the prefix of a pointer, print_string on the console.
pub print_pointer : {S : Type 0} → Sink S → S → Directive → ℕ → Run S
print_pointer o s d p =
    if p == 0
    then done (print_string o s nil_text 0 false)
    else print_number o (print_string o s hex_text 0 false) p 16 d.width d.zeros false

-- The next argument is used up.
abbrev pub taken : {S : Type 0} → ℕ → Run S → Run (S × ℕ)
taken {S} k m = let use_it : S → Run (S × ℕ) = λ s. done (s, k + 1) in m >>= use_it

-- The switch on the letter of a conversion.
pub convert : {S : Type 0} → Sink S → (ℕ → List ℕ) → (ℕ → ℕ) → S → Directive → ℕ → Run (S × ℕ)
convert o texts args s d k =
    let c = peek d.rest in
    let n = unsigned_arg d.long_flag (args k) in
    if c == b's'
    then taken k (done (print_string o s (text_at texts (args k)) d.width d.left))
    else if c == b'c'
    then taken k (done (o.put s (args k % 256)))
    else if (c == b'd') || (c == b'i')
    then taken k (print_signed o s d (signed_arg d.long_flag (args k)))
    else if c == b'u'
    then taken k (print_number o s n 10 d.width d.zeros false)
    else if (c == b'x') || (c == b'X')
    then taken k (print_number o s n 16 d.width d.zeros (c == b'X'))
    else if c == b'o'
    then taken k (print_number o s n 8 d.width d.zeros false)
    else if c == b'p'
    then taken k (print_pointer o s d (args k % 2 ^ 64))
    else if c == b'%'
    then done (o.put s b'%', k)
    else done (o.unknown s c, k)

-- The loop over the format.
pub format_loop : {S : Type 0} → Sink S → (ℕ → List ℕ) → (ℕ → ℕ) → ℕ → S → List ℕ → ℕ → Run S
format_loop o texts args zero s cs k = out
format_loop o texts args (suc fuel) s [] k = done s
format_loop {S} o texts args (suc fuel) s (c ∷ cs) k =
    let go : S → List ℕ → ℕ → Run S = format_loop o texts args fuel in
    let d : Directive = read_directive cs in
    let next : S × ℕ → Run S = λ r. go r.0 (skip d.rest) r.1 in
    if c == b'%' then convert o texts args s d k >>= next else go (o.put s c) cs k
