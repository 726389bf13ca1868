-- ===== src/Kprintf/Buffer/Stored.antt =====
-- What kvsnprintf leaves in its buffer, and what kvprintf shows on the console.
use los_tac_os.Base.{
  ℕ, zero, suc, ◌+◌, ◌-◌, ◌^◌, ◌<◌, min, ◌≡◌, ◌&&◌, ◌==◌, ltb, if◌then◌else◌, List, [], ◌∷◌, length,
}
use los_tac_os.Kprintf.Buffer.{SnBuf, Screen}
use los_tac_os.Kprintf.Texts.{rendered}

-- The i-th character, 0 behind the last one.
abbrev pub char_at : List ℕ → ℕ → ℕ
char_at [] i = 0
char_at (c ∷ cs) zero = c
char_at (c ∷ cs) (suc i) = char_at cs i

-- A buffer of `size` bytes that holds the first characters of a text, as many as fit before the
-- byte 0 behind them, and is unchanged from there on.
abbrev pub cut : (ℕ → ℕ) → ℕ → List ℕ → ℕ → ℕ
cut buf size xs i =
    let n = min (length xs) (size - 1) in
    if size == 0 then buf i else if ltb i n then char_at xs i else if i == n then 0 else buf i

-- The text of a format for kvsnprintf and for kvprintf.
abbrev pub sn_unknown_text : ℕ → List ℕ
sn_unknown_text c = if c == 0 then b'%' ∷ [] else b'%' ∷ c ∷ []

abbrev pub sn_text : (ℕ → List ℕ) → (ℕ → ℕ) → List ℕ → List ℕ
sn_text texts args fmt = rendered sn_unknown_text texts args (suc (length fmt)) fmt 0

abbrev pub console_text : (ℕ → List ℕ) → (ℕ → ℕ) → List ℕ → List ℕ
console_text texts args fmt = rendered (λ c. []) texts args (suc (length fmt)) fmt 0

module _ (buf : ℕ → ℕ) (size : ℕ) where
  -- The state after `xs` went into the buffer.
  record Holds (sb : SnBuf) (xs : List ℕ) : Type 0 where
    sized : sb.size ≡ size
    filled : sb.pos ≡ length xs
    bytes :
        (i : ℕ) → sb.buf i ≡ (if ltb i (length xs) && ltb (i + 1) size then char_at xs i else buf i)

  abbrev Fits : SnBuf → List ℕ → Type 0
  Fits sb xs = length xs + 1 < 2 ^ 64 → Holds sb xs

-- A call that kvprintf makes after the serial line has its text: console::put or framebuffer::swap.
pub data Call : Type 0 where
  putting : ℕ → Call
  swapping : Call

-- The characters that calls put, and what the calls do to a screen.
abbrev pub characters : List Call → List ℕ
characters [] = []
characters (putting c ∷ calls) = c ∷ characters calls
characters (swapping ∷ calls) = characters calls

abbrev pub after : {S : Type 0} → Screen S → S → List Call → S
after screen s [] = s
after screen s (putting c ∷ calls) = after screen (screen.put s c) calls
after screen s (swapping ∷ calls) = after screen (screen.swap s) calls

module _ {S : Type 0} (screen : Screen S) (s : S) where
  -- The state after calls that put exactly the characters of a text.
  record Printed (t : S) (xs : List ℕ) : Type 0 where
    calls : List Call
    made : t ≡ after screen s calls
    text : characters calls ≡ xs
