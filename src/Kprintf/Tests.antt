-- ===== src/Kprintf/Tests.antt =====
-- Formats with known texts.
use los_tac_os.Base.{ℕ, ◌+◌, ◌-◌, ◌^◌, ◌==◌, if◌then◌else◌, List, [], ◌∷◌}
use los_tac_os.Kprintf.Buffer.{Screen}

-- "a%5d%s" with the arguments -42 and a string.
abbrev padded : List ℕ
padded = b'a' ∷ b'%' ∷ b'5' ∷ b'd' ∷ b'%' ∷ b's' ∷ []

abbrev some_args : ℕ → ℕ
some_args k = if k == 0 then 2 ^ 32 - 42 else 16

abbrev some_texts : ℕ → List ℕ
some_texts p = b'x' ∷ b'y' ∷ []

-- A console that keeps what was put, the last character first, and counts the swaps.
abbrev page : Screen (List ℕ × ℕ)
page = record { put = λ s c. (c ∷ s.0, s.1); swap = λ s. (s.0, s.1 + 1); vwritef = λ s f a. s }
