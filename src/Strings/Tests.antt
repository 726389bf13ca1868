-- ===== src/Strings/Tests.antt =====
-- The functions of src/lib/string.cpp on concrete memories.
use los_tac_os.Base.{ℕ, ◌%◌, ◌≡◌, ◌==◌, if◌then◌else◌}
use los_tac_os.Strings.{move, memmove}
use los_tac_os.Strings.Moves.{memmove-move}

-- Each byte is its address, cut to a byte.
abbrev numbered : ℕ → ℕ
numbered a = a % 256

memmove-move_example : memmove 30 20 100 numbered 50 ≡ move 100 30 20 numbered 50
memmove-move_example = memmove-move 30 20 100 numbered 50

-- "hi" at 0 and "ho" at 8.
abbrev greetings : ℕ → ℕ
greetings a =
    if a == 0
    then 104
    else if a == 1
    then 105
    else if a == 8
    then 104
    else if a == 9
    then 111
    else 0
