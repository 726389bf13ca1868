-- ===== src/Tty/Tests.antt =====
-- The terminal of src/fs/devfs/tty.cpp on typed bytes.
use los_tac_os.Base.{ℕ, ◌≡◌, refl, true, some, List, [], ◌∷◌, arith}
use los_tac_os.Tty.{Tty, first_tio, read_canonical}
use los_tac_os.Tty.Lines.{stream, edited, Reads, read_canonical-Reads}

-- "hx" is typed; a backspace, "i" and a newline come while the reader waits.
abbrev typed : Tty
typed = record {
  stdin = 104 ∷ (120 ∷ []);
  tio = first_tio;
  termios_init = true;
  active_vt = 1;
  console = [];
}

abbrev later : List (List ℕ)
later = (8 ∷ []) ∷ ((105 ∷ (10 ∷ [])) ∷ [])

typed_line : edited 8 80 [] (stream (104 ∷ (120 ∷ [])) later) ≡ some (104 ∷ (105 ∷ (10 ∷ [])), [])
typed_line = refl

read_canonical-Reads_example :
    Reads (edited 0 80 [] (stream (104 ∷ (120 ∷ [])) later)) (read_canonical 9 80 later typed)
read_canonical-Reads_example = read_canonical-Reads 9 80 later typed (omega arith)
