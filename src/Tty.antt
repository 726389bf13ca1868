-- ===== src/Tty.antt =====
-- The terminal of src/fs/devfs/tty.cpp. The bytes that the keyboard's interrupts left for it are a
-- list; `arrivals` are the bytes that later interrupts bring, one list for each round of a loop. No
-- interrupt comes within pop_raw_byte: one that did could lose the byte that it brings.
pub mod Lines
mod Tests
use los_tac_os.Base.{
  ℕ, zero, suc, ◌+◌, ◌-◌, ◌*◌, ◌/◌, ◌%◌, Bool, true, false, ◌&&◌, ◌||◌, not, Option, none, some,
  List, [], ◌∷◌, ◌++◌, length, take, drop, ltb, leb, ◌==◌, if◌then◌else◌, update,
}
use los_tac_os.Base.Int.{ℤ, pos, negsuc}
use los_tac_os.Base.Run.{Run, done, fault, out}

pub record Termios : Type 0 where
  pub c_iflag : ℕ
  pub c_oflag : ℕ
  pub c_cflag : ℕ
  pub c_lflag : ℕ
  pub c_line : ℕ
  pub c_cc : ℕ → ℕ

-- What goes to the console: a character, a text, the note of switch_vt.
pub data Output : Type 0 where
  put : ℕ → Output
  text : List ℕ → Output
  clear_screen : Output
  switched : ℕ → Output

pub record Tty : Type 0 where
  pub stdin : List ℕ
  pub tio : Termios
  pub termios_init : Bool
  pub active_vt : ℕ
  pub console : List Output

-- ISIG, ICANON and ECHO, and all the other settings 0.
abbrev pub first_tio : Termios
first_tio = record {
  c_iflag = 0;
  c_oflag = 0;
  c_cflag = 0;
  c_lflag = 11;
  c_line = 0;
  c_cc = λ _. 0;
}

abbrev pub is_canonical : Tty → Bool
is_canonical t = t.tio.c_lflag / 2 % 2 == 1

abbrev pub is_echoing : Tty → Bool
is_echoing t = t.tio.c_lflag / 8 % 2 == 1

-- VERASE, VEOF, VINTR, VMIN and VTIME.
abbrev pub default_cc : (ℕ → ℕ) → ℕ → ℕ
default_cc cc = update (update (update (update (update cc 2 8) 4 4) 0 3) 6 1) 5 0

pub ensure_defaults : Tty → Tty
ensure_defaults t =
    if t.termios_init
    then t
    else record t { termios_init = true; tio = record t.tio { c_cc = default_cc t.tio.c_cc } }

abbrev pub echo : ℕ → Tty → Tty
echo c t = if is_echoing t then record t { console = put c ∷ t.console } else t

-- Backspace, delete, or the character of VERASE where that is not 0.
abbrev pub is_erase : (erase c : ℕ) → Bool
is_erase erase c = (c == 8) || ((c == 127) || (not (erase == 0) && (c == erase)))

abbrev pub erase_char : Tty → ℕ
erase_char t = t.tio.c_cc 2

-- The line without its last character.
abbrev pub shorter : List ℕ → List ℕ
shorter [] = []
shorter (x ∷ []) = []
shorter (x ∷ (y ∷ ys)) = x ∷ shorter (y ∷ ys)

abbrev pub Waiting : Type 0
Waiting = Tty × List (List ℕ)

-- The bytes that a round of a loop finds, and what comes after it.
abbrev pub arrive : List ℕ → List (List ℕ) → List ℕ × List (List ℕ)
arrive stdin [] = (stdin, [])
arrive stdin (bytes ∷ arrivals) = (stdin ++ bytes, arrivals)

-- What is done with the first byte, or where there is none.
abbrev pub with_byte : {R : Type 0} → List ℕ → R → (ℕ → List ℕ → R) → R
with_byte [] wait take_it = wait
with_byte (c ∷ cs) wait take_it = take_it c cs

-- The loop of read_canonical; `line` is what is in the buffer. The interrupts of a round come before
-- it looks for a byte, while the processor is halted or, after the first `sti`, at any time. The
-- processor halts while there is no byte, for ever where no interrupt comes.
unfoldable pub read_line :
    ℕ
    → (len : ℕ) → (line stdin : List ℕ) → (arrivals : List (List ℕ)) → Tty
    → Run (List ℕ × Waiting)
read_line zero len line stdin arrivals t = out
read_line (suc fuel) len line stdin arrivals t =
    let (now, later) = arrive stdin arrivals in
    let halted : Run (List ℕ × Waiting) =
      if length arrivals == 0 then out else read_line fuel len line [] later t in
    let took : ℕ → List ℕ → Run (List ℕ × Waiting) = λ c cs.
      if is_erase (erase_char t) c
      then read_line fuel len (shorter line) cs later (if length line == 0 then t else echo 8 t)
      else if c == 10
      then done (line ++ c ∷ [], (record (echo c t) { stdin = cs }, later))
      else read_line fuel len (line ++ c ∷ []) cs later (echo c t) in
    if leb len (length line)
    then done (line, (record t { stdin = stdin }, arrivals))
    else with_byte now halted took

pub read_canonical : ℕ → (len : ℕ) → List (List ℕ) → Tty → Run (List ℕ × Waiting)
unfolding read_line
read_canonical fuel len arrivals t = read_line fuel len [] t.stdin arrivals t

-- The loop of read_raw that halts until there is a byte, and what it takes then.
pub await : (len : ℕ) → (stdin : List ℕ) → List (List ℕ) → Tty → Run (List ℕ × Waiting)
await len (c ∷ cs) arrivals t =
    done (take len (c ∷ cs), (record t { stdin = drop len (c ∷ cs) }, arrivals))
await len [] [] t = out
await len [] (bytes ∷ arrivals) t = await len bytes arrivals t

pub read_raw : (len : ℕ) → List (List ℕ) → Tty → Run (List ℕ × Waiting)
unfolding await
read_raw len arrivals t =
    if len == 0
    then done ([], (t, arrivals))
    else if (length t.stdin == 0) && (t.tio.c_cc 6 == 0)
    then done ([], (t, arrivals))
    else await len t.stdin arrivals t

pub read : ℕ → (len : ℕ) → List (List ℕ) → Tty → Run (List ℕ × Waiting)
unfolding ensure_defaults read_canonical read_raw
read fuel len arrivals t =
    let t = ensure_defaults t in
    if is_canonical t then read_canonical fuel len arrivals t else read_raw len arrivals t

pub write : List ℕ → Tty → ℕ × Tty
write bs t = (length bs, record t { console = text bs ∷ t.console })

-- What ioctl stores through its pointer.
pub data Answer : Type 0 where
  nothing : Answer
  window : (rows cols : ℕ) → Answer
  settings : Termios → Answer

-- `arg` is what the pointer leads to, none where it is null; `rows` and `cols` are the console's.
pub ioctl : (rows cols req : ℕ) → (arg : Option Termios) → Tty → ℤ × Answer × Tty
unfolding ensure_defaults
ioctl rows cols req arg t =
    let t = ensure_defaults t in
    elim arg [
      | none ↦ (negsuc 0, nothing, t)
      | some given ↦
          if req == 0x5413
          then (pos 0, window (rows % 65536) (cols % 65536), t)
          else if req == 0x5401
          then (pos 0, settings t.tio, t)
          else if (req == 0x5402) || ((req == 0x5403) || (req == 0x5404))
          then (pos 0, nothing, record t { tio = given })
          else (negsuc 0, nothing, t)
    ]

pub switch_vt : ℕ → Tty → Tty
switch_vt vt t =
    if ltb vt 1 || ltb 12 vt
    then t
    else record t { active_vt = vt; console = switched vt ∷ (clear_screen ∷ t.console) }
