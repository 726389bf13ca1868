-- ===== src/Kprintf/Buffer.antt =====
-- kvsnprintf, which writes into a buffer of `size` bytes, and kvprintf, which writes on the console.
pub mod Stored
use los_tac_os.Base.{
  ℕ, zero, suc, ◌+◌, ◌-◌, ◌%◌, ◌^◌, Bool, true, false, ◌==◌, ltb, if◌then◌else◌, List, [], ◌∷◌,
  length, update,
}
use los_tac_os.Base.Int.{ℤ, int32}
use los_tac_os.Base.Run.{Run, done, ◌>>=◌}
use los_tac_os.Kprintf.{Sink, format_loop}

-- `buf i` is the byte at `buf + i`.
pub record SnBuf : Type 0 where
  pub buf : ℕ → ℕ
  pub size : ℕ
  pub pos : ℕ

pub sn_putc : SnBuf → ℕ → SnBuf
sn_putc sb c =
    let next = (sb.pos + 1) % 2 ^ 64 in
    record {
      buf = if ltb next sb.size then update sb.buf sb.pos c else sb.buf;
      size = sb.size;
      pos = next;
    }

pub sn_unknown : SnBuf → ℕ → SnBuf
sn_unknown sb c = let sb' = sn_putc sb b'%' in if c == 0 then sb' else sn_putc sb' c

-- Strings are not flushed.
abbrev pub sn_sink : Sink SnBuf
sn_sink = record { put = sn_putc; flush = λ sb. sb; unknown = sn_unknown }

-- The byte 0 behind the text.
pub terminate : SnBuf → ℕ → ℕ
terminate sb =
    if ltb 0 sb.size
    then update sb.buf (if ltb sb.pos sb.size then sb.pos else sb.size - 1) 0
    else sb.buf

-- The fuel is one more than the length of the format.
pub kvsnprintf : (ℕ → List ℕ) → (ℕ → ℕ) → (ℕ → ℕ) → (size : ℕ) → List ℕ → Run ((ℕ → ℕ) × ℤ)
kvsnprintf texts args buf size fmt =
    let finish : SnBuf → Run ((ℕ → ℕ) × ℤ) = λ sb. done (terminate sb, int32 sb.pos) in
    let start : SnBuf = record { buf = buf; size = size; pos = 0 } in
    format_loop sn_sink texts args (suc (length fmt)) start fmt 0 >>= finish

-- console::put, framebuffer::swap and drivers::serial::vwritef on a state of the screen and the
-- serial line.
pub record Screen (S : Type 0) : Type 0 where
  pub put : S → ℕ → S
  pub swap : S → S
  pub vwritef : S → List ℕ → (ℕ → ℕ) → S

-- The switch of kvprintf has no default case.
abbrev pub console_sink : {S : Type 0} → Screen S → Sink S
console_sink screen = record { put = screen.put; flush = screen.swap; unknown = λ s c. s }

pub kvprintf : {S : Type 0} → Screen S → (ℕ → List ℕ) → (ℕ → ℕ) → List ℕ → S → Run S
kvprintf screen texts args fmt s =
    format_loop (console_sink screen) texts args (suc (length fmt)) (screen.vwritef s fmt args) fmt
      0
