-- ===== src/Gzip.antt =====
-- The inflater of src/lib/gzip.cpp: the bits of the input, the Huffman tables, and the symbols. The
-- input and the output are bytes by their index; a result is a Run, which is a fault where the code
-- would go past one of its arrays.
pub mod Blocks
pub mod Decode
mod Tests
use Prim.Native.Nat.{bit_or}
use los_tac_os.Base.{
  ℕ, zero, suc, ◌+◌, ◌-◌, ◌*◌, ◌/◌, ◌%◌, ◌^◌, Bool, true, false, ◌&&◌, ◌||◌, not, ◌==◌, ltb, leb,
  if◌then◌else◌, Option, none, some, update,
}
use los_tac_os.Base.Run.{Run, done, fault, ◌>>=◌}

pub is_gzip : (ℕ → ℕ) → ℕ → Bool
is_gzip buf size = if ltb size 10 then false else (buf 0 == 0x1f) && (buf 1 == 0x8b)

pub record State : Type 0 where
  pub input : ℕ → ℕ
  pub in_len : ℕ
  pub in_pos : ℕ
  pub bitbuf : ℕ
  pub bitcnt : ℕ
  pub output : ℕ → ℕ
  pub out_len : ℕ
  pub out_pos : ℕ

-- One round of the loop of get_bits: behind the end of the input the bits are zeros.
abbrev pub add_byte : State → State
add_byte s =
    record (if ltb s.in_pos s.in_len
      then record s {
        bitbuf = bit_or s.bitbuf (s.input s.in_pos * 2 ^ s.bitcnt % 2 ^ 32);
        in_pos = s.in_pos + 1;
      }
      else s) { bitcnt = s.bitcnt + 8 }

-- The loop of get_bits; `n` rounds are enough, since each adds eight bits.
pub refill : (fuel n : ℕ) → State → State
refill zero n s = s
refill (suc fuel) n s = let rest = refill fuel n (add_byte s) in if ltb s.bitcnt n then rest else s

pub get_bits : ℕ → State → ℕ × State
get_bits n s =
    let t = refill n n s in
    (t.bitbuf % 2 ^ n, record t { bitbuf = t.bitbuf / 2 ^ n; bitcnt = t.bitcnt - n })

pub record Huffman : Type 0 where
  pub counts : ℕ → ℕ
  pub symbols : ℕ → ℕ

-- The first loop of build_huffman, from the i-th length on.
pub count_loop : (left i : ℕ) → (ℕ → ℕ) → (ℕ → ℕ) → Run (ℕ → ℕ)
count_loop zero i lengths counts = done counts
count_loop (suc left) i lengths counts =
    let n = lengths i in
    let skipped = count_loop left (i + 1) lengths counts in
    let counted = count_loop left (i + 1) lengths (update counts n (counts n + 1)) in
    if n == 0 then skipped else if ltb n 16 then counted else fault

-- The second loop, from the i-th offset on.
pub offsets_loop : (left i : ℕ) → (ℕ → ℕ) → (ℕ → ℕ) → ℕ → ℕ
offsets_loop zero i counts offsets = offsets
offsets_loop (suc left) i counts offsets =
    offsets_loop left (i + 1) counts (update offsets (i + 1) (offsets i + counts i))

-- The third loop, from the i-th length on.
pub place_loop : (left i : ℕ) → (ℕ → ℕ) → (ℕ → ℕ) → (ℕ → ℕ) → Run (ℕ → ℕ)
place_loop zero i lengths offsets symbols = done symbols
place_loop (suc left) i lengths offsets symbols =
    let n = lengths i in
    let skipped = place_loop left (i + 1) lengths offsets symbols in
    let placed =
      place_loop left (i + 1) lengths (update offsets n (offsets n + 1))
        (update symbols (offsets n) i) in
    if n == 0 then skipped else if ltb n 16 && ltb (offsets n) 288 then placed else fault

-- What the code leaves unset is 0 here; it is never read.
pub build_huffman : (ℕ → ℕ) → ℕ → Run Huffman
build_huffman lengths num =
    let table : (ℕ → ℕ) → (ℕ → ℕ) → Run Huffman =
      λ counts symbols. done record { counts = counts; symbols = symbols } in
    let place : (ℕ → ℕ) → Run Huffman = λ counts.
      place_loop num 0 lengths (offsets_loop 14 1 counts (λ _. 0)) (λ _. 0) >>= table counts in
    count_loop num 0 lengths (λ _. 0) >>= place

-- The loop of decode_symbol with `left` lengths to go; `none` is -1.
pub decode_loop : (left len code first index : ℕ) → Huffman → State → Run (Option ℕ × State)
decode_loop zero len code first index h s = done (none, s)
decode_loop (suc left) len code first index h s =
    let (bit, s') = get_bits 1 s in
    let c = code * 2 + bit in
    let count = h.counts len in
    let at = index + c - first in
    let longer = decode_loop left (len + 1) c ((first + count) * 2) (index + count) h s' in
    if ltb c (first + count)
    then (if leb first (index + c) && ltb at 288 then done (some (h.symbols at), s') else fault)
    else longer

pub decode_symbol : Huffman → State → Run (Option ℕ × State)
decode_symbol h s = decode_loop 15 1 0 0 0 h s
