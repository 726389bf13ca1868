-- ===== src/Gzip/Blocks/Stored.antt =====
-- A gzip member of one stored block, through decompress of src/lib/gzip.cpp.
use Prim.Native.Nat.{bit_or}
use los_tac_os.Base.{
  ℕ, zero, suc, ◌+◌, ◌*◌, ◌%◌, ◌≤◌, ◌<◌, ◌≡◌, refl, ap, ◌∙◌, true, false, ◌==◌, ltb, leb, some,
  update, update_self, update_ne, inl, inr, Bool-cases, lt→ltb, arith,
}
use los_tac_os.Base.Run.{done}
use los_tac_os.Gzip.{State, is_gzip, refill, get_bits}
use los_tac_os.Gzip.Blocks.{
  put_byte, stored_loop, stored_block, block, blocks, header_end, Inflated, first_state, decompress,
}

-- The header with no flags, a last stored block of `len` bytes, and a trailer of eight.
pub record IsStored (len : ℕ) (buf : ℕ → ℕ) : Type 0 where
  pub magic : buf 0 ≡ 0x1f
  pub magic_too : buf 1 ≡ 0x8b
  pub flags : buf 3 ≡ 0
  pub last_stored : buf 10 ≡ 1
  pub size : buf 11 + buf 12 * 256 ≡ len

pub is_gzip-stored : {len : ℕ} {buf : ℕ → ℕ} → IsStored len buf → is_gzip buf (15 + len + 8) ≡ true
unfolding is_gzip
is_gzip-stored {len} stored =
    let long : ltb (15 + len + 8) 10 ≡ false = ground arith in
    rw (long, stored.magic, stored.magic_too) refl

-- The bytes from `in_pos` on, `left` of them, behind the old end of the output.
record Appended (left : ℕ) (s t : State) : Type 0 where
  pos : t.out_pos ≡ s.out_pos + left
  before : (i : ℕ) → i < s.out_pos → t.output i ≡ s.output i
  bytes :
      (i j : ℕ)
      → s.out_pos ≤ i
      → i < s.out_pos + left
      → j + s.out_pos ≡ s.in_pos + i
      → t.output i ≡ s.input j

stored_loop-Appended :
    (left : ℕ) (s : State) → s.out_pos + left ≤ s.out_len → Appended left s (stored_loop left s)
unfolding stored_loop
stored_loop-Appended zero s room = record {
  pos = omega arith;
  before = λ i h. refl;
  bytes = λ i j h k e. absurd (omega arith);
}
stored_loop-Appended (suc left) s room =
    let s' : State = record (put_byte (s.input s.in_pos) s) { in_pos = s.in_pos + 1 } in
    let a = stored_loop-Appended left s' (omega arith) in
    let space : ltb s.out_pos s.out_len ≡ true = ground arith in
    let first : update s.output s.out_pos (s.input s.in_pos) s.out_pos ≡ s.input s.in_pos =
      update_self s.output s.out_pos (s.input s.in_pos) in
    rw space record {
      pos = omega (arith, a.pos);
      before = λ i h.
          a.before i (omega arith)
          ∙ update_ne s.output s.out_pos i (s.input s.in_pos) (λ e. absurd (omega arith));
      bytes = λ i j h k e. elim (Bool-cases (i == s.out_pos)) [
        | inl here ↦
            let at : i ≡ s.out_pos = ground arith in
            let from : s.in_pos ≡ j = omega (arith, at) in
            ap (stored_loop left s').output at
            ∙ a.before s.out_pos (omega arith)
            ∙ first
            ∙ ap s.input from
        | inr later ↦ a.bytes i j (ground arith) (omega arith) (omega arith)
      ];
    }

-- What decompress leaves: the bytes of the block, and their number.
pub record Restored (len : ℕ) (buf : ℕ → ℕ) (r : Inflated) : Type 0 where
  pub ok : r.ok ≡ ltb 0 len
  pub written : r.written ≡ some len
  pub bytes : (i : ℕ) → i < len → r.output i ≡ buf (15 + i)

-- The state behind the three bits of the header of the block.
module _ (len cap : ℕ) (buf dest : ℕ → ℕ) (stored : IsStored len buf) (small : len < 65536)
    (fits : len ≤ cap) where
  start : State
  start = first_state buf (15 + len + 8) 10 dest cap

  three_bits : ℕ → ℕ → State
  three_bits bits pos = record start { in_pos = pos; bitbuf = 0; bitcnt = bits }

  input_len : start.in_len ≡ len + 5
  unfolding start
  input_len = omega arith

  first_byte : bit_or 0 (buf 10 * 1 % 4294967296) ≡ 1
  first_byte = rw stored.last_stored refl

  final_bit : get_bits 1 start ≡ (1, three_bits 7 1)
  unfolding start three_bits get_bits refill
  final_bit =
      let space : ltb 0 start.in_len ≡ true = lt→ltb _ _ (omega (arith, input_len)) in
      rw (space, first_byte) refl

  type_bits : get_bits 2 (three_bits 7 1) ≡ (0, three_bits 5 1)
  unfolding start three_bits get_bits refill
  type_bits = refl

  stored_size : start.input 1 + start.input 2 * 256 ≡ len
  unfolding start
  stored_size = stored.size

  copied : State
  copied = stored_loop len (three_bits 0 5)

  block_bytes : stored_block (three_bits 5 1) ≡ (true, copied)
  unfolding stored_block copied three_bits
  block_bytes =
      let size : start.input 1 + start.input 2 * 256 ≡ len = stored_size in
      let header : ltb start.in_len 5 ≡ false = ground (arith, input_len) in
      let body : ltb start.in_len ((5 + len) % 18446744073709551616) ≡ false =
        ground (arith, input_len) in
      rw (size, header, body) refl

  one_block : (fuel : ℕ) → blocks (suc fuel) start ≡ done copied
  unfolding blocks block
  one_block fuel = rw (final_bit, type_bits, block_bytes) refl

  header_ends : header_end buf (15 + len + 8) ≡ some 10
  unfolding header_end
  header_ends =
      let long : leb (15 + len + 8) 10 ≡ false = ground arith in rw stored.flags (rw long refl)

  output : Inflated
  output = record {
    ok = ltb 0 copied.out_pos;
    output = copied.output;
    written = some copied.out_pos;
  }

  restored : Restored len buf output
  unfolding output copied three_bits start
  restored =
      let a = stored_loop-Appended len (three_bits 0 5) (omega (arith, fits)) in
      record {
        ok = ap (λ n. ltb 0 n) (omega (arith, a.pos));
        written = ap some (omega (arith, a.pos));
        bytes = λ i h.
            a.bytes i (5 + i) (omega arith) (omega arith) (omega arith) ∙ ap buf (omega arith);
      }

  -- A member with no flags and one stored block of `len` bytes, fewer than 65536 and no more than
  -- the buffer has room for, is decompressed to those bytes: `*dest_size` is their number, and the
  -- result says whether there are any. One block's fuel is enough.
  pub decompress-stored :
      (fuel : ℕ)
      → (r : Inflated) × (decompress (suc fuel) buf (15 + len + 8) dest (some cap) ≡ done r)
        × Restored len buf r
  unfolding decompress is_gzip output start
  decompress-stored fuel =
      let long : ltb (15 + len + 8) 10 ≡ false = ground arith in
      rw (long, stored.magic, stored.magic_too, header_ends, one_block fuel)
        (output, refl, restored)
