-- ===== src/Gzip/Blocks.antt =====
-- The blocks of src/lib/gzip.cpp and decompress.
pub mod Grows
pub mod Inflate
pub mod Stored
use los_tac_os.Base.{
  ℕ, zero, suc, ◌+◌, ◌-◌, ◌*◌, ◌/◌, ◌%◌, ◌^◌, Bool, true, false, ◌&&◌, ◌||◌, not, ◌==◌, ltb, leb,
  if◌then◌else◌, Option, none, some, List, [], ◌∷◌, update,
}
use los_tac_os.Base.Run.{Run, done, fault, out, ◌>>=◌}
use los_tac_os.Gzip.{State, Huffman, is_gzip, get_bits, build_huffman, decode_symbol}

-- The i-th entry of a table of the code.
abbrev pub entry : List ℕ → ℕ → ℕ
entry [] i = 0
entry (x ∷ xs) zero = x
entry (x ∷ xs) (suc i) = entry xs i

abbrev pub lens : List ℕ
lens =
    3 ∷ 4 ∷ 5 ∷ 6 ∷ 7 ∷ 8 ∷ 9 ∷ 10 ∷ 11 ∷ 13 ∷ 15 ∷ 17 ∷ 19 ∷ 23 ∷ 27 ∷ 31 ∷ 35 ∷ 43 ∷ 51 ∷ 59 ∷ 67
    ∷ 83 ∷ 99 ∷ 115 ∷ 131 ∷ 163 ∷ 195 ∷ 227 ∷ 258 ∷ []

abbrev pub lext : List ℕ
lext =
    0 ∷ 0 ∷ 0 ∷ 0 ∷ 0 ∷ 0 ∷ 0 ∷ 0 ∷ 1 ∷ 1 ∷ 1 ∷ 1 ∷ 2 ∷ 2 ∷ 2 ∷ 2 ∷ 3 ∷ 3 ∷ 3 ∷ 3 ∷ 4 ∷ 4 ∷ 4 ∷ 4
    ∷ 5 ∷ 5 ∷ 5 ∷ 5 ∷ 0 ∷ []

abbrev pub dists : List ℕ
dists =
    1 ∷ 2 ∷ 3 ∷ 4 ∷ 5 ∷ 7 ∷ 9 ∷ 13 ∷ 17 ∷ 25 ∷ 33 ∷ 49 ∷ 65 ∷ 97 ∷ 129 ∷ 193 ∷ 257 ∷ 385 ∷ 513 ∷ 769
    ∷ 1025 ∷ 1537 ∷ 2049 ∷ 3073 ∷ 4097 ∷ 6145 ∷ 8193 ∷ 12289 ∷ 16385 ∷ 24577 ∷ []

abbrev pub dext : List ℕ
dext =
    0 ∷ 0 ∷ 0 ∷ 0 ∷ 1 ∷ 1 ∷ 2 ∷ 2 ∷ 3 ∷ 3 ∷ 4 ∷ 4 ∷ 5 ∷ 5 ∷ 6 ∷ 6 ∷ 7 ∷ 7 ∷ 8 ∷ 8 ∷ 9 ∷ 9 ∷ 10 ∷ 10
    ∷ 11 ∷ 11 ∷ 12 ∷ 12 ∷ 13 ∷ 13 ∷ []

abbrev pub put_byte : ℕ → State → State
put_byte b s = record s { output = update s.output s.out_pos b; out_pos = s.out_pos + 1 }

-- The copy of `len` bytes from `dist` bytes back; `false` means that the output is full.
pub copy_back : (len dist : ℕ) → State → Bool × State
copy_back zero dist s = (true, s)
copy_back (suc len) dist s =
    let rest = copy_back len dist (put_byte (s.output (s.out_pos - dist)) s) in
    if leb s.out_len s.out_pos then (false, s) else rest

-- The second half of a match, at the symbol of its distance.
pub copy_far : ℕ → Option ℕ → State → Bool × State
copy_far len none s = (false, s)
copy_far len (some dsym) s =
    let (far, t) = get_bits (entry dext dsym) s in
    let dist = entry dists dsym + far in
    if ltb 29 dsym
    then (false, s)
    else if ltb t.out_pos dist
    then (false, t)
    else copy_back len dist t

-- What follows a symbol above 256: the length, and the distance by its own table.
pub copy_match : ℕ → Huffman → State → Run (Bool × State)
copy_match sym dh s =
    let (more, t) = get_bits (entry lext (sym - 257)) s in
    let len = entry lens (sym - 257) + more in
    let copy : Option ℕ × State → Run (Bool × State) = λ r. done (copy_far len r.0 r.1) in
    decode_symbol dh t >>= copy

-- What inflate_block does with a symbol; `none` says that the loop goes on.
pub take_symbol : Option ℕ → Huffman → State → Run (Option Bool × State)
take_symbol none dh s = done (some false, s)
take_symbol (some sym) dh s =
    let next : Bool × State → Run (Option Bool × State) =
      λ r. done (if r.0 then none else some false, r.1) in
    if ltb 285 sym
    then done (some false, s)
    else if ltb sym 256
    then (if leb s.out_len s.out_pos
        then done (some false, s)
        else done (none, put_byte (sym % 256) s))
    else if sym == 256
    then done (some true, s)
    else copy_match sym dh s >>= next

-- The loop goes on, or returns.
abbrev pub after_symbol : (State → Run (Bool × State)) → Option Bool × State → Run (Bool × State)
after_symbol again (none, s) = again s
after_symbol again (some b, s) = done (b, s)

pub inflate_block : ℕ → Huffman → Huffman → State → Run (Bool × State)
inflate_block zero lh dh s = out
inflate_block (suc fuel) lh dh s =
    let again : State → Run (Bool × State) = inflate_block fuel lh dh in
    let taken : Option ℕ × State → Run (Bool × State) =
      λ r. take_symbol r.0 dh r.1 >>= after_symbol again in
    decode_symbol lh s >>= taken

-- A stored block; `false` means that the loop over the blocks is left.
pub stored_loop : ℕ → State → State
stored_loop zero s = s
stored_loop (suc left) s =
    let rest =
      stored_loop left (record (put_byte (s.input s.in_pos) s) { in_pos = s.in_pos + 1 }) in
    if ltb s.out_pos s.out_len then rest else s

pub stored_block : State → Bool × State
stored_block s =
    let t : State = record s { bitbuf = 0; bitcnt = 0 } in
    let len = t.input t.in_pos + t.input (t.in_pos + 1) * 256 in
    let u : State = record t { in_pos = t.in_pos + 4 } in
    if ltb t.in_len ((t.in_pos + 4) % 2 ^ 64)
    then (false, t)
    else if ltb u.in_len ((u.in_pos + len) % 2 ^ 64)
    then (false, u)
    else (true, stored_loop len u)

abbrev pub fixed_lengths : ℕ → ℕ
fixed_lengths i = if ltb i 144 then 8 else if ltb i 256 then 9 else if ltb i 280 then 7 else 8

abbrev pub fixed_block : ℕ → State → Run (Bool × State)
fixed_block fuel s =
    let inflate : Huffman → Huffman → Run (Bool × State) = λ lh dh. inflate_block fuel lh dh s in
    let with_lh : Huffman → Run (Bool × State) = λ lh. build_huffman (λ _. 5) 32 >>= inflate lh in
    build_huffman fixed_lengths 288 >>= with_lh

abbrev pub clorder : List ℕ
clorder = 16 ∷ 17 ∷ 18 ∷ 0 ∷ 8 ∷ 7 ∷ 9 ∷ 6 ∷ 10 ∷ 5 ∷ 11 ∷ 4 ∷ 12 ∷ 3 ∷ 13 ∷ 2 ∷ 14 ∷ 1 ∷ 15 ∷ []

pub read_clens : (left i : ℕ) → (ℕ → ℕ) → State → (ℕ → ℕ) × State
read_clens zero i clens s = (clens, s)
read_clens (suc left) i clens s =
    let (len, s') = get_bits 3 s in read_clens left (i + 1) (update clens (entry clorder i) len) s'

-- The code lengths read so far: `num` of the array of 320 bytes.
pub record Lengths : Type 0 where
  pub lengths : ℕ → ℕ
  pub num : ℕ
  pub state : State

-- `lengths[num++] = v`, `k` times.
pub repeat_length : (k v : ℕ) → Lengths → Run Lengths
repeat_length zero v l = done l
repeat_length (suc k) v l =
    let rest =
      repeat_length k v (record l { lengths = update l.lengths l.num v; num = l.num + 1 }) in
    if ltb l.num 320 then rest else fault

-- What a symbol of the code lengths stands for; -1 is stored as the byte 255.
pub take_length : Option ℕ → Lengths → Run Lengths
take_length none l = repeat_length 1 255 l
take_length (some sym) l =
    let (two, s2) = get_bits 2 l.state in
    let (three, s3) = get_bits 3 l.state in
    let (seven, s7) = get_bits 7 l.state in
    if ltb sym 16
    then repeat_length 1 sym l
    else if sym == 16
    then repeat_length (two + 3) (if ltb 0 l.num then l.lengths (l.num - 1) else 0)
        (record l { state = s2 })
    else if sym == 17
    then repeat_length (three + 3) 0 (record l { state = s3 })
    else if sym == 18
    then repeat_length (seven + 11) 0 (record l { state = s7 })
    else done l

pub read_lengths : (fuel total : ℕ) → Huffman → Lengths → Run Lengths
read_lengths zero total ch l = out
read_lengths (suc fuel) total ch l =
    let again : Lengths → Run Lengths = read_lengths fuel total ch in
    let next : Option ℕ × State → Run Lengths =
      λ r. take_length r.0 (record l { state = r.1 }) >>= again in
    if ltb l.num total then decode_symbol ch l.state >>= next else done l

abbrev pub dynamic_block : ℕ → State → Run (Bool × State)
dynamic_block fuel s =
    let (a, s1) = get_bits 5 s in
    let hlit = a + 257 in
    let (b, s2) = get_bits 5 s1 in
    let hdist = b + 1 in
    let (c, s3) = get_bits 4 s2 in
    let (clens, s4) = read_clens (c + 4) 0 (λ _. 0) s3 in
    let start : Lengths = record { lengths = λ _. 0; num = 0; state = s4 } in
    let inflate : Lengths → Huffman → Huffman → Run (Bool × State) =
      λ l lh dh. inflate_block fuel lh dh l.state in
    let with_lh : Lengths → Huffman → Run (Bool × State) =
      λ l lh. build_huffman (λ i. l.lengths (hlit + i)) hdist >>= inflate l lh in
    let with_lengths : Lengths → Run (Bool × State) =
      λ l. build_huffman l.lengths hlit >>= with_lh l in
    let with_ch : Huffman → Run (Bool × State) =
      λ ch. read_lengths 321 (hlit + hdist) ch start >>= with_lengths in
    build_huffman clens 19 >>= with_ch

pub block : (fuel btype : ℕ) → State → Run (Bool × State)
block fuel btype s =
    if btype == 0
    then done (stored_block s)
    else if btype == 1
    then fixed_block fuel s
    else if btype == 2
    then dynamic_block fuel s
    else done (false, s)

-- The loop over the blocks.
pub blocks : ℕ → State → Run State
blocks zero s = out
blocks (suc fuel) s =
    let (final_block, s1) = get_bits 1 s in
    let (btype, s2) = get_bits 2 s1 in
    let again : State → Run State = blocks fuel in
    let next : Bool × State → Run State =
      λ r. if r.0 && (final_block == 0) then again r.1 else done r.1 in
    block (s2.out_len + 1) btype s2 >>= next

-- FNAME and FCOMMENT: behind the next byte 0.
pub skip_text : ℕ → (ℕ → ℕ) → (size offset : ℕ) → ℕ
skip_text zero buf size offset = offset + 1
skip_text (suc fuel) buf size offset =
    let rest = skip_text fuel buf size (offset + 1) in
    if ltb offset size && not (buf offset == 0) then rest else offset + 1

abbrev pub has_flag : ℕ → ℕ → Bool
has_flag flags bit = flags / bit % 2 == 1

-- The start of the blocks, if the header is complete.
pub header_end : (ℕ → ℕ) → ℕ → Option ℕ
header_end buf size =
    let flags = buf 3 in
    let extra = has_flag flags 4 in
    let a = if extra then 12 + (buf 10 + buf 11 * 256) else 10 in
    let b = if has_flag flags 8 then skip_text size buf size a else a in
    let c = if has_flag flags 16 then skip_text size buf size b else b in
    let d = if has_flag flags 2 then c + 2 else c in
    if extra && ltb size 12 then none else if leb size d then none else some d

-- `ok` is what decompress returns, `written` the new value of `*dest_size`.
pub record Inflated : Type 0 where
  pub ok : Bool
  pub output : ℕ → ℕ
  pub written : Option ℕ

abbrev pub capacity : Option ℕ → ℕ
capacity none = 0xFFFFFFFF
capacity (some n) = n

abbrev pub first_state : (ℕ → ℕ) → (src_size offset : ℕ) → (ℕ → ℕ) → ℕ → State
first_state buf src_size offset dest cap = record {
  input = λ i. buf (offset + i);
  in_len = (src_size - offset + (2 ^ 64 - 8)) % 2 ^ 64;
  in_pos = 0;
  bitbuf = 0;
  bitcnt = 0;
  output = dest;
  out_len = cap;
  out_pos = 0;
}

-- `if (dest_size) *dest_size = s.out_pos`.
abbrev pub new_size : Option ℕ → ℕ → Option ℕ
new_size none pos = none
new_size (some n) pos = some pos

-- A null `dest_size` is `none`; the fuel is for the blocks.
pub decompress : (fuel : ℕ) → (ℕ → ℕ) → (src_size : ℕ) → (ℕ → ℕ) → Option ℕ → Run Inflated
decompress fuel buf src_size dest dest_size =
    let refused : Inflated = record { ok = false; output = dest; written = dest_size } in
    let finish : State → Run Inflated = λ s.
      done record {
        ok = ltb 0 s.out_pos;
        output = s.output;
        written = new_size dest_size s.out_pos;
      } in
    if is_gzip buf src_size
    then elim (header_end buf src_size) [
      | none ↦ done refused
      | some offset ↦
          blocks fuel (first_state buf src_size offset dest (capacity dest_size)) >>= finish
    ]
    else done refused
