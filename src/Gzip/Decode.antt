-- ===== src/Gzip/Decode.antt =====
-- The Huffman tables of src/lib/gzip.cpp: what build_huffman makes, and that decode_symbol stays
-- within it.
use los_tac_os.Base.{
  ℕ, zero, suc, ◌+◌, ◌-◌, ◌*◌, ◌≤◌, ◌<◌, ◌≡◌, refl, ap, true, ◌==◌, ltb, leb, Option, none, some,
  update, inl, inr, Bool-cases, ltb→lt, ltb→ge, arith,
}
use los_tac_os.Base.Run.{Run, done, fault, out, >>=-eq-done}
use los_tac_os.Gzip.{
  State, Huffman, get_bits, count_loop, offsets_loop, place_loop, build_huffman, decode_loop,
  decode_symbol,
}
use los_tac_os.Gzip.Blocks.Grows.{Reads, Reads-trans, get_bits-Reads}

-- The number of codes of the lengths from `len` on, `left` of them.
pub total : (left len : ℕ) → (ℕ → ℕ) → ℕ
total zero len counts = 0
total (suc left) len counts = counts len + total left (len + 1) counts

-- A table has no more codes than symbols.
abbrev pub IsTable : Huffman → Type 0
IsTable h = total 15 1 h.counts ≤ 288

total_zero : (left len : ℕ) → total left len (λ _. 0) ≡ 0
unfolding total
total_zero zero len = refl
total_zero (suc left) len = omega (arith, total_zero left (len + 1))

total_above :
    (left len n v : ℕ) (counts : ℕ → ℕ)
    → n < len
    → total left len (update counts n v) ≡ total left len counts
unfolding total
total_above zero len n v counts h = refl
total_above (suc left) len n v counts h = ground (arith, total_above left (len + 1) n v counts)

total-update :
    (left len n : ℕ) (counts : ℕ → ℕ)
    → total left len (update counts n (counts n + 1)) ≤ total left len counts + 1
unfolding total
total-update zero len n counts = omega arith
total-update (suc left) len n counts = elim (Bool-cases (len == n)) [
  | inl e ↦ ground (arith, total_above left (len + 1) n (counts n + 1) counts)
  | inr e ↦ ground (arith, total-update left (len + 1) n counts)
]

count_loop-total :
    (left i : ℕ) (lengths counts : ℕ → ℕ) {c : ℕ → ℕ}
    → count_loop left i lengths counts ≡ done c
    → total 15 1 c ≤ total 15 1 counts + left
unfolding count_loop
count_loop-total zero i lengths counts {c} h =
    let e : counts ≡ c = cc in omega (arith, ap (total 15 1) e)
count_loop-total (suc left) i lengths counts {c} h = elim (Bool-cases (lengths i == 0)) [
  | inl e ↦ omega (arith, count_loop-total left (i + 1) lengths counts (rw e at h))
  | inr e ↦
      let counts' = update counts (lengths i) (counts (lengths i) + 1) in
      elim (Bool-cases (ltb (lengths i) 16)) [
        | inl f ↦ omega (
          arith,
          count_loop-total left (i + 1) lengths counts' (rw (e, f) at h),
          total-update 15 1 (lengths i) counts,
        )
        | inr f ↦ let bad = rw (e, f) at h in cc
      ]
]

abbrev counts_of : Run Huffman → ℕ → ℕ
counts_of (done h) = h.counts
counts_of fault = λ _. 0
counts_of out = λ _. 0

-- A table that build_huffman makes of at most 288 lengths has room for its codes.
pub build_huffman-IsTable :
    (lengths : ℕ → ℕ) (num : ℕ) {h : Huffman}
    → num ≤ 288
    → build_huffman lengths num ≡ done h
    → IsTable h
unfolding build_huffman
build_huffman-IsTable lengths num {h} few e =
    let (counts, counted, e') = >>=-eq-done (count_loop num 0 lengths (λ _. 0)) _ e in
    let (symbols, placed, e'') =
      >>=-eq-done (place_loop num 0 lengths (offsets_loop 14 1 counts (λ _. 0)) (λ _. 0)) _ e' in
    let same : counts ≡ h.counts = ap counts_of e'' in
    omega (
      arith,
      ap (total 15 1) same,
      count_loop-total num 0 lengths (λ _. 0) counted,
      total_zero 15 1,
    )

-- decode_symbol: it ends, and leaves the output as it was.
pub record Decoded (s : State) (m : Run (Option ℕ × State)) : Type 0 where
  pub end : Option ℕ × State
  pub ran : m ≡ done end
  pub reads : Reads s end.1

decode_loop-Decoded :
    (left len code first index : ℕ) (h : Huffman) (s : State)
    → index + total left len h.counts ≤ 288
    → first ≤ code * 2
    → Decoded s (decode_loop left len code first index h s)
unfolding decode_loop total
decode_loop-Decoded zero len code first index h s few le = record {
  end = (none, s);
  ran = refl;
  reads = record { output = refl; out_len = refl; out_pos = refl };
}
decode_loop-Decoded (suc left) len code first index h s few le =
    let b = get_bits 1 s in
    let c = code * 2 + b.0 in
    let count = h.counts len in
    elim (Bool-cases (ltb c (first + count))) [
      | inl found ↦
          let low : leb first (index + c) ≡ true = ground arith in
          let high : ltb (index + c - first) 288 ≡ true = ground (arith, ltb→lt _ _ found) in
          rw (found, low, high)
            record {
              end = (some (h.symbols (index + c - first)), b.1);
              ran = refl;
              reads = get_bits-Reads 1 s;
            }
      | inr longer ↦
          let d =
            decode_loop-Decoded left (len + 1) c ((first + count) * 2) (index + count) h b.1
              (omega arith) (omega (arith, ltb→ge _ _ longer)) in
          rw longer
            record { end = d.end; ran = d.ran; reads = Reads-trans (get_bits-Reads 1 s) d.reads }
    ]

-- On a table with room for its codes decode_symbol never goes past the symbols.
pub decode_symbol-Decoded : (h : Huffman) (s : State) → IsTable h → Decoded s (decode_symbol h s)
unfolding decode_symbol
decode_symbol-Decoded h s few =
    decode_loop-Decoded 15 1 0 0 0 h s (omega (arith, few)) (omega arith)
