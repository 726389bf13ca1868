-- ===== src/Gzip/Tests.antt =====
-- A gzip member that holds the two bytes "hi", and a table of two codes.
use los_tac_os.Base.{ℕ, ◌+◌, ◌≡◌, refl, Bool, some, [], ◌∷◌, arith}
use los_tac_os.Base.Run.{done}
use los_tac_os.Gzip.{State, Huffman, build_huffman, count_loop, offsets_loop, place_loop}
use los_tac_os.Gzip.Blocks.{entry, inflate_block, Inflated, decompress}
use los_tac_os.Gzip.Blocks.Grows.{Grows}
use los_tac_os.Gzip.Blocks.Inflate.{inflate_block-Grows}
use los_tac_os.Gzip.Blocks.Stored.{IsStored, Restored, decompress-stored}

abbrev member : ℕ → ℕ
member = entry (
    0x1f ∷ 0x8b ∷ 8 ∷ 0 ∷ 0 ∷ 0 ∷ 0 ∷ 0 ∷ 0 ∷ 255 ∷ 1 ∷ 2 ∷ 0 ∷ 253 ∷ 255 ∷ b'h' ∷ b'i' ∷ 0xac
    ∷ 0x2a ∷ 0x93 ∷ 0xd8 ∷ 2 ∷ 0 ∷ 0 ∷ 0 ∷ [])

abbrev blank : ℕ → ℕ
blank i = 0

member-IsStored : IsStored 2 member
member-IsStored = record {
  magic = refl;
  magic_too = refl;
  flags = refl;
  last_stored = refl;
  size = refl;
}

decompress-stored_example :
    (r : Inflated) × (decompress 1 member (15 + 2 + 8) blank (some 100) ≡ done r)
    × Restored 2 member r
decompress-stored_example =
    decompress-stored 2 100 member blank member-IsStored (omega arith) (omega arith) 0

-- Two codes of one bit each.
coin_built : (h : Huffman) × (build_huffman (λ i. 1) 2 ≡ done h)
unfolding build_huffman count_loop offsets_loop place_loop
coin_built = (_, refl)

abbrev reading : State
reading = record {
  input = λ i. 0;
  in_len = 9;
  in_pos = 0;
  bitbuf = 0;
  bitcnt = 0;
  output = blank;
  out_len = 4;
  out_pos = 0;
}

inflate_block-Grows_example :
    (r : Bool × State) × (inflate_block (4 + 1) coin_built.0 coin_built.0 reading ≡ done r)
    × Grows reading r.1
inflate_block-Grows_example =
    inflate_block-Grows (λ i. 1) (λ i. 1) 2 2 reading (omega arith) (omega arith) coin_built.1
      coin_built.1 (omega arith)
