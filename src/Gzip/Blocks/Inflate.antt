-- ===== src/Gzip/Blocks/Inflate.antt =====
-- inflate_block of src/lib/gzip.cpp: it ends, stays within its tables, and writes only behind the
-- old end of the output.
use los_tac_os.Base.{
  ℕ, zero, suc, ◌+◌, ◌-◌, ◌%◌, ◌≤◌, ◌<◌, ◌≡◌, ◌≢◌, refl, sym, Bool, true, false, ◌&&◌, ◌==◌, ltb,
  leb, if◌then◌else◌, Option, none, some, List, [], ◌∷◌, length, inl, inr, Bool-cases, arith,
}
use los_tac_os.Base.Run.{Run, done}
use los_tac_os.Gzip.{State, Huffman, get_bits, build_huffman}
use los_tac_os.Gzip.Decode.{IsTable, build_huffman-IsTable, decode_symbol-Decoded}
use los_tac_os.Gzip.Blocks.{
  entry, lens, lext, dists, dext, put_byte, copy_back, copy_far, copy_match, take_symbol,
  after_symbol, inflate_block,
}
use los_tac_os.Gzip.Blocks.Grows.{
  Grows, Room, Grows-refl, Grows-trans, Grows-Room, Reads, Reads-Grows, Reads-trans, get_bits-Reads,
}

pub put_byte-Grows : (b : ℕ) (s : State) → s.out_pos < s.out_len → Grows s (put_byte b s)
put_byte-Grows b s h = record {
  capacity = refl;
  forward = omega arith;
  bounded = omega arith;
  before = λ i k. ground arith;
  behind = λ i k. ground arith;
}

-- A copy that does not run into the end of the output is whole.
record Copied (len : ℕ) (s : State) (r : Bool × State) : Type 0 where
  grows : Grows s r.1
  whole : r.0 ≡ true → r.1.out_pos ≡ s.out_pos + len

copy_back-Copied : (len dist : ℕ) (s : State) → Room s → Copied len s (copy_back len dist s)
unfolding copy_back
copy_back-Copied zero dist s h = record { grows = Grows-refl h; whole = λ _. omega arith }
copy_back-Copied (suc len) dist s h = elim (Bool-cases (leb s.out_len s.out_pos)) [
  | inl full ↦ rw full record { grows = Grows-refl h; whole = λ e. absurd (cc e) }
  | inr space ↦
      let t = put_byte (s.output (s.out_pos - dist)) s in
      let g = put_byte-Grows (s.output (s.out_pos - dist)) s (ground arith) in
      let c = copy_back-Copied len dist t (Grows-Room g) in
      rw space record { grows = Grows-trans g c.grows; whole = λ e. omega (arith, c.whole e) }
]

abbrev positive : List ℕ → Bool
positive [] = true
positive (x ∷ xs) = ltb 0 x && positive xs

entry-positive : (xs : List ℕ) (i : ℕ) → positive xs ≡ true → i < length xs → 0 < entry xs i
entry-positive [] i h k = absurd (omega arith)
entry-positive (x ∷ xs) zero h k = ground arith
entry-positive (x ∷ xs) (suc i) h k = ground (arith, entry-positive xs i)

-- A result that, where it says so, made the output longer.
record Adds {A : Type 0} (more : A) (s : State) (r : A × State) : Type 0 where
  grows : Grows s r.1
  longer : r.0 ≡ more → s.out_pos < r.1.out_pos

after_reading :
    {A : Type 0} {more : A} {s t : State} {r : A × State}
    → Room s
    → Reads s t
    → Adds more t r
    → Adds more s r
after_reading h q a = record {
  grows = Grows-trans (Reads-Grows h q) a.grows;
  longer = λ e. omega (arith, a.longer e, q.out_pos);
}

unchanged : {A : Type 0} {more a : A} {s : State} → Room s → a ≢ more → Adds more s (a, s)
unchanged h k = record { grows = Grows-refl h; longer = λ e. absurd (k e) }

copy_far-Adds :
    (len : ℕ) (o : Option ℕ) (s : State) → 0 < len → Room s → Adds true s (copy_far len o s)
unfolding copy_far
copy_far-Adds len none s pos room = unchanged room (cc)
copy_far-Adds len (some dsym) s pos room =
    let (far, t) = get_bits (entry dext dsym) s in
    let q = get_bits-Reads (entry dext dsym) s in
    let room' = Grows-Room (Reads-Grows room q) in
    let dist = entry dists dsym + far in
    elim (Bool-cases (ltb 29 dsym)) [
      | inl high ↦ rw high (unchanged room (cc))
      | inr low ↦ rw low (elim (Bool-cases (ltb t.out_pos dist)) [
        | inl far_off ↦ rw far_off (after_reading room q (unchanged room' (cc)))
        | inr near ↦
            let c = copy_back-Copied len dist t room' in
            rw near (
              after_reading room q
                record { grows = c.grows; longer = λ e. omega (arith, c.whole e) })
      ])
    ]

-- A step that ends.
record Ends {A : Type 0} (more : A) (s : State) (m : Run (A × State)) : Type 0 where
  end : A × State
  ran : m ≡ done end
  adds : Adds more s end

copy_match-Ends :
    (sym : ℕ) (dh : Huffman) (s : State)
    → 257 ≤ sym
    → sym ≤ 285
    → IsTable dh
    → Room s
    → Ends true s (copy_match sym dh s)
unfolding copy_match
copy_match-Ends sym dh s lo hi table room =
    let (more, t) = get_bits (entry lext (sym - 257)) s in
    let len = entry lens (sym - 257) + more in
    let d = decode_symbol-Decoded dh t table in
    let q = Reads-trans (get_bits-Reads (entry lext (sym - 257)) s) d.reads in
    let pos = entry-positive lens (sym - 257) refl (omega arith) in
    rw d.ran record {
      end = copy_far len d.end.0 d.end.1;
      ran = refl;
      adds = after_reading room q (
          copy_far-Adds len d.end.0 d.end.1 (omega (arith, pos)) (Grows-Room (Reads-Grows room q)));
    }

go_on : (r : Bool × State) → (if r.0 then none else some false) ≡ none → r.0 ≡ true
go_on (true, s) e = refl
go_on (false, s) e = cc

take_symbol-Ends :
    (o : Option ℕ) (dh : Huffman) (s : State)
    → IsTable dh
    → Room s
    → Ends none s (take_symbol o dh s)
unfolding take_symbol
take_symbol-Ends none dh s table room = record {
  end = (some false, s);
  ran = refl;
  adds = unchanged room (cc);
}
take_symbol-Ends (some sym) dh s table room = elim (Bool-cases (ltb 285 sym)) [
  | inl high ↦ rw high record { end = (some false, s); ran = refl; adds = unchanged room (cc) }
  | inr valid ↦ rw valid (elim (Bool-cases (ltb sym 256)) [
    | inl literal ↦ rw literal (elim (Bool-cases (leb s.out_len s.out_pos)) [
      | inl full ↦ rw full record { end = (some false, s); ran = refl; adds = unchanged room (cc) }
      | inr space ↦ rw space record {
        end = (none, put_byte (sym % 256) s);
        ran = refl;
        adds = record {
          grows = put_byte-Grows (sym % 256) s (ground arith);
          longer = λ e. omega arith;
        };
      }
    ])
    | inr special ↦ rw special (elim (Bool-cases (sym == 256)) [
      | inl last ↦ rw last record { end = (some true, s); ran = refl; adds = unchanged room (cc) }
      | inr match ↦
          let m = copy_match-Ends sym dh s (ground arith) (ground arith) table room in
          rw (match, m.ran)
            record {
              end = (if m.end.0 then none else some false, m.end.1);
              ran = refl;
              adds = record { grows = m.adds.grows; longer = λ e. m.adds.longer (go_on m.end e) };
            }
    ])
  ])
]

abbrev pub Returned : State → Run (Bool × State) → Type 0
Returned s m = (r : Bool × State) × (m ≡ done r) × Grows s r.1

after_symbol-Returned :
    (again : State → Run (Bool × State)) (s : State)
    → ((u : State) → Grows s u → s.out_pos < u.out_pos → Returned u (again u))
    → (r : Option Bool × State) → Grows s r.1
    → (r.0 ≡ none → s.out_pos < r.1.out_pos)
    → Returned s (after_symbol again r)
after_symbol-Returned again s ih (none, u) g more =
    let (r, ran, h) = ih u g (more refl) in (r, ran, Grows-trans g h)
after_symbol-Returned again s ih (some b, u) g more = ((b, u), refl, g)

-- On tables that build_huffman made, with as much fuel as the output has room and one more,
-- inflate_block ends: every symbol that it goes on from has made the output longer.
pub inflate_block-Ends :
    (fuel : ℕ) (lh dh : Huffman) (s : State)
    → IsTable lh
    → IsTable dh
    → Room s
    → s.out_len < fuel + s.out_pos
    → Returned s (inflate_block fuel lh dh s)
unfolding inflate_block
inflate_block-Ends zero lh dh s lt dt room few = absurd (omega arith)
inflate_block-Ends (suc fuel) lh dh s lt dt room few =
    let d = decode_symbol-Decoded lh s lt in
    let g = Reads-Grows room d.reads in
    let t = take_symbol-Ends d.end.0 dh d.end.1 dt (Grows-Room g) in
    let g' = Grows-trans g t.adds.grows in
    let again : State → Run (Bool × State) = inflate_block fuel lh dh in
    let next : (r : Option Bool × State)
        → Grows s r.1
        → (r.0 ≡ none → s.out_pos < r.1.out_pos)
        → Returned s (after_symbol again r) =
      after_symbol-Returned again s λ u h more.
        inflate_block-Ends fuel lh dh u lt dt (Grows-Room h) (omega (arith, h.capacity)) in
    rw (d.ran, t.ran)
      (next t.end (Grows-trans g t.adds.grows)
        (λ e. omega (arith, t.adds.longer e, d.reads.out_pos)))

-- On tables that build_huffman made of at most 288 lengths, inflate_block ends, on any input,
-- within one symbol more than the output has room for bytes: it never goes past a table, writes
-- only from the old end of the output on, and not behind the capacity.
pub inflate_block-Grows :
    (lits dists : ℕ → ℕ) (hlit hdist : ℕ) {lh dh : Huffman} (s : State)
    → hlit ≤ 288
    → hdist ≤ 288
    → build_huffman lits hlit ≡ done lh
    → build_huffman dists hdist ≡ done dh
    → s.out_pos ≤ s.out_len
    → (r : Bool × State) × (inflate_block (s.out_len + 1) lh dh s ≡ done r) × Grows s r.1
inflate_block-Grows lits dists hlit hdist {lh} {dh} s a b built built' room =
    inflate_block-Ends (s.out_len + 1) lh dh s (build_huffman-IsTable lits hlit a built)
      (build_huffman-IsTable dists hdist b built') room (omega arith)
