-- ===== src/Gzip/Blocks/Grows.antt =====
-- What the inflater writes: only the bytes between the old and the new end of the output.
use los_tac_os.Base.{ℕ, zero, suc, ◌≤◌, ◌<◌, ◌≡◌, refl, ap, ◌∙◌, ltb, inl, inr, Bool-cases, arith}
use los_tac_os.Gzip.{State, add_byte, refill, get_bits}

-- From `s` to `t` only the bytes from the end of the output on are written, up to the new end,
-- which is not behind the capacity.
pub record Grows (s t : State) : Type 0 where
  pub capacity : t.out_len ≡ s.out_len
  pub forward : s.out_pos ≤ t.out_pos
  pub bounded : t.out_pos ≤ s.out_len
  pub before : (i : ℕ) → i < s.out_pos → t.output i ≡ s.output i
  pub behind : (i : ℕ) → t.out_pos ≤ i → t.output i ≡ s.output i

abbrev pub Room : State → Type 0
Room s = s.out_pos ≤ s.out_len

pub Grows-refl : {s : State} → Room s → Grows s s
Grows-refl h = record {
  capacity = refl;
  forward = omega arith;
  bounded = h;
  before = λ i k. refl;
  behind = λ i k. refl;
}

pub Grows-trans : {s t u : State} → Grows s t → Grows t u → Grows s u
Grows-trans g h = record {
  capacity = h.capacity ∙ g.capacity;
  forward = omega (arith, g.forward, h.forward);
  bounded = omega (arith, h.bounded, g.capacity);
  before = λ i k. h.before i (omega (arith, g.forward)) ∙ g.before i k;
  behind = λ i k. h.behind i k ∙ g.behind i (omega (arith, h.forward));
}

pub Grows-Room : {s t : State} → Grows s t → Room t
Grows-Room g = omega (arith, g.bounded, g.capacity)

-- The reading of input leaves the output alone.
pub record Reads (s t : State) : Type 0 where
  pub output : t.output ≡ s.output
  pub out_len : t.out_len ≡ s.out_len
  pub out_pos : t.out_pos ≡ s.out_pos

pub Reads-Grows : {s t : State} → Room s → Reads s t → Grows s t
Reads-Grows h r = record {
  capacity = r.out_len;
  forward = omega (arith, r.out_pos);
  bounded = omega (arith, r.out_pos);
  before = λ i k. ap (λ f. f i) r.output;
  behind = λ i k. ap (λ f. f i) r.output;
}

pub Reads-trans : {s t u : State} → Reads s t → Reads t u → Reads s u
Reads-trans q r = record {
  output = r.output ∙ q.output;
  out_len = r.out_len ∙ q.out_len;
  out_pos = r.out_pos ∙ q.out_pos;
}

add_byte-Reads : (s : State) → Reads s (add_byte s)
add_byte-Reads s = elim (Bool-cases (ltb s.in_pos s.in_len)) [
  | inl e ↦ rw e record { output = refl; out_len = refl; out_pos = refl }
  | inr e ↦ rw e record { output = refl; out_len = refl; out_pos = refl }
]

refill-Reads : (fuel n : ℕ) (s : State) → Reads s (refill fuel n s)
unfolding refill
refill-Reads zero n s = record { output = refl; out_len = refl; out_pos = refl }
refill-Reads (suc fuel) n s = elim (Bool-cases (ltb s.bitcnt n)) [
  | inl e ↦ rw e (Reads-trans (add_byte-Reads s) (refill-Reads fuel n (add_byte s)))
  | inr e ↦ rw e record { output = refl; out_len = refl; out_pos = refl }
]

pub get_bits-Reads : (n : ℕ) (s : State) → Reads s (get_bits n s).1
unfolding get_bits
get_bits-Reads n s =
    let r = refill-Reads n n s in
    record { output = r.output; out_len = r.out_len; out_pos = r.out_pos }
