-- ===== src/Strings/Fills.antt =====
-- memset, memcmp and memchr of src/lib/string.cpp.
use los_tac_os.Base.{
  ℕ, zero, suc, ◌+◌, ◌-◌, ◌*◌, ◌%◌, ◌≤◌, ◌≡◌, inl, inr, refl, sym, ap, ◌∙◌, ◌||◌, ◌==◌, Option,
  none, some, Bool-cases, leb, arith,
}
use los_tac_os.Base.Int.{ℤ, pos}
use los_tac_os.Strings.{
  Copy, fill, advance, fill_head, fill_burst, fill_bursts, fill_tail, memset, Compared, told, on,
  differ, compare_head, compare_words, compare_tail, memcmp,
}

-- Of the fill of `n` bytes from `d` in the memory `m`, all but `c.left` bytes are done.
record Filled (d v n : ℕ) (m : ℕ → ℕ) (c : Copy) : Type 0 where
  pub left : c.left ≤ n
  pub dest : c.dest + c.left ≡ d + n
  pub mem : (a : ℕ) → c.mem a ≡ fill (n - c.left) d v m a

fill_burst-fill : (j d v : ℕ) (m : ℕ → ℕ) (a : ℕ) → fill_burst j d v m a ≡ fill (8 * j) d v m a
unfolding fill_burst
fill_burst-fill zero d v m a = ground arith
fill_burst-fill (suc j) d v m a = fill_burst-fill j (d + 8) v (fill 8 d v m) a ∙ ground arith

Filled-step :
    (d v n : ℕ) (m : ℕ → ℕ) (c : Copy) (k : ℕ) (m' : ℕ → ℕ)
    → Filled d v n m c
    → k ≤ c.left
    → ((a : ℕ) → m' a ≡ fill k c.dest v c.mem a)
    → Filled d v n m (advance k m' c)
Filled-step d v n m c k m' h f e = record {
  left = ground (arith, h.left);
  dest = ground (arith, h.dest);
  mem = λ a. e a ∙ ground (arith, h.left, h.dest, h.mem a);
}

fill_head-Filled :
    (fuel d v n : ℕ) (m : ℕ → ℕ) (c : Copy) → Filled d v n m c → Filled d v n m (fill_head v fuel c)
unfolding fill_head
fill_head-Filled zero d v n m c h = h
fill_head-Filled (suc fuel) d v n m c h = elim (Bool-cases ((c.left == 0) || (c.dest % 8 == 0))) [
  | inl e ↦ rw e h
  | inr e ↦ rw e (
      fill_head-Filled fuel d v n m (advance 1 (fill 1 c.dest v c.mem) c)
        (Filled-step d v n m c 1 (fill 1 c.dest v c.mem) h (ground arith) (λ a. refl)))
]

fill_bursts-Filled :
    (j fuel d v n : ℕ) (m : ℕ → ℕ) (c : Copy)
    → Filled d v n m c
    → Filled d v n m (fill_bursts j v fuel c)
unfolding fill_bursts
fill_bursts-Filled j zero d v n m c h = h
fill_bursts-Filled j (suc fuel) d v n m c h = elim (Bool-cases (leb (8 * j) c.left)) [
  | inl e ↦
      let m' : ℕ → ℕ = fill_burst j c.dest v c.mem in
      rw e (
        fill_bursts-Filled j fuel d v n m (advance (8 * j) m' c) (
          Filled-step d v n m c (8 * j) m' h (ground arith)
            (λ a. fill_burst-fill j c.dest v c.mem a)))
  | inr e ↦ rw e h
]

fill_tail-done :
    (fuel d v n : ℕ) (m : ℕ → ℕ) (c : Copy)
    → Filled d v n m c
    → c.left ≤ fuel
    → (a : ℕ) → (fill_tail v fuel c).mem a ≡ fill n d v m a
unfolding fill_tail
fill_tail-done zero d v n m c h f a = ground (arith, h.mem a)
fill_tail-done (suc fuel) d v n m c h f a = elim (Bool-cases (c.left == 0)) [
  | inl e ↦ rw e (ground (arith, h.mem a))
  | inr e ↦ rw e (
      fill_tail-done fuel d v n m (advance 1 (fill 1 c.dest v c.mem) c)
        (Filled-step d v n m c 1 (fill 1 c.dest v c.mem) h (ground arith) (λ b. refl))
        (ground arith) a)
]

-- memset stores the value, cut to a byte, at the `n` addresses from `d` on, and changes no other.
pub memset-fill :
    (d value n : ℕ) (m : ℕ → ℕ) (a : ℕ) → memset d value n m a ≡ fill n d (value % 256) m a
unfolding memset
memset-fill d value n m a =
    let v : ℕ = value % 256 in
    let c0 : Copy = record { left = n; dest = d; from = 0; mem = m } in
    let h0 : Filled d v n m c0 = record {
      left = ground arith;
      dest = refl;
      mem = λ b. ground arith;
    } in
    let c1 : Copy = fill_head v n c0 in
    let h1 : Filled d v n m c1 = fill_head-Filled n d v n m c0 h0 in
    let c2 : Copy = fill_bursts 8 v n c1 in
    let h2 : Filled d v n m c2 = fill_bursts-Filled 8 n d v n m c1 h1 in
    let c3 : Copy = fill_bursts 1 v n c2 in
    let h3 : Filled d v n m c3 = fill_bursts-Filled 1 n d v n m c2 h2 in
    fill_tail-done n d v n m c3 h3 h3.left a

-- Two comparisons one after the other.
abbrev then_differ : Option ℤ → Option ℤ → Option ℤ
then_differ none q = q
then_differ (some r) q = some r

differ-add :
    (j k a b : ℕ) (m : ℕ → ℕ)
    → differ (j + k) a b m ≡ then_differ (differ j a b m) (differ k (a + j) (b + j) m)
unfolding differ
differ-add zero k a b m =
    let e : (x : ℕ) → x + 0 ≡ x = λ x. omega arith in
    let f : 0 + k ≡ k = omega arith in simp (e a, e b, f)
differ-add (suc j) k a b m =
    let e : suc j + k ≡ suc (j + k) = omega arith in
    let f : (x : ℕ) → x + suc j ≡ x + 1 + j = λ x. omega arith in
    rw (e, f a, f b)
      (elim (Bool-cases (m a == m b)) [
        | inl g ↦ rw g (differ-add j k (a + 1) (b + 1) m)
        | inr g ↦ rw g refl
      ])

-- The result of what is still to be compared.
abbrev verdict : Compared → (ℕ → ℕ) → Option ℤ
verdict (told r) m = some r
verdict (on n a b) m = differ n a b m

compare_head-verdict : (n a b : ℕ) (m : ℕ → ℕ) → verdict (compare_head n a b m) m ≡ differ n a b m
unfolding compare_head differ
compare_head-verdict zero a b m = refl
compare_head-verdict (suc n) a b m = ground (arith, compare_head-verdict n (a + 1) (b + 1) m)

compare_words-verdict :
    (fuel n a b : ℕ) (m : ℕ → ℕ) → verdict (compare_words fuel n a b m) m ≡ differ n a b m
unfolding compare_words
compare_words-verdict zero n a b m = refl
compare_words-verdict (suc fuel) n a b m = elim (Bool-cases (leb 8 n)) [
  | inr e ↦ rw e refl
  | inl e ↦
      let split : 8 + (n - 8) ≡ n = ground arith in
      rw e (
        word (compare_words-verdict fuel (n - 8) (a + 8) (b + 8) m) (differ 8 a b m)
        ∙ sym (differ-add 8 (n - 8) a b m)
        ∙ ap (λ k. differ k a b m) split)
]
  where
    word :
        (verdict (compare_words fuel (n - 8) (a + 8) (b + 8) m) m
          ≡ differ (n - 8) (a + 8) (b + 8) m)
        → (o : Option ℤ)
        → verdict
            (elim o [ none ↦ compare_words fuel (n - 8) (a + 8) (b + 8) m | some r ↦ told r ])
            m
          ≡ then_differ o (differ (n - 8) (a + 8) (b + 8) m)
    word h none = h
    word h (some r) = refl

-- memcmp, which compares bytes up to an aligned address, then words and bytes, is the difference
-- of the first two bytes that differ among the `n`, and 0 where none differ.
pub memcmp-differ :
    (a b n : ℕ) (m : ℕ → ℕ) → memcmp a b n m ≡ elim (differ n a b m) [ none ↦ pos 0 | some r ↦ r ]
unfolding memcmp compare_tail
memcmp-differ a b n m =
    finish (elim (compare_head n a b m) [ told r ↦ told r | on k x y ↦ compare_words n k x y m ])
      (go (compare_head n a b m) ∙ compare_head-verdict n a b m)
  where
    go :
        (c : Compared)
        → verdict (elim c [ told r ↦ told r | on k x y ↦ compare_words n k x y m ]) m ≡ verdict c m
    go (told r) = refl
    go (on k x y) = compare_words-verdict n k x y m

    finish :
        (c : Compared)
        → verdict c m ≡ differ n a b m
        → compare_tail c m ≡ elim (differ n a b m) [ none ↦ pos 0 | some r ↦ r ]
    finish (told r) e = rw⁻¹ e refl
    finish (on k x y) e = rw⁻¹ e refl
