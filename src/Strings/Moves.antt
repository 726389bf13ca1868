-- ===== src/Strings/Moves.antt =====
-- memcpy and memmove of src/lib/string.cpp.
use los_tac_os.Base.{
  ℕ, zero, suc, ◌+◌, ◌-◌, ◌*◌, ◌%◌, ◌≤◌, ◌≡◌, ◌⊎◌, inl, inr, refl, ◌∙◌, ◌||◌, ◌==◌, Bool-cases, ltb,
  leb, arith,
}
use los_tac_os.Strings.{
  Copy, move, advance, copy_head, burst, copy_bursts, copy_tail, memcpy, move_down, memmove,
}

-- A copy of `n` bytes from `s` to `d` may go upwards.
abbrev Upward : ℕ → ℕ → ℕ → Type 0
Upward d s n = (d ≤ s) ⊎ (s + n ≤ d)

-- Of the copy of `n` bytes from `s` to `d` in the memory `m`, all but `c.left` bytes are done.
record Halfway (d s n : ℕ) (m : ℕ → ℕ) (c : Copy) : Type 0 where
  pub left : c.left ≤ n
  pub dest : c.dest + c.left ≡ d + n
  pub from : c.from + c.left ≡ s + n
  pub mem : (a : ℕ) → c.mem a ≡ move (n - c.left) d s m a

-- `j` words are 8 * j bytes.
burst-move :
    (j d s : ℕ) (m : ℕ → ℕ) → Upward d s (8 * j) → (a : ℕ) → burst j d s m a ≡ move (8 * j) d s m a
unfolding burst
burst-move zero d s m u a = ground arith
burst-move (suc j) d s m u a =
    burst-move j (d + 8) (s + 8) (move 8 d s m) (ground arith) a ∙ ground arith

-- The next `k` bytes.
Halfway-step :
    (d s n : ℕ) (m : ℕ → ℕ) (c : Copy) (k : ℕ) (m' : ℕ → ℕ)
    → Upward d s n
    → Halfway d s n m c
    → k ≤ c.left
    → ((a : ℕ) → m' a ≡ move k c.dest c.from c.mem a)
    → Halfway d s n m (advance k m' c)
Halfway-step d s n m c k m' u h f e = record {
  left = ground (arith, h.left);
  dest = ground (arith, h.dest);
  from = ground (arith, h.from);
  mem = λ a. e a ∙ ground (arith, h.left, h.dest, h.from, h.mem a, h.mem (c.from + (a - c.dest)));
}

copy_head-Halfway :
    (fuel d s n : ℕ) (m : ℕ → ℕ) (c : Copy)
    → Upward d s n
    → Halfway d s n m c
    → Halfway d s n m (copy_head fuel c)
unfolding copy_head
copy_head-Halfway zero d s n m c u h = h
copy_head-Halfway (suc fuel) d s n m c u h =
    elim (Bool-cases ((c.left == 0) || (c.dest % 8 == 0))) [
      | inl e ↦ rw e h
      | inr e ↦ rw e (
          copy_head-Halfway fuel d s n m (advance 1 (move 1 c.dest c.from c.mem) c) u
            (Halfway-step d s n m c 1 (move 1 c.dest c.from c.mem) u h (ground arith) (λ a. refl)))
    ]

copy_bursts-Halfway :
    (j fuel d s n : ℕ) (m : ℕ → ℕ) (c : Copy)
    → Upward d s n
    → Halfway d s n m c
    → Halfway d s n m (copy_bursts j fuel c)
unfolding copy_bursts
copy_bursts-Halfway j zero d s n m c u h = h
copy_bursts-Halfway j (suc fuel) d s n m c u h = elim (Bool-cases (leb (8 * j) c.left)) [
  | inl e ↦
      let m' : ℕ → ℕ = burst j c.dest c.from c.mem in
      rw e (
        copy_bursts-Halfway j fuel d s n m (advance (8 * j) m' c) u (
          Halfway-step d s n m c (8 * j) m' u h (ground arith)
            (λ a. burst-move j c.dest c.from c.mem (ground (arith, h.left, h.dest, h.from)) a)))
  | inr e ↦ rw e h
]

copy_tail-done :
    (fuel d s n : ℕ) (m : ℕ → ℕ) (c : Copy)
    → Upward d s n
    → Halfway d s n m c
    → c.left ≤ fuel
    → (a : ℕ) → (copy_tail fuel c).mem a ≡ move n d s m a
unfolding copy_tail
copy_tail-done zero d s n m c u h f a = ground (arith, h.mem a)
copy_tail-done (suc fuel) d s n m c u h f a = elim (Bool-cases (c.left == 0)) [
  | inl e ↦ rw e (ground (arith, h.mem a))
  | inr e ↦ rw e (
      copy_tail-done fuel d s n m (advance 1 (move 1 c.dest c.from c.mem) c) u
        (Halfway-step d s n m c 1 (move 1 c.dest c.from c.mem) u h (ground arith) (λ a. refl))
        (ground arith) a)
]

-- memcpy, which copies bytes up to an aligned destination, then blocks of eight words, words and
-- bytes, stores at each address of the destination the byte that the source had there, and
-- changes no other: for a destination below the source, or behind its end.
pub memcpy-move :
    (d s n : ℕ) (m : ℕ → ℕ) → Upward d s n → (a : ℕ) → memcpy d s n m a ≡ move n d s m a
unfolding memcpy
memcpy-move d s n m u a =
    let c0 : Copy = record { left = n; dest = d; from = s; mem = m } in
    let h0 : Halfway d s n m c0 = record {
      left = ground arith;
      dest = refl;
      from = refl;
      mem = λ b. ground arith;
    } in
    let c1 : Copy = copy_head n c0 in
    let h1 : Halfway d s n m c1 = copy_head-Halfway n d s n m c0 u h0 in
    let c2 : Copy = copy_bursts 8 n c1 in
    let h2 : Halfway d s n m c2 = copy_bursts-Halfway 8 n d s n m c1 u h1 in
    let c3 : Copy = copy_bursts 1 n c2 in
    let h3 : Halfway d s n m c3 = copy_bursts-Halfway 1 n d s n m c2 u h2 in
    copy_tail-done n d s n m c3 u h3 h3.left a

move_down-move : (n d s : ℕ) (m : ℕ → ℕ) → s ≤ d → (a : ℕ) → move_down n d s m a ≡ move n d s m a
unfolding move_down
move_down-move zero d s m u a = ground arith
move_down-move (suc n) d s m u a =
    move_down-move n d s (move 1 (d + n) (s + n) m) u a ∙ ground arith

-- memmove stores at each of the `n` addresses of the destination the byte that the source had
-- there before the call, and changes no other, however the two overlap.
pub memmove-move : (d s n : ℕ) (m : ℕ → ℕ) (a : ℕ) → memmove d s n m a ≡ move n d s m a
unfolding memmove
memmove-move d s n m a = elim (Bool-cases (ltb d s)) [
  | inl e ↦ rw e (memcpy-move d s n m (inl (ground arith)) a)
  | inr e ↦ rw e (elim (Bool-cases (ltb s d)) [
    | inl g ↦ rw g (move_down-move n d s m (ground arith) a)
    | inr g ↦ rw g (ground arith)
  ])
]
