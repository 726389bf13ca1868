-- ===== src/Fd/Pipes/Fifo.antt =====
-- A pipe of src/user/syscall.cpp as a queue of bytes.
use los_tac_os.Base.{
  ℕ, zero, suc, ◌+◌, ◌-◌, ◌≤◌, ◌<◌, ◌≡◌, refl, sym, ap, ◌∙◌, arith, List, [], ◌∷◌, ◌++◌, ltb, leb,
  update, length, take, drop, min, take-nil, Bool-cases, inl, inr,
}
use mathlib.Core.List.{append_assoc, append-nil}
use los_tac_os.Fd.{Pipe, pipe_size}
use los_tac_os.Fd.Pipes.{pipe_put, pipe_get, pipe_rewind}

-- `n` bytes of a buffer from `a` on.
pub segment : (ℕ → ℕ) → ℕ → ℕ → List ℕ
segment m a zero = []
segment m a (suc n) = m a ∷ segment m (a + 1) n

-- The bytes that were written and not yet read, oldest first.
pub contents : Pipe → List ℕ
contents p = segment p.buffer p.read_pos (p.write_pos - p.read_pos)

pub record IsPipe (p : Pipe) : Type 0 where
  pub ordered : p.read_pos ≤ p.write_pos
  pub bounded : p.write_pos ≤ pipe_size

segment-past : (m : ℕ → ℕ) (a n k v : ℕ) → a + n ≤ k → segment (update m k v) a n ≡ segment m a n
unfolding segment
segment-past m a zero k v h = refl
segment-past m a (suc n) k v h = ground (arith, segment-past m (a + 1) n k v (omega arith))

segment-snoc :
    (m : ℕ → ℕ) (a n k v : ℕ)
    → a + n ≡ k
    → segment (update m k v) a (suc n) ≡ segment m a n ++ v ∷ []
unfolding segment
segment-snoc m a zero k v h = ground arith
segment-snoc m a (suc n) k v h = ground (arith, segment-snoc m (a + 1) n k v (omega arith))

abbrev pushed : Pipe → ℕ → Pipe
pushed p b = record p { buffer = update p.buffer p.write_pos b; write_pos = p.write_pos + 1 }

contents-pushed :
    (p : Pipe) (b : ℕ) → p.read_pos ≤ p.write_pos → contents (pushed p b) ≡ contents p ++ b ∷ []
unfolding contents
contents-pushed p b h =
    let e : p.write_pos + 1 - p.read_pos ≡ suc (p.write_pos - p.read_pos) = omega arith in
    rw e (segment-snoc p.buffer p.read_pos (p.write_pos - p.read_pos) p.write_pos b (omega arith))

-- What the copy of `bs` into a pipe does, with `w` bytes stored before.
pub record Put (bs : List ℕ) (w : ℕ) (p : Pipe) (r : ℕ × Pipe) : Type 0 where
  pub stored : r.0 ≡ w + min (length bs) (pipe_size - p.write_pos)
  pub appended : contents r.1 ≡ contents p ++ take (pipe_size - p.write_pos) bs
  pub valid : IsPipe r.1
  pub readers : r.1.readers ≡ p.readers
  pub writers : r.1.writers ≡ p.writers

-- Writing to a pipe appends as many of the bytes as fit below its 4096, in order, reports their
-- number, and keeps what was in the pipe.
pub pipe_put-Put : (bs : List ℕ) (w : ℕ) (p : Pipe) → IsPipe p → Put bs w p (pipe_put bs w p)
unfolding pipe_put
pipe_put-Put [] w p v = record {
  stored = omega arith;
  appended = rw take-nil (sym (append-nil (contents p)));
  valid = v;
  readers = refl;
  writers = refl;
}
pipe_put-Put (b ∷ bs) w p v = elim (Bool-cases (leb pipe_size p.write_pos)) [
  | inl full ↦
      let e : pipe_size - p.write_pos ≡ 0 = ground arith in
      rw (full, pipe_put)
        (record {
          stored = omega arith;
          appended = rw e (sym (append-nil (contents p)));
          valid = v;
          readers = refl;
          writers = refl;
        })
  | inr room ↦
      let e : pipe_size - p.write_pos ≡ suc (pipe_size - (p.write_pos + 1)) = ground arith in
      let q : Pipe = pushed p b in
      let h =
        pipe_put-Put bs (w + 1) q (record { ordered = omega arith; bounded = ground arith }) in
      rw (room, pipe_put)
        (record {
          stored = omega (arith, h.stored);
          appended = rw e (
              h.appended
              ∙ rw (contents-pushed p b v.ordered)
                  (append_assoc (contents p) (b ∷ []) (take (pipe_size - (p.write_pos + 1)) bs)));
          valid = h.valid;
          readers = h.readers;
          writers = h.writers;
        })
]

abbrev advanced : Pipe → Pipe
advanced p = record p { read_pos = p.read_pos + 1 }

contents-cons :
    (p : Pipe) → p.read_pos < p.write_pos → contents p ≡ p.buffer p.read_pos ∷ contents (advanced p)
unfolding contents segment
contents-cons p h =
    let e : p.write_pos - p.read_pos ≡ suc (p.write_pos - (p.read_pos + 1)) = omega arith in
    rw e refl

pub contents-empty : (p : Pipe) → p.write_pos ≤ p.read_pos → contents p ≡ []
unfolding contents segment
contents-empty p h = let e : p.write_pos - p.read_pos ≡ 0 = omega arith in rw e refl

-- What the copy of `len` bytes out of a pipe does.
pub record Got (len : ℕ) (p : Pipe) (r : List ℕ × Pipe) : Type 0 where
  pub bytes : r.0 ≡ take len (contents p)
  pub left : contents r.1 ≡ drop len (contents p)
  pub valid : IsPipe r.1
  pub readers : r.1.readers ≡ p.readers
  pub writers : r.1.writers ≡ p.writers

pipe_get-Got : (len : ℕ) (p : Pipe) → IsPipe p → Got len p (pipe_get len p)
unfolding pipe_get
pipe_get-Got zero p v = record {
  bytes = refl;
  left = refl;
  valid = v;
  readers = refl;
  writers = refl;
}
pipe_get-Got (suc len) p v = elim (Bool-cases (ltb p.read_pos p.write_pos)) [
  | inr empty ↦
      let c : contents p ≡ [] = contents-empty p (ground arith) in
      rw (empty, pipe_get)
        (record { bytes = rw c refl; left = rw c refl; valid = v; readers = refl; writers = refl })
  | inl more ↦
      let c = contents-cons p (ground arith) in
      let h =
        pipe_get-Got len (advanced p) (record { ordered = ground arith; bounded = v.bounded }) in
      rw (more, pipe_get)
        (record {
          bytes = rw (c) (ap (λ (bs : List ℕ). p.buffer p.read_pos ∷ bs) h.bytes);
          left = rw c h.left;
          valid = h.valid;
          readers = h.readers;
          writers = h.writers;
        })
]

pipe_rewind-contents : (p : Pipe) → contents (pipe_rewind p) ≡ contents p
unfolding pipe_rewind
pipe_rewind-contents p = elim (Bool-cases (leb p.write_pos p.read_pos)) [
  | inl e ↦
      rw (e, pipe_rewind)
        (contents-empty (record p { read_pos = 0; write_pos = 0 }) (omega arith)
          ∙ sym (contents-empty p (ground arith)))
  | inr e ↦ rw (e, pipe_rewind)
]

pipe_rewind-IsPipe : (p : Pipe) → IsPipe p → IsPipe (pipe_rewind p)
unfolding pipe_rewind
pipe_rewind-IsPipe p v = ground arith

-- Reading from a pipe returns the oldest bytes in order, as many as asked for and as there are, and
-- leaves the rest.
pub pipe_read-Got :
    (len : ℕ) (p : Pipe) → IsPipe p → Got len p ((pipe_get len p).0, pipe_rewind (pipe_get len p).1)
unfolding pipe_rewind
pipe_read-Got len p v =
    let h = pipe_get-Got len p v in
    record {
      bytes = h.bytes;
      left = pipe_rewind-contents (pipe_get len p).1 ∙ h.left;
      valid = pipe_rewind-IsPipe (pipe_get len p).1 h.valid;
      readers = ground (arith, h.readers);
      writers = ground (arith, h.writers);
    }
