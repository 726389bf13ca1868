-- ===== src/Keyboard/Queue.antt =====
-- The queue of events of src/kernel/drivers/keyboard.cpp as a list.
use los_tac_os.Base.{
  ℕ, zero, suc, ◌+◌, ◌-◌, ◌%◌, ◌<◌, ◌≡◌, ◌≢◌, refl, ap, ◌∙◌, true, false, List, [], ◌∷◌, ◌++◌,
  length, ◌==◌, if◌then◌else◌, update, update_ne, update_self, arith, inl, inr, Bool-cases,
}
use los_tac_os.Keyboard.{KeyEvent, Keyboard, queue_size, no_event, push_event, pop}

-- `n` events of the ring from place `i` on.
abbrev pub ring : (n i : ℕ) → (ℕ → KeyEvent) → List KeyEvent
ring zero i q = []
ring (suc n) i q = q i ∷ ring n ((i + 1) % queue_size) q

abbrev pub filled : Keyboard → ℕ
filled k = (k.queue_write + queue_size - k.queue_read) % queue_size

-- The events that wait, the oldest first.
abbrev pub pending : Keyboard → List KeyEvent
pending k = ring (filled k) k.queue_read k.queue

pub record InRing (k : Keyboard) : Type 0 where
  pub read_in : k.queue_read < queue_size
  pub write_in : k.queue_write < queue_size

length-ring : (n i : ℕ) (q : ℕ → KeyEvent) → length (ring n i q) ≡ n
length-ring zero i q = refl
length-ring (suc n) i q = omega (arith, length-ring n ((i + 1) % queue_size) q)

-- A place that is not among the `n` is written.
ring-update :
    (n i w : ℕ) (q : ℕ → KeyEvent) (e : KeyEvent)
    → i < queue_size
    → n < queue_size
    → w < queue_size
    → ((j : ℕ) → j < n → (i + j) % queue_size ≢ w)
    → ring n i (update q w e) ≡ ring n i q
ring-update zero i w q e a b c h = refl
ring-update (suc n) i w q e a b c h =
    let here : i ≢ w = λ z. h 0 (omega arith) (omega (arith, z)) in
    rw (update_ne q w i e here) (
      ap (λ l. q i ∷ l)
        (ring-update n ((i + 1) % queue_size) w q e (omega arith) (omega arith) c
          (λ j l z. h (suc j) (omega arith) (omega (arith, z)))))

ring-snoc :
    (n i : ℕ) (q : ℕ → KeyEvent)
    → i < queue_size
    → ring (suc n) i q ≡ ring n i q ++ q ((i + n) % queue_size) ∷ []
ring-snoc zero i q a = ap (λ x. q x ∷ []) (omega arith)
ring-snoc (suc n) i q a =
    let next : ((i + 1) % queue_size + n) % queue_size ≡ (i + suc n) % queue_size = omega arith in
    ap (λ l. q i ∷ l)
      (ring-snoc n ((i + 1) % queue_size) q (omega arith)
        ∙ ap (λ x. ring n ((i + 1) % queue_size) q ++ q x ∷ []) next)

pushed_queue :
    (k : Keyboard) (e : KeyEvent)
    → InRing k
    → (k.queue_write + 1) % queue_size ≢ k.queue_read
    → ring (suc (filled k)) k.queue_read (update k.queue k.queue_write e) ≡ pending k ++ e ∷ []
pushed_queue k e v free =
    let r : ℕ = k.queue_read in
    let w : ℕ = k.queue_write in
    let q : ℕ → KeyEvent = update k.queue w e in
    let in_r : r < queue_size = v.read_in in
    let in_w : w < queue_size = v.write_in in
    let last : (r + filled k) % queue_size ≡ w = omega (arith, in_r, in_w) in
    let old : ring (filled k) r q ≡ pending k =
      ring-update (filled k) r w k.queue e in_r (omega arith) in_w
        (λ j l z. omega (arith, in_r, in_w, l, z)) in
    ring-snoc (filled k) r q in_r
    ∙ ap (λ l. l ++ q ((r + filled k) % queue_size) ∷ []) old
    ∙ ap (λ x. pending k ++ x ∷ []) (ap q last ∙ update_self k.queue w e)

-- push_event puts the event behind those that wait, or drops it where 127 of them wait.
pub push_event-pending :
    (k : Keyboard) (e : KeyEvent)
    → InRing k
    → InRing (push_event e k)
      × (pending (push_event e k)
          ≡ (if length (pending k) == 127 then pending k else pending k ++ e ∷ []))
unfolding push_event
push_event-pending k e v =
    let in_r : k.queue_read < queue_size = v.read_in in
    let in_w : k.queue_write < queue_size = v.write_in in
    let count : length (pending k) ≡ filled k = length-ring (filled k) k.queue_read k.queue in
    elim (Bool-cases ((k.queue_write + 1) % queue_size == k.queue_read)) [
      | inl full ↦
          let all : (length (pending k) == 127) ≡ true = ground (arith, count, in_r, in_w) in
          rw (full, all) (v, refl)
      | inr free ↦
          let apart : (k.queue_write + 1) % queue_size ≢ k.queue_read = ground arith in
          let not_all : (length (pending k) == 127) ≡ false = ground (arith, count, in_r, in_w) in
          let more : ((k.queue_write + 1) % queue_size + queue_size - k.queue_read) % queue_size
              ≡ suc (filled k) =
            omega (arith, in_r, in_w, apart) in
          rw (free, not_all)
            (
              record { read_in = in_r; write_in = omega arith },
              ap (λ n. ring n k.queue_read (update k.queue k.queue_write e)) more
                  ∙ pushed_queue k e v apart,
            )
    ]

-- The result of pop: the oldest event, behind which the others still wait, or the event of an empty
-- queue.
pub data Popped (k : Keyboard) : KeyEvent × Keyboard → Type 0 where
  empty : pending k ≡ [] → Popped k (no_event, k)
  took : (e : KeyEvent) (k' : Keyboard) → InRing k' → pending k ≡ e ∷ pending k' → Popped k (e, k')

-- pop takes the event that waits longest, and gives none where none waits.
pub pop-Popped : (k : Keyboard) → InRing k → Popped k (pop k)
unfolding pop
pop-Popped k v =
    let in_r : k.queue_read < queue_size = v.read_in in
    let in_w : k.queue_write < queue_size = v.write_in in
    elim (Bool-cases (k.queue_read == k.queue_write)) [
      | inl e ↦
          let same : k.queue_read ≡ k.queue_write = ground arith in
          let none_filled : filled k ≡ 0 = omega (arith, in_r, same) in
          rw e (empty (ap (λ n. ring n k.queue_read k.queue) none_filled))
      | inr e ↦
          let apart : k.queue_read ≢ k.queue_write = ground arith in
          let k' : Keyboard = record k { queue_read = (k.queue_read + 1) % queue_size } in
          let count : filled k ≡ suc (filled k') = omega (arith, in_r, in_w, apart) in
          rw e (
            took (k.queue k.queue_read) k' record { read_in = omega arith; write_in = in_w }
              (ap (λ n. ring n k.queue_read k.queue) count))
    ]
