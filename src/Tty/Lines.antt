-- ===== src/Tty/Lines.antt =====
-- The line discipline of src/fs/devfs/tty.cpp against the line that was typed.
use los_tac_os.Base.{
  ℕ, zero, suc, ◌+◌, ◌≤◌, ◌<◌, ◌≡◌, ◌≢◌, refl, sym, ap, Bool, true, false, ltb, length-append,
  Option, none, some, List, [], ◌∷◌, ◌++◌, length, leb, ◌==◌, if◌then◌else◌, arith, inl, inr,
  Bool-cases,
}
use mathlib.Core.List.{append_assoc}
use los_tac_os.Base.Run.{Run, done, out}
use los_tac_os.Tty.{
  Tty, is_erase, is_echoing, erase_char, echo, shorter, Waiting, arrive, with_byte, read_line,
  read_canonical,
}

-- All the bytes that are still to be read.
abbrev pub stream : List ℕ → List (List ℕ) → List ℕ
stream stdin [] = stdin
stream stdin (bytes ∷ arrivals) = stdin ++ stream bytes arrivals

-- The characters that rub out the one before them: backspace, delete, and the one of VERASE, which
-- is 0 where there is none.
abbrev pub rubs_out : (erase c : ℕ) → Bool
rubs_out erase c =
    if c == 8 then true else if c == 127 then true else if erase == 0 then false else c == erase

abbrev pub without_first : List ℕ → List ℕ
without_first [] = []
without_first (x ∷ xs) = xs

abbrev pub backwards : List ℕ → List ℕ
backwards [] = []
backwards (x ∷ xs) = backwards xs ++ x ∷ []

-- The line that bytes make, and the bytes behind it, when the characters `typed` are there already,
-- the last one first; `none` where they do not end a line. A line ends with a newline, or where it
-- has `len` characters.
abbrev pub edited : (erase len : ℕ) → (typed bytes : List ℕ) → Option (List ℕ × List ℕ)
edited erase len typed [] = if ltb (length typed) len then none else some (backwards typed, [])
edited erase len typed (c ∷ cs) =
    let erased = edited erase len (without_first typed) cs in
    let longer = edited erase len (c ∷ typed) cs in
    if ltb (length typed) len
    then (if rubs_out erase c
        then erased
        else if c == b'\n'
        then some (backwards (c ∷ typed), cs)
        else longer)
    else some (backwards typed, c ∷ cs)

-- A read gives that line and leaves the bytes behind it, or waits for ever where no line ends.
pub data Reads : Option (List ℕ × List ℕ) → Run (List ℕ × Waiting) → Type 0 where
  line_read :
      (line rest : List ℕ) (t : Tty) (arrivals : List (List ℕ))
      → stream t.stdin arrivals ≡ rest
      → Reads (some (line, rest)) (done (line, (t, arrivals)))
  waits : Reads none out

echo_erase : (c : ℕ) (t : Tty) → erase_char (echo c t) ≡ erase_char t
echo_erase c t = elim (Bool-cases (is_echoing t)) [ inl e ↦ rw e refl | inr e ↦ rw e refl ]

erase_after :
    (line : List ℕ) (t : Tty) → erase_char (if length line == 0 then t else echo 8 t) ≡ erase_char t
erase_after line t = elim (Bool-cases (length line == 0)) [
  | inl e ↦ rw e refl
  | inr e ↦ rw e (echo_erase 8 t)
]

rubs_out-is_erase : (erase c : ℕ) → is_erase erase c ≡ rubs_out erase c
rubs_out-is_erase erase c = ground arith

length-backwards : (xs : List ℕ) → length (backwards xs) ≡ length xs
length-backwards [] = refl
length-backwards (x ∷ xs) =
    omega (arith, length-append (backwards xs) (x ∷ []), length-backwards xs)

shorter-snoc : (xs : List ℕ) (x : ℕ) → shorter (xs ++ x ∷ []) ≡ xs
shorter-snoc [] x = refl
shorter-snoc (y ∷ []) x = refl
shorter-snoc (y ∷ (z ∷ xs)) x = ap (λ l. y ∷ l) (shorter-snoc (z ∷ xs) x)

shorter-backwards : (xs : List ℕ) → shorter (backwards xs) ≡ backwards (without_first xs)
shorter-backwards [] = refl
shorter-backwards (x ∷ xs) = shorter-snoc (backwards xs) x

stream-arrive :
    (stdin : List ℕ) (arrivals : List (List ℕ))
    → stream stdin arrivals ≡ stream (arrive stdin arrivals).0 (arrive stdin arrivals).1
stream-arrive stdin [] = refl
stream-arrive stdin (bytes ∷ []) = refl
stream-arrive stdin (bytes ∷ (b ∷ bs)) = sym (append_assoc stdin bytes (stream b bs))

stream-cons :
    (c : ℕ) (cs : List ℕ) (arrivals : List (List ℕ))
    → stream (c ∷ cs) arrivals ≡ c ∷ stream cs arrivals
stream-cons c cs [] = refl
stream-cons c cs (b ∷ bs) = refl

edited_full :
    (erase len : ℕ) (typed bytes : List ℕ)
    → ltb (length typed) len ≡ false
    → edited erase len typed bytes ≡ some (backwards typed, bytes)
edited_full erase len typed [] e = rw e refl
edited_full erase len typed (c ∷ cs) e = rw e refl

-- What the rest of a read does, with fuel left for its bytes and rounds.
Rest : (fuel len : ℕ) → Type 0
Rest fuel len =
    (typed stdin : List ℕ) (arrivals : List (List ℕ)) (t : Tty) (erase : ℕ)
    → erase_char t ≡ erase
    → length (stream stdin arrivals) + length arrivals < fuel
    → Reads (edited erase len typed (stream stdin arrivals))
        (read_line fuel len (backwards typed) stdin arrivals t)

-- A round that has room in the buffer, with the bytes `now` and the rounds `later`.
round-Reads :
    (fuel len : ℕ) (typed now : List ℕ) (later arrivals : List (List ℕ)) (t : Tty)
    → Rest fuel len
    → ltb (length typed) len ≡ true
    → length (stream now later) + length arrivals < suc fuel
    → (length arrivals ≡ 0 → later ≡ [])
    → (length arrivals ≢ 0 → suc (length later) ≡ length arrivals)
    → Reads (edited (erase_char t) len typed (stream now later)) (
        with_byte now
          (if length arrivals == 0 then out else read_line fuel len (backwards typed) [] later t)
          (λ c cs.
            if is_erase (erase_char t) c
            then read_line fuel len
                (shorter (backwards typed))
                cs
                later
                (if length (backwards typed) == 0 then t else echo 8 t)
            else if c == 10
            then done (backwards typed ++ c ∷ [], (record (echo c t) { stdin = cs }, later))
            else read_line fuel len (backwards typed ++ c ∷ []) cs later (echo c t)))
unfolding Rest
round-Reads fuel len typed [] later arrivals t rest room f none_left fewer =
    elim (Bool-cases (length arrivals == 0)) [
      | inl e ↦ let empty : later ≡ [] = none_left (ground arith) in rw (e, empty, room) waits
      | inr e ↦
          rw e (
            rest typed [] later t (erase_char t) refl (omega (arith, f, fewer (λ z. ground arith))))
    ]
round-Reads fuel len typed (c ∷ cs) later arrivals t rest room f none_left fewer =
    let count : length (stream (c ∷ cs) later) ≡ suc (length (stream cs later)) =
      ap length (stream-cons c cs later) in
    let rounds : length later ≤ length arrivals = elim (Bool-cases (length arrivals == 0)) [
      | inl e ↦ let none_there = ap length (none_left (ground arith)) in omega (arith, none_there)
      | inr e ↦ omega (arith, fewer (λ z. ground arith))
    ] in
    let more : length (stream cs later) + length later < fuel = omega (arith, f, count, rounds) in
    rw (stream-cons c cs later, room, rubs_out-is_erase (erase_char t) c)
      (elim (Bool-cases (rubs_out (erase_char t) c)) [
        | inl k ↦
            rw (k, shorter-backwards typed)
              (rest (without_first typed) cs later _ (erase_char t)
                (erase_after (backwards typed) t) more)
        | inr k ↦ elim (Bool-cases (c == 10)) [
          | inl w ↦
              rw (k, w)
                (line_read (backwards typed ++ c ∷ []) (stream cs later)
                  (record (echo c t) { stdin = cs }) later refl)
          | inr w ↦
              rw (k, w) (rest (c ∷ typed) cs later (echo c t) (erase_char t) (echo_erase c t) more)
        ]
      ])

read_line-Reads : (fuel len : ℕ) → Rest fuel len
unfolding read_line Rest
read_line-Reads zero len typed stdin arrivals t erase e f = absurd (omega arith)
read_line-Reads (suc fuel) len typed stdin arrivals t erase e f =
    elim (Bool-cases (ltb (length typed) len)) [
      | inr full ↦
          let over : leb len (length (backwards typed)) ≡ true =
            ground (arith, length-backwards typed) in
          rw (over, edited_full erase len typed (stream stdin arrivals) full)
            (line_read (backwards typed) (stream stdin arrivals) (record t { stdin = stdin })
              arrivals refl)
      | inl room ↦
          let open_ : leb len (length (backwards typed)) ≡ false =
            ground (arith, length-backwards typed) in
          let now = (arrive stdin arrivals).0 in
          let later = (arrive stdin arrivals).1 in
          let all : length (stream now later) + length arrivals < suc fuel =
            omega (arith, f, ap length (stream-arrive stdin arrivals)) in
          rw (sym e, open_, stream-arrive stdin arrivals)
            (round-Reads fuel len typed now later arrivals t (read_line-Reads fuel len) room all
              (none_left arrivals) (fewer arrivals))
    ]
  where
    none_left : (bs : List (List ℕ)) → length bs ≡ 0 → (arrive stdin bs).1 ≡ []
    none_left [] z = refl
    none_left (b ∷ bs) z = absurd (omega (arith, z))

    fewer : (bs : List (List ℕ)) → length bs ≢ 0 → suc (length (arrive stdin bs).1) ≡ length bs
    fewer [] z = absurd (z refl)
    fewer (b ∷ bs) z = refl

-- read_canonical returns the line that the bytes make, whatever bytes the interrupts bring between
-- any two that it takes, and leaves the bytes behind it; where they end no line it waits for ever.
-- The fuel that this takes is one more than the bytes and the rounds with interrupts together. No
-- interrupt comes within pop_raw_byte.
pub read_canonical-Reads :
    (fuel len : ℕ) (arrivals : List (List ℕ)) (t : Tty)
    → length (stream t.stdin arrivals) + length arrivals < fuel
    → Reads
        (edited (erase_char t) len [] (stream t.stdin arrivals))
        (read_canonical fuel len arrivals t)
unfolding read_canonical Rest
read_canonical-Reads fuel len arrivals t f =
    read_line-Reads fuel len [] t.stdin arrivals t (erase_char t) refl f
