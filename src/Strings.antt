-- ===== src/Strings.antt =====
-- The memory functions of src/lib/string.cpp over a memory of bytes. A 64-bit word is loaded and
-- stored as its eight bytes; addresses do not wrap.
pub mod Text
pub mod Moves
pub mod Fills
mod Tests
use los_tac_os.Base.{
  ℕ, zero, suc, ◌+◌, ◌-◌, ◌*◌, ◌%◌, Bool, true, false, ◌&&◌, ◌||◌, not, ◌==◌, ltb, leb,
  if◌then◌else◌, Option, none, some,
}
use los_tac_os.Base.Int.{ℤ, pos, negsuc}

-- The load of `k` bytes at `s`, and then their store at `d`.
abbrev pub move : ℕ → ℕ → ℕ → (ℕ → ℕ) → ℕ → ℕ
move k d s m a = if leb d a && ltb a (d + k) then m (s + (a - d)) else m a

-- The store of `k` bytes of value `v` at `d`.
abbrev pub fill : ℕ → ℕ → ℕ → (ℕ → ℕ) → ℕ → ℕ
fill k d v m a = if leb d a && ltb a (d + k) then v else m a

-- What is left of a copy: `left` bytes, from `from` to `dest`.
pub record Copy : Type 0 where
  pub left : ℕ
  pub dest : ℕ
  pub from : ℕ
  pub mem : ℕ → ℕ

abbrev pub advance : ℕ → (ℕ → ℕ) → Copy → Copy
advance k m c = record { left = c.left - k; dest = c.dest + k; from = c.from + k; mem = m }

-- The bytes up to an aligned destination, with fuel for `left` of them.
pub copy_head : ℕ → Copy → Copy
copy_head zero c = c
copy_head (suc fuel) c =
    let rest = copy_head fuel (advance 1 (move 1 c.dest c.from c.mem) c) in
    if (c.left == 0) || (c.dest % 8 == 0) then c else rest

-- `j` words, one after the other.
pub burst : ℕ → ℕ → ℕ → (ℕ → ℕ) → ℕ → ℕ
burst zero d s m = m
burst (suc j) d s m = burst j (d + 8) (s + 8) (move 8 d s m)

-- The loop over `j` words at a time.
pub copy_bursts : ℕ → ℕ → Copy → Copy
copy_bursts j zero c = c
copy_bursts j (suc fuel) c =
    let rest = copy_bursts j fuel (advance (8 * j) (burst j c.dest c.from c.mem) c) in
    if leb (8 * j) c.left then rest else c

pub copy_tail : ℕ → Copy → Copy
copy_tail zero c = c
copy_tail (suc fuel) c =
    let rest = copy_tail fuel (advance 1 (move 1 c.dest c.from c.mem) c) in
    if c.left == 0 then c else rest

-- memcpy; each loop runs at most `n` times.
pub memcpy : (d s n : ℕ) → (ℕ → ℕ) → ℕ → ℕ
memcpy d s n m =
    let c = copy_head n record { left = n; dest = d; from = s; mem = m } in
    (copy_tail n (copy_bursts 1 n (copy_bursts 8 n c))).mem

-- The loop of memmove from the last byte down.
pub move_down : ℕ → (d s : ℕ) → (ℕ → ℕ) → ℕ → ℕ
move_down zero d s m = m
move_down (suc n) d s m = move_down n d s (move 1 (d + n) (s + n) m)

pub memmove : (d s n : ℕ) → (ℕ → ℕ) → ℕ → ℕ
memmove d s n m = if ltb d s then memcpy d s n m else if ltb s d then move_down n d s m else m

pub fill_head : ℕ → ℕ → Copy → Copy
fill_head v zero c = c
fill_head v (suc fuel) c =
    let rest = fill_head v fuel (advance 1 (fill 1 c.dest v c.mem) c) in
    if (c.left == 0) || (c.dest % 8 == 0) then c else rest

pub fill_burst : ℕ → ℕ → ℕ → (ℕ → ℕ) → ℕ → ℕ
fill_burst zero d v m = m
fill_burst (suc j) d v m = fill_burst j (d + 8) v (fill 8 d v m)

pub fill_bursts : ℕ → ℕ → ℕ → Copy → Copy
fill_bursts j v zero c = c
fill_bursts j v (suc fuel) c =
    let rest = fill_bursts j v fuel (advance (8 * j) (fill_burst j c.dest v c.mem) c) in
    if leb (8 * j) c.left then rest else c

pub fill_tail : ℕ → ℕ → Copy → Copy
fill_tail v zero c = c
fill_tail v (suc fuel) c =
    let rest = fill_tail v fuel (advance 1 (fill 1 c.dest v c.mem) c) in
    if c.left == 0 then c else rest

-- memset; `value` is cut to a byte.
pub memset : (d value n : ℕ) → (ℕ → ℕ) → ℕ → ℕ
memset d value n m =
    let v = value % 256 in
    let c = fill_head v n record { left = n; dest = d; from = 0; mem = m } in
    (fill_tail v n (fill_bursts 1 v n (fill_bursts 8 v n c))).mem

-- The difference of two bytes as an int.
pub diff : ℕ → ℕ → ℤ
diff a b = if leb b a then pos (a - b) else negsuc (b - a - 1)

-- A loop over bytes: the first difference within `n`.
pub differ : ℕ → (a b : ℕ) → (ℕ → ℕ) → Option ℤ
differ zero a b m = none
differ (suc n) a b m =
    let rest = differ n (a + 1) (b + 1) m in if m a == m b then rest else some (diff (m a) (m b))

-- Where memcmp is: its result, or `left` bytes to compare at `one` and `two`.
pub data Compared : Type 0 where
  told : ℤ → Compared
  on : (left one two : ℕ) → Compared

pub compare_head : ℕ → (a b : ℕ) → (ℕ → ℕ) → Compared
compare_head zero a b m = on 0 a b
compare_head (suc n) a b m =
    let rest = compare_head n (a + 1) (b + 1) m in
    if a % 8 == 0 then on (suc n) a b else if m a == m b then rest else told (diff (m a) (m b))

-- The loop over words, of which two are equal when their bytes are.
pub compare_words : ℕ → (n a b : ℕ) → (ℕ → ℕ) → Compared
compare_words zero n a b m = on n a b
compare_words (suc fuel) n a b m =
    let rest = compare_words fuel (n - 8) (a + 8) (b + 8) m in
    if leb 8 n then elim (differ 8 a b m) [ none ↦ rest | some r ↦ told r ] else on n a b

pub compare_tail : Compared → (ℕ → ℕ) → ℤ
compare_tail (told r) m = r
compare_tail (on n a b) m = elim (differ n a b m) [ none ↦ pos 0 | some r ↦ r ]

pub memcmp : (a b n : ℕ) → (ℕ → ℕ) → ℤ
memcmp a b n m =
    compare_tail
      (elim (compare_head n a b m) [ told r ↦ told r | on k x y ↦ compare_words n k x y m ]) m

-- The loop of memchr.
pub memchr : (s c n : ℕ) → (ℕ → ℕ) → Option ℕ
memchr s c zero m = none
memchr s c (suc n) m = let rest = memchr (s + 1) c n m in if m s == c % 256 then some s else rest
