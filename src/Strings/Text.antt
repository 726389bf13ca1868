-- ===== src/Strings/Text.antt =====
-- The functions on C strings of src/lib/string.cpp. A string is the address of its first byte, and
-- ends at the first byte 0. A loop with no bound takes fuel, and `none` says that the fuel ran out.
pub mod Compare
use los_tac_os.Base.{
  ℕ, zero, suc, ◌+◌, ◌-◌, ◌%◌, Bool, true, false, ◌&&◌, ◌||◌, not, ◌==◌, ltb, leb, if◌then◌else◌,
  Option, none, some, update,
}
use los_tac_os.Base.Int.{ℤ, pos}
use los_tac_os.Strings.{diff}

-- strnlen, from the `len`-th byte on with `left` more to look at.
pub strnlen_loop : (left str len : ℕ) → (ℕ → ℕ) → ℕ
strnlen_loop zero str len m = len
strnlen_loop (suc left) str len m =
    let rest = strnlen_loop left str (len + 1) m in if m (str + len) == 0 then len else rest

pub strnlen : (str max : ℕ) → (ℕ → ℕ) → ℕ
strnlen str max m = strnlen_loop max str 0 m

-- strcpy, and the second loop of strcat: the byte 0 is copied too.
pub strcpy : ℕ → (dest src : ℕ) → (ℕ → ℕ) → Option (ℕ → ℕ)
strcpy zero dest src m = none
strcpy (suc fuel) dest src m =
    let m' = update m dest (m src) in
    let rest = strcpy fuel (dest + 1) (src + 1) m' in if m src == 0 then some m' else rest

-- The first loop of strncpy, from the `i`-th byte on, and then the second.
pub pad : (left dest : ℕ) → (ℕ → ℕ) → ℕ → ℕ
pad zero dest m = m
pad (suc left) dest m = pad left (dest + 1) (update m dest 0)

pub strncpy : (left dest src : ℕ) → (ℕ → ℕ) → ℕ → ℕ
strncpy zero dest src m = m
strncpy (suc left) dest src m =
    let rest = strncpy left (dest + 1) (src + 1) (update m dest (m src)) in
    if m src == 0 then pad (suc left) dest m else rest

-- The loop of strcat and strncat to the end of a string.
pub find_end : ℕ → ℕ → (ℕ → ℕ) → Option ℕ
find_end zero p m = none
find_end (suc fuel) p m = let rest = find_end fuel (p + 1) m in if m p == 0 then some p else rest

pub strcat : ℕ → (dest src : ℕ) → (ℕ → ℕ) → Option (ℕ → ℕ)
strcat fuel dest src m = elim (find_end fuel dest m) [ none ↦ none | some e ↦ strcpy fuel e src m ]

-- The loop of strncat that copies, and the byte 0 behind it.
pub append_bytes : (n dest src : ℕ) → (ℕ → ℕ) → ℕ → ℕ
append_bytes zero dest src m = update m dest 0
append_bytes (suc n) dest src m =
    let rest = append_bytes n (dest + 1) (src + 1) (update m dest (m src)) in
    if m src == 0 then update m dest 0 else rest

pub strncat : ℕ → (dest src n : ℕ) → (ℕ → ℕ) → Option (ℕ → ℕ)
strncat fuel dest src n m = elim (find_end fuel dest m) [
  | none ↦ none
  | some e ↦ some (append_bytes n e src m)
]

pub strcmp : ℕ → (a b : ℕ) → (ℕ → ℕ) → Option ℤ
strcmp zero a b m = none
strcmp (suc fuel) a b m =
    let rest = strcmp fuel (a + 1) (b + 1) m in
    if not (m a == 0) && (m a == m b) then rest else some (diff (m a) (m b))

pub strncmp : (n a b : ℕ) → (ℕ → ℕ) → ℤ
strncmp zero a b m = pos 0
strncmp (suc n) a b m =
    let rest = strncmp n (a + 1) (b + 1) m in
    if not (m a == m b) || (m a == 0) then diff (m a) (m b) else rest

-- The inner loop of strstr: the end of the needle is reached.
pub starts : ℕ → (h n : ℕ) → (ℕ → ℕ) → Option Bool
starts zero h n m = none
starts (suc fuel) h n m =
    let rest = starts fuel (h + 1) (n + 1) m in
    if not (m h == 0) && (not (m n == 0) && (m h == m n)) then rest else some (m n == 0)

pub strstr_loop : ℕ → (h n : ℕ) → (ℕ → ℕ) → Option (Option ℕ)
strstr_loop zero h n m = none
strstr_loop (suc fuel) h n m =
    let rest = strstr_loop fuel (h + 1) n m in
    if m h == 0
    then some none
    else if m h == m n
    then elim (starts fuel h n m) [ none ↦ none | some true ↦ some (some h) | some false ↦ rest ]
    else rest

pub strstr : ℕ → (h n : ℕ) → (ℕ → ℕ) → Option (Option ℕ)
strstr fuel h n m = if m n == 0 then some (some h) else strstr_loop fuel h n m

-- strchr for the byte `c`; the byte 0 finds the end.
pub strchr : ℕ → (s c : ℕ) → (ℕ → ℕ) → Option (Option ℕ)
strchr zero s c m = none
strchr (suc fuel) s c m =
    let rest = strchr fuel (s + 1) c m in
    if m s == 0
    then some (if c == 0 then some s else none)
    else if m s == c % 256
    then some (some s)
    else rest

pub strrchr : ℕ → (s c : ℕ) → Option ℕ → (ℕ → ℕ) → Option (Option ℕ)
strrchr zero s c last m = none
strrchr (suc fuel) s c last m =
    let last' = if m s == c % 256 then some s else last in
    let rest = strrchr fuel (s + 1) c last' m in if m s == 0 then some last' else rest
