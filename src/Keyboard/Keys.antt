-- ===== src/Keyboard/Keys.antt =====
-- The keys of src/kernel/drivers/keyboard.cpp: the scan codes, the characters and the escape
-- sequences. A key is its number in the enumeration KeyCode.
use los_tac_os.Base.{ℕ, ◌+◌, ◌-◌, Bool, ◌&&◌, ◌||◌, not, List, [], ◌∷◌, leb, ◌==◌, if◌then◌else◌}

abbrev pub key_a : ℕ
key_a = 1

abbrev pub key_z : ℕ
key_z = 26

abbrev pub key_0 : ℕ
key_0 = 27

abbrev pub key_1 : ℕ
key_1 = 28

abbrev pub key_9 : ℕ
key_9 = 36

abbrev pub key_caps_lock : ℕ
key_caps_lock = 59

abbrev pub key_num_lock : ℕ
key_num_lock = 82

abbrev pub key_scroll_lock : ℕ
key_scroll_lock = 100

abbrev pub key_f1 : ℕ
key_f1 = 60

abbrev pub key_f12 : ℕ
key_f12 = 71

-- The left key or the right one.
abbrev pub is_shift : ℕ → Bool
is_shift key = (key == 53) || (key == 54)

abbrev pub is_ctrl : ℕ → Bool
is_ctrl key = (key == 55) || (key == 56)

abbrev pub is_alt : ℕ → Bool
is_alt key = (key == 57) || (key == 58)

-- The entry of a table, 0 where there is none.
pub lookup : List (ℕ × ℕ) → ℕ → ℕ
lookup [] x = 0
lookup ((a, b) ∷ es) x = if x == a then b else lookup es x

-- The cases of scancode_to_key.
abbrev pub plain_codes : List (ℕ × ℕ)
plain_codes =
    (0x1C, 48)
    ∷ (0x01, 49)
    ∷ (0x0E, 50)
    ∷ (0x0F, 51)
    ∷ (0x39, 52)
    ∷ (0x2A, 53)
    ∷ (0x36, 54)
    ∷ (0x1D, 55)
    ∷ (0x38, 57)
    ∷ (0x3A, 59)
    ∷ (0x45, 82)
    ∷ (0x46, 100)
    ∷ (0x1E, 1)
    ∷ (0x30, 2)
    ∷ (0x2E, 3)
    ∷ (0x20, 4)
    ∷ (0x12, 5)
    ∷ (0x21, 6)
    ∷ (0x22, 7)
    ∷ (0x23, 8)
    ∷ (0x17, 9)
    ∷ (0x24, 10)
    ∷ (0x25, 11)
    ∷ (0x26, 12)
    ∷ (0x32, 13)
    ∷ (0x31, 14)
    ∷ (0x18, 15)
    ∷ (0x19, 16)
    ∷ (0x10, 17)
    ∷ (0x13, 18)
    ∷ (0x1F, 19)
    ∷ (0x14, 20)
    ∷ (0x16, 21)
    ∷ (0x2F, 22)
    ∷ (0x11, 23)
    ∷ (0x2D, 24)
    ∷ (0x15, 25)
    ∷ (0x2C, 26)
    ∷ (0x02, 28)
    ∷ (0x03, 29)
    ∷ (0x04, 30)
    ∷ (0x05, 31)
    ∷ (0x06, 32)
    ∷ (0x07, 33)
    ∷ (0x08, 34)
    ∷ (0x09, 35)
    ∷ (0x0A, 36)
    ∷ (0x0B, 27)
    ∷ (0x0C, 37)
    ∷ (0x0D, 38)
    ∷ (0x1A, 39)
    ∷ (0x1B, 40)
    ∷ (0x27, 41)
    ∷ (0x28, 42)
    ∷ (0x29, 43)
    ∷ (0x2B, 44)
    ∷ (0x33, 45)
    ∷ (0x34, 46)
    ∷ (0x35, 47)
    ∷ (0x3B, 60)
    ∷ (0x3C, 61)
    ∷ (0x3D, 62)
    ∷ (0x3E, 63)
    ∷ (0x3F, 64)
    ∷ (0x40, 65)
    ∷ (0x41, 66)
    ∷ (0x42, 67)
    ∷ (0x43, 68)
    ∷ (0x44, 69)
    ∷ (0x57, 70)
    ∷ (0x58, 71)
    ∷ (0x37, 84)
    ∷ (0x4A, 85)
    ∷ (0x4E, 86)
    ∷ (0x47, 95)
    ∷ (0x48, 96)
    ∷ (0x49, 97)
    ∷ (0x4B, 92)
    ∷ (0x4C, 93)
    ∷ (0x4D, 94)
    ∷ (0x4F, 89)
    ∷ (0x50, 90)
    ∷ (0x51, 91)
    ∷ (0x52, 88)
    ∷ (0x53, 98)
    ∷ []

-- The cases of extended_scancode_to_key.
abbrev pub extended_codes : List (ℕ × ℕ)
extended_codes =
    (0x1C, 87)
    ∷ (0x35, 83)
    ∷ (0x1D, 56)
    ∷ (0x38, 58)
    ∷ (0x48, 78)
    ∷ (0x50, 79)
    ∷ (0x4B, 80)
    ∷ (0x4D, 81)
    ∷ (0x52, 72)
    ∷ (0x53, 73)
    ∷ (0x47, 74)
    ∷ (0x4F, 75)
    ∷ (0x49, 76)
    ∷ (0x51, 77)
    ∷ []

pub scancode_to_key : ℕ → ℕ
unfolding lookup
scancode_to_key sc = lookup plain_codes sc

pub extended_scancode_to_key : ℕ → ℕ
unfolding lookup
extended_scancode_to_key sc = lookup extended_codes sc

-- The keys of key_to_ascii with one character.
abbrev pub fixed_chars : List (ℕ × ℕ)
fixed_chars =
    (49, 27)
    ∷ (52, 32)
    ∷ (48, 10)
    ∷ (87, 10)
    ∷ (50, 8)
    ∷ (51, 9)
    ∷ (86, 43)
    ∷ (85, 45)
    ∷ (84, 42)
    ∷ (83, 47)
    ∷ []

-- Those with another character under shift: without it, and below with it.
abbrev pub plain_chars : List (ℕ × ℕ)
plain_chars =
    (37, 45)
    ∷ (38, 61)
    ∷ (39, 91)
    ∷ (40, 93)
    ∷ (41, 59)
    ∷ (42, 39)
    ∷ (43, 96)
    ∷ (44, 92)
    ∷ (45, 44)
    ∷ (46, 46)
    ∷ (47, 47)
    ∷ []

abbrev pub shifted_chars : List (ℕ × ℕ)
shifted_chars =
    (37, 95)
    ∷ (38, 43)
    ∷ (39, 123)
    ∷ (40, 125)
    ∷ (41, 58)
    ∷ (42, 34)
    ∷ (43, 126)
    ∷ (44, 124)
    ∷ (45, 60)
    ∷ (46, 62)
    ∷ (47, 63)
    ∷ []

-- Those that need the number lock.
abbrev pub numpad_chars : List (ℕ × ℕ)
numpad_chars =
    (88, 48)
    ∷ (89, 49)
    ∷ (90, 50)
    ∷ (91, 51)
    ∷ (92, 52)
    ∷ (93, 53)
    ∷ (94, 54)
    ∷ (95, 55)
    ∷ (96, 56)
    ∷ (97, 57)
    ∷ (98, 46)
    ∷ []

-- The digits 1 to 9 with shift.
abbrev pub shifted_digits : List (ℕ × ℕ)
shifted_digits =
    (28, 33)
    ∷ (29, 64)
    ∷ (30, 35)
    ∷ (31, 36)
    ∷ (32, 37)
    ∷ (33, 94)
    ∷ (34, 38)
    ∷ (35, 42)
    ∷ (36, 40)
    ∷ []

-- key_to_ascii, 0 for a key that has no character.
pub ascii : (shift caps num_lock : Bool) → ℕ → ℕ
unfolding lookup
ascii shift caps num_lock key =
    let upper = if shift then not caps else caps in
    if leb key_a key && leb key key_z
    then (if upper then 65 + (key - key_a) else 97 + (key - key_a))
    else if leb key_1 key && leb key key_9
    then (if shift then lookup shifted_digits key else 49 + (key - key_1))
    else if key == key_0
    then (if shift then 41 else 48)
    else (let common = lookup fixed_chars key in
        let symbol = lookup (if shift then shifted_chars else plain_chars) key in
        let digit = if num_lock then lookup numpad_chars key else 0 in
        if not (common == 0) then common else if not (symbol == 0) then symbol else digit)

-- The escape sequence of a key, empty where there is none.
pub sequence : ℕ → List ℕ
sequence key =
    if key == 78
    then 27 ∷ (91 ∷ (65 ∷ []))
    else if key == 79
    then 27 ∷ (91 ∷ (66 ∷ []))
    else if key == 81
    then 27 ∷ (91 ∷ (67 ∷ []))
    else if key == 80
    then 27 ∷ (91 ∷ (68 ∷ []))
    else if key == 74
    then 27 ∷ (91 ∷ (72 ∷ []))
    else if key == 75
    then 27 ∷ (91 ∷ (70 ∷ []))
    else if key == 73
    then 27 ∷ (91 ∷ (51 ∷ (126 ∷ [])))
    else []
