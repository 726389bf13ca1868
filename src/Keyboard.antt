-- ===== src/Keyboard.antt =====
-- The keyboard of src/kernel/drivers/keyboard.cpp: the queue of events, the modifiers and the bytes
-- for the terminal. A key is its number in the enumeration KeyCode of
-- include/LTOS/drivers/keyboard/keycodes.hpp.
pub mod Keys
pub mod Queue
pub mod Bounds
mod Tests
use los_tac_os.Base.{
  ℕ, zero, suc, ◌+◌, ◌-◌, ◌%◌, ◌/◌, ◌^◌, Bool, true, false, ◌&&◌, ◌||◌, not, Option, none, some,
  List, [], ◌∷◌, ◌++◌, length, ltb, leb, ◌==◌, if◌then◌else◌, update,
}
use los_tac_os.Keyboard.Keys.{
  scancode_to_key, extended_scancode_to_key, ascii, sequence, is_shift, is_ctrl, is_alt,
  key_caps_lock, key_num_lock, key_scroll_lock, key_f1, key_f12,
}

pub record KeyEvent : Type 0 where
  pub key : ℕ
  pub pressed : Bool
  pub shift : Bool
  pub ctrl : Bool
  pub alt : Bool
  pub scancode : ℕ

abbrev pub queue_size : ℕ
queue_size = 128

-- sizeof(stdin_buffer)
abbrev pub stdin_size : ℕ
stdin_size = 256

-- `stdin` is stdin_buffer up to stdin_len; `leds` are the bytes given to the lamps, `terminals` the
-- calls of switch_vt.
pub record Keyboard : Type 0 where
  pub queue : ℕ → KeyEvent
  pub queue_read : ℕ
  pub queue_write : ℕ
  pub shift : Bool
  pub caps : Bool
  pub ctrl : Bool
  pub alt : Bool
  pub num_lock : Bool
  pub scroll_lock : Bool
  pub last_raw_scancode : ℕ
  pub last_scancode_tick : ℕ
  pub extended : Bool
  pub stdin : List ℕ
  pub leds : List ℕ
  pub terminals : List ℕ

-- The event of an empty queue.
abbrev pub no_event : KeyEvent
no_event = record {
  key = 0;
  pressed = false;
  shift = false;
  ctrl = false;
  alt = false;
  scancode = 0;
}

-- A full queue drops the event.
pub push_event : KeyEvent → Keyboard → Keyboard
push_event e k =
    let next = (k.queue_write + 1) % queue_size in
    if next == k.queue_read
    then k
    else record k { queue = update k.queue k.queue_write e; queue_write = next }

abbrev pub queue_empty : Keyboard → Bool
queue_empty k = k.queue_read == k.queue_write

pub pop : Keyboard → KeyEvent × Keyboard
pop k =
    if queue_empty k
    then (no_event, k)
    else (k.queue k.queue_read, record k { queue_read = (k.queue_read + 1) % queue_size })

-- apply_ctrl
pub with_ctrl : Bool → ℕ → ℕ
with_ctrl ctrl c =
    if not ctrl
    then c
    else if leb 97 c && leb c 122
    then c - 96
    else if leb 65 c && leb c 90
    then c - 64
    else if c == 64
    then 0
    else if leb 91 c && leb c 95
    then c - 64
    else c

-- key_to_ascii with the modifiers of the keyboard.
pub key_to_ascii : ℕ → Keyboard → ℕ
key_to_ascii key k = ascii k.shift k.caps k.num_lock key

-- One more byte for the terminal, if there is room.
pub push_byte : ℕ → Keyboard → Keyboard
push_byte c k =
    if ltb (length k.stdin) stdin_size then record k { stdin = k.stdin ++ c ∷ [] } else k

pub push_bytes : List ℕ → Keyboard → Keyboard
unfolding push_byte
push_bytes [] k = k
push_bytes (c ∷ cs) k = push_bytes cs (push_byte c k)

-- update_leds, without the wait for the controller.
pub update_leds : Keyboard → Keyboard
update_leds k =
    let bits =
      (if k.scroll_lock then 1 else 0)
      + (if k.num_lock then 2 else 0)
      + (if k.caps then 4 else 0) in
    record k { leds = bits ∷ (0xED ∷ k.leds) }

abbrev pub event_of : (key : ℕ) → (pressed : Bool) → (sc : ℕ) → Keyboard → KeyEvent
event_of key pressed sc k = record {
  key = key;
  pressed = pressed;
  shift = k.shift;
  ctrl = k.ctrl;
  alt = k.alt;
  scancode = sc;
}

abbrev pub set_modifier : Bool → ℕ → Keyboard → Keyboard
set_modifier b key k = record k {
  shift = if is_shift key then b else k.shift;
  ctrl = if is_ctrl key then b else k.ctrl;
  alt = if is_alt key then b else k.alt;
}

pub release_key : (key sc : ℕ) → Keyboard → Keyboard
unfolding push_event
release_key key sc k = let k = set_modifier false key k in push_event (event_of key false sc k) k

-- The three locks, with their lamps.
pub toggle_locks : ℕ → Keyboard → Keyboard
unfolding update_leds
toggle_locks key k =
    let k' : Keyboard = record k {
      caps = if key == key_caps_lock then not k.caps else k.caps;
      num_lock = if key == key_num_lock then not k.num_lock else k.num_lock;
      scroll_lock = if key == key_scroll_lock then not k.scroll_lock else k.scroll_lock;
    } in
    if (key == key_caps_lock) || ((key == key_num_lock) || (key == key_scroll_lock))
    then update_leds k'
    else k'

-- The bytes that a key leaves for the terminal.
pub type_key : ℕ → Keyboard → Keyboard
unfolding key_to_ascii with_ctrl push_byte push_bytes
type_key key k =
    let c = key_to_ascii key k in
    if c == 0
    then push_bytes (sequence key) k
    else (let k = if k.alt then push_byte 27 k else k in push_byte (with_ctrl k.ctrl c) k)

pub press_key : (key sc : ℕ) → Keyboard → Keyboard
unfolding toggle_locks type_key push_event
press_key key sc k =
    let k = toggle_locks key (set_modifier true key k) in
    if k.alt && (leb key_f1 key && leb key key_f12)
    then record k { terminals = (key - key_f1 + 1) ∷ k.terminals }
    else (let k = type_key key k in push_event (event_of key true sc k) k)

-- What process_scancode does behind its test for a repeated byte.
pub decode : ℕ → Keyboard → Keyboard
unfolding release_key press_key
decode sc k =
    if sc == 0xE0
    then record k { extended = true }
    else if sc == 0xE1
    then k
    else (let low = sc % 128 in
        let key = if k.extended then extended_scancode_to_key low else scancode_to_key low in
        let k = record k { extended = false } in
        if leb 128 sc then release_key key low k else press_key key low k)

-- `now` is what timer::ticks returns; the difference wraps as that of 64-bit numbers.
pub process_scancode : (now sc : ℕ) → Keyboard → Keyboard
unfolding decode
process_scancode now sc k =
    if (sc == k.last_raw_scancode) && ltb ((now + 2 ^ 64 - k.last_scancode_tick) % 2 ^ 64) 15
    then k
    else decode sc (record k { last_raw_scancode = sc; last_scancode_tick = now })

-- irq_handler over what the two ports give: the status and the data byte of each round, with the
-- ticks.
pub irq_handler : List (ℕ × ℕ × ℕ) → Keyboard → Keyboard
unfolding process_scancode
irq_handler [] k = k
irq_handler ((status, sc, now) ∷ rounds) k =
    if status % 2 == 0
    then k
    else if status / 32 % 2 == 1
    then k
    else irq_handler rounds (process_scancode now sc k)
