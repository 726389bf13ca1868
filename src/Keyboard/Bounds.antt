-- ===== src/Keyboard/Bounds.antt =====
-- The buffers of src/kernel/drivers/keyboard.cpp stay within their sizes.
use los_tac_os.Base.{
  ℕ, ◌+◌, ◌-◌, ◌%◌, ◌/◌, ◌^◌, not, ◌≤◌, ◌≡◌, Bool, true, false, ◌&&◌, ◌||◌, List, [], ◌∷◌, ◌++◌,
  length, length-append, ltb, leb, ◌==◌, if◌then◌else◌, arith, inl, inr, Bool-cases,
}
use los_tac_os.Keyboard.{
  KeyEvent, Keyboard, stdin_size, push_event, push_byte, push_bytes, update_leds, set_modifier,
  toggle_locks, type_key, press_key, release_key, event_of, decode, process_scancode, irq_handler,
  key_to_ascii, with_ctrl,
}
use los_tac_os.Keyboard.Keys.{
  sequence, key_caps_lock, key_num_lock, key_scroll_lock, key_f1, key_f12, scancode_to_key,
  extended_scancode_to_key,
}
use los_tac_os.Keyboard.Queue.{InRing, push_event-pending}

-- The places of the queue are within it, and the bytes for the terminal within their buffer.
pub record IsBounded (k : Keyboard) : Type 0 where
  pub ring : InRing k
  pub room : length k.stdin ≤ stdin_size

either : (b : Bool) (k k' : Keyboard) → IsBounded k → IsBounded k' → IsBounded (if b then k else k')
either true k k' v w = v
either false k k' v w = w

push_event-stdin : (e : KeyEvent) (k : Keyboard) → (push_event e k).stdin ≡ k.stdin
unfolding push_event
push_event-stdin e k = ground arith

push_event-IsBounded : (e : KeyEvent) (k : Keyboard) → IsBounded k → IsBounded (push_event e k)
push_event-IsBounded e k v = record {
  ring = (push_event-pending k e v.ring).0;
  room = rw (push_event-stdin e k) v.room;
}

push_byte-IsBounded : (c : ℕ) (k : Keyboard) → IsBounded k → IsBounded (push_byte c k)
unfolding push_byte
push_byte-IsBounded c k v = elim (Bool-cases (ltb (length k.stdin) stdin_size)) [
  | inl e ↦
      let more : length (k.stdin ++ c ∷ []) ≤ stdin_size =
        ground (arith, length-append k.stdin (c ∷ [])) in
      rw e record {
        ring = record { read_in = v.ring.read_in; write_in = v.ring.write_in };
        room = more;
      }
  | inr e ↦ rw e v
]

push_bytes-IsBounded : (cs : List ℕ) (k : Keyboard) → IsBounded k → IsBounded (push_bytes cs k)
unfolding push_bytes
push_bytes-IsBounded [] k v = v
push_bytes-IsBounded (c ∷ cs) k v =
    push_bytes-IsBounded cs (push_byte c k) (push_byte-IsBounded c k v)

update_leds-IsBounded : (k : Keyboard) → IsBounded k → IsBounded (update_leds k)
unfolding update_leds
update_leds-IsBounded k v = record {
  ring = record { read_in = v.ring.read_in; write_in = v.ring.write_in };
  room = v.room;
}

set_modifier-IsBounded :
    (b : Bool) (key : ℕ) (k : Keyboard) → IsBounded k → IsBounded (set_modifier b key k)
set_modifier-IsBounded b key k v = record {
  ring = record { read_in = v.ring.read_in; write_in = v.ring.write_in };
  room = v.room;
}

toggle_locks-IsBounded : (key : ℕ) (k : Keyboard) → IsBounded k → IsBounded (toggle_locks key k)
unfolding toggle_locks
toggle_locks-IsBounded key k v =
    let k' : Keyboard = record k {
      caps = if key == key_caps_lock then not k.caps else k.caps;
      num_lock = if key == key_num_lock then not k.num_lock else k.num_lock;
      scroll_lock = if key == key_scroll_lock then not k.scroll_lock else k.scroll_lock;
    } in
    let w : IsBounded k' = record {
      ring = record { read_in = v.ring.read_in; write_in = v.ring.write_in };
      room = v.room;
    } in
    either ((key == key_caps_lock) || ((key == key_num_lock) || (key == key_scroll_lock)))
      (update_leds k') k' (update_leds-IsBounded k' w) w

type_key-IsBounded : (key : ℕ) (k : Keyboard) → IsBounded k → IsBounded (type_key key k)
unfolding type_key
type_key-IsBounded key k v =
    let k' : Keyboard = if k.alt then push_byte 27 k else k in
    let w : IsBounded k' = either k.alt (push_byte 27 k) k (push_byte-IsBounded 27 k v) v in
    either (key_to_ascii key k == 0) (push_bytes (sequence key) k)
      (push_byte (with_ctrl k'.ctrl (key_to_ascii key k)) k')
      (push_bytes-IsBounded (sequence key) k v)
      (push_byte-IsBounded (with_ctrl k'.ctrl (key_to_ascii key k)) k' w)

press_key-IsBounded : (key sc : ℕ) (k : Keyboard) → IsBounded k → IsBounded (press_key key sc k)
unfolding press_key
press_key-IsBounded key sc k v =
    let k' : Keyboard = toggle_locks key (set_modifier true key k) in
    let w : IsBounded k' =
      toggle_locks-IsBounded key (set_modifier true key k) (set_modifier-IsBounded true key k v) in
    let typed : Keyboard = type_key key k' in
    either (k'.alt && (leb key_f1 key && leb key key_f12))
      (record k' { terminals = (key - key_f1 + 1) ∷ k'.terminals })
      (push_event (event_of key true sc typed) typed)
      record {
        ring = record { read_in = w.ring.read_in; write_in = w.ring.write_in };
        room = w.room;
      }
      (push_event-IsBounded (event_of key true sc typed) typed (type_key-IsBounded key k' w))

release_key-IsBounded : (key sc : ℕ) (k : Keyboard) → IsBounded k → IsBounded (release_key key sc k)
unfolding release_key
release_key-IsBounded key sc k v =
    let k' : Keyboard = set_modifier false key k in
    push_event-IsBounded (event_of key false sc k') k' (set_modifier-IsBounded false key k v)

with_state :
    (k : Keyboard) (e : Bool) (raw tick : ℕ)
    → IsBounded k
    → IsBounded (record k { extended = e; last_raw_scancode = raw; last_scancode_tick = tick })
with_state k e raw tick v = record {
  ring = record { read_in = v.ring.read_in; write_in = v.ring.write_in };
  room = v.room;
}

decode-IsBounded : (sc : ℕ) (k : Keyboard) → IsBounded k → IsBounded (decode sc k)
unfolding decode
decode-IsBounded sc k v =
    let low : ℕ = sc % 128 in
    let key : ℕ = if k.extended then extended_scancode_to_key low else scancode_to_key low in
    let plain : Keyboard = record k { extended = false } in
    let w : IsBounded plain = with_state k false k.last_raw_scancode k.last_scancode_tick v in
    let keyed : Keyboard =
      if leb 128 sc then release_key key low plain else press_key key low plain in
    either (sc == 0xE0) (record k { extended = true }) (if sc == 0xE1 then k else keyed)
      (with_state k true k.last_raw_scancode k.last_scancode_tick v)
      (either (sc == 0xE1) k keyed v (
        either (leb 128 sc) (release_key key low plain) (press_key key low plain)
          (release_key-IsBounded key low plain w) (press_key-IsBounded key low plain w)))

process_scancode-IsBounded :
    (now sc : ℕ) (k : Keyboard) → IsBounded k → IsBounded (process_scancode now sc k)
unfolding process_scancode
process_scancode-IsBounded now sc k v =
    let k' : Keyboard = record k { last_raw_scancode = sc; last_scancode_tick = now } in
    either ((sc == k.last_raw_scancode) && ltb ((now + 2 ^ 64 - k.last_scancode_tick) % 2 ^ 64) 15)
      k (decode sc k') v (decode-IsBounded sc k' (with_state k k.extended sc now v))

-- Whatever bytes the controller gives, the interrupt handler keeps the places of the queue below
-- its 128 and the bytes for the terminal within their 256.
pub irq_handler-IsBounded :
    (rounds : List (ℕ × ℕ × ℕ)) (k : Keyboard) → IsBounded k → IsBounded (irq_handler rounds k)
unfolding irq_handler
irq_handler-IsBounded [] k v = v
irq_handler-IsBounded ((status, sc, now) ∷ rounds) k v =
    let next : Keyboard = process_scancode now sc k in
    let w : IsBounded next = process_scancode-IsBounded now sc k v in
    either (status % 2 == 0) k (if status / 32 % 2 == 1 then k else irq_handler rounds next) v (
      either (status / 32 % 2 == 1) k (irq_handler rounds next) v
        (irq_handler-IsBounded rounds next w))
