-- ===== src/Keyboard/Tests.antt =====
-- The keyboard of src/kernel/drivers/keyboard.cpp on scan codes.
use los_tac_os.Base.{ℕ, ◌≡◌, true, false, List, [], ◌∷◌, ◌++◌, length, ◌==◌, if◌then◌else◌, arith}
use los_tac_os.Keyboard.{KeyEvent, Keyboard, no_event, push_event, pop, irq_handler}
use los_tac_os.Keyboard.Queue.{InRing, pending, push_event-pending, Popped, pop-Popped}
use los_tac_os.Keyboard.Bounds.{IsBounded, irq_handler-IsBounded}

-- The event of the key A.
abbrev key_event : KeyEvent
key_event = record no_event { key = 1; pressed = true; scancode = 30 }

-- One event waits, at the last place of the ring.
abbrev waiting : Keyboard
waiting = record {
  queue = λ _. key_event;
  queue_read = 127;
  queue_write = 0;
  shift = false;
  caps = false;
  ctrl = false;
  alt = false;
  num_lock = false;
  scroll_lock = false;
  last_raw_scancode = 0;
  last_scancode_tick = 0;
  extended = false;
  stdin = [];
  leds = [];
  terminals = [];
}

waiting-InRing : InRing waiting
waiting-InRing = record { read_in = omega arith; write_in = omega arith }

push_event-pending_example :
    InRing (push_event key_event waiting)
    × (pending (push_event key_event waiting) ≡ (
        if length (pending waiting) == 127
        then pending waiting
        else pending waiting ++ key_event ∷ []))
push_event-pending_example = push_event-pending waiting key_event waiting-InRing

pop-Popped_example : Popped waiting (pop waiting)
pop-Popped_example = pop-Popped waiting waiting-InRing

-- Shift and A, pressed and released.
abbrev rounds : List (ℕ × ℕ × ℕ)
rounds = (1, 0x2A, 100) ∷ ((1, 0x1E, 120) ∷ ((1, 0x9E, 140) ∷ ((1, 0xAA, 160) ∷ [])))

irq_handler-IsBounded_example : IsBounded (irq_handler rounds waiting)
irq_handler-IsBounded_example =
    irq_handler-IsBounded rounds waiting record { ring = waiting-InRing; room = omega arith }
