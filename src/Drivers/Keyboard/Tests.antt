-- ===== src/Drivers/Keyboard/Tests.antt =====
-- drivers/keyboard.c from the empty buffer.
use raptor_kernel.Prelude.{◌≡◌, refl, false, some, List, [], ◌∷◌, arith}
use raptor_kernel.Drivers.Keyboard.{Keyboard, write, push, translate, keyboard_irq, keyboard_read}
use raptor_kernel.Drivers.Keyboard.Ring.{
  Queue, enqueue, Dequeued, push-Queue, keyboard_read-Queue, Queue-empty,
}
use raptor_kernel.Drivers.Keyboard.Keys.{
  KeyEvent, left_shift_down, left_shift_up, key_down, key_up, up_down, up_up, us_key, Shows,
  receive,
}
use raptor_kernel.Drivers.Keyboard.Decode.{all_scancodes, receive-Shows}

abbrev idle : Keyboard
idle = record { buf = λ _. 0; head = 255; tail = 255; shift = false; caps = false; saw_e0 = false }

idle-Queue : Queue idle []
idle-Queue = Queue-empty idle refl (omega arith)

-- Shift down, H, shift up, I: the buffer wraps.
typed_hi :
    (keyboard_irq (keyboard_irq (keyboard_irq (keyboard_irq idle 0x2a) 0x23) 0xaa) 0x17).head ≡ 1
unfolding keyboard_irq push translate write
typed_hi = refl

read_h : (keyboard_read (keyboard_irq (keyboard_irq idle 0x2a) 0x23)).0 ≡ some b'H'
unfolding keyboard_irq push translate write keyboard_read
read_h = refl

push-Queue_example : Queue (push idle 65) (65 ∷ [])
unfolding enqueue
push-Queue_example = push-Queue idle [] 65 idle-Queue

pushed-Queue : Queue (push idle 65) (65 ∷ [])
unfolding enqueue
pushed-Queue = push-Queue idle [] 65 idle-Queue

keyboard_read-Queue_example : Dequeued (push idle 65) (65 ∷ [])
keyboard_read-Queue_example = keyboard_read-Queue (push idle 65) (65 ∷ []) pushed-Queue

-- Shift and h, i, and the up arrow, behind an A that waits.
abbrev pressed : List KeyEvent
pressed =
    left_shift_down
    ∷ key_down 0x23
    ∷ left_shift_up
    ∷ key_up 0x23
    ∷ key_down 0x17
    ∷ up_down
    ∷ up_up
    ∷ []

receive-Shows_example :
    Shows
      (receive (push idle 65) (all_scancodes pressed))
      (record { shift = false; caps = false; queue = 65 ∷ b'H' ∷ b'i' ∷ 0x80 ∷ [] })
unfolding us_key enqueue
receive-Shows_example =
    receive-Shows (push idle 65) (record { shift = false; caps = false; queue = 65 ∷ [] }) pressed
      shown
      (
        tt,
        (
          (omega arith, omega arith, omega arith, omega arith, omega arith),
          (
            tt,
            (
              (omega arith, omega arith, omega arith, omega arith, omega arith),
              ((omega arith, omega arith, omega arith, omega arith, omega arith), (tt, (tt, tt))),
            ),
          ),
        ),
      )
  where
    shown : Shows (push idle 65) (record { shift = false; caps = false; queue = 65 ∷ [] })
    shown =
        unfold push in record { queue = pushed-Queue; shift = refl; caps = refl; between = refl }
