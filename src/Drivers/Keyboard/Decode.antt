-- ===== src/Drivers/Keyboard/Decode.antt =====
-- The interrupt handler of drivers/keyboard.c on the keys of a US keyboard: what is pressed and released
-- against the characters that come into the queue.
use Prim.Native.Nat.{bit_and}
use raptor_kernel.Prelude.{
  ℕ, ◌+◌, ◌<◌, ◌≡◌, ◌≢◌, refl, sym, subst, ◌∙◌, inl, inr, Bool, true, false, not, ◌&&◌, ◌||◌, List,
  [], ◌∷◌, ◌++◌, leb, ◌==◌, if◌then◌else◌, arith, Bool-cases, ==_iff, all_below, all_below_lem,
  and_parts,
}
use raptor_kernel.Drivers.Keyboard.{Keyboard, push, translate, keyboard_irq}
use raptor_kernel.Drivers.Keyboard.Ring.{Queue-modes, enqueue, push-Queue}
use raptor_kernel.Drivers.Keyboard.Keys.{
  us_key, translate_lem, KeyEvent, left_shift_down, left_shift_up, right_shift_down, right_shift_up,
  caps_lock_down, caps_lock_up, up_down, up_up, down_down, down_up, key_down, key_up, extended,
  scancodes, IsPlain, IsEvent, typed, Typing, after_event, Shows, receive,
}

push-modes :
    (k : Keyboard) (c : ℕ)
    → ((push k c).shift ≡ k.shift) × ((push k c).caps ≡ k.caps) × ((push k c).saw_e0 ≡ k.saw_e0)
unfolding push
push-modes k c = elim (Bool-cases (bit_and (k.head + 1) 255 == k.tail)) [
  | inl full ↦ rw full (refl, refl, refl)
  | inr free ↦ rw free (refl, refl, refl)
]

Shows-push :
    (k : Keyboard) (t : Typing) (c : ℕ)
    → Shows k t
    → Shows (push k c) (record t { queue = enqueue t.queue c })
Shows-push k t c h =
    let (s, l, e) = push-modes k c in
    record {
      queue = push-Queue k t.queue c h.queue;
      shift = s ∙ h.shift;
      caps = l ∙ h.caps;
      between = e ∙ h.between;
    }

Shows-typed :
    (k : Keyboard) (t : Typing) (c : ℕ)
    → Shows k t
    → Shows (if c == 0 then k else push k c) (record t { queue = typed t.queue c })
Shows-typed k t c h = elim (Bool-cases (c == 0)) [
  | inl nul ↦ rw nul h
  | inr char ↦ rw char (Shows-push k t c h)
]

not_if : {T : Type 0} (b : Bool) (x y : T) → b ≡ false → (if b then x else y) ≡ y
not_if b x y e = rw e refl

-- The handler between two events, on a byte that is not the prefix.
abbrev plain_byte : Keyboard → (sc : ℕ) → Keyboard
plain_byte k sc =
    let released = bit_and sc 0x7f in
    let c = translate k.shift k.caps sc in
    if not (bit_and sc 0x80 == 0)
    then (if released == 0x2a || released == 0x36 then record k { shift = false } else k)
    else if sc == 0x2a || sc == 0x36
    then record k { shift = true }
    else if sc == 0x3a
    then record k { caps = not k.caps }
    else if leb 128 sc
    then k
    else if c == 0
    then k
    else push k c

irq_plain :
    (k : Keyboard) (sc : ℕ)
    → k.saw_e0 ≡ false
    → (sc == 0xe0) ≡ false
    → keyboard_irq k sc ≡ plain_byte k sc
unfolding keyboard_irq
irq_plain k sc e other = not_if (sc == 0xe0) _ _ other ∙ not_if k.saw_e0 _ _ e

bits_test :
    all_below 128 (λ sc.
      (bit_and sc 0x80 == 0)
      && (bit_and (sc + 0x80) 0x80 == 0x80)
      && (bit_and (sc + 0x80) 0x7f == sc))
    ≡ true
bits_test = refl

bits :
    (sc : ℕ)
    → sc < 128
    → (bit_and sc 0x80 ≡ 0) × (bit_and (sc + 0x80) 0x80 ≡ 0x80) × (bit_and (sc + 0x80) 0x7f ≡ sc)
bits sc h =
    let all =
      all_below_lem 128
        (λ sc.
          (bit_and sc 0x80 == 0)
          && (bit_and (sc + 0x80) 0x80 == 0x80)
          && (bit_and (sc + 0x80) 0x7f == sc))
        bits_test sc h in
    let (front, low) = and_parts _ _ all in
    let (clear, set) = and_parts _ _ front in
    ((==_iff _ _).0 clear, (==_iff _ _).0 set, (==_iff _ _).0 low)

plain_down :
    (k : Keyboard) (sc : ℕ)
    → IsPlain sc
    → let c = us_key k.shift k.caps sc in plain_byte k sc ≡ (if c == 0 then k else push k c)
plain_down k sc (small, l, r, caps, p) =
    let bit = (bits sc small).0 in
    let h1 : (sc == 0x2a) ≡ false = ground (arith, l) in
    let h2 : (sc == 0x36) ≡ false = ground (arith, r) in
    let h3 : (sc == 0x3a) ≡ false = ground (arith, caps) in
    let h4 : leb 128 sc ≡ false = ground (arith, small) in
    rw (bit, h1, h2, h3, h4, translate_lem k.shift k.caps sc small) refl

plain_up : (k : Keyboard) (sc : ℕ) → IsPlain sc → plain_byte k (sc + 0x80) ≡ k
plain_up k sc (small, l, r, caps, p) =
    let (clear, set, low) = bits sc small in
    let h1 : (sc == 0x2a) ≡ false = ground (arith, l) in
    let h2 : (sc == 0x36) ≡ false = ground (arith, r) in rw (set, low, h1, h2) refl

-- Two bytes with the prefix.
with_prefix :
    (k : Keyboard) (sc : ℕ)
    → (sc == 0xe0) ≡ false
    → keyboard_irq (keyboard_irq k 0xe0) sc ≡ (
        if sc == 0x48
        then push (record k { saw_e0 = false }) 0x80
        else if sc == 0x50
        then push (record k { saw_e0 = false }) 0x81
        else record k { saw_e0 = false })
unfolding keyboard_irq
with_prefix k sc other = rw other refl

ignored_prefix :
    (k : Keyboard) (sc : ℕ)
    → sc ≢ 0x48
    → sc ≢ 0x50
    → sc ≢ 0xe0
    → keyboard_irq (keyboard_irq k 0xe0) sc ≡ record k { saw_e0 = false }
ignored_prefix k sc up down pre =
    let h0 : (sc == 0xe0) ≡ false = ground (arith, pre) in
    let h1 : (sc == 0x48) ≡ false = ground (arith, up) in
    let h2 : (sc == 0x50) ≡ false = ground (arith, down) in with_prefix k sc h0 ∙ rw (h1, h2) refl

module _ (k : Keyboard) (t : Typing) (h : Shows k t) where
  idle : Shows (record k { saw_e0 = false }) t
  idle = record {
    queue = Queue-modes k t.queue k.shift k.caps false h.queue;
    shift = h.shift;
    caps = h.caps;
    between = refl;
  }

  -- A mode key, by what the handler makes of its byte.
  mode_key :
      (sc : ℕ) (s c : Bool)
      → (sc == 0xe0) ≡ false
      → plain_byte k sc ≡ record k { shift = s; caps = c }
      → Shows (keyboard_irq k sc) (record t { shift = s; caps = c })
  mode_key sc s c other e =
      subst (λ k'. Shows k' (record t { shift = s; caps = c }))
        (sym (irq_plain k sc h.between other ∙ e))
        (record {
          queue = Queue-modes k t.queue s c k.saw_e0 h.queue;
          shift = refl;
          caps = refl;
          between = h.between;
        })

  unchanged : (sc : ℕ) → (sc == 0xe0) ≡ false → plain_byte k sc ≡ k → Shows (keyboard_irq k sc) t
  unchanged sc other e = subst (λ k'. Shows k' t) (sym (irq_plain k sc h.between other ∙ e)) h

  event-Shows : (e : KeyEvent) → IsEvent e → Shows (receive k (scancodes e)) (after_event t e)
  event-Shows left_shift_down g =
      subst (λ c. Shows (keyboard_irq k 0x2a) (record t { shift = true; caps = c })) h.caps
        (mode_key 0x2a true k.caps refl refl)
  event-Shows right_shift_down g =
      subst (λ c. Shows (keyboard_irq k 0x36) (record t { shift = true; caps = c })) h.caps
        (mode_key 0x36 true k.caps refl refl)
  event-Shows left_shift_up g =
      subst (λ c. Shows (keyboard_irq k 0xaa) (record t { shift = false; caps = c })) h.caps
        (mode_key 0xaa false k.caps refl refl)
  event-Shows right_shift_up g =
      subst (λ c. Shows (keyboard_irq k 0xb6) (record t { shift = false; caps = c })) h.caps
        (mode_key 0xb6 false k.caps refl refl)
  event-Shows caps_lock_down g =
      subst (λ s. Shows (keyboard_irq k 0x3a) (record t { shift = s; caps = not t.caps })) h.shift
        (subst (λ c. Shows (keyboard_irq k 0x3a) (record t { shift = k.shift; caps = not c }))
          h.caps (mode_key 0x3a k.shift (not k.caps) refl refl))
  event-Shows caps_lock_up g = unchanged 0xba refl refl
  event-Shows up_down g =
      subst (λ k'. Shows k' (after_event t up_down)) (sym (with_prefix k 0x48 refl))
        (Shows-push _ t 0x80 idle)
  event-Shows down_down g =
      subst (λ k'. Shows k' (after_event t down_down)) (sym (with_prefix k 0x50 refl))
        (Shows-push _ t 0x81 idle)
  event-Shows up_up g =
      subst (λ k'. Shows k' t)
        (sym (
          ignored_prefix k 0xc8 (λ e. omega (arith, e)) (λ e. omega (arith, e))
            (λ e. omega (arith, e))))
        idle
  event-Shows down_up g =
      subst (λ k'. Shows k' t)
        (sym (
          ignored_prefix k 0xd0 (λ e. omega (arith, e)) (λ e. omega (arith, e))
            (λ e. omega (arith, e))))
        idle
  event-Shows (extended sc) (up, down, pre) =
      subst (λ k'. Shows k' t) (sym (ignored_prefix k sc up down pre)) idle
  event-Shows (key_up sc) g =
      unchanged (sc + 0x80) (let p = g.4 in ground (arith, p)) (plain_up k sc g)
  event-Shows (key_down sc) g =
      let other : (sc == 0xe0) ≡ false = (let small = g.0 in ground (arith, small)) in
      subst (λ k'. Shows k' (after_event t (key_down sc)))
        (sym (irq_plain k sc h.between other ∙ plain_down k sc g))
        (subst
          (λ s.
            Shows (if us_key k.shift k.caps sc == 0 then k else push k (us_key k.shift k.caps sc))
              (record t { queue = typed t.queue (us_key s t.caps sc) }))
          h.shift
          (subst
            (λ c.
              Shows (if us_key k.shift k.caps sc == 0 then k else push k (us_key k.shift k.caps sc))
                (record t { queue = typed t.queue (us_key k.shift c sc) }))
            h.caps (Shows-typed k t (us_key k.shift k.caps sc) h)))

abbrev pub AllEvents : List KeyEvent → Type 0
AllEvents [] = Unit {0}
AllEvents (e ∷ es) = IsEvent e × AllEvents es

abbrev pub all_scancodes : List KeyEvent → List ℕ
all_scancodes [] = []
all_scancodes (e ∷ es) = scancodes e ++ all_scancodes es

abbrev pub after_events : Typing → List KeyEvent → Typing
after_events t [] = t
after_events t (e ∷ es) = after_events (after_event t e) es

receive-append : (k : Keyboard) (xs ys : List ℕ) → receive k (xs ++ ys) ≡ receive (receive k xs) ys
receive-append k [] ys = refl
receive-append k (x ∷ xs) ys = receive-append (keyboard_irq k x) xs ys

-- Whatever is pressed and released on a US keyboard, one byte to the handler after the other: the
-- queue gets, as long as there is room, the characters of the keys in their order, letters as capitals
-- when exactly one of Shift and Caps Lock is on, the other keys by Shift alone, KEY_UP and KEY_DOWN for
-- the arrows and nothing for keys behind the prefix that are not arrows or when a key is released;
-- and the driver knows afterwards whether Shift and Caps Lock are on, with no prefix pending. Shift is
-- on from the press of a Shift key to the release of either; Caps Lock changes when it is pressed. The
-- other keys have scancodes below 128 that are none of these keys', nor the prefix when released.
pub receive-Shows :
    (k : Keyboard) (t : Typing) (events : List KeyEvent)
    → Shows k t
    → AllEvents events
    → Shows (receive k (all_scancodes events)) (after_events t events)
receive-Shows k t [] h g = h
receive-Shows k t (e ∷ es) h g =
    subst (λ k'. Shows k' (after_events (after_event t e) es))
      (sym (receive-append k (scancodes e) (all_scancodes es)))
      (receive-Shows (receive k (scancodes e)) (after_event t e) es (event-Shows k t h e g.0) g.1)
