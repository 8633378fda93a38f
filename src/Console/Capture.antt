-- ===== src/Console/Capture.antt =====
-- The two places that the output of lib/console.c goes to: a capture buffer, or the screen and the
-- serial port.
use raptor_kernel.Prelude.{
  ℕ, zero, suc, ◌+◌, ◌<◌, ◌≤◌, ◌≡◌, ◌≢◌, refl, ap, ◌∙◌, inl, inr, true, List, [], ◌∷◌, min, ltb,
  get_or, length, arith, Bool-cases,
}
use raptor_kernel.Console.{
  Console, store, console_putc, console_write, console_capture_begin, console_capture_end,
}

-- `con'` has captured the bytes `cs` after what `con` had, as far as they fit.
pub record Captured (con con' : Console) (cs : List ℕ) : Type 0 where
  pub active : con'.capturing ≡ true
  pub cap : con'.capture_cap ≡ con.capture_cap
  pub len : con'.capture_len ≡ min (con.capture_len + length cs) (con.capture_cap)
  pub quiet : (con'.vga ≡ con.vga) × (con'.serial ≡ con.serial)
  pub before : (i : ℕ) → i < con.capture_len → con'.capture_buf i ≡ con.capture_buf i
  pub bytes :
      (i : ℕ)
      → i < length cs
      → con.capture_len + i < con.capture_cap
      → con'.capture_buf (con.capture_len + i) ≡ get_or cs i 0
  pub beyond : (i : ℕ) → con.capture_cap ≤ i → con'.capture_buf i ≡ con.capture_buf i

abbrev captured_one : Console → ℕ → Console
captured_one con c = record con {
  capture_buf = store (con.capture_buf) (con.capture_len) c;
  capture_len = con.capture_len + 1;
}

store_self : (buf : ℕ → ℕ) (i c : ℕ) → store buf i c i ≡ c
unfolding store
store_self buf i c = ground arith

store_ne : (buf : ℕ → ℕ) (i c j : ℕ) → i ≢ j → store buf i c j ≡ buf j
unfolding store
store_ne buf i c j h = ground arith

Captured-step :
    (con con' : Console) (c : ℕ) (cs : List ℕ)
    → con.capture_len < con.capture_cap
    → Captured (captured_one con c) con' cs
    → Captured con con' (c ∷ cs)
Captured-step con con' c cs room r = record {
  active = r.active;
  cap = r.cap;
  len = omega (arith, r.len);
  quiet = r.quiet;
  before = λ i h.
      r.before i (omega (arith, h))
      ∙ store_ne (con.capture_buf) (con.capture_len) c i (omega (arith, h));
  bytes = λ i h k. byte i h k;
  beyond = λ i h.
      r.beyond i h ∙ store_ne (con.capture_buf) (con.capture_len) c i (omega (arith, h, room));
}
  where
    byte :
        (i : ℕ)
        → i < suc (length cs)
        → con.capture_len + i < con.capture_cap
        → con'.capture_buf (con.capture_len + i) ≡ get_or (c ∷ cs) i 0
    byte zero h k =
        ap (con'.capture_buf) (omega arith)
        ∙ r.before (con.capture_len) (omega arith)
        ∙ store_self (con.capture_buf) (con.capture_len) c
    byte (suc i) h k =
        ap (con'.capture_buf) (omega arith) ∙ r.bytes i (omega arith) (omega (arith, k))

Captured-full :
    (con con' : Console) (c : ℕ) (cs : List ℕ)
    → con.capture_cap ≤ con.capture_len
    → con.capture_len ≤ con.capture_cap
    → Captured con con' cs
    → Captured con con' (c ∷ cs)
Captured-full con con' c cs full bound r = record {
  active = r.active;
  cap = r.cap;
  len = omega (arith, r.len, full);
  quiet = r.quiet;
  before = r.before;
  bytes = λ i h k. absurd (omega (arith, k, full));
  beyond = r.beyond;
}

console_write-Captured :
    (con : Console) (cs : List ℕ)
    → con.capturing ≡ true
    → con.capture_len ≤ con.capture_cap
    → Captured con (console_write con cs) cs
unfolding console_write
console_write-Captured con [] on bound = record {
  active = on;
  cap = refl;
  len = omega (arith, bound);
  quiet = (refl, refl);
  before = λ i h. refl;
  bytes = λ i h k. absurd (omega arith);
  beyond = λ i h. refl;
}
console_write-Captured con (c ∷ cs) on bound =
    elim (Bool-cases (ltb (con.capture_len) (con.capture_cap))) [
      | inl room ↦
          let less : con.capture_len < con.capture_cap = ground (arith, room) in
          let e : console_putc con c ≡ captured_one con c = rw (on, room, console_putc) refl in
          rw e (
            Captured-step con (console_write (captured_one con c) cs) c cs less
              (console_write-Captured (captured_one con c) cs on (omega (arith, less))))
      | inr full ↦
          let more : con.capture_cap ≤ con.capture_len = ground (arith, full) in
          let e : console_putc con c ≡ con = rw (on, full, console_putc) refl in
          rw e (
            Captured-full con (console_write con cs) c cs more bound
              (console_write-Captured con cs on bound))
    ]

-- Between console_capture_begin and console_capture_end the bytes written go to the buffer, the first
-- `cap` of them, the length returned is their number, nothing is written from `cap` on, and nothing
-- reaches the screen or the serial port.
pub capture_lem :
    (con : Console) (buf : ℕ → ℕ) (cap : ℕ) (cs : List ℕ)
    → let con' = console_write (console_capture_begin con buf cap) cs in
      ((console_capture_end con').0 ≡ min (length cs) cap)
      × ((i : ℕ) → i < length cs → i < cap → con'.capture_buf i ≡ get_or cs i 0)
      × ((i : ℕ) → cap ≤ i → con'.capture_buf i ≡ buf i)
      × (con'.vga ≡ con.vga)
      × (con'.serial ≡ con.serial)
unfolding console_capture_begin console_capture_end
capture_lem con buf cap cs =
    let r = console_write-Captured (console_capture_begin con buf cap) cs refl (omega arith) in
    (
      omega (arith, r.len),
      (λ i h k.
          let e : i ≡ 0 + i = omega arith in
          ap ((console_write (console_capture_begin con buf cap) cs).capture_buf) e
          ∙ r.bytes i h (omega (arith, k))),
      r.beyond,
      r.quiet.0,
      r.quiet.1,
    )
