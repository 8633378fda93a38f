-- ===== src/Console/Sent.antt =====
-- What lib/console.c sends over the serial port.
use raptor_kernel.Prelude.{
  ℕ, ◌≡◌, refl, ap, sym, ◌∙◌, inl, inr, false, List, [], ◌∷◌, ◌++◌, append-nil, append_assoc, ◌==◌,
  if◌then◌else◌, Bool-cases, ==_iff,
}
use raptor_kernel.Console.{
  Console, serial_putc, console_putc, console_write, console_set_color, console_clear,
}

-- What a terminal is sent for a text: each newline as CR LF.
unfoldable pub crlf : List ℕ → List ℕ
crlf [] = []
crlf (c ∷ cs) = if c == 10 then 13 ∷ 10 ∷ crlf cs else c ∷ crlf cs

putc-serial :
    (con : Console) (c : ℕ)
    → con.capturing ≡ false
    → ((console_putc con c).serial ≡ con.serial ++ crlf (c ∷ []))
      × ((console_putc con c).capturing ≡ false)
unfolding console_putc serial_putc crlf
putc-serial con c off = elim (Bool-cases (c == 10)) [
  | inl newline ↦
      let e : c ≡ 10 = (==_iff c 10).0 newline in
      rw (off, newline, e) (append_assoc (con.serial) (13 ∷ []) (10 ∷ []), refl)
  | inr other ↦ rw (off, other) (refl, refl)
]

crlf-cons : (c : ℕ) (cs : List ℕ) → crlf (c ∷ []) ++ crlf cs ≡ crlf (c ∷ cs)
unfolding crlf
crlf-cons c cs = elim (Bool-cases (c == 10)) [ inl e ↦ rw e refl | inr e ↦ rw e refl ]

-- Without a capture the serial port is sent the text, each newline as CR LF.
pub console_write-serial :
    (con : Console) (cs : List ℕ)
    → con.capturing ≡ false
    → (console_write con cs).serial ≡ con.serial ++ crlf cs
unfolding console_write
console_write-serial con [] off =
    sym (append-nil (con.serial)) ∙ ap (λ t. con.serial ++ t) (crlf-nil)
  where
    crlf-nil : [] ≡ crlf []
    crlf-nil = unfold crlf in refl
console_write-serial con (c ∷ cs) off =
    let (e, off') = putc-serial con c off in
    console_write-serial (console_putc con c) cs off'
    ∙ ap (λ t. t ++ crlf cs) e
    ∙ append_assoc (con.serial) (crlf (c ∷ [])) (crlf cs)
    ∙ ap (λ t. con.serial ++ t) (crlf-cons c cs)

-- A write starts no capture.
pub console_write-off :
    (con : Console) (cs : List ℕ) → con.capturing ≡ false → (console_write con cs).capturing ≡ false
unfolding console_write
console_write-off con [] off = off
console_write-off con (c ∷ cs) off =
    console_write-off (console_putc con c) cs (putc-serial con c off).1

pub crlf-append : (xs ys : List ℕ) → crlf (xs ++ ys) ≡ crlf xs ++ crlf ys
unfolding crlf
crlf-append [] ys = refl
crlf-append (x ∷ xs) ys = elim (Bool-cases (x == 10)) [
  | inl e ↦ rw e (ap (λ t. 13 ∷ 10 ∷ t) (crlf-append xs ys))
  | inr e ↦ rw e (ap (λ t. x ∷ t) (crlf-append xs ys))
]

-- The serial port was sent a text after what it had been sent before, and nothing is captured.
pub record Sent (con con' : Console) (text : List ℕ) : Type 0 where
  pub serial : con'.serial ≡ con.serial ++ crlf text
  pub over : con'.capturing ≡ false

pub Sent-write :
    (con con' : Console) (text more : List ℕ)
    → Sent con con' text
    → Sent con (console_write con' more) (text ++ more)
Sent-write con con' text more s = record {
  serial =
      console_write-serial con' more s.over
      ∙ ap (λ t. t ++ crlf more) s.serial
      ∙ append_assoc con.serial (crlf text) (crlf more)
      ∙ ap (λ t. con.serial ++ t) (sym (crlf-append text more));
  over = console_write-off con' more s.over;
}

pub Sent-trans :
    (a b c : Console) (text more : List ℕ) → Sent a b text → Sent b c more → Sent a c (text ++ more)
Sent-trans a b c text more s t = record {
  serial =
      t.serial
      ∙ ap (λ x. x ++ crlf more) s.serial
      ∙ append_assoc a.serial (crlf text) (crlf more)
      ∙ ap (λ x. a.serial ++ x) (sym (crlf-append text more));
  over = t.over;
}

pub Sent-color :
    (a b : Console) (text : List ℕ) (fg bg : ℕ)
    → Sent a b text
    → Sent a (console_set_color b fg bg) text
unfolding console_set_color
Sent-color a b text fg bg s = record { serial = s.serial; over = s.over }

pub Sent-clear : (a : Console) → a.capturing ≡ false → Sent a (console_clear a) []
unfolding console_clear crlf
Sent-clear a off = record { serial = sym (append-nil a.serial); over = off }
