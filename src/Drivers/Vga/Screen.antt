-- ===== src/Drivers/Vga/Screen.antt =====
-- The text screen of drivers/vga.c: its cursor, the cells that are written, and scrolling.
use raptor_kernel.Prelude.{
  ℕ, zero, suc, ◌+◌, ◌-◌, ◌*◌, ◌^◌, ◌<◌, ◌≤◌, ◌≡◌, refl, ◌∙◌, inl, inr, false, ltb, leb, ◌==◌,
  if◌then◌else◌, arith, Bool-cases,
}
use raptor_kernel.Drivers.Vga.{
  cols, rows, Vga, cell, put, fill, move_hw_cursor, lines_up, scroll_if_needed, vga_clear,
  wrap_line, putc_cell, vga_putc,
}

-- The memory is the same outside the screen's cells.
abbrev SameOutside : (ℕ → ℕ) → (ℕ → ℕ) → Type 0
SameOutside m m' = (j : ℕ) → cols * rows ≤ j → m' j ≡ m j

put-outside : (m : ℕ → ℕ) (i w : ℕ) → i < cols * rows → SameOutside m (put m i w)
unfolding put
put-outside m i w h j k = ground arith

fill-before : (m : ℕ → ℕ) (i w n j : ℕ) → j < i → fill m i w n j ≡ m j
unfolding fill put
fill-before m i w zero j h = refl
fill-before m i w (suc n) j h =
    fill-before (put m i w) (i + 1) w n j (omega arith) ∙ ground (arith, h)

fill-after : (m : ℕ → ℕ) (i w n j : ℕ) → i + n ≤ j → fill m i w n j ≡ m j
unfolding fill put
fill-after m i w zero j h = refl
fill-after m i w (suc n) j h =
    fill-after (put m i w) (i + 1) w n j (omega arith) ∙ ground (arith, h)

fill-inside : (m : ℕ → ℕ) (i w n j : ℕ) → i ≤ j → j < i + n → fill m i w n j ≡ w
unfolding fill put
fill-inside m i w zero j h k = absurd (omega arith)
fill-inside m i w (suc n) j h k = elim (Bool-cases (i == j)) [
  | inl first ↦ fill-before (put m i w) (i + 1) w n j (ground (arith, first)) ∙ rw (first, put) refl
  | inr later ↦ fill-inside (put m i w) (i + 1) w n j (ground (arith, later, h)) (omega arith)
]

-- The cursor is on the screen, and the CRT controller shows it there.
pub record OnScreen (v : Vga) : Type 0 where
  pub row : v.cur_row < rows
  pub col : v.cur_col < cols
  pub shown : v.cursor_high * 2 ^ 8 + v.cursor_low ≡ v.cur_row * cols + v.cur_col

-- Before the screen scrolls the row may be one too far down.
record Printed (v v' : Vga) : Type 0 where
  row : v'.cur_row ≤ rows
  col : v'.cur_col < cols
  outside : SameOutside (v.mem) (v'.mem)

wrapped : (v w : Vga) → w.cur_row < rows → SameOutside (v.mem) (w.mem) → Printed v (wrap_line w)
unfolding wrap_line
wrapped v w r o = elim (Bool-cases (leb cols (w.cur_col))) [
  | inl far ↦ rw far (record { row = omega (arith, r); col = omega arith; outside = o })
  | inr near ↦ rw near (record { row = omega (arith, r); col = ground (arith, near); outside = o })
]

putc_cell-Printed : (v : Vga) (c : ℕ) → OnScreen v → Printed v (putc_cell v c)
unfolding putc_cell
putc_cell-Printed v c s = elim (Bool-cases (c == 10)) [
  | inl newline ↦
      rw newline (record { row = omega (arith, s.row); col = omega arith; outside = λ j h. refl })
  | inr n1 ↦ elim (Bool-cases (c == 13)) [
    | inl return ↦
        rw (n1, return)
          (record { row = omega (arith, s.row); col = omega arith; outside = λ j h. refl })
    | inr n2 ↦ elim (Bool-cases (c == 8)) [
      | inl backspace ↦ rw (n1, n2, backspace) (erased v s)
      | inr n3 ↦ elim (Bool-cases (c == 9)) [
        | inl tab ↦ rw (n1, n2, n3, tab) (wrapped v _ s.row (λ j h. refl))
        | inr n4 ↦
            rw (n1, n2, n3, n4)
              (wrapped v _ s.row (
                put-outside (v.mem) (v.cur_row * cols + v.cur_col) (cell c (v.color))
                  (omega (arith, s.row, s.col))))
      ]
    ]
  ]
]
  where
    erased :
        (v : Vga)
        → OnScreen v
        → Printed v (
            if v.cur_col == 0 then v else record v {
              cur_col = v.cur_col - 1;
              mem = put (v.mem) (v.cur_row * cols + (v.cur_col - 1)) (cell b' ' (v.color));
            })
    erased v s = elim (Bool-cases (v.cur_col == 0)) [
      | inl start ↦
          rw start (record { row = omega (arith, s.row); col = s.col; outside = λ j h. refl })
      | inr inside ↦ rw inside (record {
        row = omega (arith, s.row);
        col = omega (arith, s.col);
        outside =
            put-outside (v.mem) (v.cur_row * cols + (v.cur_col - 1)) (cell b' ' (v.color))
              (omega (arith, s.row, s.col));
      })
    ]

scrolled :
    (v w : Vga)
    → Printed v w
    → (w.cur_row < rows → ⊥)
    → SameOutside (v.mem) ((scroll_if_needed w).mem)
unfolding scroll_if_needed lines_up
scrolled v w p full j h =
    let e : ltb (w.cur_row) rows ≡ false = ground (arith, full) in
    rw e (
      fill-after (lines_up (w.mem)) ((rows - 1) * cols) (cell b' ' (w.color)) cols j
        (omega (arith, h))
      ∙ ground (arith, h)
      ∙ p.outside j h)

moved : (v : Vga) → v.cur_row < rows → v.cur_col < cols → OnScreen (move_hw_cursor v)
unfolding move_hw_cursor
moved v r c = record { row = r; col = c; shown = omega (arith, r, c) }

finished :
    (v w : Vga)
    → Printed v w
    → OnScreen (move_hw_cursor (scroll_if_needed w))
      × SameOutside (v.mem) ((move_hw_cursor (scroll_if_needed w)).mem)
unfolding scroll_if_needed
finished v w p = elim (Bool-cases (ltb (w.cur_row) rows)) [
  | inl fits ↦
      let e : scroll_if_needed w ≡ w = rw (fits, scroll_if_needed) refl in
      let below : w.cur_row < rows = ground (arith, fits) in
      rw e (moved w below p.col, kept_mem w (p.outside))
  | inr full ↦
      let over : ¬ (w.cur_row < rows) = ground (arith, full) in
      (
        moved (scroll_if_needed w) (last_row w full) (same_col w full p.col),
        kept_mem (scroll_if_needed w) (scrolled v w p over),
      )
]
  where
    kept_mem :
        (w : Vga) → SameOutside (v.mem) (w.mem) → SameOutside (v.mem) ((move_hw_cursor w).mem)
    kept_mem w o = unfold move_hw_cursor in o

    last_row : (w : Vga) → ltb (w.cur_row) rows ≡ false → (scroll_if_needed w).cur_row < rows
    last_row w full = rw (full, scroll_if_needed) (omega arith)

    same_col :
        (w : Vga)
        → ltb (w.cur_row) rows ≡ false
        → w.cur_col < cols
        → (scroll_if_needed w).cur_col < cols
    same_col w full c = rw (full, scroll_if_needed) c

-- Printing any character leaves the cursor on the screen, with the CRT controller showing it there,
-- and writes nothing outside the screen's 80 x 25 cells.
pub vga_putc_lem :
    (v : Vga) (c : ℕ)
    → OnScreen v
    → OnScreen (vga_putc v c) × ((j : ℕ) → cols * rows ≤ j → (vga_putc v c).mem j ≡ v.mem j)
unfolding vga_putc
vga_putc_lem v c s = finished v (putc_cell v c) (putc_cell-Printed v c s)

-- A newline on the last line moves every line up by one, blanks the last in the current colour, and
-- leaves the cursor at its start.
pub vga_putc-scroll :
    (v : Vga)
    → v.cur_row ≡ rows - 1
    → ((j : ℕ) → j < (rows - 1) * cols → (vga_putc v 10).mem j ≡ v.mem (j + cols))
      × ((j : ℕ)
          → (rows - 1) * cols ≤ j
          → j < rows * cols
          → (vga_putc v 10).mem j ≡ cell b' ' (v.color))
      × ((vga_putc v 10).cur_row ≡ rows - 1)
      × ((vga_putc v 10).cur_col ≡ 0)
unfolding vga_putc putc_cell scroll_if_needed move_hw_cursor lines_up
vga_putc-scroll v last =
    let full : ltb (v.cur_row + 1) rows ≡ false = ground (arith, last) in
    rw full (
      (λ j h.
          fill-before (lines_up (v.mem)) ((rows - 1) * cols) (cell b' ' (v.color)) cols j h
          ∙ ground (arith, h)),
      (λ j h k.
          fill-inside (lines_up (v.mem)) ((rows - 1) * cols) (cell b' ' (v.color)) cols j h
            (omega (arith, k))),
      refl,
      refl,
    )

-- vga_clear blanks every cell of the screen, touches none outside it, and homes the cursor.
pub vga_clear_lem :
    (v : Vga)
    → ((j : ℕ) → j < cols * rows → (vga_clear v).mem j ≡ cell b' ' (v.color))
      × ((j : ℕ) → cols * rows ≤ j → (vga_clear v).mem j ≡ v.mem j)
      × OnScreen (vga_clear v)
unfolding vga_clear move_hw_cursor
vga_clear_lem v = (
  (λ j h.
      fill-inside (v.mem) 0 (cell b' ' (v.color)) (cols * rows) j (omega arith) (omega (arith, h))),
  (λ j h. fill-after (v.mem) 0 (cell b' ' (v.color)) (cols * rows) j (omega (arith, h))),
  record { row = omega arith; col = omega arith; shown = refl },
)
