-- ===== src/Shell/Input.antt =====
-- read_line of shell/shell.c: what is typed, and the bound of the buffer.
use raptor_kernel.Prelude.{
  ℕ, ◌+◌, ◌-◌, ◌<◌, ◌≤◌, ◌≡◌, refl, ap, sym, subst, ◌∙◌, inl, inr, Bool, true, false, ◌||◌, Option,
  none, some, List, [], ◌∷◌, ◌++◌, append-nil, append_assoc, ltb, ◌==◌, if◌then◌else◌, take, length,
  length-append, length-take, arith, Bool-cases,
}
use raptor_kernel.Prelude.Int.{pos}
use raptor_kernel.Shell.{
  History, shell_history_count, shell_history, replace_line, drop_last, read_loop, read_line,
  key_up, key_down,
}

-- Every byte is a printable character of ASCII.
abbrev pub Printable : List ℕ → Type 0
Printable [] = Unit {0}
Printable (c ∷ cs) = (0x20 ≤ c) × (c ≤ 0x7e) × Printable cs

printable_step :
    (h : History) (cap c : ℕ) (keys buf : List ℕ) (browse : ℕ)
    → 0x20 ≤ c
    → c ≤ 0x7e
    → length buf + 1 < cap
    → read_loop h cap (c ∷ keys) buf browse ≡ read_loop h cap keys (buf ++ (c ∷ [])) browse
unfolding read_loop
printable_step h cap c keys buf browse l u room =
    let n1 : (c == 10) ≡ false = ground (arith, l) in
    let n2 : (c == 8) ≡ false = ground (arith, l) in
    let n3 : (c == key_up) ≡ false = ground (arith, u) in
    let n4 : (c == key_down) ≡ false = ground (arith, u) in
    let n5 : (c == 9) ≡ false = ground (arith, l) in
    let n6 : ltb c 0x20 ≡ false = ground (arith, l) in
    let n7 : ltb 0x7e c ≡ false = ground (arith, u) in
    let n8 : ltb (length buf + 1) cap ≡ true = ground (arith, room) in
    rw (n1, n2, n3, n4, n5, n6, n7, n8) refl

typed_on :
    (h : History) (cap : ℕ) (cs rest buf : List ℕ) (browse : ℕ)
    → Printable cs
    → length buf + length cs < cap
    → read_loop h cap (cs ++ (10 ∷ rest)) buf browse ≡ some (buf ++ cs)
unfolding read_loop
typed_on h cap [] rest buf browse p room = ap some (sym (append-nil buf))
typed_on h cap (c ∷ cs) rest buf browse p room =
    printable_step h cap c (cs ++ (10 ∷ rest)) buf browse p.0 p.1 (omega (arith, room))
    ∙ typed_on h cap cs rest (buf ++ (c ∷ [])) browse p.2
        (omega (arith, room, length-append buf (c ∷ [])))
    ∙ ap some (append_assoc buf (c ∷ []) cs)

-- Printable characters that fit the buffer with the end of the string, and then a newline, are read
-- as the line; what follows the newline stays unread.
pub read_line_lem :
    (h : History) (cap : ℕ) (cs rest : List ℕ)
    → Printable cs
    → length cs < cap
    → read_line h cap (cs ++ (10 ∷ rest)) ≡ some cs
unfolding read_line
read_line_lem h cap cs rest p room =
    typed_on h cap cs rest [] (shell_history_count h) p (omega (arith, room))

some_inj : (a b : List ℕ) → some a ≡ some b → a ≡ b
some_inj a b e = cc

-- The line, if one is read, fits its buffer.
pub record Fits (cap : ℕ) (line : Option (List ℕ)) : Type 0 where
  pub bound : (text : List ℕ) → line ≡ some text → length text < cap

Fits-none : (cap : ℕ) → Fits cap none
Fits-none cap = record { bound = λ text e. cc }

Fits-some : (cap : ℕ) (buf : List ℕ) → length buf < cap → Fits cap (some buf)
Fits-some cap buf l = record {
  bound = λ text e. subst (λ t. length t < cap) (some_inj buf text e) l;
}

Fits-if :
    (b : Bool) (cap : ℕ) (x y : Option (List ℕ))
    → Fits cap x
    → Fits cap y
    → Fits cap (if b then x else y)
Fits-if true cap x y f g = f
Fits-if false cap x y f g = g

drop_last-length : (cs : List ℕ) → length (drop_last cs) ≤ length cs
unfolding drop_last
drop_last-length [] = omega arith
drop_last-length (c ∷ []) = omega arith
drop_last-length (c ∷ d ∷ cs) = omega (arith, drop_last-length (d ∷ cs))

replaced :
    (cap : ℕ) (shown : Option (List ℕ)) (again : List ℕ → Option (List ℕ))
    → 0 < cap
    → ((buf : List ℕ) → length buf < cap → Fits cap (again buf))
    → Fits cap (elim (replace_line cap shown) [ none ↦ none | some text ↦ again text ])
unfolding replace_line
replaced cap none again p f = Fits-none cap
replaced cap (some shown) again p f =
    f (take (cap - 1) shown) (omega (arith, p, length-take (cap - 1) shown))

appended :
    (h : History) (cap c : ℕ) (ks buf : List ℕ) (browse : ℕ)
    → length buf < cap
    → ((text : List ℕ) (b : ℕ) → length text < cap → Fits cap (read_loop h cap ks text b))
    → Fits cap (
        if ltb (length buf + 1) cap
        then read_loop h cap ks (buf ++ (c ∷ [])) browse
        else read_loop h cap ks buf browse)
appended h cap c ks buf browse l again = elim (Bool-cases (ltb (length buf + 1) cap)) [
  | inl room ↦
      let fits : length buf + 1 < cap = ground (arith, room) in
      rw room (again (buf ++ (c ∷ [])) browse (omega (arith, fits, length-append buf (c ∷ []))))
  | inr full ↦ rw full (again buf browse l)
]

read_loop-Fits :
    (h : History) (cap : ℕ) (keys buf : List ℕ) (browse : ℕ)
    → length buf < cap
    → Fits cap (read_loop h cap keys buf browse)
unfolding read_loop
read_loop-Fits h cap [] buf browse l = Fits-none cap
read_loop-Fits h cap (k ∷ ks) buf browse l =
    let again : (text : List ℕ) (b : ℕ) → length text < cap → Fits cap (read_loop h cap ks text b) =
      λ text b k. read_loop-Fits h cap ks text b k in
    let same = again buf browse l in
    let c = if k == 9 then b' ' else k in
    let pos_cap : 0 < cap = omega (arith, l) in
    Fits-if (k == 10) cap _ _ (Fits-some cap buf l) (
      Fits-if (k == 8) cap _ _
        (again (drop_last buf) browse (omega (arith, l, drop_last-length buf)))
        (Fits-if (k == key_up) cap _ _
          (Fits-if (browse == 0) cap _ _ same (
            replaced cap (shell_history h (pos (browse - 1)))
              (λ t. read_loop h cap ks t (browse - 1)) pos_cap (λ t. again t (browse - 1))))
          (Fits-if (k == key_down) cap _ _
            (Fits-if (ltb browse (shell_history_count h)) cap _ _
              (replaced cap
                (if browse + 1 == shell_history_count h
                  then some []
                  else shell_history h (pos (browse + 1)))
                (λ t. read_loop h cap ks t (browse + 1)) pos_cap (λ t. again t (browse + 1)))
              same)
            (Fits-if (ltb c 0x20 || ltb 0x7e c) cap _ _ same
              (appended h cap c ks buf browse l (λ t b k. again t b k))))))

-- Whatever is typed, a line that read_line returns fits its buffer with the end of the string.
pub read_line-Fits :
    (h : History) (cap : ℕ) (keys : List ℕ) → 0 < cap → Fits cap (read_line h cap keys)
unfolding read_line
read_line-Fits h cap keys p = read_loop-Fits h cap keys [] (shell_history_count h) p
