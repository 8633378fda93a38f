-- ===== src/Strings/Copy.antt =====
-- strcpy, strcat and strlcpy: the string that the target holds afterwards, and what stays.
use raptor_kernel.Prelude.{
  ℕ, zero, suc, ◌+◌, ◌-◌, ◌<◌, ◌≤◌, ◌≡◌, ◌⊎◌, ap, sym, subst, ◌∙◌, inl, inr, false, true, some,
  List, [], ◌∷◌, ◌++◌, arith, ◌==◌, ◌!=◌, ltb, length, take, take-all, Bool-cases,
}
use raptor_kernel.Strings.{Bytes, store, memcpy, strcpy, strcat, strlcpy}
use raptor_kernel.Strings.Text.{Str, Str-frame, strlen_lem}
use raptor_kernel.Strings.Blocks.{store_self, store_ne, memcpy_lem}

-- `m'` differs from `m` at most in the `n` bytes from `p` on.
abbrev pub OnlyIn : Bytes → (p n : ℕ) → Bytes → Type 0
OnlyIn m p n m' = (q : ℕ) → (q < p) ⊎ (p + n ≤ q) → m' q ≡ m q

-- The `k` bytes from `p` on and those from `q` on do not meet.
abbrev pub Apart : (p k q l : ℕ) → Type 0
Apart p k q l = (p + k ≤ q) ⊎ (q + l ≤ p)

-- strcpy of a string to a place apart from it copies the text and its end, and nothing else.
pub strcpy_lem :
    (fuel : ℕ) (m : Bytes) (dst src : ℕ) (xs : List ℕ)
    → Str m src xs
    → length xs < fuel
    → Apart dst (length xs + 1) src (length xs + 1)
    → (m' : Bytes) × (strcpy fuel m dst src ≡ some m')
      × Str m' dst xs
      × OnlyIn m dst (length xs + 1) m'
unfolding strcpy
strcpy_lem zero m dst src xs s h apart = absurd (omega arith)
strcpy_lem (suc fuel) m dst src [] s h apart = (
  store m dst (m src),
  rw s,
  store_self m dst (m src) ∙ s,
  λ q k. store_ne m dst (m src) q (omega arith),
)
strcpy_lem (suc fuel) m dst src (x ∷ xs) s h apart =
    let m1 : Bytes = store m dst (m src) in
    let s' : Str m1 (src + 1) xs =
      Str-frame m m1 (src + 1) xs s.2 (λ q l k. store_ne m dst (m src) q (omega arith)) in
    let (m', e, t, only) =
      strcpy_lem fuel m1 (dst + 1) (src + 1) xs s' (omega arith) (omega arith) in
    let real : (m src != 0) ≡ true = ground (arith, s.0, s.1) in
    (
      m',
      rw real e,
      (only dst (inl (omega arith)) ∙ store_self m dst (m src) ∙ s.0, s.1, t),
      λ q k. only q (omega arith) ∙ store_ne m dst (m src) q (omega arith),
    )

Str-append :
    (m m' : Bytes) (p : ℕ) (xs ys : List ℕ)
    → Str m p xs
    → ((q : ℕ) → p ≤ q → q < p + length xs → m' q ≡ m q)
    → Str m' (p + length xs) ys
    → Str m' p (xs ++ ys)
Str-append m m' p [] ys s same t = subst (λ (q : ℕ). Str m' q ys) (omega arith) t
Str-append m m' p (x ∷ xs) ys s same t = (
  same p (omega arith) (omega arith) ∙ s.0,
  s.1,
  Str-append m m' (p + 1) xs ys s.2 (λ q h k. same q (omega arith) (omega arith))
      (subst (λ (q : ℕ). Str m' q ys)
        (let e : p + length (x ∷ xs) ≡ p + 1 + length xs = omega arith in e) t),
)

-- strcat appends the second text to the first, where the place behind the first string's text is
-- apart from the second string, and changes nothing else.
pub strcat_lem :
    (fuel : ℕ) (m : Bytes) (dst src : ℕ) (xs ys : List ℕ)
    → Str m dst xs
    → Str m src ys
    → length xs < fuel
    → length ys < fuel
    → Apart (dst + length xs) (length ys + 1) src (length ys + 1)
    → (m' : Bytes) × (strcat fuel m dst src ≡ some m')
      × Str m' dst (xs ++ ys)
      × OnlyIn m (dst + length xs) (length ys + 1) m'
unfolding strcat
strcat_lem fuel m dst src xs ys s t hx hy apart =
    let (m', e, r, only) = strcpy_lem fuel m (dst + length xs) src ys t hy apart in
    (
      m',
      rw (strlen_lem fuel m dst xs s hx, strcat) e,
      Str-append m m' dst xs ys s (λ q h k. only q (inl (omega arith))) r,
      only,
    )

Str-take :
    (m m' : Bytes) (p q n : ℕ) (xs : List ℕ)
    → Str m q xs
    → n ≤ length xs
    → ((i : ℕ) → i < n → m' (p + i) ≡ m (q + i))
    → m' (p + n) ≡ 0
    → Str m' p (take n xs)
Str-take m m' p q zero xs s le same end = ap m' (omega arith) ∙ end
Str-take m m' p q (suc n) [] s le same end = absurd (omega arith)
Str-take m m' p q (suc n) (x ∷ xs) s le same end = (
  ap m' (let e : p ≡ p + 0 = omega arith in e)
      ∙ same 0 (omega arith)
      ∙ ap m (let e : q + 0 ≡ q = omega arith in e)
      ∙ s.0,
  s.1,
  Str-take m m' (p + 1) (q + 1) n xs s.2 (omega arith)
      (λ i h.
        ap m' (let e : p + 1 + i ≡ p + (i + 1) = omega arith in e)
        ∙ same (i + 1) (omega arith)
        ∙ ap m (let e : q + (i + 1) ≡ q + 1 + i = omega arith in e))
      (ap m' (let e : p + 1 + n ≡ p + suc n = omega arith in e) ∙ end),
)

-- The memory after strlcpy has copied `n` bytes and ended them.
abbrev copied : Bytes → (dst src n : ℕ) → Bytes
copied m dst src n = store (memcpy m dst src n) (dst + n) 0

copied_lem :
    (m : Bytes) (dst src size n : ℕ) (xs : List ℕ)
    → Str m src xs
    → n ≤ length xs
    → n < size
    → Apart dst size src (length xs + 1)
    → Str (copied m dst src n) dst (take n xs) × OnlyIn m dst size (copied m dst src n)
copied_lem m dst src size n xs s le lt apart =
    let w = memcpy_lem m dst src n (omega arith) in
    (
      Str-take m (copied m dst src n) dst src n xs s le
          (λ i h. store_ne (memcpy m dst src n) (dst + n) 0 (dst + i) (omega arith) ∙ w.0 i h)
          (store_self (memcpy m dst src n) (dst + n) 0),
      λ q k. store_ne (memcpy m dst src n) (dst + n) 0 q (omega arith) ∙ w.1 q (omega arith),
    )

-- strlcpy returns the length of the source. With a size above 0 and the target apart from the
-- source, the target holds as much of the text as fits with its end into `size` bytes, and nothing
-- outside those bytes changes.
pub strlcpy_lem :
    (fuel : ℕ) (m : Bytes) (dst src size : ℕ) (xs : List ℕ)
    → Str m src xs
    → length xs < fuel
    → 0 < size
    → Apart dst size src (length xs + 1)
    → (m' : Bytes) × (strlcpy fuel m dst src size ≡ some (m', length xs))
      × Str m' dst (take (size - 1) xs)
      × OnlyIn m dst size m'
unfolding strlcpy
strlcpy_lem fuel m dst src size xs s h pos apart =
    let some_size : (size == 0) ≡ false = ground arith in
    let len = strlen_lem fuel m src xs s h in
    elim (Bool-cases (ltb (length xs) (size - 1))) [
      | inl whole ↦
          let short : length xs ≤ size - 1 = ground arith in
          let r = copied_lem m dst src size (length xs) xs s (omega arith) (omega arith) apart in
          (
            copied m dst src (length xs),
            rw (len, strlcpy) (rw (some_size, whole)),
            subst (Str (copied m dst src (length xs)) dst)
                (take-all (length xs) xs (omega arith) ∙ sym (take-all (size - 1) xs short)) r.0,
            r.1,
          )
      | inr cut ↦
          let r = copied_lem m dst src size (size - 1) xs s (ground arith) (omega arith) apart in
          (copied m dst src (size - 1), rw (len, strlcpy) (rw (some_size, cut)), r.0, r.1)
    ]
