-- ===== src/Strings/Order.antt =====
-- strcmp, strncmp and memcmp against a comparison of texts.
use raptor_kernel.Prelude.{
  ℕ, zero, suc, ◌+◌, ◌-◌, ◌<◌, ◌≡◌, ◌≢◌, ◌↔◌, refl, ap, sym, ◌∙◌, inl, inr, true, some, List, [],
  ◌∷◌, arith, ◌==◌, ◌!=◌, if◌then◌else◌, length, take, Bool-cases, dec_lt,
}
use raptor_kernel.Prelude.Int.{ℤ, pos, sub_ℕ, sub_ℕ-zero_iff}
use raptor_kernel.Strings.{Bytes, strcmp, strncmp, memcmp}
use raptor_kernel.Strings.Text.{Str}

-- The difference of the first bytes that differ, a text that has ended giving 0.
unfoldable pub compare_text : List ℕ → List ℕ → ℤ
compare_text [] [] = pos 0
compare_text [] (y ∷ ys) = sub_ℕ 0 y
compare_text (x ∷ xs) [] = sub_ℕ x 0
compare_text (x ∷ xs) (y ∷ ys) = if x == y then compare_text xs ys else sub_ℕ x y

-- No byte is 0.
abbrev pub NoZero : List ℕ → Type 0
NoZero [] = Unit {0}
NoZero (x ∷ xs) = (x ≢ 0) × NoZero xs

pub Str-NoZero : (m : Bytes) (p : ℕ) (xs : List ℕ) → Str m p xs → NoZero xs
Str-NoZero m p [] s = tt
Str-NoZero m p (x ∷ xs) s = (s.1, Str-NoZero m (p + 1) xs s.2)

pub compare_text-zero_iff :
    (xs ys : List ℕ) → NoZero xs → NoZero ys → (compare_text xs ys ≡ pos 0) ↔ (xs ≡ ys)
unfolding compare_text
compare_text-zero_iff [] [] h k = (λ e. refl, λ e. refl)
compare_text-zero_iff [] (y ∷ ys) h k =
    (λ e. absurd (k.0 (sym ((sub_ℕ-zero_iff 0 y).0 e))), λ e. cc)
compare_text-zero_iff (x ∷ xs) [] h k = (λ e. absurd (h.0 ((sub_ℕ-zero_iff x 0).0 e)), λ e. cc)
compare_text-zero_iff (x ∷ xs) (y ∷ ys) h k =
    let (f, g) = compare_text-zero_iff xs ys h.1 k.1 in
    elim (Bool-cases (x == y)) [
      | inl same ↦ rw same (λ e. ground (arith, f e), λ e. g (ground arith))
      | inr differ ↦ rw differ (λ e. ground arith, λ e. ground arith)
    ]

strcmp_text :
    (fuel : ℕ) (m : Bytes) (a b : ℕ) (xs ys : List ℕ)
    → Str m a xs
    → Str m b ys
    → length xs < fuel
    → strcmp fuel m a b ≡ some (compare_text xs ys)
unfolding strcmp compare_text
strcmp_text zero m a b xs ys s t h = absurd (omega arith)
strcmp_text (suc fuel) m a b [] [] s t h = rw (s, t)
strcmp_text (suc fuel) m a b [] (y ∷ ys) s t h = rw (s, t.0)
strcmp_text (suc fuel) m a b (x ∷ xs) [] s t h = ground (arith, s.0, s.1, t)
strcmp_text (suc fuel) m a b (x ∷ xs) (y ∷ ys) s t h =
    let rest = strcmp_text fuel m (a + 1) (b + 1) xs ys s.2 t.2 (omega arith) in
    let real : (x != 0) ≡ true = ground (arith, s.1) in rw (s.0, t.0, real, rest) (ground arith)

-- strncmp compares the first `n` bytes of two strings as texts.
pub strncmp_lem :
    (m : Bytes) (a b n : ℕ) (xs ys : List ℕ)
    → Str m a xs
    → Str m b ys
    → strncmp m a b n ≡ compare_text (take n xs) (take n ys)
unfolding strncmp compare_text
strncmp_lem m a b zero xs ys s t = refl
strncmp_lem m a b (suc n) [] [] s t = rw (s, t)
strncmp_lem m a b (suc n) [] (y ∷ ys) s t = rw (s, t.0)
strncmp_lem m a b (suc n) (x ∷ xs) [] s t = ground (arith, s.0, s.1, t)
strncmp_lem m a b (suc n) (x ∷ xs) (y ∷ ys) s t =
    ground (arith, s.0, s.1, t.0, strncmp_lem m (a + 1) (b + 1) n xs ys s.2 t.2)

-- memcmp is 0 exactly when the two regions hold the same bytes.
pub memcmp-zero_iff :
    (m : Bytes) (a b n : ℕ) → (memcmp m a b n ≡ pos 0) ↔ ((i : ℕ) → i < n → m (a + i) ≡ m (b + i))
unfolding memcmp
memcmp-zero_iff m a b zero = (λ e i h. absurd (omega arith), λ same. refl)
memcmp-zero_iff m a b (suc n) =
    let (f, g) = memcmp-zero_iff m (a + 1) (b + 1) n in
    let a0 : m (a + 0) ≡ m a = ap m (omega arith) in
    let b0 : m (b + 0) ≡ m b = ap m (omega arith) in
    elim (Bool-cases (m a != m b)) [
      | inl differ ↦
          let ne : m a ≢ m b = ground arith in
          rw differ (
            λ e i h. absurd (ne ((sub_ℕ-zero_iff (m a) (m b)).0 e)),
            λ eqs. absurd (ne (sym a0 ∙ eqs 0 (omega arith) ∙ b0)),
          )
      | inr same ↦
          let eq : m a ≡ m b = ground arith in
          rw same (
            λ e i h. elim (dec_lt 0 i) [
              | yes later ↦
                  ap m (let t : a + i ≡ a + 1 + (i - 1) = omega arith in t)
                  ∙ f e (i - 1) (omega arith)
                  ∙ ap m (let t : b + 1 + (i - 1) ≡ b + i = omega arith in t)
              | no first ↦
                  ap m (let t : a + i ≡ a = omega arith in t)
                  ∙ eq
                  ∙ ap m (let t : b ≡ b + i = omega arith in t)
            ],
            λ eqs. g (λ i h.
                ap m (let t : a + 1 + i ≡ a + (i + 1) = omega arith in t)
                ∙ eqs (i + 1) (omega arith)
                ∙ ap m (let t : b + (i + 1) ≡ b + 1 + i = omega arith in t)),
          )
    ]

-- strcmp of two strings returns 0 exactly when their texts are equal, and it does return.
pub strcmp-zero_iff :
    (fuel : ℕ) (m : Bytes) (a b : ℕ) (xs ys : List ℕ)
    → Str m a xs
    → Str m b ys
    → length xs < fuel
    → (z : ℤ) × (strcmp fuel m a b ≡ some z) × ((z ≡ pos 0) ↔ (xs ≡ ys))
strcmp-zero_iff fuel m a b xs ys s t h = (
  compare_text xs ys,
  strcmp_text fuel m a b xs ys s t h,
  compare_text-zero_iff xs ys (Str-NoZero m a xs s) (Str-NoZero m b ys t),
)
