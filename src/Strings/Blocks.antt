-- ===== src/Strings/Blocks.antt =====
-- memset, memcpy and memmove: what they write, and that they write nothing else.
use raptor_kernel.Prelude.{
  ℕ, zero, suc, ◌+◌, ◌-◌, ◌%◌, ◌<◌, ◌≤◌, ◌≡◌, ◌≢◌, ◌⊎◌, inl, inr, refl, ap, sym, ◌∙◌, arith, ltb,
  Bool-cases, dec_lt,
}
use raptor_kernel.Strings.{Bytes, store, memset, memcpy, move_down, memmove}

-- `m'` is `m` with the `n` bytes from `p` on given by `f` of their offset.
abbrev pub Wrote : Bytes → (p n : ℕ) → (ℕ → ℕ) → Bytes → Type 0
Wrote m p n f m' =
    ((i : ℕ) → i < n → m' (p + i) ≡ f i) × ((q : ℕ) → (q < p) ⊎ (p + n ≤ q) → m' q ≡ m q)

pub store_self : (m : Bytes) (p v : ℕ) → store m p v p ≡ v
unfolding store
store_self m p v = ground arith

pub store_ne : (m : Bytes) (p v q : ℕ) → p ≢ q → store m p v q ≡ m q
unfolding store
store_ne m p v q h = ground arith

-- Writing the first byte and then the rest.
Wrote-up :
    (m : Bytes) (p n : ℕ) (f : ℕ → ℕ) (v : ℕ) (m' : Bytes)
    → v ≡ f 0
    → Wrote (store m p v) (p + 1) n (λ i. f (i + 1)) m'
    → Wrote m p (suc n) f m'
Wrote-up m p n f v m' e w = (
  λ i h. elim (dec_lt 0 i) [
    | yes pos ↦
        let e1 : p + 1 + (i - 1) ≡ p + i = omega arith in
        let e2 : i - 1 + 1 ≡ i = omega arith in ap m' (sym e1) ∙ w.0 (i - 1) (omega arith) ∙ ap f e2
    | no zero_i ↦
        let e1 : p + i ≡ p = omega arith in
        let e2 : i ≡ 0 = omega arith in
        ap m' e1 ∙ w.1 p (inl (omega arith)) ∙ store_self m p v ∙ e ∙ ap f (sym e2)
  ],
  λ q h. w.1 q (omega arith) ∙ store_ne m p v q (omega arith),
)

-- memset fills the region with the low byte of `c`.
pub memset_lem : (m : Bytes) (dst c n : ℕ) → Wrote m dst n (λ i. c % 256) (memset m dst c n)
unfolding memset
memset_lem m dst c zero = (λ i h. absurd (omega arith), λ q h. refl)
memset_lem m dst c (suc n) =
    Wrote-up m dst n (λ i. c % 256) (c % 256) _ refl
      (memset_lem (store m dst (c % 256)) (dst + 1) c n)

Wrote-source :
    (m : Bytes) (p n : ℕ) (f g : ℕ → ℕ) (m' : Bytes)
    → ((i : ℕ) → i < n → f i ≡ g i)
    → Wrote m p n f m'
    → Wrote m p n g m'
Wrote-source m p n f g m' same w = (λ i h. w.0 i h ∙ same i h, w.1)

-- memcpy copies a region to one that does not begin inside it.
pub memcpy_lem :
    (m : Bytes) (dst src n : ℕ)
    → (dst ≤ src) ⊎ (src + n ≤ dst)
    → Wrote m dst n (λ i. m (src + i)) (memcpy m dst src n)
unfolding memcpy
memcpy_lem m dst src zero apart = (λ i h. absurd (omega arith), λ q h. refl)
memcpy_lem m dst src (suc n) apart =
    Wrote-up m dst n (λ i. m (src + i)) (m src) _ (ap m (omega arith))
      (Wrote-source (store m dst (m src)) (dst + 1) n _ (λ i. m (src + (i + 1))) _
        (λ i h. store_ne m dst (m src) (src + 1 + i) (omega arith) ∙ ap m (omega arith))
        (memcpy_lem (store m dst (m src)) (dst + 1) (src + 1) n (omega arith)))

move_down_lem :
    (m : Bytes) (dst src n : ℕ)
    → src ≤ dst
    → Wrote m dst n (λ i. m (src + i)) (move_down m dst src n)
unfolding move_down
move_down_lem m dst src zero le = (λ i h. absurd (omega arith), λ q h. refl)
move_down_lem m dst src (suc n) le =
    let m1 : Bytes = store m (dst + n) (m (src + n)) in
    let w = move_down_lem m1 dst src n le in
    (
      λ i h. elim (dec_lt i n) [
        | yes lt ↦ w.0 i lt ∙ store_ne m (dst + n) (m (src + n)) (src + i) (omega arith)
        | no last ↦
            let e : i ≡ n = omega arith in
            ap (λ (k : ℕ). move_down m1 dst src n (dst + k)) e
            ∙ w.1 (dst + n) (inr (omega arith))
            ∙ store_self m (dst + n) (m (src + n))
            ∙ ap (λ (k : ℕ). m (src + k)) (sym e)
      ],
      λ q h. w.1 q (omega arith) ∙ store_ne m (dst + n) (m (src + n)) q (omega arith),
    )

-- memmove copies a region to any place, overlapping or not: the target holds what the source held
-- before the call, and nothing outside the target changes.
pub memmove_lem :
    (m : Bytes) (dst src n : ℕ) → Wrote m dst n (λ i. m (src + i)) (memmove m dst src n)
unfolding memmove
memmove_lem m dst src n = elim (Bool-cases (ltb dst src)) [
  | inl up ↦ rw up (memcpy_lem m dst src n (inl (ground arith)))
  | inr down ↦ rw down (move_down_lem m dst src n (ground arith))
]
