-- ===== src/Fs/Ramfs/Contents.antt =====
-- The bytes that ramfs_write of fs/ramfs.c copies, and the capacity of its new buffer.
use native.Mathlib.Nat.{pow-suc, pow-zero, mul_assoc, mul_comm}
use raptor_kernel.Prelude.{
  ℕ, zero, suc, ◌+◌, ◌-◌, ◌*◌, ◌%◌, ◌^◌, ◌<◌, ◌≤◌, ◌≡◌, ◌≢◌, ◌⊎◌, refl, ap, sym, subst, ◌∙◌, inl,
  inr, true, false, some, List, [], ◌∷◌, ◌++◌, ltb, leb, ◌==◌, length, get_or, arith, Bool-cases,
  ==_iff,
}
use raptor_kernel.Fs.Ramfs.{Ramfs}
use raptor_kernel.Fs.Ramfs.Files.{copy_in, set_bytes, read_bytes, grow}

-- The capacity that the loop of ramfs_write ends with: enough, and less than twice what is needed
-- unless it was enough at the start.
pub grow_lem :
    (fuel k cap needed : ℕ)
    → k < fuel
    → 0 < cap
    → needed ≤ 2 ^ 31
    → needed ≤ cap * 2 ^ k
    → (c : ℕ) × (grow fuel cap needed ≡ some c) × (needed ≤ c) × ((c ≡ cap) ⊎ (c < 2 * needed))
unfolding grow
grow_lem zero k cap needed h pos word enough = absurd (omega arith)
grow_lem (suc fuel) zero cap needed h pos word enough =
    let done : ltb cap needed ≡ false = ground (arith, enough, pow-zero 2) in
    (cap, rw done refl, omega (arith, enough, pow-zero 2), inl refl)
grow_lem (suc fuel) (suc k) cap needed h pos word enough = elim (Bool-cases (ltb cap needed)) [
  | inr done ↦ (cap, rw done refl, ground (arith, done), inl refl)
  | inl short ↦
      let less : cap < needed = ground (arith, short) in
      let twice : cap * 2 % 2 ^ 32 ≡ cap * 2 = omega (arith, less, word) in
      let assoc : cap * 2 * 2 ^ k ≡ cap * 2 ^ suc k =
        mul_assoc cap 2 (2 ^ k)
        ∙ ap (λ (x : ℕ). cap * x) (mul_comm 2 (2 ^ k) ∙ sym (pow-suc 2 k)) in
      let (c, e, l, u) =
        grow_lem fuel k (cap * 2 % 2 ^ 32) needed (omega arith) (omega (arith, twice, pos)) word
          (subst (λ x. needed ≤ x * 2 ^ k) (sym twice) (omega (arith, enough, assoc))) in
      (
        c,
        rw short e,
        l,
        elim u [ inl same ↦ inr (omega (arith, same, twice, less)) | inr below ↦ inr below ],
      )
]

read_bytes-append :
    (buf : ℕ → ℕ) (i n m : ℕ)
    → read_bytes buf i (n + m) ≡ read_bytes buf i n ++ read_bytes buf (i + n) m
unfolding read_bytes
read_bytes-append buf i zero m =
    let e : 0 + m ≡ m = omega arith in
    let e' : i ≡ i + 0 = omega arith in
    ap (λ x. read_bytes buf i x) e ∙ ap (λ x. read_bytes buf x m) e'
read_bytes-append buf i (suc n) m =
    let e : suc n + m ≡ suc (n + m) = omega arith in
    let e' : i + 1 + n ≡ i + suc n = omega arith in
    ap (λ x. read_bytes buf i x) e
    ∙ ap (λ bs. buf i ∷ bs)
        (read_bytes-append buf (i + 1) n m
          ∙ ap (λ x. read_bytes buf (i + 1) n ++ read_bytes buf x m) e')

pub read_bytes-same :
    (buf buf' : ℕ → ℕ) (i n : ℕ)
    → ((j : ℕ) → i ≤ j → j < i + n → buf j ≡ buf' j)
    → read_bytes buf i n ≡ read_bytes buf' i n
unfolding read_bytes
read_bytes-same buf buf' i zero same = refl
read_bytes-same buf buf' i (suc n) same =
    ap (λ b. b ∷ read_bytes buf (i + 1) n) (same i (omega arith) (omega arith))
    ∙ ap (λ bs. buf' i ∷ bs)
        (read_bytes-same buf buf' (i + 1) n (λ j h k. same j (omega (arith, h)) (omega (arith, k))))

copy_in-inside :
    (buf : ℕ → ℕ) (off : ℕ) (bs : List ℕ) (j : ℕ)
    → j < length bs
    → copy_in buf off bs (off + j) ≡ get_or bs j 0
unfolding copy_in
copy_in-inside buf off bs j h =
    let back : off + j - off ≡ j = omega arith in
    let inside : leb off (off + j) ≡ true = ground arith in
    let below : ltb j (length bs) ≡ true = ground (arith, h) in rw (back, inside, below) refl

copy_in-before :
    (buf : ℕ → ℕ) (off : ℕ) (bs : List ℕ) (j : ℕ) → j < off → copy_in buf off bs j ≡ buf j
unfolding copy_in
copy_in-before buf off bs j h = let e : leb off j ≡ false = ground (arith, h) in rw e refl

pub read_list :
    (buf : ℕ → ℕ) (i : ℕ) (bs : List ℕ)
    → ((j : ℕ) → j < length bs → buf (i + j) ≡ get_or bs j 0)
    → read_bytes buf i (length bs) ≡ bs
unfolding read_bytes
read_list buf i [] h = refl
read_list buf i (b ∷ bs) h =
    ap (λ x. x ∷ read_bytes buf (i + 1) (length bs)) (ap buf (omega arith) ∙ h 0 (omega arith))
    ∙ ap (λ xs. b ∷ xs)
        (read_list buf (i + 1) bs (λ j k. ap buf (omega arith) ∙ h (suc j) (omega (arith, k))))

pub copied :
    (buf : ℕ → ℕ) (off : ℕ) (bs : List ℕ)
    → read_bytes (copy_in buf off bs) 0 (off + length bs) ≡ read_bytes buf 0 off ++ bs
copied buf off bs =
    read_bytes-append (copy_in buf off bs) 0 off (length bs)
    ∙ ap (λ xs. xs ++ read_bytes (copy_in buf off bs) (0 + off) (length bs))
        (read_bytes-same (copy_in buf off bs) buf 0 off
          (λ j h k. copy_in-before buf off bs j (omega (arith, k))))
    ∙ ap (λ ys. read_bytes buf 0 off ++ ys)
        (read_list (copy_in buf off bs) (0 + off) bs
          (λ j h. ap (copy_in buf off bs) (omega arith) ∙ copy_in-inside buf off bs j h))

pub set_bytes_self : (fs : Ramfs) (p : ℕ) (buf : ℕ → ℕ) → (set_bytes fs p buf).bytes p ≡ buf
unfolding set_bytes
set_bytes_self fs p buf = rw ((==_iff p p).1 refl) refl

pub set_bytes_ne :
    (fs : Ramfs) (p q : ℕ) (buf : ℕ → ℕ) → p ≢ q → (set_bytes fs p buf).bytes q ≡ fs.bytes q
unfolding set_bytes
set_bytes_ne fs p q buf h = let e : (p == q) ≡ false = ground (arith, h) in rw e refl
