-- ===== src/Mm/Allocator/Zeroed.antt =====
-- kzalloc of mm/kheap.c over an allocator, with the bytes of the payloads by pointer and index.
use raptor_kernel.Prelude.{
  ℕ, ◌<◌, ◌≡◌, ◌≢◌, refl, false, ltb, ◌==◌, ◌&&◌, if◌then◌else◌, arith, ==_iff,
}
use raptor_kernel.Mm.Allocator.{Allocator}

module _ (A : Allocator) where
  unfoldable pub kzalloc : A.State → (payload : ℕ → ℕ → ℕ) → (size : ℕ) → ℕ × A.State × (ℕ → ℕ → ℕ)
  kzalloc s payload size =
      let (p, s') = A.kmalloc s size in
      (p, s', if p == 0 then payload else λ q i. if (p == q) && ltb i size then 0 else payload q i)

  -- What kzalloc returns, when it is not NULL, is `size` bytes of zeros; the bytes of other pointers stay.
  pub kzalloc_lem :
      (s : A.State) (payload : ℕ → ℕ → ℕ) (size q i : ℕ)
      → (kzalloc s payload size).0 ≢ 0
      → (i < size → (kzalloc s payload size).2 (kzalloc s payload size).0 i ≡ 0)
        × ((kzalloc s payload size).0 ≢ q → (kzalloc s payload size).2 q i ≡ payload q i)
  unfolding kzalloc
  kzalloc_lem s payload size q i real = zeroed (A.kmalloc s size).0 real
    where
      zeroed :
          (p : ℕ)
          → p ≢ 0
          → (i < size
              → (if p == 0 then payload else λ q i.
                    if (p == q) && ltb i size then 0 else payload q i)
                  p i
                ≡ 0)
            × (p ≢ q
                → (if p == 0 then payload else λ q i.
                      if (p == q) && ltb i size then 0 else payload q i)
                    q i
                  ≡ payload q i)
      zeroed p real =
          let e : (p == 0) ≡ false = ground (arith, real) in
          rw e (
            (λ low. rw ((==_iff p p).1 refl) (ground (arith, low))),
            (λ ne. let d : (p == q) ≡ false = ground (arith, ne) in rw d refl),
          )
