-- ===== src/Mm/Allocator.antt =====
-- What the clients of mm/kheap.c use: kmalloc and kfree on a state, and which pointers are in use.
pub mod Bump
pub mod Zeroed
use raptor_kernel.Prelude.{ℕ, ◌+◌, ◌<◌, ◌^◌, ◌≡◌, ◌≢◌, Option, some}
use raptor_kernel.Mm.Kheap.{Stats}

pub record Allocator : Type 1 where
  pub State : Type 0
  -- The pointer, 0 for NULL, and the state.
  pub kmalloc : State → (size : ℕ) → ℕ × State
  -- `none` is a panic.
  pub kfree : State → (ptr : ℕ) → Option State
  pub kheap_stats : State → Stats
  pub Live : State → (ptr : ℕ) → Type 0
  pub Live-real : (s : State) (p : ℕ) → Live s p → p ≢ 0
  pub kmalloc-fresh :
      (s : State) (n : ℕ)
      → 0 < n
      → n + 7 < 2 ^ 32
      → let (p, s') = kmalloc s n in
        p ≢ 0 → (Live s p → ⊥) × Live s' p × ((q : ℕ) → Live s q → Live s' q)
  pub kmalloc-null :
      (s : State) (n : ℕ)
      → 0 < n
      → n + 7 < 2 ^ 32
      → let (p, s') = kmalloc s n in p ≡ 0 → (q : ℕ) → Live s q → Live s' q
  pub kfree-null : (s : State) → kfree s 0 ≡ some s
  pub kfree-live :
      (s : State) (p : ℕ)
      → Live s p
      → (s' : State) × (kfree s p ≡ some s') × ((q : ℕ) → Live s q → q ≢ p → Live s' q)
  -- kfree puts nothing in use, and its block is not in use any more.
  pub kfree-only :
      (s s' : State) (p q : ℕ) → Live s p → kfree s p ≡ some s' → Live s' q → Live s q × (q ≢ p)
