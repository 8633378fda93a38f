-- ===== src/Fs/Ramfs/Write.antt =====
-- The outcomes of ramfs_write of fs/ramfs.c.
use mathlib.Core.Option
use raptor_kernel.Prelude.{
  ℕ, ◌+◌, ◌*◌, ◌^◌, ◌<◌, ◌≤◌, ◌≡◌, ◌≢◌, refl, ap, sym, subst, ◌∙◌, inl, inr, Bool, true, false,
  Option, some, List, ltb, ◌==◌, if◌then◌else◌, length, arith, Bool-cases, ==_iff,
}
use raptor_kernel.Words.{add32}
use raptor_kernel.Mm.Allocator.{Allocator}
use raptor_kernel.Fs.Ramfs.{Ramfs}
use raptor_kernel.Fs.Ramfs.Files.{store_data, new_buffer, ensure_room, ramfs_write}
use raptor_kernel.Fs.Ramfs.Contents.{grow_lem}
use raptor_kernel.Fs.Ramfs.Written.{FileOk, Written, store_data-Written, moved, moved-Written}

module _ (A : Allocator) where
  -- The buffer of a file is NULL or in use.
  pub data Owned (s : A.State) (p : ℕ) : Type 0 where
    nothing : p ≡ 0 → Owned s p
    buffer : A.Live s p → Owned s p

  freed_buffer :
      (s s1 : A.State) (old p : ℕ)
      → Owned s old
      → ((q : ℕ) → A.Live s q → A.Live s1 q)
      → (A.Live s p → ⊥)
      → A.Live s1 p
      → (s' : A.State) × (A.kfree s1 old ≡ some s')
        × A.Live s' p
        × ((q : ℕ) → A.Live s1 q → q ≢ old → A.Live s' q)
  freed_buffer s s1 old p (nothing z) kept fresh live =
      (s1, ap (A.kfree s1) z ∙ A.kfree-null s1, live, (λ q l ne. l))
  freed_buffer s s1 old p (buffer used) kept fresh live =
      let (s', e, kept2) = A.kfree-live s1 old (kept old used) in
      (s', e, kept2 p live (λ z. fresh (subst (A.Live s) (sym z) used)), kept2)

  -- kmalloc gives NULL for a buffer that holds `needed` bytes and is not much larger.
  pub record NoMemory (s : A.State) (needed : ℕ) : Type 0 where
    pub cap : ℕ
    pub holds : needed ≤ cap
    pub modest : cap < 2 * needed + 64
    pub refused : (A.kmalloc s cap).0 ≡ 0

  -- The outcomes of ramfs_write, from the offset `base` on.
  pub data WriteEnds (fs : Ramfs) (s : A.State) (f base : ℕ) (text : List ℕ)
      (result : Option (Bool × Ramfs × A.State)) : Type 0 where
    done :
        (fs' : Ramfs) (s' : A.State) (b cap : ℕ)
        → result ≡ some (true, fs', s')
        → Written fs fs' f base text b cap
        → Owned s' b
        → ((q : ℕ) → A.Live s q → q ≢ (fs.node f).buffer → A.Live s' q)
        → ((q : ℕ) → A.Live s q → q ≢ (fs.node f).buffer → b ≢ q)
        → WriteEnds fs s f base text result
    no_memory :
        (s' : A.State)
        → result ≡ some (false, fs, s')
        → ((q : ℕ) → A.Live s q → A.Live s' q)
        → NoMemory s (base + length text)
        → WriteEnds fs s f base text result

  new_buffer-ends :
      (fs : Ramfs) (s : A.State) (f base cap : ℕ) (text : List ℕ)
      → Owned s (fs.node f).buffer
      → 0 < cap
      → cap + 7 < 2 ^ 32
      → base + length text ≤ cap
      → cap < 2 * (base + length text) + 64
      → WriteEnds fs s f base text (
          Option.map
            (λ (r : Bool × Ramfs × A.State).
              if r.0 then (true, store_data r.1 f base text, r.2) else (false, r.1, r.2))
            (new_buffer A fs s f base cap))
  unfolding new_buffer
  new_buffer-ends fs s f base cap text owned pos small room modest =
      let p = (A.kmalloc s cap).0 in
      let s1 = (A.kmalloc s cap).1 in
      elim (Bool-cases (p == 0)) [
        | inl full ↦
            let null = (==_iff p 0).0 full in
            no_memory s1 (rw full refl) (A.kmalloc-null s cap pos small null)
              (record { cap = cap; holds = room; modest = modest; refused = null })
        | inr got ↦
            let (fresh, live, kept) = A.kmalloc-fresh s cap pos small (ground (arith, got)) in
            let (s2, e, live2, kept2) =
              freed_buffer s s1 (fs.node f).buffer p owned kept fresh live in
            done (store_data (moved fs f p base cap) f base text) s2 p cap (rw (got, e) refl)
              (moved-Written fs f p base cap text room (omega (arith, small))) (buffer live2)
              (λ q l ne. kept2 q (kept q l) ne) (λ q l ne z. fresh (subst (A.Live s) (sym z) l))
      ]

  ensure_room-ends :
      (fuel : ℕ) (fs : Ramfs) (s : A.State) (f base needed : ℕ) (text : List ℕ)
      → needed ≡ base + length text
      → 32 < fuel
      → FileOk fs f
      → Owned s (fs.node f).buffer
      → base + length text + 8 ≤ 2 ^ 31
      → WriteEnds fs s f base text (
          Option.map
            (λ (r : Bool × Ramfs × A.State).
              if r.0 then (true, store_data r.1 f base text, r.2) else (false, r.1, r.2))
            (ensure_room A fuel fs s f base needed))
  unfolding ensure_room
  ensure_room-ends fuel fs s f base needed text total enough ok owned word =
      let cap = (fs.node f).capacity in
      elim (Bool-cases (ltb cap needed)) [
        | inr fits ↦
            done (store_data fs f base text) s (fs.node f).buffer cap (rw fits refl)
              (store_data-Written fs f base text (ground (arith, fits)) ok.small) owned
              (λ q l ne. l) (λ q l ne z. ne (sym z))
        | inl short ↦
            let less : cap < needed = ground (arith, short) in
            let first = if cap == 0 then 64 else cap in
            let real : 0 < first = ground arith in
            let (c, e, l, u) =
              grow_lem fuel 31 first needed (omega (arith, enough)) real (omega (arith, word))
                (omega (arith, word, real)) in
            let bound : c + 7 < 2 ^ 32 = ground (arith, u, less, word) in
            let modest : c < 2 * (base + length text) + 64 = ground (arith, u, less) in
            rw (short, e)
              (new_buffer-ends fs s f base c text owned (omega (arith, l, less)) bound
                (omega (arith, l)) modest)
      ]

  -- ramfs_write on a file ends, within 33 rounds of the loop that doubles the capacity: either the
  -- file's contents are the new text, behind the old contents when it appends, and no other node
  -- and no other file's buffer has changed; or kmalloc gives NULL for a buffer of the size needed, of
  -- less than twice that and 64 bytes, and the file system is as it was. Sizes are those up to 2 GiB.
  pub ramfs_write-ends :
      (fuel : ℕ) (fs : Ramfs) (s : A.State) (f : ℕ) (text : List ℕ) (append : Bool)
      → 32 < fuel
      → f ≢ 0
      → (fs.node f).is_dir ≡ false
      → FileOk fs f
      → Owned s (fs.node f).buffer
      → (if append then (fs.node f).size else 0) + length text + 8 ≤ 2 ^ 31
      → WriteEnds fs s f
          (if append then (fs.node f).size else 0)
          text
          (ramfs_write A fuel fs s f text append)
  unfolding ramfs_write
  ramfs_write-ends fuel fs s f text append enough real file ok owned word =
      let base = if append then (fs.node f).size else 0 in
      let e : (f == 0) ≡ false = ground (arith, real) in
      let total : add32 base (length text) ≡ base + length text = omega (arith, word) in
      rw (e, file)
        (ensure_room-ends fuel fs s f base (add32 base (length text)) text total enough ok owned
          word)
