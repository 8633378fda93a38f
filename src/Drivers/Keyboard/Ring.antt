-- ===== src/Drivers/Keyboard/Ring.antt =====
-- The ring buffer of drivers/keyboard.c as a queue of characters.
use raptor_kernel.Prelude.{
  ℕ, suc, ◌+◌, ◌-◌, ◌%◌, ◌<◌, ◌≡◌, ◌≢◌, refl, ap, sym, subst, ◌∙◌, inl, inr, Bool, true, false,
  none, some, List, [], ◌∷◌, ◌++◌, length, ltb, ◌==◌, if◌then◌else◌, arith, Bool-cases,
  length-append,
}
use Prim.Native.Nat.{bit_and}
use raptor_kernel.Bits.{bit_and-255}
use raptor_kernel.Drivers.Keyboard.{Keyboard, buf_size, write, push, keyboard_read}

-- The characters stand in the ring one after the other, from `t` on.
abbrev pub Stored : (ℕ → ℕ) → ℕ → List ℕ → Type 0
Stored buf t [] = Unit {0}
Stored buf t (x ∷ xs) = (buf (t % buf_size) ≡ x) × Stored buf (t + 1) xs

-- The buffer holds the characters `xs`, the oldest first.
pub record Queue (k : Keyboard) (xs : List ℕ) : Type 0 where
  tail_bound : k.tail < buf_size
  room : length xs < buf_size
  ahead : k.head ≡ (k.tail + length xs) % buf_size
  stored : Stored (k.buf) (k.tail) xs

-- The queue does not depend on the modes.
pub Queue-modes :
    (k : Keyboard) (xs : List ℕ) (s c e : Bool)
    → Queue k xs
    → Queue (record k { shift = s; caps = c; saw_e0 = e }) xs
Queue-modes k xs s c e q = record {
  tail_bound = q.tail_bound;
  room = q.room;
  ahead = q.ahead;
  stored = q.stored;
}

next_slot : (i : ℕ) → bit_and (i + 1) (buf_size - 1) ≡ (i + 1) % buf_size
next_slot i = bit_and-255 (i + 1)

write_self : (buf : ℕ → ℕ) (i c : ℕ) → write buf i c i ≡ c
unfolding write
write_self buf i c = ground arith

write_ne : (buf : ℕ → ℕ) (i c j : ℕ) → i ≢ j → write buf i c j ≡ buf j
unfolding write
write_ne buf i c j h = ground arith

Stored-write :
    (buf : ℕ → ℕ) (t c : ℕ) (xs : List ℕ)
    → length xs < buf_size
    → Stored buf t xs
    → Stored (write buf ((t + length xs) % buf_size) c) t (xs ++ (c ∷ []))
Stored-write buf t c [] h s = (
  subst (λ i. write buf (i % buf_size) c (t % buf_size) ≡ c) (omega arith)
      (write_self buf (t % buf_size) c),
  tt,
)
Stored-write buf t c (x ∷ xs) h s = (
  write_ne buf ((t + suc (length xs)) % buf_size) c (t % buf_size) (λ e. omega (arith, e, h)) ∙ s.0,
  subst (λ i. Stored (write buf (i % buf_size) c) (t + 1) (xs ++ (c ∷ []))) (omega arith)
      (Stored-write buf (t + 1) c xs (omega arith) s.1),
)

-- What a push leaves of a queue: the character behind the others, unless 255 wait already.
unfoldable pub enqueue : List ℕ → ℕ → List ℕ
enqueue xs c = if ltb (length xs) (buf_size - 1) then xs ++ (c ∷ []) else xs

-- push refines the bounded queue.
pub push-Queue : (k : Keyboard) (xs : List ℕ) (c : ℕ) → Queue k xs → Queue (push k c) (enqueue xs c)
unfolding push enqueue
push-Queue k xs c q = elim (Bool-cases (ltb (length xs) (buf_size - 1))) [
  | inl free ↦
      let more : length xs < buf_size - 1 = ground arith in
      let ne : ((k.head + 1) % buf_size == k.tail) ≡ false =
        ground (arith, q.ahead, q.tail_bound, more) in
      rw (free, next_slot (k.head), ne)
        (record {
          tail_bound = q.tail_bound;
          room = omega (arith, length-append xs (c ∷ []), more);
          ahead = omega (arith, q.ahead, length-append xs (c ∷ []));
          stored =
              subst (λ i. Stored (write (k.buf) i c) (k.tail) (xs ++ (c ∷ []))) (sym q.ahead)
                (Stored-write (k.buf) (k.tail) c xs q.room q.stored);
        })
  | inr full ↦
      let all : length xs ≡ buf_size - 1 = ground (arith, q.room) in
      let e : ((k.head + 1) % buf_size == k.tail) ≡ true =
        ground (arith, q.ahead, q.tail_bound, all) in
      rw (full, next_slot (k.head), e) q
]

-- What keyboard_read does to a queue: it takes the oldest character, or finds none.
unfoldable pub Dequeued : Keyboard → List ℕ → Type 0
Dequeued k [] = keyboard_read k ≡ (none, k)
Dequeued k (x ∷ xs) = ((keyboard_read k).0 ≡ some x) × Queue ((keyboard_read k).1) xs

Stored-cong :
    (buf : ℕ → ℕ) (t u : ℕ) (xs : List ℕ)
    → t % buf_size ≡ u % buf_size
    → Stored buf t xs
    → Stored buf u xs
Stored-cong buf t u [] h s = tt
Stored-cong buf t u (x ∷ xs) h s =
    (ap buf (sym h) ∙ s.0, Stored-cong buf (t + 1) (u + 1) xs (omega (arith, h)) s.1)

-- keyboard_read refines taking from the queue.
pub keyboard_read-Queue : (k : Keyboard) (xs : List ℕ) → Queue k xs → Dequeued k xs
unfolding keyboard_read Dequeued
keyboard_read-Queue k [] q =
    let e : (k.head == k.tail) ≡ true = ground (arith, q.ahead, q.tail_bound) in rw e refl
keyboard_read-Queue k (x ∷ xs) q =
    let e : (k.head == k.tail) ≡ false = ground (arith, q.ahead, q.tail_bound, q.room) in
    rw (e, next_slot (k.tail))
      (
        ap some (ap (k.buf) (omega (arith, q.tail_bound)) ∙ q.stored.0),
        record {
          tail_bound = omega arith;
          room = omega (arith, q.room);
          ahead = omega (arith, q.ahead);
          stored =
              Stored-cong (k.buf) (k.tail + 1) ((k.tail + 1) % buf_size) xs (omega arith)
                q.stored.1;
        },
      )

-- A buffer whose ends agree is the empty queue.
pub Queue-empty : (k : Keyboard) → k.head ≡ k.tail → k.tail < buf_size → Queue k []
Queue-empty k same h = record {
  tail_bound = h;
  room = omega arith;
  ahead = same ∙ omega (arith, h);
  stored = tt;
}
