-- ===== src/Strings.antt =====
-- lib/string.c over a memory of bytes by address. A pointer is its address; an object does not run
-- over the end of memory, so that adding to a pointer into it does not wrap. A loop that C bounds by
-- a terminator takes fuel, and `none` says that it ran out.
pub mod Text
pub mod Blocks
pub mod Order
pub mod Copy
pub mod Search
mod Tests
use raptor_kernel.Prelude.{
  ℕ, zero, suc, ◌+◌, ◌-◌, ◌%◌, Bool, true, false, not, ◌&&◌, Option, none, some, ltb, ◌==◌, ◌!=◌,
  if◌then◌else◌,
}
use raptor_kernel.Prelude.Int.{ℤ, pos, negsuc, sub_ℕ, is_zero}

abbrev pub Bytes : Type 0
Bytes = ℕ → ℕ

abbrev pub null : ℕ
null = 0

unfoldable pub store : Bytes → ℕ → ℕ → Bytes
store m p v q = if p == q then v else m q

pub memset : Bytes → (dst c n : ℕ) → Bytes
memset m dst c zero = m
memset m dst c (suc n) = memset (store m dst (c % 256)) (dst + 1) c n

pub memcpy : Bytes → (dst src n : ℕ) → Bytes
memcpy m dst src zero = m
memcpy m dst src (suc n) = memcpy (store m dst (m src)) (dst + 1) (src + 1) n

-- The loop of memmove that goes down from the ends of the two regions.
pub move_down : Bytes → (dst src n : ℕ) → Bytes
move_down m dst src zero = m
move_down m dst src (suc n) = move_down (store m (dst + n) (m (src + n))) dst src n

-- The upward loop of memmove is that of memcpy.
pub memmove : Bytes → (dst src n : ℕ) → Bytes
memmove m dst src n = if ltb dst src then memcpy m dst src n else move_down m dst src n

pub memcmp : Bytes → (a b n : ℕ) → ℤ
memcmp m a b zero = pos 0
memcmp m a b (suc n) =
    let rest = memcmp m (a + 1) (b + 1) n in if m a != m b then sub_ℕ (m a) (m b) else rest

-- The loop of strlen, with `k` bytes passed.
pub strlen_loop : ℕ → Bytes → (p k : ℕ) → Option ℕ
strlen_loop zero m p k = none
strlen_loop (suc fuel) m p k =
    let rest = strlen_loop fuel m (p + 1) (k + 1) in if m p == 0 then some k else rest

pub strlen : ℕ → Bytes → (s : ℕ) → Option ℕ
strlen fuel m s = strlen_loop fuel m s 0

pub strcmp : ℕ → Bytes → (a b : ℕ) → Option ℤ
strcmp zero m a b = none
strcmp (suc fuel) m a b =
    let rest = strcmp fuel m (a + 1) (b + 1) in
    if (m a != 0) && (m a == m b) then rest else some (sub_ℕ (m a) (m b))

pub strncmp : Bytes → (a b n : ℕ) → ℤ
strncmp m a b zero = pos 0
strncmp m a b (suc n) =
    let rest = strncmp m (a + 1) (b + 1) n in
    if (m a != 0) && (m a == m b) then rest else sub_ℕ (m a) (m b)

pub strcpy : ℕ → Bytes → (dst src : ℕ) → Option Bytes
strcpy zero m dst src = none
strcpy (suc fuel) m dst src =
    let m' = store m dst (m src) in
    let rest = strcpy fuel m' (dst + 1) (src + 1) in if m src != 0 then rest else some m'

-- Returns the memory and the length of the source.
pub strlcpy : ℕ → Bytes → (dst src size : ℕ) → Option (Bytes × ℕ)
strlcpy fuel m dst src size = elim (strlen fuel m src) [
  | none ↦ none
  | some len ↦
      let n = if ltb len (size - 1) then len else size - 1 in
      some (if size == 0 then m else store (memcpy m dst src n) (dst + n) 0, len)
]

pub strcat : ℕ → Bytes → (dst src : ℕ) → Option Bytes
strcat fuel m dst src = elim (strlen fuel m dst) [
  | none ↦ none
  | some len ↦ strcpy fuel m (dst + len) src
]

pub strchr : ℕ → Bytes → (s c : ℕ) → Option ℕ
strchr zero m s c = none
strchr (suc fuel) m s c =
    let rest = strchr fuel m (s + 1) c in
    if m s == c % 256 then some s else if m s == 0 then some null else rest

-- The loop of strstr, for a needle of `n` bytes.
pub strstr_loop : ℕ → Bytes → (haystack needle n : ℕ) → Option ℕ
strstr_loop zero m haystack needle n = none
strstr_loop (suc fuel) m haystack needle n =
    let rest = strstr_loop fuel m (haystack + 1) needle n in
    if m haystack == 0
    then some null
    else if (m haystack == m needle) && is_zero (strncmp m haystack needle n)
    then some haystack
    else rest

pub strstr : ℕ → Bytes → (haystack needle : ℕ) → Option ℕ
strstr fuel m haystack needle = elim (strlen fuel m needle) [
  | none ↦ none
  | some n ↦ if n == 0 then some haystack else strstr_loop fuel m haystack needle n
]
