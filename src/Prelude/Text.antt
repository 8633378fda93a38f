-- ===== src/Prelude/Text.antt =====
-- The bytes of a string literal, which the kernel's source has in ASCII.
use Prim.Native.Nat.{ℕ}
use Prim.Native.Char.{code}
use Prim.Native.String.{String, [] as end_text, ◌∷◌ as char}
use mathlib.Core.List.{List, [], ◌∷◌}

abbrev pub bytes : String → List ℕ
bytes end_text = []
bytes (char c s) = code c ∷ bytes s
