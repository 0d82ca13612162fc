-- ===== src/Bytes.antt =====
-- Byte strings ([]byte and the bytes of a Go string) and bytes.Compare, the order of the store's
-- keys. A byte is a number; that it is below 256 is stated where it is needed.
pub mod Lex
pub mod BigEndian
pub mod Map
use Prim.Native.Char.{code}
use agent_native_db.Prelude.{
  String, ℕ, ◌+◌, ◌≤◌, ◌<◌, Bool, true, false, List, [], ◌∷◌, ◌&&◌, All, not, ltb, ◌==◌,
  if◌then◌else◌, ◌≡◌, ◌↔◌, arith, ◌++◌,
}

abbrev pub Bytes : Type 0
Bytes = List ℕ

-- bytes.Compare(a, b) <= 0
unfoldable pub le_bytes : Bytes → Bytes → Bool
le_bytes [] ys = true
le_bytes (x ∷ xs) [] = false
le_bytes (x ∷ xs) (y ∷ ys) = if ltb x y then true else if ltb y x then false else le_bytes xs ys

-- bytes.Compare(a, b) < 0
abbrev pub lt_bytes : Bytes → Bytes → Bool
lt_bytes a b = not (le_bytes b a)

-- a == b
unfoldable pub eq_bytes : Bytes → Bytes → Bool
eq_bytes [] [] = true
eq_bytes (x ∷ xs) (y ∷ ys) = x == y && eq_bytes xs ys
eq_bytes _ _ = false

-- bytes.HasPrefix(k, p)
unfoldable pub has_prefix : Bytes → Bytes → Bool
has_prefix k [] = true
has_prefix [] (p ∷ ps) = false
has_prefix (x ∷ k) (p ∷ ps) = x == p && has_prefix k ps

-- The bytes of a string constant, which are ASCII here.
abbrev pub codes : String → Bytes
codes String.[] = []
codes (String.◌∷◌ c s) = code c ∷ codes s

abbrev pub IsBytes : Bytes → Type 0
IsBytes = All (λ (b : ℕ). b < 256)
