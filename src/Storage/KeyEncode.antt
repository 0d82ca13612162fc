-- ===== src/Storage/KeyEncode.antt =====
-- internal/storage/keyencode.go: primary keys, secondary index keys, and the ranges that scan them.
pub mod Decode
pub mod Range
mod Examples
use agent_native_db.Prelude.{
  ℕ, ◌+◌, Bool, true, false, List, [], ◌∷◌, ◌++◌, map, Option, none, some, ltb, ◌==◌, ◌&&◌,
  if◌then◌else◌, length,
}
use agent_native_db.Bytes.{Bytes, le_bytes, lt_bytes}

abbrev pub prefix_session : ℕ
prefix_session = 0x01

abbrev pub prefix_vector : ℕ
prefix_vector = 0x10

abbrev pub prefix_vector_payload : ℕ
prefix_vector_payload = 0x12

abbrev pub prefix_graph : ℕ
prefix_graph = 0x20

abbrev pub prefix_system : ℕ
prefix_system = 0xFF

unfoldable pub encode_key : ℕ → Bytes → Bytes
encode_key prefix id = prefix ∷ id

unfoldable pub encode_index_key : ℕ → Bytes → Bytes → Bytes
encode_index_key prefix field id = prefix ∷ (field ++ 0x00 ∷ id)

-- The bytes before the first 0x00, all of them if there is none.
before_zero : Bytes → Bytes
before_zero [] = []
before_zero (b ∷ bs) = if b == 0x00 then [] else b ∷ before_zero bs

-- The bytes after the first 0x00, none if there is none.
after_zero : Bytes → Bytes
after_zero [] = []
after_zero (b ∷ bs) = if b == 0x00 then bs else after_zero bs

-- key[1:]
skip_prefix : Bytes → Bytes
skip_prefix [] = []
skip_prefix (p ∷ bs) = bs

unfoldable pub decode_index_field : Bytes → Bytes
unfolding before_zero skip_prefix
decode_index_field key = if ltb (length key) 2 then [] else before_zero (skip_prefix key)

unfoldable pub decode_index_id : Bytes → Bytes
unfolding after_zero skip_prefix
decode_index_id key = if ltb (length key) 3 then [] else after_zero (skip_prefix key)

unfoldable pub encode_vector_key : Bytes → Bytes → Bytes
unfolding encode_index_key
encode_vector_key index_name id = encode_index_key prefix_vector index_name id

unfoldable pub encode_vector_payload_key : Bytes → Bytes → Bytes
unfolding encode_index_key
encode_vector_payload_key index_name id = encode_index_key prefix_vector_payload index_name id

-- The loop from the last byte on: the bytes behind one have been gone through before it, and are
-- all 0 where it is reached. `none` is the end of the loop: every byte was 0xFF.
increment : Bytes → Option Bytes
increment [] = none
increment (b ∷ bs) = elim (increment bs) [
  | some bs' ↦ some (b ∷ bs')
  | none ↦ if ltb b 0xFF then some ((b + 1) ∷ map (λ _. 0) bs) else none
]

-- The start, and the end if there is one.
unfoldable pub prefix_range : Bytes → Bytes × Option Bytes
unfolding increment
prefix_range prefix = (prefix, increment prefix)

unfoldable pub below_end : Bytes → Option Bytes → Bool
below_end k none = true
below_end k (some e) = lt_bytes k e

-- The key lies in the half-open range that a scan goes through.
unfoldable pub in_range : Bytes → Bytes × Option Bytes → Bool
unfolding below_end
in_range k r = le_bytes r.0 k && below_end k r.1
