-- ===== src/Storage/KeyEncode/Decode.antt =====
-- What decoding an index key gives back.
use agent_native_db.Prelude.{ℕ, ◌<◌, ◌≡◌, refl, [], ◌∷◌, ◌++◌, All, arith, length, length-append}
use agent_native_db.Bytes.{Bytes}
use agent_native_db.Storage.KeyEncode.{
  before_zero, after_zero, encode_index_key, decode_index_field, decode_index_id,
}

abbrev pub HasNoZero : Bytes → Type 0
HasNoZero = All (λ (b : ℕ). 0 < b)

before_zero-append : (f r : Bytes) → HasNoZero f → before_zero (f ++ 0 ∷ r) ≡ f
unfolding before_zero
before_zero-append [] r h = refl
before_zero-append (b ∷ f) r h = ground (arith, before_zero-append f r h.1)

after_zero-append : (f r : Bytes) → HasNoZero f → after_zero (f ++ 0 ∷ r) ≡ r
unfolding after_zero
after_zero-append [] r h = refl
after_zero-append (b ∷ f) r h = ground (arith, after_zero-append f r h.1)

-- With no room for an id there is none.
after_zero-short : (f id : Bytes) → length id ≡ 0 → id ≡ []
after_zero-short f [] e = refl
after_zero-short f (b ∷ id) e = absurd (omega arith)

-- Decoding the key of a field with no 0x00 byte and any id gives the field and the id.
pub decode-encode_index_key :
    (prefix : ℕ) (field id : Bytes)
    → HasNoZero field
    → (decode_index_field (encode_index_key prefix field id) ≡ field)
      × (decode_index_id (encode_index_key prefix field id) ≡ id)
unfolding decode_index_field decode_index_id encode_index_key
decode-encode_index_key p f id h = ground (
  arith,
  length-append f (0 ∷ id),
  before_zero-append f id h,
  after_zero-append f id h,
  after_zero-short f id,
)
