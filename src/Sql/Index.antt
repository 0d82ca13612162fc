-- ===== src/Sql/Index.antt =====
-- internal/query/sql/index: the encoding of values of encoding.go, the keys of manager.go and the
-- lookups of ops.go. A float is its bits, as math.Float64bits gives them, with the answer to `f >= 0`;
-- a value of a type that EncodeValue does not name is encoded as the `blob` of no bytes.
pub mod Order
pub mod Keys
pub mod Lookup
pub mod Rows
pub mod Unique
mod Examples
use agent_native_db.Prelude.{
  ℕ, ◌+◌, ◌-◌, ◌^◌, Bool, true, false, ◌&&◌, Option, none, some, List, [], ◌∷◌, ◌++◌, ◌==◌, leb,
  ltb, length, drop, if◌then◌else◌,
}
use agent_native_db.Bytes.{Bytes, codes, eq_bytes, has_prefix}
use agent_native_db.Bytes.BigEndian.{be}
use agent_native_db.Storage.KeyEncode.{prefix_range}
use agent_native_db.Storage.Engine.{Engine}
use agent_native_db.Storage.Engine.Scans.{prefix_scan}

pub data Value : Type 0 where
  null : Value
  boolean : Bool → Value
  number : ℕ → Bool → Value
  text : Bytes → Value
  -- []byte
  blob : Bytes → Value

abbrev pub tag_null : ℕ
tag_null = 0

abbrev pub tag_false : ℕ
tag_false = 0x10

abbrev pub tag_true : ℕ
tag_true = 0x11

abbrev pub tag_number : ℕ
tag_number = 0x20

abbrev pub tag_string : ℕ
tag_string = 0x30

-- The loops that write a 0x00 as 0x00 0xFF.
unfoldable pub escape : Bytes → Bytes
escape [] = []
escape (b ∷ bs) = if b == 0 then 0 ∷ 0xFF ∷ escape bs else b ∷ escape bs

-- A-Z -> a-z
unfoldable pub fold_case : Bytes → Bytes
fold_case [] = []
fold_case (b ∷ bs) = (if leb 0x41 b && leb b 0x5A then b + 0x20 else b) ∷ fold_case bs

unfoldable pub encode_string : Bytes → Bytes
unfolding escape fold_case
encode_string s = tag_string ∷ escape (fold_case s)

-- `bits ^= 1 << 63` flips the highest bit, and `^bits` flips all.
unfoldable pub encode_number : ℕ → Bool → Bytes
unfolding escape be
encode_number bits at_least_zero =
    let flipped = if ltb bits (2 ^ 63) then bits + 2 ^ 63 else bits - 2 ^ 63 in
    tag_number ∷ escape (be 8 (if at_least_zero then flipped else 2 ^ 64 - 1 - bits))

unfoldable pub encode_value : Value → Bytes
unfolding encode_number encode_string
encode_value null = tag_null ∷ []
encode_value (boolean b) = if b then tag_true ∷ [] else tag_false ∷ []
encode_value (number bits at_least_zero) = encode_number bits at_least_zero
encode_value (text s) = encode_string s
encode_value (blob s) = encode_string s

pub data IndexType : Type 0 where
  hash btree inverted : IndexType

pub record Meta : Type 0 where
  pub name : Bytes
  pub table : Bytes
  pub column : Bytes
  pub type : IndexType
  pub unique : Bool

-- storage.PrefixIndex
abbrev pub prefix_index : ℕ
prefix_index = 0x11

unfoldable pub type_head : IndexType → Bytes
type_head hash = codes "h:"
type_head inverted = codes "i:"
type_head btree = codes "b:"

unfoldable pub index_data_prefix : Meta → Bytes
unfolding type_head
index_data_prefix meta = prefix_index ∷ (type_head meta.type ++ (meta.name ++ 0 ∷ []))

unfoldable pub entry_key : Meta → Bytes → Bytes → Bytes
unfolding index_data_prefix
entry_key meta value row_id = index_data_prefix meta ++ (value ++ 0 ∷ row_id)

unfoldable pub entry_key_prefix : Meta → Bytes → Bytes
unfolding index_data_prefix
entry_key_prefix meta value = index_data_prefix meta ++ (value ++ 0 ∷ [])

unfoldable pub trim_prefix_row_id : Bytes → Bytes → Bytes
trim_prefix_row_id key prefix = if has_prefix key prefix then drop (length prefix) key else []

-- What is behind the last 0x00, if there is one.
unfoldable pub behind_last_zero : Bytes → Option Bytes
behind_last_zero [] = none
behind_last_zero (b ∷ bs) = elim (behind_last_zero bs) [
  | some found ↦ some found
  | none ↦ if b == 0 then some bs else none
]

unfoldable pub decode_row_id : Bytes → Bytes → Bytes
unfolding behind_last_zero
decode_row_id key data_prefix =
    if has_prefix key data_prefix
    then elim (behind_last_zero (drop (length data_prefix) key)) [ none ↦ [] | some id ↦ id ]
    else []

-- The row ids of keys; an empty one is left out.
unfoldable pub row_ids : (Bytes → Bytes) → List (Bytes × Bytes) → List Bytes
row_ids decode [] = []
row_ids decode ((k, v) ∷ items) =
    let later = row_ids decode items in if eq_bytes (decode k) [] then later else decode k ∷ later

-- The start and the end of LookupRange; `none` is a bound that is nil.
unfoldable pub lookup_start : Meta → Option Value → Bool → Bytes
unfolding index_data_prefix entry_key_prefix encode_value
lookup_start meta none include_low = index_data_prefix meta
lookup_start meta (some low) include_low =
    if include_low
    then entry_key_prefix meta (encode_value low)
    else entry_key_prefix meta (encode_value low) ++ 0xFF ∷ []

unfoldable pub lookup_end : Meta → Option Value → Bool → Option Bytes
unfolding index_data_prefix entry_key_prefix encode_value prefix_range
lookup_end meta none include_high = (prefix_range (index_data_prefix meta)).1
lookup_end meta (some high) include_high = some (
    if include_high
    then entry_key_prefix meta (encode_value high) ++ 0xFF ∷ []
    else entry_key_prefix meta (encode_value high))

module _ (e : Engine) (s : e.Store) where
  -- `none` is the error of a scan.
  unfoldable pub scan_row_ids : Bytes → Option (List Bytes)
  unfolding row_ids trim_prefix_row_id prefix_scan
  scan_row_ids prefix = elim (prefix_scan e s prefix) [
    | none ↦ none
    | some items ↦ some (row_ids (λ k. trim_prefix_row_id k prefix) items)
  ]

  unfoldable pub lookup_equal : Meta → Value → Option (List Bytes)
  unfolding scan_row_ids entry_key_prefix encode_value
  lookup_equal meta val = scan_row_ids (entry_key_prefix meta (encode_value val))

  unfoldable pub lookup_range :
      Meta → Option Value → Option Value → Bool → Bool → Option (List Bytes)
  unfolding row_ids decode_row_id lookup_start lookup_end index_data_prefix
  lookup_range meta low high include_low include_high =
      elim (e.scan s (lookup_start meta low include_low, lookup_end meta high include_high)) [
        | none ↦ none
        | some items ↦ some (row_ids (λ k. decode_row_id k (index_data_prefix meta)) items)
      ]
