-- ===== src/Sql/Index/Order.antt =====
-- The order of the keys of an index.
use agent_native_db.Prelude.{
  ◌<◌, ◌≡◌, refl, ap, ◌∙◌, Bool, true, false, ◌&&◌, not, some, [], ◌∷◌, ◌++◌, arith, append_assoc,
  if◌then◌else◌,
}
use agent_native_db.Bytes.{Bytes, le_bytes, lt_bytes}
use agent_native_db.Bytes.Lex.{le_bytes-append_left}
use agent_native_db.Storage.KeyEncode.{in_range, below_end}
use agent_native_db.Sql.Index.{
  Meta, text, escape, fold_case, encode_string, encode_value, index_data_prefix, entry_key,
  entry_key_prefix, lookup_start, lookup_end,
}

not-not : (b : Bool) → not (not b) ≡ b
not-not true = refl
not-not false = refl

-- Escaped bytes keep their order.
pub le_bytes-escape : (a b : Bytes) → le_bytes (escape a) (escape b) ≡ le_bytes a b
unfolding escape le_bytes
le_bytes-escape [] b = refl
le_bytes-escape (x ∷ a) [] = ground arith
le_bytes-escape (x ∷ a) (y ∷ b) = ground (arith, le_bytes-escape a b)

-- The first byte of a row id is below 0xFF.
abbrev pub IsLow : Bytes → Type 0
IsLow [] = Unit
IsLow (c ∷ cs) = c < 0xFF

le_from :
    (a b row : Bytes)
    → IsLow row
    → le_bytes (escape a ++ 0 ∷ []) (escape b ++ 0 ∷ row) ≡ le_bytes a b
unfolding escape le_bytes
le_from [] [] row low = refl
le_from [] (y ∷ b) row low = ground arith
le_from (x ∷ a) [] [] low = ground arith
le_from (x ∷ a) [] (c ∷ row) low = ground (arith, low)
le_from (x ∷ a) (y ∷ b) row low = ground (arith, le_from a b row low)

le_behind :
    (a b row : Bytes)
    → IsLow row
    → le_bytes (escape a ++ 0 ∷ 0xFF ∷ []) (escape b ++ 0 ∷ row) ≡ not (le_bytes b a)
unfolding escape le_bytes
le_behind [] [] [] low = refl
le_behind [] [] (c ∷ row) low = ground (arith, low)
le_behind [] (y ∷ b) row low = ground arith
le_behind (x ∷ a) [] [] low = ground arith
le_behind (x ∷ a) [] (c ∷ row) low = ground (arith, low)
le_behind (x ∷ a) (y ∷ b) row low = ground (arith, le_behind a b row low)

behind-key :
    (meta : Meta) (x : Bytes)
    → entry_key_prefix meta x ++ 0xFF ∷ [] ≡ index_data_prefix meta ++ (x ++ 0 ∷ 0xFF ∷ [])
unfolding entry_key_prefix
behind-key meta x =
    append_assoc (index_data_prefix meta) (x ++ 0 ∷ []) (0xFF ∷ [])
    ∙ ap (λ (l : Bytes). index_data_prefix meta ++ l) (append_assoc x (0 ∷ []) (0xFF ∷ []))

module _ (meta : Meta) (v row : Bytes) (row_low : IsLow row) where
  abbrev key : Bytes
  key = entry_key meta (encode_value (text v)) row

  key-from :
      (low : Bytes)
      → le_bytes (entry_key_prefix meta (encode_value (text low))) key
        ≡ le_bytes (fold_case low) (fold_case v)
  unfolding entry_key entry_key_prefix encode_value encode_string le_bytes
  key-from low =
      le_bytes-append_left (index_data_prefix meta) (encode_string low ++ 0 ∷ [])
        (encode_string v ++ 0 ∷ row)
      ∙ le_from (fold_case low) (fold_case v) row row_low

  key-behind :
      (low : Bytes)
      → le_bytes (entry_key_prefix meta (encode_value (text low)) ++ 0xFF ∷ []) key
        ≡ not (le_bytes (fold_case v) (fold_case low))
  unfolding entry_key encode_value encode_string le_bytes
  key-behind low =
      ap (λ (l : Bytes). le_bytes l key) (behind-key meta (encode_value (text low)))
      ∙ le_bytes-append_left (index_data_prefix meta) (encode_string low ++ 0 ∷ 0xFF ∷ [])
          (encode_string v ++ 0 ∷ row)
      ∙ le_behind (fold_case low) (fold_case v) row row_low

  above-start :
      (low : Bytes) (include_low : Bool)
      → le_bytes (lookup_start meta (some (text low)) include_low) key ≡ (
          if include_low
          then le_bytes (fold_case low) (fold_case v)
          else lt_bytes (fold_case low) (fold_case v))
  unfolding lookup_start
  above-start low true = key-from low
  above-start low false = key-behind low

  below-end :
      (high : Bytes) (include_high : Bool)
      → below_end key (lookup_end meta (some (text high)) include_high) ≡ (
          if include_high
          then le_bytes (fold_case v) (fold_case high)
          else lt_bytes (fold_case v) (fold_case high))
  unfolding lookup_end below_end
  below-end high true = ap not (key-behind high) ∙ not-not (le_bytes (fold_case v) (fold_case high))
  below-end high false = ap not (key-from high)

-- The key of a string and a row whose id starts below 0xFF lies in the range that LookupRange scans for
-- two strings exactly where the string lies between the two, in the order of their bytes without the case
-- of the letters, with each end where it is included.
pub in_range-entry_key :
    (meta : Meta) (low high v row : Bytes) (include_low include_high : Bool)
    → IsLow row
    → in_range (entry_key meta (encode_value (text v)) row) (
      lookup_start meta (some (text low)) include_low,
      lookup_end meta (some (text high)) include_high,
    )
      ≡ ((if include_low
            then le_bytes (fold_case low) (fold_case v)
            else lt_bytes (fold_case low) (fold_case v))
          && (if include_high
              then le_bytes (fold_case v) (fold_case high)
              else lt_bytes (fold_case v) (fold_case high)))
unfolding in_range
in_range-entry_key meta low high v row include_low include_high row_low =
    ap
      (λ (b : Bool).
        b
        && below_end (entry_key meta (encode_value (text v)) row)
            (lookup_end meta (some (text high)) include_high))
      (above-start meta v row row_low low include_low)
    ∙ ap
        (λ (b : Bool).
          (if include_low
            then le_bytes (fold_case low) (fold_case v)
            else lt_bytes (fold_case low) (fold_case v))
          && b)
        (below-end meta v row row_low high include_high)
