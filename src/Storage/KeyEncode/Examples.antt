-- ===== src/Storage/KeyEncode/Examples.antt =====
-- Keys and ranges at concrete inputs.
use agent_native_db.Prelude.{◌≡◌, ◌↔◌, true, false, [], ◌∷◌, arith}
use agent_native_db.Bytes.{Bytes, has_prefix}
use agent_native_db.Storage.KeyEncode.{
  encode_index_key, decode_index_field, decode_index_id, prefix_range, in_range, prefix_graph,
}
use agent_native_db.Storage.KeyEncode.Decode.{decode-encode_index_key}
use agent_native_db.Storage.KeyEncode.Range.{carry_range_too_wide, index_scan_exact}

abbrev field : Bytes
field = 97 ∷ 98 ∷ []

abbrev id : Bytes
id = 0 ∷ 99 ∷ []

decode-encode_index_key_example :
    (decode_index_field (encode_index_key prefix_graph field id) ≡ field)
    × (decode_index_id (encode_index_key prefix_graph field id) ≡ id)
decode-encode_index_key_example =
    decode-encode_index_key prefix_graph field id (omega arith, (omega arith, tt))

carry_range_too_wide_example :
    (in_range (97 ∷ 99 ∷ []) (prefix_range (97 ∷ 98 ∷ 255 ∷ [])) ≡ true)
    × (has_prefix (97 ∷ 99 ∷ []) (97 ∷ 98 ∷ 255 ∷ []) ≡ false)
carry_range_too_wide_example = carry_range_too_wide (97 ∷ []) 98 (omega arith)

index_scan_exact_example :
    (in_range
        (encode_index_key prefix_graph field id)
        (prefix_range (encode_index_key prefix_graph field []))
      ≡ true)
    ↔ ((i : Bytes) × (encode_index_key prefix_graph field id
          ≡ encode_index_key prefix_graph field i))
index_scan_exact_example =
    index_scan_exact prefix_graph field (encode_index_key prefix_graph field id)
