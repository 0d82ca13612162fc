-- ===== src/Sql/Index/Lookup.antt =====
-- What the lookups of an index find.
use agent_native_db.Prelude.{
  ◌≡◌, ◌≢◌, ◌↔◌, sym, ap, ◌∙◌, subst, inl, inr, Bool, true, Option, none, some, List, [], ◌∷◌, ◌++◌,
  In, append_assoc, arith, Option-cases, if◌then◌else◌,
}
use agent_native_db.Bytes.{Bytes, le_bytes, lt_bytes, has_prefix}
use agent_native_db.Bytes.Lex.{has_prefix-append}
use agent_native_db.Storage.Engine.{Engine}
use agent_native_db.Storage.Engine.Scans.{prefix_scan, prefix_scan_iff}
use agent_native_db.Storage.KeyEncode.{in_range}
use agent_native_db.Storage.KeyEncode.Decode.{HasNoZero}
use agent_native_db.Sql.Index.Order.{IsLow, in_range-entry_key}
use agent_native_db.Sql.Index.{
  Meta, Value, text, escape, fold_case, encode_value, index_data_prefix, entry_key,
  entry_key_prefix, lookup_start, lookup_end, trim_prefix_row_id, decode_row_id, row_ids,
  scan_row_ids, lookup_equal, lookup_range,
}
use agent_native_db.Sql.Index.Keys.{
  In-row_ids, zero-entry_key, decode_row_id-entry_key, entry_key-split, trim-entry_key, trim-whole,
  some_of_present, not_empty_iff,
}

module _ (e : Engine) (s : e.Store) (meta : Meta) where
  -- The prefix of a lookup ends in 0x00, so its scan goes through the keys that have it.
  entries_iff :
      (value : Bytes) (items : List (Bytes × Bytes)) (k v : Bytes)
      → prefix_scan e s (entry_key_prefix meta value) ≡ some items
      → In (k, v) items
        ↔ ((e.get s k ≡ some v) × (has_prefix k (entry_key_prefix meta value) ≡ true))
  unfolding entry_key_prefix
  entries_iff value items k v =
      subst
        (λ (p : Bytes).
          prefix_scan e s p ≡ some items
          → In (k, v) items ↔ ((e.get s k ≡ some v) × (has_prefix k p ≡ true)))
        (append_assoc (index_data_prefix meta) value (0 ∷ []))
        (prefix_scan_iff e s (index_data_prefix meta ++ value) 0 items k v (omega arith))

  scanned-ids :
      (prefix : Bytes) (ids : List Bytes)
      → scan_row_ids e s prefix ≡ some ids
      → (items : List (Bytes × Bytes)) × (prefix_scan e s prefix ≡ some items)
        × (row_ids (λ k. trim_prefix_row_id k prefix) items ≡ ids)
  unfolding scan_row_ids
  scanned-ids prefix ids h = elim (Option-cases (prefix_scan e s prefix)) [
    | inl failed ↦ cc (rw (scan_row_ids, failed) at h)
    | inr (items, scanned) ↦ (items, scanned, cc (rw (scan_row_ids, scanned) at h))
  ]

  rows-scanned :
      (val : Value) (items : List (Bytes × Bytes)) (id : Bytes)
      → prefix_scan e s (entry_key_prefix meta (encode_value val)) ≡ some items
      → In id (row_ids (λ k. trim_prefix_row_id k (entry_key_prefix meta (encode_value val))) items)
        ↔ ((e.get s (entry_key meta (encode_value val) id) ≢ none) × (id ≢ []))
  rows-scanned val items id h =
      let prefix = entry_key_prefix meta (encode_value val) in
      let (out, back) = In-row_ids (λ k. trim_prefix_row_id k prefix) items id in
      (
        (λ i.
            let (k, v, j, d, n) = out i in
            let (held, under) = (entries_iff (encode_value val) items k v h).0 j in
            let at : k ≡ entry_key meta (encode_value val) id =
              trim-whole k prefix under
              ∙ ap (λ (l : Bytes). prefix ++ l) d
              ∙ sym (entry_key-split meta (encode_value val) id) in
            (
              (λ gone. absurd (ground (arith, sym held ∙ ap (e.get s) at ∙ gone))),
              (not_empty_iff id).0 n,
            )),
        λ (there, n).
            let (v, held) =
              some_of_present (e.get s (entry_key meta (encode_value val) id)) there in
            let under : has_prefix (entry_key meta (encode_value val) id) prefix ≡ true =
              ap (λ (k : Bytes). has_prefix k prefix) (entry_key-split meta (encode_value val) id)
              ∙ has_prefix-append prefix id in
            back (
              entry_key meta (encode_value val) id,
              v,
              (entries_iff (encode_value val) items (entry_key meta (encode_value val) id) v h).1
                  (held, under),
              trim-entry_key meta (encode_value val) id,
              (not_empty_iff id).1 n,
            ),
      )

  -- LookupEqual, where its scan does not fail, returns exactly the ids that are not empty and for which
  -- the store has the key of the value and the id.
  pub lookup_equal_iff :
      (val : Value) (ids : List Bytes) (id : Bytes)
      → lookup_equal e s meta val ≡ some ids
      → In id ids ↔ ((e.get s (entry_key meta (encode_value val) id) ≢ none) × (id ≢ []))
  unfolding lookup_equal
  lookup_equal_iff val ids id h =
      let (items, scanned, same) = scanned-ids (entry_key_prefix meta (encode_value val)) ids h in
      subst
        (λ (l : List Bytes).
          In id l ↔ ((e.get s (entry_key meta (encode_value val) id) ≢ none) × (id ≢ [])))
        same (rows-scanned val items id scanned)

  -- A string that goes on with a 0x00 behind another string is found with it: where the store has its
  -- key for a row, LookupEqual for the other string returns an id that is not the row's.
  pub lookup_equal-zero :
      (a b row : Bytes) (ids : List Bytes)
      → lookup_equal e s meta (text a) ≡ some ids
      → e.get s (entry_key meta (encode_value (text (a ++ 0 ∷ b))) row) ≢ none
      → In (0xFF ∷ (escape (fold_case b) ++ 0 ∷ row)) ids
  lookup_equal-zero a b row ids h there =
      let same = zero-entry_key meta a b row in
      (lookup_equal_iff (text a) ids (0xFF ∷ (escape (fold_case b) ++ 0 ∷ row)) h).1
        ((λ gone. there (ap (e.get s) same ∙ gone)), λ empty. absurd (ground (arith, empty)))

  range-ids :
      (low high : Option Value) (include_low include_high : Bool) (ids : List Bytes)
      → lookup_range e s meta low high include_low include_high ≡ some ids
      → (items : List (Bytes × Bytes)) × (e.scan s
            (lookup_start meta low include_low, lookup_end meta high include_high)
          ≡ some items)
        × (row_ids (λ k. decode_row_id k (index_data_prefix meta)) items ≡ ids)
  unfolding lookup_range
  range-ids low high include_low include_high ids h =
      elim (Option-cases
        (e.scan s (lookup_start meta low include_low, lookup_end meta high include_high))) [
          | inl failed ↦ cc (rw (lookup_range, failed) at h)
          | inr (items, scanned) ↦ (items, scanned, cc (rw (lookup_range, scanned) at h))
        ]

  -- LookupRange between two strings, where its scan does not fail, returns an id that starts below 0xFF,
  -- has no 0x00 and is not empty, if the store has its key for a string that lies between the two, in the
  -- order of their bytes without the case of the letters, with each end where it is included.
  pub lookup_range-found :
      (low high v row value : Bytes) (include_low include_high : Bool) (ids : List Bytes)
      → lookup_range e s meta (some (text low)) (some (text high)) include_low include_high
        ≡ some ids
      → e.get s (entry_key meta (encode_value (text v)) row) ≡ some value
      → IsLow row
      → HasNoZero row
      → row ≢ []
      → (if include_low
          then le_bytes (fold_case low) (fold_case v)
          else lt_bytes (fold_case low) (fold_case v))
        ≡ true
      → (if include_high
          then le_bytes (fold_case v) (fold_case high)
          else lt_bytes (fold_case v) (fold_case high))
        ≡ true
      → In row ids
  lookup_range-found low high v row value include_low include_high ids h held row_low z n above
        below =
      let range : Bytes × Option Bytes = (
        lookup_start meta (some (text low)) include_low,
        lookup_end meta (some (text high)) include_high,
      ) in
      let inside : in_range (entry_key meta (encode_value (text v)) row) range ≡ true =
        in_range-entry_key meta low high v row include_low include_high row_low
        ∙ ground (arith, above, below) in
      let (items, scanned, same) =
        range-ids (some (text low)) (some (text high)) include_low include_high ids h in
      let there =
        (e.scan_iff s range items (entry_key meta (encode_value (text v)) row) value scanned).1
          (held, inside) in
      subst (In row) same (
        (In-row_ids (λ k. decode_row_id k (index_data_prefix meta)) items row).1 (
          entry_key meta (encode_value (text v)) row,
          value,
          there,
          decode_row_id-entry_key meta (encode_value (text v)) row z,
          (not_empty_iff row).1 n,
        ))
