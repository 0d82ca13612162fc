-- ===== src/Sql/Index/Rows.antt =====
-- internal/query/sql/index/ops.go: the writes of rows. The terms of a text in an inverted index are those
-- of Tokenize in tokenize.go, which stands on the classes of the unicode package: a parameter. The
-- indexes of a table are those of ListByTable.
use agent_native_db.Prelude.{
  Bool, true, false, not, ◌||◌, Option, none, some, List, [], ◌∷◌, ◌++◌, map, if◌then◌else◌,
}
use agent_native_db.Bytes.{Bytes, eq_bytes}
use agent_native_db.Bytes.Map.{Map, lookup}
use agent_native_db.Storage.Engine.{Engine, WriteOp, put, delete}
use agent_native_db.Sql.Index.{
  Value, text, Meta, hash, btree, inverted, entry_key, encode_value, lookup_equal,
}

-- An id that is not the row's.
unfoldable pub has_other : Bytes → List Bytes → Bool
has_other row_id [] = false
has_other row_id (id ∷ ids) = not (eq_bytes id row_id) || has_other row_id ids

module _ (terms : Bytes → List Bytes) where
  -- keysForValue for an inverted index
  term_keys : Meta → Bytes → Value → List Bytes
  unfolding entry_key
  term_keys meta row_id (text s) = map (λ t. entry_key meta t row_id) (terms s)
  term_keys meta row_id _ = []

  unfoldable pub keys_for_value : Meta → Value → Bytes → List Bytes
  unfolding term_keys entry_key encode_value
  keys_for_value meta val row_id = elim meta.type [
    | inverted ↦ term_keys meta row_id val
    | hash ↦ entry_key meta (encode_value val) row_id ∷ []
    | btree ↦ entry_key meta (encode_value val) row_id ∷ []
  ]

  unfoldable pub put_ops : List Bytes → List WriteOp
  put_ops [] = []
  put_ops (k ∷ ks) = record { type = put; key = k; value = 1 ∷ [] } ∷ put_ops ks

  unfoldable pub delete_ops : List Bytes → List WriteOp
  delete_ops [] = []
  delete_ops (k ∷ ks) = record { type = delete; key = k; value = [] } ∷ delete_ops ks

  unfoldable pub delete_row_ops : List Meta → Map Value → Bytes → List WriteOp
  unfolding lookup delete_ops keys_for_value
  delete_row_ops [] row row_id = []
  delete_row_ops (meta ∷ metas) row row_id =
      let later = delete_row_ops metas row row_id in
      elim (lookup meta.column row) [
        | none ↦ later
        | some val ↦ delete_ops (keys_for_value meta val row_id) ++ later
      ]

  module _ (e : Engine) where
    -- Whether the check passes: false is its error, or that of the scan.
    unfoldable pub validate_unique : e.Store → Meta → Value → Bytes → Bool
    unfolding lookup_equal has_other
    validate_unique s meta val row_id = if not meta.unique then true else elim meta.type [
      | inverted ↦ false
      | hash ↦ elim (lookup_equal e s meta val) [
        | none ↦ false
        | some ids ↦ not (has_other row_id ids)
      ]
      | btree ↦ elim (lookup_equal e s meta val) [
        | none ↦ false
        | some ids ↦ not (has_other row_id ids)
      ]
    ]

    unfoldable pub insert_row_ops : e.Store → List Meta → Map Value → Bytes → Option (List WriteOp)
    unfolding lookup validate_unique put_ops keys_for_value
    insert_row_ops s [] row row_id = some []
    insert_row_ops s (meta ∷ metas) row row_id =
        let later = insert_row_ops s metas row row_id in
        elim (lookup meta.column row) [
          | none ↦ later
          | some val ↦
              if validate_unique s meta val row_id
              then elim later [
                | none ↦ none
                | some ops ↦ some (put_ops (keys_for_value meta val row_id) ++ ops)
              ]
              else none
        ]

    -- A batch that is empty is not written.
    unfoldable pub write_row_ops : e.Store → List WriteOp → Option e.Store
    write_row_ops s [] = some s
    write_row_ops s (op ∷ ops) = e.batch_write s (op ∷ ops)

    unfoldable pub insert_row : e.Store → List Meta → Map Value → Bytes → Option e.Store
    unfolding insert_row_ops write_row_ops
    insert_row s metas row row_id = elim (insert_row_ops s metas row row_id) [
      | none ↦ none
      | some ops ↦ write_row_ops s ops
    ]

    unfoldable pub delete_row : e.Store → List Meta → Map Value → Bytes → Option e.Store
    unfolding delete_row_ops write_row_ops
    delete_row s metas row row_id = write_row_ops s (delete_row_ops metas row row_id)

    unfoldable pub update_row : e.Store → List Meta → Map Value → Map Value → Bytes → Option e.Store
    unfolding insert_row_ops delete_row_ops write_row_ops
    update_row s metas old_row new_row row_id = elim (insert_row_ops s metas new_row row_id) [
      | none ↦ none
      | some ops ↦ write_row_ops s (delete_row_ops metas old_row row_id ++ ops)
    ]
