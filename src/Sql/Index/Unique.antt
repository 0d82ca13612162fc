-- ===== src/Sql/Index/Unique.antt =====
-- What a write of a row leaves in one index.
use agent_native_db.Prelude.{
  ◌≡◌, ◌≢◌, refl, sym, ap, ◌∙◌, ◌⊎◌, inl, inr, true, none, some, List, [], ◌∷◌, ◌++◌, arith,
  Bool-cases, Option-cases, if◌then◌else◌,
}
use agent_native_db.Bytes.{Bytes, eq_bytes}
use agent_native_db.Bytes.Lex.{eq_bytes_iff}
use agent_native_db.Bytes.Map.{Map, lookup}
use agent_native_db.Storage.Engine.{Engine, WriteOp, put, delete}
use agent_native_db.Sql.Index.{
  Value, Meta, IndexType, hash, btree, inverted, entry_key, encode_value,
}
use agent_native_db.Sql.Index.Rows.{
  keys_for_value, put_ops, delete_ops, delete_row_ops, validate_unique, insert_row_ops,
  write_row_ops, update_row,
}

kind-cases : (t : IndexType) → t ≢ inverted → (t ≡ hash) ⊎ (t ≡ btree)
kind-cases hash h = inl refl
kind-cases btree h = inr refl
kind-cases inverted h = absurd (h refl)

module _ (terms : Bytes → List Bytes) (e : Engine) (s : e.Store) (meta : Meta) (row_id : Bytes)
    (plain : meta.type ≢ inverted) where
  keys_for_value-plain :
      (val : Value)
      → keys_for_value terms meta val row_id ≡ entry_key meta (encode_value val) row_id ∷ []
  unfolding keys_for_value
  keys_for_value-plain val = elim (kind-cases meta.type plain) [
    | inl k ↦ ground (arith, k)
    | inr k ↦ ground (arith, k)
  ]

  -- The operations of an insertion into the one index.
  inserted-ops :
      (row : Map Value) (val : Value) (ops : List WriteOp)
      → lookup meta.column row ≡ some val
      → insert_row_ops terms e s (meta ∷ []) row row_id ≡ some ops
      → (validate_unique terms e s meta val row_id ≡ true)
        × (ops ≡ put_ops terms (keys_for_value terms meta val row_id) ++ [])
  unfolding insert_row_ops
  inserted-ops row val ops l h = elim (Bool-cases (validate_unique terms e s meta val row_id)) [
    | inl ok ↦ (ok, ground (arith, h, l, ok))
    | inr fails ↦ absurd (ground (arith, h, l, fails))
  ]

  deleted-ops :
      (row : Map Value) (val : Value)
      → lookup meta.column row ≡ some val
      → delete_row_ops terms (meta ∷ []) row row_id
        ≡ delete_ops terms (keys_for_value terms meta val row_id) ++ []
  unfolding delete_row_ops
  deleted-ops row val l = ground (arith, l)

differ_sym : {x y : Bytes} → x ≢ y → y ≢ x
differ_sym h e = h (sym e)

update_fails :
    (terms : Bytes → List Bytes) (e : Engine) (s s' : e.Store) (meta : Meta)
    (old_row new_row : Map Value) (row_id : Bytes)
    → insert_row_ops terms e s (meta ∷ []) new_row row_id ≡ none
    → update_row terms e s (meta ∷ []) old_row new_row row_id ≡ some s'
    → ⊥
unfolding update_row
update_fails terms e s s' meta old_row new_row row_id r h = cc (rw (update_row, r) at h)

updated-writes :
    (terms : Bytes → List Bytes) (e : Engine) (s s' : e.Store) (meta : Meta)
    (old_row new_row : Map Value) (row_id : Bytes) (ops : List WriteOp)
    → insert_row_ops terms e s (meta ∷ []) new_row row_id ≡ some ops
    → update_row terms e s (meta ∷ []) old_row new_row row_id ≡ some s'
    → write_row_ops terms e s (delete_row_ops terms (meta ∷ []) old_row row_id ++ ops) ≡ some s'
unfolding update_row
updated-writes terms e s s' meta old_row new_row row_id ops r h = rw (update_row, r) at h

-- In a table with one index, which is no inverted one, an update that succeeds leaves the key of the new
-- value for the row, and not that of the old value, if the two differ.
pub update_row-moved :
    (terms : Bytes → List Bytes) (e : Engine) (s s' : e.Store) (meta : Meta)
    (old_row new_row : Map Value) (old new : Value) (row_id : Bytes)
    → meta.type ≢ inverted
    → lookup meta.column old_row ≡ some old
    → lookup meta.column new_row ≡ some new
    → entry_key meta (encode_value old) row_id ≢ entry_key meta (encode_value new) row_id
    → update_row terms e s (meta ∷ []) old_row new_row row_id ≡ some s'
    → (e.get s' (entry_key meta (encode_value new) row_id) ≡ some (1 ∷ []))
      × (e.get s' (entry_key meta (encode_value old) row_id) ≡ none)
unfolding write_row_ops put_ops delete_ops
update_row-moved terms e s s' meta old_row new_row old new row_id plain l m differ h =
    elim (Option-cases (insert_row_ops terms e s (meta ∷ []) new_row row_id)) [
      | inl fails ↦ absurd (update_fails terms e s s' meta old_row new_row row_id fails h)
      | inr (ops, r) ↦
          let (ok, are) = inserted-ops terms e s meta row_id plain new_row new ops m r in
          let from = entry_key meta (encode_value old) row_id in
          let to = entry_key meta (encode_value new) row_id in
          let both : List WriteOp =
            record { type = delete; key = from; value = [] }
            ∷ record { type = put; key = to; value = 1 ∷ [] }
            ∷ [] in
          let puts : ops ≡ record { type = put; key = to; value = 1 ∷ [] } ∷ [] =
            are
            ∙ ap (λ (ks : List Bytes). put_ops terms ks ++ [])
                (keys_for_value-plain terms e s meta row_id plain new) in
          let deletes : delete_row_ops terms (meta ∷ []) old_row row_id
              ≡ record { type = delete; key = from; value = [] } ∷ [] =
            deleted-ops terms e s meta row_id plain old_row old l
            ∙ ap (λ (ks : List Bytes). delete_ops terms ks ++ [])
                (keys_for_value-plain terms e s meta row_id plain old) in
          let all_ops : delete_row_ops terms (meta ∷ []) old_row row_id ++ ops ≡ both =
            ap (λ (os : List WriteOp). os ++ ops) deletes
            ∙ ap (λ (os : List WriteOp). record { type = delete; key = from; value = [] } ∷ os)
                puts in
          let wrote : e.batch_write s both ≡ some s' =
            ap (write_row_ops terms e s) (sym all_ops)
            ∙ updated-writes terms e s s' meta old_row new_row row_id ops r h in
          let left : (j : Bytes)
              → e.get s' j ≡ (
                  if eq_bytes to j
                  then some (1 ∷ [])
                  else if eq_bytes from j
                  then none
                  else e.get s j) =
            λ j. e.get-batch_write s s' both j wrote in
          (
            left to ∙ ground (arith, eq_bytes_iff to to),
            left from
                ∙ ground (arith, eq_bytes_iff from from, eq_bytes_iff to from, differ_sym differ),
          )
    ]
