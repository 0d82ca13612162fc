-- ===== src/Sql/Index/Keys.antt =====
-- What the keys of entries decode to.
use agent_native_db.Prelude.{
  ◌≡◌, ◌≢◌, ◌↔◌, refl, sym, ap, ◌∙◌, inl, inr, true, false, Option, none, some, List, [], ◌∷◌, ◌++◌,
  In, length, drop, drop-append, append_assoc, arith, Bool-cases,
}
use agent_native_db.Bytes.{Bytes, eq_bytes, has_prefix}
use agent_native_db.Bytes.Lex.{eq_bytes_iff, has_prefix-append, append_of_has_prefix}
use agent_native_db.Storage.KeyEncode.Decode.{HasNoZero}
use agent_native_db.Sql.Index.{
  Meta, text, escape, fold_case, encode_string, encode_value, index_data_prefix, entry_key,
  entry_key_prefix, trim_prefix_row_id, behind_last_zero, decode_row_id, row_ids,
}

-- The row ids of keys are those that the keys decode to, but the empty one.
pub In-row_ids :
    (decode : Bytes → Bytes) (items : List (Bytes × Bytes)) (id : Bytes)
    → In id (row_ids decode items)
      ↔ ((k : Bytes) × (v : Bytes) × In (k, v) items × (decode k ≡ id) × (eq_bytes id [] ≡ false))
unfolding row_ids
In-row_ids decode [] id = ((λ i. absurd i), λ (k, v, i, d, n). i)
In-row_ids decode ((k, v) ∷ items) id =
    let (out, back) = In-row_ids decode items id in
    elim (Bool-cases (eq_bytes (decode k) [])) [
      | inl empty ↦ rw empty (
        (λ i. let (k', v', j, d, n) = out i in (k', v', inr j, d, n)),
        λ (k', v', j, d, n). elim j [
          | inl same ↦
              absurd (ground (arith, empty, n, ap (λ (p : Bytes × Bytes). decode p.0) same, d))
          | inr j ↦ back (k', v', j, d, n)
        ],
      )
      | inr there ↦ rw there (
        (λ i. elim i [
          | inl e ↦ (k, v, inl refl, sym e, ap (λ (x : Bytes). eq_bytes x []) e ∙ there)
          | inr i ↦ let (k', v', j, d, n) = out i in (k', v', inr j, d, n)
        ]),
        λ (k', v', j, d, n). elim j [
          | inl same ↦ inl (sym d ∙ ap (λ (p : Bytes × Bytes). decode p.0) same)
          | inr j ↦ inr (back (k', v', j, d, n))
        ],
      )
    ]

behind_last_zero-none : (row : Bytes) → HasNoZero row → behind_last_zero row ≡ none
unfolding behind_last_zero
behind_last_zero-none [] h = refl
behind_last_zero-none (c ∷ cs) h = ground (arith, behind_last_zero-none cs h.1, h.0)

behind_last_zero-append :
    (value row : Bytes) → HasNoZero row → behind_last_zero (value ++ 0 ∷ row) ≡ some row
unfolding behind_last_zero
behind_last_zero-append [] row h = ground (arith, behind_last_zero-none row h)
behind_last_zero-append (c ∷ value) row h =
    rw (behind_last_zero, behind_last_zero-append value row h) refl

escape-zero :
    (a b : Bytes)
    → escape (fold_case (a ++ 0 ∷ b)) ≡ escape (fold_case a) ++ 0 ∷ 0xFF ∷ escape (fold_case b)
unfolding escape fold_case
escape-zero [] b = ground arith
escape-zero (x ∷ a) b = ground (arith, escape-zero a b)

pub zero-entry_key :
    (meta : Meta) (a b row : Bytes)
    → entry_key meta (encode_value (text (a ++ 0 ∷ b))) row
      ≡ entry_key meta (encode_value (text a)) (0xFF ∷ (escape (fold_case b) ++ 0 ∷ row))
unfolding entry_key encode_value encode_string
zero-entry_key meta a b row =
    let inner : escape (fold_case (a ++ 0 ∷ b)) ++ 0 ∷ row
        ≡ escape (fold_case a) ++ 0 ∷ (0xFF ∷ (escape (fold_case b) ++ 0 ∷ row)) =
      ap (λ (l : Bytes). l ++ 0 ∷ row) (escape-zero a b)
      ∙ append_assoc (escape (fold_case a)) (0 ∷ 0xFF ∷ escape (fold_case b)) (0 ∷ row) in
    ap (λ (l : Bytes). index_data_prefix meta ++ (0x30 ∷ l)) inner

-- The key of an entry decodes to its row id, if that has no 0x00.
pub decode_row_id-entry_key :
    (meta : Meta) (value row : Bytes)
    → HasNoZero row
    → decode_row_id (entry_key meta value row) (index_data_prefix meta) ≡ row
unfolding decode_row_id entry_key
decode_row_id-entry_key meta value row h =
    rw
      (
        decode_row_id,
        has_prefix-append (index_data_prefix meta) (value ++ 0 ∷ row),
        drop-append (index_data_prefix meta) (value ++ 0 ∷ row),
        behind_last_zero-append value row h,
      )
      refl

module _ (meta : Meta) (value : Bytes) where
  pub entry_key-split : (id : Bytes) → entry_key meta value id ≡ entry_key_prefix meta value ++ id
  unfolding entry_key entry_key_prefix
  entry_key-split id = sym (
      append_assoc (index_data_prefix meta) (value ++ 0 ∷ []) id
      ∙ ap (λ (l : Bytes). index_data_prefix meta ++ l) (append_assoc value (0 ∷ []) id))

  pub trim-entry_key :
      (id : Bytes) → trim_prefix_row_id (entry_key meta value id) (entry_key_prefix meta value) ≡ id
  unfolding trim_prefix_row_id
  trim-entry_key id =
      ap (λ (k : Bytes). trim_prefix_row_id k (entry_key_prefix meta value)) (entry_key-split id)
      ∙ rw
          (
            trim_prefix_row_id,
            has_prefix-append (entry_key_prefix meta value) id,
            drop-append (entry_key_prefix meta value) id,
          )
          refl

-- A key with a prefix is the prefix and what is trimmed to.
pub trim-whole : (k p : Bytes) → has_prefix k p ≡ true → k ≡ p ++ trim_prefix_row_id k p
unfolding trim_prefix_row_id
trim-whole k p h =
    let (r, e) = append_of_has_prefix k p h in
    let rest : drop (length p) k ≡ r = ap (drop (length p)) e ∙ drop-append p r in
    rw (trim_prefix_row_id, h) (e ∙ ap (λ (l : Bytes). p ++ l) (sym rest))

pub some_of_present : {A : Type 0} (o : Option A) → o ≢ none → (a : A) × (o ≡ some a)
some_of_present none h = absurd (h refl)
some_of_present (some a) h = (a, refl)

pub not_empty_iff : (id : Bytes) → (eq_bytes id [] ≡ false) ↔ (id ≢ [])
not_empty_iff id = ground (arith, eq_bytes_iff id [])
