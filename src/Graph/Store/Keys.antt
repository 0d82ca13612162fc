-- ===== src/Graph/Store/Keys.antt =====
-- The keys of edges and of the entries of their indexes are told apart.
use agent_native_db.Prelude.{
  ◌≢◌, inl, inr, Bool, true, false, ◌&&◌, ◌≡◌, refl, sym, ap, ◌∙◌, Option, none, some, List, [],
  ◌∷◌, drop, arith, Option-cases, Bool-cases, if◌then◌else◌,
}
use agent_native_db.Bytes.{Bytes, eq_bytes}
use agent_native_db.Bytes.Lex.{eq_bytes_iff}
use agent_native_db.Storage.KeyEncode.{
  prefix_graph, encode_key, encode_index_key, decode_index_field, decode_index_id,
}
use agent_native_db.Storage.KeyEncode.Decode.{HasNoZero, decode-encode_index_key}
use agent_native_db.Storage.Engine.{Engine}
use agent_native_db.Graph.Store.{
  Edge, index_key, edge_key, out_of, in_of, etype_of, set_all, delete_all,
}

-- The three indexes of edges: by the node that they leave, by the node that they enter, by their type.
pub data Index : Type 0 where
  outs ins types : Index

abbrev pub field_of : Index → Bytes → Bytes
field_of outs n = out_of n
field_of ins n = in_of n
field_of types n = etype_of n

abbrev pub end_of : Index → Edge → Bytes
end_of outs edge = edge.from_id
end_of ins edge = edge.to_id
end_of types edge = edge.type

abbrev same_index : Index → Index → Bool
same_index outs outs = true
same_index ins ins = true
same_index types types = true
same_index _ _ = false

pub field_of-HasNoZero : (x : Index) (n : Bytes) → HasNoZero n → HasNoZero (field_of x n)
field_of-HasNoZero outs n h = (omega arith, (omega arith, (omega arith, (omega arith, h))))
field_of-HasNoZero ins n h = (omega arith, (omega arith, (omega arith, h)))
field_of-HasNoZero types n h =
    (omega arith, (omega arith, (omega arith, (omega arith, (omega arith, (omega arith, h))))))

field_of-injective : (x : Index) (a n : Bytes) → field_of x a ≡ field_of x n → a ≡ n
field_of-injective outs a n e = ap (drop 4) e
field_of-injective ins a n e = ap (drop 3) e
field_of-injective types a n e = ap (drop 6) e

index_key-injective :
    (x : Index) (a n i id : Bytes)
    → HasNoZero a
    → HasNoZero n
    → index_key (field_of x a) i ≡ index_key (field_of x n) id
    → (a ≡ n) × (i ≡ id)
unfolding index_key
index_key-injective x a n i id g h e =
    let (f, k) = decode-encode_index_key prefix_graph (field_of x a) i (field_of-HasNoZero x a g) in
    let (f', k') =
      decode-encode_index_key prefix_graph (field_of x n) id (field_of-HasNoZero x n h) in
    (
      field_of-injective x a n (sym f ∙ ap decode_index_field e ∙ f'),
      sym k ∙ ap decode_index_id e ∙ k',
    )

pub eq_bytes-index_key :
    (x : Index) (a n i id : Bytes)
    → HasNoZero a
    → HasNoZero n
    → eq_bytes (index_key (field_of x a) i) (index_key (field_of x n) id)
      ≡ (eq_bytes a n && eq_bytes i id)
eq_bytes-index_key x a n i id g h =
    elim (Bool-cases (eq_bytes (index_key (field_of x a) i) (index_key (field_of x n) id))) [
      | inl e ↦
          let (p, q) = index_key-injective x a n i id g h ((eq_bytes_iff _ _).0 e) in
          ground (arith, e, eq_bytes_iff a n, eq_bytes_iff i id)
      | inr e ↦ elim (Bool-cases (eq_bytes a n && eq_bytes i id)) [
        | inr differ ↦ e ∙ sym differ
        | inl both ↦
            let p : a ≡ n = ground (arith, eq_bytes_iff a n) in
            let q : i ≡ id = ground (arith, eq_bytes_iff i id) in
            let same : index_key (field_of x a) i ≡ index_key (field_of x n) id =
              ap (λ (t : Bytes). index_key (field_of x t) i) p ∙ ap (index_key (field_of x n)) q in
            cc ((eq_bytes_iff (index_key (field_of x a) i) (index_key (field_of x n) id)).1 same)
      ]
    ]

pub eq_bytes-other_index :
    (x y : Index) (a n i id : Bytes)
    → same_index x y ≡ false
    → eq_bytes (index_key (field_of x a) i) (index_key (field_of y n) id) ≡ false
unfolding index_key encode_index_key eq_bytes
eq_bytes-other_index outs ins a n i id h = refl
eq_bytes-other_index outs types a n i id h = refl
eq_bytes-other_index ins outs a n i id h = refl
eq_bytes-other_index ins types a n i id h = refl
eq_bytes-other_index types outs a n i id h = refl
eq_bytes-other_index types ins a n i id h = refl
eq_bytes-other_index outs outs a n i id h = cc
eq_bytes-other_index ins ins a n i id h = cc
eq_bytes-other_index types types a n i id h = cc

pub eq_bytes-edge_key :
    (x : Index) (a n id : Bytes)
    → (eq_bytes (edge_key a) (index_key (field_of x n) id) ≡ false)
      × (eq_bytes (index_key (field_of x n) id) (edge_key a) ≡ false)
      × (eq_bytes (edge_key a) (edge_key id) ≡ eq_bytes a id)
unfolding edge_key index_key encode_key encode_index_key eq_bytes
eq_bytes-edge_key outs a n id = (refl, refl, refl)
eq_bytes-edge_key ins a n id = (refl, refl, refl)
eq_bytes-edge_key types a n id = (refl, refl, refl)

-- What a key holds after writes in order.
abbrev pub after_sets : List (Bytes × Bytes) → Bytes → Option Bytes → Option Bytes
after_sets [] k v = v
after_sets ((j, w) ∷ rest) k v = after_sets rest k (if eq_bytes j k then some w else v)

abbrev pub after_deletes : List Bytes → Bytes → Option Bytes → Option Bytes
after_deletes [] k v = v
after_deletes (j ∷ rest) k v = after_deletes rest k (if eq_bytes j k then none else v)

module _ (e : Engine) where
  pub get-set_all :
      (s s' : e.Store) (writes : List (Bytes × Bytes)) (k : Bytes)
      → set_all e s writes ≡ (s', true)
      → e.get s' k ≡ after_sets writes k (e.get s k)
  unfolding set_all
  get-set_all s s' [] k h = sym (ap (λ (r : e.Store × Bool). e.get r.0 k) h)
  get-set_all s s' ((j, w) ∷ rest) k h = elim (Option-cases (e.set s j w)) [
    | inl failed ↦ cc (ap (λ (r : e.Store × Bool). r.1) (rw (failed, set_all) at h))
    | inr (t, done) ↦
        get-set_all t s' rest k (rw (done, set_all) at h)
        ∙ ap (after_sets rest k) (e.get-set s t j w k done)
  ]

  pub get-delete_all :
      ((s : e.Store) (k : Bytes) → e.delete_key s k ≢ none)
      → (s : e.Store) (keys : List Bytes) (k : Bytes)
      → e.get (delete_all e s keys) k ≡ after_deletes keys k (e.get s k)
  unfolding delete_all
  get-delete_all ok s [] k = refl
  get-delete_all ok s (j ∷ rest) k = elim (Option-cases (e.delete_key s j)) [
    | inl failed ↦ absurd (ok s j failed)
    | inr (t, done) ↦
        rw (done, delete_all)
          (get-delete_all ok t rest k ∙ ap (after_deletes rest k) (e.get-delete_key s t j k done))
  ]
