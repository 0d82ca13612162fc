-- ===== src/Graph/Store/Deleted.antt =====
-- The indexes of edges agree with the edges behind the deletion of an edge.
use agent_native_db.Prelude.{
  false, ◌&&◌, ◌≡◌, ◌≢◌, refl, sym, ap, ◌∙◌, inl, inr, none, some, List, [], ◌∷◌, arith,
  Option-cases, Bool-cases, if◌then◌else◌,
}
use agent_native_db.Bytes.{Bytes, eq_bytes}
use agent_native_db.Bytes.Lex.{eq_bytes_iff}
use agent_native_db.Storage.KeyEncode.Decode.{HasNoZero}
use agent_native_db.Storage.Engine.{Engine}
use agent_native_db.Graph.Store.{
  Edge, GraphJson, index_key, edge_key, out_of, in_of, etype_of, delete_all, get_edge, delete_edge,
}
use agent_native_db.Graph.Store.Keys.{
  Index, outs, ins, types, field_of, end_of, eq_bytes-index_key, eq_bytes-other_index,
  eq_bytes-edge_key, get-delete_all,
}
use agent_native_db.Graph.Store.Indexed.{IsNamed, IsIndexed}

module _ (j : GraphJson) (e : Engine) (ok : (s : e.Store) (k : Bytes) → e.delete_key s k ≢ none)
    (s : e.Store) (id : Bytes) (edge : Edge) (there : get_edge j e s id ≡ some edge)
    (v : IsIndexed j e s) where
  names : IsNamed edge
  names = (v.named id edge there).0

  edge-id : edge.id ≡ id
  edge-id = (v.named id edge there).1

  abbrev keys : List Bytes
  keys =
      edge_key id
      ∷ index_key (out_of edge.from_id) edge.id
      ∷ index_key (in_of edge.to_id) edge.id
      ∷ index_key (etype_of edge.type) edge.id
      ∷ []

  abbrev gone : e.Store
  gone = delete_all e s keys

  get_edge-gone :
      (k : Bytes) → get_edge j e gone k ≡ (if eq_bytes id k then none else get_edge j e s k)
  unfolding get_edge
  get_edge-gone k = ground (
    arith,
    get-delete_all e ok s keys (edge_key k),
    eq_bytes-edge_key outs k edge.from_id edge.id,
    eq_bytes-edge_key ins k edge.to_id edge.id,
    eq_bytes-edge_key types k edge.type edge.id,
    eq_bytes-edge_key outs id edge.from_id k,
  )

  index-gone :
      (x : Index) (n k : Bytes)
      → HasNoZero n
      → e.get gone (index_key (field_of x n) k) ≡ (
          if eq_bytes (end_of x edge) n && eq_bytes edge.id k
          then none
          else e.get s (index_key (field_of x n) k))
  index-gone outs n k z = ground (
    arith,
    get-delete_all e ok s keys (index_key (out_of n) k),
    eq_bytes-edge_key outs id n k,
    eq_bytes-index_key outs edge.from_id n edge.id k (names.ends outs) z,
    eq_bytes-other_index ins outs edge.to_id n edge.id k refl,
    eq_bytes-other_index types outs edge.type n edge.id k refl,
  )
  index-gone ins n k z = ground (
    arith,
    get-delete_all e ok s keys (index_key (in_of n) k),
    eq_bytes-edge_key ins id n k,
    eq_bytes-index_key ins edge.to_id n edge.id k (names.ends ins) z,
    eq_bytes-other_index outs ins edge.from_id n edge.id k refl,
    eq_bytes-other_index types ins edge.type n edge.id k refl,
  )
  index-gone types n k z = ground (
    arith,
    get-delete_all e ok s keys (index_key (etype_of n) k),
    eq_bytes-edge_key types id n k,
    eq_bytes-index_key types edge.type n edge.id k (names.ends types) z,
    eq_bytes-other_index outs types edge.from_id n edge.id k refl,
    eq_bytes-other_index ins types edge.to_id n edge.id k refl,
  )

  kept :
      (k : Bytes) (o : Edge)
      → get_edge j e gone k ≡ some o
      → (eq_bytes id k ≡ false) × (get_edge j e s k ≡ some o)
  kept k o h = ground (arith, get_edge-gone k, h)

  found-gone :
      (x : Index) (n k : Bytes)
      → HasNoZero n
      → e.get gone (index_key (field_of x n) k) ≢ none
      → (o : Edge) × (get_edge j e gone k ≡ some o) × (end_of x o ≡ n)
  found-gone x n k z held =
      let (o, old, ended) =
        v.found x n k z (λ empty. held (ground (arith, index-gone x n k z, empty))) in
      elim (Bool-cases (eq_bytes id k)) [
        | inr miss ↦ (o, ground (arith, get_edge-gone k, old), ended)
        | inl hit ↦
            let at = (eq_bytes_iff id k).0 hit in
            let same : o ≡ edge = cc (old, there, at) in
            let end_same : end_of x edge ≡ n = ap (end_of x) (sym same) ∙ ended in
            absurd (
              held (
                ground (
                  arith,
                  index-gone x n k z,
                  eq_bytes_iff (end_of x edge) n,
                  end_same,
                  edge-id,
                  hit,
                )))
      ]

  gone-IsIndexed : IsIndexed j e gone
  gone-IsIndexed = record {
    named = λ k o h. v.named k o ((kept k o h).1);
    found = found-gone;
    listed = λ x k o h.
        let (miss, old) = kept k o h in
        let held = index-gone x (end_of x o) k ((v.named k o old).0.ends x) in
        λ empty. v.listed x k o old (ground (arith, held, empty, edge-id, miss));
  }

-- Deleting an edge that is there keeps the indexes in agreement with the edges, and no edge is found
-- under its id any more, where no deletion fails.
pub delete_edge-IsIndexed :
    (j : GraphJson) (e : Engine) (s : e.Store) (id : Bytes)
    → ((s : e.Store) (k : Bytes) → e.delete_key s k ≢ none)
    → get_edge j e s id ≢ none
    → IsIndexed j e s
    → IsIndexed j e (delete_edge j e s id).0 × (get_edge j e (delete_edge j e s id).0 id ≡ none)
unfolding delete_edge
delete_edge-IsIndexed j e s id ok present v = elim (Option-cases (get_edge j e s id)) [
  | inl missing ↦ absurd (present missing)
  | inr (edge, there) ↦
      rw (there, delete_edge)
        (
          gone-IsIndexed j e ok s id edge there v,
          get_edge-gone j e ok s id edge there v id ∙ ground (arith, eq_bytes_iff id id),
        )
]
