-- ===== src/Graph/Store/Indexed.antt =====
-- The indexes of edges agree with the edges, behind each write of an edge.
use agent_native_db.Prelude.{
  true, ◌&&◌, ◌≡◌, ◌≢◌, ◌↔◌, refl, sym, ap, ◌∙◌, subst, inl, inr, none, some, List, In, arith,
  Bool-cases, Option-cases, if◌then◌else◌,
}
use agent_native_db.Bytes.{Bytes, eq_bytes}
use agent_native_db.Bytes.Lex.{eq_bytes_iff}
use agent_native_db.Storage.KeyEncode.Decode.{HasNoZero}
use agent_native_db.Storage.Engine.{Engine}
use agent_native_db.Graph.Store.{
  Edge, GraphJson, index_key, edge_key, out_of, in_of, etype_of, present, set_all, edge_writes,
  add_edge, get_edge, get_edges_by_index,
}
use agent_native_db.Graph.Store.Keys.{
  Index, outs, ins, types, field_of, end_of, field_of-HasNoZero, eq_bytes-index_key,
  eq_bytes-other_index, eq_bytes-edge_key, get-set_all,
}
use agent_native_db.Graph.Store.Edges.{get_edges_by_index_iff}

-- The names of an edge have no 0x00.
pub record IsNamed (edge : Edge) : Type 0 where
  pub ends : (x : Index) → HasNoZero (end_of x edge)

module _ (j : GraphJson) (e : Engine) where
  -- An index has an entry of a name for an id exactly where the edge of the id has the name.
  pub record IsIndexed (s : e.Store) : Type 0 where
    pub named :
        (id : Bytes) (edge : Edge) → get_edge j e s id ≡ some edge → IsNamed edge × (edge.id ≡ id)
    pub found :
        (x : Index) (n id : Bytes)
        → HasNoZero n
        → e.get s (index_key (field_of x n) id) ≢ none
        → (edge : Edge) × (get_edge j e s id ≡ some edge) × (end_of x edge ≡ n)
    pub listed :
        (x : Index) (id : Bytes) (edge : Edge)
        → get_edge j e s id ≡ some edge
        → e.get s (index_key (field_of x (end_of x edge)) id) ≢ none

  module _ (s s' : e.Store) (edge : Edge) (json : Bytes) (made : j.of_edge edge ≡ some json)
      (names : IsNamed edge) (h : set_all e s (edge_writes json edge) ≡ (s', true)) where
    get_edge-written :
        (id : Bytes)
        → get_edge j e s' id ≡ (if eq_bytes edge.id id then some edge else get_edge j e s id)
    unfolding get_edge
    get_edge-written id = ground (
      arith,
      get-set_all e s s' (edge_writes json edge) (edge_key id) h,
      eq_bytes-edge_key outs id edge.from_id edge.id,
      eq_bytes-edge_key ins id edge.to_id edge.id,
      eq_bytes-edge_key types id edge.type edge.id,
      eq_bytes-edge_key outs edge.id edge.from_id id,
      j.to_edge-of_edge edge json made,
    )

    index-written :
        (x : Index) (n id : Bytes)
        → HasNoZero n
        → e.get s' (index_key (field_of x n) id) ≡ (
            if eq_bytes (end_of x edge) n && eq_bytes edge.id id
            then some present
            else e.get s (index_key (field_of x n) id))
    index-written outs n id z = ground (
      arith,
      get-set_all e s s' (edge_writes json edge) (index_key (out_of n) id) h,
      eq_bytes-edge_key outs edge.id n id,
      eq_bytes-index_key outs edge.from_id n edge.id id (names.ends outs) z,
      eq_bytes-other_index ins outs edge.to_id n edge.id id refl,
      eq_bytes-other_index types outs edge.type n edge.id id refl,
    )
    index-written ins n id z = ground (
      arith,
      get-set_all e s s' (edge_writes json edge) (index_key (in_of n) id) h,
      eq_bytes-edge_key ins edge.id n id,
      eq_bytes-index_key ins edge.to_id n edge.id id (names.ends ins) z,
      eq_bytes-other_index outs ins edge.from_id n edge.id id refl,
      eq_bytes-other_index types ins edge.type n edge.id id refl,
    )
    index-written types n id z = ground (
      arith,
      get-set_all e s s' (edge_writes json edge) (index_key (etype_of n) id) h,
      eq_bytes-edge_key types edge.id n id,
      eq_bytes-index_key types edge.type n edge.id id (names.ends types) z,
      eq_bytes-other_index outs types edge.from_id n edge.id id refl,
      eq_bytes-other_index ins types edge.to_id n edge.id id refl,
    )

    module _ (v : IsIndexed s)
        (same : (old : Edge)
          → get_edge j e s edge.id ≡ some old
          → (x : Index) → end_of x old ≡ end_of x edge) where
      found-written :
          (x : Index) (n id : Bytes)
          → HasNoZero n
          → e.get s' (index_key (field_of x n) id) ≢ none
          → (o : Edge) × (get_edge j e s' id ≡ some o) × (end_of x o ≡ n)
      found-written x n id z held = elim (Bool-cases (eq_bytes edge.id id)) [
        | inl hit ↦ elim (Bool-cases (eq_bytes (end_of x edge) n)) [
          | inl there ↦
              (edge, ground (arith, get_edge-written id), (eq_bytes_iff (end_of x edge) n).0 there)
          | inr not_there ↦
              let (o, old, ended) =
                v.found x n id z (λ gone. held (index-written x n id z ∙ rw not_there gone)) in
              let at : edge.id ≡ id = (eq_bytes_iff edge.id id).0 hit in
              (
                edge,
                ground (arith, get_edge-written id),
                sym (same o (ap (get_edge j e s) at ∙ old) x) ∙ ended,
              )
        ]
        | inr miss ↦
            let (o, old, ended) =
              v.found x n id z
                (λ gone. held (index-written x n id z ∙ ground (arith, miss, gone))) in
            (o, ground (arith, get_edge-written id, old), ended)
      ]

      listed-written :
          (x : Index) (id : Bytes) (o : Edge)
          → get_edge j e s' id ≡ some o
          → e.get s' (index_key (field_of x (end_of x o)) id) ≢ none
      listed-written x id o there = elim (Bool-cases (eq_bytes edge.id id)) [
        | inl hit ↦
            let new : edge ≡ o = ground (arith, get_edge-written id) in
            let held = index-written x (end_of x edge) id (names.ends x) in
            subst (λ (o : Edge). e.get s' (index_key (field_of x (end_of x o)) id) ≢ none) new
              (λ gone.
                ground (arith, hit, held, eq_bytes_iff (end_of x edge) (end_of x edge), gone))
        | inr miss ↦
            let old : get_edge j e s id ≡ some o = ground (arith, get_edge-written id) in
            let held = index-written x (end_of x o) id ((v.named id o old).0.ends x) in
            λ gone. v.listed x id o old (ground (arith, miss, held, gone))
      ]

      written-IsIndexed : IsIndexed s'
      written-IsIndexed = record {
        named = λ id o there. elim (Bool-cases (eq_bytes edge.id id)) [
          | inl hit ↦
              let new : edge ≡ o = ground (arith, get_edge-written id) in
              (
                subst IsNamed new names,
                ap (λ (o : Edge). o.id) (sym new) ∙ (eq_bytes_iff edge.id id).0 hit,
              )
          | inr miss ↦ v.named id o (ground (arith, get_edge-written id))
        ];
        found = found-written;
        listed = listed-written;
      }

  -- Adding an edge whose names have no 0x00 keeps the indexes in agreement with the edges, if it
  -- succeeds and its id is new or was that of an edge with the same ends and type.
  pub add_edge-IsIndexed :
      (s s' : e.Store) (edge : Edge)
      → IsNamed edge
      → IsIndexed s
      → ((old : Edge)
          → get_edge j e s edge.id ≡ some old
          → (x : Index) → end_of x old ≡ end_of x edge)
      → add_edge j e s edge ≡ (s', true)
      → IsIndexed s'
  unfolding add_edge
  add_edge-IsIndexed s s' edge names v same h = elim (Option-cases (j.of_edge edge)) [
    | inl fails ↦ absurd (ground (arith, h, fails))
    | inr (json, made) ↦
        written-IsIndexed s s' edge json made names (ground (arith, h, made)) v same
  ]

  -- In a store whose indexes agree with the edges, where a name holds no 0x00, the edges that are found
  -- out of the node of that name, into it or by the type of that name, if the scan does not fail, are
  -- exactly the stored edges with that end or type.
  pub indexed_reads :
      (s : e.Store) (x : Index) (n : Bytes) (edges : List Edge) (edge : Edge)
      → IsIndexed s
      → HasNoZero n
      → get_edges_by_index j e s (field_of x n) ≡ some edges
      → In edge edges ↔ ((get_edge j e s edge.id ≡ some edge) × (end_of x edge ≡ n))
  indexed_reads s x n edges edge v z r =
      let exact =
        get_edges_by_index_iff j e s (field_of x n) edges edge (field_of-HasNoZero x n z) r in
      (
        (λ i.
            let (id, held, there) = exact.0 i in
            let (o, old, ended) = v.found x n id z held in
            let same : o ≡ edge = cc (old, there) in
            let at = (v.named id edge there).1 in
            (ap (get_edge j e s) at ∙ there, ap (end_of x) (sym same) ∙ ended)),
        (λ p. exact.1 (
          edge.id,
          subst (λ (m : Bytes). e.get s (index_key (field_of x m) edge.id) ≢ none) (p.1)
              (v.listed x edge.id edge p.0),
          p.0,
        )),
      )
