-- ===== src/Graph/Store/Edges.antt =====
-- Which edges the reads of the store find.
use agent_native_db.Prelude.{
  ◌≡◌, ◌≢◌, refl, sym, ap, ◌∙◌, subst, ◌↔◌, inl, inr, none, some, List, [], ◌∷◌, In, Option-cases,
}
use agent_native_db.Bytes.{Bytes}
use agent_native_db.Storage.KeyEncode.{
  prefix_graph, encode_index_key, decode_index_id, prefix_range,
}
use agent_native_db.Storage.KeyEncode.Decode.{HasNoZero, decode-encode_index_key}
use agent_native_db.Storage.KeyEncode.Range.{index_scan_exact}
use agent_native_db.Storage.Engine.{Engine}
use agent_native_db.Graph.Store.{Edge, GraphJson, index_key, get_edge, edges_at, get_edges_by_index}

module _ (j : GraphJson) (e : Engine) (s : e.Store) where
  -- What a scan's entries give: the edges of their ids.
  abbrev IsAt : List (Bytes × Bytes) → Edge → Type 0
  IsAt items edge =
      (k : Bytes) × (v : Bytes) × In (k, v) items × (get_edge j e s (decode_index_id k) ≡ some edge)

  edges_at-IsAt :
      (items : List (Bytes × Bytes)) (edge : Edge)
      → In edge (edges_at j e s items)
      → IsAt items edge
  unfolding edges_at
  edges_at-IsAt [] edge h = elim h [ ]
  edges_at-IsAt ((k, v) ∷ items) edge h = elim (Option-cases (get_edge j e s (decode_index_id k))) [
    | inl gone ↦
        let (k', v', i, there) = edges_at-IsAt items edge (rw (gone, edges_at) at h) in
        (k', v', inr i, there)
    | inr (x, there) ↦ elim (rw (there, edges_at) at h) [
      | inl same ↦ (k, v, inl refl, there ∙ ap some (sym same))
      | inr later ↦ (let (k', v', i, t) = edges_at-IsAt items edge later in (k', v', inr i, t))
    ]
  ]

  IsAt-edges_at :
      (items : List (Bytes × Bytes)) (edge : Edge)
      → IsAt items edge
      → In edge (edges_at j e s items)
  unfolding edges_at
  IsAt-edges_at [] edge (k, v, i, h) = elim i [ ]
  IsAt-edges_at ((k', v') ∷ items) edge (k, v, inl same, h) =
      let there : get_edge j e s (decode_index_id k') ≡ some edge =
        subst (λ (x : Bytes). get_edge j e s (decode_index_id x) ≡ some edge) (cc) h in
      rw (there, edges_at) (inl refl)
  IsAt-edges_at ((k', v') ∷ items) edge (k, v, inr i, h) =
      let later = IsAt-edges_at items edge (k, v, i, h) in
      elim (Option-cases (get_edge j e s (decode_index_id k'))) [
        | inl gone ↦ rw (gone, edges_at) later
        | inr (x, there) ↦ rw (there, edges_at) (inr later)
      ]

  edges_at-scanned :
      (field : Bytes) (items : List (Bytes × Bytes)) (edge : Edge)
      → HasNoZero field
      → e.scan s (prefix_range (index_key field [])) ≡ some items
      → In edge (edges_at j e s items)
        ↔ ((id : Bytes) × (e.get s (index_key field id) ≢ none) × (get_edge j e s id ≡ some edge))
  unfolding index_key
  edges_at-scanned field items edge h r = (
    (λ i.
        let (k, v, at, there) = edges_at-IsAt items edge i in
        let (held, within) =
          (e.scan_iff s (prefix_range (encode_index_key prefix_graph field [])) items k v r).0 at in
        let (id, named) = (index_scan_exact prefix_graph field k).0 within in
        let decoded = (decode-encode_index_key prefix_graph field id h).1 in
        (
          id,
          (λ n. cc (held, named, n)),
          sym (
                ap (λ (x : Bytes). get_edge j e s (decode_index_id x)) named
                ∙ ap (get_edge j e s) decoded)
              ∙ there,
        )),
    (λ f.
        let (id, held, there) = f in
        elim (Option-cases (e.get s (encode_index_key prefix_graph field id))) [
          | inl gone ↦ absurd (held gone)
          | inr (v, val) ↦ IsAt-edges_at items edge (
            encode_index_key prefix_graph field id,
            v,
            (e.scan_iff s (prefix_range (encode_index_key prefix_graph field [])) items
                  (encode_index_key prefix_graph field id) v r).1
                (
                  val,
                  (index_scan_exact prefix_graph field (encode_index_key prefix_graph field id)).1
                      (id, refl),
                ),
            ap (get_edge j e s) (decode-encode_index_key prefix_graph field id h).1 ∙ there,
          )
        ]),
  )

  -- A scan of an index whose name has no 0x00 finds an edge exactly when the index has an entry for an
  -- id, and the edge of that id is the one.
  pub get_edges_by_index_iff :
      (field : Bytes) (edges : List Edge) (edge : Edge)
      → HasNoZero field
      → get_edges_by_index j e s field ≡ some edges
      → In edge edges
        ↔ ((id : Bytes) × (e.get s (index_key field id) ≢ none) × (get_edge j e s id ≡ some edge))
  unfolding get_edges_by_index
  get_edges_by_index_iff field edges edge h r =
      elim (Option-cases (e.scan s (prefix_range (index_key field [])))) [
        | inl failed ↦ cc (rw (failed, get_edges_by_index) at r)
        | inr (items, scanned) ↦
            let same : edges_at j e s items ≡ edges = cc (rw (scanned, get_edges_by_index) at r) in
            subst
              (λ (es : List Edge). In edge es ↔ (
                (id : Bytes) × (e.get s (index_key field id) ≢ none)
                × (get_edge j e s id ≡ some edge)))
              same (edges_at-scanned field items edge h scanned)
      ]
