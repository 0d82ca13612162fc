-- ===== src/Graph/Search/Neighbors.antt =====
-- The neighbours of a node are those of the stored edges.
use agent_native_db.Prelude.{
  ◌≡◌, ◌↔◌, ◌⊎◌, sym, ap, ◌∙◌, refl, inl, inr, none, some, List, [], ◌∷◌, ◌++◌, In, arith,
  Option-cases,
}
use agent_native_db.Bytes.{Bytes}
use agent_native_db.Bytes.Lex.{eq_bytes_iff}
use agent_native_db.Storage.KeyEncode.Decode.{HasNoZero}
use agent_native_db.Storage.Engine.{Engine}
use agent_native_db.Graph.Store.{
  Edge, GraphJson, Direction, dir_out, dir_in, dir_both, out_of, in_of, get_edge, get_edges,
  get_edges_by_index,
}
use agent_native_db.Graph.Store.Keys.{outs, ins}
use agent_native_db.Graph.Store.Indexed.{IsIndexed, indexed_reads}
use agent_native_db.Graph.Search.{neighbor, neighbors_along, neighbor_ids}

-- An edge leads from a node to another in a direction.
abbrev pub Leads : Direction → Bytes → Bytes → Edge → Type 0
Leads dir_out u v edge = (edge.from_id ≡ u) × (edge.to_id ≡ v)
Leads dir_in u v edge = (edge.to_id ≡ u) × (edge.from_id ≡ v)
Leads dir_both u v edge =
    ((edge.from_id ≡ u) × (edge.to_id ≡ v)) ⊎ ((edge.to_id ≡ u) × (edge.from_id ≡ v))

In-append_iff : {A : Type 0} (y : A) (xs ys : List A) → In y (xs ++ ys) ↔ (In y xs ⊎ In y ys)
In-append_iff y [] ys = ground arith
In-append_iff y (x ∷ xs) ys = ground (arith, In-append_iff y xs ys)

along_none :
    (dir : Direction) (u : Bytes) (x : Edge) (edges : List Edge)
    → neighbor dir u x ≡ none
    → neighbors_along dir u (x ∷ edges) ≡ neighbors_along dir u edges
unfolding neighbors_along
along_none dir u x edges e = rw (neighbors_along, e) refl

along_some :
    (dir : Direction) (u w : Bytes) (x : Edge) (edges : List Edge)
    → neighbor dir u x ≡ some w
    → neighbors_along dir u (x ∷ edges) ≡ w ∷ neighbors_along dir u edges
unfolding neighbors_along
along_some dir u w x edges e = rw (neighbors_along, e) refl

In-neighbors_along :
    (dir : Direction) (u v : Bytes) (edges : List Edge)
    → In v (neighbors_along dir u edges)
      ↔ ((edge : Edge) × In edge edges × (neighbor dir u edge ≡ some v))
In-neighbors_along dir u v [] =
    ((λ i. absurd (unfold neighbors_along in i)), λ (edge, k, e). elim k [ ])
In-neighbors_along dir u v (x ∷ edges) =
    let (to_edge, from_edge) = In-neighbors_along dir u v edges in
    elim (Option-cases (neighbor dir u x)) [
      | inl gone ↦ rw (along_none dir u x edges gone) (
        (λ i. let (edge, k, e) = to_edge i in (edge, inr k, e)),
        λ (edge, k, e). elim k [
          | inl same ↦ absurd (ground (arith, ap (neighbor dir u) same, e, gone))
          | inr k ↦ from_edge (edge, k, e)
        ],
      )
      | inr (w, leads) ↦ rw (along_some dir u w x edges leads) (
        (λ i. elim i [
          | inl same ↦ (x, inl refl, leads ∙ ap some (sym same))
          | inr i ↦ let (edge, k, e) = to_edge i in (edge, inr k, e)
        ]),
        λ (edge, k, e). elim k [
          | inl same ↦ inl (ground (arith, ap (neighbor dir u) same, e, leads))
          | inr k ↦ inr (from_edge (edge, k, e))
        ],
      )
    ]

-- A neighbour in a direction of an edge at the node.
neighbor_iff :
    (dir : Direction) (u v : Bytes) (edge : Edge)
    → (edge.from_id ≡ u) ⊎ (edge.to_id ≡ u)
    → (neighbor dir u edge ≡ some v) ↔ Leads dir u v edge
unfolding neighbor
neighbor_iff dir_out u v edge at = ground (arith, eq_bytes_iff edge.from_id u)
neighbor_iff dir_in u v edge at = ground (arith, eq_bytes_iff edge.to_id u)
neighbor_iff dir_both u v edge at = ground (arith, eq_bytes_iff edge.from_id u)

module _ (j : GraphJson) (e : Engine) (s : e.Store) (v : IsIndexed j e s) (u : Bytes)
    (z : HasNoZero u) (out_edges in_edges : List Edge)
    (so : get_edges_by_index j e s (out_of u) ≡ some out_edges)
    (si : get_edges_by_index j e s (in_of u) ≡ some in_edges) where
  at_node :
      (edge : Edge)
      → In edge (get_edges j e s u)
        ↔ ((get_edge j e s edge.id ≡ some edge) × ((edge.from_id ≡ u) ⊎ (edge.to_id ≡ u)))
  unfolding get_edges
  at_node edge =
      rw (so, si)
        (ground (
          arith,
          In-append_iff edge out_edges in_edges,
          indexed_reads j e s outs u out_edges edge v z so,
          indexed_reads j e s ins u in_edges edge v z si,
        ))

  ends_at :
      (dir : Direction) (w : Bytes) (edge : Edge)
      → Leads dir u w edge
      → (edge.from_id ≡ u) ⊎ (edge.to_id ≡ u)
  ends_at dir_out w edge p = inl (p.0)
  ends_at dir_in w edge p = inr (p.0)
  ends_at dir_both w edge (inl p) = inl (p.0)
  ends_at dir_both w edge (inr p) = inr (p.0)

-- In a store whose indexes agree with the edges, where the name of a node holds no 0x00 and the two
-- scans at the node do not fail, the neighbours of the node in a direction are exactly the names to
-- which a stored edge leads from it.
pub neighbor_ids_iff :
    (j : GraphJson) (e : Engine) (s : e.Store) (dir : Direction) (u w : Bytes)
    (out_edges in_edges : List Edge)
    → IsIndexed j e s
    → HasNoZero u
    → get_edges_by_index j e s (out_of u) ≡ some out_edges
    → get_edges_by_index j e s (in_of u) ≡ some in_edges
    → In w (neighbor_ids j e s dir u)
      ↔ ((edge : Edge) × (get_edge j e s edge.id ≡ some edge) × Leads dir u w edge)
unfolding neighbor_ids
neighbor_ids_iff j e s dir u w out_edges in_edges v z so ni =
    let there = at_node j e s v u z out_edges in_edges so ni in
    let exact = In-neighbors_along dir u w (get_edges j e s u) in
    (
      (λ i.
          let (edge, k, leads) = exact.0 i in
          let (stored, ends) = (there edge).0 k in
          (edge, stored, (neighbor_iff dir u w edge ends).0 leads)),
      λ (edge, stored, leads).
          let ends = ends_at j e s v u z out_edges in_edges so ni dir w edge leads in
          exact.1 (edge, (there edge).1 (stored, ends), (neighbor_iff dir u w edge ends).1 leads),
    )
