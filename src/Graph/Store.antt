-- ===== src/Graph/Store.antt =====
-- internal/graph/store.go: the writes and the reads of the graph store. A node and an edge are JSON
-- in the store; the JSON is a parameter whose decoder inverts its encoder where that
-- does not fail, and what a node or an edge
-- carries besides its names is one opaque value.
pub mod Format
pub mod Fixture
pub mod Keys
pub mod Edges
pub mod Indexed
pub mod Deleted
mod Examples
use agent_native_db.Prelude.{
  ℕ, Bool, true, false, ◌||◌, ◌≡◌, Option, none, some, List, [], ◌∷◌, ◌++◌, ◌==◌, take,
  if◌then◌else◌,
}
use agent_native_db.Bytes.{Bytes, codes, eq_bytes}
use agent_native_db.Storage.KeyEncode.{
  prefix_graph, encode_key, encode_index_key, decode_index_id, prefix_range,
}
use agent_native_db.Storage.Engine.{Engine}

pub record GraphNode : Type 0 where
  pub id : Bytes
  pub type : Bytes
  pub name : Bytes
  -- Properties
  pub rest : Bytes

pub record Edge : Type 0 where
  pub id : Bytes
  pub type : Bytes
  pub from_id : Bytes
  pub to_id : Bytes
  -- Properties and Weight
  pub rest : Bytes

pub data Direction : Type 0 where
  dir_out dir_in dir_both : Direction

-- encoding/json on nodes and edges; `none` is an error, as for a value that JSON does not have.
pub record GraphJson : Type 0 where
  pub of_node : GraphNode → Option Bytes
  pub to_node : Bytes → Option GraphNode
  pub of_edge : Edge → Option Bytes
  pub to_edge : Bytes → Option Edge
  pub to_node-of_node :
      (n : GraphNode) (bytes : Bytes) → of_node n ≡ some bytes → to_node bytes ≡ some n
  pub to_edge-of_edge : (e : Edge) (bytes : Bytes) → of_edge e ≡ some bytes → to_edge bytes ≡ some e

unfoldable pub node_key : Bytes → Bytes
unfolding encode_key
node_key id = encode_key prefix_graph id

unfoldable pub edge_key : Bytes → Bytes
unfolding encode_key
edge_key id = encode_key prefix_graph (codes "edge:" ++ id)

-- The key of an entry of an index; a scan of the index has the empty id.
unfoldable pub index_key : Bytes → Bytes → Bytes
unfolding encode_index_key
index_key field id = encode_index_key prefix_graph field id

abbrev pub out_of : Bytes → Bytes
out_of id = codes "out:" ++ id

abbrev pub in_of : Bytes → Bytes
in_of id = codes "in:" ++ id

abbrev pub etype_of : Bytes → Bytes
etype_of type = codes "etype:" ++ type

abbrev pub type_of : Bytes → Bytes
type_of type = codes "type:" ++ type

abbrev pub name_of : Bytes → Bytes
name_of name = codes "name:" ++ name

-- []byte{1}
abbrev pub present : Bytes
present = 1 ∷ []

list_or_empty {ℓ} : {A : Type ℓ} → Option (List A) → List A
list_or_empty none = []
list_or_empty (some xs) = xs

-- A limit of 0 is none.
unfoldable pub limited {ℓ} : {A : Type ℓ} → ℕ → List A → List A
limited limit xs = if limit == 0 then xs else take limit xs

module _ (e : Engine) where
  -- Writes one after the other, up to the first that fails; false is its error.
  unfoldable pub set_all : e.Store → List (Bytes × Bytes) → e.Store × Bool
  set_all s [] = (s, true)
  set_all s ((k, v) ∷ rest) = elim (e.set s k v) [ none ↦ (s, false) | some s' ↦ set_all s' rest ]

  -- Deletions one after the other, whose errors are dropped.
  unfoldable pub delete_all : e.Store → List Bytes → e.Store
  delete_all s [] = s
  delete_all s (k ∷ rest) = elim (e.delete_key s k) [
    | none ↦ delete_all s rest
    | some s' ↦ delete_all s' rest
  ]

-- The writes of AddEdge, in order, with the JSON of the edge.
abbrev pub edge_writes : Bytes → Edge → List (Bytes × Bytes)
edge_writes json edge =
    (edge_key edge.id, json)
    ∷ (index_key (out_of edge.from_id) edge.id, present)
    ∷ (index_key (in_of edge.to_id) edge.id, present)
    ∷ (index_key (etype_of edge.type) edge.id, present)
    ∷ []

module _ (j : GraphJson) (e : Engine) where
  unfoldable pub add_node : e.Store → GraphNode → e.Store × Bool
  unfolding set_all
  add_node s n = if eq_bytes n.id [] then (s, false) else elim (j.of_node n) [
    | none ↦ (s, false)
    | some json ↦ set_all e s (
        (node_key n.id, json)
        ∷ (index_key (type_of n.type) n.id, present)
        ∷ (index_key (name_of n.name) n.id, present)
        ∷ [])
  ]

  unfoldable pub get_node : e.Store → Bytes → Option GraphNode
  get_node s id = elim (e.get s (node_key id)) [ none ↦ none | some bytes ↦ j.to_node bytes ]

  unfoldable pub add_edge : e.Store → Edge → e.Store × Bool
  unfolding set_all
  add_edge s edge =
      if eq_bytes edge.id []
      then (s, false)
      else if eq_bytes edge.from_id [] || eq_bytes edge.to_id []
      then (s, false)
      else elim (j.of_edge edge) [
        | none ↦ (s, false)
        | some json ↦ set_all e s (edge_writes json edge)
      ]

  unfoldable pub get_edge : e.Store → Bytes → Option Edge
  get_edge s id = elim (e.get s (edge_key id)) [ none ↦ none | some bytes ↦ j.to_edge bytes ]

  unfoldable pub delete_edge : e.Store → Bytes → e.Store × Bool
  unfolding get_edge delete_all
  delete_edge s id = elim (get_edge s id) [
    | none ↦ (s, false)
    | some edge ↦ (
      delete_all e s (
          edge_key id
          ∷ index_key (out_of edge.from_id) edge.id
          ∷ index_key (in_of edge.to_id) edge.id
          ∷ index_key (etype_of edge.type) edge.id
          ∷ []),
      true,
    )
  ]

  -- The edges behind the keys that a scan goes through; one that is not found is left out.
  unfoldable pub edges_at : e.Store → List (Bytes × Bytes) → List Edge
  edges_at s [] = []
  edges_at s ((k, v) ∷ items) =
      let later = edges_at s items in
      elim (get_edge s (decode_index_id k)) [ none ↦ later | some edge ↦ edge ∷ later ]

  -- `none` is the error of the scan.
  unfoldable pub get_edges_by_index : e.Store → Bytes → Option (List Edge)
  unfolding edges_at
  get_edges_by_index s field = elim (e.scan s (prefix_range (index_key field []))) [
    | none ↦ none
    | some items ↦ some (edges_at s items)
  ]

  unfoldable pub get_edges : e.Store → Bytes → List Edge
  unfolding list_or_empty get_edges_by_index
  get_edges s id =
      list_or_empty (get_edges_by_index s (out_of id))
      ++ list_or_empty (get_edges_by_index s (in_of id))

  unfoldable pub get_out_edges : e.Store → Bytes → Option (List Edge)
  unfolding get_edges_by_index
  get_out_edges s id = get_edges_by_index s (out_of id)

  unfoldable pub get_in_edges : e.Store → Bytes → Option (List Edge)
  unfolding get_edges_by_index
  get_in_edges s id = get_edges_by_index s (in_of id)

  unfoldable pub find_edges_by_type : e.Store → Bytes → Option (List Edge)
  unfolding get_edges_by_index
  find_edges_by_type s type = get_edges_by_index s (etype_of type)

  delete_edges : e.Store → List Edge → e.Store
  unfolding delete_edge
  delete_edges s [] = s
  delete_edges s (edge ∷ edges) = delete_edges (delete_edge s edge.id).0 edges

  unfoldable pub delete_node : e.Store → Bytes → e.Store × Bool
  unfolding get_node delete_edges get_edges delete_all
  delete_node s id = elim (get_node s id) [
    | none ↦ (s, false)
    | some n ↦ (
      delete_all e (delete_edges s (get_edges s id))
          (node_key id ∷ index_key (type_of n.type) n.id ∷ index_key (name_of n.name) n.id ∷ []),
      true,
    )
  ]

  unfoldable pub nodes_at : e.Store → List (Bytes × Bytes) → List GraphNode
  nodes_at s [] = []
  nodes_at s ((k, v) ∷ items) =
      let later = nodes_at s items in
      elim (get_node s (decode_index_id k)) [ none ↦ later | some n ↦ n ∷ later ]

  find_nodes : e.Store → Bytes → ℕ → Option (List GraphNode)
  unfolding nodes_at limited
  find_nodes s field limit = elim (e.scan s (prefix_range (index_key field []))) [
    | none ↦ none
    | some items ↦ some (nodes_at s (limited limit items))
  ]

  unfoldable pub find_nodes_by_type : e.Store → Bytes → ℕ → Option (List GraphNode)
  unfolding find_nodes
  find_nodes_by_type s type limit = find_nodes s (type_of type) limit

  unfoldable pub find_nodes_by_name : e.Store → Bytes → ℕ → Option (List GraphNode)
  unfolding find_nodes
  find_nodes_by_name s name limit = find_nodes s (name_of name) limit
