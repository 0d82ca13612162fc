-- ===== src/Graph/Search.antt =====
-- internal/graph/store.go: the searches over the edges of a node. The loop over a node's edges, with
-- its `continue` for an edge of the wrong direction, is a loop over the neighbours that they lead to.
pub mod Invariant
pub mod Visited
pub mod Paths
pub mod Unseen
pub mod Shortest
pub mod Ends
pub mod Neighbors
mod Examples
use agent_native_db.Prelude.{
  ℕ, zero, suc, Bool, true, false, Option, none, some, List, [], ◌∷◌, ◌++◌, length, if◌then◌else◌,
  leb, ◌==◌,
}
use agent_native_db.Bytes.{Bytes, eq_bytes, le_bytes}
use agent_native_db.Bytes.Map.{Map, insert, get_or}
use agent_native_db.Storage.Engine.{Engine}
use agent_native_db.Graph.Store.{
  Edge, GraphNode, GraphJson, Direction, dir_out, dir_in, dir_both, get_edges, get_node,
}

-- The neighbour that an edge leads to; `none` is `continue`.
unfoldable pub neighbor : Direction → Bytes → Edge → Option Bytes
neighbor dir_out id edge = if eq_bytes edge.from_id id then some edge.to_id else none
neighbor dir_in id edge = if eq_bytes edge.to_id id then some edge.from_id else none
neighbor dir_both id edge = some (if eq_bytes edge.from_id id then edge.to_id else edge.from_id)

unfoldable pub neighbors_along : Direction → Bytes → List Edge → List Bytes
unfolding neighbor
neighbors_along dir id [] = []
neighbors_along dir id (edge ∷ edges) =
    let later = neighbors_along dir id edges in
    elim (neighbor dir id edge) [ none ↦ later | some n ↦ n ∷ later ]

-- visited[id], for the keys that were set to true.
unfoldable pub is_in : Bytes → List Bytes → Bool
is_in x [] = false
is_in x (y ∷ ys) = let rest = is_in x ys in if eq_bytes y x then true else rest

module _ (j : GraphJson) (e : Engine) (s : e.Store) where
  unfoldable pub neighbor_ids : Direction → Bytes → List Bytes
  unfolding neighbors_along get_edges
  neighbor_ids dir id = neighbors_along dir id (get_edges j e s id)

  -- The nodes of names that are there.
  found_nodes : List Bytes → List GraphNode
  unfolding get_node
  found_nodes [] = []
  found_nodes (id ∷ ids) =
      let later = found_nodes ids in elim (get_node j e s id) [ none ↦ later | some n ↦ n ∷ later ]

  distinct : List Bytes → List Bytes → List Bytes
  unfolding is_in
  distinct seen [] = []
  distinct seen (id ∷ ids) =
      if is_in id seen then distinct seen ids else id ∷ distinct (id ∷ seen) ids

  unfoldable pub get_neighbors : Bytes → Direction → List GraphNode
  unfolding neighbor_ids distinct found_nodes
  get_neighbors id dir = found_nodes (distinct [] (neighbor_ids dir id))

-- sort.Strings
insert_sorted : Bytes → List Bytes → List Bytes
insert_sorted x [] = x ∷ []
insert_sorted x (y ∷ ys) =
    let later = insert_sorted x ys in if le_bytes x y then x ∷ y ∷ ys else y ∷ later

sort_strings : List Bytes → List Bytes
unfolding insert_sorted
sort_strings [] = []
sort_strings (x ∷ xs) = insert_sorted x (sort_strings xs)

pub record Search : Type 0 where
  pub visited : List Bytes
  pub parent : Map Bytes
  pub queue : List Bytes

-- Where the loop over the neighbours ends: at its end, or where it finds the goal.
pub data Scanned : Type 0 where
  going : Search → Scanned
  found : Map Bytes → Scanned

pub data Outcome : Type 0 where
  path : List Bytes → Outcome
  no_path out_of_fuel : Outcome

-- One level of the K-hop search: the visited names, and the next level.
unfoldable pub offer_all : List Bytes → List Bytes → List Bytes → List Bytes × List Bytes
unfolding is_in
offer_all visited level [] = (visited, level)
offer_all visited level (v ∷ vs) =
    if is_in v visited
    then offer_all visited level vs
    else offer_all (v ∷ visited) (level ++ v ∷ []) vs

unfoldable pub visit : Search → Bytes → Bytes → Search
visit st current v = record {
  visited = v ∷ st.visited;
  parent = insert v current st.parent;
  queue = st.queue ++ v ∷ [];
}

unfoldable pub scan : Bytes → Bytes → Search → List Bytes → Scanned
unfolding is_in visit
scan to current st [] = going st
scan to current st (v ∷ vs) =
    if is_in v st.visited
    then scan to current st vs
    else if eq_bytes v to
    then found (insert v current st.parent)
    else scan to current (visit st current v) vs

-- `for p := ...; p != ""; p = parent[p]`, which puts each name in front of the path.
unfoldable pub trace_back : ℕ → Map Bytes → Bytes → List Bytes → Outcome
unfolding get_or
trace_back zero parent p acc = if eq_bytes p [] then path acc else out_of_fuel
trace_back (suc fuel) parent p acc =
    let rest = trace_back fuel parent (get_or [] p parent) (p ∷ acc) in
    if eq_bytes p [] then path acc else rest

module _ (next : Bytes → List Bytes) where
  unfoldable pub next_level : List Bytes → List Bytes → List Bytes → List Bytes × List Bytes
  unfolding offer_all
  next_level visited level [] = (visited, level)
  next_level visited level (id ∷ ids) =
      let (visited', level') = offer_all visited level (next id) in next_level visited' level' ids

  unfoldable pub hops : ℕ → List Bytes → List Bytes → List Bytes
  unfolding next_level
  hops zero visited current = current
  hops (suc k) visited current =
      let (visited', level) = next_level visited [] current in hops k visited' level

  unfoldable pub search : ℕ → Bytes → Search → Outcome
  unfolding scan trace_back
  search zero to st = elim st.queue [ [] ↦ no_path | u ∷ rest ↦ out_of_fuel ]
  search (suc fuel) to st = elim st.queue [
    | [] ↦ no_path
    | u ∷ rest ↦ elim (scan to u (record st { queue = rest }) (next u)) [
      | going st' ↦ search fuel to st'
      | found parent ↦ trace_back (suc (length parent)) parent (get_or [] to parent) (to ∷ [])
    ]
  ]

  unfoldable pub started : Bytes → Search
  started from = record { visited = from ∷ []; parent = []; queue = from ∷ [] }

  unfoldable pub path_between : ℕ → Bytes → Bytes → Outcome
  unfolding search started
  path_between fuel from to =
      if eq_bytes from to then path (from ∷ []) else search fuel to (started from)

module _ (j : GraphJson) (e : Engine) (s : e.Store) where
  -- The fuel bounds the rounds of the loop.
  unfoldable pub shortest_path : ℕ → Bytes → Bytes → Direction → Outcome
  unfolding path_between neighbor_ids
  shortest_path fuel from to dir = path_between (neighbor_ids j e s dir) fuel from to

  unfoldable pub k_hop_neighbors : Bytes → ℕ → Direction → List GraphNode
  unfolding hops neighbor_ids sort_strings found_nodes
  k_hop_neighbors id zero dir = []
  k_hop_neighbors id (suc k) dir =
      found_nodes j e s (sort_strings (hops (neighbor_ids j e s dir) (suc k) (id ∷ []) (id ∷ [])))
