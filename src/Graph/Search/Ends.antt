-- ===== src/Graph/Search/Ends.antt =====
-- ShortestPath ends, and what it returns.
use agent_native_db.Prelude.{ℕ, suc, ◌≤◌, ◌≡◌, ◌⊎◌, inl, inr, List, [], In, length}
use agent_native_db.Bytes.{Bytes}
use agent_native_db.Storage.Engine.{Engine}
use agent_native_db.Graph.Store.{GraphJson, Direction}
use agent_native_db.Graph.Search.{path, no_path, neighbor_ids, shortest_path}
use agent_native_db.Graph.Search.Paths.{Walk, IsPath}
use agent_native_db.Graph.Search.Shortest.{path_between-IsAnswer}

-- Where a walk along the edges leads from the start to the goal, ShortestPath returns a path from the one
-- to the other that has no more steps than the walk, with fuel for the number of the names: a finite set
-- of names that holds the start and no empty name, and holds with a name its neighbours.
pub shortest_path-walk :
    (j : GraphJson) (e : Engine) (s : e.Store) (dir : Direction) (from to : Bytes)
    (universe : List Bytes) (fuel n : ℕ)
    → ((u v : Bytes) → In u universe → In v (neighbor_ids j e s dir u) → In v universe)
    → ¬ In [] universe
    → In from universe
    → length universe ≤ fuel
    → Walk (neighbor_ids j e s dir) from n to
    → (ps : List Bytes) × (shortest_path j e s fuel from to dir ≡ path ps)
      × IsPath (neighbor_ids j e s dir) from to ps
      × (length ps ≤ suc n)
unfolding shortest_path
shortest_path-walk j e s dir from to universe fuel n inside named i enough w =
    elim (path_between-IsAnswer (neighbor_ids j e s dir) from to universe inside named fuel i
      enough) [
        | inl (ps, r, is_path, short) ↦ (ps, r, is_path, short n w)
        | inr (r, none_there) ↦ absurd (none_there n w)
      ]

-- On a finite set of names that holds the start and no empty name, and holds with a name its neighbours,
-- ShortestPath ends, with fuel for the number of the names: it returns a path along the edges from the
-- start to the goal, or no path.
pub shortest_path-ends :
    (j : GraphJson) (e : Engine) (s : e.Store) (dir : Direction) (from to : Bytes)
    (universe : List Bytes) (fuel : ℕ)
    → ((u v : Bytes) → In u universe → In v (neighbor_ids j e s dir u) → In v universe)
    → ¬ In [] universe
    → In from universe
    → length universe ≤ fuel
    → ((ps : List Bytes) × (shortest_path j e s fuel from to dir ≡ path ps)
        × IsPath (neighbor_ids j e s dir) from to ps)
      ⊎ (shortest_path j e s fuel from to dir ≡ no_path)
unfolding shortest_path
shortest_path-ends j e s dir from to universe fuel inside named i enough =
    elim (path_between-IsAnswer (neighbor_ids j e s dir) from to universe inside named fuel i
      enough) [ inl (ps, r, is_path, short) ↦ inl (ps, r, is_path) | inr (r, none_there) ↦ inr r ]
