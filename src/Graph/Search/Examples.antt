-- ===== src/Graph/Search/Examples.antt =====
-- The searches at a concrete graph.
use agent_native_db.Prelude.{
  ◌≤◌, ◌≡◌, ◌↔◌, ◌⊎◌, refl, sym, ap, ◌∙◌, subst, inl, inr, some, List, [], ◌∷◌, In, length, arith,
}
use agent_native_db.Bytes.{Bytes}
use agent_native_db.Storage.Engine.Memory.{engine}
use agent_native_db.Graph.Store.{Edge, out_of, in_of, dir_out, get_edge, get_edges_by_index}
use agent_native_db.Graph.Store.Format.{graph_format}
use agent_native_db.Graph.Store.Fixture.{
  ann, bob, cat, ann_bob, bob_cat, two_edges, two_edges-IsIndexed,
}
use agent_native_db.Graph.Search.{path, no_path, neighbor_ids, shortest_path}
use agent_native_db.Graph.Search.Paths.{Walk, here, step, IsPath}
use agent_native_db.Graph.Search.Ends.{shortest_path-walk, shortest_path-ends}
use agent_native_db.Graph.Search.Neighbors.{Leads, neighbor_ids_iff}

abbrev next : Bytes → List Bytes
next = neighbor_ids graph_format engine two_edges dir_out

abbrev names : List Bytes
names = ann ∷ bob ∷ cat ∷ []

next_ann : next ann ≡ bob ∷ []
unfolding neighbor_ids agent_native_db.Storage.Engine.Memory.between
    agent_native_db.Storage.Engine.Memory.live two_edges agent_native_db.Bytes.eq_bytes
    agent_native_db.Storage.KeyEncode.in_range agent_native_db.Bytes.le_bytes
    agent_native_db.Storage.KeyEncode.prefix_range agent_native_db.Graph.Store.index_key
    agent_native_db.Bytes.Map.erase agent_native_db.Graph.Store.edge_key get_edge
    agent_native_db.Storage.Engine.Memory.find agent_native_db.Storage.KeyEncode.decode_index_id
next_ann = refl

next_bob : next bob ≡ cat ∷ []
unfolding neighbor_ids agent_native_db.Storage.Engine.Memory.between
    agent_native_db.Storage.Engine.Memory.live two_edges agent_native_db.Bytes.eq_bytes
    agent_native_db.Storage.KeyEncode.in_range agent_native_db.Bytes.le_bytes
    agent_native_db.Storage.KeyEncode.prefix_range agent_native_db.Graph.Store.index_key
    agent_native_db.Bytes.Map.erase get_edge agent_native_db.Storage.Engine.Memory.find
    agent_native_db.Graph.Store.edge_key agent_native_db.Storage.KeyEncode.decode_index_id
next_bob = refl

next_cat : next cat ≡ []
unfolding neighbor_ids agent_native_db.Storage.Engine.Memory.between
    agent_native_db.Storage.Engine.Memory.live two_edges agent_native_db.Bytes.eq_bytes
    agent_native_db.Storage.KeyEncode.in_range agent_native_db.Bytes.le_bytes
    agent_native_db.Storage.KeyEncode.prefix_range agent_native_db.Graph.Store.index_key
    agent_native_db.Bytes.Map.erase agent_native_db.Graph.Store.edge_key get_edge
    agent_native_db.Storage.Engine.Memory.find agent_native_db.Storage.KeyEncode.decode_index_id
next_cat = refl

ahead : (u v w : Bytes) (ws : List Bytes) → u ≡ w → next w ≡ ws → In v (next u) → In v ws
ahead u v w ws at are i = subst (In v) (ap next at ∙ are) i

closed : (u v : Bytes) → In u names → In v (next u) → In v names
closed u v (inl at) i = elim (ahead u v ann (bob ∷ []) at next_ann i) [
  | inl e ↦ inr (inl e)
  | inr e ↦ absurd e
]
closed u v (inr (inl at)) i = elim (ahead u v bob (cat ∷ []) at next_bob i) [
  | inl e ↦ inr (inr (inl e))
  | inr e ↦ absurd e
]
closed u v (inr (inr (inl at))) i = absurd (ahead u v cat [] at next_cat i)
closed u v (inr (inr (inr e))) i = absurd e

all_named : ¬ In [] names
all_named i = absurd (ground (arith, i))

two_steps : Walk next ann 2 cat
two_steps =
    step (step here (subst (In bob) (sym next_ann) (inl refl)))
      (subst (In cat) (sym next_bob) (inl refl))

shortest_path-walk_example :
    (ps : List Bytes) × (shortest_path graph_format engine two_edges 3 ann cat dir_out ≡ path ps)
    × IsPath next ann cat ps
    × (length ps ≤ 3)
shortest_path-walk_example =
    shortest_path-walk graph_format engine two_edges dir_out ann cat names 3 2 closed all_named
      (inl refl) (omega arith) two_steps

shortest_path-ends_example :
    ((ps : List Bytes) × (shortest_path graph_format engine two_edges 3 cat ann dir_out ≡ path ps)
      × IsPath next cat ann ps)
    ⊎ (shortest_path graph_format engine two_edges 3 cat ann dir_out ≡ no_path)
shortest_path-ends_example =
    shortest_path-ends graph_format engine two_edges dir_out cat ann names 3 closed all_named
      (inr (inr (inl refl))) (omega arith)

-- The path over both edges.
over_both :
    shortest_path graph_format engine two_edges 3 ann cat dir_out ≡ path (ann ∷ bob ∷ cat ∷ [])
unfolding shortest_path agent_native_db.Bytes.eq_bytes agent_native_db.Storage.Engine.Memory.between
    agent_native_db.Storage.Engine.Memory.live two_edges agent_native_db.Storage.KeyEncode.in_range
    agent_native_db.Bytes.le_bytes agent_native_db.Storage.KeyEncode.prefix_range
    agent_native_db.Graph.Store.index_key agent_native_db.Bytes.Map.erase
    agent_native_db.Graph.Store.edge_key get_edge agent_native_db.Storage.Engine.Memory.find
    agent_native_db.Storage.KeyEncode.decode_index_id agent_native_db.Bytes.Map.insert
over_both = refl

out_of-bob : get_edges_by_index graph_format engine two_edges (out_of bob) ≡ some (bob_cat ∷ [])
unfolding get_edges_by_index agent_native_db.Storage.Engine.Memory.between
    agent_native_db.Storage.Engine.Memory.live two_edges agent_native_db.Bytes.eq_bytes
    agent_native_db.Storage.KeyEncode.in_range agent_native_db.Bytes.le_bytes
    agent_native_db.Storage.KeyEncode.prefix_range agent_native_db.Graph.Store.index_key
    agent_native_db.Bytes.Map.erase get_edge agent_native_db.Storage.Engine.Memory.find
    agent_native_db.Graph.Store.edge_key agent_native_db.Storage.KeyEncode.decode_index_id
out_of-bob = refl

into_bob : get_edges_by_index graph_format engine two_edges (in_of bob) ≡ some (ann_bob ∷ [])
unfolding get_edges_by_index agent_native_db.Storage.Engine.Memory.between
    agent_native_db.Storage.Engine.Memory.live two_edges agent_native_db.Bytes.eq_bytes
    agent_native_db.Storage.KeyEncode.in_range agent_native_db.Bytes.le_bytes
    agent_native_db.Storage.KeyEncode.prefix_range agent_native_db.Graph.Store.index_key
    agent_native_db.Bytes.Map.erase agent_native_db.Graph.Store.edge_key get_edge
    agent_native_db.Storage.Engine.Memory.find agent_native_db.Storage.KeyEncode.decode_index_id
into_bob = refl

neighbor_ids_iff_example : In cat (next bob) ↔ (
    (edge : Edge) × (get_edge graph_format engine two_edges edge.id ≡ some edge)
    × Leads dir_out bob cat edge)
neighbor_ids_iff_example =
    neighbor_ids_iff graph_format engine two_edges dir_out bob cat (bob_cat ∷ []) (ann_bob ∷ [])
      two_edges-IsIndexed (omega arith, tt) out_of-bob into_bob
