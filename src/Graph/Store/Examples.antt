-- ===== src/Graph/Store/Examples.antt =====
-- The graph store at concrete inputs.
use agent_native_db.Prelude.{◌≡◌, ◌≢◌, ◌↔◌, refl, none, some, [], ◌∷◌, In, arith}
use agent_native_db.Bytes.{Bytes}
use agent_native_db.Storage.Engine.Memory.{Writes, engine}
use agent_native_db.Graph.Store.{Edge, out_of, get_edge, get_edges_by_index, add_edge, delete_edge}
use agent_native_db.Graph.Store.Format.{graph_format}
use agent_native_db.Graph.Store.Keys.{Index, outs, end_of}
use agent_native_db.Graph.Store.Indexed.{IsIndexed, add_edge-IsIndexed, indexed_reads}
use agent_native_db.Graph.Store.Deleted.{delete_edge-IsIndexed}
use agent_native_db.Graph.Store.Fixture.{
  bob, bob_cat, one_edge, two_edges, two_edges-written, bob_cat-IsNamed, one_edge-IsIndexed,
  two_edges-IsIndexed, no_second,
}

out_of-bob : get_edges_by_index graph_format engine two_edges (out_of bob) ≡ some (bob_cat ∷ [])
unfolding get_edges_by_index agent_native_db.Storage.Engine.Memory.between
    agent_native_db.Storage.Engine.Memory.live two_edges agent_native_db.Bytes.eq_bytes
    agent_native_db.Storage.KeyEncode.in_range agent_native_db.Bytes.le_bytes
    agent_native_db.Storage.KeyEncode.prefix_range agent_native_db.Graph.Store.index_key
    agent_native_db.Bytes.Map.erase get_edge agent_native_db.Storage.Engine.Memory.find
    agent_native_db.Graph.Store.edge_key agent_native_db.Storage.KeyEncode.decode_index_id
out_of-bob = refl

no_second_edge :
    (old : Edge)
    → get_edge graph_format engine one_edge bob_cat.id ≡ some old
    → (x : Index) → end_of x old ≡ end_of x bob_cat
no_second_edge old h x = absurd (ground (arith, no_second, h))

add_edge-IsIndexed_example : IsIndexed graph_format engine two_edges
add_edge-IsIndexed_example =
    add_edge-IsIndexed graph_format engine one_edge two_edges bob_cat bob_cat-IsNamed
      one_edge-IsIndexed no_second_edge two_edges-written

indexed_reads_example : In bob_cat (bob_cat ∷ []) ↔ (
    (get_edge graph_format engine two_edges bob_cat.id ≡ some bob_cat)
    × (end_of outs bob_cat ≡ bob))
indexed_reads_example =
    indexed_reads graph_format engine two_edges outs bob (bob_cat ∷ []) bob_cat two_edges-IsIndexed
      (omega arith, tt) out_of-bob

never_fails : (s : Writes) (k : Bytes) → engine.delete_key s k ≢ none
never_fails s k h = absurd (ground (arith, h))

second_there : get_edge graph_format engine two_edges bob_cat.id ≡ some bob_cat
unfolding get_edge agent_native_db.Storage.Engine.Memory.find two_edges
    agent_native_db.Bytes.eq_bytes agent_native_db.Graph.Store.index_key
    agent_native_db.Graph.Store.edge_key
second_there = refl

second_present : get_edge graph_format engine two_edges bob_cat.id ≢ none
second_present h = absurd (ground (arith, h, second_there))

delete_edge-IsIndexed_example :
    IsIndexed graph_format engine (delete_edge graph_format engine two_edges bob_cat.id).0
    × (get_edge graph_format engine
          (delete_edge graph_format engine two_edges bob_cat.id).0
          bob_cat.id
        ≡ none)
delete_edge-IsIndexed_example =
    delete_edge-IsIndexed graph_format engine two_edges bob_cat.id never_fails second_present
      two_edges-IsIndexed
