-- ===== src/Graph/Store/Fixture.antt =====
-- A graph of two edges, for the examples of the graph store and its searches.
use agent_native_db.Prelude.{◌≡◌, refl, true, none, [], arith}
use agent_native_db.Bytes.{Bytes, codes}
use agent_native_db.Storage.KeyEncode.Decode.{HasNoZero}
use agent_native_db.Storage.Engine.Memory.{Writes, engine}
use agent_native_db.Graph.Store.{Edge, add_edge, get_edge, index_key}
use agent_native_db.Graph.Store.Format.{graph_format}
use agent_native_db.Graph.Store.Keys.{Index, outs, ins, types, field_of, end_of}
use agent_native_db.Graph.Store.Indexed.{IsNamed, IsIndexed, add_edge-IsIndexed}

abbrev pub ann : Bytes
ann = codes "a"

abbrev pub bob : Bytes
bob = codes "b"

abbrev pub cat : Bytes
cat = codes "c"

abbrev pub ann_bob : Edge
ann_bob = record { id = codes "1"; type = codes "t"; from_id = ann; to_id = bob; rest = [] }

abbrev pub bob_cat : Edge
bob_cat = record { id = codes "2"; type = codes "t"; from_id = bob; to_id = cat; rest = [] }

-- The store behind the first edge, and behind both.
unfoldable pub one_edge : Writes
unfolding add_edge graph_format
one_edge = (add_edge graph_format engine [] ann_bob).0

unfoldable pub two_edges : Writes
unfolding one_edge
two_edges = (add_edge graph_format engine one_edge bob_cat).0

pub one_edge-written : add_edge graph_format engine [] ann_bob ≡ (one_edge, true)
unfolding add_edge agent_native_db.Bytes.eq_bytes one_edge
one_edge-written = refl

pub two_edges-written : add_edge graph_format engine one_edge bob_cat ≡ (two_edges, true)
unfolding add_edge agent_native_db.Bytes.eq_bytes two_edges
two_edges-written = refl

ann_bob_ends : (x : Index) → HasNoZero (end_of x ann_bob)
ann_bob_ends outs = (omega arith, tt)
ann_bob_ends ins = (omega arith, tt)
ann_bob_ends types = (omega arith, tt)

pub ann_bob-IsNamed : IsNamed ann_bob
ann_bob-IsNamed = record { ends = ann_bob_ends }

bob_cat_ends : (x : Index) → HasNoZero (end_of x bob_cat)
bob_cat_ends outs = (omega arith, tt)
bob_cat_ends ins = (omega arith, tt)
bob_cat_ends types = (omega arith, tt)

pub bob_cat-IsNamed : IsNamed bob_cat
bob_cat-IsNamed = record { ends = bob_cat_ends }

no_edge : (id : Bytes) → get_edge graph_format engine [] id ≡ none
unfolding get_edge agent_native_db.Storage.Engine.Memory.find
no_edge id = refl

no_entry : (k : Bytes) → engine.get [] k ≡ none
unfolding agent_native_db.Storage.Engine.Memory.find
no_entry k = refl

pub no_second : get_edge graph_format engine one_edge bob_cat.id ≡ none
unfolding get_edge agent_native_db.Storage.Engine.Memory.find one_edge
    agent_native_db.Bytes.eq_bytes index_key agent_native_db.Graph.Store.edge_key
no_second = refl

pub empty-IsIndexed : IsIndexed graph_format engine []
empty-IsIndexed = record {
  named = λ id edge h. absurd (ground (arith, no_edge id, h));
  found = λ x n id z held. absurd (held (no_entry (index_key (field_of x n) id)));
  listed = λ x id edge h. absurd (ground (arith, no_edge id, h));
}

pub one_edge-IsIndexed : IsIndexed graph_format engine one_edge
one_edge-IsIndexed =
    add_edge-IsIndexed graph_format engine [] one_edge ann_bob ann_bob-IsNamed empty-IsIndexed
      (λ old h. absurd (ground (arith, no_edge ann_bob.id, h))) one_edge-written

pub two_edges-IsIndexed : IsIndexed graph_format engine two_edges
two_edges-IsIndexed =
    add_edge-IsIndexed graph_format engine one_edge two_edges bob_cat bob_cat-IsNamed
      one_edge-IsIndexed (λ old h. absurd (ground (arith, no_second, h))) two_edges-written
