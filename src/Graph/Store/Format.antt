-- ===== src/Graph/Store/Format.antt =====
-- A serialisation of nodes and edges with the behaviour that the store relies on, for its examples.
use agent_native_db.Prelude.{◌≡◌, Option, some, []}
use agent_native_db.Bytes.{Bytes}
use agent_native_db.Raft.Command.Format.{
  with_length, first_part, behind_part, first_part-with_length, behind_part-with_length,
}
use agent_native_db.Graph.Store.{GraphNode, Edge, GraphJson}

pub write_node : GraphNode → Bytes
write_node n = with_length n.id (with_length n.type (with_length n.name (with_length n.rest [])))

pub read_node : Bytes → Option GraphNode
read_node bs =
    let b = behind_part bs in
    let c = behind_part b in
    some (record {
      id = first_part bs;
      type = first_part b;
      name = first_part c;
      rest = first_part (behind_part c);
    })

pub read-write_node : (n : GraphNode) → read_node (write_node n) ≡ some n
unfolding read_node write_node
read-write_node n = simp (first_part-with_length, behind_part-with_length)

pub write_edge : Edge → Bytes
write_edge x =
    with_length x.id
      (with_length x.type (with_length x.from_id (with_length x.to_id (with_length x.rest []))))

pub read_edge : Bytes → Option Edge
read_edge bs =
    let b = behind_part bs in
    let c = behind_part b in
    let d = behind_part c in
    some (record {
      id = first_part bs;
      type = first_part b;
      from_id = first_part c;
      to_id = first_part d;
      rest = first_part (behind_part d);
    })

pub read-write_edge : (x : Edge) → read_edge (write_edge x) ≡ some x
unfolding read_edge write_edge
read-write_edge x = simp (first_part-with_length, behind_part-with_length)

pub read_made_node :
    (n : GraphNode) (bytes : Bytes) → some (write_node n) ≡ some bytes → read_node bytes ≡ some n
read_made_node n bytes h = cc (h, read-write_node n)

pub read_made_edge :
    (x : Edge) (bytes : Bytes) → some (write_edge x) ≡ some bytes → read_edge bytes ≡ some x
read_made_edge x bytes h = cc (h, read-write_edge x)

unfoldable pub graph_format : GraphJson
unfolding write_node read_node write_edge read_edge with_length first_part behind_part
graph_format = record {
  of_node = λ n. some (write_node n);
  to_node = read_node;
  of_edge = λ x. some (write_edge x);
  to_edge = read_edge;
  to_node-of_node = λ n bytes h. read_made_node n bytes h;
  to_edge-of_edge = λ x bytes h. read_made_edge x bytes h;
}
