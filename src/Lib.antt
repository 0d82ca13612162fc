-- ===== src/Lib.antt =====
-- AgentNativeDB: the replicated core of the database, the key encoding below it, the permissions and
-- the tasks of its agents, the graph store, the SQL lexer and the SQL indexes.
--
-- The program is a database for agents: sessions, memories, decisions and tables over a key-value
-- engine, which is BadgerDB on one node, or the Raft engine over BadgerDB on several. A write of the
-- Raft engine becomes a command that is proposed to the node, is stored in the log, is replicated to
-- the peers, is committed when a majority has it, and is applied to the local engine.
--
-- Which file models what:
--   Prelude, Prelude/Tests, Prelude/Lists: the shared names, Boolean tests on numbers, lists.
--   Bytes: byte strings and bytes.Compare; Bytes/Lex: their order; Bytes/BigEndian: encoding/binary,
--     u64tob and btou64 of internal/raft/node.go; Bytes/Map: Go maps with string keys.
--   Storage/KeyEncode: internal/storage/keyencode.go (EncodeKey is encode_key, and so on); in Decode
--     and Range what its keys decode to and which keys a range scans.
--   Storage/Engine: the Engine interface of internal/storage/engine.go, as a record of operations and
--     laws that its clients take as a parameter; Storage/Engine/Memory is one that has them.
--     Storage/Engine/Scans: PrefixScan of internal/storage/badger/store.go.
--   Storage/Cache: internal/storage/cache.go; Order: the list's elements; Refines and Runs: the cache
--     against a list of entries, the most recently used first.
--   Raft/LogEntry: LogEntry, encodeLogEntry and decodeLogEntry.
--   Raft/Badger: what internal/raft/storage.go uses of BadgerDB, a parameter with its documented
--     behaviour; Raft/Badger/Memory is one that has it.
--   Raft/Storage: RaftStorage of internal/raft/storage.go. Laws: what is read after a write;
--     LastIndex: what the seek of LastIndex finds; Keeps and SameBallot: what a write leaves alone.
--   Raft/Node: Node of internal/raft/node.go, with stepDown; Raft/Restart: NewNode; Raft/Recovery:
--     applyCommitted.
--   Raft/Vote: HandleRequestVote, and Raft/Append: HandleAppendEntries, of internal/raft/transport.go.
--   Raft/Apply, Raft/Commit, Raft/Leader, Raft/Election: collectApplyOps and doApply,
--     advanceCommitIndex, becomeLeader, replicateToPeer and handleProposal, and startElection of
--     internal/raft/run.go.
--     Raft/Election/Late: an answer that comes after its election.
--   Raft/Ballots: the steps that change the term or the vote of a node, in any order, with restarts.
--   Raft/Command: Cmd, encodeCmd, decodeCmd and applyCmd of internal/raft/engine.go; Raft/Proposals: Set,
--     Delete and BatchWrite of RaftEngine; Raft/Txn: raftTxn, whose Commit is the proposal of a batch.
--   Agent/Permission: internal/agent/permission.go. Rules: what evaluate allows; Roles: assignments
--     and revocations; Saved: the store against the memory.
--   Agent/Tasks: the task queue of internal/agent/taskqueue.go; Heap: its priority queue; Stored: what the
--     store has of a task.
--   Graph/Store: nodes and edges of internal/graph/store.go. Keys: the keys of edges and indexes; Edges:
--     what a scan of an index finds; Indexed and Deleted: the indexes against the edges.
--   Graph/Search: GetNeighbors, KHopNeighbors and ShortestPath of internal/graph/store.go. Neighbors: the
--     neighbours and the edges; Paths: walks, paths and the way back along parents; Invariant and Visited:
--     the state of the breadth-first search; Unseen: its measure; Shortest and Ends: what it returns.
--   Sql/Kinds, Sql/Token, Sql/Lexer: internal/query/sql/lexer.go. Spans, Cases and Covered: what a token is
--     read from; Tiled: the tokens against the input; Reads, Words, Printed and Minus: the tokens of
--     given texts.
--   Sql/Index: internal/query/sql/index: EncodeValue, the keys of entries and the lookups; Sql/Index/Rows:
--     InsertRow, UpdateRow and DeleteRow. Order: the order of the keys; Keys: what they decode to; Lookup:
--     what the lookups find; Unique: what a write of a row leaves.
--   Raft/Fixture, Raft/Command/Format, Graph/Store/Fixture, Graph/Store/Format and the modules named
--     Examples: concrete inputs.
--
-- State is passed explicitly: a handler takes the node and returns it, with its answer. The node's
-- mutex makes each section between lock and unlock one step; startElection and becomeLeader are
-- sequences of such steps. A word of 64 bits is a natural number with `% 2 ^ 64` where the code adds
-- or subtracts; an error of the storage that the code drops leaves the database as it was.
--
-- Fuel: `advance` has the number of entries behind the commit index, and each round commits one, so
-- it ends by its own test; `collect` has the number of committed entries that are not applied, and
-- takes one each round; `replay` has the number of the indices that it goes through; `log_entries` has
-- the width of its range; `shortest_path` needs as many rounds as there are names to reach, and
-- `trace_back` one more than it has parents; `tokenize` has one more than
-- the bytes of its input, and each token takes at least one; `up` and `down` have the number of tasks,
-- and each round moves to a parent or a child.
--
-- Not modelled: the HTTP transport, timers but for the count of resets, logging, snapshots (stubs in
-- the code), the JSON of commands, roles, tasks, nodes, edges and the cluster's configuration (parameters, or
-- left out), and the parts of the program that are not named above: the SQL parser, planner
-- and executor, the vector index, the other agent services, the servers and
-- the command line. The float of a number in an index is its bits, and the terms of a text are a
-- parameter.
pub mod Agent
pub mod Bytes
pub mod Graph
pub mod Prelude
pub mod Raft
pub mod Sql
pub mod Storage
