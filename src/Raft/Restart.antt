-- ===== src/Raft/Restart.antt =====
-- internal/raft/node.go: NewNode, with what it takes from the configuration and recovers from the
-- storage. The timeouts, whose defaults it fills in, are not modelled.
use agent_native_db.Prelude.{Bool, false, not, ◌||◌, ℕ, Option, none, some, [], ◌∷◌, if◌then◌else◌}
use agent_native_db.Bytes.{Bytes, eq_bytes}
use agent_native_db.Bytes.Map.{Map, insert}
use agent_native_db.Raft.Badger.{Badger}
use agent_native_db.Raft.Storage.{get_uint64, get_string, key_current_term, key_voted_for}
use agent_native_db.Raft.Node.{Node, follower}

-- Each peer of the second map is written into the first.
unfoldable pub write_all : Map Bytes → Map Bytes → Map Bytes
write_all m [] = m
write_all m ((id, addr) ∷ rest) = write_all (insert id addr m) rest

or_zero : Option ℕ → ℕ
or_zero none = 0
or_zero (some v) = v

or_empty : Option Bytes → Bytes
or_empty none = []
or_empty (some v) = v

module _ (b : Badger) where
  unfoldable pub recovered_term : b.Db → ℕ
  unfolding or_zero
  recovered_term db = or_zero (get_uint64 b db key_current_term)

  unfoldable pub recovered_vote : b.Db → Bytes
  unfolding or_empty
  recovered_vote db = or_empty (get_string b db key_voted_for)

  -- A new node on an open database; `cluster` is the stored configuration, as GetCluster decodes it.
  unfoldable pub new_node : Bytes → Map Bytes → Map Bytes → b.Db → Node b
  unfolding write_all recovered_term recovered_vote
  new_node id peers cluster db = record {
    node_id = id;
    state = follower;
    current_term = recovered_term db;
    voted_for = recovered_vote db;
    commit_index = 0;
    last_applied = 0;
    leader_id = [];
    next_index = [];
    match_index = [];
    proposals = λ _. none;
    peers = write_all (write_all [] peers) cluster;
    ticking = false;
    timer_resets = 0;
    db = db;
  }

  -- NewNode: `none` is the error for an empty node id, an empty address or no Apply callback, or that of
  -- opening the storage, which gives `none` for the database.
  unfoldable pub checked_node :
      Bytes → Bytes → Bool → Map Bytes → Map Bytes → Option b.Db → Option (Node b)
  unfolding new_node
  checked_node id raft_addr has_apply peers cluster opened =
      if eq_bytes id [] || eq_bytes raft_addr [] || not has_apply
      then none
      else elim opened [ none ↦ none | some db ↦ some (new_node id peers cluster db) ]
