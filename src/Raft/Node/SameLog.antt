-- ===== src/Raft/Node/SameLog.antt =====
-- The writes of the stable state leave the node's view of its log as it was.
use agent_native_db.Prelude.{ℕ, ◌≡◌, arith}
use agent_native_db.Bytes.{Bytes}
use agent_native_db.Raft.Badger.{Badger}
use agent_native_db.Raft.Storage.{
  last_index, key_current_term, key_voted_for, key_commit_index, key_last_applied,
}
use agent_native_db.Raft.Storage.LastIndex.{IsLogDb, last_index_present}
use agent_native_db.Raft.Storage.Keeps.{
  SameLog, last_index-SameLog, set_uint64-SameLog, set_string-SameLog,
}
use agent_native_db.Raft.Node.{
  Node, get_last_log_index, get_last_log_term, store_term, store_vote, store_commit, store_applied,
}

module _ {b : Badger} where
  pub store_term-SameLog :
      (t : ℕ) (n : Node b) → IsLogDb b n.db → SameLog b n.db (store_term t n).db
  unfolding store_term
  store_term-SameLog t n v = set_uint64-SameLog b n.db key_current_term t v

  pub store_vote-SameLog :
      (id : Bytes) (n : Node b) → IsLogDb b n.db → SameLog b n.db (store_vote id n).db
  unfolding store_vote
  store_vote-SameLog id n v = set_string-SameLog b n.db key_voted_for id v

  pub store_commit-SameLog :
      (i : ℕ) (n : Node b) → IsLogDb b n.db → SameLog b n.db (store_commit i n).db
  unfolding store_commit
  store_commit-SameLog i n v = set_uint64-SameLog b n.db key_commit_index i v

  pub store_applied-SameLog :
      (i : ℕ) (n : Node b) → IsLogDb b n.db → SameLog b n.db (store_applied i n).db
  unfolding store_applied
  store_applied-SameLog i n v = set_uint64-SameLog b n.db key_last_applied i v

  pub get_last_log_index-SameLog :
      (n m : Node b)
      → IsLogDb b n.db
      → SameLog b n.db m.db
      → get_last_log_index m ≡ get_last_log_index n
  unfolding get_last_log_index
  get_last_log_index-SameLog n m v s = last_index-SameLog b n.db m.db v s

  pub get_last_log_term-SameLog :
      (n m : Node b)
      → IsLogDb b n.db
      → SameLog b n.db m.db
      → get_last_log_term m ≡ get_last_log_term n
  unfolding get_last_log_term
  get_last_log_term-SameLog n m v s = ground (
    arith,
    last_index-SameLog b n.db m.db v s,
    s.same (last_index b n.db) (last_index_present b n.db v).0,
  )
