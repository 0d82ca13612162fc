-- ===== src/Raft/Recovery.antt =====
-- internal/raft/node.go: applyCommitted, which Start calls before anything else runs.
mod Examples
use agent_native_db.Prelude.{ℕ, zero, suc, ◌+◌, ◌-◌, ◌≡◌, Bool, true, false, Option, none, some}
use agent_native_db.Bytes.{Bytes}
use agent_native_db.Raft.Badger.{Badger}
use agent_native_db.Raft.LogEntry.{LogEntry}
use agent_native_db.Raft.Storage.{found, get_log, get_uint64, key_commit_index, key_last_applied}
use agent_native_db.Raft.Node.{Node, next64, store_applied}
use agent_native_db.Raft.Apply.{Apply, apply_one}

-- What was stored, or else what the node has.
stored_or : ℕ → Option ℕ → ℕ
stored_or v none = v
stored_or v (some stored) = stored

module _ {b : Badger} where
  unfoldable pub restore_indices : Node b → Node b
  unfolding stored_or
  restore_indices n = record n {
    commit_index = stored_or n.commit_index (get_uint64 b n.db key_commit_index);
    last_applied = stored_or n.last_applied (get_uint64 b n.db key_last_applied);
  }

  -- The rounds of the loop from an index on; false is its error.
  unfoldable pub replay : Apply b → ℕ → ℕ → Node b → Node b × Bool
  unfolding apply_one
  replay apply zero i n = (n, true)
  replay apply (suc rounds) i n = elim (get_log b n.db i) [
    | found e ↦ elim (apply_one apply n e).1 [
      | true ↦ replay apply rounds (next64 i) (record (apply_one apply n e).0 { last_applied = i })
      | false ↦ ((apply_one apply n e).0, false)
    ]
    | _ ↦ (n, false)
  ]

  -- The rounds are the indices from the one behind what is applied to the commit index. On an error
  -- the last index that was applied is not stored. A commit index of 2^64 - 1, for which the loop does
  -- not end, is not modelled.
  unfoldable pub replay_committed : Apply b → Node b → Node b × Bool
  unfolding replay store_applied
  replay_committed apply n =
      let first = next64 n.last_applied in
      let (n1, ok) = replay apply (n.commit_index + 1 - first) first n in
      elim ok [ true ↦ (store_applied n1.last_applied n1, true) | false ↦ (n1, false) ]

  unfoldable pub apply_committed : Apply b → Node b → Node b × Bool
  unfolding restore_indices replay_committed
  apply_committed apply n = replay_committed apply (restore_indices n)

-- A callback that succeeds and leaves the log alone.
pub record IsQuiet (b : Badger) (apply : Apply b) : Type 0 where
  pub succeeds :
      (n : Node b) (term index : ℕ) (content : Bytes) → (apply n term index content).1 ≡ true
  pub log :
      (n : Node b) (term index : ℕ) (content : Bytes) (i : ℕ)
      → get_log b (apply n term index content).0.db i ≡ get_log b n.db i
