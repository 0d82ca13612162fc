-- ===== src/Raft/Commit/Advanced.antt =====
-- How far advanceCommitIndex takes the commit index.
use agent_native_db.Prelude.{ℕ, suc, ◌+◌, ◌<◌, ◌≤◌, ◌≡◌, ◌⊎◌, true}
use agent_native_db.Raft.Badger.{Badger}
use agent_native_db.Raft.LogEntry.{LogEntry}
use agent_native_db.Raft.Storage.{found, get_log}
use agent_native_db.Raft.Node.{Node, next64, get_last_log_index, store_commit}
use agent_native_db.Raft.Commit.{has_majority, advance}

-- The node may commit the entry of an index: it is of the current term, and a majority has it.
pub record IsCommittable {b : Badger} (n : Node b) (i : ℕ) : Type 0 where
  pub entry : LogEntry
  pub there : get_log b n.db i ≡ found entry
  pub current : entry.term ≡ n.current_term
  pub majority : has_majority n i ≡ true

-- The loop went on as long as it could.
pub record IsAdvanced {b : Badger} (n m : Node b) : Type 0 where
  pub grows : n.commit_index ≤ m.commit_index
  pub in_log : m.commit_index ≤ get_last_log_index n
  pub each : (i : ℕ) → n.commit_index < i → i ≤ m.commit_index → IsCommittable n i
  pub stops : (m.commit_index ≡ get_last_log_index n) ⊎ (¬ IsCommittable n (m.commit_index + 1))

module _ {b : Badger} where
  -- One more index is committed.
  abbrev next_node : Node b → Node b
  next_node n = store_commit (next64 n.commit_index) n

  -- A round ends the loop, or commits the next index.
  abbrev Round : ℕ → Node b → Type 0
  Round fuel n =
      ((advance (suc fuel) n ≡ n) × (¬ IsCommittable n (n.commit_index + 1)))
      ⊎ ((advance (suc fuel) n ≡ advance fuel (next_node n)) × IsCommittable n (n.commit_index + 1))
