-- ===== src/Raft/Node.antt =====
-- internal/raft/node.go: the state of a node, and the small operations that the handlers share.
-- The node's mutex makes each part of a handler between lock and unlock one step, so such a part is
-- one function here. Timers are not modelled but for the times that the election timer is reset.
pub mod SameLog
pub mod Ballot
use agent_native_db.Prelude.{
  Option, ℕ, ◌+◌, ◌-◌, ◌^◌, ◌%◌, Bool, true, false, [], ◌==◌, ltb, if◌then◌else◌,
}
use agent_native_db.Bytes.{Bytes}
use agent_native_db.Bytes.Map.{Map}
use agent_native_db.Raft.Badger.{Badger}
use agent_native_db.Raft.Storage.{
  LogRead, found, get_log, last_index, set_uint64, set_string, or_same, key_current_term,
  key_voted_for, key_commit_index, key_last_applied,
}

pub data Role : Type 0 where
  follower pre_candidate candidate leader : Role

-- The answer on a proposal's channel: nil, ErrNotLeader, or an error of the storage or of Apply.
pub data Answer : Type 0 where
  done not_leader store_failed apply_failed : Answer

pub record Node (b : Badger) : Type 0 where
  pub node_id : Bytes
  pub state : Role
  pub current_term : ℕ
  pub voted_for : Bytes
  pub commit_index : ℕ
  pub last_applied : ℕ
  pub leader_id : Bytes
  pub next_index : Map ℕ
  pub match_index : Map ℕ
  -- the number of the proposal that waits for the entry of an index
  pub proposals : ℕ → Option ℕ
  pub peers : Map Bytes
  -- heartbeatTicker != nil
  pub ticking : Bool
  -- how often resetElectionTimer was called
  pub timer_resets : ℕ
  pub db : b.Db

abbrev pub is_leader : Role → Bool
is_leader leader = true
is_leader _ = false

abbrev pub is_candidate : Role → Bool
is_candidate candidate = true
is_candidate _ = false

-- x + 1 and x - 1 on uint64.
abbrev pub next64 : ℕ → ℕ
next64 x = (x + 1) % 2 ^ 64

abbrev pub prev64 : ℕ → ℕ
prev64 x = (x + 2 ^ 64 - 1) % 2 ^ 64

-- The term of an entry that was read, or 0.
unfoldable pub term_of : LogRead → ℕ
term_of (found e) = e.term
term_of _ = 0

module _ {b : Badger} where
  unfoldable pub reset_election_timer : Node b → Node b
  reset_election_timer n = record n { timer_resets = n.timer_resets + 1 }

  unfoldable pub get_last_log_index : Node b → ℕ
  get_last_log_index n = last_index b n.db

  unfoldable pub get_last_log_term : Node b → ℕ
  unfolding term_of get_last_log_index
  get_last_log_term n =
      let idx = get_last_log_index n in if idx == 0 then 0 else term_of (get_log b n.db idx)

  -- `currentTerm.Store(term)` and the stored term.
  unfoldable pub store_term : ℕ → Node b → Node b
  unfolding or_same
  store_term term n = record n {
    current_term = term;
    db = or_same n.db (set_uint64 b n.db key_current_term term);
  }

  -- `votedFor = id` and the stored vote.
  unfoldable pub store_vote : Bytes → Node b → Node b
  unfolding or_same
  store_vote id n = record n {
    voted_for = id;
    db = or_same n.db (set_string b n.db key_voted_for id);
  }

  -- `commitIndex.Store(index)` and the stored index.
  unfoldable pub store_commit : ℕ → Node b → Node b
  unfolding or_same
  store_commit index n = record n {
    commit_index = index;
    db = or_same n.db (set_uint64 b n.db key_commit_index index);
  }

  unfoldable pub store_applied : ℕ → Node b → Node b
  unfolding or_same
  store_applied index n = record n {
    last_applied = index;
    db = or_same n.db (set_uint64 b n.db key_last_applied index);
  }

  -- run.go: stepDown
  unfoldable pub step_down : ℕ → Node b → Node b
  unfolding store_term store_vote reset_election_timer
  step_down term n =
      let n1 = if ltb n.current_term term then store_vote [] (store_term term n) else n in
      reset_election_timer (record n1 { ticking = false; state = follower; leader_id = [] })
