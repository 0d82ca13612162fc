-- ===== src/Raft/Fixture.antt =====
-- A node of a cluster of three on a database in memory, for the examples of internal/raft.
use agent_native_db.Prelude.{◌≡◌, refl, inl, false, none, some, [], ◌∷◌, arith}
use agent_native_db.Bytes.{Bytes}
use agent_native_db.Bytes.Map.{Map}
use agent_native_db.Raft.Badger.Memory.{memory, read}
use agent_native_db.Raft.LogEntry.{LogEntry, IsEntry, encode_log_entry}
use agent_native_db.Raft.Storage.{store_log, get_log, get_uint64, get_string, log_key}
use agent_native_db.Raft.Restart.{recovered_term, recovered_vote}
use agent_native_db.Raft.Storage.LastIndex.{IsLogDb}
use agent_native_db.Raft.Storage.Keeps.{store_log-IsLogDb}
use agent_native_db.Raft.Storage.SameBallot.{WritesSucceed}
use agent_native_db.Raft.Node.{Node, follower, leader}
use agent_native_db.Raft.Node.Ballot.{IsPersisted}

abbrev pub ann : Bytes
ann = 97 ∷ []

abbrev pub bob : Bytes
bob = 98 ∷ []

abbrev pub cat : Bytes
cat = 99 ∷ []

abbrev pub three_peers : Map Bytes
three_peers = (ann, []) ∷ (bob, []) ∷ (cat, []) ∷ []

-- A node that has started for the first time.
abbrev pub fresh : Node memory
fresh = record {
  node_id = ann;
  state = follower;
  current_term = 0;
  voted_for = [];
  commit_index = 0;
  last_applied = 0;
  leader_id = [];
  next_index = [];
  match_index = [];
  proposals = λ _. none;
  peers = three_peers;
  ticking = false;
  timer_resets = 0;
  db = [];
}

pub memory-WritesSucceed : WritesSucceed memory
memory-WritesSucceed = record { set = λ db k v e. cc; flush = λ db ops. refl }

pub empty-IsLogDb : IsLogDb memory []
unfolding read get_log
empty-IsLogDb = record { keys = λ k p h. absurd (p refl); entries = λ i h. inl refl }

pub fresh-IsPersisted : IsPersisted fresh
unfolding recovered_term recovered_vote get_uint64 get_string read
fresh-IsPersisted = record { term = refl; vote = refl }

-- The entry of index 1 and term 1.
abbrev pub entry : LogEntry
entry = record { index = 1; term = 1; type = 0; content = [] }

pub entry-IsEntry : IsEntry entry
entry-IsEntry = record { index_fits = omega arith; term_fits = omega arith }

-- The log of that entry.
abbrev pub stored : memory.Db
stored = (log_key 1, some (encode_log_entry entry)) ∷ []

pub stored-lem : store_log memory [] entry ≡ some stored
unfolding store_log
stored-lem = refl

pub stored-IsLogDb : IsLogDb memory stored
stored-IsLogDb = store_log-IsLogDb memory [] stored entry entry-IsEntry empty-IsLogDb stored-lem

-- A leader with that log, and a peer that has the entry.
abbrev pub leading : Node memory
leading = record fresh {
  state = leader;
  current_term = 1;
  voted_for = ann;
  leader_id = ann;
  next_index = (bob, 2) ∷ [];
  match_index = (ann, 1) ∷ (bob, 1) ∷ [];
  db = stored;
}
