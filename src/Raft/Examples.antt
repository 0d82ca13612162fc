-- ===== src/Raft/Examples.antt =====
-- The log, its storage, the handlers and the transactions at concrete inputs.
use agent_native_db.Prelude.{
  ◌+◌, ◌≤◌, ◌≡◌, ◌≢◌, refl, inl, true, false, some, List, [], ◌∷◌, length, arith, ◌∙◌,
}
use agent_native_db.Bytes.{Bytes}
use agent_native_db.Storage.Engine.{WriteOp, put}
use agent_native_db.Storage.Engine.Memory.{engine}
use agent_native_db.Raft.Badger.Memory.{memory}
use agent_native_db.Raft.Fixture.{
  ann, bob, fresh, leading, entry, entry-IsEntry, stored, stored-lem, empty-IsLogDb, stored-IsLogDb,
  memory-WritesSucceed,
}
use agent_native_db.Raft.LogEntry.{
  LogEntry, IsEntry, encode_log_entry, decode_log_entry, decode-encode_log_entry,
}
use agent_native_db.Raft.Storage.{found, missing, get_log, delete_range, last_index}
use agent_native_db.Raft.Storage.Laws.{get_log-store_log}
use agent_native_db.Raft.Storage.LastIndex.{le_last_index}
use agent_native_db.Raft.Node.{Node, reset_election_timer}
use agent_native_db.Raft.Vote.{VoteRequest, handle_request_vote, log_ok}
use agent_native_db.Raft.Election.{handle_vote_response}
use agent_native_db.Raft.Election.Late.{late_answer_frees_vote}
use agent_native_db.Raft.Append.{AppendRequest, append_locked}
use agent_native_db.Raft.Append.Log.{or_sent}
use agent_native_db.Raft.Append.Accept.{accepted_log, conflict_is_lost}
use agent_native_db.Raft.Apply.{collect_apply_ops}
use agent_native_db.Raft.Apply.Collected.{AreEntriesFrom, HasEntries, collected}
use agent_native_db.Raft.Command.{
  encode_cmd, decode_cmd, decoded, apply_cmd, panics, changed, config_change, cmd_batch,
}
use agent_native_db.Raft.Command.Format.{format}
use agent_native_db.Raft.Command.Codec.{decode-encode_cmd, decode_cmd-panics}
use agent_native_db.Raft.Command.Routing.{apply-set_or_delete, batch_taken_for_add_peer}
use agent_native_db.Raft.Txn.{txn_get, txn_set, txn_delete, txn_commit, txn_commit-lost}
use agent_native_db.Raft.Proposals.{proposed}
use agent_native_db.Raft.LogEntry.{log_add_peer}

-- The log.

decode-encode_log_entry_example : decode_log_entry (encode_log_entry entry) ≡ some entry
decode-encode_log_entry_example = decode-encode_log_entry entry entry-IsEntry

abbrev short : Bytes
short = 1 ∷ 2 ∷ []

stored-deleted : (delete_range memory stored 1 1).1 ≡ true
unfolding delete_range
stored-deleted = refl

entry_stored : get_log memory stored 1 ≡ found entry
entry_stored = get_log-store_log memory [] stored entry 1 entry-IsEntry (omega arith) stored-lem

stored_present : get_log memory stored 1 ≢ missing
stored_present =
    λ e. cc (get_log-store_log memory [] stored entry 1 entry-IsEntry (omega arith) stored-lem, e)

le_last_index_example : 1 ≤ last_index memory stored
le_last_index_example = le_last_index memory stored stored-IsLogDb 1 (omega arith) stored_present

last_index-stored : last_index memory stored ≡ 1
unfolding last_index agent_native_db.Raft.Badger.Memory.seek agent_native_db.Bytes.eq_bytes
    agent_native_db.Raft.Storage.log_key agent_native_db.Bytes.BigEndian.u64tob
    agent_native_db.Bytes.BigEndian.be agent_native_db.Bytes.has_prefix
    agent_native_db.Bytes.le_bytes agent_native_db.Bytes.BigEndian.btou64
    agent_native_db.Bytes.BigEndian.from_be
last_index-stored = refl

-- The handlers.

abbrev asked : VoteRequest
asked = record {
  term = 1;
  candidate_id = bob;
  last_log_index = 0;
  last_log_term = 0;
  pre_vote = false;
}

granted : (handle_request_vote fresh asked).1.vote_granted ≡ true
unfolding handle_request_vote agent_native_db.Bytes.eq_bytes
    agent_native_db.Raft.Node.get_last_log_term last_index agent_native_db.Raft.Badger.Memory.seek
    agent_native_db.Raft.Storage.set_string agent_native_db.Raft.Storage.stable_key
    agent_native_db.Bytes.has_prefix agent_native_db.Raft.Storage.set_uint64
granted = refl

abbrev pre_asked : VoteRequest
pre_asked = record asked { pre_vote = true }

-- A leader of term 2 sends an entry of that term for index 1.
abbrev newer : LogEntry
newer = record { index = 1; term = 2; type = 0; content = [] }

abbrev sends : List LogEntry → AppendRequest
sends es = record {
  term = 2;
  leader_id = bob;
  prev_log_index = 0;
  prev_log_term = 0;
  entries = es;
  leader_commit = 0;
}

newer-IsEntry : IsEntry newer
newer-IsEntry = record { index_fits = omega arith; term_fits = omega arith }

sends-accepted : (append_locked fresh (sends (newer ∷ []))).1.success ≡ true
unfolding append_locked get_log agent_native_db.Raft.Badger.Memory.read
    agent_native_db.Raft.Storage.set_string agent_native_db.Bytes.eq_bytes
    agent_native_db.Raft.Storage.stable_key agent_native_db.Raft.Storage.log_key
    agent_native_db.Raft.Storage.set_uint64 agent_native_db.Raft.Storage.store_log
sends-accepted = refl

empty_missing : get_log memory [] 1 ≡ missing
unfolding get_log agent_native_db.Raft.Badger.Memory.read
empty_missing = refl

accepted_log_example :
    get_log memory (append_locked fresh (sends (newer ∷ []))).0.db 1
    ≡ or_sent (get_log memory [] 1) 1 (newer ∷ [])
accepted_log_example =
    accepted_log fresh (sends (newer ∷ [])) 1 empty-IsLogDb (newer-IsEntry, omega arith, tt)
      ((λ x h. cc (empty_missing, h)), tt) sends-accepted 1 (omega arith)

conflicting-accepted : (append_locked leading (sends (newer ∷ []))).1.success ≡ true
unfolding append_locked get_log agent_native_db.Raft.Badger.Memory.read
    agent_native_db.Raft.Storage.set_string agent_native_db.Bytes.eq_bytes
    agent_native_db.Raft.Storage.stable_key agent_native_db.Raft.Storage.log_key
    agent_native_db.Raft.Storage.set_uint64 agent_native_db.Bytes.BigEndian.u64tob
    agent_native_db.Bytes.BigEndian.be decode_log_entry encode_log_entry
    agent_native_db.Bytes.BigEndian.btou64 agent_native_db.Bytes.BigEndian.from_be
conflicting-accepted = refl

conflict_is_lost_example :
    get_log memory (append_locked leading (sends (newer ∷ []))).0.db 1 ≡ missing
conflict_is_lost_example =
    conflict_is_lost memory-WritesSucceed leading (sends (newer ∷ [])) newer entry [] stored-IsLogDb
      refl (newer-IsEntry, omega arith, tt) (omega (arith, last_index-stored)) entry_stored
      (λ e. omega (arith, e)) conflicting-accepted

-- A node that has voted for Ann in term 1, and an answer of that term to an election from term 0.
abbrev voted : Node memory
voted = record fresh { current_term = 1; voted_for = ann }

voted-log_ok : log_ok voted asked ≡ true
unfolding log_ok agent_native_db.Raft.Node.get_last_log_term last_index
    agent_native_db.Raft.Badger.Memory.seek
voted-log_ok = refl

late_answer_frees_vote_example :
    (handle_request_vote
      (handle_vote_response voted 0 (some (record { term = 1; vote_granted = false }))).0
      asked).1.vote_granted
    ≡ true
late_answer_frees_vote_example =
    late_answer_frees_vote voted 0 (record { term = 1; vote_granted = false }) asked empty-IsLogDb
      (omega arith) refl refl refl voted-log_ok

-- The leader's entry is committed and not yet applied.
abbrev committed : Node memory
committed = record leading { commit_index = 1 }

committed-HasEntries : HasEntries memory stored 0 1
committed-HasEntries = λ i l h. (
  entry,
  get_log-store_log memory [] stored entry i entry-IsEntry (omega arith) stored-lem ∙ ground arith,
)

collected_example :
    AreEntriesFrom memory committed 1 (collect_apply_ops committed).1
    × (length (collect_apply_ops committed).1 + 0 ≡ 1)
    × ((collect_apply_ops committed).0.last_applied ≡ 1)
collected_example =
    collected committed (omega arith) (omega arith) stored-IsLogDb committed-HasEntries

-- Commands and transactions.

decode-encode_cmd_example :
    decode_cmd format (encode_cmd format (record { type = 0; key = ann; value = bob; ops = [] }))
    ≡ decoded (record { type = 0; key = ann; value = bob; ops = [] })
unfolding format
decode-encode_cmd_example =
    decode-encode_cmd format (record { type = 0; key = ann; value = bob; ops = [] }) (omega arith)

decode_cmd-panics_example : decode_cmd format (0 ∷ 255 ∷ 255 ∷ 255 ∷ 255 ∷ []) ≡ panics
unfolding agent_native_db.Bytes.BigEndian.from_be
decode_cmd-panics_example =
    decode_cmd-panics format (0 ∷ 255 ∷ 255 ∷ 255 ∷ 255 ∷ []) (omega arith) (omega arith)
      (omega arith)

apply-set_or_delete_example :
    apply_cmd format engine []
      (encode_cmd format (record { type = 0; key = ann; value = bob; ops = [] }))
    ≡ changed ((ann, some bob) ∷ [])
unfolding format
apply-set_or_delete_example =
    apply-set_or_delete format engine [] ann bob 0 ((ann, some bob) ∷ []) (omega arith)
      (inl (refl, refl))

abbrev op : WriteOp
op = record { type = put; key = ann; value = bob }

batch_taken_for_add_peer_example :
    apply_cmd format engine []
      (encode_cmd format (record { type = cmd_batch; key = []; value = []; ops = op ∷ [] }))
    ≡ config_change 2
        (encode_cmd format (record { type = cmd_batch; key = []; value = []; ops = op ∷ [] }))
batch_taken_for_add_peer_example = batch_taken_for_add_peer format engine [] (op ∷ [])

-- A deletion, then the setting of the same key.
abbrev deletion : List WriteOp
deletion = txn_delete [] ann

txn_commit-lost_example :
    (txn_get engine [] (txn_set deletion ann bob) ann ≡ some bob)
    × ((content : Bytes) × (txn_commit format true (txn_set deletion ann bob) ≡ proposed content)
        × (apply_cmd format engine [] content ≡ config_change log_add_peer content))
txn_commit-lost_example = txn_commit-lost engine [] format [] deletion ann bob
