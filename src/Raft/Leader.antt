-- ===== src/Raft/Leader.antt =====
-- internal/raft/run.go: becomeLeader, replicateToPeer and handleProposal.
use agent_native_db.Prelude.{
  ℕ, ◌-◌, true, not, ◌||◌, Option, none, some, List, [], ◌∷◌, ◌==◌, ltb, leb, if◌then◌else◌, length,
}
use agent_native_db.Bytes.{Bytes, eq_bytes}
use agent_native_db.Bytes.Map.{Map, insert, get_or}
use agent_native_db.Raft.Badger.{Badger}
use agent_native_db.Raft.LogEntry.{LogEntry, log_no_op, log_command}
use agent_native_db.Raft.Storage.{get_log, store_log, log_entries}
use agent_native_db.Raft.Node.{
  Node, leader, is_leader, Answer, not_leader, store_failed, next64, prev64, term_of,
  get_last_log_index, store_commit, step_down,
}
use agent_native_db.Raft.Apply.{Apply, collect_apply_ops, do_apply}
use agent_native_db.Raft.Append.{AppendRequest, AppendResponse}
use agent_native_db.Raft.Commit.{advance_commit_index}

-- nextIndex and matchIndex of the other peers at the start of a term of office.
unfoldable pub fill : Bytes → ℕ → Map Bytes → Map ℕ → Map ℕ
fill self v [] m = m
fill self v ((id, addr) ∷ peers) m =
    fill self v peers (if eq_bytes id self then m else insert id v m)

-- The index of the last entry that was sent.
last_sent : ℕ → List LogEntry → ℕ
last_sent index [] = index
last_sent index (e ∷ es) = last_sent e.index es

module _ {b : Badger} where
  -- The first part under the lock, for a node that is no leader.
  unfoldable pub take_office : Node b → Node b
  unfolding fill get_last_log_index
  take_office n = record n {
    state = leader;
    leader_id = n.node_id;
    ticking = true;
    next_index = fill n.node_id (next64 (get_last_log_index n)) n.peers n.next_index;
    match_index = insert n.node_id (get_last_log_index n) (fill n.node_id 0 n.peers n.match_index);
  }

  -- A cluster of one node commits at once.
  commit_alone : Apply b → Node b → ℕ → Node b × List (ℕ × Answer)
  unfolding store_commit collect_apply_ops do_apply
  commit_alone apply n index =
      if length n.peers == 1
      then (let (n1, ops) = collect_apply_ops (store_commit index n) in do_apply apply n1 ops)
      else (n, [])

  -- The second part: an entry of no operation behind the last index that the first part read.
  unfoldable pub append_no_op : Apply b → Node b → ℕ → Node b × List (ℕ × Answer)
  unfolding commit_alone
  append_no_op apply n last =
      let entry : LogEntry = record {
        term = n.current_term;
        index = next64 last;
        type = log_no_op;
        content = [];
      } in
      elim (store_log b n.db entry) [
        | none ↦ (n, [])
        | some db' ↦
            commit_alone apply
              (record n { db = db'; match_index = insert n.node_id (next64 last) n.match_index })
              (next64 last)
      ]

  unfoldable pub become_leader : Apply b → Node b → Node b × List (ℕ × Answer)
  unfolding take_office append_no_op
  become_leader apply n =
      if is_leader n.state
      then (n, [])
      else append_no_op apply (take_office n) (get_last_log_index n)

  unfoldable pub handle_proposal : Apply b → Node b → ℕ → Bytes → Node b × List (ℕ × Answer)
  unfolding commit_alone
  handle_proposal apply n p cmd =
      let idx = next64 (get_last_log_index n) in
      let entry : LogEntry = record {
        term = n.current_term;
        index = idx;
        type = log_command;
        content = cmd;
      } in
      if not (is_leader n.state) then (n, (p, not_leader) ∷ []) else elim (store_log b n.db entry) [
        | none ↦ (n, (p, store_failed) ∷ [])
        | some db' ↦
            commit_alone apply
              (record n {
                db = db';
                proposals = λ j. if j == idx then some p else n.proposals j;
                match_index = insert n.node_id idx n.match_index;
                next_index = insert n.node_id (next64 idx) n.next_index;
              })
              idx
      ]

  -- replicateToPeer up to the call: the request, or `none` where the entries could not be read.
  unfoldable pub replication_request : Node b → Bytes → ℕ → ℕ → Option AppendRequest
  unfolding term_of get_last_log_index
  replication_request n peer term commit =
      let next = get_or 0 peer n.next_index in
      let request : List LogEntry → AppendRequest = λ entries. record {
        term = term;
        leader_id = n.node_id;
        prev_log_index = prev64 next;
        prev_log_term = if ltb 0 (prev64 next) then term_of (get_log b n.db (prev64 next)) else 0;
        entries = entries;
        leader_commit = commit;
      } in
      if leb next (get_last_log_index n)
      then elim (log_entries b n.db next (next64 (get_last_log_index n)) 1048576) [
        | none ↦ none
        | some entries ↦ some (request entries)
      ]
      else some (request [])

  -- nextIndex and matchIndex of a peer that has accepted the entries.
  record_success : Node b → Bytes → ℕ → List LogEntry → Node b
  unfolding last_sent
  record_success n peer next [] = record n { next_index = insert peer next n.next_index }
  record_success n peer next (e ∷ es) = record n {
    next_index = insert peer (next64 (last_sent e.index es)) n.next_index;
    match_index = insert peer (last_sent e.index es) n.match_index;
  }

  -- replicateToPeer behind the call, with the nextIndex, the term and the entries that were sent.
  unfoldable pub handle_append_response :
      Apply b → Node b → Bytes → ℕ → ℕ → List LogEntry → AppendResponse → Node b × List (ℕ × Answer)
  unfolding record_success step_down advance_commit_index
  handle_append_response apply n peer term next entries resp =
      if ltb term resp.term
      then (step_down resp.term n, [])
      else if not (is_leader n.state) || not (resp.term == term)
      then (n, [])
      else if resp.success
      then advance_commit_index apply (record_success n peer next entries)
      else (if ltb 1 (get_or 0 peer n.next_index)
          then (
            record n { next_index = insert peer (get_or 0 peer n.next_index - 1) n.next_index },
            [],
          )
          else (n, []))
