-- ===== src/Raft/Append.antt =====
-- internal/raft/transport.go: HandleAppendEntries.
pub mod SameBallot
pub mod Log
pub mod Conflict
pub mod Accept
use agent_native_db.Prelude.{
  ℕ, zero, suc, min, Bool, true, false, Option, none, some, List, [], ◌∷◌, ◌==◌, ltb, leb,
  if◌then◌else◌,
}
use agent_native_db.Bytes.{Bytes}
use agent_native_db.Raft.Badger.{Badger}
use agent_native_db.Raft.LogEntry.{LogEntry}
use agent_native_db.Raft.Storage.{
  found, missing, corrupt, get_log, store_log, delete_range, last_index,
}
use agent_native_db.Raft.Node.{
  Node, follower, Answer, next64, reset_election_timer, get_last_log_index, store_term, store_vote,
  store_commit,
}
use agent_native_db.Raft.Apply.{ApplyOp, Apply, collect_apply_ops, do_apply}

pub record AppendRequest : Type 0 where
  pub term : ℕ
  pub leader_id : Bytes
  pub prev_log_index : ℕ
  pub prev_log_term : ℕ
  pub entries : List LogEntry
  pub leader_commit : ℕ

pub record AppendResponse : Type 0 where
  pub term : ℕ
  pub success : Bool
  pub conflict_index : ℕ

module _ (b : Badger) where
  -- The first index of a run of entries of one term that ends at an index.
  first_of_term : ℕ → ℕ → b.Db → ℕ
  first_of_term term zero db = zero
  first_of_term term (suc i) db = elim (get_log b db i) [
    | found e ↦ if e.term == term then first_of_term term i db else suc i
    | _ ↦ suc i
  ]

  -- The consistency check: the conflict index of the refusal, or `none` if the log agrees.
  unfoldable pub check_prev : b.Db → ℕ → ℕ → Option ℕ
  unfolding first_of_term
  check_prev db prev_index prev_term =
      if prev_index == 0
      then none
      else if ltb (last_index b db) prev_index
      then some (next64 (last_index b db))
      else elim (get_log b db prev_index) [
        | found e ↦ if e.term == prev_term then none else some (first_of_term e.term prev_index db)
        | missing ↦ some 1
        | corrupt ↦ some (first_of_term 0 prev_index db)
      ]

  -- "delete the conflicting entry and all behind it"
  delete_conflict : b.Db → LogEntry → b.Db
  delete_conflict db entry =
      if leb entry.index (last_index b db)
      then (delete_range b db entry.index (last_index b db)).0
      else db

  -- One round of the loop over the new entries; `none` is the error of the storage. The test
  -- `err != nil` that guards StoreLog is on the read before the deletion.
  unfoldable pub append_entry : b.Db → LogEntry → Option b.Db
  unfolding delete_conflict
  append_entry db entry = elim (get_log b db entry.index) [
    | found existing ↦
        if existing.term == entry.term then some db else some (delete_conflict db entry)
    | _ ↦ store_log b db entry
  ]

  -- The log after the loop, and whether it ran to its end.
  unfoldable pub append_all : b.Db → List LogEntry → b.Db × Bool
  unfolding append_entry
  append_all db [] = (db, true)
  append_all db (entry ∷ entries) = elim (append_entry db entry) [
    | none ↦ (db, false)
    | some db' ↦ append_all db' entries
  ]

module _ {b : Badger} where
  -- The sender's term is the node's own, or larger: the sender is the leader.
  unfoldable pub follow : Node b → AppendRequest → Node b
  unfolding store_term store_vote
  follow n req =
      let n1 = if ltb n.current_term req.term then store_vote [] (store_term req.term n) else n in
      record n1 { state = follower; leader_id = req.leader_id; ticking = false }

  advance_to : Node b → ℕ → Node b × List ApplyOp
  unfolding store_commit collect_apply_ops
  advance_to n leader_commit =
      if ltb n.commit_index leader_commit
      then collect_apply_ops (store_commit (min leader_commit (get_last_log_index n)) n)
      else (n, [])

  -- Behind the consistency check.
  append_checked : Node b → AppendRequest → Node b × AppendResponse × List ApplyOp
  unfolding append_all advance_to
  append_checked n req =
      let (db', all) = append_all b n.db req.entries in
      let n1 = record n { db = db' } in
      if all
      then (let (n2, ops) = advance_to n1 req.leader_commit in
          (n2, record { term = req.term; success = true; conflict_index = 0 }, ops))
      else (n1, record { term = req.term; success = false; conflict_index = 0 }, [])

  -- The part under the lock, with the entries that are to be applied behind it.
  unfoldable pub append_locked : Node b → AppendRequest → Node b × AppendResponse × List ApplyOp
  unfolding follow check_prev append_checked
  append_locked n req =
      if ltb req.term n.current_term
      then (n, record { term = n.current_term; success = false; conflict_index = 0 }, [])
      else elim (check_prev b (follow n req).db req.prev_log_index req.prev_log_term) [
        | some conflict ↦ (
          follow n req,
          record { term = req.term; success = false; conflict_index = conflict },
          [],
        )
        | none ↦ append_checked (follow n req) req
      ]

  unfoldable pub handle_append_entries :
      Apply b → Node b → AppendRequest → Node b × AppendResponse × List (ℕ × Answer)
  unfolding append_locked do_apply reset_election_timer
  handle_append_entries apply n req =
      let (n1, resp, ops) = append_locked n req in
      let (n2, answers) = do_apply apply n1 ops in (reset_election_timer n2, resp, answers)
