-- ===== src/Raft/Vote.antt =====
-- internal/raft/transport.go: HandleRequestVote.
pub mod Rules
pub mod Ballot
use agent_native_db.Prelude.{
  ℕ, Bool, true, false, [], ◌==◌, ◌&&◌, ◌||◌, ltb, leb, if◌then◌else◌, not,
}
use agent_native_db.Bytes.{Bytes, eq_bytes}
use agent_native_db.Raft.Badger.{Badger}
use agent_native_db.Raft.Node.{
  Node, follower, reset_election_timer, get_last_log_index, get_last_log_term, store_term,
  store_vote,
}

pub record VoteRequest : Type 0 where
  pub term : ℕ
  pub candidate_id : Bytes
  pub last_log_index : ℕ
  pub last_log_term : ℕ
  pub pre_vote : Bool

pub record VoteResponse : Type 0 where
  pub term : ℕ
  pub vote_granted : Bool

module _ {b : Badger} where
  -- The candidate's log is at least as new as the node's.
  unfoldable pub log_ok : Node b → VoteRequest → Bool
  log_ok n req =
      if ltb (get_last_log_term n) req.last_log_term
      then true
      else (req.last_log_term == get_last_log_term n
          && leb (get_last_log_index n) req.last_log_index)

  -- "if the request's term is larger, update the term and become a follower"
  catch_up : ℕ → Node b → Node b
  unfolding store_term store_vote
  catch_up term n =
      if ltb n.current_term term
      then record (store_vote [] (store_term term n)) { state = follower; leader_id = [] }
      else n

  -- From the check of `votedFor` on.
  cast_vote : Node b → VoteRequest → ℕ → Node b × VoteResponse
  unfolding store_vote log_ok
  cast_vote n req term =
      if not (eq_bytes n.voted_for [] || eq_bytes n.voted_for req.candidate_id)
      then (n, record { term = term; vote_granted = false })
      else if not (log_ok n req)
      then (n, record { term = term; vote_granted = false })
      else (
        record (store_vote req.candidate_id n) { state = follower },
        record { term = term; vote_granted = true },
      )

  -- The deferred reset of the timer.
  with_reset : Node b × VoteResponse → Node b × VoteResponse
  unfolding reset_election_timer
  with_reset (n, resp) = (reset_election_timer n, resp)

  unfoldable pub handle_request_vote : Node b → VoteRequest → Node b × VoteResponse
  unfolding catch_up cast_vote with_reset log_ok
  handle_request_vote n req =
      if ltb req.term n.current_term
      then with_reset (n, record { term = n.current_term; vote_granted = false })
      else if req.pre_vote
      then (n, record { term = n.current_term; vote_granted = log_ok n req })
      else with_reset (
          cast_vote (catch_up req.term n) req
            (if ltb n.current_term req.term then req.term else n.current_term))
