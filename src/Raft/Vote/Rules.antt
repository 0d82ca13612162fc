-- ===== src/Raft/Vote/Rules.antt =====
-- When a vote is granted, and what it changes.
use agent_native_db.Prelude.{
  ◌≤◌, ◌<◌, ◌≡◌, refl, ◌↔◌, ◌⊎◌, inl, inr, true, false, [], arith, Bool-cases, ltb,
}
use agent_native_db.Bytes.Lex.{eq_bytes_iff}
use agent_native_db.Raft.Badger.{Badger}
use agent_native_db.Raft.Node.{Node, reset_election_timer, store_term}
use agent_native_db.Raft.Node.SameLog.{
  store_term-SameLog, store_vote-SameLog, get_last_log_index-SameLog, get_last_log_term-SameLog,
}
use agent_native_db.Raft.Storage.LastIndex.{IsLogDb}
use agent_native_db.Raft.Storage.Keeps.{SameLog, SameLog-refl, SameLog-trans}
use agent_native_db.Raft.Vote.{VoteRequest, log_ok, catch_up, handle_request_vote}

module _ {b : Badger} (n : Node b) (req : VoteRequest) where
  -- Whatever is asked, the node's term does not fall, and the answer carries the term that it has then.
  pub term-handle_request_vote :
      (n.current_term ≤ (handle_request_vote n req).0.current_term)
      × ((handle_request_vote n req).1.term ≡ (handle_request_vote n req).0.current_term)
  unfolding handle_request_vote
  term-handle_request_vote = ground arith

  -- A pre-vote changes at most the timer of the node.
  pub pre_vote_changes_nothing :
      req.pre_vote ≡ true
      → ((handle_request_vote n req).0 ≡ n)
        ⊎ ((handle_request_vote n req).0 ≡ reset_election_timer n)
  unfolding handle_request_vote
  pre_vote_changes_nothing h = ground arith

  catch_up-SameLog : IsLogDb b n.db → SameLog b n.db (catch_up req.term n).db
  unfolding catch_up
  catch_up-SameLog v =
      let s = store_term-SameLog req.term n v in
      elim (Bool-cases (ltb n.current_term req.term)) [
        | inl up ↦
            rw up (SameLog-trans b s (store_vote-SameLog [] (store_term req.term n) s.is_log))
        | inr same ↦ rw same (SameLog-refl b n.db v)
      ]

  log_ok-catch_up : IsLogDb b n.db → log_ok (catch_up req.term n) req ≡ log_ok n req
  unfolding log_ok
  log_ok-catch_up v =
      let s = catch_up-SameLog v in
      rw
        (
          get_last_log_term-SameLog n (catch_up req.term n) v s,
          get_last_log_index-SameLog n (catch_up req.term n) v s,
        )
        refl

  pub granted_iff :
      IsLogDb b n.db
      → req.pre_vote ≡ false
      → ((handle_request_vote n req).1.vote_granted ≡ true) ↔ (
          (n.current_term ≤ req.term)
          × ((n.current_term < req.term) ⊎ ((n.voted_for ≡ []) ⊎ (n.voted_for ≡ req.candidate_id)))
          × (log_ok n req ≡ true))
  unfolding handle_request_vote
  granted_iff v h = ground (
    arith,
    log_ok-catch_up v,
    eq_bytes_iff n.voted_for [],
    eq_bytes_iff n.voted_for req.candidate_id,
    eq_bytes_iff [] [],
  )

  -- A vote that is granted to a request that is no pre-vote is the node's vote of the request's
  -- term from then on.
  pub vote-handle_request_vote :
      req.pre_vote ≡ false
      → (handle_request_vote n req).1.vote_granted ≡ true
      → ((handle_request_vote n req).0.current_term ≡ req.term)
        × ((handle_request_vote n req).0.voted_for ≡ req.candidate_id)
  unfolding handle_request_vote
  vote-handle_request_vote h g = ground arith
