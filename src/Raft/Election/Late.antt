-- ===== src/Raft/Election/Late.antt =====
-- What an answer to an earlier election does.
use agent_native_db.Prelude.{◌<◌, ◌≡◌, refl, ◌∙◌, inl, inr, true, false, some, [], ℕ, arith}
use agent_native_db.Raft.Badger.{Badger}
use agent_native_db.Raft.Node.{Node, store_term}
use agent_native_db.Raft.Node.SameLog.{
  store_term-SameLog, store_vote-SameLog, get_last_log_index-SameLog, get_last_log_term-SameLog,
}
use agent_native_db.Raft.Storage.LastIndex.{IsLogDb}
use agent_native_db.Raft.Storage.Keeps.{SameLog, SameLog-trans}
use agent_native_db.Raft.Vote.{VoteRequest, VoteResponse, log_ok, handle_request_vote}
use agent_native_db.Raft.Vote.Rules.{granted_iff}
use agent_native_db.Raft.Election.{handle_vote_response}

module _ {b : Badger} (n : Node b) where
  late-SameLog :
      (term : ℕ) (resp : VoteResponse)
      → term < resp.term
      → IsLogDb b n.db
      → SameLog b n.db (handle_vote_response n term (some resp)).0.db
  unfolding handle_vote_response
  late-SameLog term resp late v =
      let s = store_term-SameLog resp.term n v in
      let t = SameLog-trans b s (store_vote-SameLog [] (store_term resp.term n) s.is_log) in
      ground (arith, t)

  late-log_ok :
      (term : ℕ) (resp : VoteResponse) (req : VoteRequest)
      → term < resp.term
      → IsLogDb b n.db
      → log_ok (handle_vote_response n term (some resp)).0 req ≡ log_ok n req
  unfolding log_ok
  late-log_ok term resp req late v =
      let s = late-SameLog term resp late v in
      let m = (handle_vote_response n term (some resp)).0 in
      rw (get_last_log_term-SameLog n m v s, get_last_log_index-SameLog n m v s) refl

  -- With a well-formed log, if an answer to an earlier election carries the node's present term,
  -- the node then grants a vote of that term to any candidate with a log that is as new as its
  -- own, whomever it has voted for.
  pub late_answer_frees_vote :
      (term : ℕ) (resp : VoteResponse) (req : VoteRequest)
      → IsLogDb b n.db
      → term < resp.term
      → resp.term ≡ n.current_term
      → req.term ≡ n.current_term
      → req.pre_vote ≡ false
      → log_ok n req ≡ true
      → (handle_request_vote (handle_vote_response n term (some resp)).0 req).1.vote_granted ≡ true
  late_answer_frees_vote term resp req v late now same real newer =
      let m = (handle_vote_response n term (some resp)).0 in
      let at : (m.current_term ≡ resp.term) × (m.voted_for ≡ []) =
        unfold handle_vote_response in ground arith in
      (granted_iff m req (late-SameLog term resp late v).is_log real).1
        (omega (arith, at.0), inr (inl (at.1)), late-log_ok term resp req late v ∙ newer)
