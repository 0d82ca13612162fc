-- ===== src/Raft/Vote/Ballot.antt =====
-- What a vote request does to the term and the vote, in memory and in the storage.
use agent_native_db.Prelude.{ℕ, ◌<◌, ◌^◌, ◌≡◌, ◌≢◌, true, false, [], arith}
use agent_native_db.Bytes.{Bytes}
use agent_native_db.Bytes.Lex.{eq_bytes_iff}
use agent_native_db.Raft.Badger.{Badger}
use agent_native_db.Raft.Storage.SameBallot.{WritesSucceed}
use agent_native_db.Raft.Node.{Node}
use agent_native_db.Raft.Node.Ballot.{IsPersisted, Holds, stored_both, store_vote-recovered}
use agent_native_db.Raft.Vote.{VoteRequest, catch_up, cast_vote, handle_request_vote}

module _ {b : Badger} (ok : WritesSucceed b) where
  catch_up-IsPersisted :
      (t : ℕ) (n : Node b) → t < 2 ^ 64 → IsPersisted n → IsPersisted (catch_up t n)
  unfolding catch_up
  catch_up-IsPersisted t n h v = ground (arith, stored_both ok t [] n h)

  cast_vote-IsPersisted :
      (n : Node b) (req : VoteRequest) (t : ℕ) → IsPersisted n → IsPersisted (cast_vote n req t).0
  unfolding cast_vote
  cast_vote-IsPersisted n req t v = ground (arith, store_vote-recovered ok req.candidate_id n)

  pub vote-IsPersisted :
      (n : Node b) (req : VoteRequest)
      → req.term < 2 ^ 64
      → IsPersisted n
      → IsPersisted (handle_request_vote n req).0
  unfolding handle_request_vote
  vote-IsPersisted n req h v =
      let m = catch_up req.term n in
      ground (
        arith,
        cast_vote-IsPersisted m req req.term (catch_up-IsPersisted req.term n h v),
        cast_vote-IsPersisted m req n.current_term (catch_up-IsPersisted req.term n h v),
      )

module _ {b : Badger} where
  pub vote-Holds :
      (t : ℕ) (c : Bytes) (n : Node b) (req : VoteRequest)
      → c ≢ []
      → Holds t c n
      → Holds t c (handle_request_vote n req).0
  unfolding handle_request_vote
  vote-Holds t c n req h v = ground (
    arith,
    eq_bytes_iff n.voted_for [],
    eq_bytes_iff n.voted_for req.candidate_id,
    eq_bytes_iff [] [],
  )

  -- A vote that is granted is held from then on, and agrees with a vote of its term that is held.
  pub granted-Holds :
      (n : Node b) (req : VoteRequest)
      → req.pre_vote ≡ false
      → (handle_request_vote n req).1.vote_granted ≡ true
      → Holds req.term req.candidate_id (handle_request_vote n req).0
  unfolding handle_request_vote
  granted-Holds n req p g = ground arith

  pub granted-agrees :
      (c : Bytes) (n : Node b) (req : VoteRequest)
      → c ≢ []
      → req.pre_vote ≡ false
      → (handle_request_vote n req).1.vote_granted ≡ true
      → Holds req.term c n
      → req.candidate_id ≡ c
  unfolding handle_request_vote
  granted-agrees c n req h p g v =
      ground (arith, eq_bytes_iff n.voted_for [], eq_bytes_iff n.voted_for req.candidate_id)
