-- ===== src/Raft/Ballots/Examples.antt =====
-- The steps of a node at concrete inputs.
use agent_native_db.Prelude.{◌≡◌, refl, inl, inr, true, false, some, List, [], ◌∷◌, arith}
use agent_native_db.Bytes.{Bytes}
use agent_native_db.Raft.Badger.Memory.{memory, read}
use agent_native_db.Raft.Fixture.{bob, fresh, memory-WritesSucceed, fresh-IsPersisted}
use agent_native_db.Raft.Vote.{VoteRequest, handle_request_vote}
use agent_native_db.Raft.Node.Ballot.{IsPersisted}
use agent_native_db.Raft.Ballots.{Event, vote_requested, restarted, step, vote_of, Cast, AreTimely}
use agent_native_db.Raft.Ballots.Persisted.{step-IsPersisted}
use agent_native_db.Raft.Ballots.Single.{single_vote}
use agent_native_db.Raft.Ballots.Quorum.{Voter, AreHonest, one_winner}

-- Bob asks for a vote in term 1.
abbrev asked : VoteRequest
asked = record {
  term = 1;
  candidate_id = bob;
  last_log_index = 0;
  last_log_term = 0;
  pre_vote = false;
}

abbrev events : List Event
events = vote_requested asked ∷ restarted [] ∷ vote_requested asked ∷ []

events-AreTimely : AreTimely fresh events
events-AreTimely = ((omega arith, λ e. cc), (tt, ((omega arith, λ e. cc), tt)))

first_vote : vote_of fresh (vote_requested asked) ≡ some (1, bob)
unfolding vote_of handle_request_vote agent_native_db.Bytes.eq_bytes
    agent_native_db.Raft.Node.get_last_log_term agent_native_db.Raft.Storage.last_index
    agent_native_db.Raft.Badger.Memory.seek agent_native_db.Raft.Storage.set_string
    agent_native_db.Raft.Storage.stable_key agent_native_db.Bytes.has_prefix
    agent_native_db.Raft.Storage.set_uint64
first_vote = refl

second_vote :
    vote_of (step (step fresh (vote_requested asked)) (restarted [])) (vote_requested asked)
    ≡ some (1, bob)
unfolding vote_of step handle_request_vote agent_native_db.Raft.Restart.new_node
    agent_native_db.Raft.Storage.get_uint64 read agent_native_db.Bytes.eq_bytes
    agent_native_db.Raft.Node.get_last_log_term agent_native_db.Raft.Storage.last_index
    agent_native_db.Raft.Badger.Memory.seek agent_native_db.Raft.Storage.set_string
    agent_native_db.Raft.Storage.stable_key agent_native_db.Bytes.has_prefix
    agent_native_db.Raft.Storage.set_uint64 agent_native_db.Bytes.BigEndian.u64tob
    agent_native_db.Bytes.BigEndian.be agent_native_db.Bytes.BigEndian.btou64
    agent_native_db.Bytes.BigEndian.from_be agent_native_db.Raft.Storage.get_string
second_vote = refl

events-Cast : Cast 1 bob fresh events
events-Cast = inl first_vote

events-Cast-again : Cast 1 bob fresh events
events-Cast-again = inr (inr (inl second_vote))

step-IsPersisted_example : IsPersisted (step fresh (vote_requested asked))
step-IsPersisted_example =
    step-IsPersisted memory-WritesSucceed fresh (vote_requested asked) (omega arith, λ e. cc)
      fresh-IsPersisted

single_vote_example : bob ≡ bob
single_vote_example =
    single_vote memory-WritesSucceed 1 bob bob fresh events events-AreTimely fresh-IsPersisted
      events-Cast events-Cast-again

abbrev voter : Voter memory
voter = record { node = fresh; events = events; for_first = true; for_second = true }

abbrev idle : Voter memory
idle = record { node = fresh; events = []; for_first = false; for_second = false }

voters-AreHonest : AreHonest 1 bob bob (voter ∷ voter ∷ idle ∷ [])
voters-AreHonest = (
  events-AreTimely,
  fresh-IsPersisted,
  (λ e. events-Cast),
  (λ e. events-Cast-again),
  (
    events-AreTimely,
    fresh-IsPersisted,
    (λ e. events-Cast),
    (λ e. events-Cast),
    (tt, fresh-IsPersisted, (λ e. cc), (λ e. cc), tt),
  ),
)

one_winner_example : bob ≡ bob
one_winner_example =
    one_winner memory-WritesSucceed 1 bob bob (voter ∷ voter ∷ idle ∷ []) voters-AreHonest
      (omega arith) (omega arith)
