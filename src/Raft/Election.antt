-- ===== src/Raft/Election.antt =====
-- internal/raft/run.go: startElection. The answers of the peers are arguments, in the order in which
-- they arrive; `none` is a call that failed.
pub mod Late
use agent_native_db.Prelude.{
  ℕ, suc, ◌+◌, ◌*◌, Bool, true, false, ◌&&◌, Option, none, some, List, [], ◌∷◌, ◌==◌, ltb,
  if◌then◌else◌, length,
}
use agent_native_db.Bytes.{Bytes, eq_bytes}
use agent_native_db.Bytes.Map.{Map}
use agent_native_db.Raft.Badger.{Badger}
use agent_native_db.Raft.Node.{
  Node, candidate, follower, is_candidate, Answer, next64, reset_election_timer, get_last_log_index,
  get_last_log_term, store_term, store_vote,
}
use agent_native_db.Raft.Vote.{VoteRequest, VoteResponse}
use agent_native_db.Raft.Apply.{Apply}
use agent_native_db.Raft.Leader.{become_leader}

-- The peers but for the node itself.
unfoldable pub other_peers : Bytes → Map Bytes → ℕ
other_peers self [] = 0
other_peers self ((id, addr) ∷ peers) =
    let rest = other_peers self peers in if eq_bytes id self then rest else suc rest

-- The rounds that count the votes; true as soon as they are a majority of n peers.
unfoldable pub tally : ℕ → ℕ → List Bool → Bool
tally n votes [] = false
tally n votes (granted ∷ rest) =
    let votes' = if granted then votes + 1 else votes in
    let later = tally n votes' rest in if ltb n (votes' * 2) then true else later

module _ {b : Badger} where
  unfoldable pub pre_vote_request : Node b → VoteRequest
  unfolding get_last_log_index get_last_log_term
  pre_vote_request n = record {
    term = next64 n.current_term;
    candidate_id = n.node_id;
    last_log_index = get_last_log_index n;
    last_log_term = get_last_log_term n;
    pre_vote = true;
  }

  unfoldable pub vote_request : Node b → VoteRequest
  unfolding get_last_log_index get_last_log_term
  vote_request n = record {
    term = n.current_term;
    candidate_id = n.node_id;
    last_log_index = get_last_log_index n;
    last_log_term = get_last_log_term n;
    pre_vote = false;
  }

  -- What the goroutine of a peer does with the answer, in both phases: a term above the one that the
  -- election began with is taken over. Both phases store the same values.
  unfoldable pub handle_vote_response : Node b → ℕ → Option VoteResponse → Node b × Bool
  unfolding store_term store_vote
  handle_vote_response n term none = (n, false)
  handle_vote_response n term (some resp) =
      if ltb term resp.term
      then (record (store_vote [] (store_term resp.term n)) { state = follower }, false)
      else (n, resp.vote_granted)

  -- In the second phase a vote counts only if the answer has the term of the election.
  unfoldable pub handle_real_vote_response : Node b → ℕ → Option VoteResponse → Node b × Bool
  unfolding handle_vote_response
  handle_real_vote_response n term none = handle_vote_response n term none
  handle_real_vote_response n term (some resp) =
      let (n', granted) = handle_vote_response n term (some resp) in
      (n', granted && resp.term == term)

  -- The answers one after the other.
  unfoldable pub handle_all :
      (Node b → Option VoteResponse → Node b × Bool)
      → Node b
      → List (Option VoteResponse)
      → Node b × List Bool
  handle_all handle n [] = (n, [])
  handle_all handle n (r ∷ rs) =
      let (n1, granted) = handle n r in
      let (n2, rest) = handle_all handle n1 rs in (n2, granted ∷ rest)

  -- "PreVote passed: start the real election", under the lock.
  unfoldable pub campaign : Node b → Node b
  unfolding store_term store_vote
  campaign n = record (store_vote n.node_id (store_term (next64 n.current_term) n)) {
    state = candidate;
    leader_id = [];
  }

  -- A node without other peers. The leader is not reset here.
  unfoldable pub stand_alone : Node b → Node b
  unfolding store_term store_vote
  stand_alone n = record (store_vote n.node_id (store_term (next64 n.current_term) n)) {
    state = candidate;
  }

  lose : Node b → Node b
  unfolding reset_election_timer
  lose n = reset_election_timer (if is_candidate n.state then record n { state = follower } else n)

  second_phase : Apply b → Node b → List (Option VoteResponse) → Node b × List (ℕ × Answer)
  unfolding handle_all handle_real_vote_response tally lose become_leader
  second_phase apply n responses =
      let (n1, votes) =
        handle_all (λ m r. handle_real_vote_response m n.current_term r) n responses in
      if tally (length n.peers) 1 votes then become_leader apply n1 else (lose n1, [])

  -- The whole of it, where no other handler runs in between: the answers to the first requests, and
  -- those to the second.
  unfoldable pub start_election :
      Apply b
      → Node b
      → List (Option VoteResponse)
      → List (Option VoteResponse)
      → Node b × List (ℕ × Answer)
  unfolding other_peers stand_alone campaign second_phase tally handle_all handle_vote_response
      reset_election_timer become_leader
  start_election apply n pre_responses responses =
      if other_peers n.node_id n.peers == 0
      then become_leader apply (stand_alone n)
      else (let (n1, granted) =
            handle_all (λ m r. handle_vote_response m n.current_term r) n pre_responses in
          if tally (length n.peers) 1 granted
          then second_phase apply (campaign n1) responses
          else (reset_election_timer n1, []))
