-- ===== src/Raft/Ballots.antt =====
-- The steps of a node that can change its term or its vote, in any order, and the votes that it
-- casts: internal/raft/transport.go and run.go. What the Apply callback does is not among
-- them, nor is applyCommitted, which but for that callback leaves the term and the vote alone.
pub mod Persisted
pub mod Single
pub mod Quorum
mod Examples
use agent_native_db.Prelude.{
  ℕ, ◌+◌, ◌<◌, ◌^◌, ◌≡◌, ◌≢◌, ◌⊎◌, Bool, true, false, not, ◌&&◌, Option, none, some, List, [], ◌∷◌,
  if◌then◌else◌,
}
use agent_native_db.Bytes.{Bytes}
use agent_native_db.Bytes.Map.{Map}
use agent_native_db.Raft.Badger.{Badger}
use agent_native_db.Raft.Node.{Node, next64, step_down}
use agent_native_db.Raft.Vote.{VoteRequest, VoteResponse, handle_request_vote}
use agent_native_db.Raft.Append.{AppendRequest, append_locked}
use agent_native_db.Raft.Election.{campaign, stand_alone, handle_vote_response}
use agent_native_db.Raft.Restart.{new_node}

pub data Event : Type 0 where
  vote_requested : VoteRequest → Event
  append_requested : AppendRequest → Event
  campaigned : Event
  -- The election of a node without other peers.
  stood_alone : Event
  -- The term that the election began with, and the answer.
  answered : ℕ → Option VoteResponse → Event
  stepped_down : ℕ → Event
  -- A new node on the same database.
  restarted : Map Bytes → Event

module _ {b : Badger} where
  pub step : Node b → Event → Node b
  step n (vote_requested req) = (handle_request_vote n req).0
  step n (append_requested req) = (append_locked n req).0
  step n campaigned = campaign n
  step n stood_alone = stand_alone n
  step n (answered term r) = (handle_vote_response n term r).0
  step n (stepped_down term) = step_down term n
  step n (restarted cluster) = new_node b n.node_id n.peers cluster n.db

  -- The vote that a step casts, with its term.
  pub vote_of : Node b → Event → Option (ℕ × Bytes)
  vote_of n (vote_requested req) =
      if (handle_request_vote n req).1.vote_granted && not req.pre_vote
      then some (req.term, req.candidate_id)
      else none
  vote_of n campaigned = some (next64 n.current_term, n.node_id)
  vote_of n stood_alone = some (next64 n.current_term, n.node_id)
  vote_of n _ = none

  -- A run of the node casts a vote for `c` in the term `t`.
  abbrev pub Cast : ℕ → Bytes → Node b → List Event → Type 0
  Cast t c n [] = ⊥
  Cast t c n (e ∷ es) = (vote_of n e ≡ some (t, c)) ⊎ Cast t c (step n e) es

  -- Terms are words of 64 bits that do not overflow, candidates have a name, and an answer with a
  -- larger term comes before the node has reached that term by another way.
  abbrev pub IsTimely : Node b → Event → Type 0
  IsTimely n (vote_requested req) = (req.term < 2 ^ 64) × (req.candidate_id ≢ [])
  IsTimely n (append_requested req) = (req.term < 2 ^ 64) × (req.leader_commit < 2 ^ 64)
  IsTimely n campaigned = (n.current_term + 1 < 2 ^ 64) × (n.node_id ≢ [])
  IsTimely n stood_alone = (n.current_term + 1 < 2 ^ 64) × (n.node_id ≢ [])
  IsTimely n (answered term none) = Unit
  IsTimely n (answered term (some resp)) =
      (resp.term < 2 ^ 64) × (term < resp.term → n.current_term < resp.term)
  IsTimely n (stepped_down term) = term < 2 ^ 64
  IsTimely n (restarted cluster) = Unit

  abbrev pub AreTimely : Node b → List Event → Type 0
  AreTimely n [] = Unit
  AreTimely n (e ∷ es) = IsTimely n e × AreTimely (step n e) es
