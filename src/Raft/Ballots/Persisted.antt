-- ===== src/Raft/Ballots/Persisted.antt =====
-- Each step of a node keeps the term and the vote of the storage those of the node.
use agent_native_db.Prelude.{◌<◌, ◌^◌, refl, none, some, [], arith}
use agent_native_db.Raft.Badger.{Badger}
use agent_native_db.Raft.Storage.SameBallot.{WritesSucceed}
use agent_native_db.Raft.Node.{Node, next64, step_down}
use agent_native_db.Raft.Node.Ballot.{IsPersisted, stored_both}
use agent_native_db.Raft.Vote.Ballot.{vote-IsPersisted}
use agent_native_db.Raft.Election.{campaign, stand_alone, handle_vote_response}
use agent_native_db.Raft.Append.{AppendRequest, follow, append_locked}
use agent_native_db.Raft.Append.SameBallot.{append_locked-KeepsBallot}
use agent_native_db.Raft.Apply.SameBallot.{KeepsBallot}
use agent_native_db.Raft.Restart.{new_node}
use agent_native_db.Raft.Ballots.{
  Event, vote_requested, append_requested, campaigned, stood_alone, answered, stepped_down,
  restarted, step, IsTimely,
}

module _ {b : Badger} where
  KeepsBallot-IsPersisted : {n m : Node b} → KeepsBallot n m → IsPersisted n → IsPersisted m
  KeepsBallot-IsPersisted k v = record {
    term = cc (k.stored.term, v.term, k.current_term);
    vote = cc (k.stored.vote, v.vote, k.voted_for);
  }

module _ {b : Badger} (ok : WritesSucceed b) where
  follow-IsPersisted :
      (n : Node b) (req : AppendRequest)
      → req.term < 2 ^ 64
      → IsPersisted n
      → IsPersisted (follow n req)
  unfolding follow
  follow-IsPersisted n req h v = ground (arith, stored_both ok req.term [] n h)

  append-IsPersisted :
      (n : Node b) (req : AppendRequest)
      → req.term < 2 ^ 64
      → req.leader_commit < 2 ^ 64
      → IsPersisted n
      → IsPersisted (append_locked n req).0
  append-IsPersisted n req h k v =
      KeepsBallot-IsPersisted (append_locked-KeepsBallot ok n req k)
        (ground (arith, follow-IsPersisted n req h v))

  -- Each step of a node leaves the stored term and the stored vote equal to those in memory, if they
  -- were before it, no write fails, and the step is timely.
  pub step-IsPersisted :
      (n : Node b) (e : Event) → IsTimely n e → IsPersisted n → IsPersisted (step n e)
  unfolding step
  step-IsPersisted n (vote_requested req) h v = vote-IsPersisted ok n req h.0 v
  step-IsPersisted n (append_requested req) h v = append-IsPersisted n req h.0 h.1 v
  step-IsPersisted n campaigned h v =
      unfold campaign in
      ground (arith, stored_both ok (next64 n.current_term) n.node_id n (omega arith))
  step-IsPersisted n stood_alone h v =
      unfold stand_alone in
      ground (arith, stored_both ok (next64 n.current_term) n.node_id n (omega arith))
  step-IsPersisted n (answered term none) h v = unfold handle_vote_response in v
  step-IsPersisted n (answered term (some r)) h v =
      unfold handle_vote_response in ground (arith, stored_both ok r.term [] n h.0)
  step-IsPersisted n (stepped_down term) h v =
      unfold step_down in ground (arith, stored_both ok term [] n h)
  step-IsPersisted n (restarted cluster) h v =
      unfold new_node in record { term = refl; vote = refl }
