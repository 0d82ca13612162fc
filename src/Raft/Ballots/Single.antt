-- ===== src/Raft/Ballots/Single.antt =====
-- A node casts one vote in a term at most, over restarts too.
use agent_native_db.Prelude.{ℕ, ◌<◌, ◌^◌, ◌≡◌, ◌≢◌, sym, inl, inr, none, some, List, [], ◌∷◌, arith}
use agent_native_db.Bytes.{Bytes}
use agent_native_db.Raft.Badger.{Badger}
use agent_native_db.Raft.Storage.SameBallot.{WritesSucceed}
use agent_native_db.Raft.Node.{Node, step_down}
use agent_native_db.Raft.Node.Ballot.{IsPersisted, Holds}
use agent_native_db.Raft.Vote.Ballot.{vote-Holds, granted-Holds, granted-agrees}
use agent_native_db.Raft.Election.{campaign, stand_alone, handle_vote_response}
use agent_native_db.Raft.Append.{AppendRequest, follow, append_locked}
use agent_native_db.Raft.Append.SameBallot.{append_locked-KeepsBallot}
use agent_native_db.Raft.Restart.{new_node}
use agent_native_db.Raft.Ballots.{
  Event, vote_requested, append_requested, campaigned, stood_alone, answered, stepped_down,
  restarted, step, vote_of, Cast, IsTimely, AreTimely,
}
use agent_native_db.Raft.Ballots.Persisted.{step-IsPersisted}

module _ {b : Badger} (ok : WritesSucceed b) (t : ℕ) (c : Bytes) (named : c ≢ []) where
  follow-Holds : (n : Node b) (req : AppendRequest) → Holds t c n → Holds t c (follow n req)
  unfolding follow
  follow-Holds n req v = ground arith

  append-Holds :
      (n : Node b) (req : AppendRequest)
      → req.leader_commit < 2 ^ 64
      → Holds t c n
      → Holds t c (append_locked n req).0
  append-Holds n req h v =
      let k = append_locked-KeepsBallot ok n req h in
      let f = follow-Holds n req v in ground (arith, k.current_term, k.voted_for)

  -- A vote that is held stays held.
  step-Holds :
      (n : Node b) (e : Event) → IsTimely n e → IsPersisted n → Holds t c n → Holds t c (step n e)
  unfolding step
  step-Holds n (vote_requested req) h p v = vote-Holds t c n req named v
  step-Holds n (append_requested req) h p v = append-Holds n req h.1 v
  step-Holds n campaigned h p v = unfold campaign in ground arith
  step-Holds n stood_alone h p v = unfold stand_alone in ground arith
  step-Holds n (answered term none) h p v = unfold handle_vote_response in v
  step-Holds n (answered term (some r)) h p v = unfold handle_vote_response in ground arith
  step-Holds n (stepped_down term) h p v = unfold step_down in ground arith
  step-Holds n (restarted cluster) h p v = unfold new_node in ground (arith, p.term, p.vote)

  -- The vote that a step casts is held behind it.
  vote_of-Holds : (n : Node b) (e : Event) → vote_of n e ≡ some (t, c) → Holds t c (step n e)
  unfolding vote_of step
  vote_of-Holds n (vote_requested req) s = ground (arith, granted-Holds n req)
  vote_of-Holds n campaigned s = unfold campaign in ground arith
  vote_of-Holds n stood_alone s = unfold stand_alone in ground arith
  vote_of-Holds n (append_requested req) s = cc
  vote_of-Holds n (answered term r) s = cc
  vote_of-Holds n (stepped_down term) s = cc
  vote_of-Holds n (restarted cluster) s = cc

  -- A vote agrees with one of its term that is held before it.
  vote_of-agrees :
      (d : Bytes) (n : Node b) (e : Event)
      → IsTimely n e
      → Holds t c n
      → vote_of n e ≡ some (t, d)
      → d ≡ c
  unfolding vote_of
  vote_of-agrees d n (vote_requested req) h v s = ground (arith, granted-agrees c n req named)
  vote_of-agrees d n campaigned h v s = ground arith
  vote_of-agrees d n stood_alone h v s = ground arith
  vote_of-agrees d n (append_requested req) h v s = cc
  vote_of-agrees d n (answered term r) h v s = cc
  vote_of-agrees d n (stepped_down term) h v s = cc
  vote_of-agrees d n (restarted cluster) h v s = cc

  Cast-agrees :
      (d : Bytes) (n : Node b) (es : List Event)
      → AreTimely n es
      → IsPersisted n
      → Holds t c n
      → Cast t d n es
      → d ≡ c
  Cast-agrees d n [] h p v s = elim s [ ]
  Cast-agrees d n (e ∷ es) h p v (inl s) = vote_of-agrees d n e h.0 v s
  Cast-agrees d n (e ∷ es) h p v (inr s) =
      Cast-agrees d (step n e) es h.1 (step-IsPersisted ok n e h.0 p) (step-Holds n e h.0 p v) s

module _ {b : Badger} (ok : WritesSucceed b) where
  vote_of-named :
      (t : ℕ) (c : Bytes) (n : Node b) (e : Event)
      → IsTimely n e
      → vote_of n e ≡ some (t, c)
      → c ≢ []
  unfolding vote_of
  vote_of-named t c n (vote_requested req) h s = λ z. ground (arith, h.1)
  vote_of-named t c n campaigned h s = λ z. ground (arith, h.1)
  vote_of-named t c n stood_alone h s = λ z. ground (arith, h.1)
  vote_of-named t c n (append_requested req) h s = cc
  vote_of-named t c n (answered term r) h s = cc
  vote_of-named t c n (stepped_down term) h s = cc
  vote_of-named t c n (restarted cluster) h s = cc

  Cast-head :
      (t : ℕ) (c d : Bytes) (n : Node b) (e : Event) (es : List Event)
      → IsTimely n e
      → AreTimely (step n e) es
      → IsPersisted n
      → vote_of n e ≡ some (t, c)
      → Cast t d (step n e) es
      → d ≡ c
  Cast-head t c d n e es h hs p s later =
      Cast-agrees ok t c (vote_of-named t c n e h s) d (step n e) es hs
        (step-IsPersisted ok n e h p) (vote_of-Holds ok t c (vote_of-named t c n e h s) n e s) later

  -- In a run whose steps are timely, from a node whose term and vote are stored, and where no write
  -- fails, the node votes for one candidate in a term at most; restarts are among the steps.
  pub single_vote :
      (t : ℕ) (c d : Bytes) (n : Node b) (es : List Event)
      → AreTimely n es
      → IsPersisted n
      → Cast t c n es
      → Cast t d n es
      → c ≡ d
  single_vote t c d n [] h p r s = elim r [ ]
  single_vote t c d n (e ∷ es) h p (inl r) (inl s) = ground arith
  single_vote t c d n (e ∷ es) h p (inl r) (inr s) = sym (Cast-head t c d n e es h.0 h.1 p r s)
  single_vote t c d n (e ∷ es) h p (inr r) (inl s) = Cast-head t d c n e es h.0 h.1 p s r
  single_vote t c d n (e ∷ es) h p (inr r) (inr s) =
      single_vote t c d (step n e) es h.1 (step-IsPersisted ok n e h.0 p) r s
