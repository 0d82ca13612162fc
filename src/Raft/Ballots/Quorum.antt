-- ===== src/Raft/Ballots/Quorum.antt =====
-- Two majorities of the same nodes share one, so a term has one winner at most.
use agent_native_db.Prelude.{
  ℕ, ◌+◌, ◌*◌, ◌<◌, ◌≤◌, ◌≡◌, ◌⊎◌, inl, inr, Bool, true, false, ◌&&◌, List, [], ◌∷◌, length, arith,
  Bool-cases,
}
use agent_native_db.Bytes.{Bytes}
use agent_native_db.Raft.Badger.{Badger}
use agent_native_db.Raft.Storage.SameBallot.{WritesSucceed}
use agent_native_db.Raft.Node.{Node}
use agent_native_db.Raft.Node.Ballot.{IsPersisted}
use agent_native_db.Raft.Ballots.{Event, Cast, AreTimely}
use agent_native_db.Raft.Ballots.Single.{single_vote}

-- A node of the cluster with what happens to it, whether it votes for one candidate, and for another.
pub record Voter (b : Badger) : Type 0 where
  pub node : Node b
  pub events : List Event
  pub for_first : Bool
  pub for_second : Bool

abbrev one_if : Bool → ℕ
one_if true = 1
one_if false = 0

abbrev pub count_first : {b : Badger} → List (Voter b) → ℕ
count_first [] = 0
count_first (v ∷ vs) = one_if v.for_first + count_first vs

abbrev pub count_second : {b : Badger} → List (Voter b) → ℕ
count_second [] = 0
count_second (v ∷ vs) = one_if v.for_second + count_second vs

-- Each node's run is as in `single_vote`, and the votes that are counted were cast.
abbrev pub AreHonest : {b : Badger} → ℕ → Bytes → Bytes → List (Voter b) → Type 0
AreHonest t c d [] = Unit
AreHonest t c d (v ∷ vs) =
    AreTimely v.node v.events
    × IsPersisted v.node
    × (v.for_first ≡ true → Cast t c v.node v.events)
    × (v.for_second ≡ true → Cast t d v.node v.events)
    × AreHonest t c d vs

module _ {b : Badger} (ok : WritesSucceed b) (t : ℕ) (c d : Bytes) where
  agree_or_split :
      (vs : List (Voter b))
      → AreHonest t c d vs
      → (c ≡ d) ⊎ (count_first vs + count_second vs ≤ length vs)
  agree_or_split [] h = inr (omega arith)
  agree_or_split (v ∷ vs) h = elim (Bool-cases (v.for_first && v.for_second)) [
    | inl both ↦
        inl (single_vote ok t c d v.node v.events h.0 h.1 (h.2 (ground arith)) (h.3 (ground arith)))
    | inr one ↦ elim (agree_or_split vs h.4) [ inl e ↦ inl e | inr le ↦ inr (ground arith) ]
  ]

  -- Where no write fails, and each node of a cluster starts from a stored term and vote and takes
  -- timely steps, two candidates that each have the votes of more than half of the nodes in one
  -- term are the same candidate.
  pub one_winner :
      (vs : List (Voter b))
      → AreHonest t c d vs
      → length vs < count_first vs * 2
      → length vs < count_second vs * 2
      → c ≡ d
  one_winner vs h p q = elim (agree_or_split vs h) [ inl e ↦ e | inr le ↦ absurd (omega arith) ]
