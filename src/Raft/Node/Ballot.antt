-- ===== src/Raft/Node/Ballot.antt =====
-- The term and the vote in the storage are those of the node, so a restart changes neither.
use agent_native_db.Prelude.{ℕ, ◌<◌, ◌^◌, ◌≡◌, refl, ◌∙◌, ◌⊎◌, inl, inr, some, arith, Option-cases}
use agent_native_db.Bytes.{Bytes, eq_bytes}
use agent_native_db.Raft.Badger.{Badger}
use agent_native_db.Raft.Storage.{set_uint64, set_string, key_current_term, key_voted_for}
use agent_native_db.Raft.Storage.Laws.{
  get_uint64-set_uint64, get_uint64-set_string, get_string-set_string, get_string-set_uint64,
}
use agent_native_db.Raft.Storage.SameBallot.{WritesSucceed}
use agent_native_db.Raft.Node.{Node, store_term, store_vote}
use agent_native_db.Raft.Restart.{recovered_term, recovered_vote}

pub record IsPersisted {b : Badger} (n : Node b) : Type 0 where
  pub term : recovered_term b n.db ≡ n.current_term
  pub vote : recovered_vote b n.db ≡ n.voted_for

-- The node's term is past `t`, or it is `t` and the node's vote is `c`.
abbrev pub Holds : {b : Badger} → ℕ → Bytes → Node b → Type 0
Holds t c n = (t < n.current_term) ⊎ ((n.current_term ≡ t) × (n.voted_for ≡ c))

module _ {b : Badger} (ok : WritesSucceed b) where
  pub set_uint64-some :
      (db : b.Db) (k : Bytes) (v : ℕ) → (db' : b.Db) × (set_uint64 b db k v ≡ some db')
  unfolding set_uint64
  set_uint64-some db k v = elim (Option-cases (set_uint64 b db k v)) [
    | inl e ↦ absurd (ok.set db _ _ e)
    | inr r ↦ r
  ]

  set_string-some : (db : b.Db) (k v : Bytes) → (db' : b.Db) × (set_string b db k v ≡ some db')
  unfolding set_string
  set_string-some db k v = elim (Option-cases (set_string b db k v)) [
    | inl e ↦ absurd (ok.set db _ _ e)
    | inr r ↦ r
  ]

  store_term-recovered :
      (t : ℕ) (n : Node b)
      → t < 2 ^ 64
      → (recovered_term b (store_term t n).db ≡ t)
        × (recovered_vote b (store_term t n).db ≡ recovered_vote b n.db)
  unfolding store_term recovered_term recovered_vote eq_bytes
  store_term-recovered t n h =
      let (db', e) = set_uint64-some n.db key_current_term t in
      ground (
        arith,
        e,
        get_uint64-set_uint64 b n.db db' key_current_term key_current_term t h e,
        get_string-set_uint64 b n.db db' key_current_term key_voted_for t refl e,
      )

  pub store_vote-recovered :
      (id : Bytes) (n : Node b)
      → (recovered_term b (store_vote id n).db ≡ recovered_term b n.db)
        × (recovered_vote b (store_vote id n).db ≡ id)
  unfolding store_vote recovered_term recovered_vote eq_bytes
  store_vote-recovered id n =
      let (db', e) = set_string-some n.db key_voted_for id in
      ground (
        arith,
        e,
        get_string-set_string b n.db db' key_voted_for key_voted_for id e,
        get_uint64-set_string b n.db db' key_voted_for key_current_term id refl e,
      )

  -- A term and a vote that are stored one after the other are both recovered.
  pub stored_both :
      (t : ℕ) (id : Bytes) (n : Node b)
      → t < 2 ^ 64
      → (recovered_term b (store_vote id (store_term t n)).db ≡ t)
        × (recovered_vote b (store_vote id (store_term t n)).db ≡ id)
  stored_both t id n h =
      let first = store_term-recovered t n h in
      let second = store_vote-recovered id (store_term t n) in (second.0 ∙ first.0, second.1)
