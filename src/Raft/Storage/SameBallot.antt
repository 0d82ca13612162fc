-- ===== src/Raft/Storage/SameBallot.antt =====
-- Which writes leave the term and the vote in the storage as they were.
use agent_native_db.Prelude.{
  ℕ, zero, suc, ◌+◌, ◌-◌, ◌<◌, ◌^◌, ◌≡◌, refl, ◌≢◌, ◌∙◌, inl, inr, true, false, Option, none, some,
  arith, Option-cases,
}
use agent_native_db.Bytes.{Bytes, eq_bytes}
use agent_native_db.Raft.Badger.{Badger, Batch, after_batch}
use agent_native_db.Raft.LogEntry.{LogEntry}
use agent_native_db.Raft.Storage.{
  set_uint64, get_uint64, get_string, store_log, delete_range, deletions, or_same, stable_key,
  key_current_term, key_voted_for,
}
use agent_native_db.Raft.Storage.Laws.{
  get_uint64-set_uint64, get_string-set_uint64, get_uint64-store_log, get_string-store_log,
  eq_bytes-log_stable_key,
}
use agent_native_db.Raft.Restart.{recovered_term, recovered_vote}

-- No write of the database fails.
pub record WritesSucceed (b : Badger) : Type 0 where
  pub set : (db : b.Db) (k v : Bytes) → b.set db k v ≢ none
  pub flush : (db : b.Db) (ops : Batch) → (b.flush db ops).1 ≡ true

-- The two databases recover the same term and the same vote.
pub record SameBallot (b : Badger) (db db' : b.Db) : Type 0 where
  pub term : recovered_term b db' ≡ recovered_term b db
  pub vote : recovered_vote b db' ≡ recovered_vote b db

module _ (b : Badger) where
  pub SameBallot-refl : (db : b.Db) → SameBallot b db db
  SameBallot-refl db = record { term = refl; vote = refl }

  pub SameBallot-trans :
      {db db' db'' : b.Db} → SameBallot b db db' → SameBallot b db' db'' → SameBallot b db db''
  SameBallot-trans p q = record { term = q.term ∙ p.term; vote = q.vote ∙ p.vote }

  pub set_uint64-SameBallot :
      (db : b.Db) (key : Bytes) (n : ℕ)
      → n < 2 ^ 64
      → eq_bytes key key_current_term ≡ false
      → eq_bytes key key_voted_for ≡ false
      → SameBallot b db (or_same db (set_uint64 b db key n))
  unfolding or_same recovered_term recovered_vote
  set_uint64-SameBallot db key n h t v = elim (Option-cases (set_uint64 b db key n)) [
    | inl e ↦ rw e (SameBallot-refl db)
    | inr (db', e) ↦ rw e (record {
      term = rw (get_uint64-set_uint64 b db db' key key_current_term n h e, t) refl;
      vote = rw (get_string-set_uint64 b db db' key key_voted_for n v e) refl;
    })
  ]

  pub store_log-SameBallot :
      (db db' : b.Db) (e : LogEntry) → store_log b db e ≡ some db' → SameBallot b db db'
  unfolding recovered_term recovered_vote
  store_log-SameBallot db db' e s = record {
    term = rw (get_uint64-store_log b db db' e key_current_term s) refl;
    vote = rw (get_string-store_log b db db' e key_voted_for s) refl;
  }

  after_deletions_stable :
      (n min : ℕ) (k : Bytes) (v : Option Bytes)
      → after_batch (deletions n min) (stable_key k) v ≡ v
  unfolding deletions
  after_deletions_stable zero min k v = refl
  after_deletions_stable (suc n) min k v =
      ground (arith, eq_bytes-log_stable_key min k, after_deletions_stable n (min + 1) k v)

module _ {b : Badger} (ok : WritesSucceed b) where
  pub delete_range-SameBallot :
      (db : b.Db) (min max : ℕ) → SameBallot b db (delete_range b db min max).0
  unfolding delete_range recovered_term recovered_vote get_uint64 get_string
  delete_range-SameBallot db min max =
      let ops = deletions (max + 1 - min) min in
      let same : (k : Bytes) → b.get (b.flush db ops).0 (stable_key k) ≡ b.get db (stable_key k) =
        λ k.
          b.get-flush db ops (stable_key k) (ok.flush db ops)
          ∙ after_deletions_stable b (max + 1 - min) min k (b.get db (stable_key k)) in
      record {
        term = ground (arith, same key_current_term);
        vote = ground (arith, same key_voted_for);
      }
