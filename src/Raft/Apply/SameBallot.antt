-- ===== src/Raft/Apply/SameBallot.antt =====
-- Collecting the entries to apply touches neither the term nor the vote.
use agent_native_db.Prelude.{ℕ, zero, suc, ◌-◌, ◌<◌, ◌^◌, ◌≡◌, refl, ◌∙◌, ◌⊎◌, inl, inr, arith}
use agent_native_db.Bytes.{eq_bytes}
use agent_native_db.Raft.Badger.{Badger}
use agent_native_db.Raft.Storage.{LogRead, found, missing, corrupt, key_last_applied}
use agent_native_db.Raft.Storage.SameBallot.{
  SameBallot, SameBallot-refl, SameBallot-trans, set_uint64-SameBallot,
}
use agent_native_db.Raft.Node.{Node, next64}
use agent_native_db.Raft.Apply.{take_entry, collect, collect_apply_ops}

-- The node has the term and the vote of another, in memory and in the storage, and the same name.
pub record KeepsBallot {b : Badger} (n m : Node b) : Type 0 where
  pub current_term : m.current_term ≡ n.current_term
  pub voted_for : m.voted_for ≡ n.voted_for
  pub node_id : m.node_id ≡ n.node_id
  pub stored : SameBallot b n.db m.db

LogRead-cases : (r : LogRead) → ((e : _) × (r ≡ found e)) ⊎ ((r ≡ missing) ⊎ (r ≡ corrupt))
LogRead-cases (found e) = inl (e, refl)
LogRead-cases missing = inr (inl refl)
LogRead-cases corrupt = inr (inr refl)

module _ {b : Badger} where
  pub KeepsBallot-refl : (n : Node b) → KeepsBallot n n
  KeepsBallot-refl n = record {
    current_term = refl;
    voted_for = refl;
    node_id = refl;
    stored = SameBallot-refl b n.db;
  }

  pub KeepsBallot-trans : {n m k : Node b} → KeepsBallot n m → KeepsBallot m k → KeepsBallot n k
  KeepsBallot-trans p q = record {
    current_term = q.current_term ∙ p.current_term;
    voted_for = q.voted_for ∙ p.voted_for;
    node_id = q.node_id ∙ p.node_id;
    stored = SameBallot-trans b p.stored q.stored;
  }

  take_entry-KeepsBallot : (idx : ℕ) (n : Node b) → idx < 2 ^ 64 → KeepsBallot n (take_entry idx n)
  unfolding take_entry eq_bytes
  take_entry-KeepsBallot idx n h = record {
    current_term = refl;
    voted_for = refl;
    node_id = refl;
    stored = set_uint64-SameBallot b n.db key_last_applied idx h refl refl;
  }

  collect-KeepsBallot : (fuel : ℕ) (n : Node b) → KeepsBallot n (collect fuel n).0
  unfolding collect
  collect-KeepsBallot zero n = KeepsBallot-refl n
  collect-KeepsBallot (suc fuel) n = ground (
    arith,
    KeepsBallot-refl n,
    KeepsBallot-trans (take_entry-KeepsBallot (next64 n.last_applied) n (omega arith))
        (collect-KeepsBallot fuel (take_entry (next64 n.last_applied) n)),
  )

  pub collect_apply_ops-KeepsBallot : (n : Node b) → KeepsBallot n (collect_apply_ops n).0
  unfolding collect_apply_ops
  collect_apply_ops-KeepsBallot n = collect-KeepsBallot (n.commit_index - n.last_applied) n
