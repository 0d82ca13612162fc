-- ===== src/Raft/Apply/SameLog.antt =====
-- Collecting the entries to apply leaves the log as it was.
use agent_native_db.Prelude.{ℕ, zero, suc, ◌-◌, arith}
use agent_native_db.Raft.Badger.{Badger}
use agent_native_db.Raft.Storage.LastIndex.{IsLogDb}
use agent_native_db.Raft.Storage.Keeps.{SameLog, SameLog-refl, SameLog-trans}
use agent_native_db.Raft.Node.{Node, next64}
use agent_native_db.Raft.Node.SameLog.{store_applied-SameLog}
use agent_native_db.Raft.Apply.{take_entry, collect, collect_apply_ops}

module _ {b : Badger} where
  pub take_entry-SameLog :
      (idx : ℕ) (n : Node b) → IsLogDb b n.db → SameLog b n.db (take_entry idx n).db
  unfolding take_entry
  take_entry-SameLog idx n v = store_applied-SameLog idx n v

  collect-SameLog : (fuel : ℕ) (n : Node b) → IsLogDb b n.db → SameLog b n.db (collect fuel n).0.db
  unfolding collect
  collect-SameLog zero n v = SameLog-refl b n.db v
  collect-SameLog (suc fuel) n v =
      let taken = take_entry-SameLog (next64 n.last_applied) n v in
      let rest =
        SameLog-trans b taken
          (collect-SameLog fuel (take_entry (next64 n.last_applied) n) taken.is_log) in
      ground (arith, SameLog-refl b n.db v, rest)

  pub collect_apply_ops-SameLog :
      (n : Node b) → IsLogDb b n.db → SameLog b n.db (collect_apply_ops n).0.db
  unfolding collect_apply_ops
  collect_apply_ops-SameLog n v = collect-SameLog (n.commit_index - n.last_applied) n v
