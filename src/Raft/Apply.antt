-- ===== src/Raft/Apply.antt =====
-- internal/raft/run.go: collectApplyOps and doApply. The Apply callback is an argument: it returns
-- the node, which a configuration change updates, and whether there was no error.
pub mod SameBallot
pub mod SameLog
pub mod Collected
use agent_native_db.Prelude.{
  ℕ, zero, suc, ◌-◌, Bool, true, false, Option, none, some, List, [], ◌∷◌, ◌==◌, ltb, ◌++◌,
  if◌then◌else◌,
}
use agent_native_db.Bytes.{Bytes}
use agent_native_db.Raft.Badger.{Badger}
use agent_native_db.Raft.LogEntry.{LogEntry, log_command}
use agent_native_db.Raft.Storage.{found, get_log}
use agent_native_db.Raft.Node.{Node, Answer, done, apply_failed, next64, store_applied}

pub record ApplyOp : Type 0 where
  pub entry : LogEntry
  pub proposal : Option ℕ

-- delete(n.proposals, idx)
abbrev pub forget : ℕ → (ℕ → Option ℕ) → ℕ → Option ℕ
forget idx proposals j = if j == idx then none else proposals j

abbrev pub Apply : Badger → Type 0
Apply b = Node b → ℕ → ℕ → Bytes → Node b × Bool

-- What waits on the proposal's channel gets the answer.
answer_to : Option ℕ → Bool → List (ℕ × Answer)
answer_to none ok = []
answer_to (some p) true = (p, done) ∷ []
answer_to (some p) false = (p, apply_failed) ∷ []

module _ {b : Badger} where
  -- One round of the loop, at an index whose entry was read.
  pub take_entry : ℕ → Node b → Node b
  unfolding store_applied
  take_entry idx n = record (store_applied idx n) { proposals = forget idx n.proposals }

  collect : ℕ → Node b → Node b × List ApplyOp
  unfolding take_entry
  collect zero n = (n, [])
  collect (suc fuel) n =
      if ltb n.last_applied n.commit_index
      then elim (get_log b n.db (next64 n.last_applied)) [
        | found e ↦
            let (n', ops) = collect fuel (take_entry (next64 n.last_applied) n) in
            (n', record { entry = e; proposal = n.proposals (next64 n.last_applied) } ∷ ops)
        | _ ↦ (n, [])
      ]
      else (n, [])

  -- The fuel is the number of indices between what is applied and what is committed.
  unfoldable pub collect_apply_ops : Node b → Node b × List ApplyOp
  unfolding collect
  collect_apply_ops n = collect (n.commit_index - n.last_applied) n

  -- Only the entries of type LogCommand go to the callback.
  unfoldable pub apply_one : Apply b → Node b → LogEntry → Node b × Bool
  apply_one apply n e =
      if e.type == log_command then apply n e.term e.index e.content else (n, true)

  unfoldable pub do_apply : Apply b → Node b → List ApplyOp → Node b × List (ℕ × Answer)
  unfolding apply_one answer_to
  do_apply apply n [] = (n, [])
  do_apply apply n (op ∷ ops) =
      let (n1, ok) = apply_one apply n op.entry in
      let (n2, answers) = do_apply apply n1 ops in (n2, answer_to op.proposal ok ++ answers)
