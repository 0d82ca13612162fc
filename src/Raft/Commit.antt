-- ===== src/Raft/Commit.antt =====
-- internal/raft/run.go: advanceCommitIndex.
pub mod Advanced
use agent_native_db.Prelude.{
  ℕ, zero, suc, ◌+◌, ◌-◌, ◌*◌, Bool, List, [], ◌∷◌, ◌==◌, ltb, leb, if◌then◌else◌, length,
}
use agent_native_db.Bytes.{Bytes, eq_bytes}
use agent_native_db.Bytes.Map.{Map, get_or}
use agent_native_db.Raft.Badger.{Badger}
use agent_native_db.Raft.Storage.{found, get_log}
use agent_native_db.Raft.Node.{Node, Answer, next64, get_last_log_index, store_commit}
use agent_native_db.Raft.Apply.{Apply, collect_apply_ops, do_apply}

-- The other peers that have the entries up to an index.
unfoldable pub replicas : Bytes → Map ℕ → ℕ → Map Bytes → ℕ
replicas self match_index idx [] = 0
replicas self match_index idx ((id, addr) ∷ peers) =
    let rest = replicas self match_index idx peers in
    if eq_bytes id self then rest else if leb idx (get_or 0 id match_index) then suc rest else rest

module _ {b : Badger} where
  -- count*2 > len(n.peers), the node itself counted.
  unfoldable pub has_majority : Node b → ℕ → Bool
  unfolding replicas
  has_majority n idx = ltb (length n.peers) ((1 + replicas n.node_id n.match_index idx n.peers) * 2)

  -- The loop; the fuel bounds its rounds.
  advance : ℕ → Node b → Node b
  unfolding has_majority store_commit get_last_log_index
  advance zero n = n
  advance (suc fuel) n =
      let rest = advance fuel (store_commit (next64 n.commit_index) n) in
      if ltb n.commit_index (get_last_log_index n)
      then elim (get_log b n.db (next64 n.commit_index)) [
        | found e ↦
            if e.term == n.current_term
            then (if has_majority n (next64 n.commit_index) then rest else n)
            else n
        | _ ↦ n
      ]
      else n

  -- Each round commits one more index, so the entries behind the commit index are fuel enough.
  unfoldable pub advanced : Node b → Node b
  unfolding advance
  advanced n = advance (get_last_log_index n - n.commit_index) n

  unfoldable pub advance_commit_index : Apply b → Node b → Node b × List (ℕ × Answer)
  unfolding advanced collect_apply_ops do_apply
  advance_commit_index apply n =
      let (n1, ops) = collect_apply_ops (advanced n) in do_apply apply n1 ops
