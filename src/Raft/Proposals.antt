-- ===== src/Raft/Proposals.antt =====
-- internal/raft/engine.go: Set, Delete and BatchWrite of RaftEngine, up to the data that they give to
-- Propose; what the node does with it is `handle_proposal` of Raft/Leader, and what is done when it is
-- committed is `apply_cmd` of Raft/Command. `is_leader` is what the
-- node answers to IsLeader.
use agent_native_db.Prelude.{Bool, List, [], if◌then◌else◌}
use agent_native_db.Bytes.{Bytes}
use agent_native_db.Storage.Engine.{WriteOp}
use agent_native_db.Raft.Command.{Cmd, CmdJson, cmd_set, cmd_delete, cmd_batch, encode_cmd}

-- ErrNotLeader, the data that is proposed, or a return without an error and without a proposal.
pub data Write : Type 0 where
  refused : Write
  proposed : Bytes → Write
  no_write : Write

module _ (j : CmdJson) (is_leader : Bool) where
  unfoldable pub propose : Cmd → Write
  unfolding encode_cmd
  propose c = if is_leader then proposed (encode_cmd j c) else refused

  unfoldable pub propose_set : Bytes → Bytes → Write
  unfolding propose
  propose_set key value = propose (record { type = cmd_set; key = key; value = value; ops = [] })

  unfoldable pub propose_delete : Bytes → Write
  unfolding propose
  propose_delete key = propose (record { type = cmd_delete; key = key; value = []; ops = [] })

  unfoldable pub propose_batch : List WriteOp → Write
  unfolding propose
  propose_batch ops = propose (record { type = cmd_batch; key = []; value = []; ops = ops })
