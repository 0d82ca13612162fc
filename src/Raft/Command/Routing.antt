-- ===== src/Raft/Command/Routing.antt =====
-- Which commands reach the local store.
use agent_native_db.Prelude.{
  ℕ, ◌+◌, ◌<◌, ◌^◌, ◌≡◌, refl, ◌⊎◌, inl, inr, ◌∙◌, some, List, [], length, arith,
}
use agent_native_db.Bytes.{Bytes}
use agent_native_db.Storage.Engine.{WriteOp, Engine}
use agent_native_db.Raft.LogEntry.{log_add_peer}
use agent_native_db.Raft.Command.{
  Cmd, CmdJson, changed, config_change, cmd_set, cmd_delete, cmd_batch, encode_cmd, run_cmd,
  apply_cmd,
}
use agent_native_db.Raft.Command.Codec.{decode-encode_cmd}

module _ (j : CmdJson) (e : Engine) (s : e.Store) where
  apply-encode_cmd :
      (c : Cmd)
      → c.type < 2
      → length (j.marshal c) + 5 < 2 ^ 32
      → apply_cmd j e s (encode_cmd j c) ≡ run_cmd j e s c
  unfolding apply_cmd encode_cmd
  apply-encode_cmd c low h = ground (arith, decode-encode_cmd j c h)

  -- The command of a Set or a Delete, where its JSON has fewer than 2^32 - 5 bytes and the local store
  -- takes the write, does to the local store what Set or Delete does to it.
  pub apply-set_or_delete :
      (k v : Bytes) (t : ℕ) (s' : e.Store)
      → length (j.marshal (record { type = t; key = k; value = v; ops = [] })) + 5 < 2 ^ 32
      → ((t ≡ cmd_set) × (e.set s k v ≡ some s'))
        ⊎ ((t ≡ cmd_delete) × (e.delete_key s k ≡ some s'))
      → apply_cmd j e s (encode_cmd j (record { type = t; key = k; value = v; ops = [] }))
        ≡ changed s'
  apply-set_or_delete k v t s' h (inl (z, r)) =
      apply-encode_cmd _ (omega (arith, z)) h ∙ unfold run_cmd in ground (arith, z, r)
  apply-set_or_delete k v t s' h (inr (z, r)) =
      apply-encode_cmd _ (omega (arith, z)) h ∙ unfold run_cmd in ground (arith, z, r)

  -- The command of a batch, whatever its operations, never reaches the local store: its first byte is
  -- that of LogAddPeer, so it is handed over as the addition of a peer.
  pub batch_taken_for_add_peer :
      (ops : List WriteOp)
      → apply_cmd j e s
          (encode_cmd j (record { type = cmd_batch; key = []; value = []; ops = ops }))
        ≡ config_change log_add_peer
            (encode_cmd j (record { type = cmd_batch; key = []; value = []; ops = ops }))
  unfolding apply_cmd encode_cmd
  batch_taken_for_add_peer ops = refl
