-- ===== src/Raft/Txn.antt =====
-- internal/raft/engine.go: raftTxn, a transaction that keeps its writes until its commit, which hands
-- them to BatchWrite of the Raft engine as one proposal (Raft/Proposals); its reads behind its own
-- writes are those of the local engine.
use agent_native_db.Prelude.{
  ◌≡◌, refl, sym, ◌∙◌, Bool, true, Option, none, some, List, [], ◌∷◌, ◌++◌, arith, if◌then◌else◌,
}
use agent_native_db.Bytes.{Bytes, eq_bytes}
use agent_native_db.Bytes.Lex.{eq_bytes_iff}
use agent_native_db.Storage.Engine.{WriteOp, put, delete, written, after_ops, Engine}
use agent_native_db.Raft.LogEntry.{log_add_peer}
use agent_native_db.Raft.Command.{CmdJson, cmd_batch, config_change, encode_cmd, apply_cmd}
use agent_native_db.Raft.Command.Routing.{batch_taken_for_add_peer}
use agent_native_db.Raft.Proposals.{Write, proposed, no_write, propose_batch}

-- What the scan of the operations from the last to the first finds: the last one on the key.
last_op : List WriteOp → Bytes → Option WriteOp
last_op [] key = none
last_op (op ∷ ops) key =
    let later = last_op ops key in
    elim later [ some o ↦ some o | none ↦ if eq_bytes op.key key then some op else none ]

unfoldable pub txn_set : List WriteOp → Bytes → Bytes → List WriteOp
txn_set ops key value = ops ++ (record { type = put; key = key; value = value } ∷ [])

unfoldable pub txn_delete : List WriteOp → Bytes → List WriteOp
txn_delete ops key = ops ++ (record { type = delete; key = key; value = [] } ∷ [])

unfoldable pub txn_discard : List WriteOp → List WriteOp
txn_discard ops = []

-- Nothing is proposed for a transaction that has written nothing.
unfoldable pub txn_commit : CmdJson → Bool → List WriteOp → Write
unfolding propose_batch
txn_commit j is_leader [] = no_write
txn_commit j is_leader (op ∷ ops) = propose_batch j is_leader (op ∷ ops)

module _ (e : Engine) where
  open e use {Store, get}

  unfoldable pub txn_get : Store → List WriteOp → Bytes → Option Bytes
  unfolding last_op
  txn_get s ops key = elim (last_op ops key) [
    | some op ↦ written op.type op.value
    | none ↦ get s key
  ]

after_ops-last_op :
    (ops : List WriteOp) (key : Bytes) (v : Option Bytes)
    → after_ops ops key v ≡ elim (last_op ops key) [ some op ↦ written op.type op.value | none ↦ v ]
unfolding last_op
after_ops-last_op [] key v = refl
after_ops-last_op (op ∷ ops) key v =
    ground (
      arith,
      after_ops-last_op ops key (if eq_bytes op.key key then written op.type op.value else v),
    )

after_ops-snoc :
    (ops : List WriteOp) (op : WriteOp) (key : Bytes) (v : Option Bytes)
    → after_ops (ops ++ (op ∷ [])) key v
      ≡ (if eq_bytes op.key key then written op.type op.value else after_ops ops key v)
after_ops-snoc [] op key v = refl
after_ops-snoc (o ∷ ops) op key v =
    after_ops-snoc ops op key (if eq_bytes o.key key then written o.type o.value else v)

-- The commit of a transaction of the leader that ends in a write.
txn_commit-snoc :
    (j : CmdJson) (ops : List WriteOp) (op : WriteOp)
    → txn_commit j true (ops ++ (op ∷ []))
      ≡ proposed
          (encode_cmd j (record { type = cmd_batch; key = []; value = []; ops = ops ++ (op ∷ []) }))
unfolding txn_commit propose_batch
txn_commit-snoc j [] op = refl
txn_commit-snoc j (o ∷ ops) op = refl

module _ (e : Engine) (s : e.Store) where
  pub txn_get-after_ops :
      (ops : List WriteOp) (key : Bytes) → txn_get e s ops key ≡ after_ops ops key (e.get s key)
  unfolding txn_get
  txn_get-after_ops ops key = sym (after_ops-last_op ops key (e.get s key))

  -- In a transaction a read of a key gives the value that was set last, every other key reads as it did
  -- before; a deleted key reads as missing; and after a discard everything reads as the store.
  txn_get-writes :
      (ops : List WriteOp) (k v key : Bytes)
      → (txn_get e s (txn_set ops k v) key
          ≡ (if eq_bytes k key then some v else txn_get e s ops key))
        × (txn_get e s (txn_delete ops k) key
            ≡ (if eq_bytes k key then none else txn_get e s ops key))
        × (txn_get e s (txn_discard ops) key ≡ e.get s key)
  unfolding txn_set txn_delete txn_discard
  txn_get-writes ops k v key = (
    ground (
      arith,
      txn_get-after_ops ops key,
      txn_get-after_ops (txn_set ops k v) key,
      after_ops-snoc ops (record { type = put; key = k; value = v }) key (e.get s key),
    ),
    ground (
      arith,
      txn_get-after_ops ops key,
      txn_get-after_ops (txn_delete ops k) key,
      after_ops-snoc ops (record { type = delete; key = k; value = [] }) key (e.get s key),
    ),
    txn_get-after_ops [] key,
  )

  -- A transaction of the leader that ends in the setting of a key reads the new value there, and its
  -- commit proposes data; but when that data is applied, whatever the store holds, it is handed over as
  -- the addition of a peer instead of being written to the store.
  pub txn_commit-lost :
      (j : CmdJson) (s' : e.Store) (ops : List WriteOp) (k v : Bytes)
      → (txn_get e s (txn_set ops k v) k ≡ some v)
        × ((content : Bytes) × (txn_commit j true (txn_set ops k v) ≡ proposed content)
            × (apply_cmd j e s' content ≡ config_change log_add_peer content))
  unfolding txn_set
  txn_commit-lost j s' ops k v =
      let op : WriteOp = record { type = put; key = k; value = v } in
      let same = (eq_bytes_iff k k).1 refl in
      (
        (txn_get-writes ops k v k).0 ∙ ground (arith, same),
        (
          encode_cmd j (record { type = cmd_batch; key = []; value = []; ops = ops ++ (op ∷ []) }),
          txn_commit-snoc j ops op,
          batch_taken_for_add_peer j e s' (ops ++ (op ∷ [])),
        ),
      )
