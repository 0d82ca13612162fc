-- ===== src/Storage/Engine.antt =====
-- internal/storage/engine.go: the operations of the Engine interface that the Raft engine, the graph
-- store, the indexes and the agents call, with the behaviour that the interface documents. `none` is an error.
pub mod Memory
pub mod Scans
use agent_native_db.Prelude.{true, In, ◌↔◌, Option, none, some, ◌≡◌, List, [], ◌∷◌, if◌then◌else◌}
use agent_native_db.Bytes.{Bytes, eq_bytes, has_prefix}
use agent_native_db.Storage.KeyEncode.{in_range}

pub data OpType : Type 0 where
  put delete : OpType

pub record WriteOp : Type 0 where
  pub type : OpType
  pub key : Bytes
  -- not read where the operation deletes
  pub value : Bytes

-- What one operation leaves at its key.
abbrev pub written : OpType → Bytes → Option Bytes
written put value = some value
written delete value = none

-- What a key holds after operations in order, if it held `v`.
abbrev pub after_ops : List WriteOp → Bytes → Option Bytes → Option Bytes
after_ops [] k v = v
after_ops (op ∷ ops) k v =
    after_ops ops k (if eq_bytes op.key k then written op.type op.value else v)

pub record Engine : Type 1 where
  pub Store : Type 0
  pub get : Store → Bytes → Option Bytes
  pub set : Store → Bytes → Bytes → Option Store
  pub delete_key : Store → Bytes → Option Store
  pub batch_write : Store → List WriteOp → Option Store
  -- What the iterator of a scan from the start to the end goes through, without a limit; no end is the
  -- end of the store. `none` is an error.
  pub scan : Store → Bytes × Option Bytes → Option (List (Bytes × Bytes))
  pub get-set :
      (s s' : Store) (k v j : Bytes)
      → set s k v ≡ some s'
      → get s' j ≡ (if eq_bytes k j then some v else get s j)
  pub get-delete_key :
      (s s' : Store) (k j : Bytes)
      → delete_key s k ≡ some s'
      → get s' j ≡ (if eq_bytes k j then none else get s j)
  pub get-batch_write :
      (s s' : Store) (ops : List WriteOp) (j : Bytes)
      → batch_write s ops ≡ some s'
      → get s' j ≡ after_ops ops j (get s j)
  pub scan_iff :
      (s : Store) (r : Bytes × Option Bytes) (items : List (Bytes × Bytes)) (k v : Bytes)
      → scan s r ≡ some items
      → In (k, v) items ↔ ((get s k ≡ some v) × (in_range k r ≡ true))
