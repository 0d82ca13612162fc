-- ===== src/Raft/Command.antt =====
-- internal/raft/engine.go: the commands of the Raft log, their serialisation, and their application
-- to the local store. The JSON of a command is that of encoding/json and is not modelled: it is a
-- parameter whose decoder inverts its encoder.
pub mod Codec
pub mod Routing
pub mod Format
use agent_native_db.Prelude.{
  ℕ, ◌+◌, ◌^◌, ◌%◌, ◌≡◌, Bool, true, false, ◌||◌, Option, none, some, List, [], ◌∷◌, ◌++◌, length,
  take, drop, ◌==◌, ltb, if◌then◌else◌,
}
use agent_native_db.Bytes.{Bytes}
use agent_native_db.Bytes.BigEndian.{be, from_be}
use agent_native_db.Storage.Engine.{WriteOp, Engine}
use agent_native_db.Raft.LogEntry.{log_add_peer, log_remove_peer}

abbrev pub cmd_set : ℕ
cmd_set = 0

abbrev pub cmd_delete : ℕ
cmd_delete = 1

abbrev pub cmd_batch : ℕ
cmd_batch = 2

pub record Cmd : Type 0 where
  pub type : ℕ
  pub key : Bytes
  pub value : Bytes
  pub ops : List WriteOp

-- Cmd{}
abbrev pub no_cmd : Cmd
no_cmd = record { type = 0; key = []; value = []; ops = [] }

pub record CmdJson : Type 0 where
  pub marshal : Cmd → Bytes
  pub unmarshal : Bytes → Option Cmd
  pub unmarshal-marshal : (c : Cmd) → unmarshal (marshal c) ≡ some c

-- What decodeCmd does: a command, an error, or a slice out of bounds.
pub data Decoded : Type 0 where
  decoded : Cmd → Decoded
  bad panics : Decoded

-- What applyCmd does: nothing, a new store, an error, or the call of the node's applyConfigChange
-- with an entry of a type and the data.
pub data Applied (S : Type 0) : Type 0 where
  ignored : Applied S
  changed : S → Applied S
  failed panicked : Applied S
  config_change : ℕ → Bytes → Applied S

-- A byte of the data, 0 where it is too short.
byte_at : ℕ → Bytes → ℕ
byte_at i bytes = elim (drop i bytes) [ [] ↦ 0 | b ∷ bs ↦ b ]

module _ (j : CmdJson) where
  -- type(1) + length(4) + JSON
  unfoldable pub encode_cmd : Cmd → Bytes
  encode_cmd c = c.type ∷ (be 4 (length (j.marshal c)) ++ j.marshal c)

  -- The end of the body, on uint32.
  abbrev pub body_end : Bytes → ℕ
  body_end bytes = (5 + from_be 0 (take 4 (drop 1 bytes))) % 2 ^ 32

  with_type : ℕ → Option Cmd → Decoded
  with_type type none = bad
  with_type type (some c) = decoded (record c { type = type })

  unfoldable pub decode_cmd : Bytes → Decoded
  unfolding with_type byte_at
  decode_cmd bytes =
      if ltb (length bytes) 5
      then decoded no_cmd
      else if ltb (length bytes) (body_end bytes)
      then bad
      else if ltb (body_end bytes) 5
      then panics
      else with_type (byte_at 0 bytes) (j.unmarshal (drop 5 (take (body_end bytes) bytes)))

module _ (j : CmdJson) (e : Engine) where
  open e use {Store, set, delete_key, batch_write}

  or_failed : Option Store → Applied Store
  or_failed none = failed
  or_failed (some s) = changed s

  run_cmd : Store → Cmd → Applied Store
  unfolding or_failed
  run_cmd s c =
      if c.type == cmd_set
      then or_failed (set s c.key c.value)
      else if c.type == cmd_delete
      then or_failed (delete_key s c.key)
      else if c.type == cmd_batch
      then or_failed (batch_write s c.ops)
      else failed

  unfoldable pub apply_cmd : Store → Bytes → Applied Store
  unfolding run_cmd
  apply_cmd s [] = ignored
  apply_cmd s (first ∷ rest) =
      if first == log_add_peer || first == log_remove_peer
      then config_change first (first ∷ rest)
      else elim (decode_cmd j (first ∷ rest)) [
        | decoded c ↦ run_cmd s c
        | bad ↦ failed
        | panics ↦ panicked
      ]
