-- ===== src/Raft/Recovery/Examples.antt =====
-- A start on a database that has an entry, which is committed and not applied.
use agent_native_db.Prelude.{true, some, ◌∷◌}
use agent_native_db.Bytes.BigEndian.{u64tob}
use agent_native_db.Raft.Badger.Memory.{memory}
use agent_native_db.Raft.Fixture.{fresh, stored}
use agent_native_db.Raft.Storage.{stable_key, key_commit_index, key_last_applied}
use agent_native_db.Raft.Node.{Node}
use agent_native_db.Raft.Apply.{Apply}

-- A callback that does nothing to the node.
abbrev silent : Apply memory
silent n term index content = (n, true)

abbrev started : Node memory
started = record fresh {
  db =
      (stable_key key_commit_index, some (u64tob 1))
      ∷ (stable_key key_last_applied, some (u64tob 0))
      ∷ stored;
}
