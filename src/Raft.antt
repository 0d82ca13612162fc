-- ===== src/Raft.antt =====
-- internal/raft: log entries and their storage, the node's handlers, and the storage engine.
pub mod LogEntry
pub mod Fixture
pub mod Badger
pub mod Storage
pub mod Node
pub mod Vote
pub mod Apply
pub mod Append
pub mod Commit
pub mod Leader
pub mod Election
pub mod Restart
pub mod Recovery
pub mod Ballots
pub mod Command
pub mod Proposals
pub mod Txn
mod Examples
