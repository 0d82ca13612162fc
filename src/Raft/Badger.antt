-- ===== src/Raft/Badger.antt =====
-- What internal/raft/storage.go uses of BadgerDB, which is not part of the repository: the parts of
-- its interface that are called, and their documented behaviour. Reads of an open database fail only
-- on a missing key; a transaction's write happens or fails as a whole; a batch of writes that is
-- flushed without an error has all happened, and one that fails may have happened in part.
pub mod Memory
use agent_native_db.Prelude.{◌≡◌, ◌≢◌, Bool, true, Option, none, some, List, [], ◌∷◌, if◌then◌else◌}
use agent_native_db.Bytes.{Bytes, le_bytes, eq_bytes, has_prefix}

-- A batch's operations, in order: `none` deletes the key.
abbrev pub Batch : Type 0
Batch = List (Bytes × Option Bytes)

-- What a key holds after the operations of a batch, if it held `v`.
abbrev pub after_batch : Batch → Bytes → Option Bytes → Option Bytes
after_batch [] j v = v
after_batch ((k, w) ∷ ops) j v = after_batch ops j (if eq_bytes k j then w else v)

pub record Badger : Type 1 where
  pub Db : Type 0
  pub get : Db → Bytes → Option Bytes
  -- db.Update with one txn.Set: `none` is an error.
  pub set : Db → Bytes → Bytes → Option Db
  -- WriteBatch.Flush, and whether it returned no error.
  pub flush : Db → Batch → Db × Bool
  -- The first key that an iterator with the prefix stands on after a seek, in either direction.
  pub seek_last : Db → Bytes → Bytes → Option Bytes
  pub seek_first : Db → Bytes → Bytes → Option Bytes
  pub get-set :
      (db db' : Db) (k v j : Bytes)
      → set db k v ≡ some db'
      → get db' j ≡ (if eq_bytes k j then some v else get db j)
  pub get-flush :
      (db : Db) (ops : Batch) (j : Bytes)
      → (flush db ops).1 ≡ true
      → get (flush db ops).0 j ≡ after_batch ops j (get db j)
  pub seek_last_found :
      (db : Db) (p target k : Bytes)
      → seek_last db p target ≡ some k
      → (get db k ≢ none) × (has_prefix k p ≡ true) × (le_bytes k target ≡ true)
  pub seek_last_greatest :
      (db : Db) (p target j : Bytes)
      → get db j ≢ none
      → has_prefix j p ≡ true
      → le_bytes j target ≡ true
      → (k : Bytes) × (seek_last db p target ≡ some k) × (le_bytes j k ≡ true)
  pub seek_first_found :
      (db : Db) (p target k : Bytes)
      → seek_first db p target ≡ some k
      → (get db k ≢ none) × (has_prefix k p ≡ true) × (le_bytes target k ≡ true)
  pub seek_first_least :
      (db : Db) (p target j : Bytes)
      → get db j ≢ none
      → has_prefix j p ≡ true
      → le_bytes target j ≡ true
      → (k : Bytes) × (seek_first db p target ≡ some k) × (le_bytes k j ≡ true)
