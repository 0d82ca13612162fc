-- ===== src/Raft/Storage.antt =====
-- internal/raft/storage.go: the node's term and vote, and its log, as keys of a Badger database.
pub mod Laws
pub mod LastIndex
pub mod Keeps
pub mod SameBallot
use agent_native_db.Prelude.{
  ℕ, zero, suc, ◌+◌, ◌-◌, ◌≡◌, ◌≢◌, Bool, true, false, Option, none, some, List, [], ◌∷◌, ◌++◌, ltb,
  leb, ◌==◌, ◌&&◌, if◌then◌else◌, length, map,
}
use agent_native_db.Bytes.{Bytes, codes, has_prefix}
use agent_native_db.Bytes.BigEndian.{u64tob, btou64}
use agent_native_db.Raft.Badger.{Badger, Batch}
use agent_native_db.Raft.LogEntry.{LogEntry, encode_log_entry, decode_log_entry}

abbrev pub raft_log_prefix : ℕ
raft_log_prefix = 0xF0

abbrev pub raft_stable_prefix : ℕ
raft_stable_prefix = 0xF1

abbrev pub key_current_term : Bytes
key_current_term = codes "current_term"

abbrev pub key_voted_for : Bytes
key_voted_for = codes "voted_for"

abbrev pub key_commit_index : Bytes
key_commit_index = codes "commit_index"

abbrev pub key_last_applied : Bytes
key_last_applied = codes "last_applied"

unfoldable pub stable_key : Bytes → Bytes
stable_key key = raft_stable_prefix ∷ key

unfoldable pub log_key : ℕ → Bytes
log_key index = raft_log_prefix ∷ u64tob index

-- What GetLog returns: an entry, "not found" with no entry, or the error of an entry that does not
-- decode, beside an entry of zeros.
pub data LogRead : Type 0 where
  found : LogEntry → LogRead
  missing corrupt : LogRead

decoded : Option LogEntry → LogRead
decoded (some e) = found e
decoded none = corrupt

-- An index above, for a key that the iterator found, or 0.
index_of_key : Bytes → Option Bytes → ℕ
index_of_key prefix none = 0
index_of_key prefix (some []) = 0
index_of_key prefix (some (k ∷ rest)) = if has_prefix (k ∷ rest) prefix then btou64 rest else 0

-- `_ = ...`: a write whose error is dropped.
unfoldable pub or_same {ℓ} : {A : Type ℓ} → A → Option A → A
or_same db none = db
or_same db (some db') = db'

-- The deletions of the n indices from min on.
deletions : ℕ → ℕ → Batch
deletions zero min = []
deletions (suc n) min = (log_key min, none) ∷ deletions n (min + 1)

module _ (b : Badger) where
  open b use {Db, get, set, flush, seek_last, seek_first}

  uint64_of : Bytes → ℕ
  uint64_of val = if length val == 8 then btou64 val else 0

  -- `none` is the error "key not found".
  unfoldable pub get_uint64 : Db → Bytes → Option ℕ
  unfolding uint64_of
  get_uint64 db key = elim (get db (stable_key key)) [
    | none ↦ none
    | some val ↦ some (uint64_of val)
  ]

  unfoldable pub set_uint64 : Db → Bytes → ℕ → Option Db
  set_uint64 db key value = set db (stable_key key) (u64tob value)

  unfoldable pub get_string : Db → Bytes → Option Bytes
  get_string db key = get db (stable_key key)

  unfoldable pub set_string : Db → Bytes → Bytes → Option Db
  set_string db key value = set db (stable_key key) value

  unfoldable pub store_log : Db → LogEntry → Option Db
  store_log db entry = set db (log_key entry.index) (encode_log_entry entry)

  unfoldable pub get_log : Db → ℕ → LogRead
  unfolding decoded
  get_log db index = elim (get db (log_key index)) [
    | none ↦ missing
    | some val ↦ decoded (decode_log_entry val)
  ]

  -- The loop `i <= max` ends for a `max` below 2^64 - 1.
  unfoldable pub delete_range : Db → ℕ → ℕ → Db × Bool
  unfolding deletions
  delete_range db min max = flush db (deletions (max + 1 - min) min)

  unfoldable pub first_index : Db → ℕ
  unfolding index_of_key
  first_index db =
      index_of_key (raft_log_prefix ∷ [])
        (seek_first db (raft_log_prefix ∷ []) (raft_log_prefix ∷ []))

  unfoldable pub last_index : Db → ℕ
  unfolding index_of_key
  last_index db = index_of_key (raft_log_prefix ∷ []) (
      seek_last db (raft_log_prefix ∷ [])
        (raft_log_prefix ∷ 0xFF ∷ 0xFF ∷ 0xFF ∷ 0xFF ∷ 0xFF ∷ 0xFF ∷ 0xFF ∷ 0xFF ∷ []))

  -- The entries from `i` on, n at most; `size` is the sum of the sizes before, and the loop ends
  -- behind the entry that takes it above `max_size`. `none` is the error of an entry that does not
  -- decode.
  entries_from : ℕ → ℕ → ℕ → ℕ → Db → Option (List LogEntry)
  entries_from zero i size max_size db = some []
  entries_from (suc n) i size max_size db = elim (get db (log_key i)) [
    | none ↦ some []
    | some val ↦ elim (decode_log_entry val) [
      | none ↦ none
      | some e ↦
          let rest = entries_from n (i + 1) (size + length val) max_size db in
          if ltb 0 max_size && ltb max_size (size + length val)
          then some (e ∷ [])
          else elim rest [ none ↦ none | some es ↦ some (e ∷ es) ]
    ]
  ]

  unfoldable pub log_entries : Db → ℕ → ℕ → ℕ → Option (List LogEntry)
  unfolding entries_from
  log_entries db start end max_size = entries_from (end - start) start 0 max_size db
