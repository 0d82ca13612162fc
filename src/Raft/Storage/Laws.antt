-- ===== src/Raft/Storage/Laws.antt =====
-- What is read back after each write of the Raft storage.
use agent_native_db.Prelude.{
  ℕ, zero, suc, ◌+◌, ◌-◌, ◌≤◌, ◌<◌, ◌^◌, ◌≡◌, refl, ap, true, false, Option, none, some, ◌&&◌, ◌==◌,
  ltb, leb, if◌then◌else◌, arith,
}
use agent_native_db.Bytes.{Bytes, eq_bytes}
use agent_native_db.Bytes.Lex.{eq_bytes_iff}
use agent_native_db.Bytes.BigEndian.{u64tob, btou64, btou64-u64tob, length-u64tob}
use agent_native_db.Raft.Badger.{Badger, after_batch}
use agent_native_db.Raft.LogEntry.{LogEntry, IsEntry, decode-encode_log_entry}
use agent_native_db.Raft.Storage.{
  found, missing, stable_key, log_key, deletions, get_uint64, set_uint64, get_string, set_string,
  store_log, get_log, delete_range,
}

-- Two log keys are equal only for one index.
pub eq_bytes-log_key :
    (i j : ℕ) → i < 2 ^ 64 → j < 2 ^ 64 → eq_bytes (log_key i) (log_key j) ≡ (i == j)
unfolding log_key eq_bytes
eq_bytes-log_key i j h k = ground (
  arith,
  eq_bytes_iff (u64tob i) (u64tob j),
  ap btou64 {x = u64tob i} {y = u64tob j},
  btou64-u64tob i h,
  btou64-u64tob j k,
)

pub eq_bytes-stable_log_key : (k : Bytes) (j : ℕ) → eq_bytes (stable_key k) (log_key j) ≡ false
unfolding stable_key log_key eq_bytes
eq_bytes-stable_log_key k j = refl

pub eq_bytes-log_stable_key : (j : ℕ) (k : Bytes) → eq_bytes (log_key j) (stable_key k) ≡ false
unfolding stable_key log_key eq_bytes
eq_bytes-log_stable_key j k = refl

pub eq_bytes-stable_key : (k j : Bytes) → eq_bytes (stable_key k) (stable_key j) ≡ eq_bytes k j
unfolding stable_key eq_bytes
eq_bytes-stable_key k j = refl

module _ (b : Badger) where
  open b use {Db, get, set, flush, get-set, get-flush}

  -- After an entry of 64-bit words is stored without an error it is read at its index, and all
  -- other indices as before.
  pub get_log-store_log :
      (db db' : Db) (e : LogEntry) (j : ℕ)
      → IsEntry e
      → j < 2 ^ 64
      → store_log b db e ≡ some db'
      → get_log b db' j ≡ (if e.index == j then found e else get_log b db j)
  unfolding store_log get_log
  get_log-store_log db db' e j v h s = ground (
    arith,
    get-set db db' (log_key e.index) _ (log_key j) s,
    eq_bytes-log_key e.index j v.index_fits h,
    decode-encode_log_entry e v,
  )

  pub get_log-set_uint64 :
      (db db' : Db) (k : Bytes) (n j : ℕ)
      → set_uint64 b db k n ≡ some db'
      → get_log b db' j ≡ get_log b db j
  unfolding set_uint64 get_log
  get_log-set_uint64 db db' k n j s =
      ground (arith, get-set db db' (stable_key k) _ (log_key j) s, eq_bytes-stable_log_key k j)

  pub get_log-set_string :
      (db db' : Db) (k v : Bytes) (j : ℕ)
      → set_string b db k v ≡ some db'
      → get_log b db' j ≡ get_log b db j
  unfolding set_string get_log
  get_log-set_string db db' k v j s =
      ground (arith, get-set db db' (stable_key k) _ (log_key j) s, eq_bytes-stable_log_key k j)

  pub get_uint64-set_uint64 :
      (db db' : Db) (k j : Bytes) (n : ℕ)
      → n < 2 ^ 64
      → set_uint64 b db k n ≡ some db'
      → get_uint64 b db' j ≡ (if eq_bytes k j then some n else get_uint64 b db j)
  unfolding set_uint64 get_uint64
  get_uint64-set_uint64 db db' k j n h s = ground (
    arith,
    get-set db db' (stable_key k) _ (stable_key j) s,
    eq_bytes-stable_key k j,
    length-u64tob n,
    btou64-u64tob n h,
  )

  pub get_string-set_string :
      (db db' : Db) (k j v : Bytes)
      → set_string b db k v ≡ some db'
      → get_string b db' j ≡ (if eq_bytes k j then some v else get_string b db j)
  unfolding set_string get_string
  get_string-set_string db db' k j v s =
      ground (arith, get-set db db' (stable_key k) _ (stable_key j) s, eq_bytes-stable_key k j)

  pub get_uint64-set_string :
      (db db' : Db) (k j v : Bytes)
      → eq_bytes k j ≡ false
      → set_string b db k v ≡ some db'
      → get_uint64 b db' j ≡ get_uint64 b db j
  unfolding set_string get_uint64
  get_uint64-set_string db db' k j v h s =
      ground (arith, get-set db db' (stable_key k) _ (stable_key j) s, eq_bytes-stable_key k j)

  pub get_string-set_uint64 :
      (db db' : Db) (k j : Bytes) (n : ℕ)
      → eq_bytes k j ≡ false
      → set_uint64 b db k n ≡ some db'
      → get_string b db' j ≡ get_string b db j
  unfolding set_uint64 get_string
  get_string-set_uint64 db db' k j n h s =
      ground (arith, get-set db db' (stable_key k) _ (stable_key j) s, eq_bytes-stable_key k j)

  pub get_string-store_log :
      (db db' : Db) (e : LogEntry) (j : Bytes)
      → store_log b db e ≡ some db'
      → get_string b db' j ≡ get_string b db j
  unfolding store_log get_string
  get_string-store_log db db' e j s = ground (
    arith,
    get-set db db' (log_key e.index) _ (stable_key j) s,
    eq_bytes-log_stable_key e.index j,
  )

  pub get_uint64-store_log :
      (db db' : Db) (e : LogEntry) (j : Bytes)
      → store_log b db e ≡ some db'
      → get_uint64 b db' j ≡ get_uint64 b db j
  unfolding store_log get_uint64
  get_uint64-store_log db db' e j s = ground (
    arith,
    get-set db db' (log_key e.index) _ (stable_key j) s,
    eq_bytes-log_stable_key e.index j,
  )

after_deletions :
    (n min j : ℕ) (v : Option Bytes)
    → min + n ≤ 2 ^ 64
    → j < 2 ^ 64
    → after_batch (deletions n min) (log_key j) v
      ≡ (if leb min j && ltb j (min + n) then none else v)
unfolding deletions
after_deletions zero min j v h k = ground arith
after_deletions (suc n) min j v h k = ground (
  arith,
  eq_bytes-log_key min j (omega arith) k,
  after_deletions n (min + 1) j v (omega arith) k,
  after_deletions n (min + 1) j none (omega arith) k,
)

module _ (b : Badger) where
  open b use {Db, get-flush, get}

  -- A deletion of a range that succeeds takes the entries of the range away and no others.
  pub get_log-delete_range :
      (db : Db) (min max j : ℕ)
      → min < 2 ^ 64
      → max + 1 < 2 ^ 64
      → j < 2 ^ 64
      → (delete_range b db min max).1 ≡ true
      → get_log b (delete_range b db min max).0 j
        ≡ (if leb min j && leb j max then missing else get_log b db j)
  unfolding delete_range get_log
  get_log-delete_range db min max j g h k s = ground (
    arith,
    get-flush db (deletions (max + 1 - min) min) (log_key j) s,
    after_deletions (max + 1 - min) min j (get db (log_key j)) (omega arith) k,
  )
