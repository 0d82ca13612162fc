-- ===== src/Raft/Storage/LastIndex.antt =====
-- The seek behind LastIndex finds the greatest index of the log.
use agent_native_db.Prelude.{
  ℕ, ◌≤◌, ◌<◌, ◌^◌, ◌≡◌, refl, ◌⊎◌, inl, inr, ◌≢◌, true, none, some, [], ◌∷◌, leb, leb→le, arith,
  Option-cases, ◌∙◌, sym,
}
use agent_native_db.Bytes.{Bytes, has_prefix, le_bytes}
use agent_native_db.Bytes.BigEndian.{be, u64tob, btou64-u64tob, le_bytes-u64tob}
use agent_native_db.Raft.Badger.{Badger}
use agent_native_db.Raft.LogEntry.{LogEntry, IsEntry}
use agent_native_db.Raft.Storage.{
  found, missing, raft_log_prefix, log_key, decoded, get_log, last_index, index_of_key,
}

-- Every key of the log is the key of an index, and holds the entry of that index.
pub record IsLogDb (b : Badger) (db : b.Db) : Type 0 where
  pub keys :
      (k : Bytes)
      → b.get db k ≢ none
      → has_prefix k (raft_log_prefix ∷ []) ≡ true
      → (i : ℕ) × (i < 2 ^ 64) × (k ≡ log_key i)
  pub entries :
      (i : ℕ)
      → i < 2 ^ 64
      → (get_log b db i ≡ missing)
        ⊎ ((e : LogEntry) × (get_log b db i ≡ found e) × (e.index ≡ i) × IsEntry e)

abbrev log_prefix : Bytes
log_prefix = raft_log_prefix ∷ []

abbrev seek_target : Bytes
seek_target = raft_log_prefix ∷ 0xFF ∷ 0xFF ∷ 0xFF ∷ 0xFF ∷ 0xFF ∷ 0xFF ∷ 0xFF ∷ 0xFF ∷ []

-- The target of the seek is the key of the greatest index.
seek_target_lem : seek_target ≡ log_key 0xFFFFFFFFFFFFFFFF
unfolding log_key u64tob be
seek_target_lem = refl

le_bytes-log_key : (i j : ℕ) → i < 2 ^ 64 → j < 2 ^ 64 → le_bytes (log_key i) (log_key j) ≡ leb i j
unfolding log_key le_bytes
le_bytes-log_key i j h k = ground (arith, le_bytes-u64tob i j h k)

le_bytes-seek_target : (j : ℕ) → j < 2 ^ 64 → le_bytes (log_key j) seek_target ≡ true
le_bytes-seek_target j h =
    rw seek_target_lem (le_bytes-log_key j 0xFFFFFFFFFFFFFFFF h (omega arith) ∙ ground arith)

has_prefix-log_key : (j : ℕ) → has_prefix (log_key j) log_prefix ≡ true
unfolding log_key has_prefix
has_prefix-log_key j = refl

index_of_key-log_key : (i : ℕ) → i < 2 ^ 64 → index_of_key log_prefix (some (log_key i)) ≡ i
unfolding index_of_key log_key has_prefix
index_of_key-log_key i h = btou64-u64tob i h

module _ (b : Badger) (db : b.Db) where
  pub get-ne-none : (j : ℕ) → get_log b db j ≢ missing → b.get db (log_key j) ≢ none
  unfolding get_log
  get-ne-none j h = λ e. h (rw (e, get_log))

  get_log-ne-missing : (j : ℕ) → b.get db (log_key j) ≢ none → get_log b db j ≢ missing
  unfolding get_log decoded
  get_log-ne-missing j h = λ e. ground (arith, h)

module _ (b : Badger) (db : b.Db) (v : IsLogDb b db) where
  -- What the seek finds is the key of an index.
  seek_last_index :
      (k : Bytes)
      → b.seek_last db log_prefix seek_target ≡ some k
      → (i : ℕ) × (i < 2 ^ 64)
        × (k ≡ log_key i)
        × (last_index b db ≡ i)
        × (get_log b db i ≢ missing)
  unfolding last_index
  seek_last_index k s =
      let (present, prefixed, _) = b.seek_last_found db log_prefix seek_target k s in
      let (i, h, e) = v.keys k present prefixed in
      (
        i,
        h,
        e,
        rw (s, e) (index_of_key-log_key i h),
        get_log-ne-missing b db i (λ n. present (rw e n)),
      )

  -- In a well-formed log no entry stands behind the last index.
  pub le_last_index : (j : ℕ) → j < 2 ^ 64 → get_log b db j ≢ missing → j ≤ last_index b db
  le_last_index j h p =
      let (k, s, le) =
        b.seek_last_greatest db log_prefix seek_target (log_key j) (get-ne-none b db j p)
          (has_prefix-log_key j) (le_bytes-seek_target j h) in
      let (i, h', e, last, _) = seek_last_index k s in
      rw last (leb→le j i (sym (le_bytes-log_key j i h h') ∙ rw (← e) le))

  no_key : b.seek_last db log_prefix seek_target ≡ none → last_index b db ≡ 0
  unfolding last_index index_of_key
  no_key s = rw s

  -- In a well-formed log the last index is a word of 64 bits, and it is that of an entry, or 0.
  pub last_index_present :
      (last_index b db < 2 ^ 64)
      × ((last_index b db ≡ 0) ⊎ (get_log b db (last_index b db) ≢ missing))
  last_index_present = elim (Option-cases (b.seek_last db log_prefix seek_target)) [
    | inl s ↦ (rw (no_key s) (omega arith), inl (no_key s))
    | inr (k, s) ↦
        let (i, h, _, last, present) = seek_last_index k s in (rw last h, inr (rw last present))
  ]
