-- ===== src/Raft/Storage/Keeps.antt =====
-- Which writes keep a database a log, and which keep the log as it was.
use agent_native_db.Prelude.{
  ℕ, ◌≤◌, ◌<◌, ◌^◌, ◌+◌, ◌-◌, zero, suc, ◌≡◌, refl, ◌∙◌, sym, ◌⊎◌, inl, inr, true, false, Option,
  none, some, [], ◌∷◌, ◌&&◌, ◌==◌, leb, arith, Option-cases, Bool-cases, ==_iff,
}
use agent_native_db.Bytes.{Bytes, eq_bytes, has_prefix}
use agent_native_db.Bytes.Lex.{eq_bytes_iff}
use agent_native_db.Bytes.BigEndian.{u64tob}
use agent_native_db.Raft.Badger.{Badger, after_batch}
use agent_native_db.Raft.LogEntry.{LogEntry, IsEntry, encode_log_entry}
use agent_native_db.Raft.Storage.{
  raft_log_prefix, stable_key, log_key, get_log, last_index, set_uint64, set_string, store_log,
  or_same, deletions, delete_range,
}
use agent_native_db.Raft.Storage.Laws.{
  get_log-store_log, get_log-set_uint64, get_log-set_string, get_log-delete_range,
}
use agent_native_db.Raft.Storage.LastIndex.{IsLogDb, le_last_index, last_index_present}

-- The second database is a log with the entries of the first.
pub record SameLog (b : Badger) (db db' : b.Db) : Type 0 where
  pub is_log : IsLogDb b db'
  pub same : (j : ℕ) → j < 2 ^ 64 → get_log b db' j ≡ get_log b db j

stable_no_log_key :
    (key k : Bytes)
    → has_prefix k (raft_log_prefix ∷ []) ≡ true
    → eq_bytes (stable_key key) k ≡ false
unfolding stable_key has_prefix eq_bytes
stable_no_log_key key [] h = refl
stable_no_log_key key (c ∷ k) h = ground arith

module _ (b : Badger) where
  pub SameLog-refl : (db : b.Db) → IsLogDb b db → SameLog b db db
  SameLog-refl db v = record { is_log = v; same = λ j h. refl }

  pub SameLog-trans :
      {db db' db'' : b.Db} → SameLog b db db' → SameLog b db' db'' → SameLog b db db''
  SameLog-trans p q = record { is_log = q.is_log; same = λ j h. q.same j h ∙ p.same j h }

  -- An index is last in both logs.
  last_index-le :
      (db db' : b.Db)
      → IsLogDb b db
      → IsLogDb b db'
      → ((j : ℕ) → j < 2 ^ 64 → get_log b db' j ≡ get_log b db j)
      → last_index b db ≤ last_index b db'
  last_index-le db db' v w same =
      let (h, p) = last_index_present b db v in
      elim p [
        | inl z ↦ omega (arith, z)
        | inr present ↦
            le_last_index b db' w (last_index b db) h
              (λ e. present (sym (same (last_index b db) h) ∙ e))
      ]

  pub last_index-SameLog :
      (db db' : b.Db) → IsLogDb b db → SameLog b db db' → last_index b db' ≡ last_index b db
  last_index-SameLog db db' v s = omega (
    arith,
    last_index-le db db' v s.is_log s.same,
    last_index-le db' db s.is_log v (λ j h. sym (s.same j h)),
  )

  stable_write :
      (db db' : b.Db) (key val : Bytes)
      → IsLogDb b db
      → b.set db (stable_key key) val ≡ some db'
      → ((j : ℕ) → get_log b db' j ≡ get_log b db j)
      → SameLog b db db'
  stable_write db db' key val v s same = record {
    is_log = record {
      keys = λ k present prefixed.
          v.keys k
            (λ e.
              present (
                b.get-set db db' (stable_key key) val k s
                ∙ rw (stable_no_log_key key k prefixed) e))
            prefixed;
      entries = λ i h. rw (same i) (v.entries i h);
    };
    same = λ j h. same j;
  }

  pub set_uint64-SameLog :
      (db : b.Db) (key : Bytes) (n : ℕ)
      → IsLogDb b db
      → SameLog b db (or_same db (set_uint64 b db key n))
  unfolding or_same
  set_uint64-SameLog db key n v = elim (Option-cases (set_uint64 b db key n)) [
    | inl e ↦ rw e (SameLog-refl db v)
    | inr (db', e) ↦ rw e (
        stable_write db db' key (u64tob n) v (unfold set_uint64 in e)
          (λ j. get_log-set_uint64 b db db' key n j e))
  ]

  pub set_string-SameLog :
      (db : b.Db) (key val : Bytes)
      → IsLogDb b db
      → SameLog b db (or_same db (set_string b db key val))
  unfolding or_same
  set_string-SameLog db key val v = elim (Option-cases (set_string b db key val)) [
    | inl e ↦ rw e (SameLog-refl db v)
    | inr (db', e) ↦ rw e (
        stable_write db db' key val v (unfold set_string in e)
          (λ j. get_log-set_string b db db' key val j e))
  ]

  -- Storing an entry under its index keeps the database a log.
  pub store_log-IsLogDb :
      (db db' : b.Db) (e : LogEntry)
      → IsEntry e
      → IsLogDb b db
      → store_log b db e ≡ some db'
      → IsLogDb b db'
  unfolding store_log
  store_log-IsLogDb db db' e w v s = record {
    keys = λ k present prefixed. elim (Bool-cases (eq_bytes (log_key e.index) k)) [
      | inl hit ↦ (e.index, w.index_fits, sym ((eq_bytes_iff (log_key e.index) k).0 hit))
      | inr miss ↦
          v.keys k
            (λ n. present (b.get-set db db' (log_key e.index) (encode_log_entry e) k s ∙ rw miss n))
            prefixed
    ];
    entries = λ i h. elim (Bool-cases (e.index == i)) [
      | inl hit ↦
          inr (e, get_log-store_log b db db' e i w h s ∙ rw hit refl, (==_iff e.index i).0 hit, w)
      | inr miss ↦ rw (get_log-store_log b db db' e i w h s, miss) (v.entries i h)
    ];
  }

  after_deletions_or_same :
      (n min : ℕ) (k : Bytes) (v : Option Bytes)
      → (after_batch (deletions n min) k v ≡ none) ⊎ (after_batch (deletions n min) k v ≡ v)
  unfolding deletions
  after_deletions_or_same zero min k v = inr refl
  after_deletions_or_same (suc n) min k v =
      ground
        (arith, after_deletions_or_same n (min + 1) k none, after_deletions_or_same n (min + 1) k v)

  -- So does deleting a range.
  pub delete_range-IsLogDb :
      (db : b.Db) (min max : ℕ)
      → min < 2 ^ 64
      → max + 1 < 2 ^ 64
      → IsLogDb b db
      → (delete_range b db min max).1 ≡ true
      → IsLogDb b (delete_range b db min max).0
  unfolding delete_range
  delete_range-IsLogDb db min max g h v s = record {
    keys = λ k present prefixed.
        let gone = after_deletions_or_same (max + 1 - min) min k (b.get db k) in
        let now = b.get-flush db (deletions (max + 1 - min) min) k s in
        elim gone [
          | inl e ↦ absurd (present (now ∙ e))
          | inr e ↦ v.keys k (λ n. present (now ∙ e ∙ n)) prefixed
        ];
    entries = λ i l. elim (Bool-cases (leb min i && leb i max)) [
      | inl hit ↦ inl (get_log-delete_range b db min max i g h l s ∙ rw hit refl)
      | inr miss ↦ rw (get_log-delete_range b db min max i g h l s, miss) (v.entries i l)
    ];
  }
