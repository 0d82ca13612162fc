-- ===== src/Raft/Badger/Memory.antt =====
-- A database in memory with the behaviour that the storage relies on: the writes, the newest first.
use agent_native_db.Prelude.{
  ◌≡◌, ◌≢◌, refl, ◌⊎◌, inl, inr, Bool, true, false, ◌&&◌, Option, none, some, [], ◌∷◌, arith,
  Bool-cases, if◌then◌else◌,
}
use agent_native_db.Bytes.{Bytes, le_bytes, eq_bytes, has_prefix}
use agent_native_db.Bytes.Lex.{eq_bytes_iff, le_bytes_refl, le_bytes_trans, le_bytes_total}
use agent_native_db.Raft.Badger.{Badger, Batch, after_batch}

unfoldable pub read : Batch → Bytes → Option Bytes
read [] j = none
read ((k, v) ∷ ws) j = if eq_bytes k j then v else read ws j

unfoldable pub apply : Batch → Batch → Batch
apply db [] = db
apply db (w ∷ ops) = apply (w ∷ db) ops

pub read-apply :
    (db ops : Batch) (j : Bytes) → read (apply db ops) j ≡ after_batch ops j (read db j)
unfolding read apply
read-apply db [] j = refl
read-apply db ((k, v) ∷ ops) j = read-apply ((k, v) ∷ db) ops j

is_some : Option Bytes → Bool
is_some none = false
is_some (some v) = true

-- The best of the written keys that pass a test, by an order.
best : (Bytes → Bytes → Bool) → (Bytes → Bool) → Batch → Option Bytes
best le ok [] = none
best le ok ((k, v) ∷ ws) =
    let rest = best le ok ws in
    if ok k then elim rest [ none ↦ some k | some m ↦ if le m k then some k else some m ] else rest

unfoldable pub seek : (Bytes → Bytes → Bool) → Batch → Bytes → Bytes → Option Bytes
unfolding best is_some read
seek le db p target = best le (λ k. is_some (read db k) && (has_prefix k p && le k target)) db

module _ (le : Bytes → Bytes → Bool) (ok : Bytes → Bool) where
  best-ok : (ws : Batch) (k : Bytes) → best le ok ws ≡ some k → ok k ≡ true
  unfolding best
  best-ok [] k h = cc
  best-ok ((i, v) ∷ ws) k h = ground (arith, best-ok ws k)

module _ (le : Bytes → Bytes → Bool) (le_refl : (a : Bytes) → le a a ≡ true)
    (le_trans : (a b c : Bytes) → le a b ≡ true → le b c ≡ true → le a c ≡ true)
    (le_total : (a b : Bytes) → (le a b ≡ true) ⊎ (le b a ≡ true)) (ok : Bytes → Bool) where
  -- The best key is not below `j`.
  abbrev NotBelow : Bytes → Option Bytes → Type 0
  NotBelow j none = ⊥
  NotBelow j (some k) = le j k ≡ true

  merged : Bytes → Option Bytes → Option Bytes
  merged i none = some i
  merged i (some m) = if le m i then some i else some m

  merged_new : (i : Bytes) (r : Option Bytes) → NotBelow i (merged i r)
  unfolding merged
  merged_new i none = le_refl i
  merged_new i (some m) = ground (arith, le_refl i, le_total i m)

  merged_old : (i j : Bytes) (r : Option Bytes) → NotBelow j r → NotBelow j (merged i r)
  unfolding merged
  merged_old i j none h = elim h [ ]
  merged_old i j (some m) h = ground (arith, le_trans j m i)

  best-cons :
      (i : Bytes) (v : Option Bytes) (ws : Batch)
      → best le ok ((i, v) ∷ ws) ≡ (if ok i then merged i (best le ok ws) else best le ok ws)
  unfolding best merged
  best-cons i v ws = ground arith

  best-upper :
      (ws : Batch) (j : Bytes) → read ws j ≢ none → ok j ≡ true → NotBelow j (best le ok ws)
  unfolding read
  best-upper [] j h t = absurd (h refl)
  best-upper ((i, v) ∷ ws) j h t = elim (Bool-cases (eq_bytes i j)) [
    | inl hit ↦
        let e = (eq_bytes_iff i j).0 hit in
        rw best-cons (ground (arith, e, merged_new i (best le ok ws)))
    | inr miss ↦
        let old = best-upper ws j (λ n. h (rw (miss, read) n)) t in
        rw best-cons (ground (arith, old, merged_old i j (best le ok ws) old))
  ]

  NotBelow-some :
      (j : Bytes) (r : Option Bytes) → NotBelow j r → (k : Bytes) × (r ≡ some k) × (le j k ≡ true)
  NotBelow-some j none h = elim h [ ]
  NotBelow-some j (some k) h = (k, refl, h)

  seek-upper :
      (ws : Batch) (j : Bytes)
      → read ws j ≢ none
      → ok j ≡ true
      → (k : Bytes) × (best le ok ws ≡ some k) × (le j k ≡ true)
  seek-upper ws j h t = NotBelow-some j (best le ok ws) (best-upper ws j h t)

-- The opposite order, for a seek forwards.
abbrev pub ge_bytes : Bytes → Bytes → Bool
ge_bytes a b = le_bytes b a

read-some : (o : Option Bytes) → is_some o ≡ true → o ≢ none
unfolding is_some
read-some none h = cc
read-some (some v) h = λ e. cc

some-read : (o : Option Bytes) → o ≢ none → is_some o ≡ true
unfolding is_some
some-read none h = absurd (h refl)
some-read (some v) h = refl

module _ (le : Bytes → Bytes → Bool) (db : Batch) (p target : Bytes) where
  abbrev test : Bytes → Bool
  test k = is_some (read db k) && (has_prefix k p && le k target)

  pub seek-found :
      (k : Bytes)
      → seek le db p target ≡ some k
      → (read db k ≢ none) × (has_prefix k p ≡ true) × (le k target ≡ true)
  unfolding seek
  seek-found k h =
      let t = best-ok le test db k h in
      (read-some (read db k) (ground (arith, t)), ground (arith, t), ground (arith, t))

pub read-set :
    (db db' : Batch) (k v j : Bytes)
    → some ((k, some v) ∷ db) ≡ some db'
    → read db' j ≡ (if eq_bytes k j then some v else read db j)
unfolding read
read-set db db' k v j h = ground arith

pub seek-last_greatest :
    (db : Batch) (p target j : Bytes)
    → read db j ≢ none
    → has_prefix j p ≡ true
    → le_bytes j target ≡ true
    → (k : Bytes) × (seek le_bytes db p target ≡ some k) × (le_bytes j k ≡ true)
unfolding seek
seek-last_greatest db p target j h pre le =
    seek-upper le_bytes le_bytes_refl le_bytes_trans le_bytes_total (test le_bytes db p target) db j
      h (ground (arith, some-read (read db j) h))

pub seek-first_least :
    (db : Batch) (p target j : Bytes)
    → read db j ≢ none
    → has_prefix j p ≡ true
    → le_bytes target j ≡ true
    → (k : Bytes) × (seek ge_bytes db p target ≡ some k) × (le_bytes k j ≡ true)
unfolding seek
seek-first_least db p target j h pre le =
    seek-upper ge_bytes le_bytes_refl (λ x y z f g. le_bytes_trans z y x g f)
      (λ x y. le_bytes_total y x) (test ge_bytes db p target) db j h
      (ground (arith, some-read (read db j) h))

abbrev pub memory : Badger
memory = record {
  Db = Batch;
  get = read;
  set = λ db k v. some ((k, some v) ∷ db);
  flush = λ db ops. (apply db ops, true);
  seek_last = seek le_bytes;
  seek_first = seek ge_bytes;
  get-set = read-set;
  get-flush = λ db ops j h. read-apply db ops j;
  seek_last_found = seek-found le_bytes;
  seek_last_greatest = seek-last_greatest;
  seek_first_found = seek-found ge_bytes;
  seek_first_least = seek-first_least;
}
