-- ===== src/Raft/Append/SameBallot.antt =====
-- Behind the check of the term an append request touches neither the term nor the vote.
use agent_native_db.Prelude.{
  ℕ, ◌<◌, min, ◌^◌, ◌≡◌, refl, inl, inr, some, List, [], ◌∷◌, arith, Option-cases, Bool-cases, ltb,
  if◌then◌else◌,
}
use agent_native_db.Bytes.{eq_bytes}
use agent_native_db.Raft.Badger.{Badger}
use agent_native_db.Raft.LogEntry.{LogEntry}
use agent_native_db.Raft.Storage.{last_index, key_commit_index}
use agent_native_db.Raft.Storage.SameBallot.{
  WritesSucceed, SameBallot, SameBallot-refl, SameBallot-trans, set_uint64-SameBallot,
  store_log-SameBallot, delete_range-SameBallot,
}
use agent_native_db.Raft.Node.{Node, store_commit, get_last_log_index}
use agent_native_db.Raft.Apply.SameBallot.{
  KeepsBallot, KeepsBallot-refl, KeepsBallot-trans, collect_apply_ops-KeepsBallot,
}
use agent_native_db.Raft.Apply.{collect_apply_ops}
use agent_native_db.Raft.Append.{
  AppendRequest, check_prev, follow, append_entry, append_all, append_checked, append_locked,
  advance_to, delete_conflict,
}

module _ {b : Badger} (ok : WritesSucceed b) where
  delete_conflict-SameBallot : (db : b.Db) (e : LogEntry) → SameBallot b db (delete_conflict b db e)
  unfolding delete_conflict
  delete_conflict-SameBallot db e =
      ground (arith, SameBallot-refl b db, delete_range-SameBallot ok db e.index (last_index b db))

  append_entry-SameBallot :
      (db db' : b.Db) (e : LogEntry) → append_entry b db e ≡ some db' → SameBallot b db db'
  unfolding append_entry
  append_entry-SameBallot db db' e s = ground (
    arith,
    SameBallot-refl b db,
    store_log-SameBallot b db db' e,
    delete_conflict-SameBallot db e,
  )

  append_all-SameBallot : (db : b.Db) (es : List LogEntry) → SameBallot b db (append_all b db es).0
  unfolding append_all
  append_all-SameBallot db [] = SameBallot-refl b db
  append_all-SameBallot db (e ∷ es) = elim (Option-cases (append_entry b db e)) [
    | inl s ↦ rw (s, append_all) (SameBallot-refl b db)
    | inr (db', s) ↦
        rw (s, append_all)
          (SameBallot-trans b (append_entry-SameBallot db db' e s) (append_all-SameBallot db' es))
  ]

module _ {b : Badger} where
  store_commit-KeepsBallot : (i : ℕ) (n : Node b) → i < 2 ^ 64 → KeepsBallot n (store_commit i n)
  unfolding store_commit eq_bytes
  store_commit-KeepsBallot i n h = record {
    current_term = refl;
    voted_for = refl;
    node_id = refl;
    stored = set_uint64-SameBallot b n.db key_commit_index i h refl refl;
  }

  advance_to-KeepsBallot : (n : Node b) (c : ℕ) → c < 2 ^ 64 → KeepsBallot n (advance_to n c).0
  unfolding advance_to
  advance_to-KeepsBallot n c h =
      let m = store_commit (min c (get_last_log_index n)) n in
      let moved : KeepsBallot n (collect_apply_ops m).0 =
        KeepsBallot-trans (store_commit-KeepsBallot (min c (get_last_log_index n)) n (omega arith))
          (collect_apply_ops-KeepsBallot m) in
      ground (arith, KeepsBallot-refl n, moved)

module _ {b : Badger} (ok : WritesSucceed b) (n : Node b) (req : AppendRequest)
    (h : req.leader_commit < 2 ^ 64) where
  append_checked-KeepsBallot : KeepsBallot n (append_checked n req).0
  unfolding append_checked
  append_checked-KeepsBallot =
      let (db', all) = append_all b n.db req.entries in
      let n1 : Node b = record n { db = db' } in
      let written : KeepsBallot n n1 = record {
        current_term = refl;
        voted_for = refl;
        node_id = refl;
        stored = append_all-SameBallot ok n.db req.entries;
      } in
      elim (Bool-cases all) [
        | inl e ↦ rw e (KeepsBallot-trans written (advance_to-KeepsBallot n1 req.leader_commit h))
        | inr e ↦ rw e written
      ]

-- A request whose term is behind changes nothing of the ballot, and any other what `follow` changes.
pub append_locked-KeepsBallot :
    {b : Badger} (ok : WritesSucceed b) (n : Node b) (req : AppendRequest)
    → req.leader_commit < 2 ^ 64
    → KeepsBallot (if ltb req.term n.current_term then n else follow n req) (append_locked n req).0
unfolding append_locked
append_locked-KeepsBallot {b} ok n req h =
    let f = follow n req in
    elim (Bool-cases (ltb req.term n.current_term)) [
      | inl old ↦ rw old (KeepsBallot-refl n)
      | inr new ↦
          rw new (elim (Option-cases (check_prev b f.db req.prev_log_index req.prev_log_term)) [
            | inl e ↦ rw (e, append_locked) (append_checked-KeepsBallot ok f req h)
            | inr (c, e) ↦ rw (e, append_locked) (KeepsBallot-refl f)
          ])
    ]
