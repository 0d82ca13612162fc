-- ===== src/Raft/Append/Accept.antt =====
-- When an append request is accepted, and what it does then.
use agent_native_db.Prelude.{
  ℕ, ◌+◌, ◌<◌, ◌≤◌, ◌^◌, ◌≡◌, ◌≢◌, sym, ap, ◌∙◌, inl, inr, ◌↔◌, true, none, List, [], ◌∷◌, arith,
  Option-cases, Bool-cases, ltb, min,
}
use agent_native_db.Raft.Badger.{Badger}
use agent_native_db.Raft.LogEntry.{LogEntry}
use agent_native_db.Raft.Storage.{found, missing, get_log, last_index}
use agent_native_db.Raft.Storage.LastIndex.{IsLogDb}
use agent_native_db.Raft.Storage.Keeps.{SameLog, SameLog-refl, SameLog-trans, last_index-SameLog}
use agent_native_db.Raft.Storage.SameBallot.{WritesSucceed}
use agent_native_db.Raft.Node.{Node, store_term, store_commit, get_last_log_index}
use agent_native_db.Raft.Node.SameLog.{store_term-SameLog, store_vote-SameLog, store_commit-SameLog}
use agent_native_db.Raft.Apply.SameLog.{collect_apply_ops-SameLog}
use agent_native_db.Raft.Append.{
  AppendRequest, check_prev, follow, append_all, append_locked, advance_to,
}
use agent_native_db.Raft.Append.Log.{
  AreRising, NoConflict, or_sent, sent_below, get_log-append_all, append_all-IsLogDb,
}
use agent_native_db.Raft.Append.Conflict.{append_all-conflict}

module _ {b : Badger} where
  follow-SameLog :
      (n : Node b) (req : AppendRequest) → IsLogDb b n.db → SameLog b n.db (follow n req).db
  unfolding follow
  follow-SameLog n req v = elim (Bool-cases (ltb n.current_term req.term)) [
    | inl up ↦
        let s = store_term-SameLog req.term n v in
        rw up (SameLog-trans b s (store_vote-SameLog [] (store_term req.term n) s.is_log))
    | inr same ↦ rw same (SameLog-refl b n.db v)
  ]

  advance_to-SameLog : (n : Node b) (c : ℕ) → IsLogDb b n.db → SameLog b n.db (advance_to n c).0.db
  unfolding advance_to
  advance_to-SameLog n c v =
      let s = store_commit-SameLog (min c (get_last_log_index n)) n v in
      let moved =
        SameLog-trans b s
          (collect_apply_ops-SameLog (store_commit (min c (get_last_log_index n)) n) s.is_log) in
      ground (arith, SameLog-refl b n.db v, moved)

  -- Exactly a request that is not behind, with a previous entry that agrees, and whose entries are
  -- stored without an error, is accepted.
  pub accepted_iff :
      (n : Node b) (req : AppendRequest)
      → ((append_locked n req).1.success ≡ true) ↔ (
          (n.current_term ≤ req.term)
          × (check_prev b (follow n req).db req.prev_log_index req.prev_log_term ≡ none)
          × ((append_all b (follow n req).db req.entries).1 ≡ true))
  unfolding append_locked
  accepted_iff n req = ground (
    arith,
    Option-cases (check_prev b (follow n req).db req.prev_log_index req.prev_log_term),
    Bool-cases ((append_all b (follow n req).db req.entries).1),
  )

  accepted-db :
      (n : Node b) (req : AppendRequest)
      → (append_locked n req).1.success ≡ true
      → IsLogDb b (append_all b (follow n req).db req.entries).0
      → SameLog b (append_all b (follow n req).db req.entries).0 (append_locked n req).0.db
  unfolding append_locked
  accepted-db n req s v =
      let (_, agrees, all) = (accepted_iff n req).0 s in
      let f = follow n req in
      let n1 : Node b = record f { db = (append_all b f.db req.entries).0 } in
      ground (arith, agrees, all, advance_to-SameLog n1 req.leader_commit v)

  NoConflict-SameLog :
      (db db' : b.Db) (low : ℕ) (es : List LogEntry)
      → SameLog b db db'
      → AreRising low es
      → NoConflict b db es
      → NoConflict b db' es
  NoConflict-SameLog db db' low [] s r c = tt
  NoConflict-SameLog db db' low (e ∷ es) s r c = (
    (λ x h. c.0 x (sym (s.same e.index r.0.index_fits) ∙ h)),
    NoConflict-SameLog db db' (e.index + 1) es s r.2 c.1,
  )

  -- Where the database is a well-formed log, and an accepted request has entries of 64-bit words
  -- with rising indices, none of which conflicts with the log, the log has behind it what it had
  -- before, and at the other indices exactly what was sent.
  pub accepted_log :
      (n : Node b) (req : AppendRequest) (low : ℕ)
      → IsLogDb b n.db
      → AreRising low req.entries
      → NoConflict b n.db req.entries
      → (append_locked n req).1.success ≡ true
      → (j : ℕ) → j < 2 ^ 64
      → get_log b (append_locked n req).0.db j ≡ or_sent (get_log b n.db j) j req.entries
  accepted_log n req low v r c s j h =
      let f = follow-SameLog n req v in
      let (_, _, all) = (accepted_iff n req).0 s in
      let c' = NoConflict-SameLog n.db (follow n req).db low req.entries f r c in
      let kept = append_all-IsLogDb b (follow n req).db low req.entries f.is_log r c' all in
      (accepted-db n req s kept).same j h
      ∙ get_log-append_all b (follow n req).db low req.entries f.is_log r c' all j h
      ∙ ap (λ x. or_sent x j req.entries) (f.same j h)

  -- Where no write fails, and the first entry of an accepted request, whose indices rise,
  -- conflicts with an entry of a well-formed log whose last index is below 2^64 - 1, the log
  -- holds nothing at its index behind the request, although the answer reports success: the old
  -- entry is deleted and the new one is not stored.
  pub conflict_is_lost :
      (ok : WritesSucceed b) (n : Node b) (req : AppendRequest) (e x : LogEntry)
      (es : List LogEntry)
      → IsLogDb b n.db
      → req.entries ≡ e ∷ es
      → AreRising e.index (e ∷ es)
      → last_index b n.db + 1 < 2 ^ 64
      → get_log b n.db e.index ≡ found x
      → x.term ≢ e.term
      → (append_locked n req).1.success ≡ true
      → get_log b (append_locked n req).0.db e.index ≡ missing
  unfolding follow
  conflict_is_lost ok n req e x es v split r fits there differs s =
      let f = follow-SameLog n req v in
      let (_, _, all) = (accepted_iff n req).0 s in
      let (kept, log) =
        append_all-conflict ok (follow n req).db e x es f.is_log r
          (rw (last_index-SameLog b n.db (follow n req).db v f) fits)
          (f.same e.index r.0.index_fits ∙ there) differs (rw split at all) in
      (accepted-db n req s (rw split kept)).same e.index r.0.index_fits
      ∙ rw split (log e.index r.0.index_fits (omega arith))
      ∙ sent_below e.index (e.index + 1) es r.2 (omega arith)
