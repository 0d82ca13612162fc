-- ===== src/Raft/Append/Conflict.antt =====
-- What an append request does to an entry that conflicts with one of its own.
use agent_native_db.Prelude.{
  ℕ, ◌+◌, ◌<◌, ◌≤◌, ◌^◌, ◌≡◌, ◌≢◌, ap, ◌∙◌, ◌⊎◌, inl, inr, true, some, List, [], ◌∷◌, arith, leb,
  if◌then◌else◌,
}
use agent_native_db.Raft.Badger.{Badger}
use agent_native_db.Raft.LogEntry.{LogEntry}
use agent_native_db.Raft.Storage.{found, missing, get_log, delete_range, last_index}
use agent_native_db.Raft.Storage.Laws.{get_log-delete_range}
use agent_native_db.Raft.Storage.LastIndex.{IsLogDb, le_last_index}
use agent_native_db.Raft.Storage.Keeps.{delete_range-IsLogDb}
use agent_native_db.Raft.Storage.SameBallot.{WritesSucceed}
use agent_native_db.Raft.Append.{append_entry, append_all, delete_conflict}
use agent_native_db.Raft.Append.Log.{
  AreRising, NoConflict, sent, or_sent, get_log-append_all, append_all-IsLogDb,
}

module _ {b : Badger} (ok : WritesSucceed b) where
  -- The conflicting entry, and all behind it, are deleted, and the entry that was sent is not stored.
  delete_conflict_lem :
      (db : b.Db) (e x : LogEntry)
      → IsLogDb b db
      → e.index < 2 ^ 64
      → last_index b db + 1 < 2 ^ 64
      → get_log b db e.index ≡ found x
      → IsLogDb b (delete_conflict b db e)
        × ((j : ℕ)
            → j < 2 ^ 64
            → get_log b (delete_conflict b db e) j
              ≡ (if leb e.index j then missing else get_log b db j))
  unfolding delete_conflict
  delete_conflict_lem db e x v h fits there =
      let low = le_last_index b db v e.index h (λ m. ground (arith, there)) in
      let done : (delete_range b db e.index (last_index b db)).1 ≡ true =
        unfold delete_range in ok.flush db _ in
      let keeps = delete_range-IsLogDb b db e.index (last_index b db) h fits v done in
      let behind : (j : ℕ) → j < 2 ^ 64 → (get_log b db j ≡ missing) ⊎ (j ≤ last_index b db) =
        λ j k. elim (v.entries j k) [
          | inl m ↦ inl m
          | inr (y, f, _, _) ↦ inr (le_last_index b db v j k (λ m. ground (arith, f)))
        ] in
      (
        ground (arith, low, keeps),
        λ j k. ground (
          arith,
          low,
          behind j k,
          get_log-delete_range b db e.index (last_index b db) j h fits k done,
        ),
      )

  nothing_conflicts :
      (db : b.Db) (low : ℕ) (es : List LogEntry)
      → ((j : ℕ) → j < 2 ^ 64 → low ≤ j → get_log b db j ≡ missing)
      → AreRising low es
      → NoConflict b db es
  nothing_conflicts db low [] gone r = tt
  nothing_conflicts db low (e ∷ es) gone r = (
    (λ x h. ground (arith, gone e.index r.0.index_fits r.1)),
    nothing_conflicts db (e.index + 1) es (λ j h le. gone j h (omega (arith, r.1))) r.2,
  )

  -- The loop over the new entries, where the first conflicts: it runs to its end, and the log has at
  -- the first index nothing, and behind it what was sent behind the first entry.
  pub append_all-conflict :
      (db : b.Db) (e x : LogEntry) (es : List LogEntry)
      → IsLogDb b db
      → AreRising e.index (e ∷ es)
      → last_index b db + 1 < 2 ^ 64
      → get_log b db e.index ≡ found x
      → x.term ≢ e.term
      → (append_all b db (e ∷ es)).1 ≡ true
      → IsLogDb b (append_all b db (e ∷ es)).0
        × ((j : ℕ)
            → j < 2 ^ 64
            → e.index ≤ j
            → get_log b (append_all b db (e ∷ es)).0 j ≡ sent j es)
  append_all-conflict db e x es v r fits there differs all =
      let db' = delete_conflict b db e in
      let (v', after) = delete_conflict_lem db e x v r.0.index_fits fits there in
      let first : append_entry b db e ≡ some db' =
        unfold append_entry in ground (arith, there, differs) in
      let gone : (i : ℕ) → i < 2 ^ 64 → e.index ≤ i → get_log b db' i ≡ missing =
        λ i k l. ground (arith, after i k) in
      let unrolled : append_all b db (e ∷ es) ≡ append_all b db' es =
        unfold append_all in ground (arith, first) in
      let rest : (append_all b db' es).1 ≡ true = rw (← unrolled) all in
      let clear = nothing_conflicts db' (e.index + 1) es (λ i k l. gone i k (omega arith)) r.2 in
      rw unrolled (
        append_all-IsLogDb b db' (e.index + 1) es v' r.2 clear rest,
        λ j h le.
            get_log-append_all b db' (e.index + 1) es v' r.2 clear rest j h
            ∙ ap (λ k. or_sent k j es) (gone j h le),
      )
