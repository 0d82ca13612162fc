-- ===== src/Raft/Append/Log.antt =====
-- What an append request does to the log where no entry conflicts.
use agent_native_db.Prelude.{
  ℕ, ◌+◌, ◌<◌, ◌≤◌, ◌^◌, ◌≡◌, refl, sym, ◌∙◌, ap, inl, inr, true, some, List, [], ◌∷◌, All, arith,
  Option-cases, ◌==◌, if◌then◌else◌,
}
use agent_native_db.Raft.Badger.{Badger}
use agent_native_db.Raft.LogEntry.{LogEntry, IsEntry}
use agent_native_db.Raft.Storage.{LogRead, found, missing, corrupt, get_log, store_log}
use agent_native_db.Raft.Storage.Laws.{get_log-store_log}
use agent_native_db.Raft.Storage.LastIndex.{IsLogDb}
use agent_native_db.Raft.Storage.Keeps.{store_log-IsLogDb}
use agent_native_db.Raft.Append.{append_entry, append_all}

-- The entry of an index among those that were sent, the first if there are several.
abbrev pub sent : ℕ → List LogEntry → LogRead
sent j [] = missing
sent j (e ∷ es) = if e.index == j then found e else sent j es

-- What the log holds at an index, and where it holds nothing what was sent for it.
abbrev pub or_sent : LogRead → ℕ → List LogEntry → LogRead
or_sent missing j es = sent j es
or_sent r j es = r

-- The entries are words of 64 bits, and their indices rise from `low` on.
abbrev pub AreRising : ℕ → List LogEntry → Type 0
AreRising low [] = Unit
AreRising low (e ∷ es) = IsEntry e × (low ≤ e.index) × AreRising (e.index + 1) es

-- Where the log has an entry of an index that was sent, it has the term that was sent.
abbrev pub NoConflict : (b : Badger) → b.Db → List LogEntry → Type 0
NoConflict b db es =
    All (λ (e : LogEntry). (x : LogEntry) → get_log b db e.index ≡ found x → x.term ≡ e.term) es

pub sent_below : (j low : ℕ) (es : List LogEntry) → AreRising low es → j < low → sent j es ≡ missing
sent_below j low [] r h = refl
sent_below j low (e ∷ es) r h = ground (arith, sent_below j (e.index + 1) es r.2)

AreRising-weaken :
    (low high : ℕ) (es : List LogEntry) → low ≤ high → AreRising high es → AreRising low es
AreRising-weaken low high [] h r = tt
AreRising-weaken low high (e ∷ es) h r = (r.0, omega (arith, r.1), r.2)

module _ (b : Badger) where
  NoConflict-above :
      (db db' : b.Db) (low : ℕ) (es : List LogEntry)
      → AreRising low es
      → ((j : ℕ) → low ≤ j → j < 2 ^ 64 → get_log b db' j ≡ get_log b db j)
      → NoConflict b db es
      → NoConflict b db' es
  NoConflict-above db db' low [] r same c = tt
  NoConflict-above db db' low (e ∷ es) r same c = (
    (λ x h. c.0 x (sym (same e.index r.1 r.0.index_fits) ∙ h)),
    NoConflict-above db db' (e.index + 1) es r.2 (λ j le h. same j (omega (arith, r.1)) h) c.1,
  )

  -- One round, without a conflict: the entry is stored if there is none, and nothing else changes.
  append_entry_step :
      (db db' : b.Db) (e : LogEntry)
      → IsLogDb b db
      → IsEntry e
      → ((x : LogEntry) → get_log b db e.index ≡ found x → x.term ≡ e.term)
      → append_entry b db e ≡ some db'
      → IsLogDb b db'
        × ((j : ℕ) → j < 2 ^ 64 → get_log b db' j ≡ or_sent (get_log b db j) j (e ∷ []))
  unfolding append_entry
  append_entry_step db db' e v w c s = elim (v.entries e.index w.index_fits) [
    | inl none_there ↦
        let stored : store_log b db e ≡ some db' = ground (arith, none_there) in
        (
          store_log-IsLogDb b db db' e w v stored,
          λ j h. ground (arith, none_there, get_log-store_log b db db' e j w h stored),
        )
    | inr (x, there, _, _) ↦
        let same : db ≡ db' = ground (arith, there, c x there) in
        rw (← same) (v, λ j h. ground (arith, there))
  ]

  or_sent-append :
      (r : LogRead) (j : ℕ) (e : LogEntry) (es : List LogEntry)
      → or_sent (or_sent r j (e ∷ [])) j es ≡ or_sent r j (e ∷ es)
  or_sent-append (found x) j e es = refl
  or_sent-append corrupt j e es = refl
  or_sent-append missing j e es = ground arith

  unsent : (r : LogRead) (j : ℕ) (e : LogEntry) → e.index + 1 ≤ j → or_sent r j (e ∷ []) ≡ r
  unsent (found x) j e h = refl
  unsent corrupt j e h = refl
  unsent missing j e h = ground arith

  -- If no entry conflicts and no write fails, the log behind an append holds what it held before,
  -- and at the other indices exactly the entries that were sent.
  pub get_log-append_all :
      (db : b.Db) (low : ℕ) (es : List LogEntry)
      → IsLogDb b db
      → AreRising low es
      → NoConflict b db es
      → (append_all b db es).1 ≡ true
      → (j : ℕ) → j < 2 ^ 64
      → get_log b (append_all b db es).0 j ≡ or_sent (get_log b db j) j es
  unfolding append_all
  get_log-append_all db low [] v r c s j h = elim (v.entries j h) [
    | inl e ↦ rw e refl
    | inr (x, e, _, _) ↦ rw e refl
  ]
  get_log-append_all db low (e ∷ es) v r c s j h = elim (Option-cases (append_entry b db e)) [
    | inl f ↦ cc (rw (f, append_all) at s)
    | inr (db', f) ↦
        let (v', step) = append_entry_step db db' e v r.0 c.0 f in
        let c' =
          NoConflict-above db db' (e.index + 1) es r.2
            (λ k le k_fits. step k k_fits ∙ unsent (get_log b db k) k e le) c.1 in
        rw (f, append_all)
          (get_log-append_all db' (e.index + 1) es v' r.2 c' (rw (f, append_all) at s) j h
            ∙ ap (λ r. or_sent r j es) (step j h)
            ∙ or_sent-append (get_log b db j) j e es)
  ]

  pub append_all-IsLogDb :
      (db : b.Db) (low : ℕ) (es : List LogEntry)
      → IsLogDb b db
      → AreRising low es
      → NoConflict b db es
      → (append_all b db es).1 ≡ true
      → IsLogDb b (append_all b db es).0
  unfolding append_all
  append_all-IsLogDb db low [] v r c s = v
  append_all-IsLogDb db low (e ∷ es) v r c s = elim (Option-cases (append_entry b db e)) [
    | inl f ↦ cc (rw (f, append_all) at s)
    | inr (db', f) ↦
        let (v', step) = append_entry_step db db' e v r.0 c.0 f in
        let c' =
          NoConflict-above db db' (e.index + 1) es r.2
            (λ k le k_fits. step k k_fits ∙ unsent (get_log b db k) k e le) c.1 in
        rw (f, append_all)
          (append_all-IsLogDb db' (e.index + 1) es v' r.2 c' (rw (f, append_all) at s))
  ]
