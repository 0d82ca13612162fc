-- ===== src/Raft/Apply/Collected.antt =====
-- What collectApplyOps collects.
use agent_native_db.Prelude.{
  ℕ, zero, suc, ◌+◌, ◌-◌, ◌<◌, ◌≤◌, ◌^◌, ◌≡◌, refl, sym, ◌∙◌, List, [], ◌∷◌, length, arith,
}
use agent_native_db.Raft.Badger.{Badger}
use agent_native_db.Raft.LogEntry.{LogEntry}
use agent_native_db.Raft.Storage.{found, get_log}
use agent_native_db.Raft.Storage.LastIndex.{IsLogDb}
use agent_native_db.Raft.Node.{Node, next64}
use agent_native_db.Raft.Apply.{ApplyOp, take_entry, collect, collect_apply_ops}
use agent_native_db.Raft.Apply.SameLog.{take_entry-SameLog}

-- The operations are the entries of the log from an index on, in order, each with the proposal that
-- waits for it.
abbrev pub AreEntriesFrom : (b : Badger) → Node b → ℕ → List ApplyOp → Type 0
AreEntriesFrom b n i [] = Unit
AreEntriesFrom b n i (op ∷ ops) =
    (get_log b n.db i ≡ found op.entry)
    × (op.proposal ≡ n.proposals i)
    × AreEntriesFrom b n (i + 1) ops

-- The log holds an entry at each index of a range.
abbrev pub HasEntries : (b : Badger) → b.Db → ℕ → ℕ → Type 0
HasEntries b db low high =
    (i : ℕ) → low < i → i ≤ high → (e : LogEntry) × (get_log b db i ≡ found e)

module _ {b : Badger} where
  -- Later entries are collected from the node behind a round as from the node before it.
  AreEntriesFrom-take_entry :
      (n : Node b) (idx i : ℕ) (ops : List ApplyOp)
      → IsLogDb b n.db
      → idx < i
      → i + length ops ≤ 2 ^ 64
      → AreEntriesFrom b (take_entry idx n) i ops
      → AreEntriesFrom b n i ops
  AreEntriesFrom-take_entry n idx i [] v lt fits r = tt
  AreEntriesFrom-take_entry n idx i (op ∷ ops) v lt fits r = (
    sym ((take_entry-SameLog idx n v).same i (omega arith)) ∙ r.0,
    unfold take_entry in ground (arith, r.1),
    AreEntriesFrom-take_entry n idx (i + 1) ops v (omega arith) (omega arith) r.2,
  )

  HasEntries-take_entry :
      (n : Node b) (idx low high : ℕ)
      → high < 2 ^ 64
      → IsLogDb b n.db
      → HasEntries b n.db low high
      → HasEntries b (take_entry idx n).db low high
  HasEntries-take_entry n idx low high h v has = λ i l k.
      let (e, there) = has i l k in (e, (take_entry-SameLog idx n v).same i (omega arith) ∙ there)

  collect-lem :
      (fuel : ℕ) (n : Node b)
      → fuel + n.last_applied ≡ n.commit_index
      → n.commit_index < 2 ^ 64
      → IsLogDb b n.db
      → HasEntries b n.db n.last_applied n.commit_index
      → AreEntriesFrom b n (n.last_applied + 1) (collect fuel n).1
        × (length (collect fuel n).1 ≡ fuel)
        × ((collect fuel n).0.last_applied ≡ n.commit_index)
  unfolding collect take_entry
  collect-lem zero n m h v has = (tt, refl, omega arith)
  collect-lem (suc fuel) n m h v has =
      let idx = next64 n.last_applied in
      let is_next : idx ≡ n.last_applied + 1 = omega arith in
      let (e, there) = has idx (omega arith) (omega arith) in
      let (ops, len, last) =
        collect-lem fuel (take_entry idx n) (omega arith) h (take_entry-SameLog idx n v).is_log
          (HasEntries-take_entry n idx idx n.commit_index h v (λ i l k. has i (omega arith) k)) in
      let later : AreEntriesFrom b n (idx + 1) (collect fuel (take_entry idx n)).1 =
        AreEntriesFrom-take_entry n idx (idx + 1) (collect fuel (take_entry idx n)).1 v
          (omega arith) (omega (arith, len)) ops in
      ground (arith, is_next, there, later, len, last)

  -- Where the database is a well-formed log that has every entry between the last applied index
  -- and the commit index, which is a word of 64 bits, the operations are exactly those entries in
  -- the order of the log, each with its proposal, and they count as applied then.
  pub collected :
      (n : Node b)
      → n.last_applied ≤ n.commit_index
      → n.commit_index < 2 ^ 64
      → IsLogDb b n.db
      → HasEntries b n.db n.last_applied n.commit_index
      → AreEntriesFrom b n (n.last_applied + 1) (collect_apply_ops n).1
        × (length (collect_apply_ops n).1 + n.last_applied ≡ n.commit_index)
        × ((collect_apply_ops n).0.last_applied ≡ n.commit_index)
  unfolding collect_apply_ops
  collected n le h v has =
      let (ops, len, last) =
        collect-lem (n.commit_index - n.last_applied) n (omega arith) h v has in
      (ops, omega (arith, len), last)
