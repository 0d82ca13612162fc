-- ===== src/Storage/Engine/Memory.antt =====
-- An engine in memory with the behaviour that the Engine interface documents: the writes, the newest
-- first.
use agent_native_db.Prelude.{
  In, ◌↔◌, true, false, subst, ◌≡◌, refl, Option, none, some, List, [], ◌∷◌, arith, if◌then◌else◌,
}
use agent_native_db.Bytes.{Bytes, eq_bytes}
use agent_native_db.Bytes.Lex.{eq_bytes_iff}
use agent_native_db.Bytes.Map.{erase}
use agent_native_db.Storage.KeyEncode.{in_range}
use agent_native_db.Storage.Engine.{WriteOp, written, after_ops, Engine}

abbrev pub Writes : Type 0
Writes = List (Bytes × Option Bytes)

unfoldable pub find : Writes → Bytes → Option Bytes
find [] j = none
find ((k, v) ∷ ws) j = if eq_bytes k j then v else find ws j

unfoldable pub write_ops : Writes → List WriteOp → Writes
write_ops s [] = s
write_ops s (op ∷ ops) = write_ops ((op.key, written op.type op.value) ∷ s) ops

pub find-write_ops :
    (s : Writes) (ops : List WriteOp) (j : Bytes)
    → find (write_ops s ops) j ≡ after_ops ops j (find s j)
unfolding find write_ops
find-write_ops s [] j = refl
find-write_ops s (op ∷ ops) j = find-write_ops ((op.key, written op.type op.value) ∷ s) ops j

pub find-cons :
    (s s' : Writes) (k j : Bytes) (v : Option Bytes)
    → some ((k, v) ∷ s) ≡ some s'
    → find s' j ≡ (if eq_bytes k j then v else find s j)
unfolding find
find-cons s s' k j v h = ground arith

pub found_written :
    (s s' : Writes) (ops : List WriteOp) (j : Bytes)
    → some (write_ops s ops) ≡ some s'
    → find s' j ≡ after_ops ops j (find s j)
found_written s s' ops j h = ground (arith, find-write_ops s ops j)

-- The entries that are not deleted, each key once.
unfoldable pub live : Writes → List (Bytes × Bytes)
live [] = []
live ((k, none) ∷ ws) = erase k (live ws)
live ((k, some v) ∷ ws) = (k, v) ∷ erase k (live ws)

-- Those in a range.
unfoldable pub between : Bytes × Option Bytes → List (Bytes × Bytes) → List (Bytes × Bytes)
between r [] = []
between r ((k, v) ∷ m) = let rest = between r m in if in_range k r then (k, v) ∷ rest else rest

In-erase :
    (k j v : Bytes) (m : List (Bytes × Bytes))
    → In (j, v) (erase k m) ↔ (In (j, v) m × (eq_bytes k j ≡ false))
unfolding erase
In-erase k j v [] = ground arith
In-erase k j v ((i, w) ∷ m) =
    ground (arith, eq_bytes_iff i k, eq_bytes_iff k j, eq_bytes_iff i j, In-erase k j v m)

In-live : (s : Writes) (k v : Bytes) → In (k, v) (live s) ↔ (find s k ≡ some v)
unfolding live find
In-live [] k v = ground arith
In-live ((i, none) ∷ ws) k v =
    ground (arith, In-erase i k v (live ws), In-live ws k v, eq_bytes_iff i k)
In-live ((i, some w) ∷ ws) k v =
    ground (arith, In-erase i k v (live ws), In-live ws k v, eq_bytes_iff i k)

In-between :
    (r : Bytes × Option Bytes) (m : List (Bytes × Bytes)) (k v : Bytes)
    → In (k, v) (between r m) ↔ (In (k, v) m × (in_range k r ≡ true))
unfolding between
In-between r [] k v = ground arith
In-between r ((i, w) ∷ m) k v = ground (arith, In-between r m k v)

pub found_between :
    (s : Writes) (r : Bytes × Option Bytes) (items : List (Bytes × Bytes)) (k v : Bytes)
    → some (between r (live s)) ≡ some items
    → In (k, v) items ↔ ((find s k ≡ some v) × (in_range k r ≡ true))
found_between s r items k v h =
    let same : between r (live s) ≡ items = cc in
    subst
      (λ (xs : List (Bytes × Bytes)). In (k, v) xs ↔ ((find s k ≡ some v) × (in_range k r ≡ true)))
      same (ground (arith, In-between r (live s) k v, In-live s k v))

abbrev pub engine : Engine
engine = record {
  Store = Writes;
  get = find;
  set = λ s k v. some ((k, some v) ∷ s);
  delete_key = λ s k. some ((k, none) ∷ s);
  batch_write = λ s ops. some (write_ops s ops);
  scan = λ s r. some (between r (live s));
  get-set = λ s s' k v j h. find-cons s s' k j (some v) h;
  get-delete_key = λ s s' k j h. find-cons s s' k j none h;
  get-batch_write = found_written;
  scan_iff = found_between;
}
