-- ===== src/Storage/Engine/Scans.antt =====
-- PrefixScan of internal/storage/badger/store.go, which a Raft engine hands on to it: a scan of the range
-- that PrefixRange gives.
use agent_native_db.Prelude.{ℕ, ◌<◌, ◌≡◌, ◌↔◌, true, Option, some, List, [], ◌∷◌, ◌++◌, In}
use agent_native_db.Bytes.{Bytes, has_prefix}
use agent_native_db.Storage.KeyEncode.{prefix_range}
use agent_native_db.Storage.KeyEncode.Range.{in_range-prefix_range}
use agent_native_db.Storage.Engine.{Engine}

module _ (e : Engine) (s : e.Store) where
  -- `none` is the error of the scan.
  unfoldable pub prefix_scan : Bytes → Option (List (Bytes × Bytes))
  unfolding prefix_range
  prefix_scan prefix = e.scan s (prefix_range prefix)

  -- Where the prefix does not end in 0xFF, the scan goes through the stored keys that have it.
  pub prefix_scan_iff :
      (q : Bytes) (b : ℕ) (items : List (Bytes × Bytes)) (k v : Bytes)
      → b < 255
      → prefix_scan (q ++ b ∷ []) ≡ some items
      → In (k, v) items ↔ ((e.get s k ≡ some v) × (has_prefix k (q ++ b ∷ []) ≡ true))
  unfolding prefix_scan
  prefix_scan_iff q b items k v low h =
      rw (← in_range-prefix_range q k b low) (e.scan_iff s (prefix_range (q ++ b ∷ [])) items k v h)
