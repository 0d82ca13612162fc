-- ===== src/Storage/KeyEncode/Range.antt =====
-- The scan range of a prefix: which keys a scan of it goes through.
use agent_native_db.Prelude.{
  ℕ, ◌+◌, ◌<◌, ◌≡◌, refl, ◌↔◌, ◌∙◌, true, false, some, [], ◌∷◌, ◌++◌, ◌&&◌, arith,
}
use mathlib.Core.List.{append_assoc}
use agent_native_db.Bytes.{Bytes, le_bytes, lt_bytes, has_prefix}
use agent_native_db.Bytes.Lex.{le_bytes-append, append_of_has_prefix}
use agent_native_db.Storage.KeyEncode.{
  increment, below_end, prefix_range, in_range, encode_index_key,
}

below_end-increment : (p r : Bytes) → below_end (p ++ r) (increment p) ≡ true
unfolding below_end increment le_bytes
below_end-increment [] r = refl
below_end-increment (b ∷ p) r = ground (arith, below_end-increment p r)

-- A scan of a prefix misses no key that has it.
pub in_range-append : (p r : Bytes) → in_range (p ++ r) (prefix_range p) ≡ true
unfolding in_range prefix_range
in_range-append p r = ground (arith, le_bytes-append p r, below_end-increment p r)

increment-append :
    (q : Bytes) (b : ℕ) → b < 255 → increment (q ++ b ∷ []) ≡ some (q ++ (b + 1) ∷ [])
unfolding increment
increment-append [] b h = ground arith
increment-append (x ∷ q) b h = rw (increment-append q b h, increment) refl

between :
    (q k : Bytes) (b : ℕ)
    → (le_bytes (q ++ b ∷ []) k && lt_bytes k (q ++ (b + 1) ∷ [])) ≡ has_prefix k (q ++ b ∷ [])
unfolding le_bytes has_prefix
between [] [] b = refl
between [] (x ∷ k) b = ground arith
between (y ∷ q) [] b = refl
between (y ∷ q) (x ∷ k) b = ground (arith, between q k b)

-- Where the last byte of the prefix is not 0xFF, a key lies in the range exactly when it has the prefix.
pub in_range-prefix_range :
    (q k : Bytes) (b : ℕ)
    → b < 255
    → in_range k (prefix_range (q ++ b ∷ [])) ≡ has_prefix k (q ++ b ∷ [])
unfolding in_range prefix_range
in_range-prefix_range q k b h = rw (increment-append q b h) (unfold below_end in between q k b)

increment_carry :
    (q : Bytes) (b : ℕ) → b < 255 → increment (q ++ b ∷ 255 ∷ []) ≡ some (q ++ (b + 1) ∷ 0 ∷ [])
unfolding increment
increment_carry [] b h = ground arith
increment_carry (x ∷ q) b h = rw (increment_carry q b h, increment) refl

successor_between :
    (q : Bytes) (b : ℕ)
    → (le_bytes (q ++ b ∷ 255 ∷ []) (q ++ (b + 1) ∷ []) ≡ true)
      × (lt_bytes (q ++ (b + 1) ∷ []) (q ++ (b + 1) ∷ 0 ∷ []) ≡ true)
      × (has_prefix (q ++ (b + 1) ∷ []) (q ++ b ∷ 255 ∷ []) ≡ false)
unfolding le_bytes has_prefix
successor_between [] b = ground arith
successor_between (x ∷ q) b = ground (arith, successor_between q b)

-- Where a prefix ends in 0xFF behind a byte below 0xFF, the range reaches too far: the key in which
-- that byte is one larger, and nothing follows, lies in it without having the prefix.
pub carry_range_too_wide :
    (q : Bytes) (b : ℕ)
    → b < 255
    → (in_range (q ++ (b + 1) ∷ []) (prefix_range (q ++ b ∷ 255 ∷ [])) ≡ true)
      × (has_prefix (q ++ (b + 1) ∷ []) (q ++ b ∷ 255 ∷ []) ≡ false)
unfolding in_range prefix_range
carry_range_too_wide q b h = (
  rw (increment_carry q b h) (unfold below_end in ground (arith, successor_between q b)),
  (successor_between q b).2,
)

-- A scan with the key of a field and the empty id goes through exactly the index keys of the field.
pub index_scan_exact :
    (p : ℕ) (field k : Bytes)
    → (in_range k (prefix_range (encode_index_key p field [])) ≡ true)
      ↔ ((id : Bytes) × (k ≡ encode_index_key p field id))
unfolding encode_index_key
index_scan_exact p field k = (found, λ e. rw (e.1) (missed e.0))
  where
    found :
        in_range k (prefix_range (p ∷ (field ++ 0 ∷ []))) ≡ true
        → (id : Bytes) × (k ≡ p ∷ (field ++ 0 ∷ id))
    found h =
        let (r, e) =
          append_of_has_prefix k ((p ∷ field) ++ 0 ∷ [])
            (rw (in_range-prefix_range (p ∷ field) k 0 (omega arith)) at h) in
        (r, e ∙ append_assoc (p ∷ field) (0 ∷ []) r)

    missed :
        (id : Bytes)
        → in_range (p ∷ (field ++ 0 ∷ id)) (prefix_range (p ∷ (field ++ 0 ∷ []))) ≡ true
    missed id =
        rw (← append_assoc (p ∷ field) (0 ∷ []) id) (in_range-append ((p ∷ field) ++ 0 ∷ []) id)
