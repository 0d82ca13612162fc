-- ===== src/Bytes/Lex.antt =====
-- Laws of the order and the equality of byte strings, and of prefixes.
use agent_native_db.Prelude.{◌⊎◌, inl, inr, true, [], ◌∷◌, ◌++◌, ◌≡◌, refl, ◌↔◌, arith}
use agent_native_db.Bytes.{Bytes, le_bytes, eq_bytes, has_prefix}

pub le_bytes_refl : (a : Bytes) → le_bytes a a ≡ true
unfolding le_bytes
le_bytes_refl [] = refl
le_bytes_refl (x ∷ xs) = ground (arith, le_bytes_refl xs)

pub le_bytes_trans :
    (a b c : Bytes) → le_bytes a b ≡ true → le_bytes b c ≡ true → le_bytes a c ≡ true
unfolding le_bytes
le_bytes_trans [] b c h k = refl
le_bytes_trans (x ∷ a) [] c h k = cc
le_bytes_trans (x ∷ a) (y ∷ b) [] h k = cc
le_bytes_trans (x ∷ a) (y ∷ b) (z ∷ c) h k = ground (arith, le_bytes_trans a b c)

pub le_bytes_antisymm : (a b : Bytes) → le_bytes a b ≡ true → le_bytes b a ≡ true → a ≡ b
unfolding le_bytes
le_bytes_antisymm [] [] h k = refl
le_bytes_antisymm [] (y ∷ b) h k = cc
le_bytes_antisymm (x ∷ a) [] h k = cc
le_bytes_antisymm (x ∷ a) (y ∷ b) h k = ground (arith, le_bytes_antisymm a b)

pub le_bytes-append : (a b : Bytes) → le_bytes a (a ++ b) ≡ true
unfolding le_bytes
le_bytes-append [] b = refl
le_bytes-append (x ∷ a) b = ground (arith, le_bytes-append a b)

-- A common prefix does not change the order.
pub le_bytes-append_left : (p a b : Bytes) → le_bytes (p ++ a) (p ++ b) ≡ le_bytes a b
unfolding le_bytes
le_bytes-append_left [] a b = refl
le_bytes-append_left (x ∷ p) a b = ground (arith, le_bytes-append_left p a b)

pub eq_bytes_iff : (a b : Bytes) → (eq_bytes a b ≡ true) ↔ (a ≡ b)
unfolding eq_bytes
eq_bytes_iff [] [] = ground arith
eq_bytes_iff [] (y ∷ b) = ground arith
eq_bytes_iff (x ∷ a) [] = ground arith
eq_bytes_iff (x ∷ a) (y ∷ b) = ground (arith, eq_bytes_iff a b)

pub has_prefix-append : (p r : Bytes) → has_prefix (p ++ r) p ≡ true
unfolding has_prefix
has_prefix-append [] r = refl
has_prefix-append (x ∷ p) r = ground (arith, has_prefix-append p r)

pub append_of_has_prefix : (k p : Bytes) → has_prefix k p ≡ true → (r : Bytes) × (k ≡ p ++ r)
unfolding has_prefix
append_of_has_prefix k [] h = (k, refl)
append_of_has_prefix [] (p ∷ ps) h = ([], cc)
append_of_has_prefix (x ∷ k) (p ∷ ps) h =
    let rest = append_of_has_prefix k ps (ground arith) in (rest.0, ground (arith, rest.1))

pub le_bytes_total : (a b : Bytes) → (le_bytes a b ≡ true) ⊎ (le_bytes b a ≡ true)
unfolding le_bytes
le_bytes_total [] b = inl refl
le_bytes_total (x ∷ a) [] = inr refl
le_bytes_total (x ∷ a) (y ∷ b) = ground (arith, le_bytes_total a b)
