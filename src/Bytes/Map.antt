-- ===== src/Bytes/Map.antt =====
-- Go maps whose keys are strings, as association lists with one entry for a key.
use agent_native_db.Prelude.{◌≡◌, refl, Option, none, some, List, [], ◌∷◌, arith, if◌then◌else◌}
use agent_native_db.Bytes.{Bytes, eq_bytes}
use agent_native_db.Bytes.Lex.{eq_bytes_iff}

abbrev pub Map {ℓ} : Type ℓ → Type ℓ
Map V = List (Bytes × V)

module _ {ℓ} {V : Type ℓ} where
  -- v, ok := m[k]
  unfoldable pub lookup : Bytes → Map V → Option V
  lookup k [] = none
  lookup k ((j, v) ∷ m) = if eq_bytes j k then some v else lookup k m

  -- m[k] = v
  unfoldable pub insert : Bytes → V → Map V → Map V
  insert k v [] = (k, v) ∷ []
  insert k v ((j, w) ∷ m) = if eq_bytes j k then (k, v) ∷ m else (j, w) ∷ insert k v m

  -- delete(m, k)
  unfoldable pub erase : Bytes → Map V → Map V
  erase k [] = []
  erase k ((j, w) ∷ m) = let rest = erase k m in if eq_bytes j k then rest else (j, w) ∷ rest

  pub lookup-insert :
      (k j : Bytes) (v : V) (m : Map V)
      → lookup j (insert k v m) ≡ (if eq_bytes k j then some v else lookup j m)
  unfolding lookup insert
  lookup-insert k j v [] = refl
  lookup-insert k j v ((i, w) ∷ m) =
      ground (arith, eq_bytes_iff k j, eq_bytes_iff i k, eq_bytes_iff i j, lookup-insert k j v m)

  pub lookup-erase :
      (k j : Bytes) (m : Map V) → lookup j (erase k m) ≡ (if eq_bytes k j then none else lookup j m)
  unfolding lookup erase
  lookup-erase k j [] = ground arith
  lookup-erase k j ((i, w) ∷ m) =
      ground (arith, eq_bytes_iff k j, eq_bytes_iff i k, eq_bytes_iff i j, lookup-erase k j m)

-- m[k], which is the zero value for a missing key.
unfoldable pub get_or {ℓ} : {V : Type ℓ} → V → Bytes → Map V → V
unfolding lookup
get_or d k m = elim (lookup k m) [ none ↦ d | some v ↦ v ]

pub get_or-insert {ℓ} :
    {V : Type ℓ} (d : V) (k j : Bytes) (v : V) (m : Map V)
    → get_or d j (insert k v m) ≡ (if eq_bytes k j then v else get_or d j m)
unfolding get_or
get_or-insert d k j v m = ground (arith, lookup-insert k j v m)
