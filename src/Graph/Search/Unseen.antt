-- ===== src/Graph/Search/Unseen.antt =====
-- The names that the search has not visited, and its rounds.
use agent_native_db.Prelude.{
  ℕ, zero, suc, ◌<◌, ◌≤◌, ◌≡◌, refl, ap, ◌∙◌, ◌⊎◌, inl, inr, false, List, [], ◌∷◌, In, length,
  arith, if◌then◌else◌,
}
use agent_native_db.Bytes.{Bytes}
use agent_native_db.Bytes.Lex.{eq_bytes_iff}
use agent_native_db.Bytes.Map.{Map, get_or}
use agent_native_db.Graph.Search.{Search, going, found, no_path, is_in, scan, trace_back, search}

-- How many names of a list are not visited.
unfoldable pub unseen : List Bytes → List Bytes → ℕ
unseen [] done = 0
unseen (x ∷ xs) done = let rest = unseen xs done in if is_in x done then rest else suc rest

pub unseen-le :
    (xs : List Bytes) (v : Bytes) (done : List Bytes) → unseen xs (v ∷ done) ≤ unseen xs done
unfolding unseen is_in
unseen-le [] v done = omega arith
unseen-le (x ∷ xs) v done = ground (arith, unseen-le xs v done)

pub unseen-lt :
    (xs : List Bytes) (v : Bytes) (done : List Bytes)
    → In v xs
    → is_in v done ≡ false
    → unseen xs (v ∷ done) < unseen xs done
unfolding unseen is_in
unseen-lt [] v done i h = elim i [ ]
unseen-lt (x ∷ xs) v done (inl e) h = ground (arith, unseen-le xs v done, eq_bytes_iff v x, e, h)
unseen-lt (x ∷ xs) v done (inr i) h = ground (arith, unseen-lt xs v done i h)

pub unseen-le-length : (xs done : List Bytes) → unseen xs done ≤ length xs
unfolding unseen
unseen-le-length [] done = omega arith
unseen-le-length (x ∷ xs) done = ground (arith, unseen-le-length xs done)

pub queue_cases : (q : List Bytes) → (q ≡ []) ⊎ ((x : Bytes) × (rest : List Bytes) × (q ≡ x ∷ rest))
queue_cases [] = inl refl
queue_cases (x ∷ q) = inr (x, q, refl)

pub search_empty :
    (next : Bytes → List Bytes) (fuel : ℕ) (to : Bytes) (st : Search)
    → st.queue ≡ []
    → search next fuel to st ≡ no_path
unfolding search
search_empty next zero to st e = rw e refl
search_empty next (suc f) to st e = rw e refl

module _ (next : Bytes → List Bytes) (f : ℕ) (to : Bytes) (st : Search) (x : Bytes) (q : List Bytes)
    (e : st.queue ≡ x ∷ q) where
  pub search_going :
      (st' : Search)
      → scan to x (record st { queue = q }) (next x) ≡ going st'
      → search next (suc f) to st ≡ search next f to st'
  unfolding search
  search_going st' s =
      ap (λ (l : List Bytes). search next (suc f) to (record st { queue = l })) e
      ∙ rw (search, s) refl

  pub search_found :
      (parent : Map Bytes)
      → scan to x (record st { queue = q }) (next x) ≡ found parent
      → search next (suc f) to st
        ≡ trace_back (suc (length parent)) parent (get_or [] to parent) (to ∷ [])
  unfolding search
  search_found parent s =
      ap (λ (l : List Bytes). search next (suc f) to (record st { queue = l })) e
      ∙ rw (search, s) refl
