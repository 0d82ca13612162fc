-- ===== src/Graph/Search/Paths.antt =====
-- Walks and paths, and the path that trace_back reads off the parents.
use agent_native_db.Prelude.{
  ℕ, zero, suc, ◌+◌, ◌<◌, ◌≡◌, refl, ◌⊎◌, inl, inr, false, none, some, List, [], ◌∷◌, In, length,
  arith,
}
use agent_native_db.Bytes.{Bytes, eq_bytes}
use agent_native_db.Bytes.Map.{Map, lookup, get_or}
use agent_native_db.Graph.Search.{path, trace_back}

module _ (next : Bytes → List Bytes) (from : Bytes) where
  -- A walk of a number of steps.
  pub data Walk : ℕ → Bytes → Type 0 where
    here : Walk zero from
    step : {n : ℕ} {u v : Bytes} → Walk n u → In v (next u) → Walk (suc n) v

  -- Each name is a neighbour of the one before it, and the last is the goal.
  abbrev pub IsLinked : Bytes → Bytes → List Bytes → Type 0
  IsLinked to a [] = a ≡ to
  IsLinked to a (b ∷ ps) = In b (next a) × IsLinked to b ps

  -- A path from the start to the goal.
  abbrev pub IsPath : Bytes → List Bytes → Type 0
  IsPath to [] = ⊥
  IsPath to (a ∷ ps) = (a ≡ from) × IsLinked to a ps

  -- The parents of a name lead to the start, each one step nearer.
  abbrev pub HasParent : Map Bytes → (Bytes → ℕ) → Bytes → Type 0
  HasParent parent d x =
      ((x ≡ from) × (lookup x parent ≡ none) × (d x ≡ 0))
      ⊎ ((p : Bytes) × (lookup x parent ≡ some p) × In x (next p) × (d x ≡ suc (d p)))

-- An empty name ends the way back.
trace_back_empty :
    (f : ℕ) (parent : Map Bytes) (acc : List Bytes) → trace_back f parent [] acc ≡ path acc
unfolding trace_back eq_bytes
trace_back_empty zero parent acc = refl
trace_back_empty (suc f) parent acc = refl

module _ (next : Bytes → List Bytes) (from to : Bytes) (parent : Map Bytes) (d : Bytes → ℕ)
    (Seen : Bytes → Type 0) (named : (x : Bytes) → Seen x → eq_bytes x [] ≡ false)
    (tree : (x : Bytes) → Seen x → HasParent next from parent d x)
    (up : (x p : Bytes) → Seen x → lookup x parent ≡ some p → Seen p) where
  -- The way back from a name gives a path of its depth.
  pub trace_back-IsPath :
      (f : ℕ) (p : Bytes) (acc : List Bytes)
      → Seen p
      → d p < f
      → IsLinked next from to p acc
      → (ps : List Bytes) × (trace_back f parent p acc ≡ path ps)
        × IsPath next from to ps
        × (length ps ≡ suc (d p) + length acc)
  unfolding trace_back get_or
  trace_back-IsPath zero p acc s h l = absurd (omega arith)
  trace_back-IsPath (suc f) p acc s h l = elim (tree p s) [
    | inl (e, gone, zero_depth) ↦ (
      p ∷ acc,
      ground (arith, named p s, gone, trace_back_empty f parent (p ∷ acc)),
      (e, l),
      omega (arith, zero_depth),
    )
    | inr (q, there, linked, deeper) ↦
        let (ps, e, is_path, len) =
          trace_back-IsPath f q (p ∷ acc) (up p q s there) (omega (arith, deeper)) (linked, l) in
        (ps, ground (arith, named p s, there, e), is_path, omega (arith, len, deeper))
  ]
