-- ===== src/Graph/Search/Visited.antt =====
-- The invariant of the search behind the visit of a new name.
use agent_native_db.Prelude.{
  ℕ, suc, ◌≤◌, ◌≡◌, refl, sym, ap, ◌∙◌, subst, ◌⊎◌, inl, inr, false, none, some, List, [], ◌∷◌,
  ◌++◌, In, length, arith, if◌then◌else◌,
}
use agent_native_db.Bytes.{Bytes, eq_bytes}
use agent_native_db.Bytes.Lex.{eq_bytes_iff}
use agent_native_db.Bytes.Map.{Map, lookup, insert, lookup-insert}
use agent_native_db.Graph.Search.{Search, is_in, visit}
use agent_native_db.Graph.Search.Paths.{HasParent}
use agent_native_db.Graph.Search.Invariant.{IsBand, IsBand-push, IsBand-same, Seen, IsSearch}

pub length-insert :
    (k v : Bytes) (m : Map Bytes) → lookup k m ≡ none → length (insert k v m) ≡ suc (length m)
unfolding insert lookup
length-insert k v [] h = refl
length-insert k v ((j, w) ∷ m) h = ground (arith, length-insert k v m)

In-snoc : (y v : Bytes) (q : List Bytes) → In y (q ++ v ∷ []) → In y q ⊎ (y ≡ v)
In-snoc y v [] (inl e) = inr e
In-snoc y v [] (inr i) = elim i [ ]
In-snoc y v (x ∷ q) (inl e) = inl (inl e)
In-snoc y v (x ∷ q) (inr i) = elim (In-snoc y v q i) [ inl k ↦ inl (inr k) | inr e ↦ inr e ]

In-append : (y v : Bytes) (q : List Bytes) → In y q → In y (q ++ v ∷ [])
In-append y v [] i = elim i [ ]
In-append y v (x ∷ q) (inl e) = inl e
In-append y v (x ∷ q) (inr i) = inr (In-append y v q i)

In-last : (v : Bytes) (q : List Bytes) → In v (q ++ v ∷ [])
In-last v [] = inl refl
In-last v (x ∷ q) = inr (In-last v q)

-- The depths behind the visit of `v` from `u`.
abbrev pub deeper : (Bytes → ℕ) → Bytes → Bytes → Bytes → ℕ
deeper d u v x = if eq_bytes v x then suc (d u) else d x

module _ (next : Bytes → List Bytes) (from to : Bytes) (universe : List Bytes) (d : Bytes → ℕ)
    (u v : Bytes) (vs : List Bytes) (st : Search)
    (h : IsSearch next from to universe d u (v ∷ vs) st) (new : is_in v st.visited ≡ false) where
  abbrev after : Search
  after = visit st u v

  -- A name that was visited before is another one, and has the depth that it had.
  pub old :
      (x : Bytes)
      → Seen st x
      → (eq_bytes v x ≡ false)
        × Seen after x
        × (deeper d u v x ≡ d x)
        × (lookup x after.parent ≡ lookup x st.parent)
  unfolding visit is_in
  old x s =
      let other : eq_bytes v x ≡ false = ground (arith, eq_bytes_iff v x, new, s) in
      (
        other,
        ground (arith, s),
        ground (arith, other),
        ground (arith, lookup-insert v x u st.parent, other),
      )

  -- The names that are visited then.
  cases : (x : Bytes) → Seen after x → (v ≡ x) ⊎ Seen st x
  unfolding visit is_in
  cases x s = ground (arith, eq_bytes_iff v x)

  new_seen : Seen after v
  unfolding visit is_in
  new_seen = ground (arith, eq_bytes_iff v v)

  depth_new : deeper d u v v ≡ suc (d u)
  depth_new = ground (arith, eq_bytes_iff v v)

  tree-after : (x : Bytes) → Seen after x → HasParent next from after.parent (deeper d u v) x
  tree-after x s = elim (cases x s) [
    | inl e ↦ inr (
      u,
      unfold visit in (lookup-insert v x u st.parent ∙ ground (arith, eq_bytes_iff v x, e)),
      subst (λ (y : Bytes). In y (next u)) e (h.left v (inl refl)),
      ap (deeper d u v) (sym e) ∙ depth_new ∙ ap suc (sym ((old u h.current_seen).2)),
    )
    | inr k ↦ elim (h.tree x k) [
      | inl (start, none_there, zero_depth) ↦
          inl (start, (old x k).3 ∙ none_there, (old x k).2 ∙ zero_depth)
      | inr (p, there, linked, deep) ↦ inr (
        p,
        (old x k).3 ∙ there,
        linked,
        (old x k).2 ∙ deep ∙ ap suc (sym ((old p (h.up x p k there)).2)),
      )
    ]
  ]

  up-after : (x p : Bytes) → Seen after x → lookup x after.parent ≡ some p → Seen after p
  up-after x p s there = elim (cases x s) [
    | inl e ↦
        let is_u : some u ≡ some p =
          sym (lookup-insert v x u st.parent ∙ ground (arith, eq_bytes_iff v x, e))
          ∙ unfold visit in there in
        subst (Seen after) (cc is_u) ((old u h.current_seen).1)
    | inr k ↦ (old p (h.up x p k (sym ((old x k).3) ∙ there))).1
  ]

  bounded-after : (x : Bytes) → Seen after x → deeper d u v x ≤ length after.parent
  unfolding visit
  bounded-after x s =
      let longer = length-insert v u st.parent (h.fresh v new) in
      elim (cases x s) [
        | inl e ↦
            omega (arith, ap (deeper d u v) (sym e), depth_new, longer, h.bounded u h.current_seen)
        | inr k ↦ omega (arith, (old x k).2, longer, h.bounded x k)
      ]

  fresh-after : (x : Bytes) → is_in x after.visited ≡ false → lookup x after.parent ≡ none
  unfolding visit is_in
  fresh-after x s = lookup-insert v x u st.parent ∙ ground (arith, s, h.fresh x)

  IsBand-after : IsBand (deeper d u v) (deeper d u v u) after.queue
  unfolding visit
  IsBand-after =
      subst (λ (n : ℕ). IsBand (deeper d u v) n (st.queue ++ v ∷ []))
        (sym ((old u h.current_seen).2))
        (IsBand-push (deeper d u v) (d u) st.queue v
          (IsBand-same d (deeper d u v) (d u) st.queue (λ y i. (old y (h.queued y i)).2) h.band)
          depth_new)

  closed-after :
      (w : Bytes)
      → Seen after w
      → In w after.queue
        ⊎ ((x : Bytes)
            → In x (next w)
            → ((w ≡ u) × In x vs) ⊎ (Seen after x × (deeper d u v x ≤ suc (deeper d u v w))))
  unfolding visit
  closed-after w s = elim (cases w s) [
    | inl e ↦ inl (subst (λ (y : Bytes). In y (st.queue ++ v ∷ [])) e (In-last v st.queue))
    | inr k ↦ elim (h.closed w k) [
      | inl i ↦ inl (In-append w v st.queue i)
      | inr near ↦ inr (λ x i. elim (near x i) [
        | inl (e, inl now) ↦ inr (
          subst (Seen after) (sym now) new_seen,
          omega (arith, ap (deeper d u v) now, depth_new, (old w k).2, ap d e),
        )
        | inl (e, inr waiting) ↦ inl (e, waiting)
        | inr (done, le) ↦ inr ((old x done).1, omega (arith, (old x done).2, (old w k).2, le))
      ])
    ]
  ]

  -- The visit of a name that is not the goal keeps the invariant.
  pub visited :
      eq_bytes v to ≡ false
      → In v universe
      → IsSearch next from to universe (deeper d u v) u vs after
  visited other inside =
      let (_, u_seen, u_depth, _) = old u h.current_seen in
      record {
        start_seen = (old from h.start_seen).1;
        start_depth = (old from h.start_seen).2 ∙ h.start_depth;
        goal_unseen = unfold visit is_in in ground (arith, other, h.goal_unseen);
        current_seen = u_seen;
        known = λ x s. elim (cases x s) [
          | inl e ↦ subst (λ (y : Bytes). In y universe) e inside
          | inr k ↦ h.known x k
        ];
        tree = tree-after;
        up = up-after;
        fresh = fresh-after;
        queued = λ x i.
            unfold visit in
            elim (In-snoc x v st.queue i) [
              | inl k ↦ (old x (h.queued x k)).1
              | inr e ↦ subst (Seen after) (sym e) new_seen
            ];
        band = IsBand-after;
        shallow = λ x s. elim (cases x s) [
          | inl e ↦ omega (arith, ap (deeper d u v) (sym e), depth_new, u_depth)
          | inr k ↦ omega (arith, (old x k).2, u_depth, h.shallow x k)
        ];
        bounded = bounded-after;
        left = λ x i. h.left x (inr i);
        closed = closed-after;
      }
