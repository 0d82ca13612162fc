-- ===== src/Graph/Search/Shortest.antt =====
-- The search ends, and finds a shortest path exactly where there is a walk.
use agent_native_db.Prelude.{
  ℕ, zero, suc, ◌+◌, ◌<◌, ◌≤◌, ◌≡◌, refl, sym, ap, ◌∙◌, subst, ◌⊎◌, inl, inr, true, false, List, [],
  ◌∷◌, In, length, length-append, arith, Bool-cases,
}
use agent_native_db.Bytes.{Bytes, eq_bytes}
use agent_native_db.Bytes.Lex.{eq_bytes_iff}
use agent_native_db.Bytes.Map.{Map, lookup, insert, get_or, lookup-insert}
use agent_native_db.Graph.Search.{
  Search, Outcome, going, found, path, no_path, is_in, visit, scan, trace_back, search, started,
  path_between,
}
use agent_native_db.Graph.Search.Paths.{Walk, here, step, IsPath, trace_back-IsPath}
use agent_native_db.Graph.Search.Invariant.{IsBand-above, Seen, IsSearch, skipped, popped}
use agent_native_db.Graph.Search.Visited.{deeper, old, length-insert, visited}
use agent_native_db.Graph.Search.Unseen.{
  unseen, unseen-lt, unseen-le-length, queue_cases, search_empty, search_going, search_found,
}

module _ (next : Bytes → List Bytes) (from to : Bytes) (universe : List Bytes)
    (inside : (u v : Bytes) → In u universe → In v (next u) → In v universe)
    (named : ¬ In [] universe) where
  -- No walk to the goal is shorter than a path.
  abbrev pub IsShortest : List Bytes → Type 0
  IsShortest ps = (n : ℕ) → Walk next from n to → length ps ≤ suc n

  -- A shortest path, or no path and no walk.
  abbrev pub IsAnswer : Outcome → Type 0
  IsAnswer r =
      ((ps : List Bytes) × (r ≡ path ps) × IsPath next from to ps × IsShortest ps)
      ⊎ ((r ≡ no_path) × ((n : ℕ) → ¬ Walk next from n to))

  abbrev IsState : (Bytes → ℕ) → Bytes → List Bytes → Search → Type 0
  IsState d u vs st = IsSearch next from to universe d u vs st

  -- Between rounds a walk leads to a name that was visited at its depth, or past the queue.
  nearest :
      (d : Bytes → ℕ) (c : Bytes) (st : Search)
      → IsState d c [] st
      → {n : ℕ} {x : Bytes} → Walk next from n x
      → (Seen st x × (d x ≤ n)) ⊎ ((y : Bytes) × In y st.queue × (d y < n))
  nearest d c st h here = inl (h.start_seen, omega (arith, h.start_depth))
  nearest d c st h (step {n} {u} {v} walk edge) = elim (nearest d c st h walk) [
    | inr (y, i, lt) ↦ inr (y, i, omega (arith, lt))
    | inl (seen, le) ↦ elim (h.closed u seen) [
      | inl i ↦ inr (u, i, omega (arith, le))
      | inr near ↦ elim (near v edge) [
        | inl p ↦ elim (p.1) [ ]
        | inr (done, deep) ↦ inl (done, omega (arith, deep, le))
      ]
    ]
  ]

  -- What the loop over the neighbours does: it goes on with less to do, or answers.
  abbrev IsScanned : (Bytes → ℕ) → Bytes → List Bytes → Search → Type 0
  IsScanned d u vs st =
      ((st' : Search) × (d' : Bytes → ℕ) × (scan to u st vs ≡ going st')
        × IsState d' u [] st'
        × (unseen universe st'.visited + length st'.queue
            ≤ unseen universe st.visited + length st.queue))
      ⊎ ((parent : Map Bytes) × (ps : List Bytes) × (scan to u st vs ≡ found parent)
          × (trace_back (suc (length parent)) parent (get_or [] to parent) (to ∷ []) ≡ path ps)
          × IsPath next from to ps
          × IsShortest ps)

  seen-named :
      (d : Bytes → ℕ) (u : Bytes) (vs : List Bytes) (st : Search)
      → IsState d u vs st
      → (x : Bytes) → Seen st x
      → eq_bytes x [] ≡ false
  seen-named d u vs st h x s = elim (Bool-cases (eq_bytes x [])) [
    | inl e ↦
        absurd
          (named (subst (λ (y : Bytes). In y universe) ((eq_bytes_iff x []).0 e) (h.known x s)))
    | inr ne ↦ ne
  ]

  -- The goal is found behind the name that was popped last.
  arrived :
      (d : Bytes → ℕ) (u v : Bytes) (vs : List Bytes) (st : Search)
      → IsState d u (v ∷ vs) st
      → is_in v st.visited ≡ false
      → v ≡ to
      → (ps : List Bytes) × (trace_back
            (suc (length (insert v u st.parent)))
            (insert v u st.parent)
            (get_or [] to (insert v u st.parent))
            (to ∷ [])
          ≡ path ps)
        × IsPath next from to ps
        × (length ps ≡ suc (d u) + 1)
  arrived d u v vs st h new e =
      let was : (x : Bytes) → Seen st x → lookup x (insert v u st.parent) ≡ lookup x st.parent =
        λ x s. unfold visit in (old next from to universe d u v vs st h new x s).3 in
      let first : get_or [] to (insert v u st.parent) ≡ u =
        unfold get_or in ground (arith, lookup-insert v to u st.parent, eq_bytes_iff v to, e) in
      let (ps, is, is_path, len) =
        trace_back-IsPath next from to (insert v u st.parent) d (Seen st)
          (seen-named d u (v ∷ vs) st h)
          (λ x s. elim (h.tree x s) [
            | inl (p, q, r) ↦ inl (p, was x s ∙ q, r)
            | inr (p, q, r, t) ↦ inr (p, was x s ∙ q, r, t)
          ])
          (λ x p s t. h.up x p s (sym (was x s) ∙ t)) (suc (length (insert v u st.parent))) u
          (to ∷ []) h.current_seen
          (omega (arith, length-insert v u st.parent (h.fresh v new), h.bounded u h.current_seen))
          (subst (λ (y : Bytes). In y (next u)) e (h.left v (inl refl)), refl) in
      (ps, rw first is, is_path, len)

  scan-IsScanned :
      (d : Bytes → ℕ) (u : Bytes) (vs : List Bytes) (st : Search)
      → IsState d u vs st
      → ((n : ℕ) → Walk next from n to → suc (d u) ≤ n)
      → IsScanned d u vs st
  unfolding scan
  scan-IsScanned d u [] st h far = inl (st, d, refl, h, omega arith)
  scan-IsScanned d u (v ∷ vs) st h far = elim (Bool-cases (is_in v st.visited)) [
    | inl again ↦
        rw (again, scan)
          (scan-IsScanned d u vs st (skipped next from to universe d u v vs st h again) far)
    | inr new ↦ elim (Bool-cases (eq_bytes v to)) [
      | inl goal ↦
          let (ps, is, is_path, len) = arrived d u v vs st h new ((eq_bytes_iff v to).0 goal) in
          rw (new, goal, scan)
            (inr (insert v u st.parent, ps, refl, is, is_path, λ n w. omega (arith, len, far n w)))
      | inr other ↦
          let i = inside u v (h.known u h.current_seen) (h.left v (inl refl)) in
          let h' = visited next from to universe d u v vs st h new other i in
          let deep = (old next from to universe d u v vs st h new u h.current_seen).2 in
          let less : unseen universe (visit st u v).visited + length (visit st u v).queue
              ≤ unseen universe st.visited + length st.queue =
            unfold visit in
            omega (arith, unseen-lt universe v st.visited i new, length-append st.queue (v ∷ [])) in
          elim (scan-IsScanned (deeper d u v) u vs (visit st u v) h'
            (λ n w. omega (arith, deep, far n w))) [
              | inl (st', d', e, k, le) ↦
                  rw (new, other, scan) (inl (st', d', e, k, omega (arith, le, less)))
              | inr answer ↦ rw (new, other, scan) (inr answer)
            ]
    ]
  ]

  -- With an empty queue nothing leads to the goal.
  finished :
      (d : Bytes → ℕ) (u : Bytes) (st : Search)
      → IsState d u [] st
      → st.queue ≡ []
      → (n : ℕ) → ¬ Walk next from n to
  finished d u st h e n w = elim (nearest d u st h w) [
    | inl (seen, le) ↦ absurd (ground (arith, seen, h.goal_unseen))
    | inr (y, i, lt) ↦ absurd (subst (In y) e i)
  ]

  -- The goal is deeper than the name that leaves the queue.
  farther :
      (d : Bytes → ℕ) (u x : Bytes) (q : List Bytes) (st : Search)
      → IsState d u [] st
      → st.queue ≡ x ∷ q
      → (n : ℕ) → Walk next from n to
      → suc (d x) ≤ n
  farther d u x q st h e n w = elim (nearest d u st h w) [
    | inl (seen, le) ↦ absurd (ground (arith, seen, h.goal_unseen))
    | inr (y, i, lt) ↦ elim (subst (In y) e i) [
      | inl now ↦ omega (arith, ap d now, lt)
      | inr later ↦ omega (
        arith,
        lt,
        IsBand-above d (d x) q y ((popped next from to universe d u x q st e h).band) later,
      )
    ]
  ]

  -- With fuel for the names that are not visited and those in the queue the search answers.
  search-IsAnswer :
      (fuel : ℕ) (d : Bytes → ℕ) (u : Bytes) (st : Search)
      → IsState d u [] st
      → unseen universe st.visited + length st.queue ≤ fuel
      → IsAnswer (search next fuel to st)
  search-IsAnswer zero d u st h enough = elim (queue_cases st.queue) [
    | inl e ↦ inr (search_empty next zero to st e, finished d u st h e)
    | inr (x, q, e) ↦ absurd (omega (arith, enough, ap length e))
  ]
  search-IsAnswer (suc f) d u st h enough = elim (queue_cases st.queue) [
    | inl e ↦ inr (search_empty next (suc f) to st e, finished d u st h e)
    | inr (x, q, e) ↦
        elim (scan-IsScanned d x (next x) (record st { queue = q })
          (popped next from to universe d u x q st e h) (farther d u x q st h e)) [
            | inl (st', d', s, k, le) ↦
                rw (search_going next f to st x q e st' s)
                  (search-IsAnswer f d' x st' k (omega (arith, enough, le, ap length e)))
            | inr (parent, ps, s, t, is_path, short) ↦
                inl (ps, search_found next f to st x q e parent s ∙ t, is_path, short)
          ]
  ]

  start-IsState :
      In from universe → eq_bytes from to ≡ false → IsState (λ x. 0) from [] (started next from)
  unfolding started is_in lookup
  start-IsState i other =
      let only : (x : Bytes) → Seen (started next from) x → from ≡ x =
        λ x s. ground (arith, eq_bytes_iff from x, s) in
      record {
        start_seen = ground (arith, eq_bytes_iff from from);
        start_depth = refl;
        goal_unseen = ground (arith, other);
        current_seen = ground (arith, eq_bytes_iff from from);
        known = λ x s. subst (λ (y : Bytes). In y universe) (only x s) i;
        tree = λ x s. inl (sym (only x s), refl, refl);
        up = λ x p s t. absurd (ground (arith, t));
        fresh = λ x s. refl;
        queued = λ x k. elim k [
          | inl now ↦
              subst (λ (y : Bytes). is_in y (from ∷ []) ≡ true) (sym now)
                (ground (arith, eq_bytes_iff from from))
          | inr n ↦ elim n [ ]
        ];
        band = inl (refl, tt);
        shallow = λ x s. omega arith;
        bounded = λ x s. omega arith;
        left = λ v k. elim k [ ];
        closed = λ w s. inl (inl (sym (only w s)));
      }

  start_enough :
      {fuel : ℕ}
      → In from universe
      → length universe ≤ fuel
      → unseen universe (started next from).visited + length ((started next from).queue) ≤ fuel
  unfolding started is_in
  start_enough i enough =
      omega (arith, unseen-lt universe from [] i refl, unseen-le-length universe [], enough)

  -- From a known name the search answers with fuel for all the names.
  pub path_between-IsAnswer :
      (fuel : ℕ)
      → In from universe
      → length universe ≤ fuel
      → IsAnswer (path_between next fuel from to)
  unfolding path_between
  path_between-IsAnswer fuel i enough = elim (Bool-cases (eq_bytes from to)) [
    | inl e ↦
        inl (from ∷ [], ground (arith, e), (refl, (eq_bytes_iff from to).0 e), λ n w. omega arith)
    | inr other ↦ rw other (
        search-IsAnswer fuel (λ x. 0) from (started next from) (start-IsState i other)
          (start_enough i enough))
  ]
