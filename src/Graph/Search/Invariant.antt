-- ===== src/Graph/Search/Invariant.antt =====
-- The invariant of the breadth-first search.
use agent_native_db.Prelude.{
  ℕ, suc, ◌≤◌, ◌≡◌, refl, sym, ap, ◌∙◌, subst, ◌⊎◌, inl, inr, true, false, none, some, List, [],
  ◌∷◌, ◌++◌, In, All, length, arith,
}
use agent_native_db.Bytes.{Bytes}
use agent_native_db.Bytes.Map.{lookup}
use agent_native_db.Graph.Search.{Search, is_in}
use agent_native_db.Graph.Search.Paths.{HasParent}

-- A queue whose names have one depth, and then the next.
abbrev pub IsBand : (Bytes → ℕ) → ℕ → List Bytes → Type 0
IsBand d k [] = Unit
IsBand d k (x ∷ q) = ((d x ≡ k) × IsBand d k q) ⊎ All (λ (y : Bytes). d y ≡ suc k) (x ∷ q)

All_mem : {A : Type 0} (P : A → Type 0) (xs : List A) (y : A) → All P xs → In y xs → P y
All_mem P [] y h i = elim i [ ]
All_mem P (x ∷ xs) y h (inl e) = subst P (sym e) h.0
All_mem P (x ∷ xs) y h (inr i) = All_mem P xs y h.1 i

All-snoc :
    {A : Type 0} (P : A → Type 0) (xs : List A) (y : A) → All P xs → P y → All P (xs ++ y ∷ [])
All-snoc P [] y h p = (p, tt)
All-snoc P (x ∷ xs) y h p = (h.0, All-snoc P xs y h.1 p)

module _ (d : Bytes → ℕ) (k : ℕ) where
  IsBand-flat : (q : List Bytes) → All (λ (y : Bytes). d y ≡ k) q → IsBand d k q
  IsBand-flat [] h = tt
  IsBand-flat (x ∷ q) h = inl (h.0, IsBand-flat q h.1)

  pub IsBand-above : (q : List Bytes) (y : Bytes) → IsBand d k q → In y q → k ≤ d y
  IsBand-above [] y b i = elim i [ ]
  IsBand-above (x ∷ q) y (inl p) (inl e) = omega (arith, p.0, ap d e)
  IsBand-above (x ∷ q) y (inl p) (inr i) = IsBand-above q y p.1 i
  IsBand-above (x ∷ q) y (inr p) i =
      omega (arith, All_mem (λ (z : Bytes). d z ≡ suc k) (x ∷ q) y p i)

  pub IsBand-push :
      (q : List Bytes) (v : Bytes) → IsBand d k q → d v ≡ suc k → IsBand d k (q ++ v ∷ [])
  IsBand-push [] v b h = inr (h, tt)
  IsBand-push (x ∷ q) v (inl p) h = inl (p.0, IsBand-push q v p.1 h)
  IsBand-push (x ∷ q) v (inr p) h = inr (All-snoc (λ (z : Bytes). d z ≡ suc k) (x ∷ q) v p h)

-- Behind the first name the queue is a band from its depth on.
pub IsBand-pop :
    (d : Bytes → ℕ) (k : ℕ) (x : Bytes) (q : List Bytes)
    → IsBand d k (x ∷ q)
    → (k ≤ d x) × IsBand d (d x) q
IsBand-pop d k x q (inl p) = (omega (arith, p.0), subst (λ (n : ℕ). IsBand d n q) (sym p.0) p.1)
IsBand-pop d k x q (inr p) =
    (omega (arith, p.0), subst (λ (n : ℕ). IsBand d n q) (sym p.0) (IsBand-flat d (suc k) q p.1))

-- Depths that agree on the queue give the same bands.
pub IsBand-same :
    (d d' : Bytes → ℕ) (k : ℕ) (q : List Bytes)
    → ((y : Bytes) → In y q → d' y ≡ d y)
    → IsBand d k q
    → IsBand d' k q
IsBand-same d d' k [] same b = tt
IsBand-same d d' k (x ∷ q) same (inl p) =
    inl (same x (inl refl) ∙ p.0, IsBand-same d d' k q (λ y i. same y (inr i)) p.1)
IsBand-same d d' k (x ∷ q) same (inr p) = inr (All_same (x ∷ q) same p)
  where
    All_same :
        (q : List Bytes)
        → ((y : Bytes) → In y q → d' y ≡ d y)
        → All (λ (y : Bytes). d y ≡ suc k) q
        → All (λ (y : Bytes). d' y ≡ suc k) q
    All_same [] same h = tt
    All_same (x ∷ q) same h = (same x (inl refl) ∙ h.0, All_same q (λ y i. same y (inr i)) h.1)

abbrev pub Seen : Search → Bytes → Type 0
Seen st x = is_in x st.visited ≡ true

module _ (next : Bytes → List Bytes) (from to : Bytes) (universe : List Bytes) where
  -- The state of the loops while the neighbours `vs` of the name `u` are still to be gone through, with
  -- the depth of each name that was visited.
  pub record IsSearch (d : Bytes → ℕ) (u : Bytes) (vs : List Bytes) (st : Search) : Type 0 where
    pub start_seen : Seen st from
    pub start_depth : d from ≡ 0
    pub goal_unseen : is_in to st.visited ≡ false
    pub current_seen : Seen st u
    pub known : (x : Bytes) → Seen st x → In x universe
    pub tree : (x : Bytes) → Seen st x → HasParent next from st.parent d x
    pub up : (x p : Bytes) → Seen st x → lookup x st.parent ≡ some p → Seen st p
    pub fresh : (x : Bytes) → is_in x st.visited ≡ false → lookup x st.parent ≡ none
    pub queued : (x : Bytes) → In x st.queue → Seen st x
    pub band : IsBand d (d u) st.queue
    pub shallow : (x : Bytes) → Seen st x → d x ≤ suc (d u)
    pub bounded : (x : Bytes) → Seen st x → d x ≤ length st.parent
    pub left : (v : Bytes) → In v vs → In v (next u)
    pub closed :
        (w : Bytes)
        → Seen st w
        → In w st.queue
          ⊎ ((v : Bytes) → In v (next w) → ((w ≡ u) × In v vs) ⊎ (Seen st v × (d v ≤ suc (d w))))

  -- A neighbour that was visited before changes nothing.
  pub skipped :
      (d : Bytes → ℕ) (u v : Bytes) (vs : List Bytes) (st : Search)
      → IsSearch d u (v ∷ vs) st
      → Seen st v
      → IsSearch d u vs st
  skipped d u v vs st h seen = record {
    start_seen = h.start_seen;
    start_depth = h.start_depth;
    goal_unseen = h.goal_unseen;
    current_seen = h.current_seen;
    known = h.known;
    tree = h.tree;
    up = h.up;
    fresh = h.fresh;
    queued = h.queued;
    band = h.band;
    shallow = h.shallow;
    bounded = h.bounded;
    left = λ x i. h.left x (inr i);
    closed = λ w s. elim (h.closed w s) [
      | inl i ↦ inl i
      | inr near ↦ inr (λ x i. elim (near x i) [
        | inr done ↦ inr done
        | inl (e, inr waiting) ↦ inl (e, waiting)
        | inl (e, inl now) ↦
            inr (subst (Seen st) (sym now) seen, omega (arith, h.shallow v seen, ap d now, ap d e))
      ])
    ];
  }

  -- The next name leaves the queue.
  pub popped :
      (d : Bytes → ℕ) (u x : Bytes) (q : List Bytes) (st : Search)
      → st.queue ≡ x ∷ q
      → IsSearch d u [] st
      → IsSearch d x (next x) (record st { queue = q })
  popped d u x q st e h =
      let (nearer, band) = IsBand-pop d (d u) x q (subst (IsBand d (d u)) e h.band) in
      record {
        start_seen = h.start_seen;
        start_depth = h.start_depth;
        goal_unseen = h.goal_unseen;
        current_seen = h.queued x (subst (In x) (sym e) (inl refl));
        known = h.known;
        tree = h.tree;
        up = h.up;
        fresh = h.fresh;
        queued = λ y i. h.queued y (subst (In y) (sym e) (inr i));
        band = band;
        shallow = λ y s. omega (arith, h.shallow y s, nearer);
        bounded = h.bounded;
        left = λ v i. i;
        closed = λ w s. elim (h.closed w s) [
          | inl i ↦ elim (subst (In w) e i) [
            | inl now ↦ inr (λ v k. inl (now, subst (λ (t : Bytes). In v (next t)) now k))
            | inr later ↦ inl later
          ]
          | inr near ↦ inr (λ v i. elim (near v i) [ inl p ↦ elim (p.1) [ ] | inr done ↦ inr done ])
        ];
      }
