-- ===== src/Storage/Cache/Order.antt =====
-- The elements of the cache's list, and the entries that they hold.
use agent_native_db.Prelude.{
  ℕ, ◌<◌, ◌≤◌, ◌≡◌, ◌≢◌, refl, inl, inr, Option, none, some, List, [], ◌∷◌, All, arith, ◌==◌,
  ==_iff, Bool-cases, if◌then◌else◌,
}
use agent_native_db.Bytes.{Bytes, eq_bytes}
use agent_native_db.Bytes.Lex.{eq_bytes_iff}
use agent_native_db.Bytes.Map.{Map, lookup, erase}
use agent_native_db.Storage.Cache.{Element, element, take_out, back}

-- The keys and values, the most recently used first.
abbrev pub entries : List Element → Map Bytes
entries [] = []
entries (e ∷ es) = (e.key, e.value) ∷ entries es

-- The identity of the element of a key.
abbrev pub id_of : Bytes → List Element → Option ℕ
id_of k [] = none
id_of k (e ∷ es) = if eq_bytes e.key k then some e.id else id_of k es

-- No two elements have one identity or one key.
abbrev pub AreDistinct : List Element → Type 0
AreDistinct [] = Unit
AreDistinct (e ∷ es) = (id_of e.key es ≡ none) × (element e.id es ≡ none) × AreDistinct es

abbrev pub AreBelow : ℕ → List Element → Type 0
AreBelow n = All (λ (e : Element). e.id < n)

pub erase_absent :
    (k : Bytes) (es : List Element) → id_of k es ≡ none → erase k (entries es) ≡ entries es
unfolding erase
erase_absent k [] h = refl
erase_absent k (e ∷ es) h = ground (arith, erase_absent k es)

pub lookup_absent :
    (k : Bytes) (es : List Element) → id_of k es ≡ none → lookup k (entries es) ≡ none
unfolding lookup
lookup_absent k [] h = refl
lookup_absent k (e ∷ es) h = ground (arith, lookup_absent k es)

element_absent : (k : Bytes) (i : ℕ) (es : List Element) → id_of k es ≡ some i → element i es ≢ none
unfolding element
element_absent k i [] h = cc
element_absent k i (e ∷ es) h = ground (arith, element_absent k i es)

-- The element that a key's identity stands for.
pub element-id_of :
    (k : Bytes) (i : ℕ) (es : List Element)
    → AreDistinct es
    → id_of k es ≡ some i
    → (e : Element) × (element i es ≡ some e)
      × (e.key ≡ k)
      × (e.id ≡ i)
      × (lookup k (entries es) ≡ some e.value)
unfolding element lookup
element-id_of k i [] d h = cc
element-id_of k i (e ∷ es) d h = elim (Bool-cases (eq_bytes e.key k)) [
  | inl hit ↦ (e, ground arith, (eq_bytes_iff e.key k).0 hit, ground arith, ground arith)
  | inr miss ↦
      let later : id_of k es ≡ some i = ground arith in
      let (x, there, key, id, held) = element-id_of k i es d.2 later in
      (x, ground (arith, there, d.1, element_absent k i es later), key, id, ground (arith, held))
]

pub entries-take_out :
    (k : Bytes) (i : ℕ) (es : List Element)
    → AreDistinct es
    → id_of k es ≡ some i
    → entries (take_out i es) ≡ erase k (entries es)
unfolding take_out erase element
entries-take_out k i [] d h = cc
entries-take_out k i (e ∷ es) d h = ground (
  arith,
  eq_bytes_iff e.key k,
  erase_absent k es,
  entries-take_out k i es d.2,
  element_absent k i es,
  d.0,
  d.1,
)

pub id_of-take_out :
    (k j : Bytes) (i : ℕ) (es : List Element)
    → AreDistinct es
    → id_of k es ≡ some i
    → id_of j (take_out i es) ≡ (if eq_bytes k j then none else id_of j es)
unfolding take_out element
id_of-take_out k j i [] d h = cc
id_of-take_out k j i (e ∷ es) d h = ground (
  arith,
  eq_bytes_iff e.key k,
  eq_bytes_iff e.key j,
  eq_bytes_iff k j,
  id_of-take_out k j i es d.2,
  element_absent k i es,
  d.0,
  d.1,
)

element-take_out :
    (i x : ℕ) (es : List Element) → element x es ≡ none → element x (take_out i es) ≡ none
unfolding element take_out
element-take_out i x [] h = refl
element-take_out i x (e ∷ es) h = ground (arith, element-take_out i x es)

id_of-take_out-none :
    (i : ℕ) (j : Bytes) (es : List Element) → id_of j es ≡ none → id_of j (take_out i es) ≡ none
unfolding take_out
id_of-take_out-none i j [] h = refl
id_of-take_out-none i j (e ∷ es) h = ground (arith, id_of-take_out-none i j es)

pub take_out-AreDistinct :
    (i : ℕ) (es : List Element) → AreDistinct es → AreDistinct (take_out i es)
unfolding take_out
take_out-AreDistinct i [] d = tt
take_out-AreDistinct i (e ∷ es) d = elim (Bool-cases (e.id == i)) [
  | inl hit ↦ rw hit (d.2)
  | inr miss ↦ rw miss (
    id_of-take_out-none i e.key es d.0,
    element-take_out i e.id es d.1,
    take_out-AreDistinct i es d.2,
  )
]

pub take_out-AreBelow : (i n : ℕ) (es : List Element) → AreBelow n es → AreBelow n (take_out i es)
unfolding take_out
take_out-AreBelow i n [] b = tt
take_out-AreBelow i n (e ∷ es) b = elim (Bool-cases (e.id == i)) [
  | inl hit ↦ rw hit (b.1)
  | inr miss ↦ rw miss (b.0, take_out-AreBelow i n es b.1)
]

-- What was taken out is not there any more.
pub element-take_out_same :
    (i : ℕ) (k : Bytes) (es : List Element) → AreDistinct es → element i (take_out i es) ≡ none
unfolding element take_out
element-take_out_same i k [] d = refl
element-take_out_same i k (e ∷ es) d =
    ground (arith, element-take_out_same i k es d.2, d.1, ==_iff e.id i)

pub element_fresh : (n : ℕ) (es : List Element) → AreBelow n es → element n es ≡ none
unfolding element
element_fresh n [] b = refl
element_fresh n (e ∷ es) b = ground (arith, element_fresh n es b.1, b.0)

pub AreBelow-weaken : (n m : ℕ) (es : List Element) → n ≤ m → AreBelow n es → AreBelow m es
AreBelow-weaken n m [] h b = tt
AreBelow-weaken n m (e ∷ es) h b = (omega (arith, b.0), AreBelow-weaken n m es h b.1)

-- The last element is that of its key.
pub id_of-back :
    (es : List Element) (e : Element)
    → AreDistinct es
    → back es ≡ some e
    → id_of e.key es ≡ some e.id
unfolding back
id_of-back [] e d h = cc
id_of-back (x ∷ []) e d h = ground (arith, eq_bytes_iff x.key x.key)
id_of-back (x ∷ y ∷ es) e d h =
    let later = id_of-back (y ∷ es) e d.2 h in ground (arith, later, d.0, eq_bytes_iff x.key e.key)
