-- ===== src/Storage/Cache/Refines.antt =====
-- The cache against its description: a list of entries, the most recently used first.
use agent_native_db.Prelude.{
  ℕ, suc, ◌+◌, ◌<◌, ◌≤◌, ◌≡◌, ◌≢◌, refl, ap, ◌∙◌, sym, inl, inr, none, some, List, [], ◌∷◌, arith,
  ◌==◌, leb, length, max, Bool-cases, Option-cases, if◌then◌else◌,
}
use agent_native_db.Bytes.{Bytes}
use agent_native_db.Bytes.Lex.{eq_bytes_iff}
use agent_native_db.Bytes.Map.{Map, lookup, erase, lookup-insert, lookup-erase}
use agent_native_db.Storage.Cache.{
  Element, Cache, element, take_out, to_front, set_value, value_of, back, get, remove_element,
  evict, make_room, push, set, delete, clear,
}
use agent_native_db.Storage.Cache.Order.{
  entries, id_of, AreDistinct, AreBelow, element-id_of, entries-take_out, id_of-take_out,
  take_out-AreDistinct, take_out-AreBelow, element-take_out_same, element_fresh, AreBelow-weaken,
  id_of-back, erase_absent, lookup_absent,
}

-- `items` finds exactly the elements of the list, which are distinct and not too many.
pub record IsCache (c : Cache) : Type 0 where
  pub index : (k : Bytes) → lookup k c.items ≡ id_of k c.order
  pub distinct : AreDistinct c.order
  pub below : AreBelow c.next c.order
  pub fits : length c.order ≤ max 1 c.max_size

all_but_last : Map Bytes → Map Bytes
all_but_last [] = []
all_but_last (x ∷ []) = []
all_but_last (x ∷ y ∷ xs) = x ∷ all_but_last (y ∷ xs)

pub data Request : Type 0 where
  gets deletes : Bytes → Request
  sets : Bytes → Bytes → Request
  clears : Request

unfoldable pub run : Cache → Request → Cache
run c (gets k) = (get c k).0
run c (deletes k) = delete c k
run c (sets k v) = set c k v
run c clears = clear c

-- What a request does to the entries of a cache of some size.
unfoldable pub described : ℕ → Map Bytes → Request → Map Bytes
unfolding all_but_last
described m xs (gets k) = elim (lookup k xs) [ none ↦ xs | some v ↦ (k, v) ∷ erase k xs ]
described m xs (deletes k) = erase k xs
described m xs (sets k v) = elim (lookup k xs) [
  | some w ↦ (k, v) ∷ erase k xs
  | none ↦ (k, v) ∷ (if leb m (length xs) then all_but_last xs else xs)
]
described m xs clears = []

length-entries : (es : List Element) → length (entries es) ≡ length es
length-entries [] = refl
length-entries (e ∷ es) = ap suc (length-entries es)

length-take_out :
    (i : ℕ) (es : List Element) → element i es ≢ none → suc (length (take_out i es)) ≡ length es
unfolding element take_out
length-take_out i [] h = absurd (h refl)
length-take_out i (e ∷ es) h = elim (Bool-cases (e.id == i)) [
  | inl hit ↦ rw hit refl
  | inr miss ↦ rw miss (ap suc (length-take_out i es (λ n. h (rw miss n))))
]

element-AreBelow :
    (n i : ℕ) (e : Element) (es : List Element) → AreBelow n es → element i es ≡ some e → e.id < n
unfolding element
element-AreBelow n i e [] b h = cc
element-AreBelow n i e (x ∷ es) b h = ground (arith, b.0, element-AreBelow n i e es b.1)

erase-back :
    (es : List Element) (e : Element)
    → AreDistinct es
    → back es ≡ some e
    → erase e.key (entries es) ≡ all_but_last (entries es)
unfolding back erase all_but_last
erase-back [] e d h = cc
erase-back (x ∷ []) e d h = ground (arith, eq_bytes_iff x.key x.key)
erase-back (x ∷ y ∷ es) e d h =
    ground (
      arith,
      erase-back (y ∷ es) e d.2 h,
      id_of-back (y ∷ es) e d.2 h,
      d.0,
      eq_bytes_iff x.key e.key,
    )

back-none : (es : List Element) → back es ≡ none → es ≡ []
unfolding back
back-none [] h = refl
back-none (x ∷ []) h = cc
back-none (x ∷ y ∷ es) h = cc (back-none (y ∷ es) h)

module _ (c : Cache) (v : IsCache c) where
  -- The element of a key in front of the others, with some value.
  front :
      (k w : Bytes) (e : Element)
      → id_of k c.order ≡ some e.id
      → e.key ≡ k
      → e.id < c.next
      → IsCache (record c { order = record e { value = w } ∷ take_out e.id c.order })
  front k w e there key low =
      let (x, found, _, _, _) = element-id_of k e.id c.order v.distinct there in
      let absent = id_of-take_out k k e.id c.order v.distinct there in
      record {
        index = λ j. ground (
          arith,
          v.index j,
          id_of-take_out k j e.id c.order v.distinct there,
          key,
          eq_bytes_iff k j,
        );
        distinct = (
          ground (arith, absent, key, eq_bytes_iff k k),
          element-take_out_same e.id k c.order v.distinct,
          take_out-AreDistinct e.id c.order v.distinct,
        );
        below = (low, take_out-AreBelow e.id c.next c.order v.below);
        fits = omega (arith, v.fits, length-take_out e.id c.order (λ n. cc (found, n)));
      }

  removed : (e : Element) → id_of e.key c.order ≡ some e.id → IsCache (remove_element c e)
  unfolding remove_element
  removed e there =
      let (x, found, _, _, _) = element-id_of e.key e.id c.order v.distinct there in
      record {
        index = λ j. ground (
          arith,
          v.index j,
          lookup-erase e.key j c.items,
          id_of-take_out e.key j e.id c.order v.distinct there,
        );
        distinct = take_out-AreDistinct e.id c.order v.distinct;
        below = take_out-AreBelow e.id c.next c.order v.below;
        fits = omega (arith, v.fits, length-take_out e.id c.order (λ n. cc (found, n)));
      }

  -- The element that a hit finds, and the list with it in front.
  hit_element :
      (k : Bytes) (i : ℕ)
      → lookup k c.items ≡ some i
      → (e : Element) × (id_of k c.order ≡ some e.id)
        × (e.key ≡ k)
        × (e.id < c.next)
        × (element i c.order ≡ some e)
        × (e.id ≡ i)
        × (to_front i c.order ≡ e ∷ take_out e.id c.order)
        × (lookup k (entries c.order) ≡ some e.value)
        × (entries (take_out e.id c.order) ≡ erase k (entries c.order))
  unfolding to_front
  hit_element k i hit =
      let there : id_of k c.order ≡ some i = sym (v.index k) ∙ hit in
      let (e, found, key, id, held) = element-id_of k i c.order v.distinct there in
      (
        e,
        ground (arith, there, id),
        key,
        element-AreBelow c.next i e c.order v.below found,
        found,
        id,
        ground (arith, found, id),
        held,
        ground (arith, id, entries-take_out k i c.order v.distinct there),
      )

  missed :
      (k : Bytes)
      → lookup k c.items ≡ none
      → (id_of k c.order ≡ none) × (lookup k (entries c.order) ≡ none)
  missed k miss = let gone = sym (v.index k) ∙ miss in (gone, lookup_absent k c.order gone)

  -- A read answers the value that the entries hold for the key.
  pub get-entries : (k : Bytes) → (get c k).1 ≡ lookup k (entries c.order)
  unfolding get value_of
  get-entries k = elim (Option-cases (lookup k c.items)) [
    | inl miss ↦ rw (miss, get) (sym ((missed k miss).1))
    | inr (i, hit) ↦
        let (e, _, _, _, found, _, _, held, _) = hit_element k i hit in
        rw (hit, found, get) (sym held)
  ]

  -- Each request of a kind, as `run` and `described` have it.
  abbrev Refined : Cache → Map Bytes → Type 0
  Refined c' xs = IsCache c' × (entries c'.order ≡ xs) × (c'.max_size ≡ c.max_size)

  get-Refined : (k : Bytes) → Refined (get c k).0 (described c.max_size (entries c.order) (gets k))
  unfolding get described
  get-Refined k = elim (Option-cases (lookup k c.items)) [
    | inl miss ↦
        rw (miss, get, described, (missed k miss).1)
          (
            record { index = v.index; distinct = v.distinct; below = v.below; fits = v.fits },
            refl,
            refl,
          )
    | inr (i, hit) ↦
        let (e, there, key, low, found, id, moved, held, rest) = hit_element k i hit in
        let f = front k e.value e there key low in
        rw (hit, get, moved, described, held)
          (
            record { index = f.index; distinct = f.distinct; below = f.below; fits = f.fits },
            ground (arith, rest, key),
            refl,
          )
  ]

  delete-Refined : (k : Bytes) → Refined (delete c k) (erase k (entries c.order))
  unfolding delete remove_element
  delete-Refined k = elim (Option-cases (lookup k c.items)) [
    | inl miss ↦ rw (miss, delete) (v, sym (erase_absent k c.order ((missed k miss).0)), refl)
    | inr (i, hit) ↦
        let (e, there, key, low, found, id, moved, held, rest) = hit_element k i hit in
        rw (hit, found, delete) (removed e (ground (arith, there, key)), rest, refl)
  ]

  -- Behind make_room a new key has room.
  record HasRoom (k : Bytes) (r : Cache) : Type 0 where
    is_cache : IsCache r
    absent : id_of k r.order ≡ none
    room : suc (length r.order) ≤ max 1 c.max_size
    left : entries r.order ≡ (
        if leb c.max_size (length (entries c.order))
        then all_but_last (entries c.order)
        else entries c.order)
    bound : r.max_size ≡ c.max_size

  make_room-HasRoom : (k : Bytes) → id_of k c.order ≡ none → HasRoom k (make_room c)
  unfolding make_room evict all_but_last
  make_room-HasRoom k gone = elim (Bool-cases (leb c.max_size (length c.order))) [
    | inr roomy ↦
        rw (roomy, make_room)
          (record {
            is_cache = v;
            absent = gone;
            room = ground (arith, roomy);
            left = ground (arith, roomy, length-entries c.order);
            bound = refl;
          })
    | inl full ↦ elim (Option-cases (back c.order)) [
      | inl empty ↦
          let none_there = back-none c.order empty in
          rw (full, empty, make_room, evict)
            (record {
              is_cache = v;
              absent = gone;
              room = ground (arith, none_there);
              left = ground (arith, none_there);
              bound = refl;
            })
      | inr (e, last) ↦
          let there = id_of-back c.order e v.distinct last in
          let (x, found, _, _, _) = element-id_of e.key e.id c.order v.distinct there in
          rw (full, last, make_room, evict)
            (unfold remove_element in
              record {
                is_cache = unfold remove_element in removed e there;
                absent =
                    id_of-take_out e.key k e.id c.order v.distinct there ∙ ground (arith, gone);
                room = omega (arith, v.fits, length-take_out e.id c.order (λ n. cc (found, n)));
                left =
                    entries-take_out e.key e.id c.order v.distinct there
                    ∙ erase-back c.order e v.distinct last
                    ∙ ground (arith, full, length-entries c.order);
                bound = refl;
              })
    ]
  ]

  set-Refined :
      (k w : Bytes) → Refined (set c k w) (described c.max_size (entries c.order) (sets k w))
  unfolding set described push
  set-Refined k w = elim (Option-cases (lookup k c.items)) [
    | inl miss ↦
        let h = make_room-HasRoom k ((missed k miss).0) in
        let r = h.is_cache in
        rw (miss, set, described, (missed k miss).1)
          (
            record {
              index = λ j.
                  ground
                    (arith, r.index j, lookup-insert k j (make_room c).next (make_room c).items);
              distinct = (
                h.absent,
                element_fresh (make_room c).next (make_room c).order r.below,
                r.distinct,
              );
              below = (
                omega arith,
                AreBelow-weaken (make_room c).next ((make_room c).next + 1) (make_room c).order
                    (omega arith) r.below,
              );
              fits = omega (arith, h.room, h.bound);
            },
            ap (λ (xs : Map Bytes). (k, w) ∷ xs) h.left,
            h.bound,
          )
    | inr (i, hit) ↦
        let (e, there, key, low, found, id, moved, held, rest) = hit_element k i hit in
        let f = front k w e there key low in
        let changed : set_value i w (to_front i c.order)
            ≡ record e { value = w } ∷ take_out e.id c.order =
          rw moved (unfold set_value in ground (arith, id)) in
        rw (hit, set, changed, described, held)
          (
            record { index = f.index; distinct = f.distinct; below = f.below; fits = f.fits },
            ground (arith, rest, key),
            refl,
          )
  ]

  -- Each request leaves a cache whose index and list agree and whose size is within its bound, with the
  -- entries that the description of the request gives: a read or a write puts its key first, and a write
  -- of a new key to a full cache drops the last entry.
  pub run-described :
      (r : Request)
      → IsCache (run c r)
        × (entries (run c r).order ≡ described c.max_size (entries c.order) r)
        × ((run c r).max_size ≡ c.max_size)
  unfolding run lookup
  run-described (gets k) = get-Refined k
  run-described (deletes k) = unfold described in delete-Refined k
  run-described (sets k w) = set-Refined k w
  run-described clears = (
    unfold clear in record { index = λ k. refl; distinct = tt; below = tt; fits = omega arith },
    unfold clear described in refl,
    unfold clear in refl,
  )
