-- ===== src/Storage/Cache.antt =====
-- internal/storage/cache.go: the cache of the least recently used. An element of the list has an
-- identity, the pointer that `items` holds; each operation is one step under the cache's lock.
pub mod Order
pub mod Refines
pub mod Runs
mod Examples
use agent_native_db.Prelude.{
  ℕ, suc, ◌+◌, Option, none, some, List, [], ◌∷◌, ◌==◌, leb, if◌then◌else◌, length, Bool,
}
use agent_native_db.Bytes.{Bytes}
use agent_native_db.Bytes.Map.{Map, lookup, insert, erase}

-- *list.Element with the cacheEntry in it.
pub record Element : Type 0 where
  pub id : ℕ
  pub key : Bytes
  pub value : Bytes

pub record Cache : Type 0 where
  pub max_size : ℕ
  pub items : Map ℕ
  -- the front of the list first
  pub order : List Element
  pub hits : ℕ
  pub misses : ℕ
  -- the identity of the next element that is allocated
  pub next : ℕ

pub record CacheStats : Type 0 where
  pub hits : ℕ
  pub misses : ℕ
  pub size : ℕ
  pub max_size : ℕ

unfoldable pub new_cache : ℕ → Cache
new_cache max_size = record {
  max_size = max_size;
  items = [];
  order = [];
  hits = 0;
  misses = 0;
  next = 0;
}

-- The element that a pointer stands for, if it is in the list.
unfoldable pub element : ℕ → List Element → Option Element
element i [] = none
element i (e ∷ es) = if e.id == i then some e else element i es

-- list.Remove
unfoldable pub take_out : ℕ → List Element → List Element
take_out i [] = []
take_out i (e ∷ es) = if e.id == i then es else e ∷ take_out i es

-- list.MoveToFront
unfoldable pub to_front : ℕ → List Element → List Element
unfolding element take_out
to_front i es = elim (element i es) [ none ↦ es | some e ↦ e ∷ take_out i es ]

-- elem.Value.(*cacheEntry).value = value
unfoldable pub set_value : ℕ → Bytes → List Element → List Element
set_value i v [] = []
set_value i v (e ∷ es) = if e.id == i then record e { value = v } ∷ es else e ∷ set_value i v es

value_of : Option Element → Option Bytes
value_of none = none
value_of (some e) = some e.value

-- list.Back
unfoldable pub back : List Element → Option Element
back [] = none
back (e ∷ []) = some e
back (e ∷ f ∷ es) = back (f ∷ es)

-- The value, and `none` for a miss.
unfoldable pub get : Cache → Bytes → Cache × Option Bytes
unfolding to_front value_of
get c key = elim (lookup key c.items) [
  | some i ↦
      (record c { order = to_front i c.order; hits = c.hits + 1 }, value_of (element i c.order))
  | none ↦ (record c { misses = c.misses + 1 }, none)
]

unfoldable pub remove_element : Cache → Element → Cache
remove_element c e = record c { order = take_out e.id c.order; items = erase e.key c.items }

unfoldable pub evict : Cache → Cache
unfolding back remove_element
evict c = elim (back c.order) [ none ↦ c | some e ↦ remove_element c e ]

-- The room for a new element.
unfoldable pub make_room : Cache → Cache
unfolding evict
make_room c = if leb c.max_size (length c.order) then evict c else c

unfoldable pub push : Cache → Bytes → Bytes → Cache
push c key value = record c {
  order = record { id = c.next; key = key; value = value } ∷ c.order;
  items = insert key c.next c.items;
  next = c.next + 1;
}

unfoldable pub set : Cache → Bytes → Bytes → Cache
unfolding to_front set_value make_room push
set c key value = elim (lookup key c.items) [
  | some i ↦ record c { order = set_value i value (to_front i c.order) }
  | none ↦ push (make_room c) key value
]

unfoldable pub delete : Cache → Bytes → Cache
unfolding remove_element
delete c key = elim (lookup key c.items) [
  | none ↦ c
  | some i ↦ elim (element i c.order) [ none ↦ c | some e ↦ remove_element c e ]
]

unfoldable pub stats : Cache → CacheStats
stats c = record { hits = c.hits; misses = c.misses; size = length c.order; max_size = c.max_size }

unfoldable pub clear : Cache → Cache
clear c = record c { items = []; order = []; hits = 0; misses = 0 }
