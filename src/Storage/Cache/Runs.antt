-- ===== src/Storage/Cache/Runs.antt =====
-- Sequences of requests to the cache.
use agent_native_db.Prelude.{ℕ, ◌≤◌, ◌≡◌, refl, ap, ◌∙◌, List, [], ◌∷◌, length, max, arith}
use agent_native_db.Bytes.{Bytes}
use agent_native_db.Bytes.Map.{Map, lookup}
use agent_native_db.Storage.Cache.{Cache, new_cache, get}
use agent_native_db.Storage.Cache.Order.{entries}
use agent_native_db.Storage.Cache.Refines.{
  IsCache, Request, run, described, run-described, get-entries,
}

pub new_cache-IsCache : (m : ℕ) → IsCache (new_cache m)
unfolding new_cache lookup
new_cache-IsCache m = record { index = λ k. refl; distinct = tt; below = tt; fits = omega arith }

-- A sequence of requests, and its description.
abbrev pub run_all : Cache → List Request → Cache
run_all c [] = c
run_all c (r ∷ rs) = run_all (run c r) rs

abbrev pub described_all : ℕ → Map Bytes → List Request → Map Bytes
described_all m xs [] = xs
described_all m xs (r ∷ rs) = described_all m (described m xs r) rs

run_all-described :
    (c : Cache) (rs : List Request)
    → IsCache c
    → IsCache (run_all c rs)
      × (entries (run_all c rs).order ≡ described_all c.max_size (entries c.order) rs)
      × ((run_all c rs).max_size ≡ c.max_size)
run_all-described c [] v = (v, refl, refl)
run_all-described c (r ∷ rs) v =
    let (one, e, m) = run-described c v r in
    let (all, es, ms) = run_all-described (run c r) rs one in
    (
      all,
      es
          ∙ ap (λ (n : ℕ). described_all n (entries (run c r).order) rs) m
          ∙ ap (λ (xs : Map Bytes). described_all c.max_size xs rs) e,
      ms ∙ m,
    )

-- After any sequence of requests to a new cache a read answers what the described list has for the key,
-- and the cache has at most its size of entries, or one if that is 0.
pub get-described_all :
    (m : ℕ) (rs : List Request) (k : Bytes)
    → ((get (run_all (new_cache m) rs) k).1 ≡ lookup k (described_all m [] rs))
      × (length (run_all (new_cache m) rs).order ≤ max 1 m)
unfolding new_cache
get-described_all m rs k =
    let (all, es, bound) = run_all-described (new_cache m) rs (new_cache-IsCache m) in
    (
      get-entries (run_all (new_cache m) rs) all k ∙ ap (lookup k) es,
      omega (arith, all.fits, bound),
    )
