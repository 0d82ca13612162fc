-- ===== src/Storage/Cache/Examples.antt =====
-- A cache of two entries at concrete inputs.
use agent_native_db.Prelude.{◌≤◌, ◌≡◌, refl, List, [], ◌∷◌, length, max}
use agent_native_db.Bytes.{Bytes}
use agent_native_db.Bytes.Map.{lookup}
use agent_native_db.Storage.Cache.{new_cache, get}
use agent_native_db.Storage.Cache.Order.{entries}
use agent_native_db.Storage.Cache.Refines.{
  IsCache, Request, gets, sets, run, described, run-described,
}
use agent_native_db.Storage.Cache.Runs.{
  new_cache-IsCache, run_all, described_all, get-described_all,
}

abbrev a : Bytes
a = 97 ∷ []

abbrev b : Bytes
b = 98 ∷ []

abbrev c : Bytes
c = 99 ∷ []

-- The read of `a` leaves `b` the least recently used, which goes for `c`.
abbrev requests : List Request
requests = sets a a ∷ sets b b ∷ gets a ∷ sets c c ∷ []

run-described_example :
    IsCache (run (new_cache 2) (sets a a))
    × (entries (run (new_cache 2) (sets a a)).order ≡ described 2 [] (sets a a))
    × ((run (new_cache 2) (sets a a)).max_size ≡ 2)
unfolding new_cache
run-described_example = run-described (new_cache 2) (new_cache-IsCache 2) (sets a a)

get-described_all_example :
    ((get (run_all (new_cache 2) requests) b).1 ≡ lookup b (described_all 2 [] requests))
    × (length (run_all (new_cache 2) requests).order ≤ max 1 2)
get-described_all_example = get-described_all 2 requests b

described-requests : described_all 2 [] requests ≡ (c, c) ∷ (a, a) ∷ []
unfolding described lookup agent_native_db.Bytes.eq_bytes agent_native_db.Bytes.Map.erase
described-requests = refl
