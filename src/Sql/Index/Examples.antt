-- ===== src/Sql/Index/Examples.antt =====
-- The indexes at concrete inputs.
use agent_native_db.Prelude.{
  ◌≡◌, ◌≢◌, ◌↔◌, refl, true, false, Option, none, some, List, [], ◌∷◌, ◌++◌, In, arith,
}
use agent_native_db.Bytes.{Bytes, codes}
use agent_native_db.Bytes.Map.{Map, lookup}
use agent_native_db.Storage.Engine.Memory.{Writes, engine}
use agent_native_db.Sql.Index.{
  Value, text, Meta, btree, inverted, escape, fold_case, entry_key, encode_value, lookup_equal,
  lookup_range,
}
use agent_native_db.Sql.Index.Lookup.{lookup_equal_iff, lookup_equal-zero, lookup_range-found}
use agent_native_db.Sql.Index.Rows.{insert_row, update_row}
use agent_native_db.Sql.Index.Unique.{update_row-moved}

abbrev by_name : Meta
by_name = record {
  name = codes "i";
  table = codes "t";
  column = codes "c";
  type = btree;
  unique = true;
}

abbrev row_of : Bytes → Map Value
row_of s = (codes "c", text s) ∷ []

no_terms : Bytes → List Bytes
no_terms s = []

name_key : Bytes → Bytes
name_key s = entry_key by_name (encode_value (text s)) (codes "r")

-- A store with a row, and one with a row whose name goes on with a 0x00.
one_row : Writes
one_row = (name_key (codes "Bo"), some (1 ∷ [])) ∷ []

zero_row : Writes
zero_row = (name_key (codes "a" ++ 0 ∷ codes "b"), some (1 ∷ [])) ∷ []

equal-found : lookup_equal engine one_row by_name (text (codes "bo")) ≡ some (codes "r" ∷ [])
unfolding lookup_equal agent_native_db.Storage.Engine.Memory.between
    agent_native_db.Storage.Engine.Scans.prefix_scan agent_native_db.Storage.Engine.Memory.live
    one_row agent_native_db.Bytes.has_prefix name_key entry_key agent_native_db.Bytes.eq_bytes
    agent_native_db.Bytes.Map.erase agent_native_db.Storage.KeyEncode.in_range
    agent_native_db.Bytes.le_bytes
equal-found = refl

lookup_equal_iff_example : In (codes "r") (codes "r" ∷ []) ↔ (
    (engine.get one_row (entry_key by_name (encode_value (text (codes "bo"))) (codes "r")) ≢ none)
    × (codes "r" ≢ []))
lookup_equal_iff_example =
    lookup_equal_iff engine one_row by_name (text (codes "bo")) (codes "r" ∷ []) (codes "r")
      equal-found

zero-found :
    lookup_equal engine zero_row by_name (text (codes "a"))
    ≡ some ((0xFF ∷ codes "b" ++ 0 ∷ codes "r") ∷ [])
unfolding lookup_equal agent_native_db.Storage.Engine.Memory.between
    agent_native_db.Storage.Engine.Scans.prefix_scan agent_native_db.Storage.Engine.Memory.live
    zero_row agent_native_db.Bytes.has_prefix name_key entry_key agent_native_db.Bytes.eq_bytes
    agent_native_db.Bytes.Map.erase agent_native_db.Storage.KeyEncode.in_range
    agent_native_db.Bytes.le_bytes
zero-found = refl

zero-held : engine.get zero_row (name_key (codes "a" ++ 0 ∷ codes "b")) ≡ some (1 ∷ [])
unfolding agent_native_db.Storage.Engine.Memory.find zero_row agent_native_db.Bytes.eq_bytes
    name_key entry_key encode_value
zero-held = refl

zero-there :
    engine.get zero_row
      (entry_key by_name (encode_value (text (codes "a" ++ 0 ∷ codes "b"))) (codes "r"))
    ≢ none
unfolding name_key
zero-there gone = absurd (ground (arith, gone, zero-held))

lookup_equal-zero_example :
    In
      (0xFF ∷ (escape (fold_case (codes "b")) ++ 0 ∷ codes "r"))
      ((0xFF ∷ codes "b" ++ 0 ∷ codes "r") ∷ [])
lookup_equal-zero_example =
    lookup_equal-zero engine zero_row by_name (codes "a") (codes "b") (codes "r")
      ((0xFF ∷ codes "b" ++ 0 ∷ codes "r") ∷ []) zero-found zero-there

range-found :
    lookup_range engine one_row by_name
      (some (text (codes "a")))
      (some (text (codes "BO")))
      false
      true
    ≡ some (codes "r" ∷ [])
unfolding lookup_range agent_native_db.Storage.Engine.Memory.between
    agent_native_db.Storage.Engine.Memory.live one_row agent_native_db.Storage.KeyEncode.in_range
    agent_native_db.Bytes.le_bytes name_key entry_key agent_native_db.Bytes.eq_bytes
    agent_native_db.Bytes.has_prefix agent_native_db.Bytes.Map.erase
range-found = refl

row-held :
    engine.get one_row (entry_key by_name (encode_value (text (codes "Bo"))) (codes "r"))
    ≡ some (1 ∷ [])
unfolding agent_native_db.Storage.Engine.Memory.find one_row agent_native_db.Bytes.eq_bytes name_key
    entry_key encode_value
row-held = refl

lookup_range-found_example : In (codes "r") (codes "r" ∷ [])
unfolding agent_native_db.Bytes.le_bytes fold_case
lookup_range-found_example =
    lookup_range-found engine one_row by_name (codes "a") (codes "BO") (codes "Bo") (codes "r")
      (1 ∷ []) false true (codes "r" ∷ []) range-found row-held (omega arith) (omega arith, tt)
      (λ e. absurd (ground (arith, e))) refl refl

-- The same row again, and under another name.
again : Option Writes
again = insert_row no_terms engine one_row (by_name ∷ []) (row_of (codes "Bo")) (codes "r")

abbrev rewritten : Writes
rewritten = (name_key (codes "Bo"), some (1 ∷ [])) ∷ one_row

btree-plain : by_name.type ≢ inverted
btree-plain e = absurd (ground (arith, e))

abbrev renamed : Writes
renamed = (name_key (codes "Al"), some (1 ∷ [])) ∷ (name_key (codes "Bo"), none) ∷ one_row

updated :
    update_row no_terms engine one_row
      (by_name ∷ [])
      (row_of (codes "Bo"))
      (row_of (codes "Al"))
      (codes "r")
    ≡ some renamed
unfolding update_row agent_native_db.Bytes.eq_bytes agent_native_db.Storage.Engine.Memory.between
    agent_native_db.Storage.Engine.Scans.prefix_scan agent_native_db.Storage.Engine.Memory.live
    one_row agent_native_db.Bytes.has_prefix name_key agent_native_db.Bytes.Map.erase
    agent_native_db.Storage.Engine.Memory.write_ops agent_native_db.Storage.KeyEncode.in_range
    agent_native_db.Bytes.le_bytes
updated = refl

names_differ :
    entry_key by_name (encode_value (text (codes "Bo"))) (codes "r")
    ≢ entry_key by_name (encode_value (text (codes "Al"))) (codes "r")
unfolding entry_key encode_value
names_differ e = absurd (ground (arith, e))

update_row-moved_example :
    (engine.get renamed (entry_key by_name (encode_value (text (codes "Al"))) (codes "r"))
      ≡ some (1 ∷ []))
    × (engine.get renamed (entry_key by_name (encode_value (text (codes "Bo"))) (codes "r")) ≡ none)
unfolding lookup agent_native_db.Bytes.eq_bytes
update_row-moved_example =
    update_row-moved no_terms engine one_row renamed by_name (row_of (codes "Bo"))
      (row_of (codes "Al")) (text (codes "Bo")) (text (codes "Al")) (codes "r") btree-plain refl
      refl names_differ updated
