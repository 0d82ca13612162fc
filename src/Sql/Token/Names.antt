-- ===== src/Sql/Token/Names.antt =====
-- The names of the kinds of keywords.
use agent_native_db.Prelude.{
  ◌≡◌, refl, ap, Bool, true, false, ◌&&◌, Option, none, some, [], ◌∷◌, arith,
}
use agent_native_db.Bytes.{Bytes, eq_bytes}
use agent_native_db.Bytes.Lex.{eq_bytes_iff}
use agent_native_db.Bytes.Map.{Map, lookup}
use agent_native_db.Sql.Kinds.{TokenType}
use agent_native_db.Sql.Token.{keyword, keyword_names, as_map, token_type_name}

is_name : Option Bytes → Bytes → Bool
is_name none word = false
is_name (some name) word = eq_bytes name word

are_names : Map TokenType → Bool
unfolding is_name token_type_name
are_names [] = true
are_names ((word, t) ∷ rest) = is_name (token_type_name t) word && are_names rest

keywords-are_names : are_names (as_map keyword_names) ≡ true
unfolding are_names as_map eq_bytes
keywords-are_names = refl

is_name_eq : (name : Option Bytes) (word : Bytes) → is_name name word ≡ true → name ≡ some word
unfolding is_name
is_name_eq none word h = absurd (ground (arith, h))
is_name_eq (some name) word h = ap some ((eq_bytes_iff name word).0 h)

named :
    (m : Map TokenType) (word : Bytes) (t : TokenType)
    → are_names m ≡ true
    → lookup word m ≡ some t
    → token_type_name t ≡ some word
unfolding lookup are_names
named [] word t h l = absurd (ground (arith, l))
named ((w, u) ∷ rest) word t h l =
    ground (arith, l, h, eq_bytes_iff w word, is_name_eq (token_type_name u) w, named rest word t)

-- TokenType.String names the kind of each keyword by the keyword.
pub token_type_name-keyword :
    (word : Bytes) (t : TokenType) → keyword word ≡ some t → token_type_name t ≡ some word
unfolding keyword
token_type_name-keyword word t h = named (as_map keyword_names) word t keywords-are_names h
