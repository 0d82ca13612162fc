-- ===== src/Sql/Examples.antt =====
-- The lexer at concrete inputs.
use agent_native_db.Prelude.{
  ℕ, ◌<◌, ◌≤◌, ◌≡◌, refl, ◌⊎◌, some, List, [], ◌∷◌, ◌++◌, All, length, arith,
}
use agent_native_db.Bytes.{Bytes, codes}
use agent_native_db.Sql.Kinds.{token_select, token_semicolon}
use agent_native_db.Sql.Token.{keyword}
use agent_native_db.Sql.Lexer.{Token, tokenize, tokens, unterminated_at, is_digit, in_name}
use agent_native_db.Sql.Lexer.Tiled.{Tiling, end_token, tokenize-tiles}
use agent_native_db.Sql.Lexer.Words.{
  Word, IsWritten, AreDigits, name, keyword_word, fraction, quoted, sign,
}
use agent_native_db.Sql.Lexer.Printed.{joined, joined_tokens, tokenize-words}
use agent_native_db.Sql.Lexer.Minus.{integer_token, tokenize-minus}

select-keyword : keyword (codes "SELECT") ≡ some token_select
unfolding keyword agent_native_db.Bytes.eq_bytes
select-keyword = refl

abbrev query : Bytes
query = codes "select 'it''s' <-> v1;"

tokenize-tiles_example :
    ((ts : List Token) × (tokenize query ≡ tokens ts) × Tiling 0 query ts)
    ⊎ ((p : ℕ) × (tokenize query ≡ unterminated_at p) × (0 < p) × (p ≤ length query))
tokenize-tiles_example = tokenize-tiles query

abbrev few_words : List Word
few_words =
    keyword_word (codes "select") token_select
    ∷ name (codes "v1")
    ∷ fraction (codes "1") (codes "5")
    ∷ quoted (codes "a b")
    ∷ sign 59 token_semicolon
    ∷ []

few_words-IsWritten : All IsWritten few_words
unfolding agent_native_db.Sql.Lexer.is_alpha in_name keyword agent_native_db.Bytes.eq_bytes
    agent_native_db.Sql.Lexer.to_upper agent_native_db.Sql.Lexer.operator
few_words-IsWritten = (
  ((refl, (refl, (refl, (refl, (refl, (refl, tt)))))), refl),
  (
    ((refl, (refl, tt)), refl),
    ((((refl, tt), omega arith), (refl, tt)), ((refl, (refl, (refl, tt))), (refl, tt))),
  ),
)

tokenize-words_example : tokenize (joined few_words) ≡ tokens (joined_tokens few_words)
tokenize-words_example = tokenize-words few_words few_words-IsWritten

seven-AreDigits : AreDigits (codes "7")
unfolding is_digit
seven-AreDigits = ((refl, tt), omega arith)

forty_two-AreDigits : AreDigits (codes "42")
unfolding is_digit
forty_two-AreDigits = ((refl, (refl, tt)), omega arith)

tokenize-minus_example :
    tokenize (codes "42" ++ 45 ∷ codes "7")
    ≡ tokens (integer_token 0 (codes "42") ∷ integer_token 2 (45 ∷ codes "7") ∷ end_token 4 ∷ [])
tokenize-minus_example = tokenize-minus (codes "42") (codes "7") forty_two-AreDigits seven-AreDigits
