-- ===== src/Sql/Lexer/Cases.antt =====
-- The cases of the switch of Tokenize.
use agent_native_db.Prelude.{
  ℕ, ◌≡◌, refl, ◌∙◌, ◌⊎◌, inl, inr, Bool, true, false, ◌||◌, ◌&&◌, ◌∷◌, ◌==◌, take, drop, arith,
  Option-cases, Bool-cases, if◌then◌else◌,
}
use agent_native_db.Bytes.{Bytes}
use agent_native_db.Sql.Kinds.{TokenType}
use agent_native_db.Sql.Lexer.{
  Reading, is_digit, is_alpha, peek, read_string, read_number, read_ident, read_operator,
  read_token, read_sign, long_operator, emit,
}

pub if_true : {b : Bool} {x : Reading} (y : Reading) → b ≡ true → (if b then x else y) ≡ x
if_true {b = b} y h = ground (arith, h)

pub if_false : {b : Bool} {y : Reading} (x : Reading) → b ≡ false → (if b then x else y) ≡ y
if_false {b = b} x h = ground (arith, h)

-- An operator of more than one byte, a negative number, or an operator of one byte.
pub sign-cases :
    (pos ch : ℕ) (rest : Bytes)
    → ((kind : TokenType) × (n : ℕ) × (read_sign pos ch rest
          ≡ emit pos kind (ch ∷ take n rest) (drop n rest)))
      ⊎ ((ch ≡ 45) × (read_sign pos ch rest ≡ read_number pos ch rest))
      ⊎ (read_sign pos ch rest ≡ read_operator pos ch rest)
unfolding read_sign
sign-cases pos ch rest = elim (Option-cases (long_operator ch rest)) [
  | inr ((kind, n), e) ↦ inl (kind, n, rw (read_sign, e) refl)
  | inl short ↦ elim (Bool-cases (ch == 45 && is_digit (peek 0 rest))) [
    | inl minus ↦ inr (inl (ground (arith, minus), rw (read_sign, short) (if_true _ minus)))
    | inr other ↦ inr (inr (rw (read_sign, short) (if_false _ other)))
  ]
]

-- A string, a number, a name, or a sign.
pub token-cases :
    (pos ch : ℕ) (rest : Bytes)
    → (((ch == 39 || ch == 34) ≡ true) × (read_token pos ch rest ≡ read_string pos ch rest))
      ⊎ ((is_digit ch ≡ true) × (read_token pos ch rest ≡ read_number pos ch rest))
      ⊎ (((is_alpha ch || ch == 95) ≡ true) × (read_token pos ch rest ≡ read_ident pos ch rest))
      ⊎ (read_token pos ch rest ≡ read_sign pos ch rest)
unfolding read_token
token-cases pos ch rest = elim (Bool-cases (ch == 39 || ch == 34)) [
  | inl quoted ↦ inl (quoted, if_true _ quoted)
  | inr plain ↦ elim (Bool-cases (is_digit ch)) [
    | inl digit ↦ inr (inl (digit, if_false _ plain ∙ if_true _ digit))
    | inr other ↦ elim (Bool-cases (is_alpha ch || ch == 95)) [
      | inl letter ↦
          inr (inr (inl (letter, if_false _ plain ∙ if_false _ other ∙ if_true _ letter)))
      | inr sign ↦ inr (inr (inr (if_false _ plain ∙ if_false _ other ∙ if_false _ sign)))
    ]
  ]
]
