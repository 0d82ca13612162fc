-- ===== src/Sql/Lexer.antt =====
-- internal/query/sql/lexer.go: Lexer. A position stands with the input from there on; the input is the
-- one that strings.TrimSpace returned. What a reading function takes is the literal, and the position
-- moves by its length.
pub mod Spans
pub mod Tiled
pub mod Reads
pub mod Words
pub mod Printed
pub mod Minus
pub mod Cases
pub mod Covered
use agent_native_db.Prelude.{
  ℕ, zero, suc, ◌+◌, ◌-◌, ◌/◌, ◌%◌, Bool, true, false, ◌&&◌, ◌||◌, Option, none, some, List, [],
  ◌∷◌, ◌++◌, ◌==◌, leb, ltb, length, take, drop, if◌then◌else◌,
}
use agent_native_db.Bytes.{Bytes}
use agent_native_db.Sql.Kinds.{
  TokenType, token_eof, token_illegal, token_ident, token_string, token_integer, token_float,
  token_vector_dist, token_neq, token_lte, token_gte, token_eq, token_lt, token_gt, token_plus,
  token_minus, token_multiply, token_divide, token_modulo, token_comma, token_semicolon,
  token_lparen, token_rparen, token_dot,
}
use agent_native_db.Sql.Token.{keyword}

pub record Token : Type 0 where
  pub type : TokenType
  pub literal : Bytes
  pub pos : ℕ

unfoldable pub is_digit : ℕ → Bool
is_digit ch = leb 48 ch && leb ch 57

unfoldable pub is_alpha : ℕ → Bool
is_alpha ch = (leb 97 ch && leb ch 122) || (leb 65 ch && leb ch 90)

unfoldable pub is_alpha_num : ℕ → Bool
unfolding is_alpha is_digit
is_alpha_num ch = is_alpha ch || is_digit ch

-- The bytes of a name, behind its first.
unfoldable pub in_name : ℕ → Bool
unfolding is_alpha_num
in_name ch = is_alpha_num ch || ch == 95

unfoldable pub is_space : ℕ → Bool
is_space ch = ch == 32 || ch == 9 || ch == 10 || ch == 13

-- strings.ToUpper on the letters that a name has.
unfoldable pub to_upper : Bytes → Bytes
to_upper [] = []
to_upper (c ∷ cs) = (if leb 97 c && leb c 122 then c - 32 else c) ∷ to_upper cs

-- What a loop over bytes of a kind takes, and what is left.
unfoldable pub span : (ℕ → Bool) → Bytes → Bytes × Bytes
span p [] = ([], [])
span p (c ∷ cs) = let (taken, left) = span p cs in if p c then (c ∷ taken, left) else ([], c ∷ cs)

-- l.peek(offset), in the input behind the current byte
unfoldable pub peek : ℕ → Bytes → ℕ
peek n [] = 0
peek zero (c ∷ cs) = c
peek (suc n) (c ∷ cs) = peek n cs

-- What a reading function returns: the token and the input behind it, or the position of a string
-- that does not end.
pub data Reading : Type 0 where
  token : Token → Bytes → Reading
  unterminated : ℕ → Reading

unfoldable pub with_front : Bytes → Option (Bytes × Bytes) → Option (Bytes × Bytes)
with_front front none = none
with_front front (some (taken, left)) = some (front ++ taken, left)

-- The loop of readString: the literal up to the closing quote, with its doubled quotes, and what is
-- behind that quote.
unfoldable pub string_end : ℕ → Bytes → Option (Bytes × Bytes)
unfolding with_front
string_end quote [] = none
string_end quote (c ∷ []) = if c == quote then some ([], []) else none
string_end quote (c ∷ d ∷ cs) = elim (c == quote) [
  | false ↦ with_front (c ∷ []) (string_end quote (d ∷ cs))
  | true ↦ elim (d == quote) [
    | true ↦ with_front (c ∷ d ∷ []) (string_end quote cs)
    | false ↦ some ([], d ∷ cs)
  ]
]

unfoldable pub read_string : ℕ → ℕ → Bytes → Reading
unfolding string_end
read_string pos quote rest = elim (string_end quote rest) [
  | none ↦ unterminated (pos + 1)
  | some (body, left) ↦ token (record { type = token_string; literal = body; pos = pos + 1 }) left
]

unfoldable pub drop_one : Bytes → Bytes
drop_one [] = []
drop_one (c ∷ cs) = cs

-- readNumber behind a sign: whether there is a point, the literal, and what is behind it.
unfoldable pub number_parts : Bytes → Bool × Bytes × Bytes
unfolding span is_digit peek drop_one
number_parts rest =
    let (digits, behind) = span is_digit rest in
    let (fraction, left) = span is_digit (drop_one behind) in
    if peek 0 behind == 46 then (true, digits ++ 46 ∷ fraction, left) else (false, digits, behind)

unfoldable pub read_number : ℕ → ℕ → Bytes → Reading
unfolding number_parts
read_number pos ch rest =
    let (is_float, literal, left) =
      if ch == 45 then number_parts rest else number_parts (ch ∷ rest) in
    token
      (record {
        type = if is_float then token_float else token_integer;
        literal = if ch == 45 then ch ∷ literal else literal;
        pos = pos;
      })
      left

unfoldable pub ident_token : ℕ → Bytes → Token
unfolding keyword to_upper
ident_token pos literal = elim (keyword (to_upper literal)) [
  | none ↦ record { type = token_ident; literal = literal; pos = pos }
  | some tt ↦ record { type = tt; literal = to_upper literal; pos = pos }
]

unfoldable pub read_ident : ℕ → ℕ → Bytes → Reading
unfolding span in_name ident_token
read_ident pos ch rest =
    let (literal, left) = span in_name (ch ∷ rest) in token (ident_token pos literal) left

-- string(ch), which is the code point of the byte in UTF-8
unfoldable pub string_of_byte : ℕ → Bytes
string_of_byte ch = if ltb ch 128 then ch ∷ [] else (192 + ch / 64) ∷ (128 + ch % 64) ∷ []

-- The kind of an operator of one byte.
unfoldable pub operator : ℕ → Option TokenType
operator ch =
    if ch == 61
    then some token_eq
    else if ch == 60
    then some token_lt
    else if ch == 62
    then some token_gt
    else if ch == 43
    then some token_plus
    else if ch == 45
    then some token_minus
    else if ch == 42
    then some token_multiply
    else if ch == 47
    then some token_divide
    else if ch == 37
    then some token_modulo
    else if ch == 44
    then some token_comma
    else if ch == 59
    then some token_semicolon
    else if ch == 40
    then some token_lparen
    else if ch == 41
    then some token_rparen
    else if ch == 46
    then some token_dot
    else none

-- emit, where `start` is the position of the token's first byte.
unfoldable pub emit : ℕ → TokenType → Bytes → Bytes → Reading
emit pos tt literal left = token (record { type = tt; literal = literal; pos = pos }) left

unfoldable pub read_operator : ℕ → ℕ → Bytes → Reading
unfolding operator emit string_of_byte
read_operator pos ch rest = elim (operator ch) [
  | none ↦ token (record { type = token_illegal; literal = string_of_byte ch; pos = pos }) rest
  | some tt ↦ emit pos tt (ch ∷ []) rest
]

-- The operators of more than one byte, and the kind and the length of the one that is there.
unfoldable pub long_operator : ℕ → Bytes → Option (TokenType × ℕ)
unfolding peek
long_operator ch rest =
    if ch == 60 && peek 0 rest == 45 && peek 1 rest == 62
    then some (token_vector_dist, 2)
    else if ch == 60 && peek 0 rest == 62
    then some (token_neq, 1)
    else if ch == 60 && peek 0 rest == 61
    then some (token_lte, 1)
    else if ch == 62 && peek 0 rest == 61
    then some (token_gte, 1)
    else if ch == 33 && peek 0 rest == 61
    then some (token_neq, 1)
    else none

-- The switch of Tokenize behind its case of names.
unfoldable pub read_sign : ℕ → ℕ → Bytes → Reading
unfolding read_number long_operator emit read_operator is_digit peek
read_sign pos ch rest = elim (long_operator ch rest) [
  | some (tt, more) ↦ emit pos tt (ch ∷ take more rest) (drop more rest)
  | none ↦
      if ch == 45 && is_digit (peek 0 rest)
      then read_number pos ch rest
      else read_operator pos ch rest
]

-- The switch of Tokenize, at a byte and what is behind it.
unfoldable pub read_token : ℕ → ℕ → Bytes → Reading
unfolding read_string read_number read_ident read_sign is_alpha is_digit
read_token pos ch rest =
    if ch == 39 || ch == 34
    then read_string pos ch rest
    else if is_digit ch
    then read_number pos ch rest
    else if is_alpha ch || ch == 95
    then read_ident pos ch rest
    else read_sign pos ch rest

-- What Tokenize returns; the fuel bounds the rounds of its loop.
pub data Tokens : Type 0 where
  tokens : List Token → Tokens
  unterminated_at : ℕ → Tokens
  out_of_fuel : Tokens

-- Where the position is behind a token: what is left is shorter.
unfoldable pub position_at : ℕ → Bytes → Bytes → ℕ
position_at pos input left = pos + (length input - length left)

unfoldable pub with_token : Token → Tokens → Tokens
with_token t (tokens ts) = tokens (t ∷ ts)
with_token t (unterminated_at p) = unterminated_at p
with_token t out_of_fuel = out_of_fuel

unfoldable pub tokenize_from : ℕ → ℕ → Bytes → Tokens
unfolding span is_space read_token position_at with_token
tokenize_from zero pos input = out_of_fuel
tokenize_from (suc fuel) pos input =
    let (blank, behind) = span is_space input in
    let at = pos + length blank in
    elim behind [
      | [] ↦ tokens (record { type = token_eof; literal = []; pos = at } ∷ [])
      | ch ∷ rest ↦ elim (read_token at ch rest) [
        | unterminated p ↦ unterminated_at p
        | token t left ↦ with_token t (tokenize_from fuel (position_at at (ch ∷ rest) left) left)
      ]
    ]

unfoldable pub tokenize : Bytes → Tokens
unfolding tokenize_from
tokenize input = tokenize_from (suc (length input)) 0 input
