-- ===== src/Sql/Lexer/Covered.antt =====
-- A token is the text that it was read from.
use agent_native_db.Prelude.{
  append_assoc, ℕ, zero, suc, ◌+◌, ◌<◌, ◌≡◌, refl, sym, ap, subst, ◌∙◌, ◌⊎◌, inl, inr, Bool, true,
  ◌||◌, some, [], ◌∷◌, ◌++◌, ◌==◌, take, drop, length, arith, Option-cases, Bool-cases,
  if◌then◌else◌,
}
use agent_native_db.Bytes.{Bytes}
use agent_native_db.Sql.Kinds.{TokenType, token_illegal, token_string, token_float, token_integer}
use agent_native_db.Sql.Token.{keyword}
use agent_native_db.Sql.Lexer.{
  Token, token, span, is_digit, is_alpha, is_alpha_num, in_name, to_upper, number_parts,
  ident_token, read_string, read_number, read_ident, read_operator, read_token, read_sign, operator,
  emit, string_end,
}
use agent_native_db.Sql.Lexer.Cases.{sign-cases, token-cases}
use agent_native_db.Sql.Lexer.Spans.{
  number_parts_some, span-append, string_end-append, number_parts-append,
}

-- The literal of a token is the word, or the word in capitals where that is a keyword, or the word is
-- one byte that is illegal.
abbrev pub IsWord : Bytes → Token → Type 0
IsWord word t =
    (t.literal ≡ word)
    ⊎ ((keyword (to_upper word) ≡ some t.type) × (t.literal ≡ to_upper word))
    ⊎ ((t.type ≡ token_illegal) × (length word ≡ 1))

-- A word at the front of the input, and what is left.
abbrev pub StartsWith : ℕ → Bytes → Token → Bytes → Type 0
StartsWith pos input t left =
    (word : Bytes) × (input ≡ word ++ left) × (0 < length word) × (t.pos ≡ pos) × IsWord word t

-- Or a body between quotes.
abbrev pub StartsWithString : ℕ → Bytes → Token → Bytes → Type 0
StartsWithString pos input t left =
    (quote : ℕ) × (input ≡ quote ∷ t.literal ++ quote ∷ left)
    × (t.type ≡ token_string)
    × (t.pos ≡ pos + 1)

abbrev string_token : ℕ → Bytes → Token
string_token pos body = record { type = token_string; literal = body; pos = pos + 1 }

read_string-covered :
    (pos quote : ℕ) (rest : Bytes) (t : Token) (left : Bytes)
    → read_string pos quote rest ≡ token t left
    → StartsWithString pos (quote ∷ rest) t left
unfolding read_string
read_string-covered pos quote rest t left h = elim (Option-cases (string_end quote rest)) [
  | inl none_there ↦ absurd (ground (arith, rw (read_string, none_there) at h))
  | inr ((body, behind), e) ↦
      let same : token (string_token pos body) behind ≡ token t left = rw (read_string, e) at h in
      (
        quote,
        ground (arith, same, string_end-append quote rest body behind e),
        ground (arith, same),
        ground (arith, same),
      )
]

-- The token of a number from its parts.
abbrev number_token : ℕ → Bool → Bytes → Token
number_token pos is_float literal = record {
  type = if is_float then token_float else token_integer;
  literal = literal;
  pos = pos;
}

token_left : {t u : Token} {l m : Bytes} → token t l ≡ token u m → l ≡ m
token_left h = ground (arith, h)

number-covered :
    (pos : ℕ) (front rest : Bytes) (t : Token) (left : Bytes)
    → 0 < length (front ++ (number_parts rest).1)
    → token
        (number_token pos (number_parts rest).0 (front ++ (number_parts rest).1))
        (number_parts rest).2
      ≡ token t left
    → StartsWith pos (front ++ rest) t left
number-covered pos front rest t left some_there h =
    let parts : (number_parts rest).1 ++ left ≡ rest =
      ap (λ (l : Bytes). (number_parts rest).1 ++ l) (sym (token_left h))
      ∙ number_parts-append rest in
    (
      front ++ (number_parts rest).1,
      sym (append_assoc front (number_parts rest).1 left ∙ ap (λ (l : Bytes). front ++ l) parts),
      some_there,
      ground (arith, h),
      inl (ground (arith, h)),
    )

read_number-covered :
    (pos ch : ℕ) (rest : Bytes) (t : Token) (left : Bytes)
    → (is_digit ch ≡ true) ⊎ (ch ≡ 45)
    → read_number pos ch rest ≡ token t left
    → StartsWith pos (ch ∷ rest) t left
unfolding read_number
read_number-covered pos ch rest t left k h = elim (Bool-cases (ch == 45)) [
  | inl minus ↦
      number-covered pos (ch ∷ []) rest t left (omega arith) (rw (read_number, minus) at h)
  | inr other ↦
      number-covered pos [] (ch ∷ rest) t left
        (number_parts_some ch rest (ground (arith, k, other))) (rw (read_number, other) at h)
]

ident-IsWord :
    (pos : ℕ) (word : Bytes)
    → ((ident_token pos word).pos ≡ pos) × IsWord word (ident_token pos word)
unfolding ident_token
ident-IsWord pos word = elim (Option-cases (keyword (to_upper word))) [
  | inl none_there ↦ rw (ident_token, none_there) (refl, inl refl)
  | inr (tt, e) ↦ (rw (ident_token, e) refl, rw (ident_token, e) (inr (inl (refl, refl))))
]

read_ident-covered :
    (pos ch : ℕ) (rest : Bytes) (t : Token) (left : Bytes)
    → in_name ch ≡ true
    → read_ident pos ch rest ≡ token t left
    → StartsWith pos (ch ∷ rest) t left
unfolding read_ident
read_ident-covered pos ch rest t left k h =
    let word = (span in_name (ch ∷ rest)).0 in
    let named : ident_token pos word ≡ t = ground (arith, h) in
    (
      word,
      ground (arith, h, span-append in_name (ch ∷ rest)),
      ground (arith, k),
      ap (λ (t : Token). t.pos) (sym named) ∙ (ident-IsWord pos word).0,
      subst (IsWord word) named (ident-IsWord pos word).1,
    )

read_operator-covered :
    (pos ch : ℕ) (rest : Bytes) (t : Token) (left : Bytes)
    → read_operator pos ch rest ≡ token t left
    → StartsWith pos (ch ∷ rest) t left
unfolding read_operator emit
read_operator-covered pos ch rest t left h = elim (Option-cases (operator ch)) [
  | inl none_there ↦ (
    ch ∷ [],
    ground (arith, rw (read_operator, none_there) at h),
    omega arith,
    ground (arith, rw (read_operator, none_there) at h),
    inr (inr (ground (arith, rw (read_operator, none_there) at h), refl)),
  )
  | inr (tt, e) ↦ (
    ch ∷ [],
    ground (arith, rw (read_operator, e) at h),
    omega arith,
    ground (arith, rw (read_operator, e) at h),
    inl (ground (arith, rw (read_operator, e) at h)),
  )
]

take-drop : (n : ℕ) (xs : Bytes) → take n xs ++ drop n xs ≡ xs
take-drop zero xs = refl
take-drop (suc n) [] = refl
take-drop (suc n) (x ∷ xs) = ap (λ (l : Bytes). x ∷ l) (take-drop n xs)

emit-covered :
    (pos : ℕ) (tt : TokenType) (ch n : ℕ) (rest : Bytes) (t : Token) (left : Bytes)
    → emit pos tt (ch ∷ take n rest) (drop n rest) ≡ token t left
    → StartsWith pos (ch ∷ rest) t left
unfolding emit
emit-covered pos tt ch n rest t left h = (
  ch ∷ take n rest,
  ap (λ (l : Bytes). ch ∷ l) (sym (take-drop n rest))
      ∙ ap (λ (l : Bytes). ch ∷ take n rest ++ l) (token_left h),
  omega arith,
  ground (arith, h),
  inl (ground (arith, h)),
)

pub letter_in_name : (ch : ℕ) → (is_alpha ch || ch == 95) ≡ true → in_name ch ≡ true
unfolding in_name is_alpha_num
letter_in_name ch h = ground (arith, h)

sign-covered :
    (pos ch : ℕ) (rest : Bytes) (t : Token) (left : Bytes)
    → read_sign pos ch rest ≡ token t left
    → StartsWith pos (ch ∷ rest) t left
sign-covered pos ch rest t left h = elim (sign-cases pos ch rest) [
  | inl (kind, more, e) ↦ emit-covered pos kind ch more rest t left (sym e ∙ h)
  | inr (inl (minus, e)) ↦ read_number-covered pos ch rest t left (inr minus) (sym e ∙ h)
  | inr (inr e) ↦ read_operator-covered pos ch rest t left (sym e ∙ h)
]

-- A token stands at the front of the input: a word, or a string with its quotes.
pub read_token-covered :
    (pos ch : ℕ) (rest : Bytes) (t : Token) (left : Bytes)
    → read_token pos ch rest ≡ token t left
    → StartsWith pos (ch ∷ rest) t left ⊎ StartsWithString pos (ch ∷ rest) t left
read_token-covered pos ch rest t left h = elim (token-cases pos ch rest) [
  | inl (quoted, e) ↦ inr (read_string-covered pos ch rest t left (sym e ∙ h))
  | inr (inl (digit, e)) ↦ inl (read_number-covered pos ch rest t left (inl digit) (sym e ∙ h))
  | inr (inr (inl (letter, e))) ↦
      inl (read_ident-covered pos ch rest t left (letter_in_name ch letter) (sym e ∙ h))
  | inr (inr (inr e)) ↦ inl (sign-covered pos ch rest t left (sym e ∙ h))
]
