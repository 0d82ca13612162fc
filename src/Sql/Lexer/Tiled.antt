-- ===== src/Sql/Lexer/Tiled.antt =====
-- Tokenize ends, and its tokens are its input.
use agent_native_db.Prelude.{
  append-nil, append_assoc, ℕ, zero, suc, ◌+◌, ◌<◌, ◌≤◌, ◌≡◌, refl, sym, ap, ◌∙◌, subst, ◌⊎◌, inl,
  inr, true, List, [], ◌∷◌, ◌++◌, All, length, length-append, arith, Option-cases,
}
use agent_native_db.Bytes.{Bytes}
use agent_native_db.Sql.Kinds.{token_eof, token_string}
use agent_native_db.Sql.Lexer.{
  Token, Reading, token, unterminated, span, is_space, string_end, read_string, read_number,
  read_ident, read_operator, operator, emit, read_token, tokens, unterminated_at, with_token,
  position_at, tokenize_from, tokenize,
}
use agent_native_db.Sql.Lexer.Spans.{span-append, span-All}
use agent_native_db.Sql.Lexer.Cases.{sign-cases, token-cases}
use agent_native_db.Sql.Lexer.Covered.{IsWord, StartsWith, StartsWithString, read_token-covered}

abbrev pub IsBlank : Bytes → Type 0
IsBlank = All (λ (c : ℕ). is_space c ≡ true)

abbrev pub end_token : ℕ → Token
end_token pos = record { type = token_eof; literal = []; pos = pos }

-- A token at its position and the text that it stands for: its word, or its literal between quotes.
abbrev pub IsText : ℕ → Bytes → Token → Type 0
IsText pos text t =
    (IsWord text t × (0 < length text) × (t.pos ≡ pos))
    ⊎ ((quote : ℕ) × (text ≡ quote ∷ (t.literal ++ quote ∷ []))
        × (t.type ≡ token_string)
        × (t.pos ≡ pos + 1))

-- The input from a position on is blanks and the texts of the tokens, one behind the other, and the last
-- token is the end at its end.
pub data Tiling : ℕ → Bytes → List Token → Type 0 where
  ended :
      {pos : ℕ} {blank : Bytes}
      → IsBlank blank
      → Tiling pos blank (end_token (pos + length blank) ∷ [])
  next :
      {pos : ℕ} {t : Token} {ts : List Token} (blank text left : Bytes)
      → IsBlank blank
      → IsText (pos + length blank) text t
      → Tiling (pos + length blank + length text) left ts
      → Tiling pos (blank ++ (text ++ left)) (t ∷ ts)

-- The text of a token in front of what is left.
IsText-covered :
    (pos : ℕ) (input : Bytes) (t : Token) (left : Bytes)
    → StartsWith pos input t left ⊎ StartsWithString pos input t left
    → (text : Bytes) × (input ≡ text ++ left) × IsText pos text t × (0 < length text)
IsText-covered pos input t left (inl (word, e, some_there, at, is_word)) =
    (word, e, inl (is_word, some_there, at), some_there)
IsText-covered pos input t left (inr (quote, e, kind, at)) = (
  quote ∷ (t.literal ++ quote ∷ []),
  e ∙ ap (λ (l : Bytes). quote ∷ l) (sym (append_assoc t.literal (quote ∷ []) left)),
  inr (quote, refl, kind, at),
  omega arith,
)

operator-token :
    (pos ch : ℕ) (rest : Bytes) (p : ℕ) → read_operator pos ch rest ≡ unterminated p → ⊥
unfolding read_operator emit
operator-token pos ch rest p h = elim (Option-cases (operator ch)) [
  | inl none_there ↦ ground (arith, rw (read_operator, none_there) at h)
  | inr (kind, e) ↦ ground (arith, rw (read_operator, e) at h)
]

number-token : (pos ch : ℕ) (rest : Bytes) (p : ℕ) → read_number pos ch rest ≡ unterminated p → ⊥
unfolding read_number
number-token pos ch rest p h = ground (arith, h)

-- Only a string does not end, and its position is behind its quote.
read_token-unterminated :
    (pos ch : ℕ) (rest : Bytes) (p : ℕ) → read_token pos ch rest ≡ unterminated p → p ≡ pos + 1
unfolding read_ident emit read_string
read_token-unterminated pos ch rest p h = elim (token-cases pos ch rest) [
  | inl (quoted, e) ↦ elim (Option-cases (string_end ch rest)) [
    | inl endless ↦ ground (arith, rw (read_string, endless) at (sym e ∙ h))
    | inr ((body, left), closed) ↦ absurd (ground (arith, rw (read_string, closed) at (sym e ∙ h)))
  ]
  | inr (inl (digit, e)) ↦ absurd (number-token pos ch rest p (sym e ∙ h))
  | inr (inr (inl (letter, e))) ↦ absurd (ground (arith, sym e ∙ h))
  | inr (inr (inr e)) ↦ elim (sign-cases pos ch rest) [
    | inl (kind, n, f) ↦ absurd (ground (arith, sym f ∙ sym e ∙ h))
    | inr (inl (minus, f)) ↦ absurd (number-token pos ch rest p (sym f ∙ sym e ∙ h))
    | inr (inr f) ↦ absurd (operator-token pos ch rest p (sym f ∙ sym e ∙ h))
  ]
]

-- The rounds of the loop.
module _ (fuel pos : ℕ) (input : Bytes) where
  abbrev at : ℕ
  at = pos + length (span is_space input).0

  pub round_end :
      (span is_space input).1 ≡ [] → tokenize_from (suc fuel) pos input ≡ tokens (end_token at ∷ [])
  unfolding tokenize_from
  round_end e = rw (tokenize_from, e) refl

  module _ (ch : ℕ) (rest : Bytes) (e : (span is_space input).1 ≡ ch ∷ rest) where
    round_fails :
        (p : ℕ)
        → read_token at ch rest ≡ unterminated p
        → tokenize_from (suc fuel) pos input ≡ unterminated_at p
    unfolding tokenize_from
    round_fails p r = rw (tokenize_from, e, r) refl

    pub round_token :
        (t : Token) (left : Bytes)
        → read_token at ch rest ≡ token t left
        → tokenize_from (suc fuel) pos input
          ≡ with_token t (tokenize_from fuel (position_at at (ch ∷ rest) left) left)
    unfolding tokenize_from
    round_token t left r = rw (tokenize_from, e, r) refl

rest-cases : (xs : Bytes) → (xs ≡ []) ⊎ ((x : ℕ) × (rest : Bytes) × (xs ≡ x ∷ rest))
rest-cases [] = inl refl
rest-cases (x ∷ xs) = inr (x, xs, refl)

reading-cases :
    (r : Reading)
    → ((t : Token) × (left : Bytes) × (r ≡ token t left)) ⊎ ((p : ℕ) × (r ≡ unterminated p))
reading-cases (token t left) = inl (t, left, refl)
reading-cases (unterminated p) = inr (p, refl)

-- Fuel for more than the bytes of the input is enough: the tokens tile the input, or a string does not
-- end.
tokenize_from-tiles :
    (fuel pos : ℕ) (input : Bytes)
    → length input < fuel
    → ((ts : List Token) × (tokenize_from fuel pos input ≡ tokens ts) × Tiling pos input ts)
      ⊎ ((p : ℕ) × (tokenize_from fuel pos input ≡ unterminated_at p)
          × (pos < p)
          × (p ≤ pos + length input))
unfolding with_token
tokenize_from-tiles zero pos input enough = absurd (omega (arith, enough))
tokenize_from-tiles (suc fuel) pos input enough =
    let blank = (span is_space input).0 in
    let whole : blank ++ (span is_space input).1 ≡ input = span-append is_space input in
    let all_blank : IsBlank blank = span-All is_space input in
    elim (rest-cases (span is_space input).1) [
      | inl e ↦
          let only : blank ≡ input =
            sym (append-nil blank) ∙ ap (λ (l : Bytes). blank ++ l) (sym e) ∙ whole in
          inl (
            end_token (pos + length blank) ∷ [],
            round_end fuel pos input e,
            subst (λ (l : Bytes). Tiling pos l (end_token (pos + length blank) ∷ [])) only
                (ended all_blank),
          )
      | inr (ch, rest, e) ↦
          let total : length blank + suc (length rest) ≡ length input =
            omega
              (arith, ap length whole, length-append blank (span is_space input).1, ap length e) in
          elim (reading-cases (read_token (pos + length blank) ch rest)) [
            | inr (p, r) ↦ inr (
              p,
              round_fails fuel pos input ch rest e p r,
              omega (arith, read_token-unterminated (pos + length blank) ch rest p r),
              omega (arith, read_token-unterminated (pos + length blank) ch rest p r, total),
            )
            | inl (t, left, r) ↦
                let (text, f, is_text, some_there) =
                  IsText-covered (pos + length blank) (ch ∷ rest) t left
                    (read_token-covered (pos + length blank) ch rest t left r) in
                let long : suc (length rest) ≡ length text + length left =
                  omega (arith, ap length f, length-append text left) in
                let behind : position_at (pos + length blank) (ch ∷ rest) left
                    ≡ pos + length blank + length text =
                  unfold position_at in omega (arith, long) in
                let tiled : blank ++ (text ++ left) ≡ input =
                  ap (λ (l : Bytes). blank ++ l) (sym (e ∙ f)) ∙ whole in
                let round =
                  round_token fuel pos input ch rest e t left r
                  ∙ ap (λ (n : ℕ). with_token t (tokenize_from fuel n left)) behind in
                elim (tokenize_from-tiles fuel (pos + length blank + length text) left
                  (omega (arith, enough, total, long, some_there))) [
                    | inl (ts, g, tiling) ↦ inl (
                      t ∷ ts,
                      round ∙ ap (with_token t) g,
                      subst (λ (l : Bytes). Tiling pos l (t ∷ ts)) tiled
                          (next blank text left all_blank is_text tiling),
                    )
                    | inr (p, g, above, below) ↦ inr (
                      p,
                      round ∙ ap (with_token t) g,
                      omega (arith, above),
                      omega (arith, below, total, long),
                    )
                  ]
          ]
    ]

-- Tokenize ends: it returns tokens that are its input, each in its place with only blanks between them,
-- or the position of a string that does not end, which is in the input.
pub tokenize-tiles :
    (input : Bytes)
    → ((ts : List Token) × (tokenize input ≡ tokens ts) × Tiling 0 input ts)
      ⊎ ((p : ℕ) × (tokenize input ≡ unterminated_at p) × (0 < p) × (p ≤ length input))
unfolding tokenize
tokenize-tiles input = elim (tokenize_from-tiles (suc (length input)) 0 input (omega arith)) [
  | inl tiled ↦ inl tiled
  | inr (p, e, above, below) ↦ inr (p, e, above, omega (arith, below))
]
