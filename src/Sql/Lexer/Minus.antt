-- ===== src/Sql/Lexer/Minus.antt =====
-- A minus in front of a digit belongs to the number.
use agent_native_db.Prelude.{
  ℕ, suc, ◌+◌, ◌≡◌, refl, sym, ap, ◌∙◌, subst, true, false, [], ◌∷◌, ◌++◌, length, length-append,
  arith,
}
use agent_native_db.Bytes.{Bytes}
use agent_native_db.Sql.Kinds.{token_integer}
use agent_native_db.Sql.Lexer.{
  Token, token, span, is_space, is_digit, peek, long_operator, read_number, read_operator, is_alpha,
  read_sign, read_token, Tokens, tokens, with_token, position_at, tokenize_from, tokenize,
}
use agent_native_db.Sql.Lexer.Cases.{if_true}
use agent_native_db.Sql.Lexer.Tiled.{end_token, round_end, round_token}
use agent_native_db.Sql.Lexer.Reads.{
  span-stop, at_digit, number_parts-whole, number_parts-integer, read_number-parts,
}
use agent_native_db.Sql.Lexer.Words.{AreDigits, digit_dark}

abbrev pub integer_token : ℕ → Bytes → Token
integer_token pos literal = record { type = token_integer; literal = literal; pos = pos }

-- The round of a token that starts where the position is.
pub token-round :
    (fuel pos c : ℕ) (behind : Bytes) (t : Token) (left : Bytes)
    → is_space c ≡ false
    → read_token pos c behind ≡ token t left
    → tokenize_from (suc fuel) pos (c ∷ behind)
      ≡ with_token t (tokenize_from fuel (position_at pos (c ∷ behind) left) left)
token-round fuel pos c behind t left dark r =
    let spans : span is_space (c ∷ behind) ≡ ([], c ∷ behind) =
      span-stop is_space [] c behind tt dark in
    let at : pos + length (span is_space (c ∷ behind)).0 ≡ pos =
      ap (λ (p : Bytes × Bytes). pos + length p.0) spans ∙ omega arith in
    round_token fuel pos (c ∷ behind) c behind (ap (λ (p : Bytes × Bytes). p.1) spans) t left
      (subst (λ (n : ℕ). read_token n c behind ≡ token t left) (sym at) r)
    ∙ ap (λ (n : ℕ). with_token t (tokenize_from fuel (position_at n (c ∷ behind) left) left)) at

at_minus : (pos : ℕ) (rest : Bytes) → read_token pos 45 rest ≡ read_sign pos 45 rest
unfolding read_token is_digit is_alpha
at_minus pos rest = refl

to_number :
    (pos e : ℕ) (es : Bytes)
    → is_digit e ≡ true
    → read_sign pos 45 (e ∷ es) ≡ read_number pos 45 (e ∷ es)
unfolding read_sign long_operator peek
to_number pos e es h = if_true (read_operator pos 45 (e ∷ es)) h

-- The number behind a minus, with its sign.
negative-read :
    (pos e : ℕ) (es : Bytes)
    → AreDigits (e ∷ es)
    → read_token pos 45 (e ∷ es) ≡ token (integer_token pos (45 ∷ e ∷ es)) []
unfolding read_number
negative-read pos e es k =
    let of_number : read_number pos 45 (e ∷ es) ≡ token (integer_token pos (45 ∷ e ∷ es)) [] =
      rw (read_number, number_parts-whole (e ∷ es) k.0) refl in
    at_minus pos (e ∷ es) ∙ to_number pos e es k.0.0 ∙ of_number

-- The digits in front of a minus.
digits-read :
    (d : ℕ) (ds b : Bytes)
    → AreDigits (d ∷ ds)
    → read_token 0 d (ds ++ 45 ∷ b) ≡ token (integer_token 0 (d ∷ ds)) (45 ∷ b)
unfolding is_digit
digits-read d ds b h =
    at_digit 0 d (ds ++ 45 ∷ b) h.0.0
    ∙ read_number-parts 0 d (ds ++ 45 ∷ b) false (d ∷ ds) (45 ∷ b) h.0.0
        (number_parts-integer (d ∷ ds) 45 b h.0 refl refl)

-- A subtraction of digits that is written without blanks is read as two integers, the second of them
-- negative: the minus is lost.
pub tokenize-minus :
    (a b : Bytes)
    → AreDigits a
    → AreDigits b
    → tokenize (a ++ 45 ∷ b)
      ≡ tokens (
          integer_token 0 a
          ∷ integer_token (length a) (45 ∷ b)
          ∷ end_token (length a + 1 + length b)
          ∷ [])
unfolding tokenize with_token position_at is_space
tokenize-minus [] b h k = absurd (omega (arith, h.1))
tokenize-minus (d ∷ ds) [] h k = absurd (omega (arith, k.1))
tokenize-minus (d ∷ ds) (e ∷ es) h k =
    let b = e ∷ es in
    let input = d ∷ (ds ++ 45 ∷ b) in
    let fuel : suc (length input) ≡ suc (suc (suc (length ds + length es + 1))) =
      omega (arith, length-append ds (45 ∷ b)) in
    let first =
      token-round (suc (suc (length ds + length es + 1))) 0 d (ds ++ 45 ∷ b)
        (integer_token 0 (d ∷ ds)) (45 ∷ b) (digit_dark d h.0.0) (digits-read d ds b h) in
    let second =
      token-round (suc (length ds + length es + 1)) (suc (length ds)) 45 b
        (integer_token (suc (length ds)) (45 ∷ b)) [] refl
        (negative-read (suc (length ds)) e es k) in
    let moved : position_at 0 input (45 ∷ b) ≡ suc (length ds) =
      omega (arith, length-append ds (45 ∷ b)) in
    let moved_on : position_at (suc (length ds)) (45 ∷ b) [] ≡ suc (length ds) + 1 + length b =
      omega arith in
    let third : tokenize_from (suc (length ds + length es + 1)) (suc (length ds) + 1 + length b) []
        ≡ tokens (end_token (suc (length ds) + 1 + length b) ∷ []) =
      round_end (length ds + length es + 1) (suc (length ds) + 1 + length b) [] refl
      ∙ ap (λ (n : ℕ). tokens (end_token n ∷ [])) (omega arith) in
    ap (λ (n : ℕ). tokenize_from n 0 input) fuel
    ∙ first
    ∙ ap
        (λ (n : ℕ).
          with_token (integer_token 0 (d ∷ ds))
            (tokenize_from (suc (suc (length ds + length es + 1))) n (45 ∷ b)))
        moved
    ∙ ap (with_token (integer_token 0 (d ∷ ds))) second
    ∙ ap
        (λ (n : ℕ). with_token (integer_token 0 (d ∷ ds)) (
          with_token (integer_token (suc (length ds)) (45 ∷ b))
            (tokenize_from (suc (length ds + length es + 1)) n [])))
        moved_on
    ∙ ap
        (λ (ts : Tokens).
          with_token (integer_token 0 (d ∷ ds))
            (with_token (integer_token (suc (length ds)) (45 ∷ b)) ts))
        third
