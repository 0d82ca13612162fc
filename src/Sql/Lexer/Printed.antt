-- ===== src/Sql/Lexer/Printed.antt =====
-- The tokens of a text that is written with blanks between its words.
use agent_native_db.Prelude.{
  ℕ, zero, suc, ◌+◌, ◌<◌, ◌≡◌, refl, sym, ap, ◌∙◌, subst, some, none, List, [], ◌∷◌, ◌++◌, All,
  length, length-append, arith,
}
use agent_native_db.Bytes.{Bytes}
use agent_native_db.Sql.Lexer.{
  Token, token, span, is_space, read_token, tokens, with_token, position_at, tokenize_from,
  tokenize,
}
use agent_native_db.Sql.Lexer.Tiled.{end_token, round_end, round_token}
use agent_native_db.Sql.Lexer.Reads.{span-stop}
use agent_native_db.Sql.Lexer.Minus.{token-round}
use agent_native_db.Sql.Lexer.Words.{
  Word, IsWritten, IsReadAt, StartsDark, text_of, token_of, word-read, text_of-StartsDark,
}

-- Words with a blank in front of each.
unfoldable pub blanked : List Word → Bytes
unfolding text_of
blanked [] = []
blanked (w ∷ ws) = 32 ∷ (text_of w ++ blanked ws)

-- Words with a blank between any two: none in front and none at the end.
unfoldable pub joined : List Word → Bytes
unfolding text_of blanked
joined [] = []
joined (w ∷ ws) = text_of w ++ blanked ws

-- The tokens of words behind a position, each with a blank in front.
unfoldable pub blanked_tokens : ℕ → List Word → List Token
unfolding token_of text_of
blanked_tokens pos [] = end_token pos ∷ []
blanked_tokens pos (w ∷ ws) =
    token_of (pos + 1) w ∷ blanked_tokens (pos + 1 + length (text_of w)) ws

-- The tokens of joined words.
unfoldable pub joined_tokens : List Word → List Token
unfolding token_of text_of blanked_tokens
joined_tokens [] = end_token 0 ∷ []
joined_tokens (w ∷ ws) = token_of 0 w ∷ blanked_tokens (length (text_of w)) ws

-- A word in front of further ones.
next-read :
    (pos : ℕ) (w : Word) (ws : List Word)
    → IsWritten w
    → IsReadAt pos (text_of w) (blanked ws) (token_of pos w)
unfolding blanked
next-read pos w [] h = word-read pos w none h
next-read pos w (v ∷ ws) h = word-read pos w (some (text_of v ++ blanked ws)) h

-- The round of a text that is read as a token where the position is, and behind a blank.
first-round :
    (fuel pos : ℕ) (text left : Bytes) (t : Token)
    → StartsDark text
    → IsReadAt pos text left t
    → tokenize_from (suc fuel) pos (text ++ left)
      ≡ with_token t (tokenize_from fuel (pos + length text) left)
unfolding position_at
first-round fuel pos [] left t dark r = absurd dark
first-round fuel pos (c ∷ cs) left t dark r =
    let moved : position_at pos (c ∷ cs ++ left) left ≡ pos + length (c ∷ cs) =
      omega (arith, length-append cs left) in
    token-round fuel pos c (cs ++ left) t left dark r
    ∙ ap (λ (n : ℕ). with_token t (tokenize_from fuel n left)) moved

text-round :
    (fuel pos : ℕ) (text left : Bytes) (t : Token)
    → StartsDark text
    → IsReadAt (pos + 1) text left t
    → tokenize_from (suc fuel) pos (32 ∷ (text ++ left))
      ≡ with_token t (tokenize_from fuel (pos + 1 + length text) left)
unfolding is_space position_at
text-round fuel pos [] left t dark r = absurd dark
text-round fuel pos (c ∷ cs) left t dark r =
    let behind = cs ++ left in
    let spans : span is_space (32 ∷ c ∷ behind) ≡ (32 ∷ [], c ∷ behind) =
      span-stop is_space (32 ∷ []) c behind (refl, tt) dark in
    let at : pos + length (span is_space (32 ∷ c ∷ behind)).0 ≡ pos + 1 =
      ap (λ (p : Bytes × Bytes). pos + length p.0) spans in
    let read = subst (λ (n : ℕ). read_token n c behind ≡ token t left) (sym at) r in
    let moved : position_at (pos + length (span is_space (32 ∷ c ∷ behind)).0) (c ∷ behind) left
        ≡ pos + 1 + length (c ∷ cs) =
      omega (arith, at, length-append cs left) in
    round_token fuel pos (32 ∷ c ∷ behind) c behind (ap (λ (p : Bytes × Bytes). p.1) spans) t left
      read
    ∙ ap (λ (n : ℕ). with_token t (tokenize_from fuel n left)) moved

blanked-tokens :
    (fuel pos : ℕ) (ws : List Word)
    → All IsWritten ws
    → length (blanked ws) < fuel
    → tokenize_from fuel pos (blanked ws) ≡ tokens (blanked_tokens pos ws)
unfolding blanked blanked_tokens with_token span is_space
blanked-tokens zero pos ws h enough = absurd (omega (arith, enough))
blanked-tokens (suc fuel) pos [] h enough =
    round_end fuel pos [] refl ∙ ap (λ (n : ℕ). tokens (end_token n ∷ [])) (omega arith)
blanked-tokens (suc fuel) pos (w ∷ ws) h enough =
    let next = pos + 1 + length (text_of w) in
    let rest =
      blanked-tokens fuel next ws h.1
        (omega (arith, enough, length-append (text_of w) (blanked ws))) in
    text-round fuel pos (text_of w) (blanked ws) (token_of (pos + 1) w) (text_of-StartsDark w h.0)
      (next-read (pos + 1) w ws h.0)
    ∙ ap (with_token (token_of (pos + 1) w)) rest

text-nonempty : (text : Bytes) → StartsDark text → 0 < length text
text-nonempty [] dark = absurd dark
text-nonempty (c ∷ cs) dark = omega arith

-- Names that are no keywords, keywords, integers, fractions, strings without quotes in them and operators
-- of one byte, written with a blank between any two of them, are read back: the tokens are those of the
-- words, each at the place of its word, and one for the end of the input.
pub tokenize-words :
    (ws : List Word) → All IsWritten ws → tokenize (joined ws) ≡ tokens (joined_tokens ws)
unfolding tokenize joined joined_tokens with_token
tokenize-words [] h = round_end 0 0 [] refl
tokenize-words (w ∷ ws) h =
    let text = text_of w in
    let dark = text_of-StartsDark w h.0 in
    let further =
      blanked-tokens (length (text ++ blanked ws)) (length text) ws h.1
        (omega (arith, text-nonempty text dark, length-append text (blanked ws))) in
    first-round (length (text ++ blanked ws)) 0 text (blanked ws) (token_of 0 w) dark
      (next-read 0 w ws h.0)
    ∙ ap
        (λ (n : ℕ).
          with_token (token_of 0 w) (tokenize_from (length (text ++ blanked ws)) n (blanked ws)))
        (omega arith)
    ∙ ap (with_token (token_of 0 w)) further
