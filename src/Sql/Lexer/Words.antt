-- ===== src/Sql/Lexer/Words.antt =====
-- The reading of a word that is followed by a blank or by the end of the input.
use agent_native_db.Prelude.{
  append_assoc, append-nil, ℕ, ◌+◌, ◌<◌, ◌≡◌, refl, sym, ◌∙◌, subst, true, false, ◌||◌, Option,
  none, some, [], ◌∷◌, ◌++◌, ◌==◌, All, length, arith,
}
use agent_native_db.Bytes.{Bytes}
use agent_native_db.Sql.Kinds.{TokenType, token_string, token_ident, token_integer, token_float}
use agent_native_db.Sql.Token.{keyword}
use agent_native_db.Sql.Lexer.Reads.{
  behind, span-behind, at_digit, at_letter, at_quote, at_operator, number_parts-behind,
  number_parts-fraction, read_number-parts, string_end-body,
}
use agent_native_db.Sql.Lexer.Covered.{letter_in_name}
use agent_native_db.Sql.Lexer.{
  Token, token, is_space, is_digit, is_alpha, in_name, to_upper, read_string, ident_token,
  read_ident, operator, read_token,
}

-- What is written: a name that is no keyword, a keyword, an integer, a fraction, a string, or an
-- operator of one byte.
pub data Word : Type 0 where
  name : Bytes → Word
  keyword_word : Bytes → TokenType → Word
  integer : Bytes → Word
  fraction : Bytes → Bytes → Word
  quoted : Bytes → Word
  sign : ℕ → TokenType → Word

abbrev pub AreDigits : Bytes → Type 0
AreDigits ds = All (λ (c : ℕ). is_digit c ≡ true) ds × (0 < length ds)

-- A name starts with a letter or a low line and goes on with these and digits.
abbrev pub IsName : Bytes → Type 0
IsName [] = ⊥
IsName (c ∷ cs) = ((is_alpha c || c == 95) ≡ true) × All (λ (x : ℕ). in_name x ≡ true) cs

abbrev pub IsWritten : Word → Type 0
IsWritten (name w) = IsName w × (keyword (to_upper w) ≡ none)
IsWritten (keyword_word w t) = IsName w × (keyword (to_upper w) ≡ some t)
IsWritten (integer ds) = AreDigits ds
IsWritten (fraction ds fs) = AreDigits ds × All (λ (c : ℕ). is_digit c ≡ true) fs
IsWritten (quoted body) = All (λ (c : ℕ). (c == 39) ≡ false) body
IsWritten (sign c t) = operator c ≡ some t

-- The text of a word and its token at a position.
unfoldable pub text_of : Word → Bytes
text_of (name w) = w
text_of (keyword_word w t) = w
text_of (integer ds) = ds
text_of (fraction ds fs) = ds ++ 46 ∷ fs
text_of (quoted body) = 39 ∷ (body ++ 39 ∷ [])
text_of (sign c t) = c ∷ []

unfoldable pub token_of : ℕ → Word → Token
unfolding to_upper
token_of pos (name w) = record { type = token_ident; literal = w; pos = pos }
token_of pos (keyword_word w t) = record { type = t; literal = to_upper w; pos = pos }
token_of pos (integer ds) = record { type = token_integer; literal = ds; pos = pos }
token_of pos (fraction ds fs) = record { type = token_float; literal = ds ++ 46 ∷ fs; pos = pos }
token_of pos (quoted body) = record { type = token_string; literal = body; pos = pos + 1 }
token_of pos (sign c t) = record { type = t; literal = c ∷ []; pos = pos }

-- The reading of a word in front of a blank or at the end of the input.
abbrev pub IsReadAt : ℕ → Bytes → Bytes → Token → Type 0
IsReadAt pos [] left t = ⊥
IsReadAt pos (c ∷ cs) left t = read_token pos c (cs ++ left) ≡ token t left

name_word :
    (pos c : ℕ) (cs : Bytes) (more : Option Bytes)
    → IsName (c ∷ cs)
    → read_ident pos c (cs ++ behind more) ≡ token (ident_token pos (c ∷ cs)) (behind more)
unfolding read_ident
name_word pos c cs more h =
    rw (read_ident, span-behind in_name (c ∷ cs) more (letter_in_name c h.0, h.1) refl) refl

name-read :
    (pos : ℕ) (w : Bytes) (more : Option Bytes)
    → IsName w
    → IsReadAt pos w (behind more) (ident_token pos w)
name-read pos [] more h = h
name-read pos (c ∷ cs) more h = at_letter pos c (cs ++ behind more) h.0 ∙ name_word pos c cs more h

number-read :
    (pos : ℕ) (ds : Bytes) (more : Option Bytes)
    → AreDigits ds
    → IsReadAt pos ds (behind more) (token_of pos (integer ds))
unfolding token_of is_digit
number-read pos [] more h = absurd (omega (arith, h.1))
number-read pos (d ∷ ds) more h =
    at_digit pos d (ds ++ behind more) h.0.0
    ∙ read_number-parts pos d (ds ++ behind more) false (d ∷ ds) (behind more) h.0.0
        (number_parts-behind (d ∷ ds) more h.0)

fraction-read :
    (pos : ℕ) (ds fs : Bytes) (more : Option Bytes)
    → AreDigits ds
    → All (λ (c : ℕ). is_digit c ≡ true) fs
    → IsReadAt pos (ds ++ 46 ∷ fs) (behind more) (token_of pos (fraction ds fs))
unfolding token_of
fraction-read pos [] fs more h k = absurd (omega (arith, h.1))
fraction-read pos (d ∷ ds) fs more h k =
    subst
      (λ (l : Bytes).
        read_token pos d l ≡ token (token_of pos (fraction (d ∷ ds) fs)) (behind more))
      (sym (append_assoc ds (46 ∷ fs) (behind more)))
      (at_digit pos d (ds ++ 46 ∷ (fs ++ behind more)) h.0.0
        ∙ read_number-parts pos d (ds ++ 46 ∷ (fs ++ behind more)) true (d ∷ ds ++ 46 ∷ fs)
            (behind more) h.0.0 (number_parts-fraction (d ∷ ds) fs more h.0 k))

quoted-read :
    (pos : ℕ) (body : Bytes) (more : Option Bytes)
    → All (λ (c : ℕ). (c == 39) ≡ false) body
    → IsReadAt pos (text_of (quoted body)) (behind more) (token_of pos (quoted body))
unfolding token_of text_of read_string
quoted-read pos body more h =
    subst (λ (l : Bytes). read_token pos 39 l ≡ token (token_of pos (quoted body)) (behind more))
      (sym (append_assoc body (39 ∷ []) (behind more)))
      (at_quote pos (body ++ 39 ∷ behind more) ∙ rw (read_string, string_end-body body more h) refl)

sign-read :
    (pos c : ℕ) (t : TokenType) (more : Option Bytes)
    → operator c ≡ some t
    → IsReadAt pos (c ∷ []) (behind more) (token_of pos (sign c t))
unfolding token_of
sign-read pos c t more h = at_operator pos c t more h

pub word-read :
    (pos : ℕ) (w : Word) (more : Option Bytes)
    → IsWritten w
    → IsReadAt pos (text_of w) (behind more) (token_of pos w)
unfolding text_of token_of ident_token
word-read pos (name w) more h =
    subst (IsReadAt pos w (behind more)) (rw (ident_token, h.1) refl) (name-read pos w more h.0)
word-read pos (keyword_word w t) more h =
    subst (IsReadAt pos w (behind more)) (rw (ident_token, h.1) refl) (name-read pos w more h.0)
word-read pos (integer ds) more h = number-read pos ds more h
word-read pos (fraction ds fs) more h = fraction-read pos ds fs more h.0 h.1
word-read pos (quoted body) more h = quoted-read pos body more h
word-read pos (sign c t) more h = sign-read pos c t more h

-- It does not start with a blank.
abbrev pub StartsDark : Bytes → Type 0
StartsDark [] = ⊥
StartsDark (c ∷ cs) = is_space c ≡ false

pub digit_dark : (c : ℕ) → is_digit c ≡ true → is_space c ≡ false
unfolding is_digit is_space
digit_dark c h = ground (arith, h)

name_dark : (w : Bytes) → IsName w → StartsDark w
unfolding is_space is_alpha
name_dark [] h = h
name_dark (c ∷ cs) h = ground (arith, h.0)

digits_dark : (ds more : Bytes) → AreDigits ds → StartsDark (ds ++ more)
digits_dark [] more h = absurd (omega (arith, h.1))
digits_dark (d ∷ ds) more h = digit_dark d h.0.0

pub text_of-StartsDark : (w : Word) → IsWritten w → StartsDark (text_of w)
unfolding text_of is_space operator
text_of-StartsDark (name w) h = name_dark w h.0
text_of-StartsDark (keyword_word w t) h = name_dark w h.0
text_of-StartsDark (integer ds) h = subst StartsDark (append-nil ds) (digits_dark ds [] h)
text_of-StartsDark (fraction ds fs) h = digits_dark ds (46 ∷ fs) h.0
text_of-StartsDark (quoted body) h = refl
text_of-StartsDark (sign c t) h = ground (arith, h)
