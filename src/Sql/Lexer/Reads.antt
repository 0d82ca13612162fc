-- ===== src/Sql/Lexer/Reads.antt =====
-- The reading functions on texts of which it is known where they end.
use agent_native_db.Prelude.{
  ℕ, ◌≡◌, refl, ap, ◌∙◌, inl, inr, Bool, true, false, ◌||◌, ◌&&◌, Option, none, some, [], ◌∷◌, ◌++◌,
  ◌==◌, append-nil, sym, subst, All, arith, if◌then◌else◌,
}
use agent_native_db.Bytes.{Bytes}
use agent_native_db.Sql.Kinds.{TokenType, token_integer, token_float}
use agent_native_db.Sql.Lexer.Cases.{if_false, token-cases}
use agent_native_db.Sql.Lexer.{
  token, span, peek, drop_one, is_digit, is_alpha, string_end, with_front, read_string,
  number_parts, read_number, read_ident, operator, read_operator, emit, long_operator, read_sign,
  read_token,
}

-- A loop over bytes of a kind takes them all, up to a byte of another.
pub span-stop :
    (p : ℕ → Bool) (xs : Bytes) (c : ℕ) (rest : Bytes)
    → All (λ (x : ℕ). p x ≡ true) xs
    → p c ≡ false
    → span p (xs ++ c ∷ rest) ≡ (xs, c ∷ rest)
unfolding span
span-stop p [] c rest all stop = ground (arith, stop)
span-stop p (x ∷ xs) c rest all stop = ground (arith, all.0, span-stop p xs c rest all.1 stop)

pub span-whole : (p : ℕ → Bool) (xs : Bytes) → All (λ (x : ℕ). p x ≡ true) xs → span p xs ≡ (xs, [])
unfolding span
span-whole p [] all = refl
span-whole p (x ∷ xs) all = ground (arith, all.0, span-whole p xs all.1)

-- What is behind a word: the end of the input, or a blank and more.
abbrev pub behind : Option Bytes → Bytes
behind none = []
behind (some rest) = 32 ∷ rest

pub span-behind :
    (p : ℕ → Bool) (xs : Bytes) (more : Option Bytes)
    → All (λ (x : ℕ). p x ≡ true) xs
    → p 32 ≡ false
    → span p (xs ++ behind more) ≡ (xs, behind more)
span-behind p xs none all stop =
    subst (λ (l : Bytes). span p l ≡ (xs, [])) (sym (append-nil xs)) (span-whole p xs all)
span-behind p xs (some rest) all stop = span-stop p xs 32 rest all stop

-- Where the switch goes.
pub at_digit :
    (pos ch : ℕ) (rest : Bytes)
    → is_digit ch ≡ true
    → read_token pos ch rest ≡ read_number pos ch rest
unfolding read_token is_digit
at_digit pos ch rest h = ground (arith, h)

pub at_letter :
    (pos ch : ℕ) (rest : Bytes)
    → (is_alpha ch || ch == 95) ≡ true
    → read_token pos ch rest ≡ read_ident pos ch rest
unfolding read_token is_digit is_alpha
at_letter pos ch rest h = ground (arith, h)

pub at_quote : (pos : ℕ) (rest : Bytes) → read_token pos 39 rest ≡ read_string pos 39 rest
unfolding read_token
at_quote pos rest = refl

-- An operator of one byte is no quote, no digit and no letter.
pub operator_plain :
    (ch : ℕ) (t : TokenType)
    → operator ch ≡ some t
    → ((ch == 39 || ch == 34) ≡ false) × (is_digit ch ≡ false) × ((is_alpha ch || ch == 95) ≡ false)
unfolding operator is_digit is_alpha
operator_plain ch t h = (ground (arith, h), ground (arith, h), ground (arith, h))

short_operator : (ch : ℕ) (more : Option Bytes) → long_operator ch (behind more) ≡ none
unfolding long_operator peek
short_operator ch none = ground arith
short_operator ch (some rest) = ground arith

not_negative :
    (ch : ℕ) (more : Option Bytes) → (ch == 45 && is_digit (peek 0 (behind more))) ≡ false
unfolding is_digit peek
not_negative ch none = ground arith
not_negative ch (some rest) = ground arith

at_sign :
    (pos ch : ℕ) (more : Option Bytes)
    → read_sign pos ch (behind more) ≡ read_operator pos ch (behind more)
unfolding read_sign
at_sign pos ch more =
    rw (read_sign, short_operator ch more)
      (if_false (read_number pos ch (behind more)) (not_negative ch more))

pub at_operator :
    (pos ch : ℕ) (t : TokenType) (more : Option Bytes)
    → operator ch ≡ some t
    → read_token pos ch (behind more)
      ≡ token (record { type = t; literal = ch ∷ []; pos = pos }) (behind more)
unfolding read_operator emit
at_operator pos ch t more h =
    let (plain, other, no_letter) = operator_plain ch t h in
    elim (token-cases pos ch (behind more)) [
      | inl (quote, e) ↦ absurd (ground (arith, quote, plain))
      | inr (inl (digit, e)) ↦ absurd (ground (arith, digit, other))
      | inr (inr (inl (letter, e))) ↦ absurd (ground (arith, letter, no_letter))
      | inr (inr (inr e)) ↦ e ∙ at_sign pos ch more ∙ rw (read_operator, h) refl
    ]

-- A number in front of a byte that is neither a digit nor a point, and with a point.
pub number_parts-integer :
    (ds : Bytes) (c : ℕ) (rest : Bytes)
    → All (λ (c : ℕ). is_digit c ≡ true) ds
    → is_digit c ≡ false
    → (c == 46) ≡ false
    → number_parts (ds ++ c ∷ rest) ≡ (false, ds, c ∷ rest)
unfolding number_parts peek
number_parts-integer ds c rest h stop other =
    ground (arith, span-stop is_digit ds c rest h stop, other)

pub number_parts-whole :
    (ds : Bytes) → All (λ (c : ℕ). is_digit c ≡ true) ds → number_parts ds ≡ (false, ds, [])
unfolding number_parts peek
number_parts-whole ds h = rw (number_parts, span-whole is_digit ds h) refl

pub number_parts-behind :
    (ds : Bytes) (more : Option Bytes)
    → All (λ (c : ℕ). is_digit c ≡ true) ds
    → number_parts (ds ++ behind more) ≡ (false, ds, behind more)
unfolding is_digit
number_parts-behind ds none h =
    subst (λ (l : Bytes). number_parts l ≡ (false, ds, [])) (sym (append-nil ds))
      (number_parts-whole ds h)
number_parts-behind ds (some rest) h = number_parts-integer ds 32 rest h refl refl

pub number_parts-fraction :
    (ds fs : Bytes) (more : Option Bytes)
    → All (λ (c : ℕ). is_digit c ≡ true) ds
    → All (λ (c : ℕ). is_digit c ≡ true) fs
    → number_parts (ds ++ 46 ∷ (fs ++ behind more)) ≡ (true, ds ++ 46 ∷ fs, behind more)
unfolding number_parts peek drop_one
number_parts-fraction ds fs more h k =
    rw
      (
        number_parts,
        span-stop is_digit ds 46 (fs ++ behind more) h refl,
        span-behind is_digit fs more k refl,
      )
      refl

pub read_number-parts :
    (pos ch : ℕ) (rest : Bytes) (is_float : Bool) (literal left : Bytes)
    → is_digit ch ≡ true
    → number_parts (ch ∷ rest) ≡ (is_float, literal, left)
    → read_number pos ch rest
      ≡ token
          (record {
            type = if is_float then token_float else token_integer;
            literal = literal;
            pos = pos;
          })
          left
unfolding read_number is_digit
read_number-parts pos ch rest is_float literal left h e = ground (arith, h, e)

pub string_end-step :
    (x y : ℕ) (rest : Bytes)
    → (x == 39) ≡ false
    → string_end 39 (x ∷ y ∷ rest) ≡ with_front (x ∷ []) (string_end 39 (y ∷ rest))
unfolding string_end
string_end-step x y rest h = rw (string_end, h) refl

pub string_end-body :
    (body : Bytes) (more : Option Bytes)
    → All (λ (c : ℕ). (c == 39) ≡ false) body
    → string_end 39 (body ++ 39 ∷ behind more) ≡ some (body, behind more)
unfolding string_end with_front
string_end-body [] none h = refl
string_end-body [] (some rest) h = refl
string_end-body (x ∷ []) more h =
    string_end-step x 39 (behind more) h.0 ∙ ap (with_front (x ∷ [])) (string_end-body [] more tt)
string_end-body (x ∷ y ∷ body) more h =
    string_end-step x y (body ++ 39 ∷ behind more) h.0
    ∙ ap (with_front (x ∷ [])) (string_end-body (y ∷ body) more h.1)
