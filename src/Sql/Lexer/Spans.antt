-- ===== src/Sql/Lexer/Spans.antt =====
-- What the reading functions take and leave is their input.
use agent_native_db.Prelude.{
  append_assoc, ℕ, ◌<◌, ◌≡◌, inl, inr, refl, ap, ◌∙◌, Bool, true, Option, none, some, [], ◌∷◌, ◌++◌,
  ◌==◌, All, length, arith, Bool-cases,
}
use agent_native_db.Bytes.{Bytes}
use agent_native_db.Sql.Lexer.{span, peek, is_digit, string_end, with_front, number_parts, drop_one}

module _ (p : ℕ → Bool) where
  pub span-append : (xs : Bytes) → (span p xs).0 ++ (span p xs).1 ≡ xs
  unfolding span
  span-append [] = refl
  span-append (x ∷ xs) = ground (arith, span-append xs)

  pub span-All : (xs : Bytes) → All (λ (x : ℕ). p x ≡ true) ((span p xs).0)
  unfolding span
  span-All [] = tt
  span-All (x ∷ xs) = elim (Bool-cases (p x)) [
    | inl taken ↦ rw (span, taken) (taken, span-All xs)
    | inr no_more ↦ rw (span, no_more) tt
  ]

with_front-some :
    (front : Bytes) (o : Option (Bytes × Bytes)) (body left : Bytes)
    → with_front front o ≡ some (body, left)
    → (inner : Bytes) × (o ≡ some (inner, left)) × (body ≡ front ++ inner)
unfolding with_front
with_front-some front none body left h = absurd (ground (arith, h))
with_front-some front (some (inner, l)) body left h = (inner, ground (arith, h), ground (arith, h))

pub string_end-append :
    (quote : ℕ) (xs body left : Bytes)
    → string_end quote xs ≡ some (body, left)
    → xs ≡ body ++ quote ∷ left
unfolding string_end
string_end-append quote [] body left h = absurd (ground (arith, h))
string_end-append quote (c ∷ []) body left h = ground (arith, h)
string_end-append quote (c ∷ d ∷ cs) body left h = elim (Bool-cases (c == quote)) [
  | inr other ↦
      let (inner, e, b) =
        with_front-some (c ∷ []) (string_end quote (d ∷ cs)) body left
          (rw (string_end, other) at h) in
      ground (arith, b, string_end-append quote (d ∷ cs) inner left e)
  | inl at_quote ↦ elim (Bool-cases (d == quote)) [
    | inl doubled ↦
        let (inner, e, b) =
          with_front-some (c ∷ d ∷ []) (string_end quote cs) body left
            (rw (string_end, at_quote, doubled) at h) in
        ground (arith, b, string_end-append quote cs inner left e)
    | inr closed ↦ ground (arith, at_quote, rw (string_end, at_quote, closed) at h)
  ]
]

peeked : (xs : Bytes) → (peek 0 xs == 46) ≡ true → 46 ∷ drop_one xs ≡ xs
unfolding peek drop_one
peeked [] h = absurd (ground (arith, h))
peeked (x ∷ xs) h = ground (arith, h)

pub number_parts-append : (xs : Bytes) → (number_parts xs).1 ++ (number_parts xs).2 ≡ xs
unfolding number_parts peek drop_one
number_parts-append xs =
    let behind = (span is_digit xs).1 in
    let more = span is_digit (drop_one behind) in
    elim (Bool-cases (peek 0 behind == 46)) [
      | inl point ↦
          let tail : 46 ∷ (more.0 ++ more.1) ≡ behind =
            ap (λ (l : Bytes). 46 ∷ l) (span-append is_digit (drop_one behind))
            ∙ peeked behind point in
          let whole : (span is_digit xs).0 ++ (46 ∷ (more.0 ++ more.1)) ≡ xs =
            ap (λ (l : Bytes). (span is_digit xs).0 ++ l) tail ∙ span-append is_digit xs in
          let split : ((span is_digit xs).0 ++ 46 ∷ more.0) ++ more.1
              ≡ (span is_digit xs).0 ++ (46 ∷ (more.0 ++ more.1)) =
            append_assoc (span is_digit xs).0 (46 ∷ more.0) more.1 in
          rw (number_parts, point) (split ∙ whole)
      | inr none_there ↦ rw (number_parts, none_there) (span-append is_digit xs)
    ]

pub number_parts_some :
    (ch : ℕ) (rest : Bytes) → is_digit ch ≡ true → 0 < length ((number_parts (ch ∷ rest)).1)
unfolding number_parts span
number_parts_some ch rest h = ground (arith, h)
