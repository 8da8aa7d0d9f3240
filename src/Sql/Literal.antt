-- ===== src/Sql/Literal.antt =====
-- Escaped text between quotes is one SQL literal, which means the text that was escaped.
use hft_legacy_migration_fra.Base.{
  ℕ, ◌≡◌, ◌≢◌, refl, ◌∙◌, append_assoc, append-nil, ==_iff, Bytes, [], ◌∷◌, ◌++◌, Option, none,
  some, ◌==◌, if◌then◌else◌, arith, length, ◌<◌, ◌≤◌, Bool-cases, inl, inr,
}
use hft_legacy_migration_fra.Sql.{quote, backslash, double_quotes, escape_string}

-- Standard SQL reads a literal behind its opening quote: two quotes are one, a quote alone ends it,
-- and a backslash is a character like any other. The result is the meaning and what follows.
unfoldable pub read_literal : Bytes → Bytes → Option (Bytes × Bytes)
read_literal so_far [] = none
read_literal so_far (c ∷ []) = if c == quote then some (so_far, []) else none
read_literal so_far (c ∷ d ∷ text) =
    let single = some (so_far, d ∷ text) in
    let double = read_literal (so_far ++ quote ∷ []) text in
    let plain = read_literal (so_far ++ c ∷ []) (d ∷ text) in
    if c == quote then (if d == quote then double else single) else plain

abbrev pub StartsPlain : Bytes → Type 0
StartsPlain [] = Unit {0}
StartsPlain (c ∷ text) = c ≢ quote

-- What `escape_string` makes of a text, read back: every backslash is doubled.
unfoldable pub double_backslashes : Bytes → Bytes
double_backslashes [] = []
double_backslashes (c ∷ text) =
    let rest = double_backslashes text in
    if c == backslash then backslash ∷ backslash ∷ rest else c ∷ rest

read_end :
    (so_far rest : Bytes)
    → StartsPlain rest
    → read_literal so_far (quote ∷ rest) ≡ some (so_far, rest)
unfolding read_literal
read_end so_far [] h = refl
read_end so_far (c ∷ rest) h = ground arith

read_plain :
    (so_far : Bytes) (c : ℕ) (tail : Bytes)
    → c ≢ quote
    → tail ≢ []
    → read_literal so_far (c ∷ tail) ≡ read_literal (so_far ++ c ∷ []) tail
unfolding read_literal
read_plain so_far c [] h t = absurd (t refl)
read_plain so_far c (d ∷ tail) h t = ground arith

append-ne-nil : (xs ys : Bytes) (y : ℕ) → xs ++ y ∷ ys ≢ []
append-ne-nil [] ys y = λ e. cc
append-ne-nil (x ∷ xs) ys y = λ e. cc

read_two :
    (so_far tail : Bytes)
    → read_literal so_far (quote ∷ quote ∷ tail) ≡ read_literal (so_far ++ quote ∷ []) tail
unfolding read_literal
read_two so_far tail = refl

read-double_quotes :
    (text so_far rest : Bytes)
    → StartsPlain rest
    → read_literal so_far (double_quotes text ++ quote ∷ rest) ≡ some (so_far ++ text, rest)
unfolding double_quotes
read-double_quotes [] so_far rest h = rw append-nil (read_end so_far rest h)
read-double_quotes (c ∷ text) so_far rest h = elim (Bool-cases (c == quote)) [
  | inl same ↦ rw same (
      read_two so_far (double_quotes text ++ quote ∷ rest)
      ∙ read-double_quotes text (so_far ++ quote ∷ []) rest h
      ∙ rw (append_assoc so_far (quote ∷ []) text, ← (==_iff c quote).0 same) refl)
  | inr other ↦ rw other (
      read_plain so_far c (double_quotes text ++ quote ∷ rest) (ground arith)
        (append-ne-nil (double_quotes text) rest quote)
      ∙ read-double_quotes text (so_far ++ c ∷ []) rest h
      ∙ rw (append_assoc so_far (c ∷ []) text) refl)
]

-- A text whose quotes are doubled, set between quotes, is read by SQL as one literal that means the
-- text, and what follows it is left as it was, for every text and whatever follows but a quote. So
-- no value bound as a string ends its literal early.
pub read_literal-double_quotes :
    (text rest : Bytes)
    → StartsPlain rest
    → read_literal [] (double_quotes text ++ quote ∷ rest) ≡ some (text, rest)
read_literal-double_quotes text rest h = read-double_quotes text [] rest h

escape_string-double_quotes :
    (text : Bytes) → escape_string text ≡ double_quotes (double_backslashes text)
unfolding escape_string double_quotes double_backslashes
escape_string-double_quotes [] = refl
escape_string-double_quotes (c ∷ text) = ground (arith, escape_string-double_quotes text)

-- What the repository's `escapeString` makes of a text, set between quotes and followed by no quote,
-- is read by SQL as one literal too, but that means the text with every backslash doubled.
pub read_literal-escape_string :
    (text rest : Bytes)
    → StartsPlain rest
    → read_literal [] (escape_string text ++ quote ∷ rest) ≡ some (double_backslashes text, rest)
read_literal-escape_string text rest h =
    rw (escape_string-double_quotes text) (read-double_quotes (double_backslashes text) [] rest h)

length-double_backslashes : (text : Bytes) → length text ≤ length (double_backslashes text)
unfolding double_backslashes
length-double_backslashes [] = omega arith
length-double_backslashes (c ∷ text) = ground (arith, length-double_backslashes text)

longer :
    (front back : Bytes)
    → length (front ++ backslash ∷ back) < length (double_backslashes (front ++ backslash ∷ back))
unfolding double_backslashes
longer [] back = omega (arith, length-double_backslashes back)
longer (c ∷ front) back = ground (arith, longer front back)

-- The bug: the literal that `escapeString` makes of a text with a backslash in it means another text.
pub escape_string_alters :
    (front back rest : Bytes)
    → StartsPlain rest
    → read_literal [] (escape_string (front ++ backslash ∷ back) ++ quote ∷ rest)
      ≢ some (front ++ backslash ∷ back, rest)
escape_string_alters front back rest h e =
    ground (arith, read_literal-escape_string (front ++ backslash ∷ back) rest h, longer front back)
