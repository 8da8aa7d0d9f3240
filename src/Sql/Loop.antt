-- ===== src/Sql/Loop.antt =====
-- The escaping loop over positions does what the loop over the characters does.
use hft_legacy_migration_fra.Base.{
  ℕ, zero, suc, ◌+◌, ◌<◌, ◌≡◌, inl, inr, refl, sym, ap, ap₂, ◌∙◌, Bytes, [], ◌∷◌, ◌++◌, Option,
  none, some, false, ◌==◌, take, drop, length, length-append, take_append, append_assoc, arith,
  Bool-cases, ==_iff,
}
use hft_legacy_migration_fra.Sql.{quote, find_quote, escape_loop, escape_name, double_quotes}

abbrev plus : ℕ → Option ℕ → Option ℕ
plus n none = none
plus n (some i) = some (n + i)

find_quote-append :
    (front rest : Bytes)
    → find_quote (front ++ rest) (length front) ≡ plus (length front) (find_quote rest 0)
unfolding find_quote
find_quote-append [] rest = go (find_quote rest 0)
  where
    go : (o : Option ℕ) → o ≡ plus 0 o
    go none = refl
    go (some i) = ap some (omega arith)
find_quote-append (c ∷ front) rest = ground (arith, find_quote-append front rest)

-- Where the next quote stands, and what doubling makes of the text before and behind it.
data NextQuote (text : Bytes) : Type 0 where
  no_quote : find_quote text 0 ≡ none → double_quotes text ≡ text → NextQuote text
  at_quote :
      (pre post : Bytes)
      → find_quote text 0 ≡ some (length pre)
      → text ≡ pre ++ quote ∷ post
      → double_quotes text ≡ pre ++ quote ∷ quote ∷ double_quotes post
      → NextQuote text

next_quote : (text : Bytes) → NextQuote text
unfolding find_quote double_quotes
next_quote [] = no_quote refl refl
next_quote (c ∷ text) = elim (Bool-cases (c == quote)) [
  | inl same ↦ at_quote [] text (rw same) (rw (← (==_iff c quote).0 same) refl) (rw same)
  | inr other ↦ go (next_quote text) other
]
  where
    go : NextQuote text → (c == quote) ≡ false → NextQuote (c ∷ text)
    go (no_quote f d) other = no_quote (ground arith) (ground arith)
    go (at_quote pre post f t d) other =
        at_quote (c ∷ pre) post (ground arith) (ap (◌∷◌ c) t) (ground arith)

escape_loop-step :
    (fuel : ℕ) (text : Bytes) (pos i : ℕ)
    → find_quote text pos ≡ some i
    → escape_loop (suc fuel) text pos
      ≡ escape_loop fuel (take i text ++ (quote ∷ quote ∷ drop (suc i) text)) (i + 2)
unfolding escape_loop
escape_loop-step fuel text pos i e = rw (e, escape_loop)

escape_loop-stop :
    (fuel : ℕ) (text : Bytes) (pos : ℕ)
    → find_quote text pos ≡ none
    → escape_loop (suc fuel) text pos ≡ text
unfolding escape_loop
escape_loop-stop fuel text pos e = rw (e, escape_loop)

drop_behind : (front post : Bytes) (c : ℕ) → drop (suc (length front)) (front ++ c ∷ post) ≡ post
drop_behind [] post c = refl
drop_behind (x ∷ front) post c = drop_behind front post c

abbrev doubled : Bytes → Bytes
doubled front = front ++ quote ∷ quote ∷ []

-- One round of the loop, at the quote behind `front`.
replaced :
    (front post : Bytes)
    → take (length front) (front ++ quote ∷ post)
        ++ (quote ∷ quote ∷ drop (suc (length front)) (front ++ quote ∷ post))
      ≡ doubled front ++ post
replaced front post =
    rw
      (
        take_append front (quote ∷ post),
        drop_behind front post quote,
        append_assoc front (quote ∷ quote ∷ []) post,
      )
      refl

length-doubled : (front : Bytes) → length front + 2 ≡ length (doubled front)
length-doubled front = omega (arith, length-append front (quote ∷ quote ∷ []))

escape_loop-round :
    (fuel : ℕ) (front post : Bytes) (pos : ℕ)
    → find_quote (front ++ quote ∷ post) pos ≡ some (length front)
    → escape_loop (suc fuel) (front ++ quote ∷ post) pos
      ≡ escape_loop fuel (doubled front ++ post) (length (doubled front))
escape_loop-round fuel front post pos e =
    escape_loop-step fuel (front ++ quote ∷ post) pos (length front) e
    ∙ ap₂ (escape_loop fuel) (replaced front post) (length-doubled front)

escape_loop-double_quotes :
    (fuel : ℕ) (front rest : Bytes)
    → length rest < fuel
    → escape_loop fuel (front ++ rest) (length front) ≡ front ++ double_quotes rest
escape_loop-double_quotes zero front rest h = absurd (omega arith)
escape_loop-double_quotes (suc fuel) front rest h =
    go (next_quote rest) (escape_loop-double_quotes fuel)
  where
    go :
        NextQuote rest
        → ((f r : Bytes)
            → length r < fuel
            → escape_loop fuel (f ++ r) (length f) ≡ f ++ double_quotes r)
        → escape_loop (suc fuel) (front ++ rest) (length front) ≡ front ++ double_quotes rest
    go (no_quote f d) ih =
        escape_loop-stop fuel (front ++ rest) (length front)
          (find_quote-append front rest ∙ ap (plus (length front)) f)
        ∙ ap (◌++◌ front) (sym d)
    go (at_quote pre post f t d) ih =
        let mark = front ++ pre in
        let whole : front ++ rest ≡ mark ++ quote ∷ post =
          rw t (sym (append_assoc front pre (quote ∷ post))) in
        let found : find_quote (front ++ rest) (length front) ≡ some (length mark) =
          find_quote-append front rest
          ∙ ap (plus (length front)) f
          ∙ ap some (sym (length-append front pre)) in
        let size : length post < fuel =
          omega (arith, ap (length {0}) t, length-append pre (quote ∷ post)) in
        rw whole (
          escape_loop-round fuel mark post (length front) (rw whole at found)
          ∙ ih (doubled mark) post size
          ∙ rw
              (
                d,
                append_assoc mark (quote ∷ quote ∷ []) (double_quotes post),
                append_assoc front pre (quote ∷ quote ∷ double_quotes post),
              )
              refl)

-- The catalog's escaping of a table name is the doubling of its quotes, for every name: no quote is
-- missed and none doubled twice. The loop ends: the fuel, one more than the name's length, is
-- enough.
pub escape_name-double_quotes : (text : Bytes) → escape_name text ≡ double_quotes text
unfolding escape_name
escape_name-double_quotes text = escape_loop-double_quotes (suc (length text)) [] text (omega arith)
