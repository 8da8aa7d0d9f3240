-- ===== src/Sybase/Template.antt =====
-- The SQL text that reaches Sybase: every placeholder with its value in its place.
use hft_legacy_migration_fra.Base.{
  ℕ, suc, ◌≡◌, ◌≢◌, refl, ap, sym, ◌∙◌, Bytes, Bool, true, not, ◌&&◌, List, [], ◌∷◌, ◌++◌, some,
  to_string, starts_with, length, length-append, take_append, drop_append, All, All-append,
  append_assoc, arith, ◌==◌,
}
use hft_legacy_migration_fra.Sybase.Placeholders.{find_text, replace_at, placeholder}

abbrev pub HasNoDollar : Bytes → Type 0
HasNoDollar text = All (λ d. d ≢ b'$') text

abbrev pub free_of : ℕ → Bytes → Bool
free_of c [] = true
free_of c (d ∷ text) = not (d == c) && free_of c text

pub free_of-All : (c : ℕ) (text : Bytes) → free_of c text ≡ true → All (λ d. d ≢ c) text
free_of-All c [] h = tt
free_of-All c (d ∷ text) h = (ground arith, free_of-All c text (ground arith))

pub no_dollar-HasNoDollar : (text : Bytes) → free_of b'$' text ≡ true → HasNoDollar text
no_dollar-HasNoDollar = free_of-All b'$'

-- An SQL text as the pieces between its placeholders, which are numbered from `index` on.
unfoldable pub template : ℕ → Bytes → List Bytes → Bytes
template index piece [] = piece
template index piece (next ∷ pieces) =
    piece ++ (placeholder index ++ template (suc index) next pieces)

-- The same pieces with the values between them.
unfoldable pub filled : Bytes → List Bytes → List Bytes → Bytes
filled piece [] values = piece
filled piece (next ∷ pieces) [] = piece
filled piece (next ∷ pieces) (value ∷ values) = piece ++ (value ++ filled next pieces values)

pub starts_with_append : (needle rest : Bytes) → starts_with needle (needle ++ rest) ≡ true
unfolding starts_with
starts_with_append [] rest = refl
starts_with_append (c ∷ needle) rest = ground (arith, starts_with_append needle rest)

find_here :
    (c : ℕ) (needle text : Bytes)
    → starts_with needle (c ∷ text) ≡ true
    → find_text needle (c ∷ text) 0 ≡ some 0
unfolding find_text
find_here c needle text h = rw (h, find_text) refl

pub find_front :
    (front rest : Bytes) (index : ℕ)
    → HasNoDollar front
    → find_text (placeholder index) (front ++ (placeholder index ++ rest)) 0 ≡ some (length front)
unfolding find_text placeholder starts_with
find_front [] rest index h =
    find_here b'$' (placeholder index) (to_string index ++ rest)
      (starts_with_append (placeholder index) rest)
find_front (c ∷ front) rest index (h, hs) = ground (arith, find_front front rest index hs)

pub replaced :
    (front needle rest value : Bytes)
    → replace_at (front ++ (needle ++ rest)) (length front) needle value ≡ front ++ (value ++ rest)
replaced front needle rest value =
    rw
      (
        take_append front (needle ++ rest),
        ← length-append front needle,
        ← append_assoc front needle rest,
        drop_append (front ++ needle) rest,
      )
      refl

clean :
    (front piece value : Bytes)
    → HasNoDollar front
    → HasNoDollar piece
    → HasNoDollar value
    → HasNoDollar ((front ++ piece) ++ value)
clean front piece value hf hp hv =
    All-append (λ d. d ≢ b'$') (front ++ piece) value (All-append (λ d. d ≢ b'$') front piece hf hp)
      hv

-- A version that puts the value in the place of the first placeholder, and leaves a rest alone in
-- which that placeholder is not, fills a template.
module _ (Fine : ℕ → Bytes → Type 0) (put : ℕ → Bytes → Bytes → Bytes)
    (put_front : (index : ℕ) (front value rest : Bytes)
      → HasNoDollar front
      → HasNoDollar value
      → Fine index rest
      → put index value (front ++ (placeholder index ++ rest)) ≡ front ++ (value ++ rest)) where
  unfoldable pub put_all : ℕ → List Bytes → Bytes → Bytes
  put_all index [] text = text
  put_all index (value ∷ values) text = put_all (suc index) values (put index value text)

  -- Each rest of the template behind a placeholder.
  abbrev pub AllFine : ℕ → Bytes → List Bytes → Type 0
  AllFine index piece [] = Unit {0}
  AllFine index piece (next ∷ pieces) =
      Fine index (template (suc index) next pieces) × AllFine (suc index) next pieces

  pub put_all-template :
      (index : ℕ) (front piece : Bytes) (pieces values : List Bytes)
      → HasNoDollar front
      → HasNoDollar piece
      → All HasNoDollar pieces
      → All HasNoDollar values
      → length values ≡ length pieces
      → AllFine index piece pieces
      → put_all index values (front ++ template index piece pieces)
        ≡ front ++ filled piece pieces values
  unfolding put_all template filled
  put_all-template index front piece [] [] hf hp hs hv e fine = refl
  put_all-template index front piece [] (v ∷ vs) hf hp hs hv e fine =
      absurd (omega (arith, ap (λ (n : ℕ). n) e))
  put_all-template index front piece (next ∷ pieces) [] hf hp hs hv e fine =
      absurd (omega (arith, ap (λ (n : ℕ). n) e))
  put_all-template index front piece (next ∷ pieces) (v ∷ vs) hf hp (hn, hs) (hv, hvs) e
        (fine, later) =
      let rest = template (suc index) next pieces in
      ap (put_all (suc index) vs) (
        ap (put index v) (sym (append_assoc front piece (placeholder index ++ rest)))
        ∙ put_front index (front ++ piece) v rest (All-append (λ d. d ≢ b'$') front piece hf hp) hv
            fine
        ∙ sym (append_assoc (front ++ piece) v rest))
      ∙ put_all-template (suc index) ((front ++ piece) ++ v) next pieces vs
          (clean front piece v hf hp hv) hn hs hvs (omega arith) later
      ∙ simp append_assoc
