-- ===== src/Sybase/Filling.antt =====
-- What `buildSQL` and `buildFinalSQL` make of an SQL text whose placeholders stand in order.
use hft_legacy_migration_fra.Base.{
  ℕ, zero, suc, ◌+◌, ◌≤◌, ◌<◌, ◌≡◌, refl, ap, sym, ◌∙◌, Bytes, false, List, [], ◌∷◌, ◌++◌, none,
  to_string, digits_from, starts_with, contains, length, length-append, All, append_assoc,
  append-nil, arith,
}
use hft_legacy_migration_fra.Sybase.Placeholders.{
  find_text, placeholder, replace_loop, replace_all, build_final_sql_from, build_final_sql,
  replace_first, build_sql_from, build_sql,
}
use hft_legacy_migration_fra.Sybase.Template.{
  HasNoDollar, template, filled, find_front, replaced, put_all, AllFine, put_all-template,
}

first_front :
    (index : ℕ) (front value rest : Bytes)
    → HasNoDollar front
    → HasNoDollar value
    → Unit {0}
    → replace_first (placeholder index) value (front ++ (placeholder index ++ rest))
      ≡ front ++ (value ++ rest)
unfolding replace_first
first_front index front value rest h hv fine =
    rw (find_front front rest index h, replace_first)
      (replaced front (placeholder index) rest value)

abbrev put_first : ℕ → Bytes → Bytes → Bytes
put_first index value text = replace_first (placeholder index) value text

build_sql_from-put_all :
    (index : ℕ) (values : List Bytes) (text : Bytes)
    → build_sql_from index values text
      ≡ put_all (λ i rest. Unit {0}) put_first first_front index values text
unfolding build_sql_from put_all
build_sql_from-put_all index [] text = refl
build_sql_from-put_all index (value ∷ values) text = build_sql_from-put_all (suc index) values _

all_plain :
    (index : ℕ) (piece : Bytes) (pieces : List Bytes)
    → AllFine (λ i rest. Unit {0}) put_first first_front index piece pieces
all_plain index piece [] = tt
all_plain index piece (next ∷ pieces) = (tt, all_plain (suc index) next pieces)

-- The older `buildSQL` puts every value in the place of its placeholder, in an SQL text whose
-- placeholders $1, $2 and so on stand in order, however many there are, if there is one value for
-- each and neither a value nor the text between the placeholders holds a dollar sign.
pub build_sql-template :
    (piece : Bytes) (pieces values : List Bytes)
    → All HasNoDollar (piece ∷ pieces)
    → All HasNoDollar values
    → length values ≡ length pieces
    → build_sql values (template 1 piece pieces) ≡ filled piece pieces values
unfolding build_sql
build_sql-template piece pieces values (hp, hs) hv e =
    build_sql_from-put_all 1 values (template 1 piece pieces)
    ∙ put_all-template (λ i rest. Unit {0}) put_first first_front 1 [] piece pieces values tt hp hs
        hv e (all_plain 1 piece pieces)

find_none :
    (needle : Bytes) (c : ℕ) (text : Bytes)
    → contains (c ∷ needle) text ≡ false
    → find_text (c ∷ needle) text 0 ≡ none
unfolding find_text contains
find_none needle c [] h = refl
find_none needle c (d ∷ text) h = ground (arith, find_none needle c text)

find_behind :
    (needle front text : Bytes)
    → find_text needle text 0 ≡ none
    → find_text needle (front ++ text) (length front) ≡ none
unfolding find_text
find_behind needle [] text h = h
find_behind needle (c ∷ front) text h = rw (find_behind needle front text h) refl

loop_ends :
    (fuel : ℕ) (needle value text : Bytes) (pos : ℕ)
    → find_text needle text pos ≡ none
    → replace_loop fuel needle value text pos ≡ text
unfolding replace_loop
loop_ends zero needle value text pos h = refl
loop_ends (suc fuel) needle value text pos h = rw (h, replace_loop) refl

all_front :
    (index : ℕ) (front value rest : Bytes)
    → HasNoDollar front
    → HasNoDollar value
    → contains (placeholder index) rest ≡ false
    → replace_all (placeholder index) value (front ++ (placeholder index ++ rest))
      ≡ front ++ (value ++ rest)
unfolding replace_all
all_front index front value rest h hv fine =
    let text = front ++ (placeholder index ++ rest) in
    let once : replace_loop (suc (length text)) (placeholder index) value text 0
        ≡ replace_loop (length text) (placeholder index) value (front ++ (value ++ rest))
            (length front + length value) =
      unfold replace_loop in
      rw
        (find_front front rest index h, replace_loop, replaced front (placeholder index) rest value)
        refl in
    once
    ∙ loop_ends (length text) (placeholder index) value (front ++ (value ++ rest))
        (length front + length value)
        (rw (← length-append front value, ← append_assoc front value rest)
          (find_behind (placeholder index) (front ++ value) rest
            (unfold placeholder in find_none (to_string index) b'$' rest fine)))

abbrev put_everywhere : ℕ → Bytes → Bytes → Bytes
put_everywhere index value text = replace_all (placeholder index) value text

digit : (k : ℕ) → k < 10 → to_string k ≡ (b'0' + k) ∷ []
unfolding to_string digits_from
digit k h = ground arith

contains_front :
    (needle front rest : Bytes)
    → HasNoDollar front
    → contains (b'$' ∷ needle) (front ++ rest) ≡ contains (b'$' ∷ needle) rest
unfolding contains starts_with
contains_front needle [] rest h = refl
contains_front needle (c ∷ front) rest (h, hs) = ground (arith, contains_front needle front rest hs)

other_digit :
    (k index : ℕ) (rest : Bytes)
    → k < index
    → contains (b'$' ∷ (b'0' + k) ∷ []) (b'$' ∷ (b'0' + index) ∷ rest)
      ≡ contains (b'$' ∷ (b'0' + k) ∷ []) rest
unfolding contains starts_with
other_digit k index rest h = ground arith

not_here :
    (k index : ℕ) (rest : Bytes)
    → k < index
    → index < 10
    → contains (placeholder k) (placeholder index ++ rest) ≡ contains (placeholder k) rest
unfolding placeholder
not_here k index rest h small =
    rw (digit k (omega arith), digit index small) (other_digit k index rest h)

skip_front :
    (k : ℕ) (front rest : Bytes)
    → HasNoDollar front
    → contains (placeholder k) (front ++ rest) ≡ contains (placeholder k) rest
unfolding placeholder
skip_front k = contains_front (to_string k)

in_nothing : (k : ℕ) → contains (placeholder k) [] ≡ false
unfolding placeholder contains starts_with
in_nothing k = refl

not_later :
    (k index : ℕ) (piece : Bytes) (pieces : List Bytes)
    → k < index
    → index + length pieces ≤ 10
    → All HasNoDollar (piece ∷ pieces)
    → contains (placeholder k) (template index piece pieces) ≡ false
unfolding template
not_later k index piece [] h fits (hp, hs) =
    ap (contains (placeholder k)) (sym (append-nil piece)) ∙ skip_front k piece [] hp ∙ in_nothing k
not_later k index piece (next ∷ pieces) h fits (hp, hs) =
    skip_front k piece (placeholder index ++ template (suc index) next pieces) hp
    ∙ not_here k index (template (suc index) next pieces) h (omega arith)
    ∙ not_later k (suc index) next pieces (omega arith) (omega arith) hs

absent_later :
    (index : ℕ) (piece : Bytes) (pieces : List Bytes)
    → index + length pieces ≤ 10
    → All HasNoDollar (piece ∷ pieces)
    → AllFine
        (λ i rest. contains (placeholder i) rest ≡ false)
        put_everywhere
        all_front
        index
        piece
        pieces
absent_later index piece [] fits h = tt
absent_later index piece (next ∷ pieces) fits (hp, hs) = (
  not_later index (suc index) next pieces (omega arith) (omega arith) hs,
  absent_later (suc index) next pieces (omega arith) hs,
)

build_final_sql_from-put_all :
    (index : ℕ) (values : List Bytes) (text : Bytes)
    → build_final_sql_from index values text
      ≡ put_all
          (λ i rest. contains (placeholder i) rest ≡ false)
          put_everywhere
          all_front
          index
          values
          text
unfolding build_final_sql_from put_all
build_final_sql_from-put_all index [] text = refl
build_final_sql_from-put_all index (value ∷ values) text =
    build_final_sql_from-put_all (suc index) values _

-- `buildFinalSQL` puts every value in the place of its placeholder, in an SQL text whose
-- placeholders $1, $2 and so on stand in order, if there are at most nine of them and one value for
-- each, and neither a value nor the text between the placeholders holds a dollar sign.
pub build_final_sql-template :
    (piece : Bytes) (pieces values : List Bytes)
    → length pieces ≤ 9
    → All HasNoDollar (piece ∷ pieces)
    → All HasNoDollar values
    → length values ≡ length pieces
    → build_final_sql values (template 1 piece pieces) ≡ filled piece pieces values
unfolding build_final_sql
build_final_sql-template piece pieces values few (hp, hs) hv e =
    build_final_sql_from-put_all 1 values (template 1 piece pieces)
    ∙ put_all-template (λ i rest. contains (placeholder i) rest ≡ false) put_everywhere all_front 1
        [] piece pieces values tt hp hs hv e (absent_later 1 piece pieces (omega arith) (hp, hs))
