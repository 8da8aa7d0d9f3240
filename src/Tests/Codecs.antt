-- ===== src/Tests/Codecs.antt =====
-- A codec that writes every JSON value: a program of pairs of numbers for a stack machine.
use hft_legacy_migration_fra.Base.{
  ℕ, ◌≡◌, refl, ap, sym, ◌∙◌, Bytes, List, [], ◌∷◌, Result, ok, err, foreign, ◌==◌, if◌then◌else◌,
}
use hft_legacy_migration_fra.Json.{
  Json, null, num, text, arr, obj, Items, nil, cons, Fields, end, field, Codec,
}

pub data Piece : Type 0 where
  json : Json → Piece
  bytes : Bytes → Piece
  items : Items → Piece
  fields : Fields → Piece

abbrev Stack : Type 0
Stack = List Piece

abbrev push_byte : ℕ → Stack → Stack
push_byte c (bytes s ∷ st) = bytes (c ∷ s) ∷ st
push_byte c st = st

abbrev make_text : Stack → Stack
make_text (bytes s ∷ st) = json (text s) ∷ st
make_text st = st

abbrev make_item : Stack → Stack
make_item (json x ∷ items xs ∷ st) = items (cons x xs) ∷ st
make_item st = st

abbrev make_arr : Stack → Stack
make_arr (items xs ∷ st) = json (arr xs) ∷ st
make_arr st = st

abbrev make_field : Stack → Stack
make_field (json x ∷ bytes k ∷ fields fs ∷ st) = fields (field k x fs) ∷ st
make_field st = st

abbrev make_obj : Stack → Stack
make_obj (fields fs ∷ st) = json (obj fs) ∷ st
make_obj st = st

abbrev execute : ℕ → ℕ → Stack → Stack
execute op n st =
    if op == 0
    then json null ∷ st
    else if op == 1
    then json (num n) ∷ st
    else if op == 2
    then bytes [] ∷ st
    else if op == 3
    then push_byte n st
    else if op == 4
    then make_text st
    else if op == 5
    then items nil ∷ st
    else if op == 6
    then make_item st
    else if op == 7
    then make_arr st
    else if op == 8
    then fields end ∷ st
    else if op == 9
    then make_field st
    else make_obj st

unfoldable pub machine : Bytes → Stack → Stack
machine (op ∷ n ∷ program) st = machine program (execute op n st)
machine _ st = st

unfoldable pub bytes_program : Bytes → Bytes → Bytes
bytes_program [] after = 2 ∷ 0 ∷ after
bytes_program (c ∷ s) after = bytes_program s (3 ∷ c ∷ after)

-- What makes a value, and the program that follows it.
unfoldable mutual
  pub program : Json → Bytes → Bytes
  program null after = 0 ∷ 0 ∷ after
  program (num n) after = 1 ∷ n ∷ after
  program (text s) after = bytes_program s (4 ∷ 0 ∷ after)
  program (arr xs) after = items_program xs (7 ∷ 0 ∷ after)
  program (obj fs) after = fields_program fs (10 ∷ 0 ∷ after)

  pub items_program : Items → Bytes → Bytes
  items_program nil after = 5 ∷ 0 ∷ after
  items_program (cons x xs) after = items_program xs (program x (6 ∷ 0 ∷ after))

  pub fields_program : Fields → Bytes → Bytes
  fields_program end after = 8 ∷ 0 ∷ after
  fields_program (field k x fs) after =
      fields_program fs (bytes_program k (program x (9 ∷ 0 ∷ after)))

machine-bytes_program :
    (s after : Bytes) (st : Stack)
    → machine (bytes_program s after) st ≡ machine after (bytes s ∷ st)
unfolding machine bytes_program
machine-bytes_program [] after st = refl
machine-bytes_program (c ∷ s) after st = machine-bytes_program s (3 ∷ c ∷ after) st

mutual
  unfolding machine program

  machine-program :
      (j : Json) (after : Bytes) (st : Stack)
      → machine (program j after) st ≡ machine after (json j ∷ st)
  machine-program null after st = refl
  machine-program (num n) after st = refl
  machine-program (text s) after st = machine-bytes_program s (4 ∷ 0 ∷ after) st
  machine-program (arr xs) after st = machine-items_program xs (7 ∷ 0 ∷ after) st
  machine-program (obj fs) after st = machine-fields_program fs (10 ∷ 0 ∷ after) st

  machine-items_program :
      (xs : Items) (after : Bytes) (st : Stack)
      → machine (items_program xs after) st ≡ machine after (items xs ∷ st)
  machine-items_program nil after st = refl
  machine-items_program (cons x xs) after st =
      machine-items_program xs (program x (6 ∷ 0 ∷ after)) st
      ∙ machine-program x (6 ∷ 0 ∷ after) (items xs ∷ st)

  machine-fields_program :
      (fs : Fields) (after : Bytes) (st : Stack)
      → machine (fields_program fs after) st ≡ machine after (fields fs ∷ st)
  machine-fields_program end after st = refl
  machine-fields_program (field k x fs) after st =
      machine-fields_program fs (bytes_program k (program x (9 ∷ 0 ∷ after))) st
      ∙ machine-bytes_program k (program x (9 ∷ 0 ∷ after)) (fields fs ∷ st)
      ∙ machine-program x (9 ∷ 0 ∷ after) (bytes k ∷ fields fs ∷ st)

abbrev top : Stack → Result Json
top (json j ∷ st) = ok j
top _ = err (foreign 101 [])

pub top-machine : (j : Json) → top (machine (program j []) []) ≡ ok j
top-machine j = ap top (machine-program j [] []) ∙ (unfold machine in refl)

pub ok_injective : {x y : Bytes} → ok x ≡ ok y → x ≡ y
ok_injective e = cc

unfoldable pub stack_codec : Codec
unfolding machine program
stack_codec = record {
  dump = λ j. ok (program j []);
  parse = λ s. top (machine s []);
  parse_dump = λ j s h. ap top (ap (λ t. machine t []) (sym (ok_injective h))) ∙ top-machine j;
}
