-- ===== src/Json.antt =====
-- The JSON values that the SQL service builds and reads. The library nlohmann::json is vendored
-- and not modelled: a `Codec` stands for its `dump` and `parse`, with the one law that the service
-- relies on. Objects keep one entry for each key, in the order of the keys, as its std::map does.
pub mod Responses
use hft_legacy_migration_fra.Base.{
  ℕ, ◌≡◌, Bytes, Bool, true, false, List, [], ◌∷◌, Option, none, some, Result, ok, err, foreign,
  ltb, ◌==◌, ◌&&◌, ◌||◌, if◌then◌else◌, eqb, ◌>>=◌,
}

mutual
  pub data Json : Type 0 where
    null : Json
    num : ℕ → Json
    text : Bytes → Json
    arr : Items → Json
    obj : Fields → Json

  pub data Items : Type 0 where
    nil : Items
    cons : Json → Items → Items

  pub data Fields : Type 0 where
    end : Fields
    field : Bytes → Json → Fields → Fields

pub record Codec : Type 0 where
  pub dump : Json → Result Bytes
  pub parse : Bytes → Result Json
  pub parse_dump : (j : Json) (s : Bytes) → dump j ≡ ok s → parse s ≡ ok j

-- The order of std::string.
unfoldable pub key_ltb : Bytes → Bytes → Bool
key_ltb s [] = false
key_ltb [] (d ∷ t) = true
key_ltb (c ∷ s) (d ∷ t) = ltb c d || (c == d && key_ltb s t)

-- `j[k] = v` on an object.
unfoldable pub set_field : Bytes → Json → Fields → Fields
set_field k v end = field k v end
set_field k v (field j w rest) =
    let later = field j w (set_field k v rest) in
    if eqb j k then field k v rest else if key_ltb k j then field k v (field j w rest) else later

-- `j[k]` on an object, null if the key is not there.
unfoldable pub get_field : Bytes → Fields → Json
get_field k end = null
get_field k (field j w rest) = if eqb j k then w else get_field k rest

-- `j[k]` on any value: a null turns into an empty object, all else but an object throws.
unfoldable pub at_key : Bytes → Json → Result Json
at_key k null = ok null
at_key k (obj fields) = ok (get_field k fields)
at_key k (num n) = err (foreign 305 [])
at_key k (text s) = err (foreign 305 [])
at_key k (arr xs) = err (foreign 305 [])

unfoldable pub items_of : List Json → Items
items_of [] = nil
items_of (x ∷ xs) = cons x (items_of xs)

-- A JSON array of texts.
unfoldable pub texts : List Bytes → Items
texts [] = nil
texts (s ∷ ss) = cons (text s) (texts ss)

unfoldable pub text_rows : List (List Bytes) → Items
text_rows [] = nil
text_rows (row ∷ rows) = cons (arr (texts row)) (text_rows rows)

-- `get<std::string>()`.
unfoldable pub get_text : Json → Result Bytes
get_text (text s) = ok s
get_text null = err (foreign 302 [])
get_text (num n) = err (foreign 302 [])
get_text (arr xs) = err (foreign 302 [])
get_text (obj fs) = err (foreign 302 [])

unfoldable pub get_items : Json → Result Items
get_items (arr xs) = ok xs
get_items null = err (foreign 302 [])
get_items (num n) = err (foreign 302 [])
get_items (text s) = err (foreign 302 [])
get_items (obj fs) = err (foreign 302 [])

unfoldable pub texts_of_items : Items → Result (List Bytes)
unfolding get_text
texts_of_items nil = ok []
texts_of_items (cons x xs) = do s ← get_text x; ss ← texts_of_items xs; ok (s ∷ ss)

-- `get<std::vector<std::string>>()`.
unfoldable pub get_texts : Json → Result (List Bytes)
unfolding get_items texts_of_items
get_texts j = do xs ← get_items j; texts_of_items xs

unfoldable pub rows_of_items : Items → Result (List (List Bytes))
unfolding get_texts
rows_of_items nil = ok []
rows_of_items (cons x xs) = do row ← get_texts x; rows ← rows_of_items xs; ok (row ∷ rows)

-- `get<std::vector<std::vector<std::string>>>()`.
unfoldable pub get_rows : Json → Result (List (List Bytes))
unfolding get_items rows_of_items
get_rows j = do xs ← get_items j; rows_of_items xs
