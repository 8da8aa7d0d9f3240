-- ===== src/Json/Responses.antt =====
-- asio-sql-service/common/protocol.hpp: the responses that travel as JSON, and the binary response.
use hft_legacy_migration_fra.Base.{◌≡◌, refl, Bytes, List, [], ◌∷◌, Result, ok, codes, eqb, ◌>>=◌}
use hft_legacy_migration_fra.Json.{
  Json, text, arr, obj, end, Codec, set_field, get_field, at_key, texts, text_rows, get_text,
  texts_of_items, get_texts, rows_of_items, get_rows, key_ltb,
}

pub record RawRowResponse : Type 0 where
  pub column_names : List Bytes
  pub rows : List (List Bytes)

unfoldable pub raw_document : RawRowResponse → Json
unfolding set_field texts text_rows
raw_document r = obj (
    set_field (codes "rows") (arr (text_rows r.rows))
      (set_field (codes "columns") (arr (texts r.column_names)) end))

unfoldable pub raw_serialize : Codec → RawRowResponse → Result Bytes
raw_serialize c r = c.dump (raw_document r)

unfoldable pub read_raw : Json → Result RawRowResponse
unfolding at_key get_texts get_rows
read_raw j = do
  columns ← at_key (codes "columns") j
  column_names ← get_texts columns
  cells ← at_key (codes "rows") j
  rows ← get_rows cells
  ok (record { column_names = column_names; rows = rows })

unfoldable pub raw_deserialize : Codec → Bytes → Result RawRowResponse
raw_deserialize c s = do j ← c.parse s; read_raw j

pub record JsonResponse : Type 0 where
  pub content : Json

unfoldable pub json_serialize : Codec → JsonResponse → Result Bytes
json_serialize c r = c.dump r.content

unfoldable pub json_deserialize : Codec → Bytes → Result JsonResponse
json_deserialize c s = do j ← c.parse s; ok (record { content = j })

pub record BinaryResponse : Type 0 where
  pub bytes : Bytes

unfoldable pub binary_serialize : BinaryResponse → Bytes
binary_serialize r = r.bytes

unfoldable pub binary_deserialize : Bytes → BinaryResponse
binary_deserialize s = record { bytes = s }

pub record ErrorResponse : Type 0 where
  pub error_message : Bytes

unfoldable pub error_document : ErrorResponse → Json
unfolding set_field
error_document r = obj (set_field (codes "error") (text r.error_message) end)

unfoldable pub error_serialize : Codec → ErrorResponse → Result Bytes
error_serialize c r = c.dump (error_document r)

unfoldable pub read_error : Json → Result ErrorResponse
unfolding at_key get_text
read_error j = do m ← at_key (codes "error") j; s ← get_text m; ok (record { error_message = s })

unfoldable pub error_deserialize : Codec → Bytes → Result ErrorResponse
error_deserialize c s = do j ← c.parse s; read_error j

texts_of-texts : (ss : List Bytes) → texts_of_items (texts ss) ≡ ok ss
unfolding texts_of_items texts
texts_of-texts [] = refl
texts_of-texts (s ∷ ss) = rw (texts_of-texts ss)

rows_of-text_rows : (rows : List (List Bytes)) → rows_of_items (text_rows rows) ≡ ok rows
unfolding rows_of_items text_rows
rows_of-text_rows [] = refl
rows_of-text_rows (row ∷ rows) = rw (texts_of-texts row, rows_of-text_rows rows)

read-raw_document : (r : RawRowResponse) → read_raw (raw_document r) ≡ ok r
unfolding read_raw raw_document get_field eqb key_ltb
read-raw_document r = rw (texts_of-texts r.column_names, rows_of-text_rows r.rows)

-- A raw response that could be written is read back whole: the column names and every row.
pub raw_deserialize-raw_serialize :
    (c : Codec) (r : RawRowResponse) (s : Bytes)
    → raw_serialize c r ≡ ok s
    → raw_deserialize c s ≡ ok r
unfolding raw_deserialize raw_serialize
raw_deserialize-raw_serialize c r s h = rw (c.parse_dump (raw_document r) s h) (read-raw_document r)

-- An error response that could be written is read back with its message.
pub error_deserialize-error_serialize :
    (c : Codec) (r : ErrorResponse) (s : Bytes)
    → error_serialize c r ≡ ok s
    → error_deserialize c s ≡ ok r
unfolding error_deserialize error_serialize read_error error_document get_field eqb
error_deserialize-error_serialize c r s h = rw (c.parse_dump (error_document r) s h)
