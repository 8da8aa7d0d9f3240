-- ===== src/Client/Streamed.antt =====
-- A stream query of the client, answered by the server and printed.
use hft_legacy_migration_fra.Base.{
  ℕ, ◌+◌, ◌%◌, ◌^◌, ◌<◌, ◌≡◌, refl, Bytes, true, false, List, [], ◌∷◌, ◌++◌, map, Option, none,
  some, ok, codes, eqb, ltb, length, All, arith, to_string, append-nil, append_assoc,
}
use hft_legacy_migration_fra.Base.Run.{done}
use hft_legacy_migration_fra.Catalog.Types.{print_int}
use hft_legacy_migration_fra.Json.{
  Json, text, arr, items_of, texts, Codec, get_text, set_field, key_ltb,
}
use hft_legacy_migration_fra.Server.Handlers.{
  Row, cell_json, metadata_chunk, row_chunk, end_chunk, row_chunks,
}
use hft_legacy_migration_fra.Client.Console.{separated}
use hft_legacy_migration_fra.Client.Stream.{
  const_field, const_key, item_list, elements, print_names, print_cell, print_cells, print_metadata,
  print_row, print_end, print_typed, print_chunks, print_stream_response,
}

module _ (c : Codec) (show : Bytes → Bytes) where
  -- A text is dumped as `show` says.
  abbrev pub Shows : Bytes → Type 0
  Shows s = c.dump (text s) ≡ ok (show s)

  abbrev pub CellShows : Option Bytes → Type 0
  CellShows none = Unit {0}
  CellShows (some s) = Shows s

  abbrev pub shown : Option Bytes → Bytes
  shown none = codes "NULL"
  shown (some s) = show s

  unfoldable pub names_line : List Bytes → Bytes
  names_line [] = codes "\n"
  names_line (s ∷ ss) = show s ++ (codes " " ++ names_line ss)

  unfoldable pub row_lines : ℕ → List Row → Bytes
  row_lines index [] = codes "Stream ended. Total rows: " ++ (to_string index ++ codes "\n")
  row_lines index (row ∷ rows) =
      (codes "Row "
        ++ (to_string index
            ++ (codes ": " ++ (separated (codes " | ") (map shown row) ++ codes "\n"))))
      ++ row_lines (index + 1) rows

  -- What the client is to print of these columns and rows.
  unfoldable pub stream_text : List Bytes → List Row → Bytes
  stream_text columns rows =
      codes "\n--- Stream Response ---\n"
      ++ ((codes "Metadata received:\n  Columns: " ++ names_line columns) ++ row_lines 0 rows)

  print_names-texts :
      (columns : List Bytes)
      → All Shows columns
      → print_names c (item_list (texts columns)) ≡ done (names_line columns)
  unfolding print_names item_list texts names_line
  print_names-texts [] h = refl
  print_names-texts (s ∷ ss) (h, hs) = rw (h, print_names-texts ss hs) refl

  print_cell-cell_json :
      (v : Option Bytes) → CellShows v → print_cell c (cell_json v) ≡ done (shown v)
  unfolding print_cell
  print_cell-cell_json none h = refl
  print_cell-cell_json (some s) h = rw h refl

  later_cells :
      (v : Option Bytes) (row : Row)
      → All CellShows (v ∷ row)
      → print_cells c false (item_list (items_of (map cell_json (v ∷ row))))
        ≡ done (codes " | " ++ (separated (codes " | ") (map shown (v ∷ row)) ++ codes "\n"))
  unfolding print_cells item_list items_of separated
  later_cells v [] (h, hs) = rw (print_cell-cell_json v h) refl
  later_cells v (w ∷ row) (h, hs) =
      rw
        (
          print_cell-cell_json v h,
          later_cells w row hs,
          append_assoc (shown v) (codes " | " ++ separated (codes " | ") (map shown (w ∷ row)))
              (codes "\n"),
        )
        refl

  cells_printed :
      (row : Row)
      → All CellShows row
      → print_cells c true (item_list (items_of (map cell_json row)))
        ≡ done (separated (codes " | ") (map shown row) ++ codes "\n")
  unfolding print_cells item_list items_of separated
  cells_printed [] h = refl
  cells_printed (v ∷ []) (h, hs) = rw (print_cell-cell_json v h) refl
  cells_printed (v ∷ w ∷ row) (h, hs) =
      rw
        (
          print_cell-cell_json v h,
          later_cells w row hs,
          append_assoc (shown v) (codes " | " ++ separated (codes " | ") (map shown (w ∷ row)))
              (codes "\n"),
        )
        refl

  metadata_printed :
      (columns : List Bytes)
      → All Shows columns
      → print_metadata c (metadata_chunk columns)
        ≡ done (codes "Metadata received:\n  Columns: " ++ names_line columns)
  unfolding print_metadata metadata_chunk const_key const_field elements set_field eqb key_ltb
      names_line
  metadata_printed columns h = rw (print_names-texts columns h) refl

  small_int : (n : ℕ) → n < 2 ^ 31 → (n % 2 ^ 32 ≡ n) × (ltb n (2 ^ 31) ≡ true)
  small_int n h = (omega arith, ground arith)

  row_printed :
      (index : ℕ) (row : Row)
      → index < 2 ^ 31
      → All CellShows row
      → print_row c (row_chunk index (map cell_json row))
        ≡ done (
            codes "Row "
            ++ (to_string index
                ++ (codes ": " ++ (separated (codes " | ") (map shown row) ++ codes "\n"))))
  unfolding print_row row_chunk const_key const_field elements set_field print_int eqb key_ltb
  row_printed index row small h =
      rw ((small_int index small).0, (small_int index small).1, cells_printed row h) refl

  end_printed :
      (total : ℕ)
      → total < 2 ^ 31
      → print_end c (end_chunk total)
        ≡ done (codes "Stream ended. Total rows: " ++ (to_string total ++ codes "\n"))
  unfolding print_end end_chunk const_key const_field set_field print_int eqb key_ltb
  end_printed total small = rw ((small_int total small).0, (small_int total small).1) refl

  type_of_metadata :
      (columns : List Bytes)
      → const_key (codes "type") (metadata_chunk columns) ≡ done (text (codes "metadata"))
  unfolding metadata_chunk const_key const_field set_field eqb key_ltb
  type_of_metadata columns = refl

  type_of_row :
      (index : ℕ) (cells : List Json)
      → const_key (codes "type") (row_chunk index cells) ≡ done (text (codes "row"))
  unfolding row_chunk const_key const_field set_field eqb key_ltb
  type_of_row index cells = refl

  type_of_end : (total : ℕ) → const_key (codes "type") (end_chunk total) ≡ done (text (codes "end"))
  unfolding end_chunk const_key const_field set_field eqb key_ltb
  type_of_end total = refl

  typed :
      (chunk : Json)
      → (print_typed c (codes "metadata") chunk ≡ print_metadata c chunk)
        × (print_typed c (codes "row") chunk ≡ print_row c chunk)
        × (print_typed c (codes "end") chunk ≡ print_end c chunk)
  unfolding print_typed eqb
  typed chunk = (refl, refl, refl)

  rows_printed :
      (index : ℕ) (rows : List Row)
      → index + length rows < 2 ^ 31
      → All (All CellShows) rows
      → print_chunks c (item_list (items_of (row_chunks index rows))) ≡ done (row_lines index rows)
  unfolding print_chunks row_chunks item_list items_of get_text row_lines
  rows_printed index [] small h =
      rw
        (
          type_of_end index,
          (typed (end_chunk index)).2,
          end_printed index (omega arith),
          append-nil,
        )
        refl
  rows_printed index (row ∷ rows) small (h, hs) =
      rw
        (
          type_of_row index (map cell_json row),
          (typed (row_chunk index (map cell_json row))).1,
          row_printed index row (omega arith) h,
          rows_printed (index + 1) rows (omega arith) hs,
        )
        refl

  pub print_stream_response-chunks :
      (columns : List Bytes) (rows : List Row)
      → length rows < 2 ^ 31
      → All Shows columns
      → All (All CellShows) rows
      → print_stream_response c (arr (items_of (metadata_chunk columns ∷ row_chunks 0 rows)))
        ≡ done (stream_text columns rows)
  unfolding print_stream_response print_chunks item_list items_of get_text stream_text
  print_stream_response-chunks columns rows small hc hr =
      rw
        (
          type_of_metadata columns,
          (typed (metadata_chunk columns)).0,
          metadata_printed columns hc,
          rows_printed 0 rows (omega arith) hr,
        )
        refl
