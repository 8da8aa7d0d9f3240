-- ===== src/Binary.antt =====
-- The binary form of a result table: the writer in asio-sql-service/server/sql_server.hpp
-- (`handle_query_binary`) and the reader in asio-sql-service/client/client_main.cpp
-- (`print_binary_response`). The reader's `data[i]` is a read of the array, and a read past its end
-- is the outcome `fault`, which C++ leaves undefined. What it prints is modelled as the cells that
-- it prints, row by row; the captions and separators between them are left out.
pub mod Bounds
mod Reads
pub mod RoundTrip
use hft_legacy_migration_fra.Base.{
  ℕ, zero, suc, ◌+◌, ◌%◌, ◌^◌, Bytes, List, [], ◌∷◌, ◌++◌, Option, none, some, ltb, if◌then◌else◌,
  length, get_elem?,
}
use hft_legacy_migration_fra.Protocol.{u32, write_u32, join_u32}

-- `len` and the bytes of one cell; `cell.size()` is cut to a uint32_t.
unfoldable pub write_cell : Bytes → Bytes
write_cell cell = write_u32 (length cell % u32) ++ cell

unfoldable pub write_row : List Bytes → Bytes
write_row [] = []
write_row (cell ∷ row) = write_cell cell ++ write_row row

unfoldable pub write_rows : List (List Bytes) → Bytes
write_rows [] = []
write_rows (row ∷ rows) = write_row row ++ write_rows rows

-- The counts, and then every cell.
unfoldable pub write_table : ℕ → List (List Bytes) → Bytes
write_table col_count rows =
    write_u32 (length rows % u32) ++ (write_u32 (col_count % u32) ++ write_rows rows)

-- Four reads of the array from `offset` on.
unfoldable pub read_u32 : Bytes → ℕ → Option ℕ
read_u32 bytes offset = elim (get_elem? bytes offset) [
  | none ↦ none
  | some a ↦ elim (get_elem? bytes (offset + 1)) [
    | none ↦ none
    | some b ↦ elim (get_elem? bytes (offset + 2)) [
      | none ↦ none
      | some c ↦ elim (get_elem? bytes (offset + 3)) [
        | none ↦ none
        | some d ↦ some (join_u32 a b c d)
      ]
    ]
  ]
]

-- Why the reader stopped before the end.
pub data Stop : Type 0 where
  unexpected_end cell_out_of_bounds fault : Stop

-- A row that was printed whole, with the offset behind it, or the cells printed before the stop.
pub data RowEnd : Type 0 where
  row_done : List Bytes → ℕ → RowEnd
  row_stop : List Bytes → Stop → RowEnd

-- The cell at `offset`, and the offset behind it.
pub data CellEnd : Type 0 where
  cell_done : Bytes → ℕ → CellEnd
  cell_stop : Stop → CellEnd

-- The cell's string, made of `len` bytes of the array that are read one by one.
unfoldable pub copy : Bytes → ℕ → ℕ → Option Bytes
copy bytes offset zero = some []
copy bytes offset (suc len) = elim (get_elem? bytes offset) [
  | none ↦ none
  | some b ↦ elim (copy bytes (offset + 1) len) [ none ↦ none | some rest ↦ some (b ∷ rest) ]
]

unfoldable pub read_cell : Bytes → ℕ → CellEnd
read_cell bytes offset =
    if ltb (length bytes) (offset + 4)
    then cell_stop unexpected_end
    else elim (read_u32 bytes offset) [
      | none ↦ cell_stop fault
      | some len ↦
          if ltb (length bytes) (offset + 4 + len)
          then cell_stop cell_out_of_bounds
          else elim (copy bytes (offset + 4) len) [
            | none ↦ cell_stop fault
            | some cell ↦ cell_done cell (offset + 4 + len)
          ]
    ]

-- The loop over `col`, on the columns left; `printed` are the cells of this row so far.
unfoldable pub read_row : Bytes → ℕ → ℕ → List Bytes → RowEnd
read_row bytes zero offset printed = row_done printed offset
read_row bytes (suc left) offset printed = elim (read_cell bytes offset) [
  | cell_stop why ↦ row_stop printed why
  | cell_done cell next ↦ read_row bytes left next (printed ++ cell ∷ [])
]

pub data RowsEnd : Type 0 where
  rows_done : List (List Bytes) → RowsEnd
  rows_stop : List (List Bytes) → Stop → RowsEnd

-- The loop over `row`, on the rows left; `printed` are the rows so far.
unfoldable pub read_rows : Bytes → ℕ → ℕ → ℕ → List (List Bytes) → RowsEnd
read_rows bytes zero num_cols offset printed = rows_done printed
read_rows bytes (suc left) num_cols offset printed = elim (read_row bytes num_cols offset []) [
  | row_stop cells why ↦ rows_stop (printed ++ cells ∷ []) why
  | row_done cells next ↦ read_rows bytes left num_cols next (printed ++ cells ∷ [])
]

pub data Printed : Type 0 where
  invalid : Printed
  header_fault : Printed
  table : ℕ → ℕ → RowsEnd → Printed

unfoldable pub print_binary_response : Bytes → Printed
print_binary_response bytes = if ltb (length bytes) 8 then invalid else elim (read_u32 bytes 0) [
  | none ↦ header_fault
  | some num_rows ↦ elim (read_u32 bytes 4) [
    | none ↦ header_fault
    | some num_cols ↦ table num_rows num_cols (read_rows bytes num_rows num_cols 8 [])
  ]
]
