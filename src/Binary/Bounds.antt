-- ===== src/Binary/Bounds.antt =====
-- The reader of the binary form never reads past the end of the bytes that it was given.
use hft_legacy_migration_fra.Base.{
  ℕ, zero, suc, ◌+◌, ◌≢◌, ap, Bytes, List, [], ◌∷◌, ◌++◌, arith, ltb, length, Bool-cases, inl, inr,
}
use hft_legacy_migration_fra.Binary.{
  fault, RowEnd, row_done, row_stop, CellEnd, cell_done, cell_stop, read_cell, read_row, RowsEnd,
  rows_done, rows_stop, read_rows, Printed, invalid, header_fault, table, print_binary_response,
}
use hft_legacy_migration_fra.Binary.Reads.{read_u32-some, copy-some}

-- No read of a cell goes past the end.
read_cell_safe : (bytes : Bytes) (offset : ℕ) → read_cell bytes offset ≢ cell_stop fault
unfolding read_cell
read_cell_safe bytes offset = elim (Bool-cases (ltb (length bytes) (offset + 4))) [
  | inl short ↦ rw short (λ e. cc)
  | inr long ↦
      let (n, e) = read_u32-some bytes offset (ground arith) in
      ground (arith, copy-some bytes (offset + 4) n)
]

abbrev IsFaultFree : RowEnd → Type 0
IsFaultFree (row_done cells next) = Unit {0}
IsFaultFree (row_stop cells why) = why ≢ fault

read_row_safe :
    (bytes : Bytes) (left offset : ℕ) (printed : List Bytes)
    → IsFaultFree (read_row bytes left offset printed)
unfolding read_row
read_row_safe bytes zero offset printed = tt
read_row_safe bytes (suc left) offset printed =
    go (read_cell bytes offset) (read_cell_safe bytes offset) (read_row_safe bytes left)
  where
    go :
        (r : CellEnd)
        → r ≢ cell_stop fault
        → ((next : ℕ) (cells : List Bytes) → IsFaultFree (read_row bytes left next cells))
        → IsFaultFree (elim r [
          | cell_stop why ↦ row_stop printed why
          | cell_done cell next ↦ read_row bytes left next (printed ++ cell ∷ [])
        ])
    go (cell_stop why) h ih = λ e. h (ap cell_stop e)
    go (cell_done cell next) h ih = ih next (printed ++ cell ∷ [])

abbrev AreFaultFree : RowsEnd → Type 0
AreFaultFree (rows_done rows) = Unit {0}
AreFaultFree (rows_stop rows why) = why ≢ fault

read_rows_safe :
    (bytes : Bytes) (left num_cols offset : ℕ) (printed : List (List Bytes))
    → AreFaultFree (read_rows bytes left num_cols offset printed)
unfolding read_rows
read_rows_safe bytes zero num_cols offset printed = tt
read_rows_safe bytes (suc left) num_cols offset printed =
    go (read_row bytes num_cols offset []) (read_row_safe bytes num_cols offset [])
      (read_rows_safe bytes left num_cols)
  where
    go :
        (r : RowEnd)
        → IsFaultFree r
        → ((next : ℕ) (rows : List (List Bytes))
            → AreFaultFree (read_rows bytes left num_cols next rows))
        → AreFaultFree (elim r [
          | row_stop cells why ↦ rows_stop (printed ++ cells ∷ []) why
          | row_done cells next ↦ read_rows bytes left num_cols next (printed ++ cells ∷ [])
        ])
    go (row_stop cells why) h ih = h
    go (row_done cells next) h ih = ih next (printed ++ cells ∷ [])

-- Neither the counts nor a cell was read past the end.
abbrev pub StaysInside : Printed → Type 0
StaysInside invalid = Unit {0}
StaysInside header_fault = ⊥
StaysInside (table num_rows num_cols rows) = AreFaultFree rows

-- For any bytes whatever, also malformed or truncated ones, the client's reader of a binary
-- response makes no read past their end.
pub print_binary_response_safe : (bytes : Bytes) → StaysInside (print_binary_response bytes)
unfolding print_binary_response
print_binary_response_safe bytes = elim (Bool-cases (ltb (length bytes) 8)) [
  | inl short ↦ rw short tt
  | inr long ↦
      let (n, en) = read_u32-some bytes 0 (ground arith) in
      let (m, em) = read_u32-some bytes 4 (ground arith) in
      rw (long, en, em) (read_rows_safe bytes n m 8 [])
]
