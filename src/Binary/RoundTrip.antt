-- ===== src/Binary/RoundTrip.antt =====
-- The reader of the binary form gets the table back that the writer wrote.
use hft_legacy_migration_fra.Base.{
  ℕ, zero, suc, ◌+◌, ◌%◌, ◌<◌, ◌≤◌, ◌≡◌, refl, sym, ap, ◌∙◌, ap₂, Bytes, List, [], ◌∷◌, ◌++◌, some,
  arith, length, take, drop, length-append, take_append, drop_append, All, append_assoc, append-nil,
}
use hft_legacy_migration_fra.Protocol.{u32, write_u32}
use hft_legacy_migration_fra.Protocol.RoundTrip.{length-write_u32}
use hft_legacy_migration_fra.Binary.{
  write_cell, write_row, write_rows, write_table, read_u32, row_done, cell_done, read_cell,
  read_row, rows_done, read_rows, table, print_binary_response,
}
use hft_legacy_migration_fra.Binary.Reads.{read-write_u32, copy-some}

-- A row of so many cells, each short enough for its length to be a uint32_t.
abbrev pub Fits : ℕ → List Bytes → Type 0
Fits num_cols row = (length row ≡ num_cols) × All (λ cell. length cell < u32) row

length-write_cell : (cell : Bytes) → length (write_cell cell) ≡ 4 + length cell
unfolding write_cell
length-write_cell cell = omega (
  arith,
  length-append (write_u32 (length cell % u32)) cell,
  length-write_u32 (length cell % u32),
)

read_cell_of :
    (bytes : Bytes) (offset len : ℕ)
    → read_u32 bytes offset ≡ some len
    → offset + 4 + len ≤ length bytes
    → read_cell bytes offset ≡ cell_done (take len (drop (offset + 4) bytes)) (offset + 4 + len)
unfolding read_cell
read_cell_of bytes offset len e h = ground (arith, copy-some bytes (offset + 4) len (omega arith))

-- What stands behind a length prefix.
take_behind :
    (front prefix cell rest : Bytes)
    → length prefix ≡ 4
    → take (length cell) (drop (length front + 4) (front ++ (prefix ++ (cell ++ rest)))) ≡ cell
take_behind front prefix cell rest h =
    let e : length front + 4 ≡ length (front ++ prefix) =
      omega (arith, length-append front prefix) in
    rw (e, ← append_assoc front prefix (cell ++ rest), drop_append) (take_append cell rest)

read-write_cell :
    (cell front rest : Bytes)
    → length cell < u32
    → read_cell (front ++ (write_cell cell ++ rest)) (length front)
      ≡ cell_done cell (length front + length (write_cell cell))
unfolding write_cell
read-write_cell cell front rest fits =
    let prefix = write_u32 (length cell) in
    let small : length cell % u32 ≡ length cell = omega arith in
    let whole = front ++ (prefix ++ (cell ++ rest)) in
    let size : length front + 4 + length cell ≤ length whole = omega (
      arith,
      length-append front (prefix ++ (cell ++ rest)),
      length-append prefix (cell ++ rest),
      length-append cell rest,
      length-write_u32 (length cell),
    ) in
    let next : length front + 4 + length cell ≡ length front + length (prefix ++ cell) =
      omega (arith, length-append prefix cell, length-write_u32 (length cell)) in
    rw (small, append_assoc prefix cell rest)
      (read_cell_of whole (length front) (length cell)
          (read-write_u32 (length cell) front (cell ++ rest) fits) size
        ∙ ap₂ cell_done (take_behind front prefix cell rest (length-write_u32 (length cell))) next)

-- The offset behind a piece is the length of all that stands before the rest.
behind : (front piece : Bytes) → length front + length piece ≡ length (front ++ piece)
behind front piece = sym (length-append front piece)

read_row_step :
    (bytes cell : Bytes) (left offset next : ℕ) (printed : List Bytes)
    → read_cell bytes offset ≡ cell_done cell next
    → read_row bytes (suc left) offset printed ≡ read_row bytes left next (printed ++ cell ∷ [])
unfolding read_row
read_row_step bytes cell left offset next printed e = rw (e, read_row)

read_rows_step :
    (bytes : Bytes) (cells : List Bytes) (left num_cols offset next : ℕ)
    (printed : List (List Bytes))
    → read_row bytes num_cols offset [] ≡ row_done cells next
    → read_rows bytes (suc left) num_cols offset printed
      ≡ read_rows bytes left num_cols next (printed ++ cells ∷ [])
unfolding read_rows
read_rows_step bytes cells left num_cols offset next printed e = rw (e, read_rows)

read_row_nil :
    (bytes : Bytes) (offset : ℕ) (printed : List Bytes)
    → read_row bytes zero offset printed ≡ row_done printed offset
unfolding read_row
read_row_nil bytes offset printed = refl

read-write_row :
    (row : List Bytes) (front rest : Bytes) (printed : List Bytes)
    → All (λ cell. length cell < u32) row
    → read_row (front ++ (write_row row ++ rest)) (length row) (length front) printed
      ≡ row_done (printed ++ row) (length (front ++ write_row row))
unfolding write_row
read-write_row [] front rest printed _ =
    rw (append-nil front, append-nil printed) (read_row_nil (front ++ rest) (length front) printed)
read-write_row (cell ∷ row) front rest printed (small, fits) =
    let first = read-write_cell cell front (write_row row ++ rest) small in
    let later = read-write_row row (front ++ write_cell cell) rest (printed ++ cell ∷ []) fits in
    rw (append_assoc (write_cell cell) (write_row row) rest) (
      read_row_step (front ++ (write_cell cell ++ (write_row row ++ rest))) cell (length row)
        (length front) _ printed first
      ∙ rw (behind front (write_cell cell)) (
          rw
            (
              append_assoc front (write_cell cell) (write_row row ++ rest),
              append_assoc front (write_cell cell) (write_row row),
              append_assoc printed (cell ∷ []) row,
            )
            at later))

read_rows_nil :
    (bytes : Bytes) (num_cols offset : ℕ) (printed : List (List Bytes))
    → read_rows bytes zero num_cols offset printed ≡ rows_done printed
unfolding read_rows
read_rows_nil bytes num_cols offset printed = refl

read-write_rows :
    (rows : List (List Bytes)) (num_cols : ℕ) (front : Bytes) (printed : List (List Bytes))
    → All (Fits num_cols) rows
    → read_rows (front ++ write_rows rows) (length rows) num_cols (length front) printed
      ≡ rows_done (printed ++ rows)
unfolding write_rows
read-write_rows [] num_cols front printed _ =
    rw (append-nil printed) (read_rows_nil (front ++ []) num_cols (length front) printed)
read-write_rows (row ∷ rows) num_cols front printed ((width, small), fits) =
    let first = read-write_row row front (write_rows rows) [] small in
    let later = read-write_rows rows num_cols (front ++ write_row row) (printed ++ row ∷ []) fits in
    read_rows_step (front ++ (write_row row ++ write_rows rows)) row (length rows) num_cols
      (length front) _ printed (rw width at first)
    ∙ (rw
        (append_assoc front (write_row row) (write_rows rows), append_assoc printed (row ∷ []) rows)
        at later)

print_of :
    (bytes : Bytes) (num_rows num_cols : ℕ)
    → 8 ≤ length bytes
    → read_u32 bytes 0 ≡ some num_rows
    → read_u32 bytes 4 ≡ some num_cols
    → print_binary_response bytes ≡ table num_rows num_cols (read_rows bytes num_rows num_cols 8 [])
unfolding print_binary_response
print_of bytes num_rows num_cols h er ec = ground arith

-- What the server writes for a result table, the client shows cell for cell: the counts are those
-- of the table and no cell is lost or cut, whatever bytes it holds. The table is rectangular, and
-- the numbers of rows and columns and the lengths of the cells are below 2 ^ 32.
pub print-write_table :
    (num_cols : ℕ) (rows : List (List Bytes))
    → num_cols < u32
    → length rows < u32
    → All (Fits num_cols) rows
    → print_binary_response (write_table num_cols rows)
      ≡ table (length rows) num_cols (rows_done rows)
unfolding write_table
print-write_table num_cols rows hc hr fits =
    let er : length rows % u32 ≡ length rows = omega arith in
    let ec : num_cols % u32 ≡ num_cols = omega arith in
    let n = write_u32 (length rows) in
    let m = write_u32 num_cols in
    let eight : length (n ++ m) ≡ 8 =
      omega (arith, length-append n m, length-write_u32 (length rows), length-write_u32 num_cols) in
    let whole = n ++ (m ++ write_rows rows) in
    let size : 8 ≤ length whole = omega (
      arith,
      length-append n (m ++ write_rows rows),
      length-append m (write_rows rows),
      length-write_u32 (length rows),
      length-write_u32 num_cols,
    ) in
    let body = read-write_rows rows num_cols (n ++ m) [] fits in
    rw (er, ec)
      (print_of whole (length rows) num_cols size
          (read-write_u32 (length rows) [] (m ++ write_rows rows) hr)
          (rw (length-write_u32 (length rows)) at (read-write_u32 num_cols n (write_rows rows) hc))
        ∙ ap (table (length rows) num_cols)
            (rw (append_assoc n m (write_rows rows), eight) at body))
