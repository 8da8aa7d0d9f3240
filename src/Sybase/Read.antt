-- ===== src/Sybase/Read.antt =====
-- What the rows of src/sybase say of a result.
use hft_legacy_migration_fra.Base.{
  ℕ, zero, suc, ◌<◌, ◌≡◌, refl, ap, ◌∙◌, Bytes, true, List, [], ◌∷◌, ◌++◌, map, Option, none, some,
  ok, err, db_exception, codes, get_elem?, ◌>>=◌, length, arith, All, some_injective,
}
use hft_legacy_migration_fra.Base.Int.{ℤ, pos}
use hft_legacy_migration_fra.Values.{stoi}
use hft_legacy_migration_fra.Values.Numbers.{InRange, stoi-print_int}
use hft_legacy_migration_fra.Sybase.Rows.{
  ColumnType, int1, int2, int4, int8, real, flt8, char, varchar, text_type, other_type, Cell,
  Conversions, SybValue, as_int, int_text, converted, value_of, construct_row, value_at, RowCode,
  reg_row, compute_row, no_more_rows, row_failed, buffer_full, Fetch, Reader, on_code, fetch_next,
  next, current_row, take_row, read_loop,
}

abbrev pub or_zero : Option ℤ → ℤ
or_zero none = pos 0
or_zero (some n) = n

abbrev pub IsInteger : ColumnType → Type 0
IsInteger int1 = Unit {0}
IsInteger int2 = Unit {0}
IsInteger int4 = Unit {0}
IsInteger int8 = Unit {0}
IsInteger real = ⊥
IsInteger flt8 = ⊥
IsInteger char = ⊥
IsInteger varchar = ⊥
IsInteger text_type = ⊥
IsInteger (other_type code) = ⊥

module _ (lib : Conversions) where
  value_at-construct_row :
      (cells : List Cell) (i : ℕ) (cell : Cell)
      → get_elem? cells i ≡ some cell
      → value_at (construct_row lib cells) i ≡ ok (value_of lib cell.type cell.data_bytes)
  unfolding value_at construct_row
  value_at-construct_row [] i cell h = cc
  value_at-construct_row (c ∷ cells) zero cell h =
      ap (λ x. ok (value_of lib x.type x.data_bytes)) (some_injective h)
  value_at-construct_row (c ∷ cells) (suc i) cell h = value_at-construct_row cells i cell h

  int_text-read : (o : Option ℤ) → InRange (or_zero o) → stoi (int_text lib o) ≡ ok (or_zero o)
  unfolding int_text
  int_text-read none h = stoi-print_int (pos 0) h
  int_text-read (some n) h = stoi-print_int n h

  as_int-integer :
      (type : ColumnType) (c : ℕ) (bytes : Bytes)
      → IsInteger type
      → InRange (or_zero (lib.to_int type (c ∷ bytes)))
      → as_int (value_of lib type (some (c ∷ bytes))) ≡ ok (or_zero (lib.to_int type (c ∷ bytes)))
  unfolding as_int value_of converted
  as_int-integer int1 c bytes h k = int_text-read (lib.to_int int1 (c ∷ bytes)) k
  as_int-integer int2 c bytes h k = int_text-read (lib.to_int int2 (c ∷ bytes)) k
  as_int-integer int4 c bytes h k = int_text-read (lib.to_int int4 (c ∷ bytes)) k
  as_int-integer int8 c bytes h k = int_text-read (lib.to_int int8 (c ∷ bytes)) k
  as_int-integer real c bytes h k = absurd h
  as_int-integer flt8 c bytes h k = absurd h
  as_int-integer char c bytes h k = absurd h
  as_int-integer varchar c bytes h k = absurd h
  as_int-integer text_type c bytes h k = absurd h
  as_int-integer (other_type code) c bytes h k = absurd h

  -- An integer column of a row is read back by `asInt` as the number that `dbconvert` makes of it, and as
  -- zero where it cannot convert.
  pub value_at-integer :
      (cells : List Cell) (i : ℕ) (type : ColumnType) (c : ℕ) (bytes : Bytes)
      → get_elem? cells i ≡ some (record { type = type; data_bytes = some (c ∷ bytes) })
      → IsInteger type
      → InRange (or_zero (lib.to_int type (c ∷ bytes)))
      → (value_at (construct_row lib cells) i >>= as_int)
        ≡ ok (or_zero (lib.to_int type (c ∷ bytes)))
  value_at-integer cells i type c bytes h k fits =
      ap (λ r. r >>= as_int)
        (value_at-construct_row cells i (record { type = type; data_bytes = some (c ∷ bytes) }) h)
      ∙ as_int-integer type c bytes k fits

  abbrev pub IsRow : RowCode → Type 0
  IsRow reg_row = Unit {0}
  IsRow compute_row = Unit {0}
  IsRow no_more_rows = ⊥
  IsRow row_failed = ⊥
  IsRow buffer_full = ⊥

  abbrev pub reading : List Fetch → Option (List SybValue) → Reader
  reading fs row = record { process = true; fetches = fs; row = row }

  next-row :
      (f : Fetch) (fs : List Fetch) (row : Option (List SybValue))
      → IsRow f.code
      → next lib (reading (f ∷ fs) row) ≡ ok (true, reading fs (some (construct_row lib f.cells)))
  unfolding next fetch_next
  next-row f fs row h = go f.code h
    where
      go :
          (code : RowCode)
          → IsRow code
          → on_code lib code f (reading fs row)
            ≡ ok (true, reading fs (some (construct_row lib f.cells)))
      go reg_row k = unfold on_code take_row in refl
      go compute_row k = unfold on_code take_row in refl
      go no_more_rows k = absurd k
      go row_failed k = absurd k
      go buffer_full k = absurd k

  -- The loop over a reader sees every row up to the end of the result, and throws where `dbnextrow` fails
  -- before it; one more round than there are rows is enough.
  pub read_loop-rows :
      (fs : List Fetch) (row : Option (List SybValue)) (cells : List Cell) (more : List Fetch)
      (fuel : ℕ)
      → All (λ f. IsRow f.code) fs
      → length fs < fuel
      → (read_loop lib fuel (reading fs row) ≡ ok (map (λ f. construct_row lib f.cells) fs))
        × (read_loop lib fuel
              (reading (fs ++ (record { code = row_failed; cells = cells } ∷ more)) row)
            ≡ err (db_exception (codes "SybReader::next: dbnextrow failed")))
  unfolding read_loop current_row
  read_loop-rows fs row cells more zero h k = absurd (omega arith)
  read_loop-rows [] row cells more (suc fuel) h k =
      (unfold next fetch_next in refl, unfold next fetch_next on_code in refl)
  read_loop-rows (f ∷ fs) row cells more (suc fuel) (h, hs) k =
      let later =
        read_loop-rows fs (some (construct_row lib f.cells)) cells more fuel hs
          (omega (arith, k)) in
      (rw (next-row f fs row h, later.0) refl, rw (next-row f (fs ++ _) row h, later.1) refl)
