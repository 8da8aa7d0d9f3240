-- ===== src/Repository/Stored.antt =====
-- What `getAll` makes of the rows in which a server keeps entities.
use hft_legacy_migration_fra.Base.{
  suc, ◌≡◌, refl, ap, sym, ◌∙◌, Bytes, false, List, [], ◌∷◌, ◌++◌, some, Result, ok, codes, leb,
  length, length-append, append_assoc, map, arith, All,
}
use hft_legacy_migration_fra.Values.{Value, Row, value_at, as_int, as_string}
use hft_legacy_migration_fra.Values.Numbers.{InRange, stoi-print_int}
use hft_legacy_migration_fra.Catalog.Types.{print_int}
use hft_legacy_migration_fra.Repository.Session.{Server, execute_query, tuples_ok, rows_of}
use hft_legacy_migration_fra.Repository.Entity.{
  Field, int_field, double_field, string_field, other_field, Column, Traits,
}
use hft_legacy_migration_fra.Repository.Reading.{
  read_field, read_value, map_columns, map_row_to_entity, map_rows, get_all,
}

-- The text that the server gives for a field.
unfoldable pub stored : Field → Bytes
stored (int_field n) = print_int n
stored (double_field streamed printed) = streamed
stored (string_field s) = s
stored (other_field streamed) = streamed

-- A field as it is read into the blank entity: one of a type that is not read keeps the blank value.
unfoldable pub read_back : Field → Field → Field
read_back (int_field m) new = new
read_back (double_field s p) new = new
read_back (string_field s) new = new
read_back (other_field s) new = other_field s

unfoldable pub merge : List Column → List Column → List Column
merge [] cs = []
merge (b ∷ bs) [] = []
merge (b ∷ bs) (c ∷ cs) =
    record { name = c.name; content = read_back b.content c.content } ∷ merge bs cs

abbrev pub cell : Column → Value
cell c = some (stored c.content)

module _ (as_double : Bytes → Result (Bytes × Bytes)) where
  -- A field of the type of another, whose text is read back if it is an int, a double or a string.
  abbrev pub Fits : Field → Field → Type 0
  Fits (int_field m) (int_field n) = InRange n
  Fits (double_field s p) (double_field streamed printed) =
      as_double streamed ≡ ok (streamed, printed)
  Fits (string_field s) (string_field t) = Unit {0}
  Fits (other_field s) (other_field t) = Unit {0}
  Fits (int_field m) (double_field streamed printed) = ⊥
  Fits (int_field m) (string_field t) = ⊥
  Fits (double_field s p) (int_field n) = ⊥
  Fits (double_field s p) (string_field t) = ⊥
  Fits (string_field s) (int_field n) = ⊥
  Fits (string_field s) (double_field streamed printed) = ⊥
  Fits (other_field s) (int_field n) = ⊥
  Fits (other_field s) (double_field streamed printed) = ⊥
  Fits (other_field s) (string_field t) = ⊥
  Fits (int_field m) (other_field t) = ⊥
  Fits (double_field s p) (other_field t) = ⊥
  Fits (string_field s) (other_field t) = ⊥

  -- The same columns with other values.
  abbrev pub IsEntity : List Column → List Column → Type 0
  IsEntity [] [] = Unit {0}
  IsEntity [] (c ∷ cs) = ⊥
  IsEntity (b ∷ bs) [] = ⊥
  IsEntity (b ∷ bs) (c ∷ cs) = ((b.name ≡ c.name) × Fits b.content c.content) × IsEntity bs cs

  read_value-stored :
      (old new : Field)
      → Fits old new
      → read_value as_double (some (stored new)) old ≡ ok (read_back old new)
  unfolding read_value read_field stored as_int as_string read_back
  read_value-stored (int_field m) (int_field n) h = rw (stoi-print_int n h) refl
  read_value-stored (double_field s p) (double_field streamed printed) h = rw h refl
  read_value-stored (string_field s) (string_field t) h = refl
  read_value-stored (other_field s) new h = refl
  read_value-stored (int_field m) (double_field streamed printed) h = absurd h
  read_value-stored (int_field m) (string_field t) h = absurd h
  read_value-stored (double_field s p) (int_field n) h = absurd h
  read_value-stored (double_field s p) (string_field t) h = absurd h
  read_value-stored (string_field s) (int_field n) h = absurd h
  read_value-stored (string_field s) (double_field streamed printed) h = absurd h
  read_value-stored (int_field m) (other_field t) h = absurd h
  read_value-stored (double_field s p) (other_field t) h = absurd h
  read_value-stored (string_field s) (other_field t) h = absurd h

  at_column :
      (front : Row) (v : Value) (rest : Row) → value_at (front ++ v ∷ rest) (length front) ≡ ok v
  unfolding value_at
  at_column [] v rest = refl
  at_column (u ∷ front) v rest = at_column front v rest

  inside :
      (front : Row) (v : Value) (rest : Row)
      → leb (length (front ++ v ∷ rest)) (length front) ≡ false
  inside front v rest = ground (arith, length-append front (v ∷ rest))

  map_columns-stored :
      (front : Row) (blank cs : List Column)
      → IsEntity blank cs
      → map_columns as_double (front ++ map cell cs) (length front) blank ≡ ok (merge blank cs)
  unfolding map_columns merge
  map_columns-stored front [] [] h = refl
  map_columns-stored front [] (c ∷ cs) h = absurd h
  map_columns-stored front (b ∷ bs) [] h = absurd h
  map_columns-stored front (b ∷ bs) (c ∷ cs) ((same, fits), hs) =
      let longer : length (front ++ cell c ∷ []) ≡ suc (length front) =
        length-append front (cell c ∷ []) ∙ omega arith in
      let rest : map_columns as_double (front ++ cell c ∷ map cell cs) (suc (length front)) bs
          ≡ ok (merge bs cs) =
        ap (λ n. map_columns as_double (front ++ cell c ∷ map cell cs) n bs) (sym longer)
        ∙ ap (λ (row : Row). map_columns as_double row (length (front ++ cell c ∷ [])) bs)
            (sym (append_assoc front (cell c ∷ []) (map cell cs)))
        ∙ map_columns-stored (front ++ cell c ∷ []) bs cs hs in
      rw
        (
          inside front (cell c) (map cell cs),
          at_column front (cell c) (map cell cs),
          read_value-stored b.content c.content fits,
          rest,
          same,
        )
        refl

  map_rows-stored :
      (blank : List Column) (es : List (List Column))
      → All (IsEntity blank) es
      → map_rows as_double blank (map (map cell) es) ≡ ok (map (merge blank) es)
  unfolding map_rows map_row_to_entity
  map_rows-stored blank [] h = refl
  map_rows-stored blank (e ∷ es) (h, hs) =
      rw (map_columns-stored [] blank e h, map_rows-stored blank es hs) refl

  -- Where the server answers the SELECT with the rows in which it keeps some entities, `getAll` returns
  -- one entity for each of them, in their order. Its ints, doubles and strings are those that were
  -- stored, for all texts, all integers in the range of `int` and the doubles that `asDouble` reads
  -- back; a field of any other type is lost, and has the value of the blank entity.
  pub get_all-stored :
      (server : Server) (t : Traits) (blank : List Column) (es : List (List Column))
      (db : server.State)
      → All (IsEntity blank) es
      → (server.send db (codes "SELECT * FROM " ++ t.table_name) []).0
        ≡ tuples_ok (map (map cell) es)
      → (get_all as_double server t blank db).0 ≡ ok (map (merge blank) es)
  unfolding get_all execute_query rows_of
  get_all-stored server t blank es db h e = rw (e, rows_of) (map_rows-stored blank es h)
