-- ===== src/Repository/Typing.antt =====
-- The types of an entity's fields, by the branches of `if constexpr` in Repository.hpp.
use hft_legacy_migration_fra.Base.{
  ℕ, suc, ◌≡◌, refl, ap₂, Bytes, List, [], ◌∷◌, ◌++◌, none, some, Result, ok, err, ◌>>=◌, leb,
  length, All, if◌then◌else◌, Bool-cases, inl, inr, subst, eqb, codes,
}
use hft_legacy_migration_fra.Values.{Value, Row, value_at, as_int}
use hft_legacy_migration_fra.Repository.Session.{Server, execute_query}
use hft_legacy_migration_fra.Repository.Entity.{
  Field, int_field, double_field, string_field, other_field, Column, Traits,
}
use hft_legacy_migration_fra.Repository.Reading.{
  read_field, read_value, map_columns, map_row_to_entity, map_rows, get_all,
}

pub data Kind : Type 0 where
  int_kind double_kind string_kind other_kind : Kind

-- The branch for a C++ type, by its name.
unfoldable pub kind_of_type : Bytes → Kind
kind_of_type type =
    if eqb type (codes "int")
    then int_kind
    else if eqb type (codes "double")
    then double_kind
    else if eqb type (codes "std::string")
    then string_kind
    else other_kind

unfoldable pub kind_of : Field → Kind
kind_of (int_field n) = int_kind
kind_of (double_field streamed printed) = double_kind
kind_of (string_field s) = string_kind
kind_of (other_field streamed) = other_kind

unfoldable pub types_of : List Column → List (Bytes × Kind)
unfolding kind_of
types_of [] = []
types_of (c ∷ cs) = (c.name, kind_of c.content) ∷ types_of cs

-- The values of the fields that no branch reads.
unfoldable pub other_of : Field → List Bytes
other_of (int_field n) = []
other_of (double_field streamed printed) = []
other_of (string_field s) = []
other_of (other_field streamed) = streamed ∷ []

unfoldable pub unread : List Column → List Bytes
unfolding other_of
unread [] = []
unread (c ∷ cs) = other_of c.content ++ unread cs

-- The value, if there is one, has the property.
abbrev AllOk {ℓ} : {A : Type ℓ} → (A → Type 0) → Result A → Type 0
AllOk P (ok a) = P a
AllOk P (err e) = Unit

>>=-AllOk {ℓ κ} :
    {A : Type ℓ} {B : Type κ} (P : A → Type 0) (Q : B → Type 0) (r : Result A) (f : A → Result B)
    → AllOk P r
    → ((a : A) → P a → AllOk Q (f a))
    → AllOk Q (r >>= f)
>>=-AllOk P Q (ok a) f h k = k a h
>>=-AllOk P Q (err e) f h k = tt

anything {ℓ} : {A : Type ℓ} (r : Result A) → AllOk (λ a. Unit {0}) r
anything (ok a) = tt
anything (err e) = tt

-- An entity with the types of another, and with its values where no branch reads them.
abbrev pub SameTypes : List Column → List Column → Type 0
SameTypes blank e = (types_of e ≡ types_of blank) × (unread e ≡ unread blank)

abbrev SameType : Field → Field → Type 0
SameType old new = (kind_of new ≡ kind_of old) × (other_of new ≡ other_of old)

module _ (as_double : Bytes → Result (Bytes × Bytes)) where
  read_value-SameType :
      (v : Value) (old : Field) → AllOk (SameType old) (read_value as_double v old)
  unfolding read_value read_field kind_of other_of
  read_value-SameType none old = (refl, refl)
  read_value-SameType (some text) (int_field n) =
      >>=-AllOk (λ m. Unit {0}) (SameType (int_field n)) (as_int (some text)) _ (anything _)
        (λ m h. (refl, refl))
  read_value-SameType (some text) (double_field s p) =
      >>=-AllOk (λ m. Unit {0}) (SameType (double_field s p)) (as_double text) _ (anything _)
        (λ m h. (refl, refl))
  read_value-SameType (some text) (string_field s) = (refl, refl)
  read_value-SameType (some text) (other_field s) = (refl, refl)

  map_columns-SameTypes :
      (row : Row) (index : ℕ) (blank : List Column)
      → AllOk (SameTypes blank) (map_columns as_double row index blank)
  unfolding map_columns types_of unread
  map_columns-SameTypes row index [] = (refl, refl)
  map_columns-SameTypes row index (c ∷ cs) = elim (Bool-cases (leb (length row) index)) [
    | inl out ↦ rw out tt
    | inr inside ↦ rw inside (
        >>=-AllOk (λ v. Unit {0}) (SameTypes (c ∷ cs)) (value_at row index) _ (anything _)
          (λ v h.
            >>=-AllOk (SameType c.content) (SameTypes (c ∷ cs)) (read_value as_double v c.content) _
              (read_value-SameType v c.content)
              (λ field same.
                >>=-AllOk (SameTypes cs) (SameTypes (c ∷ cs))
                  (map_columns as_double row (suc index) cs) _
                  (map_columns-SameTypes row (suc index) cs)
                  (λ rest later.
                    (ap₂ (λ k ts. (c.name, k) ∷ ts) same.0 later.0, ap₂ ◌++◌ same.1 later.1)))))
  ]

  map_rows-SameTypes :
      (blank : List Column) (rows : List Row)
      → AllOk (All (SameTypes blank)) (map_rows as_double blank rows)
  unfolding map_rows map_row_to_entity
  map_rows-SameTypes blank [] = tt
  map_rows-SameTypes blank (row ∷ rows) =
      >>=-AllOk (SameTypes blank) (All (SameTypes blank)) (map_columns as_double row 0 blank) _
        (map_columns-SameTypes row 0 blank)
        (λ e same.
          >>=-AllOk (All (SameTypes blank)) (All (SameTypes blank)) (map_rows as_double blank rows)
            _ (map_rows-SameTypes blank rows) (λ es later. (same, later)))

  -- Every entity that `getAll` returns has the columns and the types of the blank one, whatever the
  -- server answers, and where a field is no int, double or string, also its value: such columns are
  -- never read.
  pub get_all-SameTypes :
      (server : Server) (t : Traits) (blank : List Column) (db : server.State)
      (es : List (List Column))
      → (get_all as_double server t blank db).0 ≡ ok es
      → All (SameTypes blank) es
  unfolding get_all
  get_all-SameTypes server t blank db es h = subst (AllOk (All (SameTypes blank))) h (
      >>=-AllOk (λ rows. Unit {0}) (All (SameTypes blank)) (execute_query server _ db).0
        (map_rows as_double blank) (anything _) (λ rows k. map_rows-SameTypes blank rows))
