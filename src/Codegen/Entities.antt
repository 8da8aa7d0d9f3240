-- ===== src/Codegen/Entities.antt =====
-- The entities that src/codegen/EntityGenerator.cpp generates, in the hands of Repository.hpp.
use hft_legacy_migration_fra.Base.{
  ℕ, suc, ◌+◌, ◌<◌, ◌≡◌, ◌≢◌, refl, sym, ap, ◌∙◌, Bytes, Bool, true, false, ◌||◌, List, [], ◌∷◌,
  ◌++◌, map, length, length-append, arith, Bool-cases, inl, inr, if◌then◌else◌, eqb, codes,
  contains, contains_drop_front,
}
use hft_legacy_migration_fra.Catalog.Types.{ColumnMeta, has, lower}
use hft_legacy_migration_fra.Catalog.Shadowed.{bigint-int}
use hft_legacy_migration_fra.Codegen.Files.{map_sql_type_to_cpp, cpp_type_of, int_type}
use hft_legacy_migration_fra.Repository.Session.{Server, failure, refused}
use hft_legacy_migration_fra.Repository.Entity.{
  Field, int_field, double_field, string_field, other_field, Column, Traits, is_key, insert_ps,
  insert_ps_sql, updated, execute_update,
}
use hft_legacy_migration_fra.Repository.Placeholders.{
  kept, bound_text, bound_texts, numbered, bind_parameters_lem,
}
use hft_legacy_migration_fra.Repository.Typing.{
  Kind, int_kind, double_kind, string_kind, other_kind, kind_of, kind_of_type, types_of,
}

-- `Column<Entity, T>{ "name", … }` of a column of the catalog.
unfoldable pub generated_type : ColumnMeta → Bytes × Kind
unfolding map_sql_type_to_cpp kind_of_type
generated_type col = (col.name, kind_of_type (map_sql_type_to_cpp col.type_name))

-- The generated `EntityTraits` of a table whose first column is `key`.
unfoldable pub generated_traits : Bytes → ColumnMeta → Traits
generated_traits table key = record { table_name = table; primary_key = key.name }

-- An object of the generated class.
abbrev pub IsGenerated : List ColumnMeta → List Column → Type 0
IsGenerated cols e = types_of e ≡ map generated_type cols

unfoldable pub is_unbound : Kind → ℕ
is_unbound int_kind = 0
is_unbound double_kind = 0
is_unbound string_kind = 0
is_unbound other_kind = 1

-- The columns but the key whose generated type is `int64_t`, `int16_t`, `int8_t` or `bool`.
unfoldable pub unbound : Bytes → List (Bytes × Kind) → ℕ
unfolding is_unbound
unbound key [] = 0
unbound key (c ∷ cs) =
    let rest = unbound key cs in if eqb c.0 key then rest else is_unbound c.1 + rest

bound_text-length : (f : Field) → length (bound_text f) + is_unbound (kind_of f) ≡ 1
unfolding bound_text is_unbound kind_of
bound_text-length (int_field n) = refl
bound_text-length (double_field streamed printed) = refl
bound_text-length (string_field s) = refl
bound_text-length (other_field streamed) = refl

bound_texts-length :
    (t : Traits) (e : List Column)
    → length (bound_texts (kept t e)) + unbound t.primary_key (types_of e) ≡ length (kept t e)
unfolding bound_texts kept unbound types_of
bound_texts-length t [] = refl
bound_texts-length t (c ∷ e) = elim (Bool-cases (is_key t c)) [
  | inl key ↦ rw key (bound_texts-length t e)
  | inr other ↦ rw other (
      omega (
        arith,
        bound_texts-length t e,
        bound_text-length c.content,
        length-append (bound_text c.content) (bound_texts (kept t e)),
      ))
]

numbered-length : (index : ℕ) (cs : List Column) → length (numbered index cs) ≡ length cs
unfolding numbered
numbered-length index [] = refl
numbered-length index (c ∷ cs) = ap suc (numbered-length (suc index) cs)

unbound-cons :
    (key : Bytes) (c : Bytes × Kind) (cs : List (Bytes × Kind))
    → 0 < unbound key cs
    → 0 < unbound key (c ∷ cs)
unfolding unbound
unbound-cons key c cs h = elim (Bool-cases (eqb c.0 key)) [
  | inl same ↦ rw same h
  | inr other ↦ rw other (omega (arith, h))
]

-- What PostgreSQL documents: a statement with other than as many parameters as placeholders is refused.
abbrev pub ChecksParameters :
    (server : Server) → server.State → Traits → List Column → Bytes → Type 0
ChecksParameters server db t e message =
    (params : List Bytes)
    → length params ≢ length (numbered 1 (kept t e))
    → (server.send db (insert_ps_sql t e) params).0 ≡ refused message

-- The parameters that `insertPS` binds and the columns of the generated types for which the repository
-- has no branch are together as many as its placeholders; with one such column or more, `insertPS`
-- throws, on a server that refuses a statement with a wrong number of parameters.
pub insert_ps-generated :
    (server : Server) (db : server.State) (table : Bytes) (key : ColumnMeta)
    (cols : List ColumnMeta) (e : List Column) (message : Bytes)
    → IsGenerated (key ∷ cols) e
    → 0 < unbound key.name (map generated_type (key ∷ cols))
    → ChecksParameters server db (generated_traits table key) e message
    → (length (bound_texts (kept (generated_traits table key) e))
          + unbound key.name (map generated_type (key ∷ cols))
        ≡ length (numbered 1 (kept (generated_traits table key) e)))
      × ((insert_ps server (generated_traits table key) e db).0
          ≡ failure (codes "PgPreparedStatement::executeUpdate: ") message)
unfolding generated_traits insert_ps execute_update updated
insert_ps-generated server db table key cols e message made some_unbound checks =
    let t : Traits = record { table_name = table; primary_key = key.name } in
    let counted : length (bound_texts (kept t e))
          + unbound key.name (map generated_type (key ∷ cols))
        ≡ length (numbered 1 (kept t e)) =
      ap (λ types. length (bound_texts (kept t e)) + unbound key.name types) (sym made)
      ∙ bound_texts-length t e
      ∙ sym (numbered-length 1 (kept t e)) in
    (
      counted,
      rw
          (
            bind_parameters_lem t e (record { sql = insert_ps_sql t e; params = [] }),
            insert_ps,
            execute_update,
            checks (bound_texts (kept t e)) (λ same. omega (arith, some_unbound, counted, same)),
          )
          refl,
    )

drop4 :
    (a b c d : ℕ) (t : Bytes)
    → contains (a ∷ b ∷ c ∷ d ∷ codes "int") t ≡ true
    → contains (codes "int") t ≡ true
drop4 a b c d t h =
    contains_drop_front d _ t
      (contains_drop_front c _ t (contains_drop_front b _ t (contains_drop_front a _ t h)))

drop5 :
    (a b c d e : ℕ) (t : Bytes)
    → contains (a ∷ b ∷ c ∷ d ∷ e ∷ codes "int") t ≡ true
    → contains (codes "int") t ≡ true
drop5 a b c d e t h = drop4 b c d e t (contains_drop_front a _ t h)

-- A type name with one of these gives a type other than `int`.
unfoldable pub is_sized_int : Bytes → Bool
is_sized_int t = has "bigint" t || has "smallint" t || has "tinyint" t

sized_int-int : (t : Bytes) → is_sized_int t ≡ true → has "int" t ≡ true
unfolding is_sized_int
sized_int-int t h = elim (Bool-cases (has "bigint" t)) [
  | inl big ↦ bigint-int t big
  | inr not_big ↦ elim (Bool-cases (has "smallint" t)) [
    | inl small ↦ drop5 b's' b'm' b'a' b'l' b'l' t small
    | inr not_small ↦ drop4 b't' b'i' b'n' b'y' t (rw (not_big, not_small) at h)
  ]
]

sized_int-other : (t : Bytes) → is_sized_int t ≡ true → kind_of_type (cpp_type_of t) ≡ other_kind
unfolding cpp_type_of int_type kind_of_type eqb is_sized_int
sized_int-other t h = elim (Bool-cases (has "bigint" t)) [
  | inl big ↦ rw (sized_int-int t h, big) refl
  | inr not_big ↦ elim (Bool-cases (has "smallint" t)) [
    | inl small ↦ rw (sized_int-int t h, not_big, small) refl
    | inr not_small ↦ rw (sized_int-int t h, not_big, not_small, tiny not_big not_small) refl
  ]
]
  where
    tiny : has "bigint" t ≡ false → has "smallint" t ≡ false → has "tinyint" t ≡ true
    tiny not_big not_small = rw (not_big, not_small) at h

unbound-here :
    (key col : ColumnMeta) (after : List ColumnMeta)
    → eqb col.name key.name ≡ false
    → is_sized_int (lower col.type_name) ≡ true
    → 0 < unbound key.name (map generated_type (col ∷ after))
unfolding generated_type map_sql_type_to_cpp unbound is_unbound
unbound-here key col after other sized =
    rw (other, sized_int-other (lower col.type_name) sized) (omega arith)

unbound-positive :
    (key : ColumnMeta) (before : List ColumnMeta) (col : ColumnMeta) (after : List ColumnMeta)
    → eqb col.name key.name ≡ false
    → is_sized_int (lower col.type_name) ≡ true
    → 0 < unbound key.name (map generated_type (before ++ (col ∷ after)))
unbound-positive key [] col after other sized = unbound-here key col after other sized
unbound-positive key (c ∷ before) col after other sized =
    unbound-cons key.name (generated_type c) _ (unbound-positive key before col after other sized)

-- An entity that was generated for a table with a bigint, smallint or tinyint column other than its
-- first cannot be inserted by `insertPS`: it throws on every server that refuses a statement with a
-- wrong number of parameters.
pub insert_ps-sized_int :
    (server : Server) (db : server.State) (table : Bytes) (key : ColumnMeta)
    (before : List ColumnMeta) (col : ColumnMeta) (after : List ColumnMeta) (e : List Column)
    (message : Bytes)
    → eqb col.name key.name ≡ false
    → is_sized_int (lower col.type_name) ≡ true
    → IsGenerated (key ∷ before ++ (col ∷ after)) e
    → ChecksParameters server db (generated_traits table key) e message
    → (insert_ps server (generated_traits table key) e db).0
      ≡ failure (codes "PgPreparedStatement::executeUpdate: ") message
insert_ps-sized_int server db table key before col after e message other sized made checks =
    (insert_ps-generated server db table key (before ++ (col ∷ after)) e message made
      (unbound-cons key.name (generated_type key) _
        (unbound-positive key before col after other sized))
      checks).1
