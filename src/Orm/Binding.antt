-- ===== src/Orm/Binding.antt =====
-- The placeholders of the repository's statements and the parameters that it binds.
use hft_legacy_migration_fra.Base.{
  ℕ, suc, ◌+◌, ◌-◌, ◌≡◌, refl, ap, sym, ◌∙◌, inl, inr, Bytes, true, false, List, [], ◌∷◌, ◌++◌,
  Option, none, some, map, arith, Bool-cases, length, length-append, length-map, append_assoc,
  append-nil,
}
use hft_legacy_migration_fra.Db.Statement.{Param, long_param}
use hft_legacy_migration_fra.Base.Int.{ℤ}
use hft_legacy_migration_fra.Orm.Field.{Field}
use hft_legacy_migration_fra.Orm.Driver.{Driver, Laws}
use hft_legacy_migration_fra.Orm.Numbered.{kept, insert_form, insert_sql-insert_form}
use hft_legacy_migration_fra.Orm.Repository.{
  placeholders, updates, insert_sql, update_sql, param_of, bind_entity, insert_statement,
  update_statement,
}

abbrev with_param : Option Param → List Param → List Param
with_param none ps = ps
with_param (some p) ps = p ∷ ps

-- The parameters of the fields that can be bound, but for the primary key.
unfoldable pub params : List Field → List Param
unfolding param_of
params [] = []
params (f ∷ fs) = elim f.is_key [
  | true ↦ params fs
  | false ↦ with_param (param_of f.member) (params fs)
]

abbrev unbound : Option Param → ℕ
unbound none = 1
unbound (some p) = 0

-- The fields that are not the primary key and whose type has no bind method.
unfoldable pub unbindable : List Field → ℕ
unfolding param_of
unbindable [] = 0
unbindable (f ∷ fs) = elim f.is_key [
  | true ↦ unbindable fs
  | false ↦ unbound (param_of f.member) + unbindable fs
]

length-with_param :
    (o : Option Param) (ps : List Param) → suc (length ps) ≡ length (with_param o ps) + unbound o
length-with_param none ps = omega arith
length-with_param (some p) ps = omega arith

pub length-placeholders :
    (index : ℕ) (fs : List Field)
    → length (placeholders index fs) ≡ length (params fs) + unbindable fs
unfolding placeholders params unbindable
length-placeholders index [] = refl
length-placeholders index (f ∷ fs) = elim (Bool-cases f.is_key) [
  | inl key ↦ rw key (length-placeholders index fs)
  | inr other ↦ rw other (
      omega (
        arith,
        length-placeholders (suc index) fs,
        length-with_param (param_of f.member) (params fs),
      ))
]

length-kept : (fs : List Field) → length (kept fs) ≡ length (params fs) + unbindable fs
unfolding kept params unbindable
length-kept [] = refl
length-kept (f ∷ fs) = elim (Bool-cases f.is_key) [
  | inl key ↦ rw key (length-kept fs)
  | inr other ↦
      rw other (omega (arith, length-kept fs, length-with_param (param_of f.member) (params fs)))
]

updates-index :
    (index : ℕ) (fs : List Field)
    → (updates index fs).1 ≡ index + (length (params fs) + unbindable fs)
unfolding updates params unbindable
updates-index index [] = omega arith
updates-index index (f ∷ fs) = elim (Bool-cases f.is_key) [
  | inl key ↦ rw key (updates-index index fs)
  | inr other ↦ rw other (
      omega
        (arith, updates-index (suc index) fs, length-with_param (param_of f.member) (params fs)))
]

module _ {Db Statement : Type 0} (driver : Driver Db Statement) where
  unfoldable pub bind_all : ℕ → List Param → Statement → Statement
  bind_all i [] s = s
  bind_all i (p ∷ ps) s = bind_all (suc i) ps (driver.bind i p s)

  pub bind_entity-params :
      (i : ℕ) (fs : List Field) (s : Statement)
      → bind_entity driver i fs s ≡ bind_all i (params fs) s
  unfolding bind_entity bind_all params
  bind_entity-params i [] s = refl
  bind_entity-params i (f ∷ fs) s = elim (Bool-cases f.is_key) [
    | inl key ↦ rw key (bind_entity-params i fs s)
    | inr other ↦ rw other (
        go (param_of f.member) (bind_entity-params i fs s)
          (λ p. bind_entity-params (suc i) fs (driver.bind i p s)))
  ]
    where
      go :
          (o : Option Param)
          → bind_entity driver i fs s ≡ bind_all i (params fs) s
          → ((p : Param)
              → bind_entity driver (suc i) fs (driver.bind i p s)
                ≡ bind_all (suc i) (params fs) (driver.bind i p s))
          → (elim o [
            | none ↦ bind_entity driver i fs s
            | some p ↦ bind_entity driver (suc i) fs (driver.bind i p s)
          ])
            ≡ bind_all i (with_param o (params fs)) s
      go none here later = here
      go (some p) here later = later p

  module _ (laws : Laws driver) where
    bind_all-sql_of :
        (i : ℕ) (ps : List Param) (s : Statement) → laws.sql_of (bind_all i ps s) ≡ laws.sql_of s
    unfolding bind_all
    bind_all-sql_of i [] s = refl
    bind_all-sql_of i (p ∷ ps) s =
        bind_all-sql_of (suc i) ps (driver.bind i p s) ∙ laws.bind_sql i p s

    bind_all-texts_of :
        (ps : List Param) (s : Statement)
        → laws.texts_of (bind_all (length (laws.texts_of s)) ps s)
          ≡ laws.texts_of s ++ map laws.render ps
    unfolding bind_all
    bind_all-texts_of [] s = sym (append-nil (laws.texts_of s))
    bind_all-texts_of (p ∷ ps) s =
        let next = driver.bind (length (laws.texts_of s)) p s in
        let longer : length (laws.texts_of next) ≡ suc (length (laws.texts_of s)) =
          ap (length {0}) (laws.bind_texts p s)
          ∙ length-append (laws.texts_of s) (laws.render p ∷ [])
          ∙ omega arith in
        ap (λ n. laws.texts_of (bind_all n ps next)) (sym longer)
        ∙ bind_all-texts_of ps next
        ∙ ap (λ (v : List Bytes). v ++ map laws.render ps) (laws.bind_texts p s)
        ∙ append_assoc (laws.texts_of s) (laws.render p ∷ []) (map laws.render ps)

    started :
        (sql : Bytes) (db : Db) (ps : List Param)
        → let s = bind_all 0 ps (driver.create sql db).0 in
          (laws.sql_of s ≡ sql) × (laws.texts_of s ≡ map laws.render ps)
    started sql db ps =
        let first = (driver.create sql db).0 in
        (
          bind_all-sql_of 0 ps first ∙ laws.create_sql sql db,
          ap (λ (v : List Bytes). laws.texts_of (bind_all (length v) ps first))
                (sym (laws.create_texts sql db))
              ∙ bind_all-texts_of ps first
              ∙ ap (λ (v : List Bytes). v ++ map laws.render ps) (laws.create_texts sql db),
        )

    -- On every driver that keeps a text for each parameter, `insert` makes the statement
    -- `INSERT INTO t (…) VALUES ($1, $2, …)` with the names of all fields but the primary key and as many
    -- placeholders, numbered from 1, and binds the values of these fields in their order; each of
    -- them whose type has no bind method, such as a bool, leaves one placeholder without a parameter.
    pub insert_statement-Laws :
        (table : Bytes) (fs : List Field) (db : Db)
        → let s = (insert_statement driver table fs db).0 in
          (laws.sql_of s ≡ insert_form table fs)
          × (laws.texts_of s ≡ map laws.render (params fs))
          × (length (kept fs) ≡ length (laws.texts_of s) + unbindable fs)
    unfolding insert_statement
    insert_statement-Laws table fs db =
        let e = bind_entity-params 0 fs (driver.create (insert_sql table fs) db).0 in
        let (same_sql, same_texts) = started (insert_sql table fs) db (params fs) in
        let texts = ap laws.texts_of e ∙ same_texts in
        (
          ap laws.sql_of e ∙ same_sql ∙ insert_sql-insert_form table fs,
          texts,
          length-kept fs
              ∙ ap (λ (n : ℕ). n + unbindable fs)
                  (sym (ap (length {0}) texts ∙ length-map (params fs) laws.render)),
        )

    -- `update` binds the fields that are not the primary key in their order, and behind them the id at
    -- the placeholder that its WHERE clause names, if every field has a bind method.
    pub update_statement-Laws :
        (table : Bytes) (fs : List Field) (id : ℤ) (db : Db)
        → unbindable fs ≡ 0
        → let s = (update_statement driver table fs id db).0 in
          (laws.sql_of s ≡ update_sql table fs)
          × (laws.texts_of s ≡ map laws.render (params fs) ++ laws.render (long_param id) ∷ [])
          × ((updates 1 fs).1 ≡ length (laws.texts_of s))
    unfolding update_statement
    update_statement-Laws table fs id db plain =
        let first = (driver.create (update_sql table fs) db).0 in
        let s = bind_entity driver 0 fs first in
        let (same_sql, same_texts) = started (update_sql table fs) db (params fs) in
        let texts : laws.texts_of s ≡ map laws.render (params fs) =
          ap laws.texts_of (bind_entity-params 0 fs first) ∙ same_texts in
        let size : length (laws.texts_of s) ≡ length (params fs) =
          ap (length {0}) texts ∙ length-map (params fs) laws.render in
        let place : (updates 1 fs).1 - 1 ≡ length (laws.texts_of s) =
          omega (arith, updates-index 1 fs, size, plain) in
        let bound : laws.texts_of (driver.bind ((updates 1 fs).1 - 1) (long_param id) s)
            ≡ laws.texts_of s ++ laws.render (long_param id) ∷ [] =
          ap (λ (n : ℕ). laws.texts_of (driver.bind n (long_param id) s)) place
          ∙ laws.bind_texts (long_param id) s in
        (
          laws.bind_sql ((updates 1 fs).1 - 1) (long_param id) s
              ∙ ap laws.sql_of (bind_entity-params 0 fs first)
              ∙ same_sql,
          bound ∙ ap (λ (v : List Bytes). v ++ laws.render (long_param id) ∷ []) texts,
          updates-index 1 fs
              ∙ omega (
                arith,
                size,
                plain,
                ap (length {0}) bound,
                length-append (laws.texts_of s) (laws.render (long_param id) ∷ []),
              ),
        )
