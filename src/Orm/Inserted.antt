-- ===== src/Orm/Inserted.antt =====
-- `insert` on a Sybase connection, down to the command that reaches the server.
use hft_legacy_migration_fra.Base.{
  ℕ, zero, suc, ◌≡◌, ◌≢◌, refl, ap, sym, ◌∙◌, Bytes, true, List, [], ◌∷◌, ◌++◌, codes, map, arith,
  length, length-map, append_assoc, All, All-append,
}
use hft_legacy_migration_fra.Base.Int.{ℤ}
use hft_legacy_migration_fra.Values.{Row}
use hft_legacy_migration_fra.Db.Statement.{Param, is_positive}
use hft_legacy_migration_fra.Db.Sybase.{
  Library, Connection, Statement, sent, affected, create_statement,
}
use hft_legacy_migration_fra.Db.Sybase.Sent.{literal, execute_update-bind_all}
use hft_legacy_migration_fra.Db.Sybase.Sent
use hft_legacy_migration_fra.Sybase.Placeholders.{placeholder}
use hft_legacy_migration_fra.Sybase.Template.{HasNoDollar, no_dollar-HasNoDollar, template, filled}
use hft_legacy_migration_fra.Orm.Field.{Field}
use hft_legacy_migration_fra.Orm.Driver.{Driver}
use hft_legacy_migration_fra.Orm.Drivers.{sybase}
use hft_legacy_migration_fra.Orm.Repository.{
  join, columns, placeholders, insert_sql, insert_entity, insert_statement, run_changed, run_update,
}
use hft_legacy_migration_fra.Orm.Numbered.{numbered, placeholders-numbered}
use hft_legacy_migration_fra.Orm.Binding.{
  params, unbindable, bind_all, bind_entity-params, length-placeholders,
}

-- The pieces of the statement behind each of n + 1 placeholders.
unfoldable separators : ℕ → List Bytes
separators zero = codes ")" ∷ []
separators (suc n) = codes ", " ∷ separators n

template-separators :
    (index n : ℕ) (piece : Bytes)
    → template index piece (separators n) ≡ piece ++ (join (numbered index (suc n)) ++ codes ")")
unfolding template separators numbered join
template-separators index zero piece = refl
template-separators index (suc n) piece =
    ap (λ (t : Bytes). piece ++ (placeholder index ++ t))
      (template-separators (suc index) n (codes ", "))
    ∙ ap (λ (t : Bytes). piece ++ t)
        (sym (
          append_assoc (placeholder index) (codes ", " ++ join (numbered (suc index) (suc n)))
            (codes ")")))

filled-separators :
    (value : Bytes) (values : List Bytes) (piece : Bytes)
    → filled piece (separators (length values)) (value ∷ values)
      ≡ piece ++ (join (value ∷ values) ++ codes ")")
unfolding filled separators join
filled-separators value [] piece = refl
filled-separators value (next ∷ values) piece =
    ap (λ (t : Bytes). piece ++ (value ++ t)) (filled-separators next values (codes ", "))
    ∙ ap (λ (t : Bytes). piece ++ t)
        (sym (append_assoc value (codes ", " ++ join (next ∷ values)) (codes ")")))

length-separators : (n : ℕ) → length (separators n) ≡ suc n
unfolding separators
length-separators zero = refl
length-separators (suc n) = ap suc (length-separators n)

separators-HasNoDollar : (n : ℕ) → All HasNoDollar (separators n)
unfolding separators
separators-HasNoDollar zero = (no_dollar-HasNoDollar (codes ")") refl, tt)
separators-HasNoDollar (suc n) = (no_dollar-HasNoDollar (codes ", ") refl, separators-HasNoDollar n)

join-HasNoDollar : (texts : List Bytes) → All HasNoDollar texts → HasNoDollar (join texts)
unfolding join
join-HasNoDollar [] h = tt
join-HasNoDollar (text ∷ []) (h, hs) = h
join-HasNoDollar (text ∷ next ∷ texts) (h, hs) =
    All-append (λ d. d ≢ b'$') text (codes ", " ++ join (next ∷ texts)) h
      (All-append (λ d. d ≢ b'$') (codes ", ") (join (next ∷ texts))
        (no_dollar-HasNoDollar (codes ", ") refl) (join-HasNoDollar (next ∷ texts) hs))

-- The statement with its values as SQL literals.
unfoldable pub insert_text : Bytes → List Field → Bytes
insert_text table fs =
    codes "INSERT INTO "
    ++ (table
        ++ (codes " ("
            ++ (join (columns fs)
                ++ (codes ") VALUES (" ++ (join (map literal (params fs)) ++ codes ")")))))

head : Bytes → List Field → Bytes
head table fs =
    codes "INSERT INTO " ++ (table ++ (codes " (" ++ (join (columns fs) ++ codes ") VALUES (")))

head-append :
    (table : Bytes) (fs : List Field) (rest : Bytes)
    → head table fs ++ rest
      ≡ codes "INSERT INTO "
        ++ (table ++ (codes " (" ++ (join (columns fs) ++ (codes ") VALUES (" ++ rest))))
unfolding head
head-append table fs rest = simp (append_assoc {0})

head-HasNoDollar :
    (table : Bytes) (fs : List Field)
    → HasNoDollar table
    → All HasNoDollar (columns fs)
    → HasNoDollar (head table fs)
unfolding head
head-HasNoDollar table fs ht hc =
    let join_plain =
      All-append (λ d. d ≢ b'$') (join (columns fs)) (codes ") VALUES (")
        (join-HasNoDollar (columns fs) hc) (no_dollar-HasNoDollar (codes ") VALUES (") refl) in
    All-append (λ d. d ≢ b'$') (codes "INSERT INTO ") _
      (no_dollar-HasNoDollar (codes "INSERT INTO ") refl)
      (All-append (λ d. d ≢ b'$') table _ ht
        (All-append (λ d. d ≢ b'$') (codes " (") _ (no_dollar-HasNoDollar (codes " (") refl)
          join_plain))

-- The statement that is prepared is a template of as many placeholders as parameters.
insert_sql-template :
    (table : Bytes) (fs : List Field) (n : ℕ)
    → length (placeholders 1 fs) ≡ suc n
    → insert_sql table fs ≡ template 1 (head table fs) (separators n)
unfolding insert_sql
insert_sql-template table fs n e =
    sym (head-append table fs (join (placeholders 1 fs) ++ codes ")"))
    ∙ ap (λ (v : List Bytes). head table fs ++ (join v ++ codes ")"))
        (placeholders-numbered 1 fs ∙ ap (numbered 1) e)
    ∙ sym (template-separators 1 n (head table fs))

filled_values :
    (values : List Bytes) (n : ℕ) (piece : Bytes)
    → length values ≡ suc n
    → filled piece (separators n) values ≡ piece ++ (join values ++ codes ")")
filled_values [] n piece e = absurd (omega (arith, e))
filled_values (value ∷ values) n piece e =
    let same : n ≡ length values = omega (arith, e) in
    ap (λ m. filled piece (separators m) (value ∷ values)) same
    ∙ filled-separators value values piece

insert_text-filled :
    (table : Bytes) (fs : List Field) (n : ℕ)
    → length (params fs) ≡ suc n
    → filled (head table fs) (separators n) (map literal (params fs)) ≡ insert_text table fs
unfolding insert_text
insert_text-filled table fs n e =
    filled_values (map literal (params fs)) n (head table fs) (length-map (params fs) literal ∙ e)
    ∙ head-append table fs (join (map literal (params fs)) ++ codes ")")

module _ (get_int get_long : Row → ℕ → ℤ) (get_double : Row → ℕ → Bytes) (lib : Library) where
  abbrev pub driver : Driver Connection Statement
  driver = sybase get_int get_long get_double lib

  same_binding :
      (i : ℕ) (ps : List Param) (s : Statement) → bind_all driver i ps s ≡ Sent.bind_all i ps s
  unfolding bind_all Sent.bind_all sybase
  same_binding i [] s = refl
  same_binding i (p ∷ ps) s = same_binding (suc i) ps _

  insert_statement-Sent :
      (table : Bytes) (fs : List Field) (n : ℕ) (db : Connection)
      → length (params fs) ≡ suc n
      → unbindable fs ≡ 0
      → insert_statement driver table fs db ≡ (
        Sent.bind_all 0 (params fs) (create_statement (template 1 (head table fs) (separators n))),
        db,
      )
  unfolding insert_statement sybase
  insert_statement-Sent table fs n db e plain =
      ap (λ s. (s, db))
        (bind_entity-params driver 0 fs (create_statement (insert_sql table fs))
          ∙ same_binding 0 (params fs) (create_statement (insert_sql table fs))
          ∙ ap (λ t. Sent.bind_all 0 (params fs) (create_statement t))
              (insert_sql-template table fs n (length-placeholders 1 fs ∙ omega (arith, e, plain))))

  -- `insert` of an entity on an open Sybase connection sends one command, the INSERT with the columns
  -- that are not the primary key and their fields as SQL literals in the same order, and returns
  -- whether the server changed a row, if there is such a column, each of them has a bind method, and
  -- no dollar sign is in the table's name, the columns' names or the literals.
  pub insert_entity-sybase :
      (table : Bytes) (fs : List Field) (n : ℕ) (db : Connection)
      → length (params fs) ≡ suc n
      → unbindable fs ≡ 0
      → HasNoDollar table
      → All HasNoDollar (columns fs)
      → All (λ p. HasNoDollar (literal p)) (params fs)
      → db.process ≡ true
      → let events = sent (insert_text table fs) ∷ db.events in
        insert_entity driver table fs db
        ≡ (is_positive (affected (lib.answer events)), record db { events = events })
  unfolding insert_entity run_changed run_update sybase
  insert_entity-sybase table fs n db e plain ht hc hp ready =
      let bound =
        Sent.bind_all 0 (params fs)
          (create_statement (template 1 (head table fs) (separators n))) in
      let executed =
        execute_update-bind_all lib (head table fs) (separators n) (params fs) db
          (head-HasNoDollar table fs ht hc, separators-HasNoDollar n) hp
          (e ∙ sym (length-separators n)) ready in
      ap (λ s. run_changed driver s) (insert_statement-Sent table fs n db e plain)
      ∙ ap (λ (r : ℤ × Connection). (is_positive r.0, r.1)) executed
      ∙ ap
          (λ text. (
            is_positive (affected (lib.answer (sent text ∷ db.events))),
            record db { events = sent text ∷ db.events },
          ))
          (insert_text-filled table fs n e)
