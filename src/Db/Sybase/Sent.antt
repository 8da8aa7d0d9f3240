-- ===== src/Db/Sybase/Sent.antt =====
-- What a SybaseStatement sends: the bind methods, `buildSQL` and the calls of DB-Library together.
use hft_legacy_migration_fra.Base.{
  ℕ, suc, ◌≡◌, refl, ap, sym, ◌∙◌, Bytes, true, List, [], ◌∷◌, ◌++◌, arith, All, append_assoc,
  append-nil, length, length-append, map, codes, length-map,
}
use hft_legacy_migration_fra.Catalog.Types.{print_int}
use hft_legacy_migration_fra.Sybase.Placeholders.{build_sql}
use hft_legacy_migration_fra.Sql.Loop.{escape_name-double_quotes}
use hft_legacy_migration_fra.Sql.{double_quotes, quote}
use hft_legacy_migration_fra.Db.Statement.{
  Param, int_param, long_param, double_param, string_param, null_param, put_at-length,
}
use hft_legacy_migration_fra.Db.Sybase.{
  Statement, Library, Connection, sent, kept_text, bind_at, create_statement, affected, send,
  execute_update,
}
use hft_legacy_migration_fra.Sybase.Template.{HasNoDollar, template, filled}
use hft_legacy_migration_fra.Sybase.Filling.{build_sql-template}

-- The parameters bound in order, from the position `i` on.
unfoldable pub bind_all : ℕ → List Param → Statement → Statement
bind_all i [] stmt = stmt
bind_all i (p ∷ ps) stmt = bind_all (suc i) ps (bind_at i p stmt)

bind_all_lem :
    (ps : List Param) (stmt : Statement)
    → bind_all (length stmt.param_values) ps stmt
      ≡ record stmt { param_values = stmt.param_values ++ map kept_text ps }
unfolding bind_all bind_at
bind_all_lem [] stmt = rw (append-nil stmt.param_values) refl
bind_all_lem (p ∷ ps) stmt =
    let next = bind_at (length stmt.param_values) p stmt in
    let put : next.param_values ≡ stmt.param_values ++ kept_text p ∷ [] =
      put_at-length [] (kept_text p) stmt.param_values in
    let longer : length next.param_values ≡ suc (length stmt.param_values) =
      ap (length {0}) put ∙ length-append stmt.param_values (kept_text p ∷ []) ∙ omega arith in
    ap (λ n. bind_all n ps next) (sym longer)
    ∙ bind_all_lem ps next
    ∙ ap (λ (v : List Bytes). record stmt { param_values = v })
        (ap (λ (v : List Bytes). v ++ map kept_text ps) put
          ∙ append_assoc stmt.param_values (kept_text p ∷ []) (map kept_text ps))

-- A parameter in SQL: a string between quotes, with its own quotes doubled.
unfoldable pub literal : Param → Bytes
literal (int_param n) = print_int n
literal (long_param n) = print_int n
literal (double_param printed) = printed
literal (string_param s) = quote ∷ (double_quotes s ++ quote ∷ [])
literal null_param = codes "NULL"

kept_text-literal : (p : Param) → kept_text p ≡ literal p
unfolding kept_text literal
kept_text-literal (int_param n) = refl
kept_text-literal (long_param n) = refl
kept_text-literal (double_param printed) = refl
kept_text-literal (string_param s) = rw (escape_name-double_quotes s) refl
kept_text-literal null_param = refl

kept_all : (ps : List Param) → map kept_text ps ≡ map literal ps
kept_all [] = refl
kept_all (p ∷ ps) = rw (kept_text-literal p, kept_all ps) refl

literals_plain :
    (ps : List Param) → All (λ p. HasNoDollar (literal p)) ps → All HasNoDollar (map literal ps)
literals_plain [] h = tt
literals_plain (p ∷ ps) (h, hs) = (h, literals_plain ps hs)

bound_text :
    (piece : Bytes) (pieces : List Bytes) (ps : List Param)
    → All HasNoDollar (piece ∷ pieces)
    → All (λ p. HasNoDollar (literal p)) ps
    → length ps ≡ length pieces
    → let stmt = bind_all 0 ps (create_statement (template 1 piece pieces)) in
      build_sql stmt.param_values stmt.sql ≡ filled piece pieces (map literal ps)
unfolding create_statement
bound_text piece pieces ps hp hv e =
    let first = create_statement (template 1 piece pieces) in
    ap (λ (stmt : Statement). build_sql stmt.param_values stmt.sql) (bind_all_lem ps first)
    ∙ ap (λ (v : List Bytes). build_sql v (template 1 piece pieces)) (kept_all ps)
    ∙ build_sql-template piece pieces (map literal ps) hp (literals_plain ps hv)
        (length-map ps literal ∙ e)

-- A Sybase statement sends, for a text with its placeholders in order and the parameters bound in
-- order, the text with each placeholder replaced by its parameter as an SQL literal, and returns
-- what became of that command, if there is one parameter for each placeholder, the connection is open,
-- and neither the text between the placeholders nor a parameter holds a dollar sign.
pub execute_update-bind_all :
    (lib : Library) (piece : Bytes) (pieces : List Bytes) (ps : List Param) (db : Connection)
    → All HasNoDollar (piece ∷ pieces)
    → All (λ p. HasNoDollar (literal p)) ps
    → length ps ≡ length pieces
    → db.process ≡ true
    → let events = sent (filled piece pieces (map literal ps)) ∷ db.events in
      execute_update lib (bind_all 0 ps (create_statement (template 1 piece pieces))) db
      ≡ (affected (lib.answer events), record db { events = events })
unfolding execute_update send
execute_update-bind_all lib piece pieces ps db hp hv e ready =
    rw (ready, bound_text piece pieces ps hp hv e) refl
