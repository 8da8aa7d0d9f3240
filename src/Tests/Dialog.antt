-- ===== src/Tests/Dialog.antt =====
-- A whole run of the client with three queries, of which the second fails.
use hft_legacy_migration_fra.Base.{Bytes, List, [], ◌∷◌, Result, ok, codes, db_exception}
use hft_legacy_migration_fra.Json.{Json}
use hft_legacy_migration_fra.Server.Handlers.{Outcome, result, failed}
use hft_legacy_migration_fra.Client.Asked.{Asked, raw_asked, binary_asked, failing_asked}
use hft_legacy_migration_fra.Tests.Service.{sql, names, rates, raw_text, error_text}

-- The table is there, is gone, and is there again.
abbrev found : Bytes → Outcome
found query = result names rates

abbrev failing : Bytes → Outcome
failing query = failed (db_exception (codes "no such table"))

abbrev asked : List ((Bytes → Outcome) × Asked)
asked =
    (found, raw_asked sql names rates raw_text)
    ∷ (
      failing,
      failing_asked sql (db_exception (codes "no such table"))
          (error_text (codes "Query error: no such table")),
    )
    ∷ (found, binary_asked sql names rates)
    ∷ []

abbrev pretty : Json → Result Bytes
pretty json = ok []

abbrev connect : Bytes → Bytes → Result (Unit {0})
connect host port = ok tt
