-- ===== src/Tests/Entities.antt =====
-- The generic repository on both older connection classes.
use hft_legacy_migration_fra.Base.{
  ℕ, ◌≡◌, ◌+◌, refl, Bytes, true, false, List, [], ◌∷◌, codes, map, All, to_string, digits_from,
  length,
}
use hft_legacy_migration_fra.Base.Int.{ℤ, pos}
use hft_legacy_migration_fra.Values.{Row}
use hft_legacy_migration_fra.Db.Statement.{is_positive}
use hft_legacy_migration_fra.Db.Sybase
use hft_legacy_migration_fra.Db.Sybase.Sent.{literal}
use hft_legacy_migration_fra.Catalog.Types.{print_int}
use hft_legacy_migration_fra.Sql.{double_quotes}
use hft_legacy_migration_fra.Sybase.Template.{HasNoDollar, no_dollar-HasNoDollar}
use hft_legacy_migration_fra.Orm.Field.{
  Field, int64_member, string_member, int32_member, bool_member,
}
use hft_legacy_migration_fra.Orm.Driver.{Laws}
use hft_legacy_migration_fra.Orm.Drivers.{postgres, postgres-Laws}
use hft_legacy_migration_fra.Orm.Repository.{columns, insert_statement, insert_entity, param_of}
use hft_legacy_migration_fra.Orm.Numbered.{kept, insert_form}
use hft_legacy_migration_fra.Orm.Binding.{params, unbindable, insert_statement-Laws}
use hft_legacy_migration_fra.Orm.Inserted.{driver, insert_text, insert_entity-sybase}
use hft_legacy_migration_fra.Tests.Drivers.{willing, db, lib, syb}

abbrev pub user : List Field
user =
    record { name = codes "id"; member = int64_member (pos 5); is_key = true; is_nullable = false }
    ∷ record {
      name = codes "name";
      member = string_member (codes "O'Neil");
      is_key = false;
      is_nullable = false;
    }
    ∷ record {
      name = codes "age";
      member = int32_member (pos 40);
      is_key = false;
      is_nullable = true;
    }
    ∷ []

abbrev active_user : List Field
active_user =
    record { name = codes "active"; member = bool_member true; is_key = false; is_nullable = false }
    ∷ user

abbrev pub no_double : Row → ℕ → Bytes
no_double row i = []

abbrev postgres_laws : Laws (postgres no_double willing)
postgres_laws = postgres-Laws no_double willing

insert_statement-Laws_example :
    let s = (insert_statement (postgres no_double willing) (codes "users") active_user db).0 in
    (postgres_laws.sql_of s ≡ insert_form (codes "users") active_user)
    × (postgres_laws.texts_of s ≡ map postgres_laws.render (params active_user))
    × (length (kept active_user) ≡ length (postgres_laws.texts_of s) + unbindable active_user)
insert_statement-Laws_example =
    insert_statement-Laws (postgres no_double willing) postgres_laws (codes "users") active_user db

abbrev no_number : Row → ℕ → ℤ
no_number row i = pos 0

literals-HasNoDollar : All (λ p. HasNoDollar (literal p)) (params user)
unfolding params param_of literal double_quotes print_int to_string digits_from
literals-HasNoDollar =
    (no_dollar-HasNoDollar (codes "'O''Neil'") refl, (no_dollar-HasNoDollar (codes "40") refl, tt))

insert_entity-sybase_example :
    let events = Sybase.sent (insert_text (codes "users") user) ∷ syb.events in
    insert_entity (driver no_number no_number no_double lib) (codes "users") user syb
    ≡ (is_positive (Sybase.affected (lib.answer events)), record syb { events = events })
insert_entity-sybase_example =
    insert_entity-sybase no_number no_number no_double lib (codes "users") user 1 syb
      (unfold params param_of in refl) (unfold unbindable param_of in refl)
      (no_dollar-HasNoDollar (codes "users") refl)
      (unfold columns in
        (no_dollar-HasNoDollar (codes "name") refl, (no_dollar-HasNoDollar (codes "age") refl, tt)))
      literals-HasNoDollar refl
