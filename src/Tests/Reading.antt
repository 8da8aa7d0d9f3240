-- ===== src/Tests/Reading.antt =====
-- Entities that are read back from the rows of a table.
use hft_legacy_migration_fra.Base.{
  ◌≡◌, refl, Bytes, List, [], ◌∷◌, ◌++◌, map, Result, ok, codes, All, arith,
}
use hft_legacy_migration_fra.Base.Int.{pos, negsuc}
use hft_legacy_migration_fra.Repository.Session.{Server, tuples_ok}
use hft_legacy_migration_fra.Repository.Entity.{
  other_field, int_field, double_field, string_field, Column, Traits,
}
use hft_legacy_migration_fra.Repository.Reading.{get_all}
use hft_legacy_migration_fra.Repository.Stored.{cell, merge, read_back, IsEntity, get_all-stored}

abbrev price : Bytes → Result (Bytes × Bytes)
price text = ok (text, text ++ codes "0000")

abbrev quotes : Traits
quotes = record { table_name = codes "quotes"; primary_key = codes "id" }

abbrev blank : List Column
blank =
    record { name = codes "id"; content = int_field (pos 0) }
    ∷ record { name = codes "symbol"; content = string_field [] }
    ∷ record { name = codes "price"; content = double_field (codes "0") (codes "0.000000") }
    ∷ record { name = codes "volume"; content = other_field (codes "0") }
    ∷ []

abbrev first_quote : List Column
first_quote =
    record { name = codes "id"; content = int_field (negsuc 6) }
    ∷ record { name = codes "symbol"; content = string_field (codes "ABC") }
    ∷ record { name = codes "price"; content = double_field (codes "1.25") (codes "1.250000") }
    ∷ record { name = codes "volume"; content = other_field (codes "900") }
    ∷ []

abbrev keeper : Server
keeper = record {
  State = Unit {0};
  send = λ db sql params. (tuples_ok (map (map cell) (first_quote ∷ [])), db);
}

quotes-IsEntity : All (IsEntity price blank) (first_quote ∷ [])
quotes-IsEntity = (((refl, omega arith), ((refl, tt), ((refl, refl), ((refl, tt), tt)))), tt)

get_all-stored_example :
    (get_all price keeper quotes blank tt).0 ≡ ok (map (merge blank) (first_quote ∷ []))
get_all-stored_example =
    get_all-stored price keeper quotes blank (first_quote ∷ []) tt quotes-IsEntity refl

-- The volume, of a type that is not read, is lost.
volume_lost :
    map (λ (c : Column). c.content) (merge blank first_quote)
    ≡ int_field (negsuc 6)
      ∷ string_field (codes "ABC")
      ∷ double_field (codes "1.25") (codes "1.250000")
      ∷ other_field (codes "0")
      ∷ []
unfolding merge read_back
volume_lost = refl
