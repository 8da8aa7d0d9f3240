-- ===== src/Tests/Records.antt =====
-- The repository on a server that keeps one number: how many rows other sessions see.
use hft_legacy_migration_fra.Base.{
  ℕ, suc, ◌≡◌, refl, Bytes, List, [], ◌∷◌, ◌++◌, map, ok, codes, eqb, arith, ◌==◌, if◌then◌else◌,
}
use hft_legacy_migration_fra.Base.Int.{pos}
use hft_legacy_migration_fra.Catalog.Ddl.{joined}
use hft_legacy_migration_fra.Repository.Session.{
  Answer, command_ok, refused, Server, begin_transaction, command, succeeded, commit, rollback,
  finish, destroy,
}
use hft_legacy_migration_fra.Repository.Statement.{bind, assign}
use hft_legacy_migration_fra.Repository.Entity.{
  int_field, string_field, Column, Traits, updated, insert_ps, insert_batch, insert_within,
  insert_all, undo, commit_or_undo, execute_update, insert_ps_sql, bind_parameters, bind_parameter,
  next_index,
}
use hft_legacy_migration_fra.Repository.Placeholders.{kept, bound_texts, numbered, insert_ps_lem}
use hft_legacy_migration_fra.Repository.Atomic.{Transactional, Replied}
use hft_legacy_migration_fra.Repository.Committed.{Inserts, insert_batch_commits}

-- The numbers that other sessions and that the transaction see.
abbrev Numbers : Type 0
Numbers = ℕ × ℕ

-- A second row is a duplicate.
unfoldable respond : Numbers → Bytes → List Bytes → Answer × Numbers
respond (seen, own) sql params =
    if eqb sql (codes "BEGIN")
    then (command_ok, (seen, seen))
    else if eqb sql (codes "COMMIT")
    then (command_ok, (own, own))
    else if eqb sql (codes "ROLLBACK")
    then (command_ok, (seen, seen))
    else if own == 1
    then (refused (codes "duplicate key"), (seen, own))
    else (command_ok, (seen, suc own))

abbrev counter : Server
counter = record { State = Numbers; send = respond }

abbrev users : Traits
users = record { table_name = codes "users"; primary_key = codes "id" }

counter-Transactional : Transactional counter users
unfolding respond eqb
counter-Transactional = record {
  Store = ℕ;
  store = λ db. db.0;
  Open = λ db. Unit {0};
  begin_store = λ db. refl;
  begin_opens = λ db h. tt;
  insert_store = λ db e opened. ground arith;
  insert_open = λ db e opened. tt;
  rollback_store = λ db. refl;
  commit_store = λ db h replied. absurd (h refl);
}

abbrev user : List Column
user =
    record { name = codes "id"; content = int_field (pos 7) }
    ∷ record { name = codes "name"; content = string_field (codes "O'Neil") }
    ∷ record { name = codes "age"; content = int_field (pos 42) }
    ∷ []

insert_ps_lem_example :
    let sql =
      codes "INSERT INTO "
      ++ (codes "users"
          ++ (codes " ("
              ++ (joined (codes ", ") (map (λ c. c.name) (kept users user))
                  ++ (codes ") VALUES ("
                      ++ (joined (codes ", ") (numbered 1 (kept users user)) ++ codes ")"))))) in
    let reply = respond (0, 0) sql (bound_texts (kept users user)) in
    insert_ps counter users user (0, 0) ≡ (updated reply.0, reply.1)
insert_ps_lem_example = insert_ps_lem counter users user (0, 0)

-- The connection is not lost.
replied :
    Replied counter users counter-Transactional
      (user ∷ user ∷ [])
      (begin_transaction counter (0, 0)).1
unfolding respond eqb
replied message h = cc

-- A batch of one is committed.
first_accepted : (insert_batch counter users (user ∷ []) (0, 0)).0 ≡ ok tt
unfolding respond eqb insert_batch begin_transaction command succeeded insert_within insert_all
    insert_ps execute_update updated undo commit_or_undo rollback commit finish destroy
    insert_ps_sql bind_parameters bind_parameter next_index bind assign
first_accepted = refl

insert_batch_commits_example :
    let begun = respond (0, 0) (codes "BEGIN") [] in
    (begun.0 ≡ command_ok)
    × ((middle : Numbers) × Inserts counter users (user ∷ []) begun.1 middle
        × ((respond middle (codes "COMMIT") []).0 ≡ command_ok)
        × ((insert_batch counter users (user ∷ []) (0, 0)).1
            ≡ (respond middle (codes "COMMIT") []).1))
insert_batch_commits_example = insert_batch_commits counter users (user ∷ []) (0, 0) first_accepted
