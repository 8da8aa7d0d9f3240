-- ===== src/Repository/Ended.antt =====
-- How a transaction of the repository ends, and what `insertBatch` sent last where it throws.
use hft_legacy_migration_fra.Base.{
  ◌≡◌, ◌≢◌, ◌⊎◌, inl, inr, refl, sym, ap, subst, ◌∙◌, Bytes, Bool, true, false, List, [], ok, err,
  Exception, codes, Result-cases,
}
use hft_legacy_migration_fra.Repository.Session.{
  Answer, tuples_ok, command_ok, refused, no_result, Server, failure, succeeded, Transaction,
  begin_transaction, commit, command, finish, rollback, destroy,
}
use hft_legacy_migration_fra.Repository.Entity.{
  Column, Traits, insert_all, undo, commit_or_undo, insert_within,
}

pub succeeded-command_ok :
    (place : Bytes) (answer : Answer) → succeeded place answer ≡ ok tt → answer ≡ command_ok
unfolding succeeded
succeeded-command_ok place command_ok h = refl
succeeded-command_ok place (tuples_ok rows) h = cc
succeeded-command_ok place (refused message) h = cc
succeeded-command_ok place (no_result message) h = cc

abbrev pub Finishes :
    (server : Server) (place sql : Bytes) (txn : Transaction) (db : server.State) → Type 0
Finishes server place sql txn db =
    let sent = server.send db sql [] in
    let (outcome, ended) = finish server place sql txn db in
    ((txn.active ≡ false) × (outcome ≡ (failure place (codes "not active"), db)) × (ended ≡ txn))
    ⊎ ((txn.active ≡ true)
        × (outcome ≡ (succeeded place sent.0, sent.1))
        × (((succeeded place sent.0 ≡ ok tt) × (ended.active ≡ false))
            ⊎ ((e : Exception) × (succeeded place sent.0 ≡ err e) × (ended ≡ txn))))

-- What `commit` and `rollback` do: on a transaction that has ended they throw that it is not active
-- and send nothing; else they send their command, and the transaction ends exactly when that succeeds.
pub finish_lem :
    (server : Server) (place sql : Bytes) (txn : Transaction) (db : server.State)
    → Finishes server place sql txn db
unfolding finish command
finish_lem server place sql txn db = go txn.active
  where
    go : (b : Bool) → Finishes server place sql (record { active = b }) db
    go false = inl (refl, refl, refl)
    go true = elim (Result-cases (succeeded place (server.send db sql []).0)) [
      | inl (e, p) ↦ inr (refl, rw p refl, inr (e, p, rw p refl))
      | inr (done, p) ↦ inr (refl, rw p refl, inl (p, rw p refl))
    ]

pub ok_ne_err : {A : Type 0} {a : A} {x : Exception} → ok a ≢ err x
ok_ne_err h = cc

pub begin_state :
    (server : Server) (db : server.State)
    → (begin_transaction server db).1 ≡ (server.send db (codes "BEGIN") []).1
unfolding begin_transaction command
begin_state server db =
    elim (Result-cases (
      succeeded (codes "PgConnection::beginTransaction: ") (server.send db (codes "BEGIN") []).0)) [
        | inr (done, p) ↦ rw (p, begin_transaction) refl
        | inl (x, p) ↦ rw (p, begin_transaction) refl
      ]

pub begin_command_ok :
    (server : Server) (db : server.State) (txn : Transaction)
    → (begin_transaction server db).0 ≡ ok txn
    → (server.send db (codes "BEGIN") []).0 ≡ command_ok
unfolding begin_transaction command
begin_command_ok server db txn h =
    elim (Result-cases (
      succeeded (codes "PgConnection::beginTransaction: ") (server.send db (codes "BEGIN") []).0)) [
        | inr (done, p) ↦ succeeded-command_ok (codes "PgConnection::beginTransaction: ") _ p
        | inl (x, p) ↦ absurd (ok_ne_err (sym (rw (p, begin_transaction) at (h))))
      ]

pub true_ne_false : true ≢ false
true_ne_false e = cc

pub begin_active :
    (server : Server) (db : server.State) (txn : Transaction)
    → (begin_transaction server db).0 ≡ ok txn
    → txn.active ≡ true
unfolding begin_transaction command
begin_active server db txn h =
    elim (Result-cases (
      succeeded (codes "PgConnection::beginTransaction: ") (server.send db (codes "BEGIN") []).0)) [
        | inr (done, p) ↦
            sym
              (ap (λ (z : Transaction). z.active) (ok_injective (rw (p, begin_transaction) at (h))))
        | inl (x, p) ↦ absurd (ok_ne_err (sym (rw (p, begin_transaction) at (h))))
      ]
  where
    ok_injective : {a b : Transaction} → ok a ≡ ok b → a ≡ b
    ok_injective e = cc

pub begin_ok :
    (server : Server) (db : server.State)
    → (server.send db (codes "BEGIN") []).0 ≡ command_ok
    → (begin_transaction server db).0 ≡ ok (record { active = true })
unfolding begin_transaction command succeeded
begin_ok server db e = rw (e, begin_transaction) refl

module _ (server : Server) where
  pub destroy_ended :
      (txn : Transaction) (db : server.State) → txn.active ≡ false → destroy server txn db ≡ db
  unfolding destroy
  destroy_ended txn db h = rw (h, destroy) refl

module _ (server : Server) (t : Traits) where
  -- A state right after a ROLLBACK.
  abbrev pub RolledBack : server.State → Type 0
  RolledBack after =
      (before : server.State) × (after ≡ (server.send before (codes "ROLLBACK") []).1)

  rollback-RolledBack :
      (txn : Transaction) (db : server.State)
      → txn.active ≡ true
      → RolledBack (rollback server txn db).0.1
  unfolding rollback
  rollback-RolledBack txn db h =
      elim (finish_lem server (codes "PgTransaction::rollback: ") (codes "ROLLBACK") txn db) [
        | inl (ended, p, q) ↦ absurd (true_ne_false (sym h ∙ ended))
        | inr (active, p, q) ↦ (db, ap (λ o. o.1) p)
      ]

  destroy-RolledBack :
      (txn : Transaction) (db : server.State)
      → txn.active ≡ true
      → RolledBack (destroy server txn db)
  unfolding destroy
  destroy-RolledBack txn db h = go txn.active h
    where
      go : (b : Bool) → b ≡ true → RolledBack (destroy server (record { active = b }) db)
      go true e = rollback-RolledBack (record { active = true }) db e
      go false e = absurd (true_ne_false (sym e))

  undo-RolledBack :
      (x : Exception) (txn : Transaction) (db : server.State)
      → txn.active ≡ true
      → RolledBack (undo server t x txn db).1
  unfolding undo rollback
  undo-RolledBack x txn db h =
      elim (finish_lem server (codes "PgTransaction::rollback: ") (codes "ROLLBACK") txn db) [
        | inl (ended, p, q) ↦ absurd (true_ne_false (sym h ∙ ended))
        | inr (active, p, inl (s, e)) ↦
            rw (ap (λ o. o.0) p ∙ s, undo)
              (subst RolledBack (sym (destroy_ended server _ _ e)) (rollback-RolledBack txn db h))
        | inr (active, p, inr (y, f, e)) ↦
            rw (ap (λ o. o.0) p ∙ f, undo)
              (destroy-RolledBack _ _ (ap (λ (z : Transaction). z.active) e ∙ h))
      ]

  commit_or_undo-RolledBack :
      (txn : Transaction) (db : server.State) (x : Exception)
      → txn.active ≡ true
      → (commit_or_undo server t txn db).0 ≡ err x
      → RolledBack (commit_or_undo server t txn db).1
  unfolding commit_or_undo commit
  commit_or_undo-RolledBack txn db x h failed =
      elim (finish_lem server (codes "PgTransaction::commit: ") (codes "COMMIT") txn db) [
        | inl (ended, p, q) ↦ absurd (true_ne_false (sym h ∙ ended))
        | inr (active, p, inl (s, e)) ↦
            absurd (ok_ne_err (rw (ap (λ o. o.0) p ∙ s, commit_or_undo) at (failed)))
        | inr (active, p, inr (y, f, e)) ↦
            rw (ap (λ o. o.0) p ∙ f, commit_or_undo)
              (undo-RolledBack y _ _ (ap (λ (z : Transaction). z.active) e ∙ h))
      ]

  pub insert_within-RolledBack :
      (es : List (List Column)) (txn : Transaction) (db : server.State) (x : Exception)
      → txn.active ≡ true
      → (insert_within server t es txn db).0 ≡ err x
      → RolledBack (insert_within server t es txn db).1
  unfolding insert_within
  insert_within-RolledBack es txn db x h failed =
      elim (Result-cases (insert_all server t es db).0) [
        | inr (done, p) ↦
            rw (p, insert_within)
              (commit_or_undo-RolledBack txn _ x h (rw (p, insert_within) at (failed)))
        | inl (y, p) ↦ rw (p, insert_within) (undo-RolledBack y txn _ h)
      ]
