-- ===== src/Repository/Committed.antt =====
-- What `insertBatch` has done when it returns.
use hft_legacy_migration_fra.Base.{
  ◌≡◌, ◌≢◌, refl, sym, ap, subst, ◌∙◌, inl, inr, List, [], ◌∷◌, ok, Exception, codes, Result-cases,
}
use hft_legacy_migration_fra.Repository.Session.{
  Answer, tuples_ok, command_ok, refused, no_result, Server, Transaction, begin_transaction, commit,
  rollback,
}
use hft_legacy_migration_fra.Repository.Entity.{
  Column, Traits, updated, insert_ps, insert_all, undo, commit_or_undo, insert_within, insert_batch,
}
use hft_legacy_migration_fra.Repository.Placeholders.{kept, bound_texts, insert_text, insert_ps_lem}
use hft_legacy_migration_fra.Repository.Ended.{
  destroy_ended, finish_lem, succeeded-command_ok, ok_ne_err, begin_state, begin_command_ok,
}

-- The server is led from the first state to the last by the INSERTs of the entities with their values,
-- one after the other and nothing else, and answers each with success.
abbrev pub Inserts :
    (server : Server) → Traits → List (List Column) → server.State → server.State → Type 0
Inserts server t [] before after = before ≡ after
Inserts server t (e ∷ es) before after =
    let reply = server.send before (insert_text t e) (bound_texts (kept t e)) in
    (reply.0 ≡ command_ok) × Inserts server t es reply.1 after

updated-command_ok : (answer : Answer) → updated answer ≡ ok tt → answer ≡ command_ok
unfolding updated
updated-command_ok command_ok h = refl
updated-command_ok (tuples_ok rows) h = cc
updated-command_ok (refused message) h = cc
updated-command_ok (no_result message) h = cc

insert_all-Inserts :
    (server : Server) (t : Traits) (es : List (List Column)) (db : server.State)
    → (insert_all server t es db).0 ≡ ok tt
    → Inserts server t es db (insert_all server t es db).1
unfolding insert_all
insert_all-Inserts server t [] db h = refl
insert_all-Inserts server t (e ∷ es) db h =
    let sent = insert_ps_lem server t e db in
    elim (Result-cases (insert_ps server t e db).0) [
      | inl (x, p) ↦ absurd (ok_ne_err (sym (rw (p, insert_all) at (h))))
      | inr (done, p) ↦
          let step : (insert_ps server t e db).1
              ≡ (server.send db (insert_text t e) (bound_texts (kept t e))).1 =
            ap (λ o. o.1) sent in
          let later = insert_all-Inserts server t es _ (rw (p, insert_all) at (h)) in
          (
            updated-command_ok _ (sym (ap (λ o. o.0) sent) ∙ p),
            rw (p, insert_all)
                (subst
                  (λ s.
                    Inserts server t es s (insert_all server t es (insert_ps server t e db).1).1)
                  step later),
          )
    ]

module _ (server : Server) where
  module _ (t : Traits) where
    undo_throws :
        (x : Exception) (txn : Transaction) (db : server.State) → (undo server t x txn db).0 ≢ ok tt
    unfolding undo
    undo_throws x txn db h = elim (Result-cases (rollback server txn db).0.0) [
      | inl (y, p) ↦ ok_ne_err (sym (rw (p, undo) at (h)))
      | inr (done, p) ↦ ok_ne_err (sym (rw (p, undo) at (h)))
    ]

    commit_or_undo_commits :
        (txn : Transaction) (db : server.State)
        → (commit_or_undo server t txn db).0 ≡ ok tt
        → ((server.send db (codes "COMMIT") []).0 ≡ command_ok)
          × ((commit_or_undo server t txn db).1 ≡ (server.send db (codes "COMMIT") []).1)
    unfolding commit_or_undo commit
    commit_or_undo_commits txn db h = elim (Result-cases (commit server txn db).0.0) [
      | inl (x, p) ↦ absurd (undo_throws x _ _ (rw (p, commit_or_undo) at (h)))
      | inr (done, p) ↦
          elim (finish_lem server (codes "PgTransaction::commit: ") (codes "COMMIT") txn db) [
            | inl (ended, q, e) ↦ absurd (ok_ne_err (sym p ∙ ap (λ o. o.0) q))
            | inr (active, q, inl (s, e)) ↦ (
              succeeded-command_ok (codes "PgTransaction::commit: ") _ s,
              rw (p, commit_or_undo) (destroy_ended server _ _ e ∙ ap (λ o. o.1) q),
            )
            | inr (active, q, inr (x, f, e)) ↦ absurd (ok_ne_err (sym p ∙ ap (λ o. o.0) q ∙ f))
          ]
    ]

    insert_within_commits :
        (es : List (List Column)) (txn : Transaction) (db : server.State)
        → (insert_within server t es txn db).0 ≡ ok tt
        → let inserted = insert_all server t es db in
          let committed = server.send inserted.1 (codes "COMMIT") [] in
          (inserted.0 ≡ ok tt)
          × (committed.0 ≡ command_ok)
          × ((insert_within server t es txn db).1 ≡ committed.1)
    unfolding insert_within
    insert_within_commits es txn db h = elim (Result-cases (insert_all server t es db).0) [
      | inl (x, p) ↦ absurd (undo_throws x _ _ (rw (p, insert_within) at (h)))
      | inr (done, p) ↦
          let (c, s) = commit_or_undo_commits txn _ (rw (p, insert_within) at (h)) in
          (p, c, rw (p, insert_within) s)
    ]

    -- When `insertBatch` returns, the server has carried out BEGIN, then exactly the INSERTs of all the
    -- entities with their values, in their order, and then COMMIT, has answered each with success,
    -- and is in the state after that COMMIT.
    pub insert_batch_commits :
        (es : List (List Column)) (db : server.State)
        → (insert_batch server t es db).0 ≡ ok tt
        → let begun = server.send db (codes "BEGIN") [] in
          (begun.0 ≡ command_ok)
          × ((middle : server.State) × Inserts server t es begun.1 middle
              × ((server.send middle (codes "COMMIT") []).0 ≡ command_ok)
              × ((insert_batch server t es db).1 ≡ (server.send middle (codes "COMMIT") []).1))
    unfolding insert_batch
    insert_batch_commits es db h = elim (Result-cases (begin_transaction server db).0) [
      | inl (x, p) ↦ absurd (ok_ne_err (sym (rw (p, insert_batch) at (h))))
      | inr (txn, p) ↦
          let (i, c, s) = insert_within_commits es txn _ (rw (p, insert_batch) at (h)) in
          (
            begin_command_ok server db txn p,
            (
              (insert_all server t es (begin_transaction server db).1).1,
              subst
                  (λ s.
                    Inserts server t es s
                      (insert_all server t es (begin_transaction server db).1).1)
                  (begin_state server db) (insert_all-Inserts server t es _ i),
              c,
              rw (p, insert_batch) s,
            ),
          )
    ]
