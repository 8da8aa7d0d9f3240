-- ===== src/Db/Transaction.antt =====
-- PostgreSQLTransaction and SybaseTransaction of src/db, which differ in their three commands only.
-- What the connection's `execute` does is a parameter.
use hft_legacy_migration_fra.Base.{◌≡◌, refl, ap, Bytes, Bool, true, false, List, [], ◌∷◌}

pub record Commands : Type 0 where
  pub begin_text : Bytes
  pub commit_text : Bytes
  pub rollback_text : Bytes

pub data Call : Type 0 where
  commits rolls_back : Call

module _ {State : Type 0} (commands : Commands) (execute : Bytes → State → Bool × State) where
  -- The flag `active_` and the connection, after the constructor, which does not look at what
  -- `execute` returns.
  unfoldable pub start : State → Bool × State
  start db = (true, (execute commands.begin_text db).1)

  -- `commit` and `rollback`, each by its command: the result, the flag and the connection.
  unfoldable pub finish : Bytes → Bool × State → Bool × (Bool × State)
  finish text (true, db) = let (result, after) = execute text db in (result, (false, after))
  finish text (false, db) = (false, (false, db))

  unfoldable pub commit : Bool × State → Bool × (Bool × State)
  unfolding finish
  commit = finish commands.commit_text

  unfoldable pub rollback : Bool × State → Bool × (Bool × State)
  unfolding finish
  rollback = finish commands.rollback_text

  -- The destructor.
  unfoldable pub destroy : Bool × State → State
  unfolding rollback
  destroy (true, db) = (rollback (true, db)).1.1
  destroy (false, db) = db

  unfoldable pub call : Call → Bool × State → Bool × State
  unfolding commit rollback
  call commits txn = (commit txn).1
  call rolls_back txn = (rollback txn).1

  unfoldable pub run : List Call → Bool × State → Bool × State
  run [] txn = txn
  run (c ∷ cs) txn = run cs (call c txn)

  -- The command that ends a transaction with these calls: that of the first one, and the rollback of
  -- the destructor where there is none.
  abbrev pub ending : List Call → Bytes
  ending [] = commands.rollback_text
  ending (commits ∷ cs) = commands.commit_text
  ending (rolls_back ∷ cs) = commands.rollback_text

  run_ended : (cs : List Call) (db : State) → run cs (false, db) ≡ (false, db)
  unfolding run call finish
  run_ended [] db = refl
  run_ended (commits ∷ cs) db = run_ended cs db
  run_ended (rolls_back ∷ cs) db = run_ended cs db

  -- From its constructor to its destructor a transaction sends the command that begins it and exactly
  -- one that ends it: that of the first `commit` or `rollback`, and a rollback where neither was called.
  -- Later calls send nothing.
  pub destroy-run :
      (cs : List Call) (db : State)
      → destroy (run cs (start db)) ≡ (execute (ending cs) (execute commands.begin_text db).1).1
  unfolding start run call finish destroy
  destroy-run [] db = refl
  destroy-run (commits ∷ cs) db = ap destroy (run_ended cs _)
  destroy-run (rolls_back ∷ cs) db = ap destroy (run_ended cs _)
