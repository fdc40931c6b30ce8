-- ===== src/Repository.antt =====
-- internal/repository: the records of the requests. `Gorm` is what it uses of the database library.
use cars.Base.{ℕ, Bool, ltb, Option, [], Text}
use cars.Base.Int.{pos}
use cars.Base.Outcome.{Error}
use cars.Base.State.{Exec, ◌>>◌}
use cars.Queue.{Execution}
use cars.Queue.Backends.{returning}

-- `first` is the read of the first record with an id; `updates` and `update_columns` change the
-- columns that are not zero, `updates` in the record of a model, which counts the records.
pub record Gorm (X : Type 0) : Type 0 where
  pub open_postgres : Text → X → Option Error × X
  pub generic : X → Option Error × X
  pub ping : X → Option Error × X
  pub auto_migrate : X → Option Error × X
  pub create : Execution → X → Option Error × X
  pub updates : Execution → Execution → X → (ℕ × Option Error) × X
  pub first : Text → X → Execution × Option Error
  pub update_columns : Text → Execution → X → Option Error × X

-- `Execution{}`.
abbrev pub zero_execution : Execution
zero_execution = record {
  id = [];
  language = [];
  status = [];
  test_status = [];
  compile_ms = 0;
  runtime_ms = 0;
  runtime_memory_mb = (pos 0, 1);
}

module _ {X : Type 0} (db : Gorm X) where
  -- `pingTest`.
  unfoldable pub ping_test : Exec X (Unit {0})
  ping_test = do returning db.generic; returning db.ping

  -- `NewRepository`.
  unfoldable pub new_repository : Text → Exec X (Unit {0})
  unfolding ping_test
  new_repository connection_url = do
    returning (db.open_postgres connection_url)
    ping_test
    returning db.auto_migrate

  -- `InsertExecution`.
  abbrev pub insert_execution : Execution → X → Option Error × X
  insert_execution execution x = db.create execution x

  -- `UpdateExecution`.
  abbrev pub update_execution : Text → Execution → X → (Bool × Option Error) × X
  update_execution id columns x =
      let ((rows_affected, e), x') = db.updates (record zero_execution { id = id }) columns x in
      ((ltb 0 rows_affected, e), x')

  -- `GetExecution`.
  abbrev pub get_execution : Text → X → Execution × Option Error
  get_execution id x = db.first id x

  -- `UpdateExecutionStatus`.
  abbrev pub update_execution_status : Text → Text → X → Option Error × X
  update_execution_status id status x =
      db.update_columns id (record zero_execution { status = status }) x
