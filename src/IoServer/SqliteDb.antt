-- ===== src/IoServer/SqliteDb.antt =====
-- `SQLiteDB::exec`, `SQLiteDB::query` and the scalar queries of IO-Server/src/SQLiteDB.cpp over SQLite,
-- whose calls are a parameter. A statement's rows are stepped through on fuel: `none` means that the fuel
-- did not reach the last of them.
use velocity_vortex.Base.{
  ℕ, zero, suc, ◌+◌, Bool, true, false, Option, none, some, List, [], ◌∷◌, ◌++◌, Text, codes,
  if◌then◌else◌, eq_text, ltb, ◌==◌,
}
use velocity_vortex.Base.Int.{ℤ}
use velocity_vortex.Base.Number.{stoll}
use velocity_vortex.IoServer.Library.{Library, Exception, database}
use velocity_vortex.IoServer.Program.{BindValue, Row, Answer, success, failure}
pub mod Rows
pub mod Fetch
pub mod Leak
unfoldable pub use Rows.*

-- The result code of sqlite3_step.
pub data Step : Type 0 where
  sqlite_row sqlite_done sqlite_ok sqlite_error : Step

pub record Sqlite (L : Library) (S Stmt : Type 0) : Type 0 where
  -- sqlite3_prepare_v2; `none`: it failed, and there is no statement.
  pub prepare : Text → S → Option Stmt × S
  -- sqlite3_bind_int64 and the like, at an index from 1; whether it succeeded.
  pub bind : Stmt → ℕ → BindValue L → S → Bool × S
  pub step : Stmt → S → Step × S
  -- The columns of the row: sqlite3_column_name and sqlite3_column_text, `none` for a null pointer.
  pub columns : Stmt → S → List (Option Text × Option Text)
  pub finalize : Stmt → S → S
  pub errmsg : S → Text

module _ {S : Type 0} where
  -- The end of a loop body: on after a row, and out of the loop after any other code.
  unfoldable pub after_step : Step → S → Option (Step × S) → Option (Step × S)
  after_step sqlite_row s rest = rest
  after_step sqlite_done s rest = some (sqlite_done, s)
  after_step sqlite_ok s rest = some (sqlite_ok, s)
  after_step sqlite_error s rest = some (sqlite_error, s)

  unfoldable pub after_row :
      Step → S → Row → Option ((Step × List Row) × S) → Option ((Step × List Row) × S)
  after_row sqlite_row s row none = none
  after_row sqlite_row s row (some ((rc, rows), t)) = some ((rc, row ∷ rows), t)
  after_row sqlite_done s row rest = some ((sqlite_done, []), s)
  after_row sqlite_ok s row rest = some ((sqlite_ok, []), s)
  after_row sqlite_error s row rest = some ((sqlite_error, []), s)

module _ {L : Library} {S Stmt : Type 0} (sqlite : Sqlite L S Stmt) where
  -- The values at the indices from `i` on, until one is refused.
  unfoldable pub bind_all : Stmt → ℕ → List (BindValue L) → S → Bool × S
  bind_all stmt i [] s = (true, s)
  bind_all stmt i (value ∷ values) s =
      let (bound, t) = sqlite.bind stmt i value s in
      let rest = bind_all stmt (suc i) values t in if bound then rest else (false, t)

  abbrev pub thrown_error : {A : Type 0} → Text → Text → S → Answer A × S
  thrown_error stage ctx s =
      (failure (database (stage ++ (ctx ++ (codes ": " ++ sqlite.errmsg s)))), s)

  -- What follows the binding of the values.
  unfoldable pub after_bind :
      {A : Type 0}
      → Text
      → (Stmt → S → Option (Answer A × S))
      → Stmt
      → Bool × S
      → Option (Answer A × S)
  after_bind ctx next stmt (true, s) = next stmt s
  after_bind ctx next stmt (false, s) =
      some (thrown_error (codes "[SQLiteDB::bind] ") ctx (sqlite.finalize stmt s))

  unfoldable pub after_prepare :
      {A : Type 0}
      → List (BindValue L)
      → Text
      → (Stmt → S → Option (Answer A × S))
      → Option Stmt × S
      → Option (Answer A × S)
  unfolding bind_all after_bind
  after_prepare params ctx next (none, s) = some (thrown_error (codes "[SQLiteDB::prepare] ") ctx s)
  after_prepare params ctx next (some stmt, s) = after_bind ctx next stmt (bind_all stmt 1 params s)

  -- `do { rc = sqlite3_step(stmt); } while (rc == SQLITE_ROW)`.
  unfoldable pub step_all : ℕ → Stmt → S → Option (Step × S)
  unfolding after_step
  step_all zero stmt s = none
  step_all (suc fuel) stmt s =
      let (rc, t) = sqlite.step stmt s in let rest = step_all fuel stmt t in after_step rc t rest

  -- `while ((rc = sqlite3_step(stmt)) == SQLITE_ROW) { ... rows.push_back(row) }`.
  unfoldable pub fetch_all : ℕ → Stmt → S → Option ((Step × List Row) × S)
  unfolding read_row after_row
  fetch_all zero stmt s = none
  fetch_all (suc fuel) stmt s =
      let (rc, t) = sqlite.step stmt s in
      let rest = fetch_all fuel stmt t in after_row rc t (read_row (sqlite.columns stmt t) []) rest

  unfoldable pub finish_exec : Text → Step → S → Answer (Unit {0}) × S
  finish_exec ctx sqlite_done s = (success tt, s)
  finish_exec ctx sqlite_ok s = (success tt, s)
  finish_exec ctx rc s = thrown_error (codes "[SQLiteDB::exec] ") ctx s

  unfoldable pub finish_query : Text → Step → List Row → S → Answer (List Row) × S
  finish_query ctx sqlite_done rows s = (success rows, s)
  finish_query ctx rc rows s = thrown_error (codes "[SQLiteDB::query] ") ctx s

  unfoldable pub exec_result : Text → Stmt → Option (Step × S) → Option (Answer (Unit {0}) × S)
  unfolding finish_exec
  exec_result ctx stmt none = none
  exec_result ctx stmt (some (rc, s)) = some (finish_exec ctx rc (sqlite.finalize stmt s))

  unfoldable pub query_result :
      Text → Stmt → Option ((Step × List Row) × S) → Option (Answer (List Row) × S)
  unfolding finish_query
  query_result ctx stmt none = none
  query_result ctx stmt (some ((rc, rows), s)) =
      some (finish_query ctx rc rows (sqlite.finalize stmt s))

  unfoldable pub exec_rows : ℕ → Text → Stmt → S → Option (Answer (Unit {0}) × S)
  unfolding step_all exec_result
  exec_rows fuel ctx stmt s = exec_result ctx stmt (step_all fuel stmt s)

  unfoldable pub query_rows : ℕ → Text → Stmt → S → Option (Answer (List Row) × S)
  unfolding fetch_all query_result
  query_rows fuel ctx stmt s = query_result ctx stmt (fetch_all fuel stmt s)

  unfoldable pub exec : ℕ → Text → List (BindValue L) → Text → S → Option (Answer (Unit {0}) × S)
  unfolding after_prepare exec_rows
  exec fuel sql params ctx s = after_prepare params ctx (exec_rows fuel ctx) (sqlite.prepare sql s)

  unfoldable pub query : ℕ → Text → List (BindValue L) → Text → S → Option (Answer (List Row) × S)
  unfolding after_prepare query_rows
  query fuel sql params ctx s =
      after_prepare params ctx (query_rows fuel ctx) (sqlite.prepare sql s)

-- The first value of the first row: `rows[0].begin()->second`, of the column with the least name.
unfoldable pub scalar : List Row → Option Text
scalar ((column ∷ columns) ∷ rows) = some column.1
scalar _ = none

-- What a scalar query makes of the rows.
abbrev pub of_rows :
    {A S : Type 0} → (List Row → A) → Option (Answer (List Row) × S) → Option (Answer A × S)
of_rows f none = none
of_rows f (some (success rows, s)) = some (success (f rows), s)
of_rows f (some (failure e, s)) = some (failure e, s)

unfoldable pub int_of : ℤ → List Row → ℤ
unfolding scalar stoll
int_of default rows = elim (scalar rows) [
  | none ↦ default
  | some t ↦ elim (stoll t) [ none ↦ default | some i ↦ i ]
]

unfoldable pub text_of : Text → List Row → Text
unfolding scalar
text_of default rows = elim (scalar rows) [ none ↦ default | some t ↦ t ]

module _ (L : Library) where
  unfoldable pub real_of : L.Real → List Row → L.Real
  unfolding scalar
  real_of default rows = elim (scalar rows) [
    | none ↦ default
    | some t ↦ elim (L.stod t) [ none ↦ default | some x ↦ x ]
  ]

module _ {L : Library} {S Stmt : Type 0} (sqlite : Sqlite L S Stmt) where
  unfoldable pub scalar_int : ℕ → Text → List (BindValue L) → ℤ → Text → S → Option (Answer ℤ × S)
  unfolding query int_of
  scalar_int fuel sql params default ctx s =
      of_rows (int_of default) (query sqlite fuel sql params ctx s)

  unfoldable pub scalar_double :
      ℕ → Text → List (BindValue L) → L.Real → Text → S → Option (Answer L.Real × S)
  unfolding query real_of
  scalar_double fuel sql params default ctx s =
      of_rows (real_of L default) (query sqlite fuel sql params ctx s)

  unfoldable pub scalar_text :
      ℕ → Text → List (BindValue L) → Text → Text → S → Option (Answer Text × S)
  unfolding query text_of
  scalar_text fuel sql params default ctx s =
      of_rows (text_of default) (query sqlite fuel sql params ctx s)
