-- ===== src/IoServer/SqliteDb/Fetch.antt =====
-- How `SQLiteDB::query` and `SQLiteDB::exec` of IO-Server/src/SQLiteDB.cpp relate, and how many steps
-- they take.
use velocity_vortex.Base.{
  ℕ, zero, suc, ◌≡◌, refl, ap, ◌∙◌, Bool, true, false, Option, none, some, List, [], ◌∷◌, Text,
  arith,
}
use velocity_vortex.IoServer.Library.{Library}
use velocity_vortex.IoServer.Program.{BindValue, Row, Answer, success, failure}
use velocity_vortex.IoServer.SqliteDb.{
  Step, sqlite_row, sqlite_done, sqlite_ok, sqlite_error, Sqlite, bind_all, after_bind,
  after_prepare, after_step, after_row, step_all, fetch_all, finish_exec, finish_query, exec_result,
  query_result, exec_rows, query_rows, exec, query,
}

module _ {L : Library} {S Stmt : Type 0} (sqlite : Sqlite L S Stmt) where
  -- An answer of `query`, and what `exec` does where it is a success.
  abbrev pub Follows : Option (Answer (List Row) × S) → Option (Answer (Unit {0}) × S) → Type 0
  Follows none e = Unit
  Follows (some (success rows, t)) e = e ≡ some (success tt, t)
  Follows (some (failure x, t)) e = Unit

  abbrev pub without_rows : Option ((Step × List Row) × S) → Option (Step × S)
  without_rows none = none
  without_rows (some ((rc, rows), s)) = some (rc, s)

  after_step-after_row :
      (rc : Step) (s : S) (row : Row) (r : Option ((Step × List Row) × S))
      → after_step rc s (without_rows r) ≡ without_rows (after_row rc s row r)
  unfolding after_step after_row
  after_step-after_row sqlite_row s row none = refl
  after_step-after_row sqlite_row s row (some ((rc, rows), t)) = refl
  after_step-after_row sqlite_done s row r = refl
  after_step-after_row sqlite_ok s row r = refl
  after_step-after_row sqlite_error s row r = refl

  -- The loop of `exec` steps as that of `query` does.
  pub step_all-fetch_all :
      (fuel : ℕ) (stmt : Stmt) (s : S)
      → step_all sqlite fuel stmt s ≡ without_rows (fetch_all sqlite fuel stmt s)
  unfolding step_all fetch_all
  step_all-fetch_all zero stmt s = refl
  step_all-fetch_all (suc fuel) stmt s =
      let (rc, t) = sqlite.step stmt s in
      ap (after_step rc t) (step_all-fetch_all fuel stmt t)
      ∙ after_step-after_row rc t _ (fetch_all sqlite fuel stmt t)

  finish_query-Follows :
      (ctx : Text) (rc : Step) (rows : List Row) (s : S)
      → Follows (some (finish_query sqlite ctx rc rows s)) (some (finish_exec sqlite ctx rc s))
  unfolding finish_query finish_exec
  finish_query-Follows ctx sqlite_done rows s = refl
  finish_query-Follows ctx sqlite_row rows s = tt
  finish_query-Follows ctx sqlite_ok rows s = tt
  finish_query-Follows ctx sqlite_error rows s = tt

  query_result-Follows :
      (ctx : Text) (stmt : Stmt) (r : Option ((Step × List Row) × S))
      → Follows (query_result sqlite ctx stmt r) (exec_result sqlite ctx stmt (without_rows r))
  unfolding query_result exec_result
  query_result-Follows ctx stmt none = tt
  query_result-Follows ctx stmt (some ((rc, rows), s)) = finish_query-Follows ctx rc rows _

  query_rows-Follows :
      (fuel : ℕ) (ctx : Text) (stmt : Stmt) (s : S)
      → Follows (query_rows sqlite fuel ctx stmt s) (exec_rows sqlite fuel ctx stmt s)
  unfolding query_rows exec_rows
  query_rows-Follows fuel ctx stmt s =
      rw (step_all-fetch_all fuel stmt s)
        (query_result-Follows ctx stmt (fetch_all sqlite fuel stmt s))

  after_bind-Follows :
      (fuel : ℕ) (ctx : Text) (stmt : Stmt) (bound : Bool) (s : S)
      → Follows
          (after_bind sqlite ctx (query_rows sqlite fuel ctx) stmt (bound, s))
          (after_bind sqlite ctx (exec_rows sqlite fuel ctx) stmt (bound, s))
  unfolding after_bind
  after_bind-Follows fuel ctx stmt true s = query_rows-Follows fuel ctx stmt s
  after_bind-Follows fuel ctx stmt false s = tt

  after_prepare-Follows :
      (fuel : ℕ) (params : List (BindValue L)) (ctx : Text) (stmt : Option Stmt) (s : S)
      → Follows
          (after_prepare sqlite params ctx (query_rows sqlite fuel ctx) (stmt, s))
          (after_prepare sqlite params ctx (exec_rows sqlite fuel ctx) (stmt, s))
  unfolding after_prepare
  after_prepare-Follows fuel params ctx none s = tt
  after_prepare-Follows fuel params ctx (some stmt) s =
      after_bind-Follows fuel ctx stmt (bind_all sqlite stmt 1 params s).0
        (bind_all sqlite stmt 1 params s).1

  -- Where `query` succeeds, `exec` with the same statement, values and fuel succeeds too, and leaves the
  -- connection as `query` does.
  pub exec-Follows-query :
      (fuel : ℕ) (sql : Text) (params : List (BindValue L)) (ctx : Text) (s : S)
      → Follows (query sqlite fuel sql params ctx s) (exec sqlite fuel sql params ctx s)
  unfolding query exec
  exec-Follows-query fuel sql params ctx s =
      after_prepare-Follows fuel params ctx (sqlite.prepare sql s).0 (sqlite.prepare sql s).1

  -- What must hold where a step was a row; after any other code the loop ends.
  abbrev IfRow : Step → Type 0 → Type 0
  IfRow sqlite_row More = More
  IfRow sqlite_done More = Unit
  IfRow sqlite_ok More = Unit
  IfRow sqlite_error More = Unit

  -- A statement has at most so many rows left.
  abbrev pub Within : ℕ → Stmt → S → Type 0
  Within zero stmt s = IfRow (sqlite.step stmt s).0 ⊥
  Within (suc n) stmt s = IfRow (sqlite.step stmt s).0 (Within n stmt (sqlite.step stmt s).1)

  abbrev pub Returns : {A : Type 0} → Option A → Type 0
  Returns {A} o = (x : A) × (o ≡ some x)

  not_some : {A : Type 0} → Returns {A = A} none → ⊥
  not_some h = grind arith

  after_row-Returns :
      (rc : Step) (More : Type 0) (s : S) (row : Row) (r : Option ((Step × List Row) × S))
      → IfRow rc More
      → (More → Returns r)
      → Returns (after_row rc s row r)
  unfolding after_row
  after_row-Returns sqlite_row More s row none h hr = elim (not_some (hr h)) [ ]
  after_row-Returns sqlite_row More s row (some ((rc, rows), t)) h hr =
      (((rc, row ∷ rows), t), refl)
  after_row-Returns sqlite_done More s row r h hr = (((sqlite_done, []), s), refl)
  after_row-Returns sqlite_ok More s row r h hr = (((sqlite_ok, []), s), refl)
  after_row-Returns sqlite_error More s row r h hr = (((sqlite_error, []), s), refl)

  fetch_all-Returns :
      (n : ℕ) (stmt : Stmt) (s : S) → Within n stmt s → Returns (fetch_all sqlite (suc n) stmt s)
  unfolding fetch_all
  fetch_all-Returns zero stmt s h = after_row-Returns _ ⊥ _ _ _ h (λ x. elim x [ ])
  fetch_all-Returns (suc n) stmt s h =
      after_row-Returns _ (Within n stmt (sqlite.step stmt s).1) _ _ _ h
        (fetch_all-Returns n stmt _)

  query_result-Returns :
      (ctx : Text) (stmt : Stmt) (r : Option ((Step × List Row) × S))
      → Returns r
      → Returns (query_result sqlite ctx stmt r)
  unfolding query_result
  query_result-Returns ctx stmt none h = elim (not_some h) [ ]
  query_result-Returns ctx stmt (some ((rc, rows), s)) h = (_, refl)

  after_bind-Returns :
      (n : ℕ) (ctx : Text) (stmt : Stmt) (bound : Bool) (s : S)
      → Within n stmt s
      → Returns (after_bind sqlite ctx (query_rows sqlite (suc n) ctx) stmt (bound, s))
  unfolding after_bind query_rows
  after_bind-Returns n ctx stmt true s h =
      query_result-Returns ctx stmt _ (fetch_all-Returns n stmt s h)
  after_bind-Returns n ctx stmt false s h = (_, refl)

  after_prepare-Returns :
      (n : ℕ) (params : List (BindValue L)) (ctx : Text) (prepared : Option Stmt) (s : S)
      → ((stmt : Stmt) → prepared ≡ some stmt → Within n stmt (bind_all sqlite stmt 1 params s).1)
      → Returns (after_prepare sqlite params ctx (query_rows sqlite (suc n) ctx) (prepared, s))
  unfolding after_prepare
  after_prepare-Returns n params ctx none s h = (_, refl)
  after_prepare-Returns n params ctx (some stmt) s h =
      after_bind-Returns n ctx stmt (bind_all sqlite stmt 1 params s).0 _ (h stmt refl)

  -- `query` returns, with fuel for one step more than the statement has rows: the rows, or the failure.
  pub query-Returns :
      (n : ℕ) (sql : Text) (params : List (BindValue L)) (ctx : Text) (s : S)
      → ((stmt : Stmt)
          → (sqlite.prepare sql s).0 ≡ some stmt
          → Within n stmt (bind_all sqlite stmt 1 params (sqlite.prepare sql s).1).1)
      → Returns (query sqlite (suc n) sql params ctx s)
  unfolding query
  query-Returns n sql params ctx s h =
      after_prepare-Returns n params ctx (sqlite.prepare sql s).0 (sqlite.prepare sql s).1 h
