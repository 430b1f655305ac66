-- ===== src/IoServer/SqliteDb/Leak.antt =====
-- That `SQLiteDB::exec` and `SQLiteDB::query` of IO-Server/src/SQLiteDB.cpp finalize each statement that
-- they prepare, on every path.
use velocity_vortex.Base.{
  ℕ, zero, suc, ◌≡◌, refl, sym, ap, ◌∙◌, subst, Bool, true, false, if◌then◌else◌, Option, none,
  some, List, [], ◌∷◌, Text,
}
use velocity_vortex.IoServer.Library.{Library}
use velocity_vortex.IoServer.Program.{BindValue, Row, Answer}
use velocity_vortex.IoServer.SqliteDb.{
  Step, sqlite_row, sqlite_done, sqlite_ok, sqlite_error, Sqlite, bind_all, after_bind,
  after_prepare, after_step, step_all, fetch_all, finish_exec, finish_query, exec_result,
  query_result, exec_rows, query_rows, exec, query,
}
use velocity_vortex.IoServer.SqliteDb.Fetch.{without_rows, step_all-fetch_all}

-- The number of open statements of a connection, as SQLite documents its calls.
pub record Counts {L : Library} {S Stmt : Type 0} (sqlite : Sqlite L S Stmt) (live : S → ℕ)
    : Type 0 where
  pub prepare_none :
      (sql : Text) (s : S)
      → (sqlite.prepare sql s).0 ≡ none
      → live (sqlite.prepare sql s).1 ≡ live s
  pub prepare_some :
      (sql : Text) (s : S) (stmt : Stmt)
      → (sqlite.prepare sql s).0 ≡ some stmt
      → live (sqlite.prepare sql s).1 ≡ suc (live s)
  pub bind_same :
      (stmt : Stmt) (i : ℕ) (value : BindValue L) (s : S)
      → live (sqlite.bind stmt i value s).1 ≡ live s
  pub step_same : (stmt : Stmt) (s : S) → live (sqlite.step stmt s).1 ≡ live s
  pub finalize_one :
      (stmt : Stmt) (s : S) (n : ℕ) → live s ≡ suc n → live (sqlite.finalize stmt s) ≡ n

module _ {L : Library} {S Stmt : Type 0} (sqlite : Sqlite L S Stmt) (live : S → ℕ)
    (counts : Counts sqlite live) where
  -- An outcome leaves so many statements open.
  abbrev pub Leaves : {A : Type 0} → ℕ → Option (Answer A × S) → Type 0
  Leaves n none = Unit
  Leaves n (some (a, s)) = live s ≡ n

  abbrev Reached : {A : Type 0} → ℕ → Option (A × S) → Type 0
  Reached n none = Unit
  Reached n (some (a, s)) = live s ≡ n

  bind_all-live :
      (stmt : Stmt) (i : ℕ) (values : List (BindValue L)) (s : S)
      → live (bind_all sqlite stmt i values s).1 ≡ live s
  unfolding bind_all
  bind_all-live stmt i [] s = refl
  bind_all-live stmt i (value ∷ values) s =
      chosen (sqlite.bind stmt i value s).0 _ _
        (bind_all-live stmt (suc i) values (sqlite.bind stmt i value s).1
          ∙ counts.bind_same stmt i value s)
        (counts.bind_same stmt i value s)
    where
      chosen :
          (b : Bool) (x y : Bool × S)
          → live x.1 ≡ live s
          → live y.1 ≡ live s
          → live (if b then x else y).1 ≡ live s
      chosen true x y hx hy = hx
      chosen false x y hx hy = hy

  -- What a loop reaches from a state with so many open statements.
  after_step-Reached :
      (n : ℕ) (rc : Step) (s : S) (r : Option (Step × S))
      → live s ≡ n
      → Reached n r
      → Reached n (after_step rc s r)
  unfolding after_step
  after_step-Reached n sqlite_row s r h hr = hr
  after_step-Reached n sqlite_done s r h hr = h
  after_step-Reached n sqlite_ok s r h hr = h
  after_step-Reached n sqlite_error s r h hr = h

  step_all-live :
      (fuel : ℕ) (stmt : Stmt) (n : ℕ) (s : S)
      → live s ≡ n
      → Reached n (step_all sqlite fuel stmt s)
  unfolding step_all
  step_all-live zero stmt n s h = tt
  step_all-live (suc fuel) stmt n s h =
      let t = (sqlite.step stmt s).1 in
      let ht : live t ≡ n = counts.step_same stmt s ∙ h in
      after_step-Reached n (sqlite.step stmt s).0 t _ ht (step_all-live fuel stmt n t ht)

  finish_exec-live :
      (ctx : Text) (rc : Step) (s : S) → live (finish_exec sqlite ctx rc s).1 ≡ live s
  unfolding finish_exec
  finish_exec-live ctx sqlite_done s = refl
  finish_exec-live ctx sqlite_ok s = refl
  finish_exec-live ctx sqlite_row s = refl
  finish_exec-live ctx sqlite_error s = refl

  exec_result-live :
      (n : ℕ) (ctx : Text) (stmt : Stmt) (r : Option (Step × S))
      → Reached (suc n) r
      → Leaves n (exec_result sqlite ctx stmt r)
  unfolding exec_result
  exec_result-live n ctx stmt none h = tt
  exec_result-live n ctx stmt (some (rc, s)) h =
      finish_exec-live ctx rc (sqlite.finalize stmt s) ∙ counts.finalize_one stmt s n h

  -- A body that leaves one statement fewer open than it finds.
  module _ {A : Type 0} (ctx : Text) (next : Stmt → S → Option (Answer A × S))
      (closes : (stmt : Stmt) (n : ℕ) (s : S) → live s ≡ suc n → Leaves n (next stmt s)) where
    after_bind-live :
        (n : ℕ) (stmt : Stmt) (bound : Bool) (s : S)
        → live s ≡ suc n
        → Leaves n (after_bind sqlite ctx next stmt (bound, s))
    unfolding after_bind
    after_bind-live n stmt true s h = closes stmt n s h
    after_bind-live n stmt false s h = counts.finalize_one stmt s n h

    after_prepare-live :
        (sql : Text) (params : List (BindValue L)) (n : ℕ) (prepared : Option Stmt) (s t : S)
        → live s ≡ n
        → (sqlite.prepare sql s).0 ≡ prepared
        → (sqlite.prepare sql s).1 ≡ t
        → Leaves n (after_prepare sqlite params ctx next (prepared, t))
    unfolding after_prepare
    after_prepare-live sql params n none s t h hp ht =
        ap live (sym ht) ∙ (counts.prepare_none sql s hp ∙ h)
    after_prepare-live sql params n (some stmt) s t h hp ht =
        after_bind-live n stmt (bind_all sqlite stmt 1 params t).0 _ (
          bind_all-live stmt 1 params t
          ∙ (ap live (sym ht) ∙ (counts.prepare_some sql s stmt hp ∙ ap suc h)))

  query_result-live :
      (n : ℕ) (ctx : Text) (stmt : Stmt) (r : Option ((Step × List Row) × S))
      → Reached (suc n) (without_rows sqlite r)
      → Leaves n (query_result sqlite ctx stmt r)
  unfolding query_result finish_query
  query_result-live n ctx stmt none h = tt
  query_result-live n ctx stmt (some ((sqlite_done, rows), s)) h = counts.finalize_one stmt s n h
  query_result-live n ctx stmt (some ((sqlite_ok, rows), s)) h = counts.finalize_one stmt s n h
  query_result-live n ctx stmt (some ((sqlite_row, rows), s)) h = counts.finalize_one stmt s n h
  query_result-live n ctx stmt (some ((sqlite_error, rows), s)) h = counts.finalize_one stmt s n h

  fetch_all-live :
      (fuel : ℕ) (stmt : Stmt) (n : ℕ) (s : S)
      → live s ≡ n
      → Reached n (without_rows sqlite (fetch_all sqlite fuel stmt s))
  fetch_all-live fuel stmt n s h =
      subst (λ r. Reached n r) (step_all-fetch_all sqlite fuel stmt s)
        (step_all-live fuel stmt n s h)

  -- However a statement fares, `exec` and `query` leave as many statements open as they found: each one
  -- that they prepare is finalized.
  pub exec-Leaves :
      (fuel : ℕ) (sql : Text) (params : List (BindValue L)) (ctx : Text) (s : S)
      → Leaves (live s) (exec sqlite fuel sql params ctx s)
        × Leaves (live s) (query sqlite fuel sql params ctx s)
  unfolding exec exec_rows query query_rows
  exec-Leaves fuel sql params ctx s = (
    after_prepare-live ctx (exec_rows sqlite fuel ctx)
        (λ stmt n t h. exec_result-live n ctx stmt _ (step_all-live fuel stmt (suc n) t h)) sql
        params (live s) (sqlite.prepare sql s).0 s (sqlite.prepare sql s).1 refl refl refl,
    after_prepare-live ctx (query_rows sqlite fuel ctx)
        (λ stmt n t h. query_result-live n ctx stmt _ (fetch_all-live fuel stmt (suc n) t h)) sql
        params (live s) (sqlite.prepare sql s).0 s (sqlite.prepare sql s).1 refl refl refl,
  )
