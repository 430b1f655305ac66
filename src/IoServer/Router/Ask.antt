-- ===== src/IoServer/Router/Ask.antt =====
-- The steps that the handlers of IO-Server/src/api_router.cpp share: reading a column of a row and a
-- value of a request's body, taking the first row of an answer, and sending a statement.
use velocity_vortex.Base.{
  true, Option, none, some, List, [], ◌∷◌, ◌++◌, Text, codes, if◌then◌else◌, eq_text,
}
use velocity_vortex.Base.Int.{ℤ}
use velocity_vortex.Base.Number.{stoi}
use velocity_vortex.IoServer.Library.{Library, missing_key, bad_number, bad_json}
use velocity_vortex.IoServer.Program.{
  Program, done, Row, BindValue, bind_int, bind_real, bind_text, bind_null, ◌>>=◌, catching,
  or_throw, run_query, run_exec,
}
use velocity_vortex.IoServer.Statement.{Statement, statement, is_empty}
use velocity_vortex.IoServer.Params.{QueryParams}
use velocity_vortex.IoServer.Json.{
  Json, Response, fields, object, bool, int, text, response, row_to_json, rows_to_json,
  error_response, bad_request,
}

unfoldable pub find_column : Text → Row → Option Text
find_column key [] = none
find_column key ((name, value) ∷ row) =
    let more = find_column key row in if eq_text key name then some value else more

module _ {L : Library} where
  -- `row.at(key)`.
  unfoldable pub column : Text → Row → Program L Text
  column key row = or_throw missing_key (find_column key row)

  -- `std::stoi(row.at(key))`.
  unfoldable pub int_column : Text → Row → Program L ℤ
  int_column key row = do t ← column key row; or_throw bad_number (stoi t)

  unfoldable pub text_value : L.Body → Text → Program L (BindValue L)
  text_value body key = do t ← or_throw bad_json (L.text_at body key); done (bind_text t)

  unfoldable pub real_value : L.Body → Text → Program L (BindValue L)
  real_value body key = do x ← or_throw bad_json (L.real_at body key); done (bind_real x)

  unfoldable pub int_value : L.Body → Text → Program L (BindValue L)
  int_value body key = do i ← or_throw bad_json (L.int_at body key); done (bind_int i)

  unfoldable pub dump_value : L.Body → Text → Program L (BindValue L)
  dump_value body key = do t ← or_throw bad_json (L.dump_at body key); done (bind_text t)

  -- `body.value(key, default)`.
  unfoldable pub text_value_or : L.Body → Text → Text → Program L (BindValue L)
  text_value_or body key default = do
    t ← or_throw bad_json (L.text_or body key default)
    done (bind_text t)

  unfoldable pub real_value_or : L.Body → Text → L.Real → Program L (BindValue L)
  real_value_or body key default = do
    x ← or_throw bad_json (L.real_or body key default)
    done (bind_real x)

  -- The value of a key, or null where the body does not have it.
  unfoldable pub optional :
      (L.Body → Text → Program L (BindValue L)) → L.Body → Text → Program L (BindValue L)
  optional value body key = if L.contains body key then value body key else done bind_null

  unfoldable pub first_row :
      Program L (Response L) → (Row → Program L (Response L)) → List Row → Program L (Response L)
  first_row missing found [] = missing
  first_row missing found (row ∷ rows) = found row

  -- The check of the fields that a body must have, before what follows it.
  unfoldable pub require : List Text → L.Body → Program L (Response L) → Program L (Response L)
  require [] body next = next
  require (field ∷ more) body next =
      let rest = require more body next in
      if L.contains body field
      then rest
      else done (error_response (codes "Missing required field: " ++ field) 400)

  unfoldable pub send_query : Statement L → Program L (List Row)
  send_query s = run_query s.sql s.binds

  unfoldable pub send_exec : Statement L → Program L (Unit {0})
  send_exec s = run_exec s.sql s.binds

  -- `response["data"] = row_to_json(row); response["success"] = true`.
  unfoldable pub row_response : Row → Program L (Response L)
  row_response row = done (
      response 200
        (fields ((codes "data", object (row_to_json row)) ∷ (codes "success", bool true) ∷ [])))

  unfoldable pub rows_response : List Row → Program L (Response L)
  rows_response rows = done (response 200 (rows_to_json rows))

  -- The statement that finds a symbol by its name.
  unfoldable pub symbol_query : BindValue L → Statement L
  symbol_query ticker =
      statement (codes "SELECT symbol_id FROM symbols WHERE ticker = ?") (ticker ∷ [])

  -- The error for a request that must name a symbol.
  unfoldable pub with_symbol : QueryParams → Program L (Response L) → Program L (Response L)
  with_symbol params next =
      if is_empty params.symbol
      then done (error_response (codes "symbol parameter is required") 400)
      else next

  -- The answer to a request that made a new record, with its number.
  unfoldable pub created : Text → ℤ → Text → List (Text × Json L) → Program L (Response L)
  created key id message more = done (
      response 201 (
        fields
          ((codes "success", bool true) ∷ (key, int id) ∷ (codes "message", text message) ∷ more)))

  unfoldable pub succeeded : Text → Program L (Response L)
  succeeded message =
      done (
        response 200 (fields ((codes "success", bool true) ∷ (codes "message", text message) ∷ [])))

  -- The try block that each handler is.
  unfoldable pub handler : Program L (Response L) → Program L (Response L)
  handler body = catching (λ e. done (bad_request e)) body
