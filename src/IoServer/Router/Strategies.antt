-- ===== src/IoServer/Router/Strategies.antt =====
-- The endpoints for strategies of IO-Server/src/api_router.cpp.
use velocity_vortex.Base.{not, List, [], ◌∷◌, ◌++◌, Text, codes, if◌then◌else◌}
use velocity_vortex.Base.Int.{ℤ}
use velocity_vortex.IoServer.Library.{Library, bad_json}
use velocity_vortex.IoServer.Program.{
  Program, done, last_insert_rowid, Row, BindValue, bind_int, bind_text, ◌>>=◌, ◌>>◌, or_throw,
}
use velocity_vortex.IoServer.Statement.{
  Statement, statement, extend, extend_if, paged, is_empty, ◌|>◌,
}
use velocity_vortex.IoServer.Json.{Response, not_found_response}
use velocity_vortex.IoServer.Params.{Request, QueryParams, parse_params}
use velocity_vortex.IoServer.Router.Ask.{
  first_row, send_query, send_exec, row_response, rows_response, handler, optional, text_value,
  real_value, int_value, dump_value, text_value_or, real_value_or, created, succeeded,
}

unfoldable pub insert_strategy : Text
insert_strategy =
    codes "\n            INSERT INTO strategy (\n"
    ++ (codes "                name, version, description, author, status, mode,\n"
        ++ (codes "                capital_alloc, max_position, max_drawdown, risk_per_trade,\n"
            ++ (codes "                params_json, started_at\n"
                ++ (codes "            ) VALUES (?, ?, ?, ?, ?, ?, ?, ?, ?, ?, ?, ?)\n        "))))

module _ {L : Library} where
  abbrev strategies_statement : QueryParams → Statement L
  strategies_statement params =
      statement (codes "SELECT * FROM strategy WHERE 1=1") []
      |> extend_if (not (is_empty params.status)) (codes " AND status = ?")
          (bind_text params.status)
      |> extend_if (not (is_empty params.strategy)) (codes " AND name LIKE ?")
          (bind_text (codes "%" ++ (params.strategy ++ codes "%")))
      |> extend (codes " ORDER BY name ASC") []
      |> paged params.limit params.offset

  unfoldable pub get_strategies : Request → Program L (Response L)
  get_strategies req =
      handler
        (do results ← send_query (strategies_statement (parse_params req)); rows_response results)

  unfoldable pub get_strategy : Request → ℤ → Program L (Response L)
  get_strategy req strategy_id = handler (do
    results ← send_query (
        statement (codes "SELECT * FROM strategy WHERE strategy_id = ?")
          (bind_int strategy_id ∷ []))
    first_row (done (not_found_response (codes "Strategy"))) row_response results)

  -- The values of a new strategy, in the order of the columns.
  unfoldable pub strategy_values : L.Body → Program L (List (BindValue L))
  strategy_values body = do
    name ← text_value_or body (codes "name") []
    version ← text_value_or body (codes "version") (codes "1.0.0")
    description ← text_value_or body (codes "description") []
    author ← text_value_or body (codes "author") []
    status ← text_value_or body (codes "status") (codes "DRAFT")
    mode ← text_value_or body (codes "mode") (codes "PAPER")
    capital_alloc ← real_value_or body (codes "capital_alloc") (L.decimal 0 1)
    max_position ← real_value_or body (codes "max_position") (L.decimal 0 1)
    max_drawdown ← real_value_or body (codes "max_drawdown") (L.decimal 5 2)
    risk_per_trade ← real_value_or body (codes "risk_per_trade") (L.decimal 1 2)
    params_json ← text_value_or body (codes "params_json") (codes "{}")
    started_at ← optional int_value body (codes "started_at")
    done (
        name ∷ version ∷ description ∷ author ∷ status ∷ mode ∷ capital_alloc ∷ max_position
        ∷ max_drawdown ∷ risk_per_trade ∷ params_json ∷ started_at ∷ [])

  unfoldable pub create_strategy : Request → Program L (Response L)
  create_strategy req = handler (do
    body ← or_throw bad_json (L.parse req.body)
    values ← strategy_values body
    send_exec (statement insert_strategy values)
    new_id ← last_insert_rowid done
    created (codes "strategy_id") new_id (codes "Strategy created successfully") [])

  -- `if (body.contains(key)) { sql += clause; binds.push_back(value of key) }`.
  unfoldable pub set_if_given :
      (L.Body → Text → Program L (BindValue L))
      → L.Body
      → Text
      → Text
      → Statement L
      → Program L (Statement L)
  set_if_given value body key clause s =
      if L.contains body key
      then (do v ← value body key; done (extend clause (v ∷ []) s))
      else done s

  unfoldable pub update_statement : L.Body → ℤ → Program L (Statement L)
  update_statement body strategy_id = do
    a ← done (statement (codes "UPDATE strategy SET updated_at = SYSUTCDATETIME()") [])
    b ← set_if_given text_value body (codes "name") (codes ", name = ?") a
    c ← set_if_given text_value body (codes "version") (codes ", version = ?") b
    d ← set_if_given text_value body (codes "status") (codes ", status = ?") c
    e ← set_if_given text_value body (codes "mode") (codes ", mode = ?") d
    f ← set_if_given real_value body (codes "capital_alloc") (codes ", capital_alloc = ?") e
    g ← set_if_given real_value body (codes "max_position") (codes ", max_position = ?") f
    h ← set_if_given dump_value body (codes "params_json") (codes ", params_json = ?") g
    done (extend (codes " WHERE strategy_id = ?") (bind_int strategy_id ∷ []) h)

  -- What follows the check that the strategy exists.
  unfoldable pub update_existing : Request → ℤ → Row → Program L (Response L)
  update_existing req strategy_id row = do
    body ← or_throw bad_json (L.parse req.body)
    s ← update_statement body strategy_id
    send_exec s
    succeeded (codes "Strategy updated successfully")

  unfoldable pub update_strategy : Request → ℤ → Program L (Response L)
  update_strategy req strategy_id = handler (do
    check ← send_query (
        statement (codes "SELECT strategy_id FROM strategy WHERE strategy_id = ?")
          (bind_int strategy_id ∷ []))
    first_row (done (not_found_response (codes "Strategy"))) (update_existing req strategy_id)
        check)
