-- ===== src/IoServer/Router/Orders.antt =====
-- The endpoints for orders of IO-Server/src/api_router.cpp.
use velocity_vortex.Base.{
  Bool, not, ◌&&◌, ◌||◌, List, [], ◌∷◌, ◌++◌, Text, codes, if◌then◌else◌, eq_text,
}
use velocity_vortex.Base.Int.{ℤ, pos}
use velocity_vortex.Base.Number.{stoi}
use velocity_vortex.IoServer.Library.{Library, bad_number, bad_json}
use velocity_vortex.IoServer.Program.{
  Program, done, clock, last_insert_rowid, Row, BindValue, bind_int, bind_text, bind_null, ◌>>=◌,
  ◌>>◌, or_throw,
}
use velocity_vortex.IoServer.Statement.{
  Statement, statement, extend, extend_if, paged, build_date_range_filter, build_order_by_clause,
  is_empty, is_positive, ◌|>◌,
}
use velocity_vortex.IoServer.Json.{Response, text, error_response, not_found_response}
use velocity_vortex.IoServer.Params.{Request, QueryParams, parse_params}
use velocity_vortex.IoServer.Router.Ask.{
  column, int_column, first_row, send_query, send_exec, row_response, rows_response, handler,
  require, optional, text_value, real_value, int_value, text_value_or, symbol_query, created,
  succeeded,
}

-- The head of the statements that list orders.
unfoldable pub select_orders : Text
select_orders =
    codes "\n            SELECT o.*, s.ticker as symbol_ticker, st.name as strategy_name\n"
    ++ (codes "            FROM orders o\n"
        ++ (codes "            JOIN symbols s ON o.symbol_id = s.symbol_id\n"
            ++ (codes "            LEFT JOIN strategy st ON o.strategy_id = st.strategy_id\n")))

unfoldable pub insert_order : Text
insert_order =
    codes "\n            INSERT INTO orders (\n"
    ++ (codes "                client_order_id, symbol_id, strategy_id, order_type, side,\n"
        ++ (codes "                price, stop_price, quantity, time_in_force, expire_time,\n"
            ++ (codes "                submitted_at, status\n"
                ++ (codes "            ) VALUES (?, ?, ?, ?, ?, ?, ?, ?, ?, ?, ?, ?)\n        "))))

abbrev order_fields : List Text
order_fields =
    codes "client_order_id"
    ∷ codes "symbol"
    ∷ codes "order_type"
    ∷ codes "side"
    ∷ codes "quantity"
    ∷ []

unfoldable pub can_cancel : Text → Bool
can_cancel status = eq_text status (codes "NEW") || eq_text status (codes "PARTIALLY_FILLED")

module _ {L : Library} where
  -- `!params.strategy.empty() && params.strategy != "0"`; the number of the strategy may not be one.
  unfoldable pub by_strategy_id : QueryParams → Statement L → Program L (Statement L)
  by_strategy_id params s =
      if not (is_empty params.strategy) && not (eq_text params.strategy (codes "0"))
      then (do
        strategy_id ← or_throw bad_number (stoi params.strategy)
        done (extend (codes " AND o.strategy_id = ?") (bind_int strategy_id ∷ []) s))
      else done s

  abbrev orders_filter : QueryParams → Statement L
  orders_filter params =
      statement (select_orders ++ codes "            WHERE 1=1\n        ") []
      |> extend_if (not (is_empty params.symbol)) (codes " AND s.ticker = ?")
          (bind_text params.symbol)
      |> extend_if (not (is_empty params.status)) (codes " AND o.status = ?")
          (bind_text params.status)

  abbrev orders_page : QueryParams → Statement L → Statement L
  orders_page params s =
      s
      |> extend (build_date_range_filter (codes "o.submitted_at") params.from_time params.to_time)
          []
      |> extend (build_order_by_clause (codes "o.submitted_at") (codes "DESC")) []
      |> paged params.limit params.offset

  unfoldable pub get_orders : Request → Program L (Response L)
  get_orders req =
      let params = parse_params req in
      handler (do
        s ← by_strategy_id params (orders_filter params)
        results ← send_query (orders_page params s)
        rows_response results)

  unfoldable pub get_order : Request → ℤ → Program L (Response L)
  get_order req order_id = handler (do
    results ← send_query (
        statement (select_orders ++ codes "            WHERE o.order_id = ?\n        ")
          (bind_int order_id ∷ []))
    first_row (done (not_found_response (codes "Order"))) row_response results)

  unfoldable pub rows_or : Program L (Response L) → List Row → Program L (Response L)
  rows_or missing [] = missing
  rows_or missing (row ∷ rows) = rows_response (row ∷ rows)

  unfoldable pub get_orders_by_client_id : Request → Text → Program L (Response L)
  get_orders_by_client_id req client_id = handler (do
    results ← send_query (
        statement (select_orders ++ codes "            WHERE o.client_order_id = ?\n        ")
          (bind_text client_id ∷ []))
    rows_or (done (not_found_response (codes "Order with client_id: " ++ client_id))) results)

  -- The statement that finds a strategy by its name.
  unfoldable pub strategy_query : BindValue L → Statement L
  strategy_query name =
      statement (codes "SELECT strategy_id FROM strategy WHERE name = ?") (name ∷ [])

  unfoldable pub first_id : List Row → Program L ℤ
  first_id [] = done (pos 0)
  first_id (row ∷ rows) = int_column (codes "strategy_id") row

  -- The strategy of an order: 0 where the body names none, or one that is not there.
  unfoldable pub strategy_of : L.Body → Program L ℤ
  strategy_of body =
      if L.contains body (codes "strategy")
      then (do
        name ← text_value body (codes "strategy")
        strat_result ← send_query (strategy_query name)
        first_id strat_result)
      else done (pos 0)

  -- The values of a new order, in the order of the columns.
  unfoldable pub order_values : L.Body → ℤ → ℤ → Program L (List (BindValue L))
  order_values body symbol_id strategy_id = do
    client_order_id ← text_value body (codes "client_order_id")
    order_type ← text_value body (codes "order_type")
    side ← text_value body (codes "side")
    price ← optional real_value body (codes "price")
    stop_price ← optional real_value body (codes "stop_price")
    quantity ← real_value body (codes "quantity")
    time_in_force ← text_value_or body (codes "time_in_force") (codes "GTC")
    expire_time ← optional int_value body (codes "expire_time")
    now ← clock done
    submitted_at ← or_throw bad_json (L.int_or body (codes "submitted_at") now)
    done (
        client_order_id
        ∷ bind_int symbol_id
        ∷ (if is_positive strategy_id then bind_int strategy_id else bind_null)
        ∷ order_type
        ∷ side
        ∷ price
        ∷ stop_price
        ∷ quantity
        ∷ time_in_force
        ∷ expire_time
        ∷ bind_int submitted_at
        ∷ bind_text (codes "NEW")
        ∷ [])

  -- What follows the look-up of the order's symbol.
  unfoldable pub insert_for : L.Body → Row → Program L (Response L)
  insert_for body symbol_row = do
    symbol_id ← int_column (codes "symbol_id") symbol_row
    strategy_id ← strategy_of body
    values ← order_values body symbol_id strategy_id
    send_exec (statement insert_order values)
    new_order_id ← last_insert_rowid done
    client_order_id ← or_throw bad_json (L.dump_at body (codes "client_order_id"))
    created (codes "order_id") new_order_id (codes "Order created successfully")
        ((codes "client_order_id", text client_order_id) ∷ [])

  unfoldable pub create_order : Request → Program L (Response L)
  create_order req = handler (do
    body ← or_throw bad_json (L.parse req.body)
    require order_fields body (do
      symbol ← or_throw bad_json (L.text_at body (codes "symbol"))
      symbol_result ← send_query (symbol_query (bind_text symbol))
      first_row (done (error_response (codes "Symbol not found: " ++ symbol) 400)) (insert_for body)
          symbol_result))

  abbrev pub cancel_statement : ℤ → ℤ → Statement L
  cancel_statement now order_id =
      statement
        (codes "UPDATE orders SET status = 'CANCELLED', cancelled_at = ?, "
          ++ codes "updated_at = SYSUTCDATETIME() WHERE order_id = ?")
        (bind_int now ∷ bind_int order_id ∷ [])

  -- What follows the check that the order exists.
  unfoldable pub cancel_existing : ℤ → Row → Program L (Response L)
  cancel_existing order_id row = do
    status ← column (codes "status") row
    if can_cancel status
        then (do
          now ← clock done
          send_exec (cancel_statement now order_id)
          succeeded (codes "Order cancelled successfully"))
        else done (error_response (codes "Order cannot be cancelled in status: " ++ status) 400)

  unfoldable pub status_query : ℤ → Statement L
  status_query order_id =
      statement (codes "SELECT status FROM orders WHERE order_id = ?") (bind_int order_id ∷ [])

  unfoldable pub cancel_order : Request → ℤ → Program L (Response L)
  cancel_order req order_id = handler (do
    check ← send_query (status_query order_id)
    first_row (done (not_found_response (codes "Order"))) (cancel_existing order_id) check)
