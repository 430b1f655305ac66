-- ===== src/IoServer/Router/Signals.antt =====
-- The endpoints for signals of IO-Server/src/api_router.cpp.
use velocity_vortex.Base.{not, List, [], ◌∷◌, ◌++◌, Text, codes}
use velocity_vortex.Base.Int.{ℤ}
use velocity_vortex.IoServer.Library.{Library, bad_json}
use velocity_vortex.IoServer.Program.{
  Program, done, last_insert_rowid, Row, BindValue, bind_int, bind_text, ◌>>=◌, ◌>>◌, or_throw,
}
use velocity_vortex.IoServer.Statement.{
  Statement, statement, extend, extend_if, paged, build_date_range_filter, build_order_by_clause,
  is_empty, ◌|>◌,
}
use velocity_vortex.IoServer.Json.{Response, error_response, not_found_response}
use velocity_vortex.IoServer.Params.{Request, QueryParams, parse_params}
use velocity_vortex.IoServer.Router.Ask.{
  int_column, first_row, send_query, send_exec, row_response, rows_response, handler, require,
  optional, text_value, real_value, int_value, dump_value, text_value_or, real_value_or,
  symbol_query, created,
}
use velocity_vortex.IoServer.Router.Orders.{strategy_query}

-- The head of the statements that list signals.
unfoldable pub select_signals : Text
select_signals =
    codes "\n            SELECT sig.*, s.ticker as symbol_ticker, st.name as strategy_name\n"
    ++ (codes "            FROM signal sig\n"
        ++ (codes "            JOIN symbols s ON sig.symbol_id = s.symbol_id\n"
            ++ (codes "            JOIN strategy st ON sig.strategy_id = st.strategy_id\n")))

unfoldable pub insert_signal : Text
insert_signal =
    codes "\n            INSERT INTO signal (\n"
    ++ (codes "                strategy_id, symbol_id, signal_time, signal_type, direction,\n"
        ++ (codes "                strength, price_target, stop_loss, take_profit, timeframe,\n"
            ++ (codes "                indicator_json, status, expiry_time, notes\n"
                ++ (codes
                    "            ) VALUES (?, ?, ?, ?, ?, ?, ?, ?, ?, ?, ?, ?, ?, ?)\n        "))))

abbrev signal_fields : List Text
signal_fields =
    codes "strategy"
    ∷ codes "symbol"
    ∷ codes "signal_type"
    ∷ codes "direction"
    ∷ codes "signal_time"
    ∷ []

module _ {L : Library} where
  abbrev signals_statement : QueryParams → Statement L
  signals_statement params =
      statement (select_signals ++ codes "            WHERE 1=1\n        ") []
      |> extend_if (not (is_empty params.symbol)) (codes " AND s.ticker = ?")
          (bind_text params.symbol)
      |> extend_if (not (is_empty params.strategy)) (codes " AND st.name = ?")
          (bind_text params.strategy)
      |> extend_if (not (is_empty params.status)) (codes " AND sig.status = ?")
          (bind_text params.status)
      |> extend_if (not (is_empty params.direction)) (codes " AND sig.direction = ?")
          (bind_text params.direction)
      |> extend (build_date_range_filter (codes "sig.signal_time") params.from_time params.to_time)
          []
      |> extend (build_order_by_clause (codes "sig.signal_time") (codes "DESC")) []
      |> paged params.limit params.offset

  unfoldable pub get_signals : Request → Program L (Response L)
  get_signals req =
      handler
        (do results ← send_query (signals_statement (parse_params req)); rows_response results)

  unfoldable pub get_signal : Request → ℤ → Program L (Response L)
  get_signal req signal_id = handler (do
    results ← send_query (
        statement (select_signals ++ codes "            WHERE sig.signal_id = ?\n        ")
          (bind_int signal_id ∷ []))
    first_row (done (not_found_response (codes "Signal"))) row_response results)

  -- The values of a new signal, in the order of the columns.
  unfoldable pub signal_values : L.Body → ℤ → ℤ → Program L (List (BindValue L))
  signal_values body strategy_id symbol_id = do
    signal_time ← int_value body (codes "signal_time")
    signal_type ← text_value body (codes "signal_type")
    direction ← text_value body (codes "direction")
    strength ← real_value_or body (codes "strength") (L.decimal 10 1)
    price_target ← optional real_value body (codes "price_target")
    stop_loss ← optional real_value body (codes "stop_loss")
    take_profit ← optional real_value body (codes "take_profit")
    timeframe ← optional text_value body (codes "timeframe")
    indicator_json ← optional dump_value body (codes "indicator_json")
    status ← text_value_or body (codes "status") (codes "PENDING")
    expiry_time ← optional int_value body (codes "expiry_time")
    notes ← optional text_value body (codes "notes")
    done (
        bind_int strategy_id
        ∷ bind_int symbol_id
        ∷ signal_time
        ∷ signal_type
        ∷ direction
        ∷ strength
        ∷ price_target
        ∷ stop_loss
        ∷ take_profit
        ∷ timeframe
        ∷ indicator_json
        ∷ status
        ∷ expiry_time
        ∷ notes
        ∷ [])

  -- What follows the look-ups of the signal's strategy and symbol.
  unfoldable pub signal_for : L.Body → ℤ → Row → Program L (Response L)
  signal_for body strategy_id symbol_row = do
    symbol_id ← int_column (codes "symbol_id") symbol_row
    values ← signal_values body strategy_id symbol_id
    send_exec (statement insert_signal values)
    new_signal_id ← last_insert_rowid done
    created (codes "signal_id") new_signal_id (codes "Signal created successfully") []

  -- What follows the look-up of the signal's strategy.
  unfoldable pub signal_after : L.Body → Row → Program L (Response L)
  signal_after body strategy_row = do
    strategy_id ← int_column (codes "strategy_id") strategy_row
    symbol ← or_throw bad_json (L.text_at body (codes "symbol"))
    symbol_result ← send_query (symbol_query (bind_text symbol))
    first_row (done (error_response (codes "Symbol not found: " ++ symbol) 400))
        (signal_for body strategy_id) symbol_result

  unfoldable pub create_signal : Request → Program L (Response L)
  create_signal req = handler (do
    body ← or_throw bad_json (L.parse req.body)
    require signal_fields body (do
      strategy ← or_throw bad_json (L.text_at body (codes "strategy"))
      strategy_result ← send_query (strategy_query (bind_text strategy))
      first_row (done (error_response (codes "Strategy not found: " ++ strategy) 400))
          (signal_after body) strategy_result))
