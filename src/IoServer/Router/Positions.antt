-- ===== src/IoServer/Router/Positions.antt =====
-- The endpoints for positions and performance of IO-Server/src/api_router.cpp.
use velocity_vortex.Base.{not, List, [], ◌∷◌, ◌++◌, Text, codes}
use velocity_vortex.Base.Int.{ℤ, pos, ◌+ℤ◌}
use velocity_vortex.IoServer.Library.{Library, bad_number}
use velocity_vortex.IoServer.Program.{Program, done, Row, bind_int, bind_text, ◌>>=◌, or_throw}
use velocity_vortex.IoServer.Statement.{
  Statement, statement, extend, extend_if, paged, build_order_by_clause, is_empty, is_positive,
  ◌|>◌,
}
use velocity_vortex.IoServer.Json.{
  Json, Response, fields, int, real, object, with_field, response, rows_to_json, not_found_response,
}
use velocity_vortex.IoServer.Params.{Request, QueryParams, parse_params}
use velocity_vortex.IoServer.Router.Ask.{
  column, int_column, first_row, send_query, row_response, rows_response, handler,
}

-- The head of the statements that list positions.
unfoldable pub select_positions : Text
select_positions =
    codes "\n            SELECT p.*, s.ticker as symbol_ticker, st.name as strategy_name\n"
    ++ (codes "            FROM positions p\n"
        ++ (codes "            JOIN symbols s ON p.symbol_id = s.symbol_id\n"
            ++ (codes "            JOIN strategy st ON p.strategy_id = st.strategy_id\n")))

-- The head of the statements that list performance metrics.
unfoldable pub select_performance : Text
select_performance =
    codes "\n            SELECT pm.*, st.name as strategy_name\n"
    ++ (codes "            FROM performance_metrics pm\n"
        ++ (codes "            JOIN strategy st ON pm.strategy_id = st.strategy_id\n"))

module _ {L : Library} where
  abbrev positions_statement : QueryParams → Statement L
  positions_statement params =
      statement (select_positions ++ codes "            WHERE 1=1\n        ") []
      |> extend_if (not (is_empty params.symbol)) (codes " AND s.ticker = ?")
          (bind_text params.symbol)
      |> extend_if (not (is_empty params.strategy)) (codes " AND st.name = ?")
          (bind_text params.strategy)
      |> extend_if (not (is_empty params.direction)) (codes " AND p.direction = ?")
          (bind_text params.direction)
      |> extend (build_order_by_clause (codes "p.opened_at") (codes "DESC")) []
      |> paged params.limit params.offset

  unfoldable pub get_positions : Request → Program L (Response L)
  get_positions req =
      handler
        (do results ← send_query (positions_statement (parse_params req)); rows_response results)

  unfoldable pub get_position : Request → ℤ → Program L (Response L)
  get_position req position_id = handler (do
    results ← send_query (
        statement (select_positions ++ codes "            WHERE p.position_id = ?\n        ")
          (bind_int position_id ∷ []))
    first_row (done (not_found_response (codes "Position"))) row_response results)

  unfoldable pub get_positions_by_strategy : Request → ℤ → Program L (Response L)
  get_positions_by_strategy req strategy_id = handler (do
    results ← send_query (
        statement
          (select_positions
            ++ (codes "            WHERE p.strategy_id = ?\n"
                ++ codes "            ORDER BY p.opened_at DESC\n        "))
          (bind_int strategy_id ∷ []))
    rows_response results)

  -- The range of dates, for a bound that is given.
  unfoldable pub date_bounds : QueryParams → Statement L → Statement L
  date_bounds params s =
      s
      |> extend_if (is_positive params.from_time) (codes " AND pm.date >= date(?, 'unixepoch')")
          (bind_int params.from_time)
      |> extend_if (is_positive params.to_time) (codes " AND pm.date <= date(?, 'unixepoch')")
          (bind_int params.to_time)
      |> extend (build_order_by_clause (codes "pm.date") (codes "DESC")) []
      |> paged params.limit params.offset

  abbrev performance_statement : QueryParams → Statement L
  performance_statement params =
      statement (select_performance ++ codes "            WHERE 1=1\n        ") []
      |> extend_if (not (is_empty params.strategy)) (codes " AND st.name = ?")
          (bind_text params.strategy)
      |> date_bounds params

  unfoldable pub get_performance : Request → Program L (Response L)
  get_performance req =
      handler
        (do results ← send_query (performance_statement (parse_params req)); rows_response results)

  abbrev strategy_performance_statement : QueryParams → ℤ → Statement L
  strategy_performance_statement params strategy_id =
      statement (select_performance ++ codes "            WHERE pm.strategy_id = ?\n        ")
        (bind_int strategy_id ∷ [])
      |> date_bounds params

  -- The sums of the columns total_pnl and trade_count. A sum past the range of int, on which the code
  -- has no defined result, stands as it is.
  unfoldable pub aggregate : List Row → L.Real → ℤ → Program L (L.Real × ℤ)
  aggregate [] total_pnl trade_count = done (total_pnl, trade_count)
  aggregate (row ∷ rows) total_pnl trade_count = do
    t ← column (codes "total_pnl") row
    pnl ← or_throw bad_number (L.stod t)
    trades ← int_column (codes "trade_count") row
    aggregate rows (L.add total_pnl pnl) (trade_count +ℤ trades)

  unfoldable pub summary : L.Real → ℤ → ℤ → Json L
  summary total_pnl trade_count strategy_id = object (
      fields (
        (codes "total_pnl", real total_pnl)
        ∷ (codes "total_trades", int trade_count)
        ∷ (codes "strategy_id", int strategy_id)
        ∷ []))

  unfoldable pub summarised : ℤ → List Row → Program L (Response L)
  summarised strategy_id [] = rows_response []
  summarised strategy_id (row ∷ rows) = do
    totals ← aggregate (row ∷ rows) (L.decimal 0 0) (pos 0)
    done (
        response 200 (
          rows_to_json (row ∷ rows)
          |> with_field (codes "summary") (summary totals.0 totals.1 strategy_id)))

  unfoldable pub get_strategy_performance : Request → ℤ → Program L (Response L)
  get_strategy_performance req strategy_id = handler (do
    results ← send_query (strategy_performance_statement (parse_params req) strategy_id)
    summarised strategy_id results)
