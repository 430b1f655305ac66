-- ===== src/IoServer/Router/Market.antt =====
-- The endpoints for symbols and candles of IO-Server/src/api_router.cpp.
use velocity_vortex.Base.{not, List, [], ◌∷◌, ◌++◌, Text, codes, if◌then◌else◌}
use velocity_vortex.Base.Int.{ℤ}
use velocity_vortex.IoServer.Library.{Library}
use velocity_vortex.IoServer.Program.{Program, done, Row, bind_int, bind_text, ◌>>=◌}
use velocity_vortex.IoServer.Statement.{
  Statement, statement, extend, extend_if, paged, build_date_range_filter, build_order_by_clause,
  is_empty, ◌|>◌,
}
use velocity_vortex.IoServer.Json.{
  Response, text, with_field, response, rows_to_json, error_response, not_found_response,
}
use velocity_vortex.IoServer.Params.{Request, QueryParams, parse_params}
use velocity_vortex.IoServer.Router.Ask.{
  int_column, first_row, send_query, row_response, rows_response, handler, with_symbol,
  symbol_query,
}

module _ {L : Library} where
  abbrev symbols_statement : QueryParams → Statement L
  symbols_statement params =
      statement (codes "SELECT * FROM symbols WHERE 1=1") []
      |> extend_if (not (is_empty params.symbol)) (codes " AND ticker LIKE ?")
          (bind_text (codes "%" ++ (params.symbol ++ codes "%")))
      |> extend (codes " ORDER BY ticker ASC") []
      |> paged params.limit params.offset

  unfoldable pub get_symbols : Request → Program L (Response L)
  get_symbols req =
      handler
        (do results ← send_query (symbols_statement (parse_params req)); rows_response results)

  unfoldable pub get_symbol : Request → Text → Program L (Response L)
  get_symbol req ticker = handler (do
    results ←
        send_query
          (statement (codes "SELECT * FROM symbols WHERE ticker = ?") (bind_text ticker ∷ []))
    first_row (done (not_found_response (codes "Symbol " ++ ticker))) row_response results)

  -- The direction comes from the request and is part of the text.
  unfoldable pub ohlcv_statement : QueryParams → ℤ → Statement L
  ohlcv_statement params symbol_id =
      statement (codes "SELECT * FROM ohlcv WHERE symbol_id = ?") (bind_int symbol_id ∷ [])
      |> extend_if (not (is_empty params.timeframe)) (codes " AND timeframe = ?")
          (bind_text params.timeframe)
      |> extend (build_date_range_filter (codes "open_time") params.from_time params.to_time) []
      |> extend (build_order_by_clause (codes "open_time") params.order_dir) []
      |> paged params.limit params.offset

  -- The rows with the symbol and the timeframe that were asked for.
  unfoldable pub ohlcv_response : QueryParams → List Row → Response L
  ohlcv_response params results =
      let timeframe = if is_empty params.timeframe then codes "all" else params.timeframe in
      response 200 (
        rows_to_json results
        |> with_field (codes "symbol") (text params.symbol)
        |> with_field (codes "timeframe") (text timeframe))

  abbrev ohlcv_of : QueryParams → Row → Program L (Response L)
  ohlcv_of params symbol_row = do
    symbol_id ← int_column (codes "symbol_id") symbol_row
    results ← send_query (ohlcv_statement params symbol_id)
    done (ohlcv_response params results)

  unfoldable pub get_ohlcv : Request → Program L (Response L)
  get_ohlcv req =
      let params = parse_params req in
      let missing = done (error_response (codes "Symbol not found: " ++ params.symbol) 400) in
      handler (
        with_symbol params (do
          sym_result ← send_query (symbol_query (bind_text params.symbol))
          first_row missing (ohlcv_of params) sym_result))

  abbrev latest_statement : QueryParams → Statement L
  latest_statement params =
      statement
        (codes "\n            SELECT o.* FROM ohlcv o\n"
          ++ (codes "            JOIN symbols s ON o.symbol_id = s.symbol_id\n"
              ++ codes "            WHERE s.ticker = ?\n        "))
        (bind_text params.symbol ∷ [])
      |> extend_if (not (is_empty params.timeframe)) (codes " AND o.timeframe = ?")
          (bind_text params.timeframe)
      |> extend (codes " ORDER BY o.open_time DESC LIMIT 1") []

  unfoldable pub get_latest_ohlcv : Request → Program L (Response L)
  get_latest_ohlcv req =
      let params = parse_params req in
      let missing = done (not_found_response (codes "OHLCV data for " ++ params.symbol)) in
      handler (
        with_symbol params (do
          results ← send_query (latest_statement params)
          first_row missing row_response results))
