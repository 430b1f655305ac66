-- ===== src/IoServer/Calculation/Rca.antt =====
-- `RCAHandler::compute` of IO-Server/src/calculations/rca_handler.cpp: the rate of change of the close over
-- a window of candles.
use velocity_vortex.Base.{
  ℕ, zero, suc, ◌+◌, none, some, List, [], ◌∷◌, length, drop, codes, if◌then◌else◌, ltb,
}
use velocity_vortex.Base.Int.{ℤ}
use velocity_vortex.IoServer.Library.{Library}
use velocity_vortex.IoServer.Program.{Program, Row, done, ◌>>=◌}
use velocity_vortex.IoServer.Statement.{is_empty}
use velocity_vortex.IoServer.Json.{Json, Fields, fields, items, nat, int, real, text, array, object}
use velocity_vortex.IoServer.Router.Ask.{send_query}
use velocity_vortex.IoServer.Calculation.{
  CalcParams, Reals, positive_or, refused, candles_statement, read_candle,
}

module _ {L : Library} (D : Reals L) where
  abbrev pub Candle : Type 0
  Candle = ℤ × L.Real

  unfoldable pub read_candles : List Row → List Candle
  unfolding read_candle
  read_candles [] = []
  read_candles (row ∷ rows) =
      let more = read_candles rows in elim (read_candle L row) [ none ↦ more | some c ↦ c ∷ more ]

  unfoldable pub roc_point : Candle → L.Real → Json L
  roc_point candle prev = object (
      fields (
        (codes "timestamp", int candle.0)
        ∷ (codes "close", real candle.1)
        ∷ (codes "roc", real (D.mul (D.div (D.sub candle.1 prev) prev) (L.decimal 1000 1)))
        ∷ []))

  -- The loop, with the candles from `i - window` on and those from `i` on, for so many rounds.
  unfoldable pub roc_points : ℕ → List Candle → List Candle → List (Json L)
  unfolding roc_point
  roc_points zero olds news = []
  roc_points (suc n) [] news = []
  roc_points (suc n) (old ∷ olds) [] = []
  roc_points (suc n) (old ∷ olds) (candle ∷ news) =
      let more = roc_points n olds news in
      if D.is_zero old.1 then more else roc_point candle old.1 ∷ more

  unfoldable pub rca_data : ℕ → ℕ → List Candle → List (Json L)
  unfolding roc_points
  rca_data window limit candles =
      if ltb window (length candles) then roc_points limit candles (drop window candles) else []

  unfoldable pub rca_result : CalcParams → ℕ → List (Json L) → Fields L
  rca_result params window data_points = fields (
      (codes "method", text (codes "rca"))
      ∷ (codes "symbol", text params.symbol)
      ∷ (codes "timeframe", text params.timeframe)
      ∷ (codes "window", nat window)
      ∷ (codes "count", nat (length data_points))
      ∷ (codes "data", array (items data_points))
      ∷ [])

  unfoldable pub rca_fetched : CalcParams → Program L (Fields L)
  unfolding positive_or rca_data rca_result read_candles
  rca_fetched params =
      let window = positive_or 14 params.window in
      let limit = positive_or 200 params.limit in
      do
        rows ← send_query (candles_statement (codes "    ") params (limit + window) params.symbol)
        done (rca_result params window (rca_data window limit (read_candles rows)))

  unfoldable pub rca_compute : CalcParams → Program L (Fields L)
  unfolding rca_fetched
  rca_compute params =
      if is_empty params.symbol
      then refused (codes "symbol is required")
      else if is_empty params.timeframe
      then refused (codes "timeframe is required")
      else rca_fetched params
