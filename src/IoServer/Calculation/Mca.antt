-- ===== src/IoServer/Calculation/Mca.antt =====
-- `MCAHandler::compute` of IO-Server/src/calculations/mca_handler.cpp: the correlation of two tickers over a
-- rolling window.
use velocity_vortex.Base.{
  ℕ, zero, suc, ◌+◌, ◌||◌, Option, none, some, List, [], ◌∷◌, length, take, last?, Text, codes,
  if◌then◌else◌, ltb, leb,
}
use velocity_vortex.Base.Int.{ℤ, pos, ltb_ℤ}
use velocity_vortex.IoServer.Library.{Library}
use velocity_vortex.IoServer.Program.{Program, Row, done, ◌>>=◌}
use velocity_vortex.IoServer.Statement.{is_empty}
use velocity_vortex.IoServer.Json.{Json, Fields, fields, items, nat, int, real, text, array, object}
use velocity_vortex.IoServer.Router.Ask.{send_query}
use velocity_vortex.IoServer.Calculation.{
  CalcParams, Reals, positive_or, refused, candles_statement, read_candle,
}

module _ {L : Library} (D : Reals L) where
  -- `std::map<int64_t, double>`, by increasing times.
  abbrev pub Series : Type 0
  Series = List (ℤ × L.Real)

  -- `out[time] = close`.
  unfoldable pub put_close : ℤ → L.Real → Series → Series
  put_close time close [] = (time, close) ∷ []
  put_close time close ((t, c) ∷ series) =
      let later = put_close time close series in
      if ltb_ℤ time t
      then (time, close) ∷ (t, c) ∷ series
      else if ltb_ℤ t time
      then (t, c) ∷ later
      else (time, close) ∷ series

  unfoldable pub read_series : List Row → Series → Series
  unfolding read_candle put_close
  read_series [] series = series
  read_series (row ∷ rows) series =
      read_series rows
        (elim (read_candle L row) [ none ↦ series | some c ↦ put_close c.0 c.1 series ])

  unfoldable pub find_close : ℤ → Series → Option L.Real
  find_close time [] = none
  find_close time ((t, c) ∷ series) =
      let later = find_close time series in
      if ltb_ℤ time t then later else if ltb_ℤ t time then later else some c

  abbrev pub AlignedBar : Type 0
  AlignedBar = ℤ × (L.Real × L.Real)

  unfoldable pub align : Series → Series → List AlignedBar
  unfolding find_close
  align [] other = []
  align ((t, c1) ∷ series) other =
      let later = align series other in
      elim (find_close t other) [ none ↦ later | some c2 ↦ (t, (c1, c2)) ∷ later ]

  -- std::sort by the times, which differ.
  unfoldable pub insert_bar : AlignedBar → List AlignedBar → List AlignedBar
  insert_bar b [] = b ∷ []
  insert_bar b (a ∷ bars) =
      let rest = insert_bar b bars in if ltb_ℤ b.0 a.0 then b ∷ a ∷ bars else a ∷ rest

  unfoldable pub sort_bars : List AlignedBar → List AlignedBar
  unfolding insert_bar
  sort_bars [] = []
  sort_bars (b ∷ bars) = insert_bar b (sort_bars bars)

  pub record Sums : Type 0 where
    pub sx : L.Real
    pub sy : L.Real
    pub sxy : L.Real
    pub sx2 : L.Real
    pub sy2 : L.Real

  unfoldable pub sums : Sums → List AlignedBar → Sums
  sums s [] = s
  sums s ((t, (x, y)) ∷ bars) =
      sums
        (record {
          sx = L.add s.sx x;
          sy = L.add s.sy y;
          sxy = L.add s.sxy (D.mul x y);
          sx2 = L.add s.sx2 (D.mul x x);
          sy2 = L.add s.sy2 (D.mul y y);
        })
        bars

  abbrev pub no_sums : Sums
  no_sums = let z = L.decimal 0 0 in record { sx = z; sy = z; sxy = z; sx2 = z; sy2 = z }

  unfoldable pub pearson : List AlignedBar → L.Real
  unfolding sums
  pearson bars =
      let n = D.of_nat (length bars) in
      let s = sums no_sums bars in
      let denom = D.sqrt (
        D.mul (D.sub (D.mul n s.sx2) (D.mul s.sx s.sx))
          (D.sub (D.mul n s.sy2) (D.mul s.sy s.sy))) in
      if ltb (length bars) 2
      then L.decimal 0 1
      else if D.is_zero denom
      then L.decimal 0 1
      else D.div (D.sub (D.mul n s.sxy) (D.mul s.sx s.sy)) denom

  -- The time of the last bar of a window.
  abbrev pub last_time : List AlignedBar → ℤ
  last_time bars = elim (last? bars) [ none ↦ pos 0 | some b ↦ b.0 ]

  unfoldable pub correlation_point : List AlignedBar → Json L
  unfolding pearson
  correlation_point bars = object (
      fields (
        (codes "timestamp", int (last_time bars))
        ∷ (codes "correlation", real (pearson bars))
        ∷ []))

  -- The loop, with the bars from `i - window + 1` on, for at most so many outputs.
  unfoldable pub correlation_points : ℕ → ℕ → List AlignedBar → List (Json L)
  unfolding correlation_point
  correlation_points zero window bars = []
  correlation_points (suc n) window [] = []
  correlation_points (suc n) window (b ∷ bars) =
      let more = correlation_points n window bars in
      if leb window (length (b ∷ bars))
      then correlation_point (take window (b ∷ bars)) ∷ more
      else []

  unfoldable pub mca_result : CalcParams → ℕ → List (Json L) → Fields L
  mca_result params window data_points = fields (
      (codes "method", text (codes "mca"))
      ∷ (codes "symbol", text params.symbol)
      ∷ (codes "symbol2", text params.symbol2)
      ∷ (codes "timeframe", text params.timeframe)
      ∷ (codes "window", nat window)
      ∷ (codes "count", nat (length data_points))
      ∷ (codes "data", array (items data_points))
      ∷ [])

  unfoldable pub fetch_series : CalcParams → ℕ → Text → Program L Series
  unfolding read_series
  fetch_series params bound ticker = do
    rows ← send_query (candles_statement (codes "        ") params bound ticker)
    done (read_series rows [])

  unfoldable pub mca_fetched : CalcParams → Program L (Fields L)
  unfolding positive_or fetch_series align sort_bars correlation_points mca_result
  mca_fetched params =
      let window = positive_or 20 params.window in
      let limit = positive_or 200 params.limit in
      do
        map1 ← fetch_series params (limit + window) params.symbol
        map2 ← fetch_series params (limit + window) params.symbol2
        done (
            mca_result params window
              (correlation_points limit window (sort_bars (align map1 map2))))

  unfoldable pub mca_compute : CalcParams → Program L (Fields L)
  unfolding mca_fetched
  mca_compute params =
      if is_empty params.symbol || is_empty params.symbol2
      then refused (codes "symbol and symbol2 are both required")
      else if is_empty params.timeframe
      then refused (codes "timeframe is required")
      else mca_fetched params
