-- ===== src/Trading/Indicator/Sma.antt =====
-- `SMA`, Computing-Server/src/AlgoEngine-Core/indicators/SMA.cpp.
use velocity_vortex.Base.{
  ℕ, suc, ◌-◌, Option, none, some, List, [], ◌∷◌, map, foldl, length, drop, take, ltb, ◌==◌,
  if◌then◌else◌,
}
use velocity_vortex.Trading.Double.{Double}
use velocity_vortex.Trading.Candle.{Ohlcv}
use velocity_vortex.Trading.Indicator.{
  Call, returned, thrown, Indicator, SignalResult, single, push_signal,
}

abbrev pub parallel_threshold : ℕ
parallel_threshold = 1000

module _ {F : Double} where
  -- The sum over a window, by the number of the sum and of all candles.
  unfoldable pub window_sum : ℕ → ℕ → List (Ohlcv F) → F.Carrier
  window_sum number size window =
      if ltb parallel_threshold size
      then F.par_sum number (map (λ d. d.close) window)
      else foldl (λ sum d. F.add sum d.close) (F.of_nat 0) window

  unfoldable pub calculate_signal : Indicator F → Call (Indicator F) (SignalResult F)
  unfolding window_sum
  calculate_signal ind =
      let size = length ind.historical_data in
      let sum =
        window_sum (length ind.signals) size (drop (size - ind.period) ind.historical_data) in
      let sma = single (F.div sum (F.of_nat ind.period)) in
      if ltb size ind.period then thrown ind else returned (push_signal sma ind) sma

  -- The averages of the windows of `period` candles, from the left.
  unfoldable pub window_averages : ℕ → ℕ → ℕ → List (Ohlcv F) → List F.Carrier
  unfolding window_sum
  window_averages number size period [] = []
  window_averages number size period (c ∷ cs) =
      let later = window_averages (suc number) size period cs in
      if ltb (length (c ∷ cs)) period
      then []
      else F.div (window_sum number size (take period (c ∷ cs))) (F.of_nat period) ∷ later

  -- `none`: it throws. The loop starts at period - 1, a size_t: for the period 0 it does not start.
  unfoldable pub calculate : List (Ohlcv F) → ℕ → Option (List F.Carrier)
  unfolding window_averages
  calculate candles period =
      if ltb (length candles) period
      then none
      else if period == 0
      then some []
      else some (window_averages 0 (length candles) period candles)
