-- ===== src/Trading/Indicator/Ma.antt =====
-- `MA`, Computing-Server/src/AlgoEngine-Core/indicators/MA.cpp.
use velocity_vortex.Base.{
  ℕ, ◌-◌, List, [], ◌∷◌, foldl, length, drop, take, ltb, ◌==◌, if◌then◌else◌,
}
use velocity_vortex.Trading.Double.{Double}
use velocity_vortex.Trading.Candle.{Ohlcv}
use velocity_vortex.Trading.Indicator.{
  Call, returned, thrown, Indicator, SignalResult, single, push_signal,
}

module _ {F : Double} where
  unfoldable pub calculate_signal : Indicator F → Call (Indicator F) (SignalResult F)
  calculate_signal ind =
      let size = length ind.historical_data in
      let sum =
        foldl (λ accumulator d. F.add accumulator d.close) (F.of_nat 0)
          (drop (size - ind.period) ind.historical_data) in
      let ma = single (F.div sum (F.of_nat ind.period)) in
      if ltb size ind.period then thrown ind else returned (push_signal ma ind) ma

  -- The inner loop of `calculate`, which goes from the last candle of the window to the first.
  unfoldable pub backward_sum : List (Ohlcv F) → F.Carrier
  backward_sum [] = F.of_nat 0
  backward_sum (c ∷ cs) = F.add (backward_sum cs) c.close

  unfoldable pub backward_averages : ℕ → List (Ohlcv F) → List F.Carrier
  unfolding backward_sum
  backward_averages period [] = []
  backward_averages period (c ∷ cs) =
      let later = backward_averages period cs in
      if ltb (length (c ∷ cs)) period
      then []
      else F.div (backward_sum (take period (c ∷ cs))) (F.of_nat period) ∷ later

  -- For the period 0 the loop, from period - 1 on, does not start.
  unfoldable pub calculate : List (Ohlcv F) → ℕ → List F.Carrier
  unfolding backward_averages
  calculate candles period =
      if ltb (length candles) period
      then []
      else if period == 0
      then []
      else backward_averages period candles
