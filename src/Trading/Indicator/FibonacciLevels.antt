-- ===== src/Trading/Indicator/FibonacciLevels.antt =====
-- `FibonacciRetracement`, Computing-Server/src/AlgoEngine-Core/indicators/FibonacciRetracement.cpp.
use velocity_vortex.Base.{List, [], ◌∷◌, if◌then◌else◌}
use velocity_vortex.Trading.Double.{Double}
use velocity_vortex.Trading.Candle.{Ohlcv}
use velocity_vortex.Trading.Indicator.{
  Call, returned, thrown, Indicator, SignalResult, vector, push_signal,
}

module _ (F : Double) where
  unfoldable pub levels_of : F.Carrier × F.Carrier → List F.Carrier
  levels_of (max_price, min_price) =
      let difference = F.sub max_price min_price in
      max_price
      ∷ F.sub max_price (F.mul difference (F.decimal 236 3))
      ∷ F.sub max_price (F.mul difference (F.decimal 382 3))
      ∷ F.sub max_price (F.mul difference (F.decimal 618 3))
      ∷ min_price
      ∷ []

module _ {F : Double} where
  -- The loop over the candles: the highest and the lowest price.
  unfoldable pub price_range : List (Ohlcv F) → F.Carrier × F.Carrier → F.Carrier × F.Carrier
  price_range [] prices = prices
  price_range (bar ∷ bars) (max_price, min_price) = price_range bars (
    if F.less max_price bar.high then bar.high else max_price,
    if F.less bar.low min_price then bar.low else min_price,
  )

  unfoldable pub calculate : List (Ohlcv F) → List F.Carrier
  unfolding price_range levels_of
  calculate [] = []
  calculate (c ∷ cs) = levels_of F (price_range (c ∷ cs) (c.high, c.low))

  unfoldable pub calculate_signal : Indicator F → Call (Indicator F) (SignalResult F)
  unfolding calculate
  calculate_signal ind =
      let levels = vector (calculate ind.historical_data) in
      elim ind.historical_data [
        | [] ↦ thrown ind
        | _ ∷ _ ↦ returned (push_signal levels ind) levels
      ]
