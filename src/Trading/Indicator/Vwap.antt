-- ===== src/Trading/Indicator/Vwap.antt =====
-- `VWAP`, Computing-Server/src/AlgoEngine-Core/indicators/VWAP.cpp.
use velocity_vortex.Base.{List, [], ◌∷◌, ◌++◌, map}
use velocity_vortex.Trading.Double.{Double}
use velocity_vortex.Trading.Candle.{Ohlcv}
use velocity_vortex.Trading.Indicator.{
  Call, returned, thrown, Indicator, SignalResult, single, vector,
}

module _ {F : Double} where
  -- The loop, from the cumulative volume and the cumulative price volume on.
  unfoldable pub vwap_values : F.Carrier → F.Carrier → List (Ohlcv F) → List F.Carrier
  vwap_values volume price_volume [] = []
  vwap_values volume price_volume (bar ∷ bars) =
      let volume' = F.add volume bar.volume in
      let price_volume' = F.add price_volume (F.mul bar.close bar.volume) in
      F.div price_volume' volume' ∷ vwap_values volume' price_volume' bars

  -- Each value is pushed on the signals; the result is the vector of all.
  unfoldable pub calculate_signal : Indicator F → Call (Indicator F) (SignalResult F)
  unfolding vwap_values
  calculate_signal ind =
      let values = vwap_values (F.of_nat 0) (F.of_nat 0) ind.historical_data in
      elim ind.historical_data [
        | [] ↦ thrown ind
        | _ ∷ _ ↦
            returned (record ind { signals = ind.signals ++ map single values }) (vector values)
      ]

  unfoldable pub calculate : List (Ohlcv F) → List F.Carrier
  unfolding vwap_values
  calculate candles = vwap_values (F.of_nat 0) (F.of_nat 0) candles
