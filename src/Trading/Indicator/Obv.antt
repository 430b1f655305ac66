-- ===== src/Trading/Indicator/Obv.antt =====
-- `OBV`, Computing-Server/src/AlgoEngine-Core/indicators/OBV.cpp.
use velocity_vortex.Base.{List, [], ◌∷◌, if◌then◌else◌}
use velocity_vortex.Trading.Double.{Double}
use velocity_vortex.Trading.Candle.{Ohlcv}
use velocity_vortex.Trading.Indicator.{
  Call, returned, thrown, Indicator, SignalResult, vector, push_signal,
}

module _ {F : Double} where
  -- The volume after one more candle.
  unfoldable pub next_volume : Ohlcv F → Ohlcv F → F.Carrier → F.Carrier
  next_volume before c obv =
      if F.less before.close c.close
      then F.add obv c.volume
      else if F.less c.close before.close
      then F.sub obv c.volume
      else obv

  -- The loop over all candles but the first.
  unfoldable pub volumes : Ohlcv F → List (Ohlcv F) → F.Carrier → List F.Carrier
  unfolding next_volume
  volumes before [] obv = []
  volumes before (c ∷ cs) obv = let next = next_volume before c obv in next ∷ volumes c cs next

  unfoldable pub calculate : List (Ohlcv F) → List F.Carrier
  unfolding volumes
  calculate [] = []
  calculate (c ∷ cs) = volumes c cs (F.of_nat 0)

  unfoldable pub calculate_signal : Indicator F → Call (Indicator F) (SignalResult F)
  unfolding calculate
  calculate_signal ind =
      let values = vector (calculate ind.historical_data) in
      elim ind.historical_data [
        | [] ↦ thrown ind
        | _ ∷ _ ↦ returned (push_signal values ind) values
      ]
