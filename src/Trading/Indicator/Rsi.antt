-- ===== src/Trading/Indicator/Rsi.antt =====
-- `RSI`, Computing-Server/src/AlgoEngine-Core/indicators/RSI.cpp.
use velocity_vortex.Base.{ℕ, List, [], ◌∷◌, length, ltb, if◌then◌else◌, Option, none, some, take}
use velocity_vortex.Trading.Double.{Double}
use velocity_vortex.Trading.Candle.{Ohlcv}
use velocity_vortex.Trading.Indicator.{
  Call, returned, thrown, Indicator, SignalResult, single, push_signal,
}

-- The index, from the sums of the gains and of the losses.
module _ (F : Double) where
  abbrev pub rsi_of : ℕ → F.Carrier × F.Carrier → F.Carrier
  rsi_of period sums =
      let gain = F.div sums.0 (F.of_nat period) in
      let loss = F.div sums.1 (F.of_nat period) in
      let rs = F.div gain loss in
      if F.equal loss (F.of_nat 0)
      then F.of_nat 100
      else F.sub (F.of_nat 100) (F.div (F.of_nat 100) (F.add (F.of_nat 1) rs))

module _ {F : Double} where
  -- The sums of the gains and of the losses, from a candle on.
  unfoldable pub gains_losses :
      Ohlcv F → List (Ohlcv F) → F.Carrier × F.Carrier → F.Carrier × F.Carrier
  gains_losses before [] sums = sums
  gains_losses before (c ∷ cs) (gain, loss) =
      let change = F.sub c.close before.close in
      gains_losses c cs (
        if F.less (F.of_nat 0) change then (F.add gain change, loss) else (gain, F.sub loss change))

  abbrev pub all_gains_losses : List (Ohlcv F) → F.Carrier × F.Carrier
  unfolding gains_losses
  all_gains_losses [] = (F.of_nat 0, F.of_nat 0)
  all_gains_losses (c ∷ cs) = gains_losses c cs (F.of_nat 0, F.of_nat 0)

  -- Without a loss the index is 100, and no signal is kept.
  unfoldable pub calculate_signal : Indicator F → Call (Indicator F) (SignalResult F)
  unfolding gains_losses
  calculate_signal ind =
      let sums = all_gains_losses ind.historical_data in
      let gain = F.div sums.0 (F.of_nat ind.period) in
      let loss = F.div sums.1 (F.of_nat ind.period) in
      let rs = F.div gain loss in
      let rsi = single (F.sub (F.of_nat 100) (F.div (F.of_nat 100) (F.add (F.of_nat 1) rs))) in
      if ltb (length ind.historical_data) ind.period
      then thrown ind
      else if F.equal loss (F.of_nat 0)
      then returned ind (single (F.of_nat 100))
      else returned (push_signal rsi ind) rsi

  -- The indices of the windows of `period` changes, from the left.
  unfoldable pub window_indices : ℕ → List (Ohlcv F) → List F.Carrier
  unfolding gains_losses
  window_indices period [] = []
  window_indices period (c ∷ cs) =
      let later = window_indices period cs in
      if ltb (length cs) period
      then []
      else rsi_of F period (gains_losses c (take period cs) (F.of_nat 0, F.of_nat 0)) ∷ later

  -- `none`: it throws.
  unfoldable pub calculate : List (Ohlcv F) → ℕ → Option (List F.Carrier)
  unfolding window_indices
  calculate candles period =
      if ltb (length candles) period then none else some (window_indices period candles)
