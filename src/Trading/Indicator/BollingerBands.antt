-- ===== src/Trading/Indicator/BollingerBands.antt =====
-- `BollingerBands`, Computing-Server/src/AlgoEngine-Core/indicators/BollingerBands.cpp.
use velocity_vortex.Base.{ℕ, List, ◌-◌, Option, none, some, foldl, length, drop, ltb, if◌then◌else◌}
use velocity_vortex.Trading.Double.{Double}
use velocity_vortex.Trading.Indicator.{
  Call, returned, thrown, Indicator, SignalResult, single, push_signal,
}

module _ (F : Double) where
  pub record BollingerBands : Type 0 where
    pub indicator : Indicator F
    pub num_std_dev : F.Carrier

module _ (F : Double) where
  -- The static function, on prices.
  unfoldable pub calculate_bands : List F.Carrier → ℕ → F.Carrier → Option (F.Carrier × F.Carrier)
  calculate_bands prices period num_std_dev =
      let window = drop (length prices - period) prices in
      let n = F.of_nat period in
      let sum = foldl F.add (F.of_nat 0) window in
      let sq_sum = foldl (λ acc price. F.add acc (F.mul price price)) (F.of_nat 0) window in
      let mean = F.div sum n in
      let variance = F.sub (F.div sq_sum n) (F.mul mean mean) in
      let width = F.mul num_std_dev (F.sqrt variance) in
      if ltb (length prices) period then none else some (F.add mean width, F.sub mean width)

module _ {F : Double} where
  -- The upper band, then the lower. `none`: it throws.
  unfoldable pub calculate : BollingerBands F → Option (F.Carrier × F.Carrier)
  calculate bb =
      let candles = bb.indicator.historical_data in
      let window = drop (length candles - bb.indicator.period) candles in
      let n = F.of_nat bb.indicator.period in
      let sum = foldl (λ acc d. F.add acc d.close) (F.of_nat 0) window in
      let sq_sum = foldl (λ acc d. F.add acc (F.mul d.close d.close)) (F.of_nat 0) window in
      let mean = F.div sum n in
      let variance = F.sub (F.div sq_sum n) (F.mul mean mean) in
      let width = F.mul bb.num_std_dev (F.sqrt variance) in
      if ltb (length candles) bb.indicator.period
      then none
      else some (F.add mean width, F.sub mean width)

  -- Both bands become signals; the result is 0.
  unfoldable pub calculate_signal : BollingerBands F → Call (BollingerBands F) (SignalResult F)
  unfolding calculate
  calculate_signal bb = elim (calculate bb) [
    | none ↦ thrown bb
    | some (upper, lower) ↦
        returned
          (record bb {
            indicator = push_signal (single lower) (push_signal (single upper) bb.indicator);
          })
          (single (F.of_nat 0))
  ]
