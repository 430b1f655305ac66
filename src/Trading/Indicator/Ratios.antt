-- ===== src/Trading/Indicator/Ratios.antt =====
-- `PERatio` and `DividendYield`, Computing-Server/src/AlgoEngine-Core/indicators/PERatio.cpp and
-- DividendYield.cpp.
use velocity_vortex.Base.{Bool, ◌||◌, none, some, List, [], ◌∷◌, ◌++◌, map, last?, if◌then◌else◌}
use velocity_vortex.Trading.Double.{Double}
use velocity_vortex.Trading.Candle.{Ohlcv}
use velocity_vortex.Trading.Indicator.{
  Call, returned, thrown, undefined, Indicator, SignalResult, single,
}

-- The indicator with its earnings per share, or its dividend per share.
module _ (F : Double) where
  pub record PeRatio : Type 0 where
    pub indicator : Indicator F
    pub eps : F.Carrier

  pub record DividendYield : Type 0 where
    pub indicator : Indicator F
    pub dps : F.Carrier

module _ (F : Double) where
  -- `x <= 0`.
  abbrev pub not_positive : F.Carrier → Bool
  not_positive x = F.less x (F.of_nat 0) || F.equal x (F.of_nat 0)

module _ {F : Double} where
  abbrev pub pe_ratios : F.Carrier → List (Ohlcv F) → List F.Carrier
  pe_ratios eps = map (λ bar. F.div bar.close eps)

  abbrev pub dividend_yields : F.Carrier → List (Ohlcv F) → List F.Carrier
  dividend_yields dps = map (λ bar. F.div dps bar.close)

  -- Each value is kept as a signal; the last signal is the result.
  unfoldable pub keep_each :
      {S : Type 0} → (Indicator F → S) → List F.Carrier → Indicator F → Call S (SignalResult F)
  keep_each put values ind =
      let signals = ind.signals ++ map single values in
      elim (last? signals) [
        | none ↦ undefined
        | some s ↦ returned (put (record ind { signals = signals })) s
      ]

  unfoldable pub pe_ratio_signal : PeRatio F → Call (PeRatio F) (SignalResult F)
  unfolding keep_each
  pe_ratio_signal pe =
      let candles = pe.indicator.historical_data in
      let kept =
        keep_each (λ ind. record pe { indicator = ind }) (pe_ratios pe.eps candles) pe.indicator in
      elim candles [ [] ↦ thrown pe | _ ∷ _ ↦ if not_positive F pe.eps then thrown pe else kept ]

  unfoldable pub calculate_pe_ratio : List (Ohlcv F) → F.Carrier → List F.Carrier
  calculate_pe_ratio candles eps = if not_positive F eps then [] else pe_ratios eps candles

  unfoldable pub dividend_yield_signal : DividendYield F → Call (DividendYield F) (SignalResult F)
  unfolding keep_each
  dividend_yield_signal dy =
      let candles = dy.indicator.historical_data in
      let kept =
        keep_each (λ ind. record dy { indicator = ind }) (dividend_yields dy.dps candles)
          dy.indicator in
      elim candles [ [] ↦ thrown dy | _ ∷ _ ↦ if not_positive F dy.dps then thrown dy else kept ]

  unfoldable pub calculate_dividend_yield : List (Ohlcv F) → F.Carrier → List F.Carrier
  calculate_dividend_yield candles dps =
      if not_positive F dps then [] else dividend_yields dps candles
