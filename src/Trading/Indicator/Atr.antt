-- ===== src/Trading/Indicator/Atr.antt =====
-- `ATR`, Computing-Server/src/AlgoEngine-Core/indicators/ATR.cpp.
use velocity_vortex.Base.{
  ℕ, zero, suc, Option, none, some, List, [], ◌∷◌, foldl, length, drop, take, last?, ltb,
  if◌then◌else◌,
}
use velocity_vortex.Trading.Double.{Double, max_of}
use velocity_vortex.Trading.Candle.{Ohlcv}
use velocity_vortex.Trading.Indicator.{
  Call, returned, thrown, undefined, Indicator, SignalResult, single, push_signal, get_single_value,
}

module _ (F : Double) where
  pub record Atr : Type 0 where
    pub indicator : Indicator F
    pub previous_close : F.Carrier

module _ (F : Double) where
  -- The averages after the first.
  unfoldable pub next_averages : ℕ → F.Carrier → List F.Carrier → List F.Carrier
  next_averages period atr [] = []
  next_averages period atr (tr ∷ trs) =
      let n = F.of_nat period in
      let next = F.div (F.add (F.mul atr (F.sub n (F.of_nat 1))) tr) n in
      next ∷ next_averages period next trs

  -- The loop over the true ranges. `none`: the back of no averages is taken, for the period 0.
  unfoldable pub averages : ℕ → List F.Carrier → Option (List F.Carrier)
  unfolding next_averages
  averages zero [] = some []
  averages zero (tr ∷ trs) = none
  averages (suc p) trs =
      let sum = foldl F.add (F.of_nat 0) (take (suc p) trs) in
      let first = F.div sum (F.of_nat (suc p)) in
      let later = next_averages (suc p) first (drop (suc p) trs) in
      if ltb (length trs) (suc p) then some [] else some (first ∷ later)

module _ {F : Double} where
  -- The last candle but one, and the last.
  unfoldable pub last_two : List (Ohlcv F) → Option (Ohlcv F × Ohlcv F)
  last_two [] = none
  last_two (c ∷ []) = none
  last_two (c ∷ d ∷ []) = some (c, d)
  last_two (c ∷ d ∷ e ∷ es) = last_two (d ∷ e ∷ es)

  -- The average, from the last signal: by its value, if there is one.
  unfoldable pub smoothed : Option (SignalResult F) → F.Carrier → ℕ → Option F.Carrier
  unfolding get_single_value
  smoothed none tr period = some tr
  smoothed (some s) tr period = elim (get_single_value s) [
    | none ↦ none
    | some x ↦
        some (F.div (F.add (F.mul x (F.sub (F.of_nat period) (F.of_nat 1))) tr) (F.of_nat period))
  ]

  unfoldable pub calculate_signal : Atr F → Call (Atr F) (SignalResult F)
  unfolding last_two smoothed
  calculate_signal atr = elim (last_two atr.indicator.historical_data) [
    | none ↦ thrown atr
    | some (c, d) ↦
        let tr =
          max_of F (max_of F (F.sub c.high c.low) (F.abs (F.sub c.high atr.previous_close)))
            (F.abs (F.sub c.low atr.previous_close)) in
        elim (smoothed (last? atr.indicator.signals) tr atr.indicator.period) [
          | none ↦ thrown (record atr { previous_close = d.close })
          | some x ↦
              returned
                (record {
                  indicator = push_signal (single x) atr.indicator;
                  previous_close = d.close;
                })
                (single x)
        ]
  ]

  -- The true range of a candle after another one.
  unfoldable pub true_range : Ohlcv F → Ohlcv F → F.Carrier
  true_range before c =
      max_of F (max_of F (F.sub c.high c.low) (F.abs (F.sub c.high before.close)))
        (F.abs (F.sub c.low before.close))

  unfoldable pub true_ranges : List (Ohlcv F) → List F.Carrier
  unfolding true_range
  true_ranges [] = []
  true_ranges (c ∷ []) = []
  true_ranges (c ∷ d ∷ ds) = true_range c d ∷ true_ranges (d ∷ ds)

  unfoldable pub calculate : List (Ohlcv F) → ℕ → Call (Unit {0}) (List F.Carrier)
  unfolding true_ranges averages
  calculate candles period =
      let values : Call (Unit {0}) (List F.Carrier) =
        elim (averages F period (true_ranges candles)) [
          | none ↦ undefined
          | some xs ↦ returned tt xs
        ] in
      if ltb (length candles) period then thrown tt else values
