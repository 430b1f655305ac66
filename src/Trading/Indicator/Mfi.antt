-- ===== src/Trading/Indicator/Mfi.antt =====
-- `MFI`, Computing-Server/src/AlgoEngine-Core/indicators/MFI.cpp.
use velocity_vortex.Base.{
  ℕ, zero, suc, Option, none, some, List, [], ◌∷◌, length, drop, take, last?, ltb, if◌then◌else◌,
}
use velocity_vortex.Trading.Double.{Double}
use velocity_vortex.Trading.Candle.{Ohlcv, back}
use velocity_vortex.Trading.Indicator.{
  Call, returned, thrown, undefined, Indicator, SignalResult, single, vector, push_signal,
}
use velocity_vortex.Trading.Indicator.Cci.{typical_price}

module _ (F : Double) where
  -- The positive and the negative money flow.
  abbrev pub Flows : Type 0
  Flows = F.Carrier × F.Carrier

  unfoldable pub mfi_of : F.Carrier → F.Carrier → F.Carrier
  mfi_of positive negative =
      F.sub (F.of_nat 100) (F.div (F.of_nat 100) (F.add (F.of_nat 1) (F.div positive negative)))

  unfoldable pub first_mfi : Flows → F.Carrier
  unfolding mfi_of
  first_mfi (positive, negative) =
      if F.equal negative (F.of_nat 0) then F.of_nat 100 else mfi_of positive negative

module _ {F : Double} where
  -- The loop over the first period.
  unfoldable pub first_flows : Ohlcv F → List (Ohlcv F) → Flows F → Flows F
  first_flows before [] flows = flows
  first_flows before (c ∷ cs) (positive, negative) =
      let flow = F.mul (typical_price c) c.volume in
      first_flows c cs (
        if F.less (typical_price before) (typical_price c)
        then (F.add positive flow, negative)
        else if F.less (typical_price c) (typical_price before)
        then (positive, F.add negative flow)
        else (positive, negative))

  -- The flows after one more candle.
  unfoldable pub next_flows : ℕ → Ohlcv F → Ohlcv F → Flows F → Flows F
  next_flows period before c (positive, negative) =
      let flow = F.mul (typical_price c) c.volume in
      let n = F.of_nat period in
      let less_one = F.sub n (F.of_nat 1) in
      if F.less (typical_price before) (typical_price c)
      then (F.div (F.add (F.mul positive less_one) flow) n, F.div (F.mul negative less_one) n)
      else if F.less (typical_price c) (typical_price before)
      then (F.div (F.mul positive less_one) n, F.div (F.add (F.mul negative less_one) flow) n)
      else (positive, negative)

  unfoldable pub later_values : ℕ → Ohlcv F → List (Ohlcv F) → Flows F → List F.Carrier
  unfolding mfi_of next_flows
  later_values period before [] flows = []
  later_values period before (c ∷ cs) flows =
      let next = next_flows period before c flows in
      mfi_of F next.0 (F.add next.1 (F.decimal 1 10)) ∷ later_values period c cs next

  -- `none`: a candle before the first is read, for the period 0.
  unfoldable pub mfi_values : List (Ohlcv F) → ℕ → Option (List F.Carrier)
  unfolding first_flows first_mfi later_values back
  mfi_values [] period = some (first_mfi F (F.of_nat 0, F.of_nat 0) ∷ [])
  mfi_values (c ∷ cs) zero = none
  mfi_values (c ∷ cs) (suc p) =
      let flows = first_flows c (take p cs) (F.of_nat 0, F.of_nat 0) in
      some (first_mfi F flows ∷ later_values (suc p) (back c (take p cs)) (drop p cs) flows)

  -- The signals get all the values, the caller the last.
  unfoldable pub keep_values :
      Option (List F.Carrier) → Indicator F → Call (Indicator F) (SignalResult F)
  keep_values none ind = undefined
  keep_values (some values) ind = elim (last? values) [
    | none ↦ undefined
    | some x ↦ returned (push_signal (vector values) ind) (single x)
  ]

  unfoldable pub calculate_signal : Indicator F → Call (Indicator F) (SignalResult F)
  unfolding mfi_values keep_values
  calculate_signal ind =
      if ltb (length ind.historical_data) ind.period
      then thrown ind
      else keep_values (mfi_values ind.historical_data ind.period) ind

  unfoldable pub calculate : List (Ohlcv F) → ℕ → Option (List F.Carrier)
  unfolding mfi_values
  calculate candles period =
      if ltb (length candles) period then some [] else mfi_values candles period
