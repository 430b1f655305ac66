-- ===== src/Trading/Indicator/Adx.antt =====
-- `ADX`, Computing-Server/src/AlgoEngine-Core/indicators/ADX.cpp.
use velocity_vortex.Base.{ℕ, ◌&&◌, List, [], ◌∷◌, length, ltb, if◌then◌else◌}
use velocity_vortex.Trading.Double.{Double, max_of}
use velocity_vortex.Trading.Candle.{Ohlcv}
use velocity_vortex.Trading.Indicator.{
  Call, returned, thrown, Indicator, SignalResult, single, push_signal,
}

-- The sums of the loop.
module _ (F : Double) where
  pub record Movement : Type 0 where
    pub plus : F.Carrier
    pub minus : F.Carrier
    pub range : F.Carrier

module _ {F : Double} where
  -- `std::max({tr1, tr2, tr3})` of a candle and the one before it.
  abbrev pub true_range : Ohlcv F → Ohlcv F → F.Carrier
  true_range before c =
      max_of F (max_of F (F.sub c.high c.low) (F.abs (F.sub c.high before.close)))
        (F.abs (F.sub c.low before.close))

  -- The loop over all candles but the first.
  unfoldable pub movement : Ohlcv F → List (Ohlcv F) → Movement F → Movement F
  movement before [] m = m
  movement before (c ∷ cs) m =
      let high_diff = F.sub c.high before.high in
      let low_diff = F.sub before.low c.low in
      let nothing = F.of_nat 0 in
      movement c cs (record {
        plus =
            F.add m.plus (
              if F.less low_diff high_diff && F.less nothing high_diff then high_diff else nothing);
        minus = F.add m.minus (
            if F.less high_diff low_diff && F.less nothing low_diff
            then F.neg low_diff
            else nothing);
        range = F.add m.range (true_range before c);
      })

  abbrev pub no_movement : Movement F
  no_movement = record { plus = F.of_nat 0; minus = F.of_nat 0; range = F.of_nat 0 }

  abbrev pub all_movement : List (Ohlcv F) → Movement F
  unfolding movement
  all_movement [] = no_movement
  all_movement (c ∷ cs) = movement c cs no_movement

  unfoldable pub adx_of : List (Ohlcv F) → ℕ → F.Carrier
  unfolding movement
  adx_of candles period =
      let m = all_movement candles in
      let n = F.of_nat period in
      let hundred = F.of_nat 100 in
      let plus_di = F.mul (F.div (F.div m.plus n) (F.div m.range n)) hundred in
      let minus_di = F.mul (F.div (F.div m.minus n) (F.div m.range n)) hundred in
      let both = F.add plus_di minus_di in
      if F.equal both (F.of_nat 0)
      then F.of_nat 0
      else F.mul (F.abs (F.div (F.sub plus_di minus_di) both)) hundred

  unfoldable pub calculate_signal : Indicator F → Call (Indicator F) (SignalResult F)
  unfolding adx_of
  calculate_signal ind =
      let adx = single (adx_of ind.historical_data ind.period) in
      if ltb (length ind.historical_data) ind.period
      then thrown ind
      else returned (push_signal adx ind) adx

  unfoldable pub calculate : List (Ohlcv F) → ℕ → List F.Carrier
  unfolding adx_of
  calculate candles period = if ltb (length candles) period then [] else adx_of candles period ∷ []
