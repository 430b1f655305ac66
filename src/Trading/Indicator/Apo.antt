-- ===== src/Trading/Indicator/Apo.antt =====
-- `APO`, Computing-Server/src/AlgoEngine-Core/indicators/APO.cpp.
use velocity_vortex.Base.{
  ℕ, zero, suc, ◌+◌, ◌-◌, ◌||◌, Option, none, some, List, [], ◌∷◌, foldl, length, drop, last?, ltb,
  if◌then◌else◌,
}
use velocity_vortex.Trading.Double.{Double}
use velocity_vortex.Trading.Candle.{Ohlcv}
use velocity_vortex.Trading.Indicator.{
  Call, returned, thrown, undefined, Indicator, SignalResult, single, push_signal,
}

module _ (F : Double) where
  pub record Apo : Type 0 where
    pub indicator : Indicator F
    pub long_period : ℕ

abbrev pub larger : ℕ → ℕ → ℕ
larger a b = if ltb a b then b else a

-- From the index before the longer period on; for the periods 0 the index is past the end.
unfoldable pub from_index : {A : Type 0} → ℕ → List A → List A
from_index zero values = []
from_index (suc i) values = drop i values

module _ (F : Double) where
  abbrev pub multiplier : ℕ → F.Carrier
  multiplier period = F.div (F.of_nat 2) (F.of_nat (period + 1))

  unfoldable pub differences : List F.Carrier → List F.Carrier → List F.Carrier
  differences [] ys = []
  differences (x ∷ xs) [] = []
  differences (x ∷ xs) (y ∷ ys) = F.sub x y ∷ differences xs ys

module _ {F : Double} where
  abbrev pub next_ema : F.Carrier → F.Carrier → Ohlcv F → F.Carrier
  next_ema m ema c = F.add (F.mul (F.sub c.close ema) m) ema

  -- The average over the last candles; it starts with the close of the last one.
  unfoldable pub latest_ema : ℕ → F.Carrier → List (Ohlcv F) → F.Carrier
  latest_ema period close candles =
      foldl (next_ema (multiplier F period)) close (drop (length candles - period) candles)

  unfoldable pub calculate_signal : Apo F → Call (Apo F) (SignalResult F)
  unfolding latest_ema
  calculate_signal apo =
      let candles = apo.indicator.historical_data in
      let period = apo.indicator.period in
      let with_close : Option (Ohlcv F) → Call (Apo F) (SignalResult F) = λ c. elim c [
        | none ↦ undefined
        | some d ↦
            let value = single (
              F.sub (latest_ema period d.close candles)
                (latest_ema apo.long_period d.close candles)) in
            returned (record apo { indicator = push_signal value apo.indicator }) value
      ] in
      if ltb (length candles) period || ltb (length candles) apo.long_period
      then thrown apo
      else with_close (last? candles)

  -- The averages of the candles after the first.
  unfoldable pub ema_from : F.Carrier → F.Carrier → List (Ohlcv F) → List F.Carrier
  ema_from m ema [] = []
  ema_from m ema (c ∷ cs) = let next = next_ema m ema c in next ∷ ema_from m next cs

  -- `undefined`: the first of no averages is written.
  unfoldable pub calculate : List (Ohlcv F) → ℕ → ℕ → Call (Unit {0}) (List F.Carrier)
  unfolding ema_from differences from_index
  calculate [] short_period long_period =
      if ltb 0 (larger short_period long_period) then thrown tt else undefined
  calculate (c ∷ cs) short_period long_period =
      let short_ema = c.close ∷ ema_from (multiplier F short_period) c.close cs in
      let long_ema = c.close ∷ ema_from (multiplier F long_period) c.close cs in
      if ltb (length (c ∷ cs)) (larger short_period long_period)
      then thrown tt
      else returned tt
          (from_index (larger short_period long_period) (differences F short_ema long_ema))
