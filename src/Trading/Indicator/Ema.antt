-- ===== src/Trading/Indicator/Ema.antt =====
-- `EMA`, Computing-Server/src/AlgoEngine-Core/indicators/EMA.cpp.
use velocity_vortex.Base.{
  ℕ, zero, suc, ◌+◌, Option, none, some, List, [], ◌∷◌, ◌++◌, foldl, length, drop, take, last?, ltb,
  if◌then◌else◌,
}
use velocity_vortex.Trading.Double.{Double}
use velocity_vortex.Trading.Candle.{Ohlcv}
use velocity_vortex.Trading.Indicator.{
  Call, returned, thrown, undefined, Indicator, SignalResult, single, vector, push_signal,
}

abbrev pub replicate {ℓ} : {A : Type ℓ} → ℕ → A → List A
replicate zero x = []
replicate (suc n) x = x ∷ replicate n x

module _ {F : Double} where
  -- The loop from `i = period` on: each average from the one before it.
  unfoldable pub averages : F.Carrier → F.Carrier → List (Ohlcv F) → List F.Carrier
  averages multiplier ema [] = []
  averages multiplier ema (c ∷ cs) =
      let next = F.add (F.mul (F.sub c.close ema) multiplier) ema in
      next ∷ averages multiplier next cs

  -- The vector `ema`, for some candles. `none`: it is written or read out of its range, at period - 1.
  unfoldable pub ema_vector : List (Ohlcv F) → ℕ → Option (List F.Carrier)
  unfolding averages
  ema_vector candles zero = none
  ema_vector candles (suc p) =
      let multiplier = F.div (F.of_nat 2) (F.of_nat (suc p + 1)) in
      let sum = foldl (λ s d. F.add s d.close) (F.of_nat 0) (take (suc p) candles) in
      let first = F.div sum (F.of_nat (suc p)) in
      if ltb (length candles) (suc p)
      then none
      else some
          (replicate p (F.of_nat 0) ++ (first ∷ averages multiplier first (drop (suc p) candles)))

  -- The signals get the whole vector, the caller its back.
  unfoldable pub signal_of :
      Option (List F.Carrier) → Indicator F → Call (Indicator F) (SignalResult F)
  signal_of none ind = undefined
  signal_of (some ema) ind = elim (last? ema) [
    | none ↦ undefined
    | some x ↦ returned (push_signal (vector ema) ind) (single x)
  ]

  unfoldable pub calculate_signal : Indicator F → Call (Indicator F) (SignalResult F)
  unfolding ema_vector signal_of
  calculate_signal ind = elim ind.historical_data [
    | [] ↦ thrown ind
    | _ ∷ _ ↦ signal_of (ema_vector ind.historical_data ind.period) ind
  ]

  unfoldable pub calculate : List (Ohlcv F) → ℕ → Option (List F.Carrier)
  unfolding ema_vector
  calculate [] period = some []
  calculate (c ∷ cs) period = ema_vector (c ∷ cs) period
