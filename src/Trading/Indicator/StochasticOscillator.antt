-- ===== src/Trading/Indicator/StochasticOscillator.antt =====
-- `StochasticOscillator`, Computing-Server/src/AlgoEngine-Core/indicators/StochasticOscillator.cpp.
use velocity_vortex.Base.{
  ℕ, ◌+◌, ◌-◌, ◌==◌, ◌||◌, Option, none, some, List, [], ◌∷◌, ◌++◌, foldl, length, drop, take,
  last?, ltb, if◌then◌else◌,
}
use velocity_vortex.Trading.Double.{Double, min_of, max_of}
use velocity_vortex.Trading.Candle.{Ohlcv, back}
use velocity_vortex.Trading.Indicator.{
  Call, returned, thrown, undefined, Indicator, SignalResult, single, push_signal,
}
use velocity_vortex.Trading.Indicator.Ema.{replicate}

-- The windows of a size, from the left, and what is made of each; there is none of the size 0.
unfoldable pub window_map : {A B : Type 0} → ℕ → (List A → B) → List A → List B
window_map size f [] = []
window_map size f (x ∷ xs) =
    let later = window_map size f xs in
    if ltb (length (x ∷ xs)) size || (size == 0) then [] else f (take size (x ∷ xs)) ∷ later

module _ (F : Double) where
  abbrev pub average : ℕ → List F.Carrier → F.Carrier
  average n xs = F.div (foldl F.add (F.of_nat 0) xs) (F.of_nat n)

  -- Each value with its average, which is 0 where there are too few values before.
  unfoldable pub pairs : List F.Carrier → List F.Carrier → List (F.Carrier × F.Carrier)
  pairs [] ds = []
  pairs (k ∷ ks) [] = (k, F.of_nat 0) ∷ pairs ks []
  pairs (k ∷ ks) (d ∷ ds) = (k, d) ∷ pairs ks ds

module _ {F : Double} where
  unfoldable pub lowest_low : F.Carrier → List (Ohlcv F) → F.Carrier
  lowest_low = foldl (λ low d. min_of F low d.low)

  unfoldable pub highest_high : F.Carrier → List (Ohlcv F) → F.Carrier
  highest_high = foldl (λ high d. max_of F high d.high)

  -- `back()` of no candles, for the period 0, is not defined.
  unfoldable pub calculate_signal : Indicator F → Call (Indicator F) (SignalResult F)
  unfolding lowest_low highest_high
  calculate_signal ind =
      let candles = ind.historical_data in
      let window = drop (length candles - ind.period) candles in
      let low = lowest_low (F.of_nat 1000000000) window in
      let high = highest_high (F.neg (F.of_nat 1000000000)) window in
      let with_close : Option (Ohlcv F) → Call (Indicator F) (SignalResult F) = λ c. elim c [
        | none ↦ undefined
        | some d ↦
            let k = single (F.mul (F.div (F.sub d.close low) (F.sub high low)) (F.of_nat 100)) in
            returned (push_signal k ind) k
      ] in
      if ltb (length candles) ind.period then thrown ind else with_close (last? candles)

  -- The value of a window, with its last close.
  unfoldable pub k_value : List (Ohlcv F) → F.Carrier
  unfolding lowest_low highest_high back
  k_value [] = F.of_nat 0
  k_value (c ∷ cs) =
      let low = lowest_low F.largest (c ∷ cs) in
      let high = highest_high (F.neg F.largest) (c ∷ cs) in
      F.mul (F.div (F.sub (back c cs).close low) (F.sub high low)) (F.of_nat 100)

  -- `none`: it throws.
  unfoldable pub calculate : List (Ohlcv F) → ℕ → ℕ → ℕ → Option (List (F.Carrier × F.Carrier))
  unfolding window_map k_value pairs
  calculate candles period smooth_k smooth_d =
      let ks = window_map smooth_k (average F smooth_k) (window_map period k_value candles) in
      let ds =
        replicate (smooth_d - 1) (F.of_nat 0) ++ window_map smooth_d (average F smooth_d) ks in
      if ltb (length candles) (period + smooth_k + smooth_d) then none else some (pairs F ks ds)
