-- ===== src/Trading/Indicator/Cci.antt =====
-- `CCI`, Computing-Server/src/AlgoEngine-Core/indicators/CCI.cpp. The threads of std::async write to places
-- of their own, so that their order does not matter; they are run one after the other.
pub mod Threads
use velocity_vortex.Base.{
  ℕ, zero, suc, ◌+◌, ◌-◌, ◌*◌, ◌/◌, Option, none, some, List, [], ◌∷◌, ◌++◌, length, drop, take,
  last?, leb, ltb, ◌==◌, if◌then◌else◌,
}
use velocity_vortex.Trading.Double.{Double}
use velocity_vortex.Trading.Candle.{Ohlcv}
use velocity_vortex.Trading.Indicator.{
  Call, returned, thrown, undefined, Indicator, SignalResult, single, push_signal,
}
use velocity_vortex.Trading.Indicator.Ema.{replicate}

abbrev pub set_at {ℓ} : {A : Type ℓ} → ℕ → A → List A → List A
set_at i x [] = []
set_at zero x (y ∷ ys) = x ∷ ys
set_at (suc i) x (y ∷ ys) = y ∷ set_at i x ys

module _ {F : Double} where
  abbrev pub typical_price : Ohlcv F → F.Carrier
  typical_price c = F.div (F.add (F.add c.high c.low) c.close) (F.of_nat 3)

  -- The sums of the typical prices and of the deviations, after the first candle.
  unfoldable pub deviations : List (Ohlcv F) → F.Carrier × F.Carrier → F.Carrier × F.Carrier
  deviations [] sums = sums
  deviations (c ∷ cs) (price, deviation) =
      deviations cs
        (F.add price (typical_price c), F.add deviation (F.abs (F.sub (typical_price c) deviation)))

  abbrev pub window_deviations : List (Ohlcv F) → F.Carrier × F.Carrier
  unfolding deviations
  window_deviations [] = (F.of_nat 0, F.of_nat 0)
  window_deviations (c ∷ cs) = deviations cs (F.add (F.of_nat 0) (typical_price c), typical_price c)

  -- The index of a window.
  unfoldable pub cci_of : ℕ → List (Ohlcv F) → F.Carrier
  unfolding deviations
  cci_of period window =
      let price = F.div (window_deviations window).0 (F.of_nat period) in
      let deviation = F.div (window_deviations window).1 (F.of_nat period) in
      if F.equal deviation (F.of_nat 0)
      then F.of_nat 0
      else F.div (F.sub price deviation) (F.mul (F.decimal 15 3) deviation)

  -- `calculateCCIRange` for so many rounds from `i` on. It returns at a window that is not in the data.
  unfoldable pub calculate_cci_range : ℕ → ℕ → ℕ → List (Ohlcv F) → List F.Carrier → List F.Carrier
  unfolding cci_of
  calculate_cci_range period zero i candles values = values
  calculate_cci_range period (suc n) i candles values =
      let later =
        calculate_cci_range period n (suc i) candles
          (set_at i (cci_of period (take period (drop i candles))) values) in
      if ltb (length candles) (i + period) then values else later

  -- The loop that starts the threads, from number `i` on with `k` to go; `size` values are to be computed,
  -- `chunk` by each but the last.
  unfoldable pub run_threads : ℕ → ℕ → ℕ → ℕ → ℕ → List (Ohlcv F) → List F.Carrier → List F.Carrier
  unfolding calculate_cci_range
  run_threads period size chunk zero i candles values = values
  run_threads period size chunk (suc k) i candles values =
      let start = i * chunk in
      let end = if k == 0 then size else start + chunk in
      let later =
        run_threads period size chunk k (suc i) candles
          (calculate_cci_range period (end - start) start candles values) in
      if leb end start then values else later

  -- `threads` is what `std::thread::hardware_concurrency` gives; the member's period and the argument.
  unfoldable pub cci_values : ℕ → ℕ → List (Ohlcv F) → ℕ → List F.Carrier
  unfolding run_threads
  cci_values threads period candles period' =
      let size = length candles - period' in
      run_threads period size (size / threads) threads 0 candles (replicate size (F.of_nat 0))

  -- Without a thread the code divides by 0.
  unfoldable pub calculate :
      ℕ → Indicator F → List (Ohlcv F) → ℕ → Call (Indicator F) (List F.Carrier)
  unfolding cci_values
  calculate threads ind candles period =
      if ltb (length candles) period
      then thrown ind
      else if threads == 0
      then undefined
      else returned ind (cci_values threads ind.period candles period)

  -- The values other than 0 become signals.
  unfoldable pub push_values : List F.Carrier → Indicator F → Indicator F
  push_values [] ind = ind
  push_values (x ∷ xs) ind =
      push_values xs (if F.equal x (F.of_nat 0) then ind else push_signal (single x) ind)

  -- The back of no values is not defined.
  unfoldable pub last_value : List F.Carrier → Indicator F → Call (Indicator F) (SignalResult F)
  unfolding push_values
  last_value values ind = elim (last? values) [
    | none ↦ undefined
    | some x ↦ returned (push_values values ind) (single x)
  ]

  unfoldable pub calculate_signal : ℕ → Indicator F → Call (Indicator F) (SignalResult F)
  unfolding cci_values last_value
  calculate_signal threads ind =
      if ltb (length ind.historical_data) ind.period
      then thrown ind
      else if threads == 0
      then undefined
      else last_value (cci_values threads ind.period ind.historical_data ind.period) ind
