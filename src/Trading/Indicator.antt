-- ===== src/Trading/Indicator.antt =====
-- `Indicator` (Computing-Server/include/AlgoEngine-Core/indicator/Indicator.hpp) and `SignalResult`
-- (include/Utilities/SignalResult.hpp), and what a call of an indicator comes to.
pub mod Sma
pub mod Ema
pub mod Vwap
pub mod Rsi
pub mod Adx
pub mod Atr
pub mod BollingerBands
pub mod StochasticOscillator
pub mod Ma
pub mod Cci
pub mod Mfi
pub mod Apo
pub mod Ratios
pub mod FibonacciLevels
pub mod Obv
pub mod Latest
use velocity_vortex.Base.{ℕ, Option, none, some, List, [], ◌∷◌, ◌++◌}
use velocity_vortex.Trading.Double.{Double}
use velocity_vortex.Trading.Candle.{Ohlcv}

-- A call that returns or throws leaves the object in a state. `undefined`: it wrote out of a vector's
-- range, or took the back of an empty one.
pub data Call (S A : Type 0) : Type 0 where
  returned : S → A → Call S A
  thrown : S → Call S A
  undefined : Call S A

module _ (F : Double) where
  pub data SignalResult : Type 0 where
    single : F.Carrier → SignalResult
    vector : List F.Carrier → SignalResult

  pub record Indicator : Type 0 where
    pub historical_data : List (Ohlcv F)
    pub signals : List SignalResult
    pub period : ℕ

module _ {F : Double} where
  -- `none`: std::bad_variant_access is thrown.
  unfoldable pub get_single_value : SignalResult F → Option F.Carrier
  get_single_value (single x) = some x
  get_single_value (vector xs) = none

  abbrev pub new_indicator : ℕ → Indicator F
  new_indicator period = record { historical_data = []; signals = []; period = period }

  unfoldable pub add_data : Ohlcv F → Indicator F → Indicator F
  add_data c ind = record ind { historical_data = ind.historical_data ++ (c ∷ []) }

  abbrev pub push_signal : SignalResult F → Indicator F → Indicator F
  push_signal s ind = record ind { signals = ind.signals ++ (s ∷ []) }

  unfoldable pub reset : Indicator F → Indicator F
  reset ind = record ind { historical_data = []; signals = [] }

  -- The loop of `backtest`, for any indicator's calculateSignal.
  unfoldable pub backtest_from :
      (Indicator F → Call (Indicator F) (SignalResult F))
      → List (Ohlcv F)
      → Indicator F
      → Call (Indicator F) (Unit {0})
  unfolding add_data
  backtest_from calculate_signal [] ind = returned ind tt
  backtest_from calculate_signal (c ∷ cs) ind = elim (calculate_signal (add_data c ind)) [
    | returned ind' s ↦ backtest_from calculate_signal cs (push_signal s ind')
    | thrown ind' ↦ thrown ind'
    | undefined ↦ undefined
  ]

  unfoldable pub backtest :
      (Indicator F → Call (Indicator F) (SignalResult F))
      → List (Ohlcv F)
      → Indicator F
      → Call (Indicator F) (Unit {0})
  unfolding backtest_from reset
  backtest calculate_signal prices ind = backtest_from calculate_signal prices (reset ind)
