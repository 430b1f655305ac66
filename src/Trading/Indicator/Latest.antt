-- ===== src/Trading/Indicator/Latest.antt =====
-- `MA::calculateSignal`, `SMA::calculateSignal` and `SMA::calculate`
-- (Computing-Server/src/AlgoEngine-Core/indicators/SMA.cpp) on the same candles.
use velocity_vortex.Base.{
  ℕ, suc, ◌-◌, ◌≤◌, ◌<◌, ◌≡◌, refl, ap, inl, inr, false, some, List, [], ◌∷◌, length, drop, take,
  last?, foldl, ltb, ◌==◌, arith, Bool-cases,
}
use velocity_vortex.Trading.Double.{Double}
use velocity_vortex.Trading.Candle.{Ohlcv}
use velocity_vortex.Trading.Indicator.{returned, Indicator, single, push_signal}
use velocity_vortex.Trading.Indicator.Ma
use velocity_vortex.Trading.Indicator.Sma
use velocity_vortex.Trading.Indicator.Sma.{parallel_threshold, window_sum, window_averages}

take-length : {A : Type 0} (xs : List A) → take (length xs) xs ≡ xs
take-length [] = refl
take-length (x ∷ xs) = ap (λ ys. x ∷ ys) (take-length xs)

last?-cons :
    {A : Type 0} {v : A} (x : A) (xs : List A) → last? xs ≡ some v → last? (x ∷ xs) ≡ some v
last?-cons x [] e = cc
last?-cons x (y ∷ ys) e = e

whole_window :
    {A : Type 0} (n : ℕ) (xs : List A) → n ≡ length xs → take n xs ≡ drop (length xs - n) xs
whole_window n xs e =
    let none_left : length xs - length xs ≡ 0 = omega arith in rw e (rw none_left (take-length xs))

module _ {F : Double} where
  abbrev average : ℕ → List (Ohlcv F) → F.Carrier
  average period window =
      F.div (foldl (λ sum d. F.add sum d.close) (F.of_nat 0) window) (F.of_nat period)

  short_averages :
      (number size period : ℕ) (cs : List (Ohlcv F))
      → length cs < period
      → window_averages number size period cs ≡ []
  unfolding window_averages
  short_averages number size period [] h = refl
  short_averages number size period (c ∷ cs) h = ground arith

  last_average :
      (number size period : ℕ) (cs : List (Ohlcv F))
      → ltb parallel_threshold size ≡ false
      → 0 < period
      → period ≤ length cs
      → last? (window_averages number size period cs)
        ≡ some (average period (drop (length cs - period) cs))
  unfolding window_averages window_sum
  last_average number size period [] few pos h = absurd (omega arith)
  last_average number size period (c ∷ cs) few pos h =
      let long : ltb (suc (length cs)) period ≡ false = ground arith in
      elim (Bool-cases (ltb (length cs) period)) [
        | inl small ↦
            let all : period ≡ suc (length cs) = ground arith in
            rw long (
              rw (short_averages (suc number) size period cs (ground arith))
                (rw few (ap (λ w. some (average period w)) (whole_window period (c ∷ cs) all))))
        | inr large ↦
            let one_less : suc (length cs) - period ≡ suc (length cs - period) = ground arith in
            rw long (
              rw one_less (
                last?-cons _ (window_averages (suc number) size period cs)
                  (last_average (suc number) size period cs few pos (ground arith))))
      ]

  -- For a period of at least 1, an SMA object that has as many candles as its period, and at most 1000 of
  -- them, returns the last of the averages that the static function computes of the same candles and the
  -- same period, and keeps it as a signal.
  pub sma_latest :
      (ind : Indicator F)
      → 0 < ind.period
      → ind.period ≤ length ind.historical_data
      → length ind.historical_data ≤ parallel_threshold
      → (v : F.Carrier) × (vs : List F.Carrier) × (Sma.calculate_signal ind
          ≡ returned (push_signal (single v) ind) (single v))
        × (Sma.calculate ind.historical_data ind.period ≡ some vs)
        × (last? vs ≡ some v)
  unfolding Sma.calculate_signal Sma.calculate window_sum
  sma_latest ind pos enough few =
      let size = length ind.historical_data in
      let sequential : ltb parallel_threshold size ≡ false = ground arith in
      let long : ltb size ind.period ≡ false = ground arith in
      let positive : (ind.period == 0) ≡ false = ground arith in
      (
        average ind.period (drop (size - ind.period) ind.historical_data),
        window_averages 0 size ind.period ind.historical_data,
        rw long (rw sequential refl),
        rw long (rw positive refl),
        last_average 0 size ind.period ind.historical_data sequential pos enough,
      )

  -- On at most 1000 candles, MA and SMA objects do the same: both throw, or both return and keep the same
  -- average.
  pub ma-sma :
      (ind : Indicator F)
      → length ind.historical_data ≤ parallel_threshold
      → Ma.calculate_signal ind ≡ Sma.calculate_signal ind
  unfolding Ma.calculate_signal Sma.calculate_signal window_sum
  ma-sma ind few =
      let sequential : ltb parallel_threshold (length ind.historical_data) ≡ false = ground arith in
      rw sequential refl
