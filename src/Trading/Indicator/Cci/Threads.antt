-- ===== src/Trading/Indicator/Cci/Threads.antt =====
-- The threads of `CCI::calculate` and the loop that they share out.
use velocity_vortex.Base.{
  ℕ, zero, suc, ◌+◌, ◌-◌, ◌*◌, ◌/◌, ◌≤◌, ◌<◌, ◌≡◌, refl, sym, ap, ◌∙◌, true, false, some, List, [],
  ◌∷◌, ◌++◌, length, length-append, drop, take, last?, leb, ltb, ◌==◌, arith, if◌then◌else◌, inl,
  inr, Bool-cases,
}
use mathlib.Core.List.{append_assoc}
use native.Mathlib.Nat.{suc-mul, mul-div-le, div-eq_of_lt, le-div_iff_mul-le}
use velocity_vortex.Trading.Double.{Double}
use velocity_vortex.Trading.Candle.{Ohlcv}
use velocity_vortex.Trading.Indicator.{returned, undefined, Indicator, single}
use velocity_vortex.Trading.Indicator.Ema.{replicate}
use velocity_vortex.Trading.Indicator.Cci
use velocity_vortex.Trading.Indicator.Cci.{
  set_at, cci_of, calculate_cci_range, run_threads, cci_values, push_values, last_value,
}

set_at_append :
    {A : Type 0} (i : ℕ) (x y : A) (xs ys : List A)
    → length xs ≡ i
    → set_at i x (xs ++ (y ∷ ys)) ≡ xs ++ (x ∷ ys)
set_at_append i x y [] ys e = rw (sym e) refl
set_at_append zero x y (z ∷ xs) ys e = absurd (omega arith)
set_at_append (suc i) x y (z ∷ xs) ys e =
    ap (λ zs. z ∷ zs) (set_at_append i x y xs ys (omega arith))

last_replicate : {A : Type 0} (n : ℕ) (x : A) → last? (replicate (suc n) x) ≡ some x
last_replicate zero x = refl
last_replicate (suc n) x = last_replicate n x

module _ {F : Double} where
  -- The indices of so many windows of `period` candles, from number `i` on.
  unfoldable pub window_values : ℕ → ℕ → ℕ → List (Ohlcv F) → List F.Carrier
  unfolding cci_of
  window_values period zero i candles = []
  window_values period (suc n) i candles =
      cci_of period (take period (drop i candles)) ∷ window_values period n (suc i) candles

  range_append :
      (period a b n i j : ℕ) (candles : List (Ohlcv F)) (values : List F.Carrier)
      → i + a + period ≤ length candles
      → n ≡ a + b
      → j ≡ i + a
      → calculate_cci_range period n i candles values
        ≡ calculate_cci_range period b j candles (calculate_cci_range period a i candles values)
  unfolding calculate_cci_range
  range_append period zero b n i j candles values h total e =
      let all : n ≡ b = omega arith in let same : j ≡ i = omega arith in rw all (rw same refl)
  range_append period (suc a) b zero i j candles values h total e = absurd (omega arith)
  range_append period (suc a) b (suc n) i j candles values h total e =
      let inside : ltb (length candles) (i + period) ≡ false = ground arith in
      rw inside
        (range_append period a b n (suc i) j candles _ (omega arith) (omega arith) (omega arith))

  threads_share :
      (period n chunk k i : ℕ) (candles : List (Ohlcv F)) (values : List F.Carrier)
      → 0 < chunk
      → i * chunk + suc k * chunk ≤ n
      → n + period ≤ length candles
      → run_threads period n chunk (suc k) i candles values
        ≡ calculate_cci_range period (n - i * chunk) (i * chunk) candles values
  unfolding run_threads
  threads_share period n chunk zero i candles values pos h inside =
      let started : leb n (i * chunk) ≡ false = ground (arith, suc-mul 0 chunk) in rw started refl
  threads_share period n chunk (suc k) i candles values pos h inside =
      let last : (suc k == 0) ≡ false = ground arith in
      let started : leb (i * chunk + chunk) (i * chunk) ≡ false = ground arith in
      let width : i * chunk + chunk - i * chunk ≡ chunk = omega arith in
      let next : suc i * chunk ≡ i * chunk + chunk = suc-mul i chunk in
      let one : suc (suc k) * chunk ≡ suc k * chunk + chunk = suc-mul (suc k) chunk in
      let first = calculate_cci_range period chunk (i * chunk) candles values in
      let later : run_threads period n chunk (suc k) (suc i) candles first
          ≡ calculate_cci_range period (n - suc i * chunk) (suc i * chunk) candles first =
        threads_share period n chunk k (suc i) candles first pos (omega arith) inside in
      rw last (rw started (rw width later))
      ∙ sym (
          range_append period chunk (n - suc i * chunk) (n - i * chunk) (i * chunk) (suc i * chunk)
            candles values (omega arith) (omega arith) (omega arith))

  range_fills :
      (period n i : ℕ) (candles : List (Ohlcv F)) (before : List F.Carrier)
      → length before ≡ i
      → i + n + period ≤ length candles
      → calculate_cci_range period n i candles (before ++ replicate n (F.of_nat 0))
        ≡ before ++ window_values period n i candles
  unfolding calculate_cci_range window_values
  range_fills period zero i candles before e h = refl
  range_fills period (suc n) i candles before e h =
      let inside : ltb (length candles) (i + period) ≡ false = ground arith in
      let x = cci_of period (take period (drop i candles)) in
      let zeros = replicate n (F.of_nat 0) in
      let here : set_at i x (before ++ (F.of_nat 0 ∷ zeros)) ≡ (before ++ (x ∷ [])) ++ zeros =
        set_at_append i x _ before zeros e ∙ sym (append_assoc before (x ∷ []) zeros) in
      rw inside (
        rw here (
          range_fills period n (suc i) candles (before ++ (x ∷ []))
            (length-append before (x ∷ []) ∙ omega (arith, e)) (omega arith)
          ∙ append_assoc before (x ∷ []) (window_values period n (suc i) candles)))

  cci_values-window_values :
      (t period : ℕ) (candles : List (Ohlcv F))
      → period ≤ length candles
      → suc t ≤ length candles - period
      → cci_values (suc t) period candles period
        ≡ window_values period (length candles - period) 0 candles
  unfolding cci_values
  cci_values-window_values t period candles enough many =
      let size = length candles - period in
      let zeros = replicate size (F.of_nat 0) in
      let chunk = size / suc t in
      let full : 0 < chunk = (le-div_iff_mul-le (omega arith)).1 (omega arith) in
      let fits : suc t * chunk ≤ size = mul-div-le size (suc t) in
      let start : 0 * chunk ≡ 0 = omega arith in
      let width : size - 0 ≡ size = omega arith in
      let shared : 0 * chunk + suc t * chunk ≤ size = omega arith in
      let inside : size + period ≤ length candles = omega arith in
      let all : calculate_cci_range period (size - 0 * chunk) (0 * chunk) candles zeros
          ≡ calculate_cci_range period size 0 candles zeros =
        rw start (rw width refl) in
      let filled : calculate_cci_range period size 0 candles zeros
          ≡ window_values period size 0 candles =
        range_fills period size 0 candles [] refl (omega arith) in
      threads_share period size chunk t 0 candles zeros full shared inside ∙ all ∙ filled

  -- With at least one thread, and at least `threads` candles more than the period of the object, `calculate`
  -- with that period returns the index of each window of `period` candles from the left, but for the
  -- last window: the parts that the threads compute are together all of them.
  pub calculate-window_values :
      (threads : ℕ) (ind : Indicator F) (candles : List (Ohlcv F))
      → 0 < threads
      → ind.period + threads ≤ length candles
      → Cci.calculate threads ind candles ind.period
        ≡ returned ind (window_values ind.period (length candles - ind.period) 0 candles)
  unfolding Cci.calculate
  calculate-window_values zero ind candles pos many = absurd (omega arith)
  calculate-window_values (suc t) ind candles pos many =
      let long : ltb (length candles) ind.period ≡ false = ground arith in
      let some_threads : (suc t == 0) ≡ false = ground arith in
      rw long (
        rw some_threads (
          ap (returned ind)
            (cci_values-window_values t ind.period candles (omega arith) (omega arith))))

  no_values :
      (n : ℕ) (ind : Indicator F)
      → F.equal (F.of_nat 0) (F.of_nat 0) ≡ true
      → push_values (replicate n (F.of_nat 0)) ind ≡ ind
  unfolding push_values
  no_values zero ind e = refl
  no_values (suc n) ind e = rw (e, push_values) (no_values n ind e)

  last_zero :
      (n : ℕ) (ind : Indicator F)
      → 0 < n
      → F.equal (F.of_nat 0) (F.of_nat 0) ≡ true
      → last_value (replicate n (F.of_nat 0)) ind ≡ returned ind (single (F.of_nat 0))
  unfolding last_value
  last_zero zero ind pos e = absurd (omega arith)
  last_zero (suc n) ind pos e =
      rw (last_replicate n (F.of_nat 0)) (rw (no_values (suc n) ind e) refl)

  idle_threads :
      (t period : ℕ) (candles : List (Ohlcv F))
      → length candles - period < suc (suc t)
      → cci_values (suc (suc t)) period candles period
        ≡ replicate (length candles - period) (F.of_nat 0)
  unfolding cci_values run_threads
  idle_threads t period candles many =
      let no_chunk : (length candles - period) / suc (suc t) ≡ 0 = div-eq_of_lt many in
      let more : (suc t == 0) ≡ false = ground arith in rw no_chunk (rw more refl)

  no_windows :
      (threads period : ℕ) (candles : List (Ohlcv F))
      → length candles - period ≡ 0
      → cci_values (suc threads) period candles period ≡ []
  unfolding cci_values run_threads
  no_windows threads period candles e =
      let no_chunk : (length candles - period) / suc threads ≡ 0 = div-eq_of_lt (omega arith) in
      rw no_chunk (
        rw e (elim (Bool-cases (threads == 0)) [ inl one ↦ rw one refl | inr more ↦ rw more refl ]))

  -- With `extra` candles more than the period and more than `extra` threads, `calculateSignal` computes no
  -- index, whatever the candles. With an `extra` of 0 it takes the back of an empty vector, which is not
  -- defined; else it returns 0 and keeps no signal. (The number 0 is equal to itself.)
  pub calculate_signal-too_many_threads :
      (threads extra : ℕ) (ind : Indicator F)
      → F.equal (F.of_nat 0) (F.of_nat 0) ≡ true
      → length ind.historical_data ≡ ind.period + extra
      → extra < threads
      → Cci.calculate_signal threads ind
        ≡ (if extra == 0 then undefined else returned ind (single (F.of_nat 0)))
  unfolding Cci.calculate_signal last_value
  calculate_signal-too_many_threads zero extra ind e size many = absurd (omega arith)
  calculate_signal-too_many_threads (suc t) zero ind e size many =
      let long : ltb (length ind.historical_data) ind.period ≡ false = ground arith in
      let some_threads : (suc t == 0) ≡ false = ground arith in
      rw long
        (rw some_threads (rw (no_windows t ind.period ind.historical_data (omega arith)) refl))
  calculate_signal-too_many_threads (suc zero) (suc extra) ind e size many = absurd (omega arith)
  calculate_signal-too_many_threads (suc (suc t)) (suc extra) ind e size many =
      let width : length ind.historical_data - ind.period ≡ suc extra = omega arith in
      let long : ltb (length ind.historical_data) ind.period ≡ false = ground arith in
      let some_threads : (suc (suc t) == 0) ≡ false = ground arith in
      let several : (suc extra == 0) ≡ false = ground arith in
      rw long (
        rw some_threads (
          rw several (
            rw (idle_threads t ind.period ind.historical_data (omega arith))
              (last_zero (length ind.historical_data - ind.period) ind (omega arith) e))))
