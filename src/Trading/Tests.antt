-- ===== src/Trading/Tests.antt =====
-- The trading modules at concrete inputs, with whole numbers for the doubles.
use velocity_vortex.Base.{
  ℕ, zero, suc, ◌+◌, ◌-◌, ◌*◌, ◌/◌, ◌^◌, ◌≡◌, refl, false, none, some, Option, List, [], ◌∷◌, foldl,
  All, last?, ltb, ◌==◌, arith,
}
use velocity_vortex.Base.Int.{pos}
use velocity_vortex.Trading.Double.{Double}
use velocity_vortex.Trading.Candle.{Ohlcv, Bar, build_aggregated_candle}
use velocity_vortex.Trading.Bounds.{IsOrdered, aggregated_candle_bounds}
use velocity_vortex.Trading.Indicator.{returned, Indicator, single, push_signal, add_data}
use velocity_vortex.Trading.Indicator.Sma
use velocity_vortex.Trading.Indicator.Latest.{sma_latest}
use velocity_vortex.Trading.Bot.{buy_order, Bot, Round, no_bar, failed, latest_bar, initialize, run}
use velocity_vortex.Trading.Indicator.Cci
use velocity_vortex.Trading.Indicator.Cci.Threads.{
  window_values, calculate-window_values, calculate_signal-too_many_threads,
}
use velocity_vortex.Trading.BackTester
use velocity_vortex.Trading.BackTester.{BackTester, Outcome, completed, new_back_tester, load_bars}
use velocity_vortex.Trading.BackTester.Aligned.{InRange, IsAligned, back_test-IsAligned}
use velocity_vortex.Trading.BackTester.Plot.{marks, ticks}
use velocity_vortex.Trading.Bot.Orders.{IsConsistent}
use velocity_vortex.Trading.Bot.Consistent.{
  trend_following-IsConsistent, mean_reversion-IsConsistent,
}
use velocity_vortex.Trading.Bot.TrendFollowing
use velocity_vortex.Trading.Bot.TrendFollowing.{
  TrendFollowing, trend_following, trend_following_bot,
}
use velocity_vortex.Trading.Bot.MeanReversion
use velocity_vortex.Trading.Bot.MeanReversion.{MeanReversion, mean_reversion, mean_reversion_bot}
use velocity_vortex.Trading.Bot.Never.{volatility_breakout_idle}
use velocity_vortex.Trading.Bot.FibonacciRetracement
use velocity_vortex.Trading.Bot.VolatilityBreakout
use velocity_vortex.Trading.Bot.FibonacciRetracement.{fibonacci_retracement, fibonacci_bot}
use velocity_vortex.Trading.Bot.VolatilityBreakout.{
  VolatilityBreakout, volatility_breakout, volatility_breakout_bot,
}

abbrev pub nat_double : Double
nat_double = record {
  Carrier = ℕ;
  add = λ a b. a + b;
  sub = λ a b. a - b;
  mul = λ a b. a * b;
  div = λ a b. a / b;
  neg = λ a. 0;
  abs = λ a. a;
  sqrt = λ a. a;
  less = ltb;
  equal = λ a b. a == b;
  of_nat = λ n. n;
  truncate = λ x. some (pos x);
  largest = 10 ^ 18;
  decimal = λ n k. n / 10 ^ k;
  par_sum = λ number xs. foldl (λ a b. a + b) 0 xs;
}

nat_double-IsOrdered : IsOrdered nat_double (λ x. Unit {0})
nat_double-IsOrdered = record {
  irreflexive = λ a. ground arith;
  asymmetric = λ a b h. ground arith;
  through = λ a b c n h k. ground arith;
}

abbrev candle : ℕ → ℕ → ℕ → Ohlcv nat_double
candle high low close = record {
  open_price = low;
  high = high;
  low = low;
  close = close;
  volume = 10;
  timestamp = [];
}

aggregated_candle_bounds_example :
    (k : Ohlcv nat_double) × (build_aggregated_candle (candle 7 3 5 ∷ candle 9 4 4 ∷ []) ≡ some k)
    × All (λ d. ltb k.high d.high ≡ false) (candle 7 3 5 ∷ candle 9 4 4 ∷ [])
    × All (λ d. ltb d.low k.low ≡ false) (candle 7 3 5 ∷ candle 9 4 4 ∷ [])
aggregated_candle_bounds_example =
    aggregated_candle_bounds nat_double-IsOrdered (candle 7 3 5) (candle 9 4 4 ∷ []) (tt, (tt, tt))
      (tt, (tt, tt))

abbrev sma_of_two : Indicator nat_double
sma_of_two = record {
  historical_data = candle 7 3 5 ∷ candle 9 4 4 ∷ candle 9 4 8 ∷ [];
  signals = [];
  period = 2;
}

sma_latest_example :
    (v : ℕ) × (vs : List ℕ) × (Sma.calculate_signal sma_of_two
      ≡ returned (push_signal (single v) sma_of_two) (single v))
    × (Sma.calculate sma_of_two.historical_data 2 ≡ some vs)
    × (last? vs ≡ some v)
sma_latest_example = sma_latest sma_of_two (omega arith) (omega arith) (ground arith)

abbrev bar : ℕ → Bar nat_double
bar n = record {
  time = [];
  symbol = [];
  open_price = n;
  high = n;
  low = n;
  close = n;
  volume = pos 1;
}

abbrev three_rounds : List (Round nat_double)
three_rounds = latest_bar (bar 0) ∷ no_bar ∷ latest_bar (bar 0) ∷ []

abbrev four_rounds : List (Round nat_double)
four_rounds = latest_bar (bar 5) ∷ latest_bar (bar 6) ∷ failed ∷ latest_bar (bar 7) ∷ []

-- Enough bars at the price 0 for the oscillator, so that the bot buys.
abbrev some_bars : ℕ → List (Bar nat_double)
some_bars zero = []
some_bars (suc n) = bar 0 ∷ some_bars n

abbrev after_run : Option (Bot nat_double (Indicator nat_double))
after_run =
    run fibonacci_retracement three_rounds
      (initialize fibonacci_retracement (some (some_bars 14)) fibonacci_bot)

abbrev bot_or_new :
    Option (Bot nat_double (Indicator nat_double)) → Bot nat_double (Indicator nat_double)
bot_or_new none = fibonacci_bot
bot_or_new (some bot) = bot

abbrev bought_bot : Bot nat_double (Indicator nat_double)
bought_bot = bot_or_new after_run

after_run-bought_bot : after_run ≡ some bought_bot
unfolding run initialize FibonacciRetracement.execute_trading_logic add_data
after_run-bought_bot = refl

bought_bot_orders : bought_bot.orders ≡ buy_order ∷ []
unfolding run initialize FibonacciRetracement.execute_trading_logic add_data
bought_bot_orders = refl

abbrev trend_run : Option (Bot nat_double (TrendFollowing nat_double))
trend_run =
    run trend_following three_rounds
      (initialize trend_following (some (some_bars 200)) trend_following_bot)

abbrev trend_or_new :
    Option (Bot nat_double (TrendFollowing nat_double)) → Bot nat_double (TrendFollowing nat_double)
trend_or_new none = trend_following_bot
trend_or_new (some bot) = bot

abbrev trend_bot : Bot nat_double (TrendFollowing nat_double)
trend_bot = trend_or_new trend_run

trend_run-trend_bot : trend_run ≡ some trend_bot
unfolding run initialize TrendFollowing.execute_trading_logic add_data
trend_run-trend_bot = refl

trend_following-IsConsistent_example : IsConsistent trend_bot
trend_following-IsConsistent_example =
    trend_following-IsConsistent (some (some_bars 200)) three_rounds trend_run-trend_bot

abbrev reversion_run : Option (Bot nat_double (MeanReversion nat_double))
reversion_run =
    run mean_reversion four_rounds
      (initialize mean_reversion (some (some_bars 20)) mean_reversion_bot)

abbrev reversion_or_new :
    Option (Bot nat_double (MeanReversion nat_double)) → Bot nat_double (MeanReversion nat_double)
reversion_or_new none = mean_reversion_bot
reversion_or_new (some bot) = bot

abbrev reversion_bot : Bot nat_double (MeanReversion nat_double)
reversion_bot = reversion_or_new reversion_run

reversion_run-reversion_bot : reversion_run ≡ some reversion_bot
unfolding run initialize MeanReversion.execute_trading_logic add_data
reversion_run-reversion_bot = refl

mean_reversion-IsConsistent_example : IsConsistent reversion_bot
mean_reversion-IsConsistent_example =
    mean_reversion-IsConsistent (some (some_bars 20)) four_rounds reversion_run-reversion_bot

abbrev breakout_run : Option (Bot nat_double (VolatilityBreakout nat_double))
breakout_run =
    run volatility_breakout four_rounds
      (initialize volatility_breakout (some (some_bars 3)) volatility_breakout_bot)

abbrev breakout_or_new :
    Option (Bot nat_double (VolatilityBreakout nat_double))
    → Bot nat_double (VolatilityBreakout nat_double)
breakout_or_new none = volatility_breakout_bot
breakout_or_new (some bot) = bot

abbrev breakout_bot : Bot nat_double (VolatilityBreakout nat_double)
breakout_bot = breakout_or_new breakout_run

breakout_run-breakout_bot : breakout_run ≡ some breakout_bot
unfolding run initialize VolatilityBreakout.execute_trading_logic add_data
breakout_run-breakout_bot = refl

volatility_breakout_idle_example : breakout_bot.orders ≡ []
volatility_breakout_idle_example =
    volatility_breakout_idle (some (some_bars 3)) four_rounds breakout_run-breakout_bot

-- Three windows of one candle, without the last: two values, for two threads.
abbrev cci_of_three : Indicator nat_double
cci_of_three = record sma_of_two { period = 1 }

calculate-window_values_example :
    Cci.calculate 2 cci_of_three cci_of_three.historical_data 1
    ≡ returned cci_of_three (window_values 1 2 0 cci_of_three.historical_data)
calculate-window_values_example =
    calculate-window_values 2 cci_of_three cci_of_three.historical_data (omega arith) (omega arith)

calculate_signal-too_many_threads_example :
    Cci.calculate_signal 8 cci_of_three ≡ returned cci_of_three (single 0)
calculate_signal-too_many_threads_example =
    calculate_signal-too_many_threads 8 2 cci_of_three (ground arith) (omega arith) (omega arith)

-- Twelve bars at 8, one at 2, on which the tester buys, and one at 30, on which it sells.
abbrev level_bars : ℕ → List (Bar nat_double)
level_bars zero = []
level_bars (suc n) = bar 8 ∷ level_bars n

abbrev tester_run : Outcome (BackTester nat_double)
tester_run =
    BackTester.run (λ t. 0) (bar 2 ∷ bar 30 ∷ [])
      (load_bars (λ t. 0) (level_bars 12) new_back_tester)

abbrev trades_of : Outcome (BackTester nat_double) → List (ℕ × ℕ) × List (ℕ × ℕ)
trades_of (completed t) = (marks 0 t.buy_points, marks 0 t.sell_points)
trades_of _ = ([], [])

tester_run_trades : trades_of tester_run ≡ ((12, 2) ∷ [], (13, 30) ∷ [])
unfolding BackTester.run load_bars add_data marks
tester_run_trades = refl

back_test-IsAligned_example : InRange IsAligned tester_run
back_test-IsAligned_example = back_test-IsAligned (λ t. 0) (level_bars 12) (bar 2 ∷ bar 30 ∷ [])

two_marks : marks {A = ℕ} 4 (none ∷ some 7 ∷ none ∷ some 9 ∷ []) ≡ (5, 7) ∷ (7, 9) ∷ []
unfolding marks
two_marks = refl

three_ticks : ticks 25 25 ≡ some (0 ∷ 2 ∷ 4 ∷ 6 ∷ 8 ∷ 10 ∷ 12 ∷ 14 ∷ 16 ∷ 18 ∷ 20 ∷ 22 ∷ 24 ∷ [])
unfolding ticks
three_ticks = refl
