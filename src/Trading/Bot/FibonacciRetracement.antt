-- ===== src/Trading/Bot/FibonacciRetracement.antt =====
-- `Reversal_Fibonacci_Retracement`, Computing-Server/src/Velocity-Bot/strategies/Reversal-Strategy-Fibonacci-Retracement.cpp.
use velocity_vortex.Base.{Bool, ◌&&◌, ◌||◌, Option, none, some, last?}
use velocity_vortex.Trading.Double.{Double}
use velocity_vortex.Trading.Candle.{Ohlcv}
use velocity_vortex.Trading.Indicator.{
  Call, returned, undefined, Indicator, new_indicator, add_data,
}
use velocity_vortex.Trading.Indicator.StochasticOscillator
use velocity_vortex.Trading.Bot.{Bot, Strategy, ◌>>=◌, in_bot, single_value, trade, new_bot}

module _ (F : Double) where
  -- The levels are parts of the price itself.
  unfoldable pub at_level : F.Carrier → Bool
  at_level price =
      F.equal price (F.mul (F.decimal 382 3) price)
      || F.equal price (F.mul (F.decimal 5 1) price)
      || F.equal price (F.mul (F.decimal 618 3) price)

module _ {F : Double} where
  abbrev pub fibonacci_bot : Bot F (Indicator F)
  fibonacci_bot = new_bot (new_indicator 15)

  -- `historicalData.back().close`.
  abbrev pub current_price :
      Option (Ohlcv F) → Bot F (Indicator F) → Call (Bot F (Indicator F)) F.Carrier
  current_price none bot = undefined
  current_price (some c) bot = returned bot c.close

  unfoldable pub execute_trading_logic : Bot F (Indicator F) → Call (Bot F (Indicator F)) (Unit {0})
  unfolding StochasticOscillator.calculate_signal single_value trade at_level
  execute_trading_logic = do
    price ← λ bot. current_price (last? bot.historical_data) bot
    stochastic_signal ←
        λ bot. in_bot bot (λ i. i) (StochasticOscillator.calculate_signal bot.indicators)
    stochastic ← single_value stochastic_signal
    trade (at_level F price && F.less stochastic (F.of_nat 20))
        (at_level F price && F.less (F.of_nat 80) stochastic)

  abbrev pub fibonacci_retracement : Strategy F (Indicator F)
  fibonacci_retracement = record {
    candle_count = 2;
    add_candle = add_data;
    execute_trading_logic = execute_trading_logic;
  }
