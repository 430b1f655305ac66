-- ===== src/Trading/Bot/Obeys.antt =====
-- `executeTradingLogic` of three of the bots (Computing-Server/src/Velocity-Bot/strategies) only calls
-- indicators, and trades at most once, as its position allows.
use velocity_vortex.Base.{Option, none, some, last?}
use velocity_vortex.Trading.Double.{Double}
use velocity_vortex.Trading.Candle.{Ohlcv}
use velocity_vortex.Trading.Indicator.{Indicator}
use velocity_vortex.Trading.Indicator.Sma
use velocity_vortex.Trading.Indicator.Ema
use velocity_vortex.Trading.Indicator.Adx
use velocity_vortex.Trading.Indicator.Rsi
use velocity_vortex.Trading.Indicator.BollingerBands
use velocity_vortex.Trading.Indicator.StochasticOscillator
use velocity_vortex.Trading.Bot.{Bot}
use velocity_vortex.Trading.Bot.Rule.{
  Holds, Obeys, Keeps, then-Keeps, in_bot-Keeps, single_value-Keeps, trade-Keeps,
}
use velocity_vortex.Trading.Bot.TrendFollowing
use velocity_vortex.Trading.Bot.TrendFollowing.{trend_following}
use velocity_vortex.Trading.Bot.MeanReversion
use velocity_vortex.Trading.Bot.MeanReversion.{MeanReversion, mean_reversion, bands}
use velocity_vortex.Trading.Bot.FibonacciRetracement
use velocity_vortex.Trading.Bot.FibonacciRetracement.{fibonacci_retracement}

module _ {F : Double} where
  pub trend_following-Obeys : Obeys (trend_following {F = F})
  unfolding TrendFollowing.execute_trading_logic
  trend_following-Obeys P kept =
      then-Keeps
        (in_bot-Keeps P kept (λ bot i. record bot.indicators { sma = i })
          (λ bot. Sma.calculate_signal bot.indicators.sma))
        (λ sma_value.
          then-Keeps
            (in_bot-Keeps P kept (λ bot i. record bot.indicators { ema = i })
              (λ bot. Ema.calculate_signal bot.indicators.ema))
            (λ ema_value.
              then-Keeps
                (in_bot-Keeps P kept (λ bot i. record bot.indicators { adx = i })
                  (λ bot. Adx.calculate_signal bot.indicators.adx))
                (λ adx_value. then-Keeps (single_value-Keeps P kept ema_value) (λ ema.
                  then-Keeps (single_value-Keeps P kept sma_value) (λ sma.
                    then-Keeps (single_value-Keeps P kept adx_value)
                      (λ adx. trade-Keeps P kept _ _))))))

  bands-Keeps :
      (P : Bot F (MeanReversion F) → Type 0)
      (r : Bot F (MeanReversion F) → Option (F.Carrier × F.Carrier))
      → Keeps P (λ bot. bands (r bot) bot)
  bands-Keeps P r = record { keeps = λ bot h. by_result (r bot) bot h }
    where
      by_result :
          (x : Option (F.Carrier × F.Carrier)) (bot : Bot F (MeanReversion F))
          → P bot
          → Holds P (bands x bot)
      by_result none bot h = h
      by_result (some x) bot h = h

  mean_price-Keeps :
      (P : Bot F (MeanReversion F) → Type 0) (c : Bot F (MeanReversion F) → Option (Ohlcv F))
      → Keeps P (λ bot. MeanReversion.current_price (c bot) bot)
  mean_price-Keeps P c = record { keeps = λ bot h. by_candle (c bot) bot h }
    where
      by_candle :
          (x : Option (Ohlcv F)) (bot : Bot F (MeanReversion F))
          → P bot
          → Holds P (MeanReversion.current_price x bot)
      by_candle none bot h = tt
      by_candle (some x) bot h = h

  pub mean_reversion-Obeys : Obeys (mean_reversion {F = F})
  unfolding MeanReversion.execute_trading_logic
  mean_reversion-Obeys P kept =
      then-Keeps
        (in_bot-Keeps P kept (λ bot i. record bot.indicators { rsi = i })
          (λ bot. Rsi.calculate_signal bot.indicators.rsi))
        (λ rsi_value. then-Keeps (single_value-Keeps P kept rsi_value) (λ rsi.
          then-Keeps (bands-Keeps P (λ bot. BollingerBands.calculate bot.indicators.bb)) (λ band.
            then-Keeps (mean_price-Keeps P (λ bot. last? bot.historical_data))
              (λ price. trade-Keeps P kept _ _))))

  fibonacci_price-Keeps :
      (P : Bot F (Indicator F) → Type 0) (c : Bot F (Indicator F) → Option (Ohlcv F))
      → Keeps P (λ bot. FibonacciRetracement.current_price (c bot) bot)
  fibonacci_price-Keeps P c = record { keeps = λ bot h. by_candle (c bot) bot h }
    where
      by_candle :
          (x : Option (Ohlcv F)) (bot : Bot F (Indicator F))
          → P bot
          → Holds P (FibonacciRetracement.current_price x bot)
      by_candle none bot h = tt
      by_candle (some x) bot h = h

  pub fibonacci_retracement-Obeys : Obeys (fibonacci_retracement {F = F})
  unfolding FibonacciRetracement.execute_trading_logic
  fibonacci_retracement-Obeys P kept =
      then-Keeps (fibonacci_price-Keeps P (λ bot. last? bot.historical_data)) (λ price.
        then-Keeps
          (in_bot-Keeps P kept (λ bot i. i)
            (λ bot. StochasticOscillator.calculate_signal bot.indicators))
          (λ signal.
            then-Keeps (single_value-Keeps P kept signal) (λ stochastic. trade-Keeps P kept _ _)))
