-- ===== src/Trading/Bot/TrendFollowing.antt =====
-- `BOT_Trend_Following`, Computing-Server/src/Velocity-Bot/strategies/Trend-Following-Strategy.cpp.
use velocity_vortex.Base.{◌&&◌}
use velocity_vortex.Trading.Double.{Double}
use velocity_vortex.Trading.Indicator.{Call, Indicator, new_indicator, add_data}
use velocity_vortex.Trading.Indicator.Sma
use velocity_vortex.Trading.Indicator.Ema
use velocity_vortex.Trading.Indicator.Adx
use velocity_vortex.Trading.Bot.{Bot, Strategy, ◌>>=◌, in_bot, single_value, trade, new_bot}

module _ (F : Double) where
  pub record TrendFollowing : Type 0 where
    pub sma : Indicator F
    pub ema : Indicator F
    pub adx : Indicator F

module _ {F : Double} where
  abbrev pub trend_following_bot : Bot F (TrendFollowing F)
  trend_following_bot =
      new_bot (record { sma = new_indicator 200; ema = new_indicator 50; adx = new_indicator 14 })

  unfoldable pub execute_trading_logic :
      Bot F (TrendFollowing F) → Call (Bot F (TrendFollowing F)) (Unit {0})
  unfolding Sma.calculate_signal Ema.calculate_signal Adx.calculate_signal single_value trade
  execute_trading_logic = do
    sma_value ← λ bot.
        in_bot bot (λ i. record bot.indicators { sma = i })
          (Sma.calculate_signal bot.indicators.sma)
    ema_value ← λ bot.
        in_bot bot (λ i. record bot.indicators { ema = i })
          (Ema.calculate_signal bot.indicators.ema)
    adx_value ← λ bot.
        in_bot bot (λ i. record bot.indicators { adx = i })
          (Adx.calculate_signal bot.indicators.adx)
    ema ← single_value ema_value
    sma ← single_value sma_value
    adx ← single_value adx_value
    trade (F.less sma ema && F.less (F.of_nat 25) adx) (F.less ema sma && F.less adx (F.of_nat 20))

  abbrev pub trend_following : Strategy F (TrendFollowing F)
  trend_following = record {
    candle_count = 1;
    add_candle =
        λ c i. record { sma = add_data c i.sma; ema = add_data c i.ema; adx = add_data c i.adx };
    execute_trading_logic = execute_trading_logic;
  }
