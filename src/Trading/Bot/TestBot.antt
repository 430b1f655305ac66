-- ===== src/Trading/Bot/TestBot.antt =====
-- `TestBOT`, Computing-Server/src/Velocity-Bot/test/bot.cpp. It names the value of the SMA `shortEMA` and
-- that of the EMA `longSMA`. What it publishes of each bar is left out.
use velocity_vortex.Base.{◌≡◌, refl, Option, some, List}
use velocity_vortex.Trading.Double.{Double}
use velocity_vortex.Trading.Candle.{Bar}
use velocity_vortex.Trading.Indicator.{Call, Indicator, new_indicator, add_data}
use velocity_vortex.Trading.Indicator.Sma
use velocity_vortex.Trading.Indicator.Ema
use velocity_vortex.Trading.Bot.{
  Bot, Round, Strategy, ◌>>=◌, in_bot, single_value, trade, new_bot, initialize, run,
}
use velocity_vortex.Trading.Bot.Rule.{
  Obeys, then-Keeps, in_bot-Keeps, single_value-Keeps, trade-Keeps,
}
use velocity_vortex.Trading.Bot.Orders.{IsConsistent, run-IsConsistent}

module _ (F : Double) where
  pub record TestBot : Type 0 where
    pub sma : Indicator F
    pub ema : Indicator F

module _ {F : Double} where
  abbrev test_bot : Bot F (TestBot F)
  test_bot = new_bot (record { sma = new_indicator 12; ema = new_indicator 12 })

  unfoldable execute_trading_logic : Bot F (TestBot F) → Call (Bot F (TestBot F)) (Unit {0})
  unfolding Sma.calculate_signal Ema.calculate_signal single_value trade
  execute_trading_logic = do
    sma_value ← λ bot.
        in_bot bot (λ i. record bot.indicators { sma = i })
          (Sma.calculate_signal bot.indicators.sma)
    ema_value ← λ bot.
        in_bot bot (λ i. record bot.indicators { ema = i })
          (Ema.calculate_signal bot.indicators.ema)
    short_ema ← single_value sma_value
    long_sma ← single_value ema_value
    trade (F.less long_sma short_ema) (F.less short_ema long_sma)

  abbrev test_strategy : Strategy F (TestBot F)
  test_strategy = record {
    candle_count = 5;
    add_candle = λ c i. record { sma = add_data c i.sma; ema = add_data c i.ema };
    execute_trading_logic = execute_trading_logic;
  }

  test_strategy-Obeys : Obeys test_strategy
  unfolding execute_trading_logic
  test_strategy-Obeys P kept =
      then-Keeps
        (in_bot-Keeps P kept (λ bot i. record bot.indicators { sma = i })
          (λ bot. Sma.calculate_signal bot.indicators.sma))
        (λ sma_value.
          then-Keeps
            (in_bot-Keeps P kept (λ bot i. record bot.indicators { ema = i })
              (λ bot. Ema.calculate_signal bot.indicators.ema))
            (λ ema_value. then-Keeps (single_value-Keeps P kept sma_value) (λ short_ema.
              then-Keeps (single_value-Keeps P kept ema_value)
                (λ long_sma. trade-Keeps P kept _ _))))

  -- For any bars to begin with and any rounds of a run of TestBOT with a defined result: its orders are a
  -- buy, a sell, a buy and so on, it has an open position just after a buy, and its current position is
  -- its latest order.
  test_strategy-IsConsistent :
      (bars : Option (List (Bar F))) (rs : List (Round F)) {bot : Bot F (TestBot F)}
      → run test_strategy rs (initialize test_strategy bars test_bot) ≡ some bot
      → IsConsistent bot
  test_strategy-IsConsistent bars rs e =
      run-IsConsistent test_strategy bars rs test_bot test_strategy-Obeys (tt, refl) e
