-- ===== src/Trading/Bot/VolatilityBreakout.antt =====
-- `Volatility_Breakout`, Computing-Server/src/Velocity-Bot/strategies/Volatility-Breakout-Strategy.cpp.
use velocity_vortex.Base.{Bool, false, ◌&&◌, Option, none, some, last?, if◌then◌else◌}
use velocity_vortex.Trading.Double.{Double}
use velocity_vortex.Trading.Candle.{Ohlcv}
use velocity_vortex.Trading.Indicator.{
  Call, returned, undefined, Indicator, new_indicator, add_data,
}
use velocity_vortex.Trading.Indicator.Vwap
use velocity_vortex.Trading.Indicator.Atr
use velocity_vortex.Trading.Indicator.Atr.{Atr}
use velocity_vortex.Trading.Bot.{Bot, Strategy, ◌>>=◌, in_bot, single_value, trade, new_bot}

-- `previous_atr` is the static variable of `isATRDeclining`.
module _ (F : Double) where
  pub record VolatilityBreakout : Type 0 where
    pub atr : Atr F
    pub vwap : Indicator F
    pub previous_atr : F.Carrier

module _ (F : Double) where
  -- The first call only keeps the average.
  unfoldable pub is_atr_declining : F.Carrier → F.Carrier → Bool
  is_atr_declining previous current =
      if F.equal previous (F.of_nat 0) then false else F.less current previous

module _ {F : Double} where
  abbrev pub volatility_breakout_bot : Bot F (VolatilityBreakout F)
  volatility_breakout_bot = new_bot (record {
    atr = record { indicator = new_indicator 200; previous_close = F.of_nat 0 };
    vwap = new_indicator 0;
    previous_atr = F.of_nat 0;
  })

  -- `historicalData.back().close`.
  abbrev pub current_price :
      Option (Ohlcv F)
      → Bot F (VolatilityBreakout F)
      → Call (Bot F (VolatilityBreakout F)) F.Carrier
  current_price none bot = undefined
  current_price (some c) bot = returned bot c.close

  -- Whether the bot may sell. `isATRDeclining` is asked last, and only if it decides.
  unfoldable pub may_sell :
      F.Carrier → Bool → Bot F (VolatilityBreakout F) → Call (Bot F (VolatilityBreakout F)) Bool
  unfolding is_atr_declining
  may_sell atr below bot =
      if bot.position_open && below
      then returned (record bot { indicators = record bot.indicators { previous_atr = atr } })
          (is_atr_declining F bot.indicators.previous_atr atr)
      else returned bot false

  unfoldable pub execute_trading_logic :
      Bot F (VolatilityBreakout F) → Call (Bot F (VolatilityBreakout F)) (Unit {0})
  unfolding Atr.calculate_signal Vwap.calculate_signal single_value trade may_sell
  execute_trading_logic = do
    atr_value ← λ bot.
        in_bot bot (λ i. record bot.indicators { atr = i })
          (Atr.calculate_signal bot.indicators.atr)
    vwap_value ← λ bot.
        in_bot bot (λ i. record bot.indicators { vwap = i })
          (Vwap.calculate_signal bot.indicators.vwap)
    atr ← single_value atr_value
    vwap ← single_value vwap_value
    price ← λ bot. current_price (last? bot.historical_data) bot
    sell ← may_sell atr (F.less price vwap)
    trade (F.less (F.decimal 15 1) atr && F.less vwap price) sell

  abbrev pub volatility_breakout : Strategy F (VolatilityBreakout F)
  volatility_breakout = record {
    candle_count = 3;
    add_candle = λ c i. record {
      atr = record i.atr { indicator = add_data c i.atr.indicator };
      vwap = add_data c i.vwap;
      previous_atr = i.previous_atr;
    };
    execute_trading_logic = execute_trading_logic;
  }
