-- ===== src/Trading/Bot/MeanReversion.antt =====
-- `Mean_Reversion`, Computing-Server/src/Velocity-Bot/strategies/Mean-Reversion-Strategy.cpp.
use velocity_vortex.Base.{◌&&◌, Option, none, some, last?}
use velocity_vortex.Trading.Double.{Double}
use velocity_vortex.Trading.Candle.{Ohlcv}
use velocity_vortex.Trading.Indicator.{
  Call, returned, thrown, undefined, Indicator, new_indicator, add_data,
}
use velocity_vortex.Trading.Indicator.Rsi
use velocity_vortex.Trading.Indicator.BollingerBands
use velocity_vortex.Trading.Indicator.BollingerBands.{BollingerBands}
use velocity_vortex.Trading.Bot.{Bot, Strategy, ◌>>=◌, in_bot, single_value, trade, new_bot}

module _ (F : Double) where
  pub record MeanReversion : Type 0 where
    pub rsi : Indicator F
    pub bb : BollingerBands F

module _ {F : Double} where
  abbrev pub mean_reversion_bot : Bot F (MeanReversion F)
  mean_reversion_bot = new_bot (record {
    rsi = new_indicator 14;
    bb = record { indicator = new_indicator 20; num_std_dev = F.of_nat 2 };
  })

  abbrev pub bands :
      Option (F.Carrier × F.Carrier)
      → Bot F (MeanReversion F)
      → Call (Bot F (MeanReversion F)) (F.Carrier × F.Carrier)
  bands none bot = thrown bot
  bands (some r) bot = returned bot r

  -- `historicalData.back().close`.
  abbrev pub current_price :
      Option (Ohlcv F) → Bot F (MeanReversion F) → Call (Bot F (MeanReversion F)) F.Carrier
  current_price none bot = undefined
  current_price (some c) bot = returned bot c.close

  -- The first component of the bands is taken for the lower one.
  unfoldable pub execute_trading_logic :
      Bot F (MeanReversion F) → Call (Bot F (MeanReversion F)) (Unit {0})
  unfolding Rsi.calculate_signal BollingerBands.calculate single_value trade
  execute_trading_logic = do
    rsi_value ← λ bot.
        in_bot bot (λ i. record bot.indicators { rsi = i })
          (Rsi.calculate_signal bot.indicators.rsi)
    rsi ← single_value rsi_value
    band ← λ bot. bands (BollingerBands.calculate bot.indicators.bb) bot
    price ← λ bot. current_price (last? bot.historical_data) bot
    trade (F.less price band.0 && F.less rsi (F.of_nat 30))
        (F.less band.1 price && F.less (F.of_nat 70) rsi)

  abbrev pub mean_reversion : Strategy F (MeanReversion F)
  mean_reversion = record {
    candle_count = 3;
    add_candle = λ c i. record {
      rsi = add_data c i.rsi;
      bb = record i.bb { indicator = add_data c i.bb.indicator };
    };
    execute_trading_logic = execute_trading_logic;
  }
