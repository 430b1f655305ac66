-- ===== src/Trading/Bot.antt =====
-- What the four bots of Computing-Server/src/Velocity-Bot/strategies share: `initialize`, `processTrading`
-- and `run`, with the indicators, the number of candles that make one and `executeTradingLogic` of each
-- as a parameter. What a round gets from outside, and an exception in it, is an input.
pub mod TrendFollowing
pub mod MeanReversion
pub mod FibonacciRetracement
pub mod VolatilityBreakout
pub mod Rule
pub mod Obeys
pub mod Run
pub mod Orders
pub mod Consistent
pub mod Never
pub mod TestBot
use velocity_vortex.Base.{
  ℕ, Bool, true, false, not, ◌&&◌, Option, none, some, List, [], ◌∷◌, ◌++◌, length, ◌==◌,
  if◌then◌else◌,
}
use velocity_vortex.Trading.Double.{Double}
use velocity_vortex.Trading.Candle.{Ohlcv, Bar, bar_to_ohlcv, build_aggregated_candle}
use velocity_vortex.Trading.Indicator.{
  Call, returned, thrown, undefined, SignalResult, get_single_value,
}

-- A call of `orderManager.createOrder`: a market order for one share.
pub data BotOrder : Type 0 where
  buy_order sell_order : BotOrder

-- `orders` are the calls so far, the latest first; `current_position` is "", "Buy" or "Sell".
pub record Bot (F : Double) (I : Type 0) : Type 0 where
  pub indicators : I
  pub historical_data : List (Ohlcv F)
  pub one_min_candles : List (Ohlcv F)
  pub position_open : Bool
  pub current_position : Option BotOrder
  pub orders : List BotOrder

pub record Strategy (F : Double) (I : Type 0) : Type 0 where
  pub candle_count : ℕ
  pub add_candle : Ohlcv F → I → I
  pub execute_trading_logic : Bot F I → Call (Bot F I) (Unit {0})

-- What a round of `run` meets: an exception before a bar is kept, a closed market (for which Trend_Following
-- does not ask), no bar, or a bar.
pub data Round (F : Double) : Type 0 where
  failed closed no_bar : Round F
  latest_bar : Bar F → Round F

-- Calls one after the other, on a state.
module _ {S A B : Type 0} where
  abbrev pub after_call : Call S A → (A → S → Call S B) → Call S B
  after_call (returned s x) f = f x s
  after_call (thrown s) f = thrown s
  after_call undefined f = undefined

  infixl 5 ◌>>=◌
  abbrev pub ◌>>=◌ : (S → Call S A) → (A → S → Call S B) → S → Call S B
  (m >>= f) s = after_call (m s) f

module _ {F : Double} {I : Type 0} where
  abbrev pub new_bot : I → Bot F I
  new_bot indicators = record {
    indicators = indicators;
    historical_data = [];
    one_min_candles = [];
    position_open = false;
    current_position = none;
    orders = [];
  }

  abbrev pub with_indicators : Bot F I → I → Bot F I
  with_indicators bot i = record bot { indicators = i }

  -- A call of one of the bot's indicators.
  abbrev pub in_bot : {J A : Type 0} → Bot F I → (J → I) → Call J A → Call (Bot F I) A
  in_bot bot put (returned j x) = returned (with_indicators bot (put j)) x
  in_bot bot put (thrown j) = thrown (with_indicators bot (put j))
  in_bot bot put undefined = undefined

  -- `getSingleValue()`.
  abbrev pub single_or_throw : Option F.Carrier → Bot F I → Call (Bot F I) F.Carrier
  single_or_throw none bot = thrown bot
  single_or_throw (some x) bot = returned bot x

  unfoldable pub single_value : SignalResult F → Bot F I → Call (Bot F I) F.Carrier
  unfolding get_single_value
  single_value s bot = single_or_throw (get_single_value s) bot

  abbrev pub bought : Bot F I → Bot F I
  bought bot = record bot {
    position_open = true;
    current_position = some buy_order;
    orders = buy_order ∷ bot.orders;
  }

  abbrev pub sold : Bot F I → Bot F I
  sold bot = record bot {
    position_open = false;
    current_position = some sell_order;
    orders = sell_order ∷ bot.orders;
  }

  -- `if (!positionOpen && ...) { ... } else if (positionOpen && ...) { ... }`, by the two conditions.
  unfoldable pub trade : Bool → Bool → Bot F I → Call (Bot F I) (Unit {0})
  trade may_buy may_sell bot =
      if not bot.position_open && may_buy
      then returned (bought bot) tt
      else if bot.position_open && may_sell
      then returned (sold bot) tt
      else returned bot tt

  -- An exception is caught by `run`. `none`: no behaviour is defined.
  abbrev pub caught : Call (Bot F I) (Unit {0}) → Option (Bot F I)
  caught (returned bot x) = some bot
  caught (thrown bot) = some bot
  caught undefined = none

module _ {F : Double} {I : Type 0} (strategy : Strategy F I) where
  abbrev pub with_candle : Ohlcv F → Bot F I → Bot F I
  with_candle c bot = record bot {
    indicators = strategy.add_candle c bot.indicators;
    historical_data = bot.historical_data ++ (c ∷ []);
  }

  -- The loop of `initialize`.
  unfoldable pub load_bars : List (Bar F) → Bot F I → Bot F I
  unfolding bar_to_ohlcv
  load_bars [] bot = bot
  load_bars (bar ∷ bars) bot = load_bars bars (with_candle (bar_to_ohlcv bar) bot)

  -- `none`: the bars cannot be fetched, which is caught.
  unfoldable pub initialize : Option (List (Bar F)) → Bot F I → Bot F I
  unfolding load_bars
  initialize none bot = bot
  initialize (some bars) bot = load_bars bars bot

  -- The aggregated candle of `oneMinCandles`, which are cleared, joins the data; then the logic runs.
  unfoldable pub close_candle : Option (Ohlcv F) → Bot F I → Option (Bot F I)
  close_candle none bot = none
  close_candle (some c) bot =
      caught (strategy.execute_trading_logic (with_candle c (record bot { one_min_candles = [] })))

  unfoldable pub process_trading : Bar F → Bot F I → Option (Bot F I)
  unfolding bar_to_ohlcv build_aggregated_candle close_candle
  process_trading bar bot =
      let candles = bot.one_min_candles ++ (bar_to_ohlcv bar ∷ []) in
      let next = close_candle (build_aggregated_candle candles) bot in
      if length candles == strategy.candle_count
      then next
      else some (record bot { one_min_candles = candles })

  unfoldable pub round : Round F → Bot F I → Option (Bot F I)
  unfolding process_trading
  round failed bot = some bot
  round closed bot = some bot
  round no_bar bot = some bot
  round (latest_bar bar) bot = process_trading bar bot

  -- `run`, for these rounds.
  unfoldable pub run : List (Round F) → Bot F I → Option (Bot F I)
  unfolding round
  run [] bot = some bot
  run (r ∷ rs) bot = elim (round r bot) [ none ↦ none | some bot' ↦ run rs bot' ]
