-- ===== src/Trading/BackTester.antt =====
-- `BackTester`, Computing-Server/src/Backtesting-Bot/bot.cpp: the bars of two periods, the trades on them
-- and the points that are plotted. A point that is not a number is `none`.
pub mod Aligned
pub mod Plot
use velocity_vortex.Base.{
  ℕ, zero, suc, ◌-◌, Bool, true, false, not, ◌&&◌, Option, none, some, List, [], ◌∷◌, ◌++◌, length,
  if◌then◌else◌, Text,
}
use velocity_vortex.Base.Int.{ℤ, pos}
use velocity_vortex.Trading.Double.{Double, of_int, to_signed}
use velocity_vortex.Trading.Candle.{Ohlcv, Bar, bar_to_ohlcv}
use velocity_vortex.Trading.Indicator.{
  Call, returned, thrown, undefined, Indicator, SignalResult, new_indicator, add_data,
  get_single_value,
}
use velocity_vortex.Trading.Indicator.Sma
use velocity_vortex.Trading.Indicator.Ema
use velocity_vortex.Trading.Bot.{BotOrder, buy_order, sell_order}

-- `amount` and `holding` are ints.
pub record BackTester (F : Double) : Type 0 where
  pub amount : ℤ
  pub holding : ℤ
  pub sma : Indicator F
  pub ema : Indicator F
  pub historical_data : List (Ohlcv F)
  pub current_position : Option BotOrder
  pub position_open : Bool
  pub buy_points : List (Option F.Carrier)
  pub sell_points : List (Option F.Carrier)
  pub time_index : List F.Carrier
  pub price_data : List F.Carrier

-- `points[i] = point`. `none`: the index is out of range.
abbrev pub put_at : {A : Type 0} → ℕ → A → List A → Option (List A)
put_at i point [] = none
put_at zero point (x ∷ xs) = some (point ∷ xs)
put_at (suc i) point (x ∷ xs) = elim (put_at i point xs) [ none ↦ none | some ys ↦ some (x ∷ ys) ]

-- What a step comes to: a state, or why it has no defined behaviour: a double that fits no int, an index
-- out of range, a signal with no value.
pub data Outcome (A : Type 0) : Type 0 where
  completed : A → Outcome A
  no_int : Outcome A
  no_index : Outcome A
  no_value : Outcome A

unfoldable pub and_then : {A B : Type 0} → Outcome A → (A → Outcome B) → Outcome B
and_then (completed x) f = f x
and_then no_int f = no_int
and_then no_index f = no_index
and_then no_value f = no_value

-- A result that may be missing, with what is the matter then.
abbrev pub or_else : {A : Type 0} → Outcome A → Option A → Outcome A
or_else missing none = missing
or_else missing (some x) = completed x

module _ {F : Double} where
  abbrev pub new_back_tester : BackTester F
  new_back_tester = record {
    amount = pos 1000;
    holding = pos 0;
    sma = new_indicator 12;
    ema = new_indicator 12;
    historical_data = [];
    current_position = none;
    position_open = false;
    buy_points = [];
    sell_points = [];
    time_index = [];
    price_data = [];
  }

  -- What the two loops do with a bar first; `timestamp` is what `convertToTimestamp` makes of its time.
  abbrev pub with_bar : F.Carrier → Bar F → BackTester F → BackTester F
  with_bar timestamp bar t = record t {
    historical_data = t.historical_data ++ (bar_to_ohlcv bar ∷ []);
    time_index = t.time_index ++ (timestamp ∷ []);
    price_data = t.price_data ++ (bar.close ∷ []);
    buy_points = t.buy_points ++ (none ∷ []);
    sell_points = t.sell_points ++ (none ∷ []);
  }

  abbrev pub with_indicators : Indicator F → Indicator F → BackTester F → BackTester F
  with_indicators sma ema t = record t { sma = sma; ema = ema }

  unfoldable pub load_bars : (Text → F.Carrier) → List (Bar F) → BackTester F → BackTester F
  unfolding add_data bar_to_ohlcv
  load_bars to_timestamp [] t = t
  load_bars to_timestamp (bar ∷ bars) t =
      let c = bar_to_ohlcv bar in
      load_bars to_timestamp bars (
        with_bar (to_timestamp bar.time) bar
          (with_indicators (add_data c t.sma) (add_data c t.ema) t))

  -- `Holding += (Amount / price); Amount -= price * Holding;` and the rest of a purchase.
  unfoldable pub buy_shares : F.Carrier → BackTester F → Outcome (BackTester F)
  unfolding to_signed and_then
  buy_shares price t =
      and_then
        (or_else no_int
          (to_signed F 31 (F.add (of_int F t.holding) (F.div (of_int F t.amount) price))))
        (λ holding.
          and_then
            (or_else no_int
              (to_signed F 31 (F.sub (of_int F t.amount) (F.mul price (of_int F holding)))))
            (λ amount.
              and_then
                (or_else no_index (put_at (length t.time_index - 1) (some price) t.buy_points))
                (λ points. completed (record t {
                  holding = holding;
                  amount = amount;
                  current_position = some buy_order;
                  position_open = true;
                  buy_points = points;
                }))))

  unfoldable pub sell_shares : F.Carrier → BackTester F → Outcome (BackTester F)
  unfolding to_signed and_then
  sell_shares price t =
      and_then
        (or_else no_int
          (to_signed F 31 (F.add (of_int F t.amount) (F.mul price (of_int F t.holding)))))
        (λ amount.
          and_then (or_else no_index (put_at (length t.time_index - 1) (some price) t.sell_points))
            (λ points. completed (record t {
              holding = pos 0;
              amount = amount;
              current_position = some sell_order;
              position_open = false;
              sell_points = points;
            })))

  -- The trade, by the values of the two indicators.
  unfoldable pub trade_at :
      F.Carrier → F.Carrier → F.Carrier → BackTester F → Outcome (BackTester F)
  unfolding buy_shares sell_shares
  trade_at price long_sma short_ema t =
      if not t.position_open && F.less long_sma short_ema
      then buy_shares price t
      else if t.position_open && F.less short_ema long_sma
      then sell_shares price t
      else completed t

  -- The values of the signals; `getSingleValue` throws for a vector.
  unfoldable pub trade_on :
      F.Carrier → Option F.Carrier → Option F.Carrier → BackTester F → Outcome (BackTester F)
  unfolding trade_at
  trade_on price none short_ema t = completed t
  trade_on price (some long_sma) none t = completed t
  trade_on price (some long_sma) (some short_ema) t = trade_at price long_sma short_ema t

  -- What comes after the first signal: an exception is caught by `run`, with the indicator as it is.
  unfoldable pub after_ema :
      F.Carrier
      → Option F.Carrier
      → Call (Indicator F) (SignalResult F)
      → BackTester F
      → Outcome (BackTester F)
  unfolding trade_on get_single_value
  after_ema price sma_value (returned ema value) t =
      trade_on price sma_value (get_single_value value) (record t { ema = ema })
  after_ema price sma_value (thrown ema) t = completed (record t { ema = ema })
  after_ema price sma_value undefined t = no_value

  unfoldable pub after_sma :
      F.Carrier → Call (Indicator F) (SignalResult F) → BackTester F → Outcome (BackTester F)
  unfolding after_ema Ema.calculate_signal get_single_value
  after_sma price (returned sma value) t =
      after_ema price (get_single_value value) (Ema.calculate_signal t.ema) (record t { sma = sma })
  after_sma price (thrown sma) t = completed (record t { sma = sma })
  after_sma price undefined t = no_value

  -- A bar of `run`: `processTrading` and `executeTradingLogic`, on the close of the bar.
  unfoldable pub process_bar : F.Carrier → Bar F → BackTester F → Outcome (BackTester F)
  unfolding after_sma Sma.calculate_signal add_data bar_to_ohlcv
  process_bar timestamp bar t =
      let c = bar_to_ohlcv bar in
      let ready =
        with_indicators (add_data c t.sma) (add_data c t.ema) (with_bar timestamp bar t) in
      after_sma c.close (Sma.calculate_signal ready.sma) ready

  -- `run`, but for the plot.
  unfoldable pub run : (Text → F.Carrier) → List (Bar F) → BackTester F → Outcome (BackTester F)
  unfolding process_bar and_then
  run to_timestamp [] t = completed t
  run to_timestamp (bar ∷ bars) t =
      and_then (process_bar (to_timestamp bar.time) bar t) (run to_timestamp bars)
