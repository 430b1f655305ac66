-- ===== src/Trading/Bot/Never.antt =====
-- `Volatility_Breakout` (Computing-Server/src/Velocity-Bot/strategies/Volatility-Breakout-Strategy.cpp)
-- asks `VWAP::calculateSignal`, whose result is a vector, for a single value.
use velocity_vortex.Base.{ℕ, ◌≡◌, refl, ◌⊎◌, inl, inr, Option, some, List, [], ◌∷◌}
use velocity_vortex.Trading.Double.{Double}
use velocity_vortex.Trading.Candle.{Ohlcv, Bar}
use velocity_vortex.Trading.Indicator.{
  Call, returned, thrown, undefined, Indicator, SignalResult, single, vector, get_single_value,
}
use velocity_vortex.Trading.Indicator.Vwap
use velocity_vortex.Trading.Indicator.Atr
use velocity_vortex.Trading.Indicator.Atr.{Atr}
use velocity_vortex.Trading.Bot.{Bot, Round, ◌>>=◌, in_bot, single_value, initialize, run}
use velocity_vortex.Trading.Bot.Rule.{Holds, Keeps, then-Keeps}
use velocity_vortex.Trading.Bot.Run.{run_rule}
use velocity_vortex.Trading.Bot.VolatilityBreakout
use velocity_vortex.Trading.Bot.VolatilityBreakout.{
  VolatilityBreakout, volatility_breakout, volatility_breakout_bot,
}

module _ {F : Double} where
  abbrev HasNoOrders : Bot F (VolatilityBreakout F) → Type 0
  HasNoOrders bot = bot.orders ≡ []

  -- The two ways in which the call ends.
  abbrev VectorOrThrow : Indicator F → Type 0
  VectorOrThrow ind =
      (Vwap.calculate_signal ind ≡ thrown ind)
      ⊎ ((i : Indicator F) × (xs : List F.Carrier) × (Vwap.calculate_signal ind
            ≡ returned i (vector xs)))

  vwap_of :
      (cs : List (Ohlcv F)) (ss : List (SignalResult F)) (n : ℕ)
      → VectorOrThrow (record { historical_data = cs; signals = ss; period = n })
  unfolding Vwap.calculate_signal
  vwap_of [] ss n = inl refl
  vwap_of (c ∷ cs) ss n = inr (_, _, refl)

  vwap_vector : (ind : Indicator F) → VectorOrThrow ind
  vwap_vector ind = vwap_of ind.historical_data ind.signals ind.period

  -- A call that yields a vector where a number is wanted throws.
  module _ {B : Type 0} (P : Bot F (VolatilityBreakout F) → Type 0)
      (rest : F.Carrier
        → F.Carrier
        → Bot F (VolatilityBreakout F)
        → Call (Bot F (VolatilityBreakout F)) B) where
    vector_throws :
        (s : SignalResult F) (xs : List F.Carrier)
        → Keeps P (single_value s >>= λ x. single_value (vector xs) >>= λ y. rest x y)
    unfolding single_value get_single_value
    vector_throws (single x) xs = record { keeps = λ bot h. h }
    vector_throws (vector ys) xs = record { keeps = λ bot h. h }

  module _ {B : Type 0}
      (rest : F.Carrier
        → F.Carrier
        → Bot F (VolatilityBreakout F)
        → Call (Bot F (VolatilityBreakout F)) B) where
    vwap_throws :
        (s : SignalResult F)
        → Keeps HasNoOrders (
            (λ bot.
              in_bot bot
                (λ i. record bot.indicators { vwap = i })
                (Vwap.calculate_signal bot.indicators.vwap))
            >>= λ v. single_value s >>= λ x. single_value v >>= λ y. rest x y)
    vwap_throws s = record {
      keeps = λ bot h. elim (vwap_vector bot.indicators.vwap) [
        | inl e ↦ rw e h
        | inr (i, xs, e) ↦ rw e ((vector_throws HasNoOrders rest s xs).keeps _ h)
      ];
    }

  atr_keeps :
      (bot : Bot F (VolatilityBreakout F)) (c : Call (Atr F) (SignalResult F))
      → HasNoOrders bot
      → Holds HasNoOrders (in_bot bot (λ i. record bot.indicators { atr = i }) c)
  atr_keeps bot (returned a s) h = h
  atr_keeps bot (thrown a) h = h
  atr_keeps bot undefined h = tt

  never_trades : Keeps HasNoOrders (VolatilityBreakout.execute_trading_logic {F = F})
  unfolding VolatilityBreakout.execute_trading_logic
  never_trades =
      then-Keeps
        (record { keeps = λ bot h. atr_keeps bot (Atr.calculate_signal bot.indicators.atr) h })
        (λ s. vwap_throws _ s)

  -- Whatever the bars and the rounds, a run with a defined result leaves Volatility_Breakout without any
  -- order: each time its logic throws at the latest where it asks for the single value of a vector.
  pub volatility_breakout_idle :
      (bars : Option (List (Bar F))) (rs : List (Round F)) {bot' : Bot F (VolatilityBreakout F)}
      → run volatility_breakout rs (initialize volatility_breakout bars volatility_breakout_bot)
        ≡ some bot'
      → bot'.orders ≡ []
  volatility_breakout_idle bars rs e =
      run_rule volatility_breakout {P = HasNoOrders}
        (record { by_market = λ b i d c k. k; by_logic = never_trades }) bars rs
        volatility_breakout_bot refl e
