-- ===== src/Trading/Bot/Run.antt =====
-- A rule for what holds over a run of a bot of Computing-Server/src/Velocity-Bot/strategies.
use velocity_vortex.Base.{
  ◌≡◌, subst, inl, inr, Option, none, some, List, [], ◌∷◌, ◌++◌, length, ◌==◌, Bool-cases,
}
use velocity_vortex.Trading.Double.{Double}
use velocity_vortex.Trading.Candle.{Ohlcv, Bar, bar_to_ohlcv, build_aggregated_candle}
use velocity_vortex.Trading.Indicator.{Call, returned, thrown, undefined}
use velocity_vortex.Trading.Bot.{
  Bot, Strategy, Round, failed, closed, no_bar, latest_bar, caught, load_bars, initialize,
  close_candle, process_trading, round, run, with_candle,
}
use velocity_vortex.Trading.Bot.Rule.{Holds, Keeps}

abbrev pub HoldsIn : {A : Type 0} → (A → Type 0) → Option A → Type 0
HoldsIn P none = Unit {0}
HoldsIn P (some x) = P x

-- New data and candles do not break it, and the bot's logic keeps it.
pub record IsRunKept {F : Double} {I : Type 0} (strategy : Strategy F I) (P : Bot F I → Type 0)
    : Type 0 where
  pub by_market :
      (bot : Bot F I) (i : I) (h c : List (Ohlcv F))
      → P bot
      → P (record bot { indicators = i; historical_data = h; one_min_candles = c })
  pub by_logic : Keeps P strategy.execute_trading_logic

module _ {F : Double} {I : Type 0} where
  caught-HoldsIn :
      (P : Bot F I → Type 0) (c : Call (Bot F I) (Unit {0})) → Holds P c → HoldsIn P (caught c)
  caught-HoldsIn P (returned b x) h = h
  caught-HoldsIn P (thrown b) h = h
  caught-HoldsIn P undefined h = tt

module _ {F : Double} {I : Type 0} (strategy : Strategy F I) {P : Bot F I → Type 0}
    (kept : IsRunKept strategy P) where
  close_candle_keeps :
      (c : Option (Ohlcv F)) (bot : Bot F I) → P bot → HoldsIn P (close_candle strategy c bot)
  unfolding close_candle
  close_candle_keeps none bot h = tt
  close_candle_keeps (some c) bot h =
      caught-HoldsIn P _ (kept.by_logic.keeps _ (kept.by_market bot _ _ [] h))

  round_keeps : (r : Round F) (bot : Bot F I) → P bot → HoldsIn P (round strategy r bot)
  unfolding round process_trading
  round_keeps failed bot h = h
  round_keeps closed bot h = h
  round_keeps no_bar bot h = h
  round_keeps (latest_bar bar) bot h =
      let candles = bot.one_min_candles ++ (bar_to_ohlcv bar ∷ []) in
      elim (Bool-cases (length candles == strategy.candle_count)) [
        | inl e ↦ rw e (close_candle_keeps (build_aggregated_candle candles) bot h)
        | inr e ↦ rw e (kept.by_market bot bot.indicators bot.historical_data candles h)
      ]

  run_from_keeps : (rs : List (Round F)) (bot : Bot F I) → P bot → HoldsIn P (run strategy rs bot)
  unfolding run
  run_from_keeps [] bot h = h
  run_from_keeps (r ∷ rs) bot h =
      next (round strategy r bot) (round_keeps r bot h) (run_from_keeps rs)
    where
      next :
          (x : Option (Bot F I))
          → HoldsIn P x
          → ((b : Bot F I) → P b → HoldsIn P (run strategy rs b))
          → HoldsIn P (elim x [ none ↦ none | some bot' ↦ run strategy rs bot' ])
      next none k rec = tt
      next (some bot') k rec = rec bot' k

  load_bars_keeps : (bars : List (Bar F)) (bot : Bot F I) → P bot → P (load_bars strategy bars bot)
  unfolding load_bars
  load_bars_keeps [] bot h = h
  load_bars_keeps (bar ∷ bars) bot h =
      load_bars_keeps bars (with_candle strategy (bar_to_ohlcv bar) bot)
        (kept.by_market bot _ _ bot.one_min_candles h)

  initialize_keeps :
      (bars : Option (List (Bar F))) (bot : Bot F I) → P bot → P (initialize strategy bars bot)
  unfolding initialize
  initialize_keeps none bot h = h
  initialize_keeps (some bars) bot h = load_bars_keeps bars bot h

  pub run_rule :
      (bars : Option (List (Bar F))) (rs : List (Round F)) (bot : Bot F I) {bot' : Bot F I}
      → P bot
      → run strategy rs (initialize strategy bars bot) ≡ some bot'
      → P bot'
  run_rule bars rs bot h e =
      subst (HoldsIn P) e
        (run_from_keeps rs (initialize strategy bars bot) (initialize_keeps bars bot h))
