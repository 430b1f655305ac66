-- ===== src/Trading/Bot/Consistent.antt =====
-- The orders of the three bots of Computing-Server/src/Velocity-Bot/strategies that can trade.
use velocity_vortex.Base.{◌≡◌, refl, Option, some, List}
use velocity_vortex.Trading.Double.{Double}
use velocity_vortex.Trading.Candle.{Bar}
use velocity_vortex.Trading.Indicator.{Indicator}
use velocity_vortex.Trading.Bot.{Bot, Round, initialize, run}
use velocity_vortex.Trading.Bot.Obeys.{
  trend_following-Obeys, mean_reversion-Obeys, fibonacci_retracement-Obeys,
}
use velocity_vortex.Trading.Bot.Orders.{IsConsistent, run-IsConsistent}
use velocity_vortex.Trading.Bot.TrendFollowing.{
  TrendFollowing, trend_following, trend_following_bot,
}
use velocity_vortex.Trading.Bot.MeanReversion.{MeanReversion, mean_reversion, mean_reversion_bot}
use velocity_vortex.Trading.Bot.FibonacciRetracement.{fibonacci_retracement, fibonacci_bot}

module _ {F : Double} (bars : Option (List (Bar F))) (rs : List (Round F)) where
  -- For any bars to begin with and any rounds of a run of BOT_Trend_Following with a defined result: its
  -- orders are a buy, a sell, a buy and so on, it has an open position just after a buy, and its current
  -- position is its latest order.
  pub trend_following-IsConsistent :
      {bot : Bot F (TrendFollowing F)}
      → run trend_following rs (initialize trend_following bars trend_following_bot) ≡ some bot
      → IsConsistent bot
  trend_following-IsConsistent e =
      run-IsConsistent trend_following bars rs trend_following_bot trend_following-Obeys (tt, refl)
        e

  -- For any bars to begin with and any rounds of a run of Mean_Reversion with a defined result: its
  -- orders are a buy, a sell, a buy and so on, it has an open position just after a buy, and its current
  -- position is its latest order.
  pub mean_reversion-IsConsistent :
      {bot : Bot F (MeanReversion F)}
      → run mean_reversion rs (initialize mean_reversion bars mean_reversion_bot) ≡ some bot
      → IsConsistent bot
  mean_reversion-IsConsistent e =
      run-IsConsistent mean_reversion bars rs mean_reversion_bot mean_reversion-Obeys (tt, refl) e

  -- For any bars to begin with and any rounds of a run of Reversal_Fibonacci_Retracement with a defined result: its
  -- orders are a buy, a sell, a buy and so on, it has an open position just after a buy, and its current
  -- position is its latest order.
  pub fibonacci_retracement-IsConsistent :
      {bot : Bot F (Indicator F)}
      → run fibonacci_retracement rs (initialize fibonacci_retracement bars fibonacci_bot)
        ≡ some bot
      → IsConsistent bot
  fibonacci_retracement-IsConsistent e =
      run-IsConsistent fibonacci_retracement bars rs fibonacci_bot fibonacci_retracement-Obeys
        (tt, refl) e
