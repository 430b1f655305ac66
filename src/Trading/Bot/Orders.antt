-- ===== src/Trading/Bot/Orders.antt =====
-- The orders that a bot of Computing-Server/src/Velocity-Bot/strategies places over a run.
use velocity_vortex.Base.{◌≡◌, refl, subst, Bool, true, false, Option, none, some, List, [], ◌∷◌}
use velocity_vortex.Trading.Double.{Double}
use velocity_vortex.Trading.Candle.{Bar}
use velocity_vortex.Trading.Bot.{
  BotOrder, buy_order, sell_order, Bot, Strategy, Round, initialize, run,
}
use velocity_vortex.Trading.Bot.Run.{run_rule}
use velocity_vortex.Trading.Bot.Rule.{IsKept, Obeys}

-- The orders take turns, the first of all a buy; a position is open if the latest is a buy.
abbrev pub Alternate : Bool → List BotOrder → Type 0
Alternate false [] = Unit {0}
Alternate true [] = ⊥
Alternate true (buy_order ∷ os) = Alternate false os
Alternate false (buy_order ∷ os) = ⊥
Alternate true (sell_order ∷ os) = ⊥
Alternate false (sell_order ∷ os) = Alternate true os

abbrev pub latest : List BotOrder → Option BotOrder
latest [] = none
latest (o ∷ os) = some o

-- The bot's account of its position is that of its orders.
abbrev pub IsConsistent : {F : Double} {I : Type 0} → Bot F I → Type 0
IsConsistent bot =
    Alternate bot.position_open bot.orders × (bot.current_position ≡ latest bot.orders)

module _ {F : Double} {I : Type 0} where
  IsConsistent-IsKept : IsKept {F = F} {I = I} IsConsistent
  IsConsistent-IsKept = record {
    by_indicators = λ bot i h. h;
    by_buying = λ bot e h. (subst (λ p. Alternate p bot.orders) e h.0, refl);
    by_selling = λ bot e h. (subst (λ p. Alternate p bot.orders) e h.0, refl);
  }

  -- If a bot's logic only calls indicators and trades as its position allows, then for any bars to begin
  -- with and any rounds of a run with a defined result, its orders are a buy, a sell, a buy and so on, it
  -- has an open position just after a buy, and its current position is its latest order.
  pub run-IsConsistent :
      (strategy : Strategy F I) (bars : Option (List (Bar F))) (rs : List (Round F)) (bot : Bot F I)
      {bot' : Bot F I}
      → Obeys strategy
      → IsConsistent bot
      → run strategy rs (initialize strategy bars bot) ≡ some bot'
      → IsConsistent bot'
  run-IsConsistent strategy bars rs bot obeys h e =
      run_rule strategy {P = IsConsistent}
        (record { by_market = λ b i d c k. k; by_logic = obeys IsConsistent IsConsistent-IsKept })
        bars rs bot h e
