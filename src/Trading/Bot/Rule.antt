-- ===== src/Trading/Bot/Rule.antt =====
-- What a call on a bot (Computing-Server/src/Velocity-Bot/strategies) keeps, whether it returns or throws.
use velocity_vortex.Base.{◌≡◌, refl, Bool, true, false, not, ◌&&◌, if◌then◌else◌}
use velocity_vortex.Trading.Double.{Double}
use velocity_vortex.Trading.Indicator.{
  Call, returned, thrown, undefined, SignalResult, single, vector, get_single_value,
}
use velocity_vortex.Trading.Bot.{
  Bot, Strategy, after_call, ◌>>=◌, in_bot, with_indicators, single_value, trade, bought, sold,
}

abbrev pub Holds : {S A : Type 0} → (S → Type 0) → Call S A → Type 0
Holds P (returned s x) = P s
Holds P (thrown s) = P s
Holds P undefined = Unit {0}

pub record Keeps {S A : Type 0} (P : S → Type 0) (m : S → Call S A) : Type 0 where
  pub keeps : (s : S) → P s → Holds P (m s)

pub after_call-Holds :
    {S A B : Type 0} (P : S → Type 0) (c : Call S A) (f : A → S → Call S B)
    → Holds P c
    → ((x : A) → Keeps P (f x))
    → Holds P (after_call c f)
after_call-Holds P (returned s x) f h k = (k x).keeps s h
after_call-Holds P (thrown s) f h k = h
after_call-Holds P undefined f h k = tt

pub then-Keeps :
    {S A B : Type 0} {P : S → Type 0} {m : S → Call S A} {f : A → S → Call S B}
    → Keeps P m
    → ((x : A) → Keeps P (f x))
    → Keeps P (m >>= f)
then-Keeps {P = P} {m = m} {f = f} h k = record {
  keeps = λ s q. after_call-Holds P (m s) f (h.keeps s q) k;
}

-- It survives calls of indicators, a buy order without a position and a sell order with one.
pub record IsKept {F : Double} {I : Type 0} (P : Bot F I → Type 0) : Type 0 where
  pub by_indicators : (bot : Bot F I) (i : I) → P bot → P (with_indicators bot i)
  pub by_buying : (bot : Bot F I) → bot.position_open ≡ false → P bot → P (bought bot)
  pub by_selling : (bot : Bot F I) → bot.position_open ≡ true → P bot → P (sold bot)

-- The bot's logic does nothing else to it.
abbrev pub Obeys : {F : Double} {I : Type 0} → Strategy F I → Type 1
Obeys {F = F} {I = I} strategy =
    (P : Bot F I → Type 0) → IsKept P → Keeps P strategy.execute_trading_logic

module _ {F : Double} {I : Type 0} (P : Bot F I → Type 0) (kept : IsKept P) where
  in_bot-Holds :
      {J A : Type 0} (bot : Bot F I) (put : J → I) (c : Call J A)
      → P bot
      → Holds P (in_bot bot put c)
  in_bot-Holds bot put (returned j x) h = kept.by_indicators bot (put j) h
  in_bot-Holds bot put (thrown j) h = kept.by_indicators bot (put j) h
  in_bot-Holds bot put undefined h = tt

  pub in_bot-Keeps :
      {J A : Type 0} (put : Bot F I → J → I) (c : Bot F I → Call J A)
      → Keeps P (λ bot. in_bot bot (put bot) (c bot))
  in_bot-Keeps put c = record { keeps = λ bot h. in_bot-Holds bot (put bot) (c bot) h }

  pub single_value-Keeps : (s : SignalResult F) → Keeps P (single_value s)
  unfolding single_value get_single_value
  single_value-Keeps (single x) = record { keeps = λ bot h. h }
  single_value-Keeps (vector xs) = record { keeps = λ bot h. h }

  trade_by :
      (open_now may_buy may_sell : Bool) (bot : Bot F I)
      → bot.position_open ≡ open_now
      → P bot
      → Holds P (
          if not open_now && may_buy
          then returned (bought bot) tt
          else if open_now && may_sell
          then returned (sold bot) tt
          else returned bot tt)
  trade_by false false s bot e h = h
  trade_by false true s bot e h = kept.by_buying bot e h
  trade_by true b false bot e h = h
  trade_by true b true bot e h = kept.by_selling bot e h

  pub trade-Keeps : (may_buy may_sell : Bool) → Keeps P (trade may_buy may_sell)
  unfolding trade
  trade-Keeps b s = record { keeps = λ bot h. trade_by bot.position_open b s bot refl h }
