-- ===== src/Orderbook/Invariant.antt =====
-- What is well formed: the price levels of one side, and a trade.
use velocity_vortex.Base.{◌≤◌, ◌<◌, ◌≡◌, true, List, [], ◌∷◌, All}
use velocity_vortex.Base.Int.{ℤ, ◌≤ℤ◌, ltb_ℤ}
use velocity_vortex.Orderbook.Order.{Order, good_till_cancel, Side, Trade}
use velocity_vortex.Orderbook.Level.{Level, before}

-- An order that rests at this price of this side: open, and no FillAndKill order.
pub record IsResting (s : Side) (p : ℤ) (o : Order) : Type 0 where
  pub on_side : o.side ≡ s
  pub at_price : o.price ≡ p
  pub is_open : 0 < o.remaining_quantity
  pub within : o.remaining_quantity ≤ o.initial_quantity
  pub lasting : o.order_type ≡ good_till_cancel

abbrev pub AllResting : Side → List Level → Type 0
AllResting s = All (λ l. All (IsResting s l.price) l.orders)

-- The price comes before those of all the levels.
abbrev pub IsBefore : Side → ℤ → List Level → Type 0
IsBefore s p = All (λ l. before s p l.price ≡ true)

abbrev pub IsSorted : Side → List Level → Type 0
IsSorted s [] = Unit {0}
IsSorted s (l ∷ ls) = IsBefore s l.price ls × IsSorted s ls

-- Both parties get the same quantity, and neither a worse price than its own.
pub record IsFair (t : Trade) : Type 0 where
  pub same : t.bid_trade.quantity ≡ t.ask_trade.quantity
  pub some_quantity : 0 < t.bid_trade.quantity
  pub prices : t.ask_trade.price ≤ℤ t.bid_trade.price

-- No bid reaches an ask: it is enough to compare the best levels.
abbrev pub IsUncrossed : List Level → List Level → Type 0
IsUncrossed [] asks = Unit {0}
IsUncrossed (b ∷ bs) [] = Unit {0}
IsUncrossed (b ∷ bs) (a ∷ ls) = ltb_ℤ b.price a.price ≡ true
