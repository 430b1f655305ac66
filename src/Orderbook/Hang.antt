-- ===== src/Orderbook/Hang.antt =====
-- When `Orderbook::AddOrder` (Computing-Server/src/Orderbook/order_book.cpp) returns, and when its
-- matching loop never ends.
use velocity_vortex.Base.{
  ℕ, ◌+◌, ◌<◌, ◌≡◌, refl, subst, ◌∙◌, ◌⊎◌, inl, inr, true, false, none, some, List, [], ◌∷◌, ◌++◌,
  All, arith,
}
use velocity_vortex.Base.Int.{ℤ, ltb_ℤ}
use velocity_vortex.Orderbook.Order.{Order, good_till_cancel, Side, buy, sell, Trade}
use velocity_vortex.Orderbook.Level.{Level, level, push_back}
use velocity_vortex.Orderbook.Match.{find, Matching, match_loop}
use velocity_vortex.Orderbook.Book.{Orderbook, done, hung, held, add_order}
use velocity_vortex.Orderbook.Invariant.{IsResting, AllResting, IsUncrossed}
use velocity_vortex.Orderbook.Insert.{push_back_cases}
use velocity_vortex.Orderbook.Valid.{IsValid, IsNew}
use velocity_vortex.Orderbook.Ready.{insert_buy}
use velocity_vortex.Orderbook.Add.{
  inserted, IsSafe, add_order-IsSafe, add_order_returned, add_order_hung,
}
use velocity_vortex.Orderbook.Matching.Ends.{IsOpen}
use velocity_vortex.Orderbook.Matching.Spin.{OpenLevels, HasOrders, weight, empty_asks-Spins}
use velocity_vortex.Orderbook.Matching.Uncross.{IsNewBid, new_bid-Returns, match_loop_idle}

-- A new bid is behind a level at least as good, or it is the best level.
push_back_buy_cases :
    (o : Order) (bids asks : List Level)
    → IsUncrossed bids asks
    → IsUncrossed (push_back buy o bids) asks
      ⊎ (push_back buy o bids ≡ level o.price (o ∷ []) ∷ bids)
unfolding push_back
push_back_buy_cases o [] asks u = inr refl
push_back_buy_cases o (l ∷ ls) asks u =
    push_back_cases buy o (λ ks. IsUncrossed ks asks ⊎ (ks ≡ level o.price (o ∷ []) ∷ l ∷ ls)) l ls
      (λ e. inl (behind asks l.orders (push_back buy o ls) u)) (λ e. inr refl)
      (λ e. inl (behind asks (l.orders ++ (o ∷ [])) ls u))
  where
    behind :
        (ks : List Level) (os : List Order) (ms : List Level)
        → IsUncrossed (l ∷ ls) ks
        → IsUncrossed (level l.price os ∷ ms) ks
    behind [] os ms w = tt
    behind (k ∷ ks) os ms w = w

resting_open : (s : Side) (ls : List Level) → AllResting s ls → OpenLevels ls
resting_open s [] r = tt
resting_open s (l ∷ ls) r = (orders_open l.orders r.0, resting_open s ls r.1)
  where
    orders_open : (os : List Order) → All (IsResting s l.price) os → All IsOpen os
    orders_open [] q = tt
    orders_open (o ∷ os) q = (q.0.is_open, orders_open os q.1)

module _ (o : Order) (b : Orderbook) (v : IsValid b) (n : IsNew o) (is_buy : o.side ≡ buy)
    (gtc : o.order_type ≡ good_till_cancel) (fresh : find o.order_id b.orders ≡ none) where
  pub inserted_buy :
      (fuel : ℕ)
      → inserted fuel o b
        ≡ match_loop fuel
            (push_back buy o b.bids)
            b.asks
            ((o.order_id, record { side = buy; price = o.price }) ∷ b.orders)
            []
  unfolding inserted
  inserted_buy fuel = rw (insert_buy o (held b) is_buy)

  buy_matched :
      (fuel : ℕ)
      → All HasOrders b.asks
      → 1 + weight b.asks < fuel
      → (m : Matching) × (inserted fuel o b ≡ some m)
  buy_matched fuel filled enough =
      rw (inserted_buy fuel) (elim (push_back_buy_cases o b.bids b.asks v.uncrossed) [
        | inl u ↦ (_, match_loop_idle fuel _ _ _ [] (omega arith) u)
        | inr e ↦
            rw e
              (new_bid-Returns fuel (level o.price (o ∷ [])) b.bids b.asks _ [] best (omega arith))
      ])
    where
      best : IsNewBid (level o.price (o ∷ [])) b.bids b.asks
      best = record {
        bid_open = (omega (arith, n.some_quantity, n.unfilled), tt);
        bid_filled = λ e. cc;
        asks_open = resting_open sell b.asks v.asks_resting;
        asks_filled = filled;
        asks_sorted = v.asks_sorted;
        below = v.uncrossed;
      }

  -- If every ask level of a valid book has orders, adding an unfilled GoodTillCancel buy order of
  -- some quantity, with an id that the book does not have, returns as add_order-IsSafe says, with one more
  -- unit of fuel than the asks have levels and orders and the new order makes.
  pub add_buy_returns :
      (fuel : ℕ)
      → All HasOrders b.asks
      → 1 + weight b.asks < fuel
      → (ts : List Trade) × (b' : Orderbook) × (add_order fuel o b ≡ done (ts, b'))
        × IsSafe o b (done (ts, b'))
  add_buy_returns fuel filled enough =
      let (m, e) = buy_matched fuel filled enough in
      let returned = add_order_returned fuel o b v n gtc fresh e in
      (_, _, returned, subst (IsSafe o b) returned (add_order-IsSafe fuel o b v n gtc fresh))

  pub push_back_top :
      (p : ℤ) (os : List Order) (ls bids : List Level)
      → IsUncrossed bids (level p os ∷ ls)
      → ltb_ℤ o.price p ≡ false
      → push_back buy o bids ≡ level o.price (o ∷ []) ∷ bids
  unfolding push_back
  push_back_top p os ls [] u h = refl
  push_back_top p os ls (l ∷ bids) u h =
      push_back_cases buy o (λ ks. ks ≡ level o.price (o ∷ []) ∷ l ∷ bids) l bids
        (λ e. absurd (worse u e)) (λ e. refl) (λ e. absurd (worse_price u e))
    where
      worse : ltb_ℤ l.price p ≡ true → ltb_ℤ o.price l.price ≡ true → ⊥
      worse w k = ground arith

      worse_price : ltb_ℤ l.price p ≡ true → l.price ≡ o.price → ⊥
      worse_price w k = ground arith

  -- If the best ask level has no orders, adding a new buy order that reaches its price hangs: the
  -- matching loop does not end, whatever the fuel.
  pub empty_level_hangs :
      (p : ℤ) (ls : List Level)
      → b.asks ≡ level p [] ∷ ls
      → ltb_ℤ o.price p ≡ false
      → (fuel : ℕ) → add_order fuel o b ≡ hung
  empty_level_hangs p ls e reach fuel = add_order_hung fuel o b v.unlocked gtc fresh (
      inserted_buy fuel
      ∙ rw e (
          rw (push_back_top p [] ls b.bids (subst (IsUncrossed b.bids) e v.uncrossed) reach)
            (empty_asks-Spins o.price p (o ∷ []) b.bids ls _ [] reach fuel)))
