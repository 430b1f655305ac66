-- ===== src/Orderbook/Matching/Fair.antt =====
-- The loops of `MatchOrders` (Computing-Server/src/Orderbook/order_book.cpp) keep both sides well
-- formed and make fair trades only.
use velocity_vortex.Base.{
  ℕ, ◌-◌, ◌<◌, ◌≡◌, refl, false, some, List, [], ◌∷◌, ◌++◌, All, All-append, arith,
}
use velocity_vortex.Base.Int.{ℤ, ltb_ℤ}
use velocity_vortex.Orderbook.Order.{Order, Side, buy, sell, Trade}
use velocity_vortex.Orderbook.Level.{Level}
use velocity_vortex.Orderbook.Match.{Index, Front, Matching, match_loop, trade_of}
use velocity_vortex.Orderbook.Invariant.{IsResting, AllResting, IsSorted, IsFair}
use velocity_vortex.Orderbook.Matching.Rule.{IsKept, front, at_front, matching, match_loop_inv}
use velocity_vortex.Orderbook.Matching.Exchange.{
  Exchange, nothing, both_filled, bid_filled, ask_filled, trade_fronts-Exchange, remaining,
}

pub record IsFormed (m : Matching) : Type 0 where
  pub bids_resting : AllResting buy m.bids
  pub bids_sorted : IsSorted buy m.bids
  pub asks_resting : AllResting sell m.asks
  pub asks_sorted : IsSorted sell m.asks
  pub fair : All IsFair m.trades

remaining-IsResting :
    (s : Side) (p : ℤ) (o : Order) (q : ℕ)
    → IsResting s p o
    → q < o.remaining_quantity
    → IsResting s p (remaining (o.remaining_quantity - q) o)
remaining-IsResting s p o q r lt = ground arith

trade_of-IsFair :
    (pb pa : ℤ) (q : ℕ) (bid ask : Order)
    → ltb_ℤ pb pa ≡ false
    → bid.price ≡ pb
    → ask.price ≡ pa
    → 0 < q
    → IsFair (trade_of q bid ask)
trade_of-IsFair pb pa q bid ask go eb ea h = record {
  same = refl;
  some_quantity = h;
  prices = rw (eb, ea) (ground arith);
}

module _ (pb pa : ℤ) (bs ls : List Level) (go : ltb_ℤ pb pa ≡ false) where
  -- The case in which the fair trade of quantity `q` ends the list of trades.
  traded :
      {bid : Order} {bids : List Order} {ask : Order} {asks : List Order} {index : Index}
      {trades : List Trade} (q : ℕ) (s : Front)
      → 0 < q
      → s.trades ≡ trades ++ (trade_of q bid ask ∷ [])
      → All (IsResting buy pb) s.bids
      → All (IsResting sell pa) s.asks
      → IsFormed (at_front pb bs pa ls (front (bid ∷ bids) (ask ∷ asks) index trades))
      → IsFormed (at_front pb bs pa ls s)
  traded {bid} {ask = ask} {trades = ts} q s h e rb ra v = record {
    bids_resting = (rb, v.bids_resting.1);
    bids_sorted = v.bids_sorted;
    asks_resting = (ra, v.asks_resting.1);
    asks_sorted = v.asks_sorted;
    fair = rw e (
        All-append IsFair ts _ v.fair (
          trade_of-IsFair pb pa q bid ask go v.bids_resting.0.0.at_price v.asks_resting.0.0.at_price
              h,
          tt,
        ));
  }

  Exchange-IsFormed :
      {bid : Order} {bids : List Order} {ask : Order} {asks : List Order} {index : Index}
      {trades : List Trade} {s : Front}
      → Exchange bid bids ask asks index trades s
      → IsFormed (at_front pb bs pa ls (front (bid ∷ bids) (ask ∷ asks) index trades))
      → IsFormed (at_front pb bs pa ls s)
  Exchange-IsFormed (nothing z e) v = rw e v
  Exchange-IsFormed (both_filled p q e) v =
      rw e (traded _ _ p refl v.bids_resting.0.1 v.asks_resting.0.1 v)
  Exchange-IsFormed {ask = ask} (bid_filled p q e) v = rw e (
      traded _ _ p refl v.bids_resting.0.1
        (remaining-IsResting sell pa ask _ v.asks_resting.0.0 q, v.asks_resting.0.1) v)
  Exchange-IsFormed {bid} (ask_filled p q e) v = rw e (
      traded _ _ p refl (remaining-IsResting buy pb bid _ v.bids_resting.0.0 q, v.bids_resting.0.1)
        v.asks_resting.0.1 v)

IsFormed-IsKept : IsKept IsFormed
IsFormed-IsKept = record {
  trade = λ pb pa bs ls bid bids ask asks ix ts go v.
      Exchange-IsFormed pb pa bs ls go (trade_fronts-Exchange bid bids ask asks ix ts) v;
  drop_bid = λ p bs asks ix ts v. record {
    bids_resting = v.bids_resting.1;
    bids_sorted = v.bids_sorted.1;
    asks_resting = v.asks_resting;
    asks_sorted = v.asks_sorted;
    fair = v.fair;
  };
  drop_ask = λ p bids ls ix ts v. record {
    bids_resting = v.bids_resting;
    bids_sorted = v.bids_sorted;
    asks_resting = v.asks_resting.1;
    asks_sorted = v.asks_sorted.1;
    fair = v.fair;
  };
}

-- If the orders of both sides are open, stand at their prices and the levels are sorted, then so is
-- what the loops leave, and every trade is between equal quantities, at a bid price that is no less
-- than the ask price.
pub match_loop-IsFormed :
    (f : ℕ) (bids asks : List Level) (index : Index) {m : Matching}
    → AllResting buy bids
    → IsSorted buy bids
    → AllResting sell asks
    → IsSorted sell asks
    → match_loop f bids asks index [] ≡ some m
    → IsFormed m
match_loop-IsFormed f bids asks index ob sb oa sa e =
    match_loop_inv IsFormed IsFormed-IsKept f bids asks index [] start e
  where
    start : IsFormed (matching bids asks index [])
    start = record {
      bids_resting = ob;
      bids_sorted = sb;
      asks_resting = oa;
      asks_sorted = sa;
      fair = tt;
    }
