-- ===== src/Orderbook/Match.antt =====
-- The two loops of `Orderbook::MatchOrders`, Computing-Server/src/Orderbook/order_book.cpp. Both
-- take fuel, one unit a round.
use velocity_vortex.Base.{
  ℕ, zero, suc, true, false, Option, none, some, List, [], ◌∷◌, ◌++◌, ltb, ◌==◌, if◌then◌else◌, min,
}
use velocity_vortex.Base.Int.{ℤ, ltb_ℤ}
use velocity_vortex.Orderbook.Order.{Order, Side, Trade, fill, is_filled}
use velocity_vortex.Orderbook.Level.{Level}

-- The value of `orders_`: the order's side and price, which never change. `location_` is the node of
-- the order with the entry's id in that level.
pub record OrderEntry : Type 0 where
  pub side : Side
  pub price : ℤ

-- std::unordered_map<OrderId, OrderEntry>.
abbrev pub Index : Type 0
Index = List (ℕ × OrderEntry)

unfoldable pub find : ℕ → Index → Option OrderEntry
find i [] = none
find i ((j, e) ∷ m) = if j == i then some e else find i m

unfoldable pub erase : ℕ → Index → Index
erase i [] = []
erase i ((j, e) ∷ m) = if j == i then m else (j, e) ∷ erase i m

-- What the loops change: the queues of the two best levels, `orders_` and the trades so far.
pub record Front : Type 0 where
  pub bids : List Order
  pub asks : List Order
  pub index : Index
  pub trades : List Trade

abbrev pub trade_of : ℕ → Order → Order → Trade
trade_of q b a = record {
  bid_trade = record { order_id = b.order_id; quantity = q; price = b.price };
  ask_trade = record { order_id = a.order_id; quantity = q; price = a.price };
}

-- `if (front->IsFilled()) { orders_.erase(front->GetOrderId()); orders.pop_front(); }`
unfoldable pub pop_filled : Order → List Order → Index → List Order × Index
unfolding is_filled
pop_filled o os index = if is_filled o then (os, erase o.order_id index) else (o ∷ os, index)

-- The body of the inner loop up to the tests for empty queues, at the fronts `bid` and `ask`.
unfoldable pub trade_fronts : Order → List Order → Order → List Order → Index → List Trade → Front
unfolding fill pop_filled
trade_fronts bid bids ask asks index trades =
    let q = min bid.remaining_quantity ask.remaining_quantity in
    let (bids', index') = pop_filled (fill q bid) bids index in
    let (asks', index'') = pop_filled (fill q ask) asks index' in
    if ltb 0 q
    then record {
      bids = bids';
      asks = asks';
      index = index'';
      trades = trades ++ (trade_of q bid ask ∷ []);
    }
    else record { bids = bid ∷ bids; asks = ask ∷ asks; index = index; trades = trades }

-- How the inner loop ends: by a `break` after the bid level or the ask level was erased, or by its
-- own test before any round. `out_of_fuel`: it has not ended yet.
pub data LevelExit : Type 0 where
  bids_out asks_out not_entered : Front → LevelExit
  out_of_fuel : LevelExit

-- `while (!bids.empty() && !asks.empty())`.
unfoldable pub match_level : ℕ → List Order → List Order → Index → List Trade → LevelExit
unfolding trade_fronts
match_level zero bids asks index trades = out_of_fuel
match_level (suc f) [] asks index trades =
    not_entered (record { bids = []; asks = asks; index = index; trades = trades })
match_level (suc f) (bid ∷ bids) [] index trades =
    not_entered (record { bids = bid ∷ bids; asks = []; index = index; trades = trades })
match_level (suc f) (bid ∷ bids) (ask ∷ asks) index trades =
    let s = trade_fronts bid bids ask asks index trades in
    let rest = match_level f s.bids s.asks s.index s.trades in
    elim s.bids [ [] ↦ bids_out s | _ ∷ _ ↦ elim s.asks [ [] ↦ asks_out s | _ ∷ _ ↦ rest ] ]

-- What `MatchOrders` changes.
pub record Matching : Type 0 where
  pub bids : List Level
  pub asks : List Level
  pub index : Index
  pub trades : List Trade

-- `while (!bids_.empty() && !asks_.empty())`. Of the two best levels only the one on which the
-- inner loop ended is erased; the other stays, with the orders that are left in it, if any.
-- `none`: the loop has not ended within the fuel.
unfoldable pub match_loop : ℕ → List Level → List Level → Index → List Trade → Option Matching
unfolding match_level
match_loop zero bids asks index trades = none
match_loop (suc f) [] asks index trades =
    some (record { bids = []; asks = asks; index = index; trades = trades })
match_loop (suc f) (b ∷ bs) [] index trades =
    some (record { bids = b ∷ bs; asks = []; index = index; trades = trades })
match_loop (suc f) (b ∷ bs) (a ∷ ls) index trades = elim (ltb_ℤ b.price a.price) [
  | true ↦ some (record { bids = b ∷ bs; asks = a ∷ ls; index = index; trades = trades })
  | false ↦ elim (match_level (suc f) b.orders a.orders index trades) [
    | out_of_fuel ↦ none
    | bids_out s ↦ match_loop f bs (record a { orders = s.asks } ∷ ls) s.index s.trades
    | asks_out s ↦ match_loop f (record b { orders = s.bids } ∷ bs) ls s.index s.trades
    | not_entered s ↦
        match_loop f (record b { orders = s.bids } ∷ bs) (record a { orders = s.asks } ∷ ls) s.index
          s.trades
  ]
]
