-- ===== src/Orderbook/Matching/Exchange.antt =====
-- The cases of one round of the inner loop of `MatchOrders`
-- (Computing-Server/src/Orderbook/order_book.cpp), with the state that each leaves.
use velocity_vortex.Base.{ℕ, ◌-◌, ◌<◌, ◌≡◌, ◌⊎◌, inl, inr, List, [], ◌∷◌, ◌++◌, arith, min}
use velocity_vortex.Orderbook.Order.{Order, Trade}
use velocity_vortex.Orderbook.Match.{Index, Front, erase, trade_fronts, trade_of}
use velocity_vortex.Orderbook.Matching.Rule.{front}

abbrev pub remaining : ℕ → Order → Order
remaining q o = record o { remaining_quantity = q }

pub data Exchange (bid : Order) (bids : List Order) (ask : Order) (asks : List Order)
    (index : Index) (trades : List Trade) (s : Front) : Type 0 where
  nothing :
      min bid.remaining_quantity ask.remaining_quantity ≡ 0
      → s ≡ front (bid ∷ bids) (ask ∷ asks) index trades
      → Exchange bid bids ask asks index trades s
  both_filled :
      0 < bid.remaining_quantity
      → bid.remaining_quantity ≡ ask.remaining_quantity
      → s
        ≡ front bids asks
            (erase ask.order_id (erase bid.order_id index))
            (trades ++ (trade_of bid.remaining_quantity bid ask ∷ []))
      → Exchange bid bids ask asks index trades s
  bid_filled :
      0 < bid.remaining_quantity
      → bid.remaining_quantity < ask.remaining_quantity
      → s
        ≡ front bids
            (remaining (ask.remaining_quantity - bid.remaining_quantity) ask ∷ asks)
            (erase bid.order_id index)
            (trades ++ (trade_of bid.remaining_quantity bid ask ∷ []))
      → Exchange bid bids ask asks index trades s
  ask_filled :
      0 < ask.remaining_quantity
      → ask.remaining_quantity < bid.remaining_quantity
      → s
        ≡ front
            (remaining (bid.remaining_quantity - ask.remaining_quantity) bid ∷ bids)
            asks
            (erase ask.order_id index)
            (trades ++ (trade_of ask.remaining_quantity bid ask ∷ []))
      → Exchange bid bids ask asks index trades s

quantity_cases :
    (a b : ℕ)
    → (min a b ≡ 0)
      ⊎ ((0 < a) × (a ≡ b) × (min a b ≡ a))
      ⊎ ((0 < a) × (a < b) × (min a b ≡ a))
      ⊎ ((0 < b) × (b < a) × (min a b ≡ b))
quantity_cases a b = grind arith

module _ (bid : Order) (bids : List Order) (ask : Order) (asks : List Order) (index : Index)
    (trades : List Trade) where
  pub trade_fronts-Exchange :
      Exchange bid bids ask asks index trades (trade_fronts bid bids ask asks index trades)
  unfolding trade_fronts
  trade_fronts-Exchange = elim (quantity_cases bid.remaining_quantity ask.remaining_quantity) [
    | inl z ↦ nothing z (rw z)
    | inr (inl (p, e, m)) ↦ both_filled p e (rw m (ground arith))
    | inr (inr (inl (p, lt, m))) ↦ bid_filled p lt (rw m (ground arith))
    | inr (inr (inr (p, lt, m))) ↦ ask_filled p lt (rw m (ground arith))
  ]
