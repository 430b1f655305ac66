-- ===== src/Orderbook/Matching/Priority.antt =====
-- Price-time priority in the loops of `MatchOrders`
-- (Computing-Server/src/Orderbook/order_book.cpp): orders are used up from the front of the queue
-- that the levels of a side form, one after the other.
use mathlib.Core.List.{append_assoc}
use velocity_vortex.Base.{ℕ, ◌≤◌, ◌≡◌, refl, sym, ap, ◌∙◌, some, List, [], ◌∷◌, ◌++◌, arith}
use velocity_vortex.Base.Int.{ℤ}
use velocity_vortex.Orderbook.Order.{Order, Trade}
use velocity_vortex.Orderbook.Level.{Level}
use velocity_vortex.Orderbook.Match.{Index, Front, Matching, match_loop}
use velocity_vortex.Orderbook.Matching.Rule.{IsKept, front, at_front, match_loop_inv}
use velocity_vortex.Orderbook.Matching.Exchange.{
  Exchange, nothing, both_filled, bid_filled, ask_filled, trade_fronts-Exchange, remaining,
}

-- The orders of a side in the order in which they are to be served.
unfoldable pub queue : List Level → List Order
queue [] = []
queue (l ∷ ls) = l.orders ++ queue ls

-- What is left of a queue: nothing, or all from one order on, of which a part may be filled.
pub data IsRest (l r : List Order) : Type 0 where
  exhausted : r ≡ [] → IsRest l r
  rest_from :
      (served : List Order) (o : Order) (later : List Order) (q : ℕ)
      → l ≡ served ++ (o ∷ later)
      → q ≤ o.remaining_quantity
      → r ≡ remaining q o ∷ later
      → IsRest l r

pub IsRest-refl : (l : List Order) → IsRest l l
IsRest-refl [] = exhausted refl
IsRest-refl (o ∷ os) = rest_from [] o os o.remaining_quantity refl (omega arith) refl

IsRest-fill :
    {l : List Order} (o : Order) (os : List Order) (q : ℕ)
    → q ≤ o.remaining_quantity
    → IsRest l (o ∷ os)
    → IsRest l (remaining q o ∷ os)
IsRest-fill o os q h (exhausted e) = cc
IsRest-fill o os q h (rest_from pre x later k e le e') =
    rest_from pre x later q e (ground arith) (ground arith)

IsRest-pop : {l : List Order} (o : Order) (os : List Order) → IsRest l (o ∷ os) → IsRest l os
IsRest-pop o [] r = exhausted refl
IsRest-pop o (p ∷ os) (exhausted e) = cc
IsRest-pop {l} o (p ∷ os) (rest_from pre x later k e le e') =
    rest_from (pre ++ (x ∷ [])) p os p.remaining_quantity
      (e ∙ (ap (λ t. pre ++ (x ∷ t)) (tails e') ∙ sym (append_assoc pre (x ∷ []) (p ∷ os))))
      (omega arith) refl
  where
    tails : o ∷ p ∷ os ≡ remaining k x ∷ later → later ≡ p ∷ os
    tails h = cc

-- Both sides of the state are what is left of these queues.
pub record AreRests (qb qa : List Order) (m : Matching) : Type 0 where
  pub bids_rest : IsRest qb (queue m.bids)
  pub asks_rest : IsRest qa (queue m.asks)

module _ (qb qa : List Order) where
  Exchange-AreRests :
      (pb pa : ℤ) (bs ls : List Level) {bid : Order} {bids : List Order} {ask : Order}
      {asks : List Order} {index : Index} {trades : List Trade} {s : Front}
      → Exchange bid bids ask asks index trades s
      → AreRests qb qa (at_front pb bs pa ls (front (bid ∷ bids) (ask ∷ asks) index trades))
      → AreRests qb qa (at_front pb bs pa ls s)
  unfolding queue
  Exchange-AreRests pb pa bs ls (nothing z e) h = rw e h
  Exchange-AreRests pb pa bs ls {bid} {bids} {ask} {asks} (both_filled p q e) h = rw e (record {
    bids_rest = IsRest-pop bid (bids ++ queue bs) h.bids_rest;
    asks_rest = IsRest-pop ask (asks ++ queue ls) h.asks_rest;
  })
  Exchange-AreRests pb pa bs ls {bid} {bids} {ask} {asks} (bid_filled p q e) h = rw e (record {
    bids_rest = IsRest-pop bid (bids ++ queue bs) h.bids_rest;
    asks_rest = IsRest-fill ask (asks ++ queue ls) _ (omega arith) h.asks_rest;
  })
  Exchange-AreRests pb pa bs ls {bid} {bids} {ask} {asks} (ask_filled p q e) h = rw e (record {
    bids_rest = IsRest-fill bid (bids ++ queue bs) _ (omega arith) h.bids_rest;
    asks_rest = IsRest-pop ask (asks ++ queue ls) h.asks_rest;
  })

  AreRests-IsKept : IsKept (AreRests qb qa)
  unfolding queue
  AreRests-IsKept = record {
    trade = λ pb pa bs ls bid bids ask asks ix ts go h.
        Exchange-AreRests pb pa bs ls (trade_fronts-Exchange bid bids ask asks ix ts) h;
    drop_bid = λ p bs asks ix ts h. record { bids_rest = h.bids_rest; asks_rest = h.asks_rest };
    drop_ask = λ p bids ls ix ts h. record { bids_rest = h.bids_rest; asks_rest = h.asks_rest };
  }

-- If the loops return, then on each side they leave nothing, or all from one order of the queue on with
-- at most that order changed, and in it only the remaining quantity, which has not grown.
pub match_loop-IsRest :
    (f : ℕ) (bids asks : List Level) (index : Index) {m : Matching}
    → match_loop f bids asks index [] ≡ some m
    → IsRest (queue bids) (queue m.bids) × IsRest (queue asks) (queue m.asks)
match_loop-IsRest f bids asks index e =
    let r =
      match_loop_inv (AreRests (queue bids) (queue asks)) (AreRests-IsKept _ _) f bids asks index []
        (record { bids_rest = IsRest-refl _; asks_rest = IsRest-refl _ }) e in
    (r.bids_rest, r.asks_rest)
