-- ===== src/Orderbook/Matching/Volume.antt =====
-- Quantities: what the trades say was exchanged is what the orders of each side lost.
use velocity_vortex.Base.{ℕ, ◌+◌, ◌≡◌, some, List, [], ◌∷◌, ◌++◌, arith}
use velocity_vortex.Base.Int.{ℤ}
use velocity_vortex.Orderbook.Order.{Order, Trade}
use velocity_vortex.Orderbook.Level.{Level}
use velocity_vortex.Orderbook.Match.{Index, Front, Matching, match_loop}
use velocity_vortex.Orderbook.Matching.Rule.{IsKept, front, at_front, match_loop_inv}
use velocity_vortex.Orderbook.Matching.Exchange.{
  Exchange, nothing, both_filled, bid_filled, ask_filled, trade_fronts-Exchange,
}

-- The quantity that remains in a queue, and on one side of the book.
unfoldable pub volume : List Order → ℕ
volume [] = 0
volume (o ∷ os) = o.remaining_quantity + volume os

unfoldable pub book_volume : List Level → ℕ
book_volume [] = 0
book_volume (l ∷ ls) = volume l.orders + book_volume ls

unfoldable pub bid_traded : List Trade → ℕ
bid_traded [] = 0
bid_traded (t ∷ ts) = t.bid_trade.quantity + bid_traded ts

unfoldable pub ask_traded : List Trade → ℕ
ask_traded [] = 0
ask_traded (t ∷ ts) = t.ask_trade.quantity + ask_traded ts

bid_traded-append : (xs ys : List Trade) → bid_traded (xs ++ ys) ≡ bid_traded xs + bid_traded ys
unfolding bid_traded
bid_traded-append [] ys = omega arith
bid_traded-append (x ∷ xs) ys = omega (arith, bid_traded-append xs ys)

ask_traded-append : (xs ys : List Trade) → ask_traded (xs ++ ys) ≡ ask_traded xs + ask_traded ys
unfolding ask_traded
ask_traded-append [] ys = omega arith
ask_traded-append (x ∷ xs) ys = omega (arith, ask_traded-append xs ys)

-- The invariant: what remains on a side and what was traded make up a constant.
abbrev pub Conserves : ℕ → ℕ → Matching → Type 0
Conserves nb na m =
    (book_volume m.bids + bid_traded m.trades ≡ nb)
    × (book_volume m.asks + ask_traded m.trades ≡ na)

module _ (nb na : ℕ) where
  Exchange-Conserves :
      (pb pa : ℤ) (bs ls : List Level) {bid : Order} {bids : List Order} {ask : Order}
      {asks : List Order} {index : Index} {trades : List Trade} {s : Front}
      → Exchange bid bids ask asks index trades s
      → Conserves nb na (at_front pb bs pa ls (front (bid ∷ bids) (ask ∷ asks) index trades))
      → Conserves nb na (at_front pb bs pa ls s)
  unfolding book_volume volume bid_traded ask_traded
  Exchange-Conserves pb pa bs ls (nothing z e) h = rw e h
  Exchange-Conserves pb pa bs ls {trades = ts} (both_filled p q e) h =
      rw e (rw (bid_traded-append ts, ask_traded-append ts) (omega arith))
  Exchange-Conserves pb pa bs ls {trades = ts} (bid_filled p q e) h =
      rw e (rw (bid_traded-append ts, ask_traded-append ts) (omega arith))
  Exchange-Conserves pb pa bs ls {trades = ts} (ask_filled p q e) h =
      rw e (rw (bid_traded-append ts, ask_traded-append ts) (omega arith))

  Conserves-IsKept : IsKept (Conserves nb na)
  unfolding book_volume volume
  Conserves-IsKept = record {
    trade = λ pb pa bs ls bid bids ask asks ix ts go h.
        Exchange-Conserves pb pa bs ls (trade_fronts-Exchange bid bids ask asks ix ts) h;
    drop_bid = λ p bs asks ix ts h. omega arith;
    drop_ask = λ p bids ls ix ts h. omega arith;
  }

-- If the loops return, then each side of the book has lost exactly the quantity that the trades report
-- for it.
pub match_loop_conserves :
    (f : ℕ) (bids asks : List Level) (index : Index) {m : Matching}
    → match_loop f bids asks index [] ≡ some m
    → (book_volume m.bids + bid_traded m.trades ≡ book_volume bids)
      × (book_volume m.asks + ask_traded m.trades ≡ book_volume asks)
unfolding bid_traded ask_traded
match_loop_conserves f bids asks index e =
    match_loop_inv (Conserves (book_volume bids) (book_volume asks)) (Conserves-IsKept _ _) f bids
      asks index [] (omega arith) e
