-- ===== src/Orderbook/Matching/Indexed.antt =====
-- The loops of `MatchOrders` (Computing-Server/src/Orderbook/order_book.cpp) keep `orders_` in step
-- with the two sides of the book.
use velocity_vortex.Base.{ℕ, ◌+◌, ◌≡◌, some, List, [], ◌∷◌, arith}
use velocity_vortex.Base.Int.{ℤ}
use velocity_vortex.Orderbook.Order.{Order, buy, sell, Trade}
use velocity_vortex.Orderbook.Level.{Level, level}
use velocity_vortex.Orderbook.Match.{Index, Front, erase, Matching, match_loop}
use velocity_vortex.Orderbook.Index.{
  IsIndexed, nodes, side_nodes, same_self, keys-erase, Agrees-erase, SideAgrees-erase,
}
use velocity_vortex.Orderbook.Matching.Rule.{IsKept, match_loop_inv}
use velocity_vortex.Orderbook.Matching.Exchange.{
  Exchange, nothing, both_filled, bid_filled, ask_filled, trade_fronts-Exchange, remaining,
}

module _ (pb pa : ℤ) (bs ls : List Level) (bid : Order) (bids : List Order) (ask : Order)
    (asks : List Order) (ix : Index) where
  pop_bid :
      IsIndexed (level pb (bid ∷ bids) ∷ bs) (level pa asks ∷ ls) ix
      → IsIndexed (level pb bids ∷ bs) (level pa asks ∷ ls) (erase bid.order_id ix)
  unfolding side_nodes nodes
  pop_bid v =
      let i = bid.order_id in
      let gone : nodes i bids + side_nodes i bs + nodes i asks + side_nodes i ls ≡ 0 =
        omega (arith, v.counts i, v.unique i, same_self i) in
      record {
        counts = λ j. omega (arith, keys-erase i j ix, v.counts j);
        unique = λ j. omega (arith, keys-erase i j ix, v.unique j);
        bids_agree = (
          Agrees-erase buy pb i ix bids (omega arith) v.bids_agree.0.1,
          SideAgrees-erase buy i ix bs (omega arith) v.bids_agree.1,
        );
        asks_agree = (
          Agrees-erase sell pa i ix asks (omega arith) v.asks_agree.0,
          SideAgrees-erase sell i ix ls (omega arith) v.asks_agree.1,
        );
      }

  pop_ask :
      IsIndexed (level pb bids ∷ bs) (level pa (ask ∷ asks) ∷ ls) ix
      → IsIndexed (level pb bids ∷ bs) (level pa asks ∷ ls) (erase ask.order_id ix)
  unfolding side_nodes nodes
  pop_ask v =
      let i = ask.order_id in
      let gone : nodes i bids + side_nodes i bs + nodes i asks + side_nodes i ls ≡ 0 =
        omega (arith, v.counts i, v.unique i, same_self i) in
      record {
        counts = λ j. omega (arith, keys-erase i j ix, v.counts j);
        unique = λ j. omega (arith, keys-erase i j ix, v.unique j);
        bids_agree = (
          Agrees-erase buy pb i ix bids (omega arith) v.bids_agree.0,
          SideAgrees-erase buy i ix bs (omega arith) v.bids_agree.1,
        );
        asks_agree = (
          Agrees-erase sell pa i ix asks (omega arith) v.asks_agree.0.1,
          SideAgrees-erase sell i ix ls (omega arith) v.asks_agree.1,
        );
      }

  fill_bid :
      (q : ℕ)
      → IsIndexed (level pb (bid ∷ bids) ∷ bs) (level pa asks ∷ ls) ix
      → IsIndexed (level pb (remaining q bid ∷ bids) ∷ bs) (level pa asks ∷ ls) ix
  unfolding side_nodes nodes
  fill_bid q v = record {
    counts = v.counts;
    unique = v.unique;
    bids_agree = v.bids_agree;
    asks_agree = v.asks_agree;
  }

  fill_ask :
      (q : ℕ)
      → IsIndexed (level pb bids ∷ bs) (level pa (ask ∷ asks) ∷ ls) ix
      → IsIndexed (level pb bids ∷ bs) (level pa (remaining q ask ∷ asks) ∷ ls) ix
  unfolding side_nodes nodes
  fill_ask q v = record {
    counts = v.counts;
    unique = v.unique;
    bids_agree = v.bids_agree;
    asks_agree = v.asks_agree;
  }

abbrev pub IsTracked : Matching → Type 0
IsTracked m = IsIndexed m.bids m.asks m.index

Exchange-IsTracked :
    (pb pa : ℤ) (bs ls : List Level) {bid : Order} {bids : List Order} {ask : Order}
    {asks : List Order} {ix : Index} {trades : List Trade} {s : Front}
    → Exchange bid bids ask asks ix trades s
    → IsIndexed (level pb (bid ∷ bids) ∷ bs) (level pa (ask ∷ asks) ∷ ls) ix
    → IsIndexed (level pb s.bids ∷ bs) (level pa s.asks ∷ ls) s.index
Exchange-IsTracked pb pa bs ls (nothing z e) v = rw e v
Exchange-IsTracked pb pa bs ls {bid} {bids} {ask} {asks} {ix} (both_filled p q e) v = rw e (
    pop_ask pb pa bs ls bid bids ask asks (erase bid.order_id ix)
      (pop_bid pb pa bs ls bid bids ask (ask ∷ asks) ix v))
Exchange-IsTracked pb pa bs ls {bid} {bids} {ask} {asks} {ix} (bid_filled p q e) v = rw e (
    fill_ask pb pa bs ls bid bids ask asks (erase bid.order_id ix) _
      (pop_bid pb pa bs ls bid bids ask (ask ∷ asks) ix v))
Exchange-IsTracked pb pa bs ls {bid} {bids} {ask} {asks} {ix} (ask_filled p q e) v = rw e (
    fill_bid pb pa bs ls bid bids ask asks (erase ask.order_id ix) _
      (pop_ask pb pa bs ls bid (bid ∷ bids) ask asks ix v))

IsTracked-IsKept : IsKept IsTracked
unfolding side_nodes nodes
IsTracked-IsKept = record {
  trade = λ pb pa bs ls bid bids ask asks ix ts go v.
      Exchange-IsTracked pb pa bs ls (trade_fronts-Exchange bid bids ask asks ix ts) v;
  drop_bid = λ p bs asks ix ts v. record {
    counts = λ i. omega (arith, v.counts i);
    unique = v.unique;
    bids_agree = v.bids_agree.1;
    asks_agree = v.asks_agree;
  };
  drop_ask = λ p bids ls ix ts v. record {
    counts = λ i. omega (arith, v.counts i);
    unique = v.unique;
    bids_agree = v.bids_agree;
    asks_agree = v.asks_agree.1;
  };
}

-- If `orders_` has just the entries of the resting orders, each under its own id, then so it has
-- after the loops.
pub match_loop-IsTracked :
    (f : ℕ) (bids asks : List Level) (index : Index) {m : Matching}
    → IsIndexed bids asks index
    → match_loop f bids asks index [] ≡ some m
    → IsIndexed m.bids m.asks m.index
match_loop-IsTracked f bids asks index v e =
    match_loop_inv IsTracked IsTracked-IsKept f bids asks index [] v e
