-- ===== src/Orderbook/Ready.antt =====
-- The insertion of a GoodTillCancel order with a new id, by `Orderbook::AddOrder` of
-- Computing-Server/src/Orderbook/order_book.cpp, keeps the sides and `orders_` well formed.
use velocity_vortex.Base.{ℕ, ◌+◌, ◌≤◌, ◌≡◌, refl, none, ◌∷◌, arith}
use velocity_vortex.Orderbook.Order.{Order, good_till_cancel, Side, buy, sell}
use velocity_vortex.Orderbook.Level.{push_back}
use velocity_vortex.Orderbook.Match.{OrderEntry, find}
use velocity_vortex.Orderbook.Book.{Orderbook, held, insert}
use velocity_vortex.Orderbook.Invariant.{IsResting, AllResting, IsSorted}
use velocity_vortex.Orderbook.Index.{
  IsIndexed, keys, side_nodes, SideAgrees-cons, keys-cons_le, find-cons_self,
}
use velocity_vortex.Orderbook.Insert.{
  push_back-AllResting, push_back-IsSorted, side_nodes-push_back, push_back-SideAgrees,
}
use velocity_vortex.Orderbook.Valid.{IsValid, IsNew, keys_of_none}

-- What the loops start from.
pub record IsReady (b : Orderbook) : Type 0 where
  pub bids_resting : AllResting buy b.bids
  pub bids_sorted : IsSorted buy b.bids
  pub asks_resting : AllResting sell b.asks
  pub asks_sorted : IsSorted sell b.asks
  pub indexed : IsIndexed b.bids b.asks b.orders

abbrev entry_of : Side → Order → ℕ × OrderEntry
entry_of s o = (o.order_id, record { side = s; price = o.price })

pub insert_buy :
    (o : Order) (b : Orderbook)
    → o.side ≡ buy
    → insert o b ≡ record b { bids = push_back buy o b.bids; orders = entry_of buy o ∷ b.orders }
unfolding insert
insert_buy o b e = simp e

pub insert_sell :
    (o : Order) (b : Orderbook)
    → o.side ≡ sell
    → insert o b ≡ record b { asks = push_back sell o b.asks; orders = entry_of sell o ∷ b.orders }
unfolding insert
insert_sell o b e = simp e

pub resting :
    (s : Side) (o : Order)
    → IsNew o
    → o.order_type ≡ good_till_cancel
    → o.side ≡ s
    → IsResting s o.price o
resting s o n gtc e = record {
  on_side = e;
  at_price = refl;
  is_open = omega (arith, n.some_quantity, n.unfilled);
  within = omega (arith, n.unfilled);
  lasting = gtc;
}

module _ (o : Order) (b : Orderbook) (v : IsValid b) (n : IsNew o)
    (gtc : o.order_type ≡ good_till_cancel) (fresh : find o.order_id b.orders ≡ none) where
  no_nodes : side_nodes o.order_id b.bids + side_nodes o.order_id b.asks ≡ 0
  no_nodes = omega (arith, v.indexed.counts o.order_id, keys_of_none o.order_id b.orders fresh)

  index_unique : (s : Side) (j : ℕ) → keys j (entry_of s o ∷ b.orders) ≤ 1
  index_unique s j =
      keys-cons_le o.order_id j _ b.orders (keys_of_none o.order_id b.orders fresh)
        (v.indexed.unique j)

  pub insert-IsReady : (s : Side) → o.side ≡ s → IsReady (insert o (held b))
  unfolding keys
  insert-IsReady buy e = rw (insert_buy o (held b) e) (record {
    bids_resting = push_back-AllResting buy o b.bids (resting buy o n gtc e) v.bids_resting;
    bids_sorted = push_back-IsSorted buy o b.bids v.bids_sorted;
    asks_resting = v.asks_resting;
    asks_sorted = v.asks_sorted;
    indexed = record {
      counts = λ j. omega (arith, side_nodes-push_back buy o j b.bids, v.indexed.counts j);
      unique = index_unique buy;
      bids_agree = push_back-SideAgrees buy o _ b.bids (find-cons_self o.order_id _ b.orders) (
          SideAgrees-cons buy o.order_id _ b.orders b.bids (omega (arith, no_nodes))
            v.indexed.bids_agree);
      asks_agree =
          SideAgrees-cons sell o.order_id _ b.orders b.asks (omega (arith, no_nodes))
            v.indexed.asks_agree;
    };
  })
  insert-IsReady sell e = rw (insert_sell o (held b) e) (record {
    bids_resting = v.bids_resting;
    bids_sorted = v.bids_sorted;
    asks_resting = push_back-AllResting sell o b.asks (resting sell o n gtc e) v.asks_resting;
    asks_sorted = push_back-IsSorted sell o b.asks v.asks_sorted;
    indexed = record {
      counts = λ j. omega (arith, side_nodes-push_back sell o j b.asks, v.indexed.counts j);
      unique = index_unique sell;
      bids_agree =
          SideAgrees-cons buy o.order_id _ b.orders b.bids (omega (arith, no_nodes))
            v.indexed.bids_agree;
      asks_agree = push_back-SideAgrees sell o _ b.asks (find-cons_self o.order_id _ b.orders) (
          SideAgrees-cons sell o.order_id _ b.orders b.asks (omega (arith, no_nodes))
            v.indexed.asks_agree);
    };
  })
