-- ===== src/Orderbook/Valid.antt =====
-- The invariant of `Orderbook` (Computing-Server/include/Orderbook/order_book.hpp) between calls.
use velocity_vortex.Base.{ℕ, ◌<◌, ◌≡◌, refl, false, none, [], ◌∷◌, arith}
use velocity_vortex.Orderbook.Order.{Order, buy, sell}
use velocity_vortex.Orderbook.Match.{Index, find}
use velocity_vortex.Orderbook.Book.{Orderbook}
use velocity_vortex.Orderbook.Invariant.{AllResting, IsSorted, IsUncrossed}
use velocity_vortex.Orderbook.Index.{IsIndexed, keys}

-- The mutex is free; the sides are well formed and do not cross, and `orders_` has just the resting
-- orders.
pub record IsValid (b : Orderbook) : Type 0 where
  pub unlocked : b.mutex ≡ false
  pub bids_resting : AllResting buy b.bids
  pub bids_sorted : IsSorted buy b.bids
  pub asks_resting : AllResting sell b.asks
  pub asks_sorted : IsSorted sell b.asks
  pub uncrossed : IsUncrossed b.bids b.asks
  pub indexed : IsIndexed b.bids b.asks b.orders

-- An order that a client may add: nothing of it is filled, and its quantity is not zero.
pub record IsNew (o : Order) : Type 0 where
  pub some_quantity : 0 < o.initial_quantity
  pub unfilled : o.remaining_quantity ≡ o.initial_quantity

pub keys_of_none : (i : ℕ) (ix : Index) → find i ix ≡ none → keys i ix ≡ 0
unfolding find keys
keys_of_none i [] e = refl
keys_of_none i ((j, x) ∷ ix) e = ground (arith, keys_of_none i ix)
