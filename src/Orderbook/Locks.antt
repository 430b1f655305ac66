-- ===== src/Orderbook/Locks.antt =====
-- The calls of `Orderbook` (Computing-Server/src/Orderbook/order_book.cpp) that lock the mutex they
-- hold, and those that change nothing.
use velocity_vortex.Base.{ℕ, ◌≡◌, false, Option, none, some, [], arith}
use velocity_vortex.Orderbook.Order.{Order, fill_and_kill}
use velocity_vortex.Orderbook.Match.{OrderEntry, find}
use velocity_vortex.Orderbook.Book.{Orderbook, done, deadlock, add_order, modify_order}

module _ (fuel : ℕ) (o : Order) (b : Orderbook) (free : b.mutex ≡ false) where
  -- If the mutex is free, a FillAndKill order with a new id never gets past `CanMatch`, which locks the mutex that
  -- AddOrder holds. So it is neither filled nor refused.
  pub add_order_fill_and_kill :
      o.order_type ≡ fill_and_kill → find o.order_id b.orders ≡ none → add_order fuel o b ≡ deadlock
  unfolding add_order
  add_order_fill_and_kill fak fresh = rw free (rw fresh (simp fak))

  -- If the mutex is free, an order with the id of one in the book is ignored: no trade, and the book as it was.
  pub add_order_duplicate :
      (entry : OrderEntry)
      → find o.order_id b.orders ≡ some entry
      → add_order fuel o b ≡ done ([], b)
  unfolding add_order
  add_order_duplicate entry found = rw free (rw found (ground arith))

  -- If the mutex is free, to modify an order that is in the book never returns: CancelOrder locks the mutex that
  -- ModifyOrder holds. To modify one that is not there changes nothing.
  pub modify_order_lem :
      (found : Option OrderEntry)
      → find o.order_id b.orders ≡ found
      → modify_order fuel o b ≡ elim found [ none ↦ done ([], b) | some entry ↦ deadlock ]
  unfolding modify_order
  modify_order_lem none e = ground arith
  modify_order_lem (some entry) e = ground arith
