-- ===== src/Orderbook/Book.antt =====
-- The public methods of `Orderbook`, Computing-Server/src/Orderbook/order_book.cpp, with its mutex.
-- A std::mutex that its own thread locks once more never returns: that is `deadlock`.
use velocity_vortex.Base.{
  ℕ, ◌+◌, ◌%◌, ◌^◌, Bool, true, false, not, Option, none, some, List, [], ◌∷◌, map, foldl, length,
  if◌then◌else◌,
}
use velocity_vortex.Base.Int.{ℤ, ltb_ℤ}
use velocity_vortex.Orderbook.Order.{
  Order, OrderType, good_till_cancel, fill_and_kill, Side, buy, sell, Trade,
}
use velocity_vortex.Orderbook.Level.{Level, push_back, erase_order}
use velocity_vortex.Orderbook.Match.{Index, OrderEntry, find, erase, Matching, match_loop}

pub record Orderbook : Type 0 where
  pub bids : List Level
  pub asks : List Level
  pub orders : Index
  pub mutex : Bool

-- What a call comes to. `dangling`: it used an iterator that points to no node.
-- `hung`: its loop has not ended within the fuel.
pub data Outcome {ℓ} (A : Type ℓ) : Type ℓ where
  done : A → Outcome A
  deadlock dangling hung : Outcome A

infixl 5 ◌>>=◌
abbrev pub ◌>>=◌ {ℓ κ} : {A : Type ℓ} {B : Type κ} → Outcome A → (A → Outcome B) → Outcome B
done a >>= f = f a
deadlock >>= f = deadlock
dangling >>= f = dangling
hung >>= f = hung

-- The book while its mutex is held.
abbrev pub held : Orderbook → Orderbook
held b = record b { mutex = true }

abbrev pub lock : Orderbook → Outcome Orderbook
lock b = if b.mutex then deadlock else done (held b)

abbrev pub unlock : Orderbook → Orderbook
unlock b = record b { mutex = false }

abbrev pub levels : Side → Orderbook → List Level
levels buy b = b.bids
levels sell b = b.asks

abbrev pub with_levels : Side → Orderbook → List Level → Orderbook
with_levels buy b ls = record b { bids = ls }
with_levels sell b ls = record b { asks = ls }

unfoldable pub crosses : Side → ℤ → Orderbook → Bool
crosses buy p b = elim b.asks [ [] ↦ false | l ∷ _ ↦ not (ltb_ℤ p l.price) ]
crosses sell p b = elim b.bids [ [] ↦ false | l ∷ _ ↦ not (ltb_ℤ l.price p) ]

-- CanMatch. Its lock_guard is released as it returns.
unfoldable pub can_match : Side → ℤ → Orderbook → Outcome Bool
unfolding crosses
can_match s p b = do locked ← lock b; done (crosses s p locked)

-- CancelOrder once the mutex is held. The lock_guard frees it at each return.
unfoldable pub cancel_locked : ℕ → Orderbook → Outcome Orderbook
cancel_locked i b = elim (find i b.orders) [
  | none ↦ done (unlock b)
  | some e ↦ elim (erase_order e.side e.price i (levels e.side b)) [
    | none ↦ dangling
    | some ls ↦ done (unlock (record (with_levels e.side b ls) { orders = erase i b.orders }))
  ]
]

unfoldable pub cancel_order : ℕ → Orderbook → Outcome Orderbook
unfolding cancel_locked
cancel_order i b = do locked ← lock b; cancel_locked i locked

-- The lambda `cancel_fak` at the end of MatchOrders. It runs while the caller holds the mutex.
unfoldable pub cancel_fak : List Level → Orderbook → Outcome Orderbook
unfolding cancel_order
cancel_fak [] b = done b
cancel_fak (l ∷ ls) b = elim l.orders [
  | [] ↦ done b
  | o ∷ _ ↦ elim o.order_type [
    | fill_and_kill ↦ cancel_order o.order_id b
    | good_till_cancel ↦ done b
  ]
]

-- MatchOrders after its loops.
unfoldable pub finish_match : Option Matching → Orderbook → Outcome (List Trade × Orderbook)
unfolding cancel_fak
finish_match none b = hung
finish_match (some m) b = do
  let matched = record b { bids = m.bids; asks = m.asks; orders = m.index }
  b' ← cancel_fak matched.bids matched
  b'' ← cancel_fak b'.asks b'
  done (m.trades, b'')

unfoldable pub match_orders : ℕ → Orderbook → Outcome (List Trade × Orderbook)
unfolding match_loop finish_match
match_orders fuel b = finish_match (match_loop fuel b.bids b.asks b.orders []) b

-- The order joins the end of its price level, and `orders_`.
unfoldable pub insert : Order → Orderbook → Orderbook
insert o b = record (with_levels o.side b (push_back o.side o (levels o.side b))) {
  orders = (o.order_id, record { side = o.side; price = o.price }) ∷ b.orders;
}

-- `order->GetOrderType() == OrderType::FillAndKill && !CanMatch(...)`, by the type of the order.
unfoldable pub is_refused : OrderType → Order → Orderbook → Outcome Bool
unfolding can_match
is_refused good_till_cancel o b = done false
is_refused fill_and_kill o b = do m ← can_match o.side o.price b; done (not m)

-- AddOrder once the mutex is held, for an id that the book does not have.
unfoldable pub add_fresh : ℕ → Order → Orderbook → Outcome (List Trade × Orderbook)
unfolding is_refused insert match_orders
add_fresh fuel o b = do
  refused ← is_refused o.order_type o b
  elim refused [
    | true ↦ done ([], unlock b)
    | false ↦ do r ← match_orders fuel (insert o b); done (r.0, unlock r.1)
  ]

-- AddOrder once the mutex is held, by what `orders_.find` found.
unfoldable pub add_found :
    Option OrderEntry → ℕ → Order → Orderbook → Outcome (List Trade × Orderbook)
unfolding add_fresh
add_found (some _) fuel o b = done ([], unlock b)
add_found none fuel o b = add_fresh fuel o b

unfoldable pub add_order : ℕ → Order → Orderbook → Outcome (List Trade × Orderbook)
unfolding add_found
add_order fuel o b = do locked ← lock b; add_found (find o.order_id locked.orders) fuel o locked

unfoldable pub modify_order : ℕ → Order → Orderbook → Outcome (List Trade × Orderbook)
unfolding cancel_order add_order
modify_order fuel o b = do
  locked ← lock b
  elim (find o.order_id locked.orders) [
    | none ↦ done ([], unlock locked)
    | some _ ↦ do
      cancelled ← cancel_order o.order_id locked
      r ← add_order fuel o cancelled
      done (r.0, unlock r.1)
  ]

unfoldable pub size : Orderbook → Outcome ℕ
size b = do locked ← lock b; done (length locked.orders)

pub record LevelInfo : Type 0 where
  pub price : ℤ
  pub quantity : ℕ

-- std::accumulate over a uint32_t.
unfoldable pub total_quantity : List Order → ℕ
total_quantity = foldl (λ sum o. (sum + o.remaining_quantity) % 2 ^ 32) 0

unfoldable pub create_level_info : Level → LevelInfo
unfolding total_quantity
create_level_info l = record { price = l.price; quantity = total_quantity l.orders }

pub record OrderbookLevelInfos : Type 0 where
  pub bids : List LevelInfo
  pub asks : List LevelInfo

unfoldable pub get_order_infos : Orderbook → Outcome OrderbookLevelInfos
unfolding create_level_info
get_order_infos b = do
  locked ← lock b
  done (record {
    bids = map create_level_info locked.bids;
    asks = map create_level_info locked.asks;
  })
