-- ===== src/OrderManager/ExecutorManager.antt =====
-- `ExecutorManager`, Order-Manager-Server/src/Executor-Manager-Core/executor_manager.cpp: it posts the
-- orders of its queue. The scheduler's thread pushes orders while the executor's thread takes them, so a
-- run is a sequence of events of both.
pub mod Payload
pub mod Loop
use velocity_vortex.Base.{
  ℕ, zero, suc, Bool, if◌then◌else◌, Option, none, some, List, [], ◌∷◌, Text,
}
use velocity_vortex.Trading.Double.{Double}
use velocity_vortex.Alpaca.Services.{JsonCpp, Curl}
use velocity_vortex.Alpaca.ApiClient.{Session, post}
use velocity_vortex.Alpaca.OrderManager
use velocity_vortex.Alpaca.OrderManager.{orders_url, order_payload}
use velocity_vortex.OrderManager.TsQueue.{TsQueue, push, pop, empty, size}
use velocity_vortex.OrderManager.Details.{OrderDetails}

unfoldable pub details_payload : OrderDetails → List (Text × Text)
unfolding order_payload
details_payload d =
    order_payload d.side d.type d.time_in_force d.symbol d.qty d.limit_price d.stop_price
      d.trail_price d.trail_percent

-- `processOrderQueue` between two of its steps: the orders that the inner loop has still to take, and
-- the order that it has taken and not yet posted.
pub record Executor : Type 0 where
  pub session : Session
  pub order_queue : TsQueue OrderDetails
  pub to_take : ℕ
  pub taken : Option OrderDetails

pub data Event : Type 0 where
  -- The scheduler pushes an order.
  arrival : OrderDetails → Event
  -- The executor's thread makes a step.
  action : Event

module _ {F : Double} (J : JsonCpp F) (C : Curl) where
  unfoldable pub create_order : OrderDetails → Session → Session
  unfolding details_payload post
  create_order d s = (post C orders_url (J.write_object (details_payload d)) s).1

  -- An order that was taken is posted; else the next one is taken, which waits when the queue is empty;
  -- when the inner loop is done, it starts again with the size of the queue, unless that is empty. The
  -- size is kept in an int, which it is taken to fit.
  unfoldable pub act : Executor → Executor
  unfolding create_order pop empty size
  act e = elim (e.taken) [
    | some d ↦ record e { session = create_order d e.session; taken = none }
    | none ↦ elim (e.to_take) [
      | suc n ↦ elim (pop e.order_queue) [
        | none ↦ e
        | some (d, queue) ↦ record e { order_queue = queue; to_take = n; taken = some d }
      ]
      | zero ↦ if empty e.order_queue then e else record e { to_take = size e.order_queue }
    ]
  ]

  unfoldable pub process_order_queue : List Event → Executor → Executor
  unfolding act push
  process_order_queue [] e = e
  process_order_queue (arrival d ∷ events) e =
      process_order_queue events (record e { order_queue = push e.order_queue d })
  process_order_queue (action ∷ events) e = process_order_queue events (act e)

-- The other requests have the same code as those of `OrderManager`.
module _ {F : Double} (J : JsonCpp F) (C : Curl) where
  abbrev pub get_all_orders : Session → (List Text × Bool) × Session
  get_all_orders = OrderManager.get_all_orders J C

  abbrev pub get_order_by_id : Text → Session → List Text × Session
  get_order_by_id = OrderManager.get_order_by_id J C

module _ (C : Curl) where
  abbrev pub delete_all_orders : Session → Session
  delete_all_orders = OrderManager.delete_all_orders C

  abbrev pub delete_order_by_id : Text → Session → Session
  delete_order_by_id = OrderManager.delete_order_by_id C

  abbrev pub get_open_position : Text → Session → Text × Session
  get_open_position = OrderManager.get_open_position C

  abbrev pub close_position : Text → Session → Text × Session
  close_position = OrderManager.close_position C
