-- ===== src/Orderbook/Order.antt =====
-- `Order_` of Computing-Server/include/Orderbook/order_.hpp and src/Orderbook/order_.cpp, and the
-- trades of transactions.hpp. `Price` is an int32_t, `Quantity` a uint32_t, `OrderId` a uint64_t;
-- the code only compares prices and ids, and takes a quantity from one that is not smaller.
use velocity_vortex.Base.{ℕ, ◌-◌, Bool, ltb, ◌==◌, if◌then◌else◌}
use velocity_vortex.Base.Int.{ℤ}

pub data OrderType : Type 0 where
  good_till_cancel fill_and_kill : OrderType

pub data Side : Type 0 where
  buy sell : Side

pub record Order : Type 0 where
  pub order_type : OrderType
  pub order_id : ℕ
  pub side : Side
  pub price : ℤ
  pub initial_quantity : ℕ
  pub remaining_quantity : ℕ

-- The constructor: nothing is filled yet.
abbrev pub new_order : OrderType → ℕ → Side → ℤ → ℕ → Order
new_order t i s p q = record {
  order_type = t;
  order_id = i;
  side = s;
  price = p;
  initial_quantity = q;
  remaining_quantity = q;
}

unfoldable pub get_filled_quantity : Order → ℕ
get_filled_quantity o = o.initial_quantity - o.remaining_quantity

unfoldable pub is_filled : Order → Bool
is_filled o = o.remaining_quantity == 0

-- More than what remains is not filled at all.
unfoldable pub fill : ℕ → Order → Order
fill q o =
    if ltb o.remaining_quantity q
    then o
    else record o { remaining_quantity = o.remaining_quantity - q }

pub record TradeInfo : Type 0 where
  pub order_id : ℕ
  pub quantity : ℕ
  pub price : ℤ

pub record Trade : Type 0 where
  pub bid_trade : TradeInfo
  pub ask_trade : TradeInfo
