-- ===== src/Alpaca/Order.antt =====
-- `Order`, Computing-Server/src/Order-Manager-Core/order.cpp, and how it is read from Alpaca's answers
-- (`parseOrderFromJson` of order_manager.cpp). The getters are the fields of the record.
use velocity_vortex.Base.{Bool, if◌then◌else◌, Option, some, List, [], ◌∷◌, ◌++◌, Text, codes}
use velocity_vortex.Trading.Double.{Double}
use velocity_vortex.Alpaca.Services.{JsonCpp, ◌>>=◌}
use velocity_vortex.Alpaca.Feed.{string_at}

pub record Order : Type 0 where
  pub id : Text
  pub client_order_id : Text
  pub created_at : Text
  pub updated_at : Text
  pub submitted_at : Text
  pub filled_at : Text
  pub expired_at : Text
  pub canceled_at : Text
  pub failed_at : Text
  pub replaced_at : Text
  pub asset_id : Text
  pub symbol : Text
  pub asset_class : Text
  pub qty : Text
  pub filled_qty : Text
  pub filled_avg_price : Text
  pub order_class : Text
  pub order_type : Text
  pub side : Text
  pub position_intent : Text
  pub time_in_force : Text
  pub limit_price : Text
  pub stop_price : Text
  pub trail_price : Text
  pub trail_percent : Text
  pub extended_hours : Bool

unfoldable pub set_id : Text → Order → Order
set_id x order = record order { id = x }

unfoldable pub set_client_order_id : Text → Order → Order
set_client_order_id x order = record order { client_order_id = x }

unfoldable pub set_created_at : Text → Order → Order
set_created_at x order = record order { created_at = x }

unfoldable pub set_updated_at : Text → Order → Order
set_updated_at x order = record order { updated_at = x }

unfoldable pub set_submitted_at : Text → Order → Order
set_submitted_at x order = record order { submitted_at = x }

unfoldable pub set_filled_at : Text → Order → Order
set_filled_at x order = record order { filled_at = x }

unfoldable pub set_expired_at : Text → Order → Order
set_expired_at x order = record order { expired_at = x }

unfoldable pub set_canceled_at : Text → Order → Order
set_canceled_at x order = record order { canceled_at = x }

unfoldable pub set_failed_at : Text → Order → Order
set_failed_at x order = record order { failed_at = x }

unfoldable pub set_replaced_at : Text → Order → Order
set_replaced_at x order = record order { replaced_at = x }

unfoldable pub set_asset_id : Text → Order → Order
set_asset_id x order = record order { asset_id = x }

unfoldable pub set_symbol : Text → Order → Order
set_symbol x order = record order { symbol = x }

unfoldable pub set_asset_class : Text → Order → Order
set_asset_class x order = record order { asset_class = x }

unfoldable pub set_qty : Text → Order → Order
set_qty x order = record order { qty = x }

unfoldable pub set_filled_qty : Text → Order → Order
set_filled_qty x order = record order { filled_qty = x }

unfoldable pub set_filled_avg_price : Text → Order → Order
set_filled_avg_price x order = record order { filled_avg_price = x }

unfoldable pub set_order_class : Text → Order → Order
set_order_class x order = record order { order_class = x }

unfoldable pub set_order_type : Text → Order → Order
set_order_type x order = record order { order_type = x }

unfoldable pub set_side : Text → Order → Order
set_side x order = record order { side = x }

unfoldable pub set_position_intent : Text → Order → Order
set_position_intent x order = record order { position_intent = x }

unfoldable pub set_time_in_force : Text → Order → Order
set_time_in_force x order = record order { time_in_force = x }

unfoldable pub set_limit_price : Text → Order → Order
set_limit_price x order = record order { limit_price = x }

unfoldable pub set_stop_price : Text → Order → Order
set_stop_price x order = record order { stop_price = x }

unfoldable pub set_trail_price : Text → Order → Order
set_trail_price x order = record order { trail_price = x }

unfoldable pub set_trail_percent : Text → Order → Order
set_trail_percent x order = record order { trail_percent = x }

unfoldable pub set_extended_hours : Bool → Order → Order
set_extended_hours x order = record order { extended_hours = x }

-- The lines that are printed.
unfoldable pub display : Order → List Text
display order =
    (codes "Order ID: " ++ order.id)
    ∷ (codes "Client Order ID: " ++ order.client_order_id)
    ∷ (codes "Created At: " ++ order.created_at)
    ∷ (codes "Updated At: " ++ order.updated_at)
    ∷ (codes "Submitted At: " ++ order.submitted_at)
    ∷ (codes "Filled At: " ++ order.filled_at)
    ∷ (codes "Expired At: " ++ order.expired_at)
    ∷ (codes "Canceled At: " ++ order.canceled_at)
    ∷ (codes "Failed At: " ++ order.failed_at)
    ∷ (codes "Replaced At: " ++ order.replaced_at)
    ∷ (codes "Asset ID: " ++ order.asset_id)
    ∷ (codes "Symbol: " ++ order.symbol)
    ∷ (codes "Asset Class: " ++ order.asset_class)
    ∷ (codes "Quantity: " ++ order.qty)
    ∷ (codes "Filled Quantity: " ++ order.filled_qty)
    ∷ (codes "Filled Average Price: " ++ order.filled_avg_price)
    ∷ (codes "Order Class: " ++ order.order_class)
    ∷ (codes "Order Type: " ++ order.order_type)
    ∷ (codes "Side: " ++ order.side)
    ∷ (codes "Position Intent: " ++ order.position_intent)
    ∷ (codes "Time In Force: " ++ order.time_in_force)
    ∷ (codes "Limit Price: " ++ order.limit_price)
    ∷ (codes "Stop Price: " ++ order.stop_price)
    ∷ (codes "Trail Price: " ++ order.trail_price)
    ∷ (codes "Trail Percent: " ++ order.trail_percent)
    ∷ (codes "Extended Hours: " ++ (if order.extended_hours then codes "Yes" else codes "No"))
    ∷ []

module _ {F : Double} (J : JsonCpp F) where
  -- `none`: the text is no JSON, or a member has no such value, and an exception is thrown.
  unfoldable pub parse_order_from_json : Text → Option Order
  unfolding string_at
  parse_order_from_json response = do
    json ← J.parse response
    id ← string_at J json (codes "id")
    client_order_id ← string_at J json (codes "client_order_id")
    created_at ← string_at J json (codes "created_at")
    updated_at ← string_at J json (codes "updated_at")
    submitted_at ← string_at J json (codes "submitted_at")
    filled_at ← string_at J json (codes "filled_at")
    expired_at ← string_at J json (codes "expired_at")
    canceled_at ← string_at J json (codes "canceled_at")
    failed_at ← string_at J json (codes "failed_at")
    replaced_at ← string_at J json (codes "replaced_at")
    asset_id ← string_at J json (codes "asset_id")
    symbol ← string_at J json (codes "symbol")
    asset_class ← string_at J json (codes "asset_class")
    qty ← string_at J json (codes "qty")
    filled_qty ← string_at J json (codes "filled_qty")
    filled_avg_price ← string_at J json (codes "filled_avg_price")
    order_class ← string_at J json (codes "order_class")
    order_type ← string_at J json (codes "order_type")
    side ← string_at J json (codes "side")
    position_intent ← string_at J json (codes "position_intent")
    time_in_force ← string_at J json (codes "time_in_force")
    limit_price ← string_at J json (codes "limit_price")
    stop_price ← string_at J json (codes "stop_price")
    trail_price ← string_at J json (codes "trail_price")
    trail_percent ← string_at J json (codes "trail_percent")
    extended ← J.member json (codes "extended_hours")
    extended_hours ← J.as_bool extended
    some (record {
      id = id;
      client_order_id = client_order_id;
      created_at = created_at;
      updated_at = updated_at;
      submitted_at = submitted_at;
      filled_at = filled_at;
      expired_at = expired_at;
      canceled_at = canceled_at;
      failed_at = failed_at;
      replaced_at = replaced_at;
      asset_id = asset_id;
      symbol = symbol;
      asset_class = asset_class;
      qty = qty;
      filled_qty = filled_qty;
      filled_avg_price = filled_avg_price;
      order_class = order_class;
      order_type = order_type;
      side = side;
      position_intent = position_intent;
      time_in_force = time_in_force;
      limit_price = limit_price;
      stop_price = stop_price;
      trail_price = trail_price;
      trail_percent = trail_percent;
      extended_hours = extended_hours;
    })
