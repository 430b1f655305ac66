-- ===== src/Alpaca/OrderManager.antt =====
-- `OrderManager`, Computing-Server/src/Order-Manager-Core/order_manager.cpp: the requests about orders,
-- positions and the market's clock. What is only printed to std::cerr is left out.
use velocity_vortex.Base.{
  ℕ, Bool, true, false, if◌then◌else◌, Option, none, some, List, [], ◌∷◌, ◌++◌, Text, codes, ◌==◌,
}
use velocity_vortex.Base.Number.{to_string}
use velocity_vortex.Trading.Double.{Double}
use velocity_vortex.Alpaca.Services.{JsonCpp, Curl, ◌>>=◌}
use velocity_vortex.Alpaca.Feed.{string_at}
use velocity_vortex.Alpaca.Order.{display, parse_order_from_json}
use velocity_vortex.Alpaca.ApiClient.{Session, curle_ok, post, get, del}

abbrev pub orders_url : Text
orders_url = codes "https://paper-api.alpaca.markets/v2/orders"

abbrev pub positions_url : Text
positions_url = codes "https://api.alpaca.markets/v2/positions"

-- `if (option) jsonPayload[key] = *option;`
abbrev pub optional_member : Text → Option Text → List (Text × Text)
optional_member key none = []
optional_member key (some x) = (key, x) ∷ []

-- The members of the JSON object that orders the order.
unfoldable pub order_payload :
    Text
    → Text
    → Text
    → Text
    → Text
    → Option Text
    → Option Text
    → Option Text
    → Option Text
    → List (Text × Text)
order_payload side type time_in_force symbol qty limit_price stop_price trail_price trail_percent =
    (codes "side", side)
    ∷ (codes "type", type)
    ∷ (codes "time_in_force", time_in_force)
    ∷ (codes "symbol", symbol)
    ∷ (codes "qty", qty)
    ∷ (optional_member (codes "limit_price") limit_price
        ++ (optional_member (codes "stop_price") stop_price
            ++ (optional_member (codes "trail_price") trail_price
                ++ optional_member (codes "trail_percent") trail_percent)))

module _ (C : Curl) where
  unfoldable pub delete_all_orders : Session → Session
  unfolding del
  delete_all_orders s = (del C orders_url s).1

  unfoldable pub delete_order_by_id : Text → Session → Session
  unfolding del
  delete_order_by_id order_id s = (del C (orders_url ++ codes "/" ++ order_id) s).1

  -- The answer, or what the failure is called by.
  unfoldable pub answer_or_code : Text → ℕ × Text → Text
  unfolding to_string
  answer_or_code failure (code, response) =
      if code == curle_ok then response else failure ++ codes ". CURLcode: " ++ to_string code

  unfoldable pub get_all_open_positions : Session → Text × Session
  unfolding get answer_or_code
  get_all_open_positions s =
      let done = get C positions_url s in
      (answer_or_code (codes "Failed to fetch open positions") done.0, done.1)

  unfoldable pub close_all_positions : Session → Text × Session
  unfolding del answer_or_code
  close_all_positions s =
      let done = del C positions_url s in
      (answer_or_code (codes "Failed to close all positions") done.0, done.1)

  unfoldable pub get_open_position : Text → Session → Text × Session
  unfolding get answer_or_code
  get_open_position symbol s =
      let done = get C (positions_url ++ codes "/" ++ symbol) s in
      (answer_or_code (codes "Failed to fetch position for " ++ symbol) done.0, done.1)

  unfoldable pub close_position : Text → Session → Text × Session
  unfolding del answer_or_code
  close_position symbol s =
      let done = del C (positions_url ++ codes "/" ++ symbol) s in
      (answer_or_code (codes "Failed to close position for " ++ symbol) done.0, done.1)

module _ {F : Double} (J : JsonCpp F) (C : Curl) where
  -- The payload is an object of texts.
  unfoldable pub create_order :
      Text
      → Text
      → Text
      → Text
      → Text
      → Option Text
      → Option Text
      → Option Text
      → Option Text
      → Session
      → Session
  unfolding order_payload post
  create_order side type time_in_force symbol qty limit_price stop_price trail_price trail_percent
        s =
      let payload =
        order_payload side type time_in_force symbol qty limit_price stop_price trail_price
          trail_percent in
      (post C orders_url (J.write_object payload) s).1

  -- The lines that are printed of the orders up to one that throws, and whether one does.
  unfoldable pub display_orders : List J.Value → List Text × Bool
  unfolding parse_order_from_json display
  display_orders [] = ([], false)
  display_orders (item ∷ items) =
      let later = display_orders items in
      elim (parse_order_from_json J (J.to_styled_string item)) [
        | none ↦ ([], true)
        | some order ↦ (display order ++ later.0, later.1)
      ]

  unfoldable pub get_all_orders : Session → (List Text × Bool) × Session
  unfolding get display_orders
  get_all_orders s =
      let done = get C (orders_url ++ codes "?status=open") s in
      let printed : List Text × Bool = elim (J.parse done.0.1) [
        | none ↦ ([], false)
        | some json ↦ display_orders (J.elements json)
      ] in
      (if done.0.0 == curle_ok then printed else ([], false), done.1)

  -- An exception is caught.
  unfoldable pub get_order_by_id : Text → Session → List Text × Session
  unfolding get parse_order_from_json display
  get_order_by_id order_id s =
      let done = get C (orders_url ++ codes "/" ++ order_id) s in
      let printed : List Text = elim (parse_order_from_json J done.0.1) [
        | none ↦ []
        | some order ↦ display order
      ] in
      (if done.0.0 == curle_ok then printed else [], done.1)

  -- The entries of the map. `none`: an exception is thrown.
  unfoldable pub clock_entries : J.Value → Option (List (Text × Text))
  unfolding string_at
  clock_entries json = do
    timestamp ← string_at J json (codes "timestamp")
    is_open ← string_at J json (codes "is_open")
    next_open ← string_at J json (codes "next_open")
    next_close ← string_at J json (codes "next_close")
    some (
        (codes "timestamp", timestamp)
        ∷ (codes "is_open", is_open)
        ∷ (codes "next_open", next_open)
        ∷ (codes "next_close", next_close)
        ∷ [])

  unfoldable pub get_market_info : Session → Option (List (Text × Text)) × Session
  unfolding get clock_entries
  get_market_info s =
      let done = get C (codes "https://paper-api.alpaca.markets/v2/clock") s in
      let entries : Option (List (Text × Text)) = elim (J.parse done.0.1) [
        | none ↦ some []
        | some json ↦ clock_entries json
      ] in
      (if done.0.0 == curle_ok then entries else some [], done.1)
