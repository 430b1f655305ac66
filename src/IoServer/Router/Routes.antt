-- ===== src/IoServer/Router/Routes.antt =====
-- The routes that `APIRouter::setup_routes` of IO-Server/src/api_router.cpp always wires, which are all but
-- the two of /api/calc (list_calculations and run_calculation in Calculation/Registry): the method and
-- the pattern of each, and the handler that its requests are given to. The values that the URL holds at
-- the places of a pattern are those of the constructor.
use velocity_vortex.Base.{Text, codes}
use velocity_vortex.Base.Int.{ℤ}
use velocity_vortex.IoServer.Library.{Library}
use velocity_vortex.IoServer.Program.{Program}
use velocity_vortex.IoServer.Json.{Response}
use velocity_vortex.IoServer.Params.{Request}
use velocity_vortex.IoServer.Router.Market.{get_symbols, get_symbol, get_ohlcv, get_latest_ohlcv}
use velocity_vortex.IoServer.Router.Snapshots.{get_orderbook, get_orderbook_snapshot}
use velocity_vortex.IoServer.Router.Strategies.{
  get_strategies, create_strategy, get_strategy, update_strategy,
}
use velocity_vortex.IoServer.Router.Orders.{
  get_orders, create_order, get_order, get_orders_by_client_id, cancel_order,
}
use velocity_vortex.IoServer.Router.Signals.{get_signals, create_signal, get_signal}
use velocity_vortex.IoServer.Router.Positions.{
  get_positions, get_position, get_positions_by_strategy, get_performance, get_strategy_performance,
}

pub data Endpoint : Type 0 where
  list_symbols : Endpoint
  find_symbol : Text → Endpoint
  list_ohlcv : Endpoint
  latest_ohlcv : Endpoint
  list_orderbook : Endpoint
  find_snapshot : ℤ → Endpoint
  list_strategies : Endpoint
  new_strategy : Endpoint
  find_strategy : ℤ → Endpoint
  change_strategy : ℤ → Endpoint
  list_orders : Endpoint
  post_order : Endpoint
  find_order : ℤ → Endpoint
  find_client_order : Text → Endpoint
  stop_order : ℤ → Endpoint
  list_signals : Endpoint
  new_signal : Endpoint
  find_signal : ℤ → Endpoint
  list_positions : Endpoint
  find_position : ℤ → Endpoint
  strategy_positions : ℤ → Endpoint
  list_performance : Endpoint
  strategy_performance : ℤ → Endpoint

abbrev pub wired : Endpoint → Text × Text
wired list_symbols = (codes "GET", codes "/api/symbols")
wired (find_symbol ticker) = (codes "GET", codes "/api/symbols/<string>")
wired list_ohlcv = (codes "GET", codes "/api/ohlcv")
wired latest_ohlcv = (codes "GET", codes "/api/ohlcv/latest")
wired list_orderbook = (codes "GET", codes "/api/orderbook")
wired (find_snapshot snapshot_time) = (codes "GET", codes "/api/orderbook/snapshot/<int>")
wired list_strategies = (codes "GET", codes "/api/strategies")
wired new_strategy = (codes "POST", codes "/api/strategies")
wired (find_strategy strategy_id) = (codes "GET", codes "/api/strategies/<int>")
wired (change_strategy strategy_id) = (codes "PUT", codes "/api/strategies/<int>")
wired list_orders = (codes "GET", codes "/api/orders")
wired post_order = (codes "POST", codes "/api/orders")
wired (find_order order_id) = (codes "GET", codes "/api/orders/<int>")
wired (find_client_order client_id) = (codes "GET", codes "/api/orders/client/<string>")
wired (stop_order order_id) = (codes "POST", codes "/api/orders/<int>/cancel")
wired list_signals = (codes "GET", codes "/api/signals")
wired new_signal = (codes "POST", codes "/api/signals")
wired (find_signal signal_id) = (codes "GET", codes "/api/signals/<int>")
wired list_positions = (codes "GET", codes "/api/positions")
wired (find_position position_id) = (codes "GET", codes "/api/positions/<int>")
wired (strategy_positions strategy_id) = (codes "GET", codes "/api/strategies/<int>/positions")
wired list_performance = (codes "GET", codes "/api/performance")
wired (strategy_performance strategy_id) = (codes "GET", codes "/api/strategies/<int>/performance")

unfoldable pub handle : {L : Library} → Endpoint → Request → Program L (Response L)
handle list_symbols req = get_symbols req
handle (find_symbol ticker) req = get_symbol req ticker
handle list_ohlcv req = get_ohlcv req
handle latest_ohlcv req = get_latest_ohlcv req
handle list_orderbook req = get_orderbook req
handle (find_snapshot snapshot_time) req = get_orderbook_snapshot req snapshot_time
handle list_strategies req = get_strategies req
handle new_strategy req = create_strategy req
handle (find_strategy strategy_id) req = get_strategy req strategy_id
handle (change_strategy strategy_id) req = update_strategy req strategy_id
handle list_orders req = get_orders req
handle post_order req = create_order req
handle (find_order order_id) req = get_order req order_id
handle (find_client_order client_id) req = get_orders_by_client_id req client_id
handle (stop_order order_id) req = cancel_order req order_id
handle list_signals req = get_signals req
handle new_signal req = create_signal req
handle (find_signal signal_id) req = get_signal req signal_id
handle list_positions req = get_positions req
handle (find_position position_id) req = get_position req position_id
handle (strategy_positions strategy_id) req = get_positions_by_strategy req strategy_id
handle list_performance req = get_performance req
handle (strategy_performance strategy_id) req = get_strategy_performance req strategy_id
