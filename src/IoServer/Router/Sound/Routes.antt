-- ===== src/IoServer/Router/Sound/Routes.antt =====
-- That each route of IO-Server/src/api_router.cpp but those of /api/calc is sound, and what a client gets
-- from it.
use velocity_vortex.Base.{◌≡◌}
use velocity_vortex.IoServer.Library.{Library}
use velocity_vortex.IoServer.Program.{success}
use velocity_vortex.IoServer.Json.{Response}
use velocity_vortex.IoServer.Params.{Request, parse_params}
use velocity_vortex.IoServer.Database.{Database, run_program, Keeps-run_program}
use velocity_vortex.IoServer.Router.Routes.{
  Endpoint, handle, list_symbols, find_symbol, list_ohlcv, latest_ohlcv, list_orderbook,
  find_snapshot, list_strategies, new_strategy, find_strategy, change_strategy, list_orders,
  post_order, find_order, find_client_order, stop_order, list_signals, new_signal, find_signal,
  list_positions, find_position, strategy_positions, list_performance, strategy_performance,
}
use velocity_vortex.IoServer.Router.Sound.{marks, Sound, Honest}
use velocity_vortex.IoServer.Router.Sound.Market.{
  get_symbols-Sound, get_symbol-Sound, get_ohlcv-Sound, get_latest_ohlcv-Sound,
}
use velocity_vortex.IoServer.Router.Sound.Snapshots.{
  get_orderbook-Sound, get_orderbook_snapshot-Sound,
}
use velocity_vortex.IoServer.Router.Sound.Strategies.{
  get_strategies-Sound, create_strategy-Sound, get_strategy-Sound, update_strategy-Sound,
}
use velocity_vortex.IoServer.Router.Sound.Orders.{
  get_orders-Sound, create_order-Sound, get_order-Sound, get_orders_by_client_id-Sound,
  cancel_order-Sound,
}
use velocity_vortex.IoServer.Router.Sound.Signals.{
  get_signals-Sound, create_signal-Sound, get_signal-Sound,
}
use velocity_vortex.IoServer.Router.Sound.Positions.{
  get_positions-Sound, get_position-Sound, get_positions_by_strategy-Sound, get_performance-Sound,
  get_strategy_performance-Sound,
}

module _ {L : Library} where
  -- For each route but the two of /api/calc, and a request whose direction of the order holds no question mark:
  -- whatever the database and the clock answer, every statement that the handler sends has as many
  -- question marks as it has values, the handler ends in an answer and lets no exception out, the status
  -- is 200, 201, 400 or 404, and the answer's `success` is true just if the status is below 400.
  pub handle-Sound :
      (e : Endpoint) (req : Request)
      → marks (parse_params req).order_dir ≡ 0
      → Sound {L = L} (handle e req)
  unfolding handle
  handle-Sound list_symbols req h = get_symbols-Sound req
  handle-Sound (find_symbol ticker) req h = get_symbol-Sound req ticker
  handle-Sound list_ohlcv req h = get_ohlcv-Sound req h
  handle-Sound latest_ohlcv req h = get_latest_ohlcv-Sound req
  handle-Sound list_orderbook req h = get_orderbook-Sound req
  handle-Sound (find_snapshot snapshot_time) req h = get_orderbook_snapshot-Sound req snapshot_time
  handle-Sound list_strategies req h = get_strategies-Sound req
  handle-Sound new_strategy req h = create_strategy-Sound req
  handle-Sound (find_strategy strategy_id) req h = get_strategy-Sound req strategy_id
  handle-Sound (change_strategy strategy_id) req h = update_strategy-Sound req strategy_id
  handle-Sound list_orders req h = get_orders-Sound req
  handle-Sound post_order req h = create_order-Sound req
  handle-Sound (find_order order_id) req h = get_order-Sound req order_id
  handle-Sound (find_client_order client_id) req h = get_orders_by_client_id-Sound req client_id
  handle-Sound (stop_order order_id) req h = cancel_order-Sound req order_id
  handle-Sound list_signals req h = get_signals-Sound req
  handle-Sound new_signal req h = create_signal-Sound req
  handle-Sound (find_signal signal_id) req h = get_signal-Sound req signal_id
  handle-Sound list_positions req h = get_positions-Sound req
  handle-Sound (find_position position_id) req h = get_position-Sound req position_id
  handle-Sound (strategy_positions strategy_id) req h =
      get_positions_by_strategy-Sound req strategy_id
  handle-Sound list_performance req h = get_performance-Sound req
  handle-Sound (strategy_performance strategy_id) req h =
      get_strategy_performance-Sound req strategy_id

  -- Over any database, a request to one of these routes whose direction of the order holds no question mark is
  -- answered: the handler returns a response, and does not throw. Its `success` and its status agree.
  pub handle-answers :
      {S : Type 0} (db : Database L S) (e : Endpoint) (req : Request) (s : S)
      → marks (parse_params req).order_dir ≡ 0
      → (r : Response L) × (((run_program db (handle e req) s).0 ≡ success r) × Honest r)
  handle-answers db e req s h =
      Keeps-run_program db _ (handle e req) s (handle-Sound e req h) (λ x no. no)
