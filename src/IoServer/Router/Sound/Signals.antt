-- ===== src/IoServer/Router/Sound/Signals.antt =====
-- That the endpoints for signals of IO-Server/src/api_router.cpp are sound.
use velocity_vortex.Base.{◌≡◌, sym, List, [], codes, length}
use velocity_vortex.Base.Int.{ℤ}
use velocity_vortex.IoServer.Library.{Library}
use velocity_vortex.IoServer.Program.{Row, BindValue}
use velocity_vortex.IoServer.Keeps.{done_keeps, last_insert_rowid_keeps}
use velocity_vortex.IoServer.Params.{Request}
use velocity_vortex.IoServer.Statement.{statement}
use velocity_vortex.IoServer.Router.Sound.{
  marks, Sound, Balanced, Honest, Inside, sound_rules, ask, ask_values, int_column_keeps,
  send_exec_keeps, created_keeps, statement-Balanced,
}
use velocity_vortex.IoServer.Router.Sound.Clauses.{
  marks-build_date_range_filter, marks-build_order_by_clause,
}
use velocity_vortex.IoServer.Router.Sound.Orders.{symbol_query-Balanced, strategy_query-Balanced}
use velocity_vortex.IoServer.Router.Signals.{
  select_signals, insert_signal, get_signals, get_signal, signal_values, signal_for, signal_after,
  create_signal,
}

module _ {L : Library} where
  pub get_signals-Sound : (req : Request) → Sound {L = L} (get_signals req)
  unfolding get_signals codes marks select_signals
  get_signals-Sound req =
      search (sound_rules, marks-build_date_range_filter, marks-build_order_by_clause) depth 16

  pub get_signal-Sound : (req : Request) (id : ℤ) → Sound {L = L} (get_signal req id)
  unfolding get_signal codes marks select_signals
  get_signal-Sound req id = search (sound_rules) depth 16

  signal_values_keeps :
      (body : L.Body) (strategy_id symbol_id : ℤ)
      → Inside (λ values. length values ≡ 14) (signal_values {L = L} body strategy_id symbol_id)
  unfolding signal_values
  signal_values_keeps body strategy_id symbol_id = search (sound_rules, done_keeps) depth 40

  insert_signal-Balanced :
      (values : List (BindValue L)) → length values ≡ 14 → Balanced (statement insert_signal values)
  unfolding insert_signal codes marks
  insert_signal-Balanced values h = statement-Balanced _ _ (sym h)

  signal_for_keeps :
      (body : L.Body) (strategy_id : ℤ) (row : Row)
      → Inside Honest (signal_for {L = L} body strategy_id row)
  unfolding signal_for
  signal_for_keeps body strategy_id row = ask (int_column_keeps _ row) (λ symbol_id.
      ask_values 14 (signal_values_keeps body strategy_id symbol_id) (λ values h.
        ask (send_exec_keeps _ (insert_signal-Balanced values h))
          (λ u. last_insert_rowid_keeps (λ id. created_keeps _ id _ []))))

  signal_after_keeps : (body : L.Body) (row : Row) → Inside Honest (signal_after {L = L} body row)
  unfolding signal_after
  signal_after_keeps body row =
      search (symbol_query-Balanced, signal_for_keeps, sound_rules) depth 16

  pub create_signal-Sound : (req : Request) → Sound {L = L} (create_signal req)
  unfolding create_signal
  create_signal-Sound req =
      search (strategy_query-Balanced, signal_after_keeps, sound_rules) depth 16
