-- ===== src/IoServer/Router/Sound/Positions.antt =====
-- That the endpoints for positions and performance of IO-Server/src/api_router.cpp are sound.
use velocity_vortex.Base.{refl, inl, List, [], ◌∷◌, codes}
use velocity_vortex.Base.Int.{ℤ}
use velocity_vortex.IoServer.Library.{Library}
use velocity_vortex.IoServer.Program.{Row}
use velocity_vortex.IoServer.Keeps.{done_keeps}
use velocity_vortex.IoServer.Params.{Request, QueryParams}
use velocity_vortex.IoServer.Statement.{Statement}
use velocity_vortex.IoServer.Router.Sound.{
  marks, Sound, Balanced, Honest, Inside, Anything, find_field-with_field, rows_to_json_success,
  sound_rules, ask, or_throw_keeps, int_column_keeps, column_keeps, rows_response_keeps,
}
use velocity_vortex.IoServer.Router.Sound.Clauses.{marks-build_order_by_clause}
use velocity_vortex.IoServer.Router.Positions.{
  select_positions, select_performance, get_positions, get_position, get_positions_by_strategy,
  date_bounds, get_performance, aggregate, summarised, get_strategy_performance,
}

module _ {L : Library} where
  pub get_positions-Sound : (req : Request) → Sound {L = L} (get_positions req)
  unfolding get_positions codes marks select_positions
  get_positions-Sound req = search (sound_rules, marks-build_order_by_clause) depth 16

  pub get_position-Sound : (req : Request) (id : ℤ) → Sound {L = L} (get_position req id)
  unfolding get_position codes marks select_positions
  get_position-Sound req id = search (sound_rules) depth 16

  pub get_positions_by_strategy-Sound :
      (req : Request) (id : ℤ) → Sound {L = L} (get_positions_by_strategy req id)
  unfolding get_positions_by_strategy codes marks select_positions
  get_positions_by_strategy-Sound req id = search (sound_rules) depth 16

  date_bounds-Balanced :
      (params : QueryParams) (s : Statement L) → Balanced s → Balanced (date_bounds params s)
  unfolding date_bounds codes marks
  date_bounds-Balanced params s hs = search (sound_rules, marks-build_order_by_clause) depth 16

  pub get_performance-Sound : (req : Request) → Sound {L = L} (get_performance req)
  unfolding get_performance select_performance codes marks
  get_performance-Sound req = search (date_bounds-Balanced, sound_rules) depth 16

  aggregate_keeps :
      (rows : List Row) (pnl : L.Real) (trades : ℤ) → Anything (aggregate {L = L} rows pnl trades)
  unfolding aggregate
  aggregate_keeps [] pnl trades = done_keeps tt
  aggregate_keeps (row ∷ rows) pnl trades = ask (column_keeps _ row) (λ t.
      ask (or_throw_keeps _ _) (λ x. ask (int_column_keeps _ row) (λ n. aggregate_keeps rows _ _)))

  summarised_keeps : (id : ℤ) (rows : List Row) → Inside Honest (summarised {L = L} id rows)
  unfolding summarised
  summarised_keeps id [] = rows_response_keeps []
  summarised_keeps id (row ∷ rows) = ask (aggregate_keeps (row ∷ rows) _ _) (λ totals.
      done_keeps (record {
        success_field = find_field-with_field _ _ _ _ _ (rows_to_json_success (row ∷ rows));
        known = inl refl;
      }))

  pub get_strategy_performance-Sound :
      (req : Request) (id : ℤ) → Sound {L = L} (get_strategy_performance req id)
  unfolding get_strategy_performance select_performance codes marks
  get_strategy_performance-Sound req id =
      search (date_bounds-Balanced, summarised_keeps, sound_rules) depth 16
