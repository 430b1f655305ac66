-- ===== src/IoServer/Router/Sound/Market.antt =====
-- That the endpoints for symbols and candles of IO-Server/src/api_router.cpp are sound.
use mathlib.Core.List.{append_assoc}
use velocity_vortex.Base.{◌≡◌, refl, inl, Text, List, ◌++◌, codes}
use velocity_vortex.Base.Int.{ℤ}
use velocity_vortex.IoServer.Library.{Library}
use velocity_vortex.IoServer.Program.{Row}
use velocity_vortex.IoServer.Keeps.{done_keeps}
use velocity_vortex.IoServer.Params.{Request, QueryParams, parse_params}
use velocity_vortex.IoServer.Statement.{extend, paged, build_order_by_clause}
use velocity_vortex.IoServer.Router.Ask.{symbol_query}
use velocity_vortex.IoServer.Router.Sound.{
  marks, Sound, Balanced, Honest, find_field-with_field, rows_to_json_success, sound_rules,
}
use velocity_vortex.IoServer.Router.Sound.Clauses.{
  marks-build_date_range_filter, marks-build_order_by_clause,
}
use velocity_vortex.IoServer.Router.Market.{
  get_symbols, get_symbol, get_ohlcv, ohlcv_statement, ohlcv_response, get_latest_ohlcv,
}

-- The direction that a request gives stands in the text of the statement as it is, and is no bound
-- value: whatever it is, it comes between the clauses before it and the last one.
pub ohlcv_statement-direction :
    (L : Library) (params : QueryParams) (symbol_id : ℤ)
    → (before : Text) × ((ohlcv_statement {L = L} params symbol_id).sql
        ≡ before ++ (params.order_dir ++ codes " LIMIT ? OFFSET ?"))
unfolding ohlcv_statement paged extend build_order_by_clause
ohlcv_statement-direction L params symbol_id = (_, directed _ params.order_dir _)
  where
    directed :
        (head direction last : Text)
        → (head ++ (codes " ORDER BY " ++ (codes "open_time" ++ (codes " " ++ direction)))) ++ last
          ≡ (head ++ (codes " ORDER BY " ++ (codes "open_time" ++ codes " ")))
            ++ (direction ++ last)
    directed head direction last = simp append_assoc

module _ {L : Library} where
  pub get_symbols-Sound : (req : Request) → Sound {L = L} (get_symbols req)
  unfolding get_symbols codes marks
  get_symbols-Sound req = search (sound_rules) depth 16

  pub get_symbol-Sound : (req : Request) (ticker : Text) → Sound {L = L} (get_symbol req ticker)
  unfolding get_symbol codes marks
  get_symbol-Sound req ticker = search (sound_rules) depth 16

  pub get_latest_ohlcv-Sound : (req : Request) → Sound {L = L} (get_latest_ohlcv req)
  unfolding get_latest_ohlcv codes marks
  get_latest_ohlcv-Sound req = search (sound_rules) depth 16

  ohlcv_statement-Balanced :
      (params : QueryParams) (symbol_id : ℤ)
      → marks params.order_dir ≡ 0
      → Balanced {L = L} (ohlcv_statement params symbol_id)
  unfolding ohlcv_statement codes marks
  ohlcv_statement-Balanced params symbol_id h =
      search (sound_rules, marks-build_date_range_filter, marks-build_order_by_clause) depth 16

  ohlcv_response-Honest :
      (params : QueryParams) (results : List Row) → Honest {L = L} (ohlcv_response params results)
  unfolding ohlcv_response
  ohlcv_response-Honest params results = record {
    success_field =
        find_field-with_field _ _ _ _ _
          (find_field-with_field _ _ _ _ _ (rows_to_json_success results));
    known = inl refl;
  }

  pub get_ohlcv-Sound :
      (req : Request) → marks (parse_params req).order_dir ≡ 0 → Sound {L = L} (get_ohlcv req)
  unfolding get_ohlcv symbol_query codes marks
  get_ohlcv-Sound req h =
      search (sound_rules, ohlcv_statement-Balanced, ohlcv_response-Honest, done_keeps) depth 16
