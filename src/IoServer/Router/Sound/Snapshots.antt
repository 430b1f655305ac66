-- ===== src/IoServer/Router/Sound/Snapshots.antt =====
-- That the endpoints for snapshots of IO-Server/src/api_router.cpp are sound.
use velocity_vortex.Base.{refl, inl, List, [], ◌∷◌, codes, eq_text}
use velocity_vortex.Base.Int.{ℤ}
use velocity_vortex.IoServer.Library.{Library}
use velocity_vortex.IoServer.Program.{Row}
use velocity_vortex.IoServer.Keeps.{done_keeps}
use velocity_vortex.IoServer.Params.{Request, QueryParams}
use velocity_vortex.IoServer.Json.{Json}
use velocity_vortex.IoServer.Router.Sound.{
  marks, Sound, Honest, Inside, Anything, find_field, sound_rules, ask, or_throw_keeps,
  column_keeps, not_found_keeps,
}
use velocity_vortex.IoServer.Router.Sound.Clauses.{marks-build_date_range_filter}
use velocity_vortex.IoServer.Router.Snapshots.{
  Grouped, group_rows, split_sides, snapshots_of, orderbook_response, get_orderbook,
  snapshot_response, answer_snapshot, get_orderbook_snapshot,
}

module _ {L : Library} where
  group_rows_keeps :
      (rows : List Row) (grouped : Grouped) → Anything {L = L} (group_rows rows grouped)
  unfolding group_rows
  group_rows_keeps [] grouped = done_keeps tt
  group_rows_keeps (row ∷ rows) grouped =
      ask (column_keeps _ row) (λ t. ask (or_throw_keeps _ _) (λ i. group_rows_keeps rows _))

  split_sides_keeps : (rows : List Row) → Anything {L = L} (split_sides rows)
  unfolding split_sides
  split_sides_keeps [] = done_keeps tt
  split_sides_keeps (row ∷ rows) =
      ask (column_keeps _ row) (λ t. ask (split_sides_keeps rows) (λ i. done_keeps tt))

  snapshots_of_keeps : (grouped : Grouped) → Anything {L = L} (snapshots_of grouped)
  unfolding snapshots_of
  snapshots_of_keeps [] = done_keeps tt
  snapshots_of_keeps ((time, orders) ∷ grouped) =
      ask (split_sides_keeps orders) (λ t. ask (snapshots_of_keeps grouped) (λ i. done_keeps tt))

  orderbook_response-Honest :
      (params : QueryParams) (snapshots : List (Json L))
      → Honest (orderbook_response params snapshots)
  unfolding orderbook_response codes eq_text find_field
  orderbook_response-Honest params snapshots = record { success_field = refl; known = inl refl }

  snapshot_response-Honest :
      (params : QueryParams) (time : ℤ) (sides : List (Json L) × List (Json L))
      → Honest (snapshot_response params time sides)
  unfolding snapshot_response codes eq_text find_field
  snapshot_response-Honest params time sides = record { success_field = refl; known = inl refl }

  answer_snapshot_keeps :
      (params : QueryParams) (time : ℤ) (rows : List Row)
      → Inside Honest (answer_snapshot {L = L} params time rows)
  unfolding answer_snapshot
  answer_snapshot_keeps params time [] = not_found_keeps _
  answer_snapshot_keeps params time (row ∷ rows) =
      ask (split_sides_keeps (row ∷ rows))
        (λ sides. done_keeps (snapshot_response-Honest params time sides))

  pub get_orderbook-Sound : (req : Request) → Sound {L = L} (get_orderbook req)
  unfolding get_orderbook codes marks
  get_orderbook-Sound req =
      search
        (
          sound_rules, marks-build_date_range_filter, group_rows_keeps, snapshots_of_keeps,
          orderbook_response-Honest, done_keeps,
        )
        depth 16

  pub get_orderbook_snapshot-Sound :
      (req : Request) (time : ℤ) → Sound {L = L} (get_orderbook_snapshot req time)
  unfolding get_orderbook_snapshot codes marks
  get_orderbook_snapshot-Sound req time = search (sound_rules, answer_snapshot_keeps) depth 16
