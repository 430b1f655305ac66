-- ===== src/IoServer/Router/Snapshots.antt =====
-- The endpoints for snapshots of an order book of IO-Server/src/api_router.cpp.
use velocity_vortex.Base.{true, List, [], ◌∷◌, ◌++◌, length, Text, codes, if◌then◌else◌, eq_text}
use velocity_vortex.Base.Int.{ℤ, ltb_ℤ}
use velocity_vortex.Base.Number.{stoll}
use velocity_vortex.IoServer.Library.{Library, bad_number}
use velocity_vortex.IoServer.Program.{Program, done, Row, bind_int, bind_text, ◌>>=◌, or_throw}
use velocity_vortex.IoServer.Statement.{
  Statement, statement, extend, paged, build_date_range_filter, ◌|>◌,
}
use velocity_vortex.IoServer.Json.{
  Json, Response, fields, items, nat, int, text, bool, array, object, response, row_to_json,
  not_found_response,
}
use velocity_vortex.IoServer.Params.{Request, QueryParams, parse_params}
use velocity_vortex.IoServer.Router.Ask.{column, send_query, handler, with_symbol}

-- `std::map<int64_t, std::vector<Row>>`, by increasing keys.
abbrev pub Grouped : Type 0
Grouped = List (ℤ × List Row)

-- `grouped[snapshot].push_back(row)`.
unfoldable pub push_row : ℤ → Row → Grouped → Grouped
push_row time row [] = (time, row ∷ []) ∷ []
push_row time row ((t, rows) ∷ grouped) =
    let later = push_row time row grouped in
    if ltb_ℤ time t
    then (time, row ∷ []) ∷ (t, rows) ∷ grouped
    else if ltb_ℤ t time
    then (t, rows) ∷ later
    else (t, rows ++ (row ∷ [])) ∷ grouped

module _ {L : Library} where
  unfoldable pub group_rows : List Row → Grouped → Program L Grouped
  group_rows [] grouped = done grouped
  group_rows (row ∷ rows) grouped = do
    t ← column (codes "snapshot_time") row
    snapshot ← or_throw bad_number (stoll t)
    group_rows rows (push_row snapshot row grouped)

  -- The bids and the asks of some rows, in their order.
  unfoldable pub split_sides : List Row → Program L (List (Json L) × List (Json L))
  split_sides [] = done ([], [])
  split_sides (row ∷ rows) = do
    side ← column (codes "side") row
    sides ← split_sides rows
    done (
        if eq_text side (codes "BID")
        then (object (row_to_json row) ∷ sides.0, sides.1)
        else (sides.0, object (row_to_json row) ∷ sides.1))

  -- The fields of both sides. The numbers are taken of the vectors after they were moved from.
  unfoldable pub side_fields : List (Json L) × List (Json L) → List (Text × Json L)
  side_fields sides =
      (codes "bids", array (items sides.0))
      ∷ (codes "asks", array (items sides.1))
      ∷ (codes "bid_count", nat (L.moved_size (length sides.0)))
      ∷ (codes "ask_count", nat (L.moved_size (length sides.1)))
      ∷ []

  unfoldable pub snapshots_of : Grouped → Program L (List (Json L))
  snapshots_of [] = done []
  snapshots_of ((time, orders) ∷ grouped) = do
    sides ← split_sides orders
    snapshots ← snapshots_of grouped
    done (object (fields ((codes "snapshot_time", int time) ∷ side_fields sides)) ∷ snapshots)

  abbrev orderbook_statement : QueryParams → Statement L
  orderbook_statement params =
      statement
        (codes "\n            SELECT ob.* FROM orderbook ob\n"
          ++ (codes "            JOIN symbols s ON ob.symbol_id = s.symbol_id\n"
              ++ codes "            WHERE s.ticker = ?\n        "))
        (bind_text params.symbol ∷ [])
      |> extend (build_date_range_filter (codes "ob.snapshot_time") params.from_time params.to_time)
          []
      |> extend (codes " ORDER BY ob.snapshot_time DESC, ob.level ASC") []
      |> paged params.limit params.offset

  unfoldable pub orderbook_response : QueryParams → List (Json L) → Response L
  orderbook_response params snapshots = response 200 (
      fields (
        (codes "success", bool true)
        ∷ (codes "symbol", text params.symbol)
        ∷ (codes "data", array (items snapshots))
        ∷ (codes "count", nat (L.moved_size (length snapshots)))
        ∷ []))

  unfoldable pub get_orderbook : Request → Program L (Response L)
  get_orderbook req =
      let params = parse_params req in
      handler (
        with_symbol params (do
          results ← send_query (orderbook_statement params)
          grouped ← group_rows results []
          snapshots ← snapshots_of grouped
          done (orderbook_response params snapshots)))

  abbrev snapshot_statement : QueryParams → ℤ → Statement L
  snapshot_statement params snapshot_time =
      statement
        (codes "\n            SELECT ob.* FROM orderbook ob\n"
          ++ (codes "            JOIN symbols s ON ob.symbol_id = s.symbol_id\n"
              ++ (codes "            WHERE s.ticker = ? AND ob.snapshot_time = ?\n"
                  ++ codes "            ORDER BY ob.level ASC\n        ")))
        (bind_text params.symbol ∷ bind_int snapshot_time ∷ [])

  unfoldable pub snapshot_response : QueryParams → ℤ → List (Json L) × List (Json L) → Response L
  snapshot_response params snapshot_time sides = response 200 (
      fields (
        (codes "success", bool true)
        ∷ (codes "snapshot_time", int snapshot_time)
        ∷ (codes "symbol", text params.symbol)
        ∷ side_fields sides))

  -- What the handler does with the rows it got.
  unfoldable pub answer_snapshot : QueryParams → ℤ → List Row → Program L (Response L)
  answer_snapshot params snapshot_time [] = done (not_found_response (codes "Orderbook snapshot"))
  answer_snapshot params snapshot_time (row ∷ rows) = do
    sides ← split_sides (row ∷ rows)
    done (snapshot_response params snapshot_time sides)

  unfoldable pub get_orderbook_snapshot : Request → ℤ → Program L (Response L)
  get_orderbook_snapshot req snapshot_time =
      let params = parse_params req in
      handler (
        with_symbol params (do
          results ← send_query (snapshot_statement params snapshot_time)
          answer_snapshot params snapshot_time results))
