-- ===== src/IoServer/Router/Sound/Orders.antt =====
-- That the endpoints for orders of IO-Server/src/api_router.cpp are sound.
use velocity_vortex.Base.{
  ◌≡◌, refl, sym, inl, inr, not, ◌&&◌, Bool-cases, Text, List, [], ◌∷◌, codes, length, eq_text,
}
use velocity_vortex.Base.Int.{ℤ}
use velocity_vortex.IoServer.Library.{Library}
use velocity_vortex.IoServer.Program.{Row, Program, BindValue}
use velocity_vortex.IoServer.Keeps.{done_keeps, last_insert_rowid_keeps, clock_keeps}
use velocity_vortex.IoServer.Params.{Request, QueryParams}
use velocity_vortex.IoServer.Json.{Response}
use velocity_vortex.IoServer.Statement.{Statement, statement, is_empty}
use velocity_vortex.IoServer.Router.Ask.{symbol_query}
use velocity_vortex.IoServer.Router.Sound.{
  marks, Sound, Balanced, Honest, Inside, Anything, sound_rules, ask, ask_statement, ask_values,
  or_throw_keeps, int_column_keeps, column_keeps, text_value_keeps, send_query_keeps,
  send_exec_keeps, refused_keeps, succeeded_keeps, created_keeps, rows_response_keeps,
  extend-Balanced, statement-Balanced,
}
use velocity_vortex.IoServer.Router.Sound.Clauses.{
  marks-build_date_range_filter, marks-build_order_by_clause,
}
use velocity_vortex.IoServer.Router.Orders.{
  select_orders, insert_order, can_cancel, by_strategy_id, get_orders, get_order, rows_or,
  get_orders_by_client_id, strategy_query, first_id, strategy_of, order_values, insert_for,
  create_order, cancel_existing, status_query, cancel_order,
}

module _ {L : Library} where
  by_strategy_id_keeps :
      (params : QueryParams) (s : Statement L)
      → Balanced s
      → Inside Balanced (by_strategy_id params s)
  unfolding by_strategy_id codes marks
  by_strategy_id_keeps params s hs =
      elim (Bool-cases
        (not (is_empty params.strategy) && not (eq_text params.strategy (codes "0")))) [
          | inl given ↦
              rw given (ask (or_throw_keeps _ _) (λ id. done_keeps (extend-Balanced _ _ s refl hs)))
          | inr absent ↦ rw absent (done_keeps hs)
        ]

  pub get_orders-Sound : (req : Request) → Sound {L = L} (get_orders req)
  unfolding get_orders select_orders codes marks
  get_orders-Sound req =
      search
        (
          ask_statement, by_strategy_id_keeps, sound_rules, marks-build_date_range_filter,
          marks-build_order_by_clause,
        )
        depth 16

  pub get_order-Sound : (req : Request) (id : ℤ) → Sound {L = L} (get_order req id)
  unfolding get_order codes marks select_orders
  get_order-Sound req id = search (sound_rules) depth 16

  rows_or_keeps :
      (missing : Program L (Response L)) (rows : List Row)
      → Inside Honest missing
      → Inside Honest (rows_or missing rows)
  unfolding rows_or
  rows_or_keeps missing [] h = h
  rows_or_keeps missing (row ∷ rows) h = rows_response_keeps (row ∷ rows)

  pub get_orders_by_client_id-Sound :
      (req : Request) (client_id : Text) → Sound {L = L} (get_orders_by_client_id req client_id)
  unfolding get_orders_by_client_id select_orders codes marks
  get_orders_by_client_id-Sound req client_id = search (rows_or_keeps, sound_rules) depth 16

  pub symbol_query-Balanced : (ticker : BindValue L) → Balanced (symbol_query ticker)
  unfolding symbol_query codes marks
  symbol_query-Balanced ticker = statement-Balanced _ _ refl

  pub strategy_query-Balanced : (name : BindValue L) → Balanced (strategy_query name)
  unfolding strategy_query codes marks
  strategy_query-Balanced name = statement-Balanced _ _ refl

  first_id_keeps : (rows : List Row) → Anything {L = L} (first_id rows)
  unfolding first_id
  first_id_keeps [] = done_keeps tt
  first_id_keeps (row ∷ rows) = int_column_keeps _ row

  strategy_of_keeps : (body : L.Body) → Anything (strategy_of {L = L} body)
  unfolding strategy_of
  strategy_of_keeps body = elim (Bool-cases (L.contains body (codes "strategy"))) [
    | inl given ↦ rw given (
        ask (text_value_keeps _ _)
          (λ name. ask (send_query_keeps _ (strategy_query-Balanced name)) first_id_keeps))
    | inr absent ↦ rw absent (done_keeps tt)
  ]

  order_values_keeps :
      (body : L.Body) (symbol_id strategy_id : ℤ)
      → Inside (λ values. length values ≡ 12) (order_values {L = L} body symbol_id strategy_id)
  unfolding order_values
  order_values_keeps body symbol_id strategy_id =
      search (sound_rules, clock_keeps, done_keeps) depth 40

  insert_order-Balanced :
      (values : List (BindValue L)) → length values ≡ 12 → Balanced (statement insert_order values)
  unfolding insert_order codes marks
  insert_order-Balanced values h = statement-Balanced _ _ (sym h)

  insert_for_keeps : (body : L.Body) (row : Row) → Inside Honest (insert_for {L = L} body row)
  unfolding insert_for
  insert_for_keeps body row = ask (int_column_keeps _ row) (λ symbol_id.
      ask (strategy_of_keeps body) (λ strategy_id.
        ask_values 12 (order_values_keeps body symbol_id strategy_id) (λ values h.
          ask (send_exec_keeps _ (insert_order-Balanced values h)) (λ u.
            last_insert_rowid_keeps
              (λ id. ask (or_throw_keeps _ _) (λ t. created_keeps _ id _ _))))))

  pub create_order-Sound : (req : Request) → Sound {L = L} (create_order req)
  unfolding create_order
  create_order-Sound req = search (symbol_query-Balanced, insert_for_keeps, sound_rules) depth 16

  cancel_existing_keeps : (id : ℤ) (row : Row) → Inside Honest (cancel_existing {L = L} id row)
  unfolding cancel_existing codes marks
  cancel_existing_keeps id row = ask (column_keeps _ row) (λ status.
      elim (Bool-cases (can_cancel status)) [
        | inl open_order ↦ rw open_order (
            clock_keeps (λ now.
              ask (send_exec_keeps _ (statement-Balanced _ _ refl)) (λ u. succeeded_keeps _)))
        | inr closed_order ↦ rw closed_order (refused_keeps _)
      ])

  pub cancel_order-Sound : (req : Request) (id : ℤ) → Sound {L = L} (cancel_order req id)
  unfolding cancel_order status_query codes marks
  cancel_order-Sound req id = search (cancel_existing_keeps, sound_rules) depth 16
