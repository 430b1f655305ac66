-- ===== src/IoServer/Router/Sound/Cancel.antt =====
-- What a request to cancel an order does to the database (IO-Server/src/api_router.cpp).
use velocity_vortex.Base.{
  ◌≡◌, refl, sym, ◌∙◌, ◌⊎◌, inl, inr, true, Bool-cases, Option, none, some, List, [], ◌∷◌, Text,
  codes, eq_text, eq_text_sound,
}
use velocity_vortex.Base.Int.{ℤ}
use velocity_vortex.IoServer.Library.{Library}
use velocity_vortex.IoServer.Program.{
  Answer, success, failure, Row, catching, done, Program, ◌>>=◌, answered, bind_int,
}
use velocity_vortex.IoServer.Json.{Response, not_found_response}
use velocity_vortex.IoServer.Params.{Request}
use velocity_vortex.IoServer.Database.{Database, run_program}
use velocity_vortex.IoServer.Router.Ask.{
  find_column, column, first_row, handler, send_query, send_exec, succeeded,
}
use velocity_vortex.IoServer.Router.Orders.{
  can_cancel, cancel_existing, cancel_order, cancel_statement, status_query,
}

-- An answer whose first row has the status of an order that may be cancelled.
pub record Cancellable (r : Answer (List Row)) : Type 0 where
  pub row : Row
  pub rows : List Row
  pub status : Text
  pub found : r ≡ success (row ∷ rows)
  pub named : find_column (codes "status") row ≡ some status
  pub open_status : (status ≡ codes "NEW") ⊎ (status ≡ codes "PARTIALLY_FILLED")

can_cancel-open :
    (status : Text)
    → can_cancel status ≡ true
    → (status ≡ codes "NEW") ⊎ (status ≡ codes "PARTIALLY_FILLED")
unfolding can_cancel
can_cancel-open status h = elim (Bool-cases (eq_text status (codes "NEW"))) [
  | inl new ↦ inl (eq_text_sound status _ new)
  | inr other ↦ inr (eq_text_sound status _ (sym (rw other refl) ∙ h))
]

module _ {L : Library} {S : Type 0} (db : Database L S) where
  -- The database's answer to the question for the order's status.
  abbrev pub asked : ℤ → S → Answer (List Row) × S
  asked id s =
      db.run_query (codes "SELECT status FROM orders WHERE order_id = ?") (bind_int id ∷ []) s

  -- The database after the order is marked as cancelled, at the time of its clock.
  abbrev pub updated : ℤ → S → S
  updated id t =
      let (now, u) = db.time t in
      (db.run_exec
        (codes
          "UPDATE orders SET status = 'CANCELLED', cancelled_at = ?, updated_at = SYSUTCDATETIME() WHERE order_id = ?")
        (bind_int now ∷ bind_int id ∷ []) u).1

  -- What the handler does with that answer.
  abbrev rest : ℤ → Answer (List Row) → Program L (Response L)
  rest id r =
      handler
        (answered r >>= first_row (done (not_found_response (codes "Order"))) (cancel_existing id))

  answer_state :
      (r : Answer (Unit {0})) (v : S)
      → (run_program db
          (handler (answered r >>= λ done_update. succeeded (codes "Order cancelled successfully")))
          v).1
        ≡ v
  unfolding run_program handler catching succeeded
  answer_state (success u) v = refl
  answer_state (failure e) v = refl

  row_state :
      (id : ℤ) (row : Row) (rows : List Row) (named : Option Text) (t : S)
      → find_column (codes "status") row ≡ named
      → ((run_program db (rest id (success (row ∷ rows))) t).1 ≡ t)
        ⊎ (Cancellable (success (row ∷ rows))
            × ((run_program db (rest id (success (row ∷ rows))) t).1 ≡ updated id t))
  unfolding run_program handler catching first_row cancel_existing column send_exec succeeded codes
  row_state id row rows none t e = inl (rw e refl)
  row_state id row rows (some st) t e = elim (Bool-cases (can_cancel st)) [
    | inl open_order ↦ inr (
      record {
        row = row;
        rows = rows;
        status = st;
        found = refl;
        named = e;
        open_status = can_cancel-open st open_order;
      },
      rw e (
          rw open_order (
            let (now, u) = db.time t in
            let update = cancel_statement {L = L} now id in
            let (r, v) = db.run_exec update.sql update.binds u in answer_state r v)),
    )
    | inr closed_order ↦ inl (rw e (rw closed_order refl))
  ]

  rest_state :
      (id : ℤ) (r : Answer (List Row)) (t : S)
      → ((run_program db (rest id r) t).1 ≡ t)
        ⊎ (Cancellable r × ((run_program db (rest id r) t).1 ≡ updated id t))
  unfolding run_program handler catching first_row
  rest_state id (failure e) t = inl refl
  rest_state id (success []) t = inl refl
  rest_state id (success (row ∷ rows)) t = row_state id row rows _ t refl

  -- A request to cancel an order leaves the database as it is after the question for the order's status;
  -- or the answer to that question has a row whose status is NEW or PARTIALLY_FILLED, and the database
  -- is as it is after the question, the clock and one update, which marks this order as cancelled at the
  -- time of the clock.
  pub cancel_order-writes_only_open :
      (req : Request) (id : ℤ) (s : S)
      → ((run_program db (cancel_order req id) s).1 ≡ (asked id s).1)
        ⊎ (Cancellable (asked id s).0
            × ((run_program db (cancel_order req id) s).1 ≡ updated id (asked id s).1))
  unfolding run_program cancel_order status_query send_query handler catching first_row codes
  cancel_order-writes_only_open req id s = rest_state id (asked id s).0 (asked id s).1
