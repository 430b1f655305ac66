-- ===== src/IoServer/Router/Sound.antt =====
-- What each handler of IO-Server/src/api_router.cpp owes: statements with a value for each question mark,
-- answers whose status and `success` agree, and no exception that leaves it; with a rule for each of the
-- steps that the handlers share.
mod Balance
mod Steps
pub mod Clauses
pub mod Market
pub mod Snapshots
pub mod Strategies
pub mod Orders
pub mod Signals
pub mod Positions
pub mod Routes
pub mod Cancel
unfoldable pub use Balance.*
unfoldable pub use Steps.*
use velocity_vortex.Base.{
  ℕ, zero, suc, ◌+◌, ◌≡◌, refl, sym, ap, ◌∙◌, ◌⊎◌, inl, inr, Bool, true, false, not, Bool-cases,
  Option, none, some, List, [], ◌∷◌, ◌++◌, length, length-append, Text, codes, if◌then◌else◌,
  eq_text, ltb, ◌==◌, arith,
}
use velocity_vortex.Base.Int.{ℤ}
use velocity_vortex.Base.Number.{stoi}
use velocity_vortex.IoServer.Library.{Library, Exception}
use velocity_vortex.IoServer.Program.{
  Program, done, thrown, Row, Answer, success, failure, BindValue, bind_int, bind_text, bind_null,
  ◌>>=◌, or_throw, answered,
}
use velocity_vortex.IoServer.Statement.{Statement, statement, extend, extend_if, paged, is_empty}
use velocity_vortex.IoServer.Json.{
  Json, Fields, end, entry, Response, bool, with_field, rows_to_json, error_response,
  not_found_response, bad_request,
}
use velocity_vortex.IoServer.Params.{QueryParams}
use velocity_vortex.IoServer.Keeps.{
  Promise, Keeps, done_keeps, thrown_keeps, query_keeps, exec_keeps, any_result, bind-Keeps,
  catching-Keeps,
}
use velocity_vortex.IoServer.Router.Ask.{
  column, find_column, int_column, text_value, real_value, int_value, dump_value, text_value_or,
  real_value_or, optional, first_row, require, send_query, send_exec, row_response, rows_response,
  symbol_query, with_symbol, created, succeeded, handler,
}

module _ {L : Library} where
  pub send_query_keeps : (s : Statement L) → Balanced s → Anything (send_query s)
  unfolding send_query
  send_query_keeps s h = query_keeps h.balance answer_keeps

  pub send_exec_keeps : (s : Statement L) → Balanced s → Anything (send_exec s)
  unfolding send_exec
  send_exec_keeps s h = exec_keeps h.balance answer_keeps

  pub first_row_keeps :
      {R : Response L → Type 0} {missing : Program L (Response L)}
      {found : Row → Program L (Response L)}
      → Inside {L = L} R missing
      → ((row : Row) → Inside {L = L} R (found row))
      → (rows : List Row) → Inside {L = L} R (first_row missing found rows)
  unfolding first_row
  first_row_keeps hm hf [] = hm
  first_row_keeps hm hf (row ∷ rows) = hf row

  pub error_response-Honest :
      (message : Text) (code : ℕ)
      → (code ≡ 400) ⊎ (code ≡ 404)
      → Honest {L = L} (error_response message code)
  unfolding error_response codes eq_text find_field
  error_response-Honest message code (inl e) =
      rw e (record { success_field = refl; known = inr (inr (inl refl)) })
  error_response-Honest message code (inr e) =
      rw e (record { success_field = refl; known = inr (inr (inr refl)) })

  pub refused_keeps :
      (message : Text) → Inside {L = L} (Honest {L = L}) (done (error_response message 400))
  refused_keeps message = done_keeps (error_response-Honest message 400 (inl refl))

  pub not_found_keeps :
      (what : Text) → Inside {L = L} (Honest {L = L}) (done (not_found_response what))
  unfolding not_found_response
  not_found_keeps what = done_keeps (error_response-Honest _ 404 (inr refl))

  pub require_keeps :
      (required : List Text) (body : L.Body) (next : Program L (Response L))
      → Inside {L = L} Honest next
      → Inside {L = L} Honest (require required body next)
  unfolding require
  require_keeps [] body next h = h
  require_keeps (key ∷ more) body next h = elim (Bool-cases (L.contains body key)) [
    | inl given ↦ rw given (require_keeps more body next h)
    | inr absent ↦ rw absent (refused_keeps _)
  ]

  pub with_symbol_keeps :
      (params : QueryParams) (next : Program L (Response L))
      → Inside {L = L} Honest next
      → Inside {L = L} Honest (with_symbol params next)
  unfolding with_symbol
  with_symbol_keeps params next h = elim (Bool-cases (is_empty params.symbol)) [
    | inl absent ↦ rw absent (refused_keeps _)
    | inr given ↦ rw given h
  ]

  pub row_response_keeps : (row : Row) → Inside {L = L} Honest (row_response row)
  unfolding row_response codes eq_text find_field
  row_response_keeps row = done_keeps (record { success_field = refl; known = inl refl })

  pub rows_to_json_success :
      (rows : List Row)
      → find_field {L = L} (codes "success") (rows_to_json rows) ≡ some (bool true)
  unfolding rows_to_json codes eq_text find_field
  rows_to_json_success rows = refl

  pub rows_response_keeps : (rows : List Row) → Inside {L = L} Honest (rows_response rows)
  unfolding rows_response
  rows_response_keeps rows =
      done_keeps (record { success_field = rows_to_json_success rows; known = inl refl })

  pub created_keeps :
      (key : Text) (id : ℤ) (message : Text) (more : List (Text × Json L))
      → Inside {L = L} Honest (created key id message more)
  unfolding created codes eq_text find_field
  created_keeps key id message more =
      done_keeps (record { success_field = refl; known = inr (inl refl) })

  pub succeeded_keeps : (message : Text) → Inside {L = L} Honest (succeeded message)
  unfolding succeeded codes eq_text find_field
  succeeded_keeps message = done_keeps (record { success_field = refl; known = inl refl })

  -- Outside the try block nothing escapes.
  abbrev pub outside : Promise L (Response L)
  outside = record {
    Sent = λ sql binds. marks sql ≡ length binds;
    Result = Honest;
    Escaped = λ e. ⊥;
  }

  abbrev pub Sound : Program L (Response L) → Type 0
  Sound m = Keeps outside m

  pub handler_keeps : (m : Program L (Response L)) → Inside {L = L} Honest m → Sound (handler m)
  unfolding handler bad_request
  handler_keeps m h =
      catching-Keeps outside (inside Honest) _ m (λ sql binds e. e) (λ r e. e) h
        (λ e u. done_keeps (error_response-Honest _ 400 (inl refl)))

pub ruleset sound_rules = (
  handler_keeps, ask, or_throw_keeps, column_keeps, int_column_keeps, text_value_keeps,
  real_value_keeps, int_value_keeps, dump_value_keeps, text_value_or_keeps, real_value_or_keeps,
  optional_keeps, send_query_keeps, send_exec_keeps, first_row_keeps, refused_keeps,
  not_found_keeps, require_keeps, with_symbol_keeps, row_response_keeps, rows_response_keeps,
  created_keeps, succeeded_keeps, statement-Balanced, extend-Balanced, extend_if-Balanced,
  paged-Balanced,
)
