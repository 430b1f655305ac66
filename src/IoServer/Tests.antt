-- ===== src/IoServer/Tests.antt =====
-- The modules of the IO server at concrete inputs: whole numbers for doubles, a body as a list of keys
-- and texts, a table of rows for the database, and a connection to it.
use velocity_vortex.Base.{
  ℕ, zero, suc, ◌+◌, ◌-◌, ◌≡◌, refl, ◌⊎◌, true, false, Option, none, some, List, [], ◌∷◌, Text,
  codes, if◌then◌else◌, eq_text, arith,
}
use velocity_vortex.Base.Int.{pos, negsuc}
use velocity_vortex.Base.Number.{stoi}
use velocity_vortex.IoServer.Library.{Library}
use velocity_vortex.IoServer.Program.{success, Row, bind_int}
use velocity_vortex.IoServer.Params.{Request, parse_params}
use velocity_vortex.IoServer.Database.{Database, run_program}
use velocity_vortex.IoServer.Router.Ask.{find_column}
use velocity_vortex.IoServer.Router.Orders.{cancel_order}
use velocity_vortex.IoServer.Router.Routes.{handle, list_ohlcv}
use velocity_vortex.IoServer.Router.Sound.{marks, Sound}
use velocity_vortex.IoServer.Router.Sound.Routes.{handle-Sound}
use velocity_vortex.IoServer.Router.Sound.Cancel.{Cancellable, cancel_order-writes_only_open}
use velocity_vortex.IoServer.RedisSubscriber.{split_string, join, element, Reply, process_reply}
use velocity_vortex.IoServer.RedisSubscriber.Split.{split_string-join}
use velocity_vortex.IoServer.SqliteDb.{Step, sqlite_row, sqlite_done, Sqlite, bind_all, query, exec}
use velocity_vortex.IoServer.SqliteDb.Fetch.{Returns, exec-Follows-query, query-Returns}
use velocity_vortex.IoServer.SqliteDb.Leak.{Counts, Leaves, exec-Leaves}
use velocity_vortex.IoServer.Program.{done}
use velocity_vortex.Base.{◌*◌, ◌==◌}
use velocity_vortex.IoServer.Calculation.{Reals}
use velocity_vortex.IoServer.Keeps.{Keeps}
use velocity_vortex.IoServer.Calculation.Registry.{run_calculation}
use velocity_vortex.IoServer.Calculation.Methods.{build_registry}
use velocity_vortex.IoServer.Calculation.Sound.{calculated, run_calculation-Answered}

abbrev whole : Text → Option ℕ
whole t = elim (stoi t) [ none ↦ none | some i ↦ elim i [ pos n ↦ some n | negsuc n ↦ none ] ]

abbrev value_in : Row → Text → Option Text
value_in body key = find_column key body

abbrev or_default : {A : Type 0} → A → Option A → Option A
or_default default none = some default
or_default default (some x) = some x

abbrev library : Library
library = record {
  Real = ℕ;
  decimal = λ digits places. digits;
  add = λ x y. x + y;
  stod = whole;
  strtod = whole;
  what = λ e. codes "error";
  moved_size = λ n. 0;
  Body = Row;
  parse = λ t. some ((codes "symbol", t) ∷ []);
  contains = λ body key. elim (find_column key body) [ none ↦ false | some t ↦ true ];
  text_at = λ body key. find_column key body;
  real_at = λ body key. elim (find_column key body) [ none ↦ none | some t ↦ whole t ];
  int_at = λ body key. elim (find_column key body) [ none ↦ none | some t ↦ stoi t ];
  dump_at = λ body key. find_column key body;
  text_or = λ body key default. or_default default (find_column key body);
  real_or = λ body key default. some default;
  int_or = λ body key default. some default;
}

-- A request for the candles of EURUSD, the latest first.
abbrev request : Request
request = record {
  url_param = λ name.
      if eq_text name (codes "symbol")
      then some (codes "EURUSD")
      else if eq_text name (codes "order_dir")
      then some (codes "DESC")
      else none;
  body = codes "EURUSD";
}

-- Every question is answered with all the rows, and every change takes them away.
abbrev table : Database library (List Row)
table = record {
  run_query = λ sql binds s. (success s, s);
  run_exec = λ sql binds s. (success tt, []);
  rowid = λ s. pos 1;
  time = λ s. (pos 5, s);
}

abbrev new_row : Row
new_row = (codes "status", codes "NEW") ∷ (codes "symbol_id", codes "7") ∷ []

handle-Sound_example : Sound {L = library} (handle list_ohlcv request)
unfolding parse_params codes eq_text marks
handle-Sound_example = handle-Sound list_ohlcv request refl

cancel_order-writes_only_open_example :
    ((run_program table (cancel_order request (pos 3)) (new_row ∷ [])).1 ≡ new_row ∷ [])
    ⊎ (Cancellable (success (new_row ∷ []))
        × ((run_program table (cancel_order request (pos 3)) (new_row ∷ [])).1 ≡ []))
cancel_order-writes_only_open_example =
    cancel_order-writes_only_open table request (pos 3) (new_row ∷ [])

split_string-join_example :
    split_string 44 (join 44 (65 ∷ []) ([] ∷ (66 ∷ 67 ∷ []) ∷ []))
    ≡ (65 ∷ []) ∷ [] ∷ (66 ∷ 67 ∷ []) ∷ []
split_string-join_example =
    split_string-join 44 (65 ∷ []) ([] ∷ (66 ∷ 67 ∷ []) ∷ [])
      ((ground arith, tt), (tt, ((ground arith, (ground arith, tt)), ground arith)))

abbrev trade_reply : Reply
trade_reply = record {
  is_array = true;
  elements =
      element (some (codes "message"))
      ∷ element (some (codes "trades"))
      ∷ element (some (codes "EURUSD,1,2,3,a,buy"))
      ∷ [];
}

-- The answer to a subscription: its last element is a number.
subscribed :
    process_reply {L = library} (
      some (record {
        is_array = true;
        elements =
            element (some (codes "subscribe"))
            ∷ element (some (codes "trades"))
            ∷ element none
            ∷ [];
      }))
    ≡ some (done tt)
unfolding process_reply codes eq_text
subscribed = refl

-- A connection: how many statements are open, and how many rows are left.
abbrev step_rows : ℕ × ℕ → Step × (ℕ × ℕ)
step_rows (live, zero) = (sqlite_done, (live, zero))
step_rows (live, suc n) = (sqlite_row, (live, n))

abbrev connection : Sqlite library (ℕ × ℕ) (Unit {0})
connection = record {
  prepare = λ sql s. (some tt, (suc s.0, 2));
  bind = λ stmt i value s. (true, s);
  step = λ stmt s. step_rows s;
  columns = λ stmt s. (some (codes "status"), some (codes "NEW")) ∷ [];
  finalize = λ stmt s. (s.0 - 1, s.1);
  errmsg = λ s. codes "error";
}

step_rows-live : (s : ℕ × ℕ) → (step_rows s).1.0 ≡ s.0
step_rows-live (live, zero) = refl
step_rows-live (live, suc n) = refl

connection-Counts : Counts connection (λ s. s.0)
connection-Counts = record {
  prepare_none = λ sql s h. grind arith;
  prepare_some = λ sql s stmt h. refl;
  bind_same = λ stmt i value s. refl;
  step_same = λ stmt s. step_rows-live s;
  finalize_one = λ stmt s n h. omega arith;
}

exec-Follows-query_example :
    exec connection 3 (codes "SELECT ?") (bind_int (pos 1) ∷ []) [] (0, 0)
    ≡ some (success tt, (0, 0))
unfolding query codes
exec-Follows-query_example =
    exec-Follows-query connection 3 (codes "SELECT ?") (bind_int (pos 1) ∷ []) [] (0, 0)

query-Returns_example :
    Returns connection (query connection 3 (codes "SELECT ?") (bind_int (pos 1) ∷ []) [] (0, 0))
unfolding bind_all
query-Returns_example =
    query-Returns connection 2 (codes "SELECT ?") (bind_int (pos 1) ∷ []) [] (0, 0) (λ stmt h. tt)

exec-Leaves_example :
    Leaves connection
      (λ s. s.0)
      connection-Counts
      4
      (exec connection 3 (codes "DELETE") [] [] (4, 0))
    × Leaves connection
        (λ s. s.0)
        connection-Counts
        4
        (query connection 3 (codes "DELETE") [] [] (4, 0))
exec-Leaves_example =
    exec-Leaves connection (λ s. s.0) connection-Counts 3 (codes "DELETE") [] [] (4, 0)

abbrev reals : Reals library
reals = record {
  sub = λ x y. x - y;
  mul = λ x y. x * y;
  div = λ x y. x;
  sqrt = λ x. x;
  of_nat = λ n. n;
  is_zero = λ x. x == 0;
}

abbrev calculation_request : Request
calculation_request = record {
  url_param = λ name.
      if eq_text name (codes "symbol")
      then some (codes "EURUSD")
      else if eq_text name (codes "timeframe")
      then some (codes "1h")
      else none;
  body = [];
}

run_calculation-Answered_example : Keeps (calculated (codes "rca")) (
    run_calculation
      (λ t. some t)
      (λ key result. result)
      (build_registry reals)
      calculation_request
      []
      (codes "rca"))
run_calculation-Answered_example =
    run_calculation-Answered (λ t. some t) (λ key result. result) reals calculation_request []
      (codes "rca")
