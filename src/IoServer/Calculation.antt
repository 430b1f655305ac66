-- ===== src/IoServer/Calculation.antt =====
-- The calculations of IO-Server/src/calculations: their parameters, and the candles that they ask the
-- database for. The operations of double that they use are a parameter, too.
use velocity_vortex.Base.{
  ℕ, Bool, Option, none, some, List, [], ◌∷◌, ◌++◌, Text, codes, if◌then◌else◌, ◌+◌,
}
use velocity_vortex.Base.Int.{ℤ, pos, pos_part}
use velocity_vortex.Base.Number.{stoll, to_string}
use velocity_vortex.IoServer.Library.{Library}
use velocity_vortex.IoServer.Program.{Program, Row, BindValue, bind_int, bind_text, done}
use velocity_vortex.IoServer.Statement.{Statement, statement, extend, extend_if, is_positive, ◌|>◌}
use velocity_vortex.IoServer.Json.{Json, Fields, fields, text}
use velocity_vortex.IoServer.Router.Ask.{find_column}
pub mod Registry
pub mod Rca
pub mod Mca
pub mod Methods
pub mod Sound

pub record CalcParams : Type 0 where
  pub symbol : Text
  pub symbol2 : Text
  pub timeframe : Text
  pub from_time : ℤ
  pub to_time : ℤ
  pub window : ℤ
  pub limit : ℤ
  pub extra : List (Text × Text)

pub record Reals (L : Library) : Type 0 where
  pub sub : L.Real → L.Real → L.Real
  pub mul : L.Real → L.Real → L.Real
  pub div : L.Real → L.Real → L.Real
  pub sqrt : L.Real → L.Real
  pub of_nat : ℕ → L.Real
  pub is_zero : L.Real → Bool

-- `value > 0 ? value : default`.
unfoldable pub positive_or : ℕ → ℤ → ℕ
positive_or default value = if is_positive value then pos_part value else default

-- The text that the statement for candles starts with; its lines start with a margin.
unfoldable pub candles_head : Text → Text
candles_head margin =
    codes "\n"
    ++ (margin
        ++ (codes "    SELECT o.open_time, o.close\n"
            ++ (margin
                ++ (codes "    FROM   ohlcv o\n"
                    ++ (margin
                        ++ (codes "    JOIN   symbols s ON s.symbol_id = o.symbol_id\n"
                            ++ (margin
                                ++ (codes "    WHERE  s.ticker = ? AND o.timeframe = ?\n"
                                    ++ margin))))))))

module _ {L : Library} where
  -- `err["error"] = message; return err;`
  abbrev pub refused : Text → Program L (Fields L)
  refused message = done (fields ((codes "error", text message) ∷ []))

  -- The statement for the candles of a ticker. The bound on the number of rows is a sum of two values of
  -- type int, taken here as it is.
  unfoldable pub candles_statement : Text → CalcParams → ℕ → Text → Statement L
  unfolding candles_head
  candles_statement margin params bound ticker =
      statement (candles_head margin) (bind_text ticker ∷ bind_text params.timeframe ∷ [])
      |> extend_if (is_positive params.from_time) (codes " AND o.open_time >= ?")
          (bind_int params.from_time)
      |> extend_if (is_positive params.to_time) (codes " AND o.open_time <= ?")
          (bind_int params.to_time)
      |> extend (codes " ORDER BY o.open_time ASC LIMIT " ++ to_string bound) []

module _ (L : Library) where
  -- A row's time and close; `none` where the code skips the row.
  unfoldable pub read_candle : Row → Option (ℤ × L.Real)
  unfolding find_column stoll
  read_candle row = elim (find_column (codes "open_time") row) [
    | none ↦ none
    | some t ↦ elim (stoll t) [
      | none ↦ none
      | some ts ↦ elim (find_column (codes "close") row) [
        | none ↦ none
        | some c ↦ elim (L.stod c) [ none ↦ none | some close ↦ some (ts, close) ]
      ]
    ]
  ]
