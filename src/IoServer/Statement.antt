-- ===== src/IoServer/Statement.antt =====
-- How the handlers of IO-Server/src/api_router.cpp put an SQL statement together: a text with a question
-- mark for each value, and the values.
use velocity_vortex.Base.{Bool, true, false, ◌&&◌, List, [], ◌∷◌, ◌++◌, Text, codes, if◌then◌else◌}
use velocity_vortex.Base.Int.{ℤ, pos, ltb_ℤ}
use velocity_vortex.Base.Number.{show_ℤ}
use velocity_vortex.IoServer.Library.{Library}
use velocity_vortex.IoServer.Program.{BindValue, bind_int}

pub record Statement (L : Library) : Type 0 where
  pub sql : Text
  pub binds : List (BindValue L)

unfoldable pub is_empty : Text → Bool
is_empty [] = true
is_empty (c ∷ cs) = false

-- One step after the other, in the order in which the code makes them.
infixl 4 ◌|>◌
abbrev pub ◌|>◌ : {A B : Type 0} → A → (A → B) → B
x |> f = f x

module _ {L : Library} where
  abbrev pub statement : Text → List (BindValue L) → Statement L
  statement sql binds = record { sql = sql; binds = binds }

  -- `sql += text; binds.push_back(...)`, for no value, or for some.
  unfoldable pub extend : Text → List (BindValue L) → Statement L → Statement L
  extend text values s = record { sql = s.sql ++ text; binds = s.binds ++ values }

  unfoldable pub extend_if : Bool → Text → BindValue L → Statement L → Statement L
  unfolding extend
  extend_if test text value s = if test then extend text (value ∷ []) s else s

  -- `sql += " LIMIT ? OFFSET ?"` and the two values.
  unfoldable pub paged : ℤ → ℤ → Statement L → Statement L
  unfolding extend
  paged limit offset = extend (codes " LIMIT ? OFFSET ?") (bind_int limit ∷ bind_int offset ∷ [])

abbrev pub is_positive : ℤ → Bool
is_positive i = ltb_ℤ (pos 0) i

unfoldable pub build_date_range_filter : Text → ℤ → ℤ → Text
unfolding show_ℤ
build_date_range_filter field from to =
    if is_positive from && is_positive to
    then codes " AND "
      ++ (field ++ (codes " BETWEEN " ++ (show_ℤ from ++ (codes " AND " ++ show_ℤ to))))
    else if is_positive from
    then codes " AND " ++ (field ++ (codes " >= " ++ show_ℤ from))
    else if is_positive to
    then codes " AND " ++ (field ++ (codes " <= " ++ show_ℤ to))
    else []

unfoldable pub build_order_by_clause : Text → Text → Text
build_order_by_clause default_field direction =
    codes " ORDER BY " ++ (default_field ++ (codes " " ++ direction))
