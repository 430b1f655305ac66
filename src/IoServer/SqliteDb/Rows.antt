-- ===== src/IoServer/SqliteDb/Rows.antt =====
-- The row that `SQLiteDB::query` of IO-Server/src/SQLiteDB.cpp makes of the columns of a result: a
-- std::map, whose keys increase.
use velocity_vortex.Base.{
  ◌≡◌, refl, inl, inr, Bool, true, false, Bool-cases, Option, none, some, List, [], ◌∷◌, Text,
  if◌then◌else◌, ltb, ◌==◌, arith, eq_text,
}
use velocity_vortex.IoServer.Program.{Row}
use velocity_vortex.IoServer.Router.Ask.{find_column}

-- Whether a std::string comes before another.
unfoldable pub text_before : Text → Text → Bool
text_before s [] = false
text_before [] (d ∷ ds) = true
text_before (c ∷ cs) (d ∷ ds) =
    let rest = text_before cs ds in if ltb c d then true else if c == d then rest else false

-- `row[key] = value`.
unfoldable pub assign : Text → Text → Row → Row
unfolding text_before
assign key value [] = (key, value) ∷ []
assign key value ((k, v) ∷ row) =
    let rest = assign key value row in
    if eq_text key k
    then (key, value) ∷ row
    else if text_before key k
    then (key, value) ∷ (k, v) ∷ row
    else (k, v) ∷ rest

abbrev pub text_or_empty : Option Text → Text
text_or_empty none = []
text_or_empty (some t) = t

-- The columns after those that made `row`.
unfoldable pub read_row : List (Option Text × Option Text) → Row → Row
unfolding assign
read_row [] row = row
read_row ((name, value) ∷ columns) row =
    read_row columns (assign (text_or_empty name) (text_or_empty value) row)

pub eq_text_refl : (t : Text) → eq_text t t ≡ true
unfolding eq_text
eq_text_refl [] = refl
eq_text_refl (c ∷ cs) = let h = eq_text_refl cs in ground arith

-- What was assigned to a key is found under it.
pub find_column-assign :
    (key value : Text) (row : Row) → find_column key (assign key value row) ≡ some value
unfolding find_column assign
find_column-assign key value [] = rw (eq_text_refl key) refl
find_column-assign key value ((k, v) ∷ row) = elim (Bool-cases (eq_text key k)) [
  | inl here ↦ rw here (rw (eq_text_refl key) refl)
  | inr there ↦ elim (Bool-cases (text_before key k)) [
    | inl before ↦ rw there (rw before (rw (eq_text_refl key) refl))
    | inr after ↦ rw there (rw after (rw there (find_column-assign key value row)))
  ]
]
