-- ===== src/IoServer/Json.antt =====
-- The JSON answers of IO-Server/src/api_router.cpp, and its responses.
use velocity_vortex.Base.{
  ℕ, Bool, true, false, none, some, List, [], ◌∷◌, ◌++◌, length, map, Text, codes,
}
use velocity_vortex.Base.Int.{ℤ, pos}
use velocity_vortex.Base.Number.{strtoll}
use velocity_vortex.IoServer.Library.{Library, Exception}
use velocity_vortex.IoServer.Program.{Row}

mutual
  pub data Json (L : Library) : Type 0 where
    bool : Bool → Json L
    int : ℤ → Json L
    real : L.Real → Json L
    text : Text → Json L
    array : Items L → Json L
    object : Fields L → Json L

  pub data Items (L : Library) : Type 0 where
    nil : Items L
    cons : Json L → Items L → Items L

  pub data Fields (L : Library) : Type 0 where
    end : Fields L
    entry : Text → Json L → Fields L → Fields L

-- An answer with its HTTP status.
pub record Response (L : Library) : Type 0 where
  pub status : ℕ
  pub body : Fields L

module _ {L : Library} where
  abbrev pub fields : List (Text × Json L) → Fields L
  fields [] = end
  fields ((k, v) ∷ kvs) = entry k v (fields kvs)

  abbrev pub items : List (Json L) → Items L
  items [] = nil
  items (v ∷ vs) = cons v (items vs)

  abbrev pub nat : ℕ → Json L
  nat n = int (pos n)

  -- `body[key] = value`, for a key that the object does not have.
  unfoldable pub with_field : Text → Json L → Fields L → Fields L
  with_field k v end = entry k v end
  with_field k v (entry j w fs) = entry j w (with_field k v fs)

  abbrev pub response : ℕ → Fields L → Response L
  response code body = record { status = code; body = body }

  -- A text that is a number becomes one.
  unfoldable pub value_to_json : Text → Json L
  unfolding strtoll
  value_to_json [] = text []
  value_to_json (c ∷ cs) = elim (strtoll (c ∷ cs)) [
    | some i ↦ int i
    | none ↦ elim (L.strtod (c ∷ cs)) [ some x ↦ real x | none ↦ text (c ∷ cs) ]
  ]

  unfoldable pub row_to_json : Row → Fields L
  unfolding value_to_json
  row_to_json [] = end
  row_to_json ((key, value) ∷ row) = entry key (value_to_json value) (row_to_json row)

  abbrev pub json_rows : List Row → List (Json L)
  unfolding row_to_json
  json_rows rows = map (λ row. object (row_to_json row)) rows

  unfoldable pub rows_to_json : List Row → Fields L
  unfolding row_to_json
  rows_to_json rows = fields (
      (codes "data", array (items (map (λ row. object (row_to_json row)) rows)))
      ∷ (codes "count", nat (length rows))
      ∷ (codes "success", bool true)
      ∷ [])

  unfoldable pub error_response : Text → ℕ → Response L
  error_response message code = response code (
      fields (
        (codes "success", bool false)
        ∷ (codes "error", text message)
        ∷ (codes "code", nat code)
        ∷ []))

  unfoldable pub not_found_response : Text → Response L
  unfolding error_response
  not_found_response resource = error_response (resource ++ codes " not found") 404

  -- `catch (const std::exception &e) { return error_response(e.what()); }`
  unfoldable pub bad_request : Exception → Response L
  unfolding error_response
  bad_request e = error_response (L.what e) 400
