-- ===== src/IoServer/Calculation/Registry.antt =====
-- `CalculationRegistry` of IO-Server/src/calculation_registry.cpp, and the two endpoints of
-- IO-Server/src/api_router.cpp that use it.
use velocity_vortex.Base.{
  ℕ, Bool, true, false, Option, none, some, List, [], ◌∷◌, ◌++◌, map, Text, codes, if◌then◌else◌,
  eq_text, ◌==◌,
}
use velocity_vortex.Base.Int.{pos}
use velocity_vortex.Base.Number.{stoi, stoll}
use velocity_vortex.IoServer.Library.{Library}
use velocity_vortex.IoServer.Program.{Program, done, catching, ◌>>=◌}
use velocity_vortex.IoServer.Json.{
  Json, Fields, end, entry, Response, response, fields, items, text, array, object, error_response,
  not_found_response,
}
use velocity_vortex.IoServer.Params.{Request, text_or, number_or}
use velocity_vortex.IoServer.Calculation.{CalcParams}

-- `ICalculationHandler`.
pub record CalculationHandler (L : Library) : Type 0 where
  pub name : Text
  pub description : Text
  pub compute : CalcParams → Program L (Fields L)

-- The handlers by their keys, each key once; the order of the map is not fixed.
abbrev pub Registry : Library → Type 0
Registry L = List (Text × CalculationHandler L)

module _ {L : Library} where
  unfoldable pub put_handler : Text → CalculationHandler L → Registry L → Registry L
  put_handler key handler [] = (key, handler) ∷ []
  put_handler key handler ((k, h) ∷ registry) =
      let rest = put_handler key handler registry in
      if eq_text key k then (key, handler) ∷ registry else (k, h) ∷ rest

  -- `handlers_[handler->name()] = handler`.
  unfoldable pub register_handler : CalculationHandler L → Registry L → Registry L
  unfolding put_handler
  register_handler handler registry = put_handler handler.name handler registry

  -- `get`; `none` for the null pointer.
  unfoldable pub find_handler : Text → Registry L → Option (CalculationHandler L)
  find_handler name [] = none
  find_handler name ((k, h) ∷ registry) =
      let more = find_handler name registry in if eq_text name k then some h else more

  unfoldable pub has_handler : Text → Registry L → Bool
  unfolding find_handler
  has_handler name registry = elim (find_handler name registry) [ none ↦ false | some h ↦ true ]

  unfoldable pub list_names : Registry L → List Text
  list_names registry = map (λ e. e.0) registry

  unfoldable pub method_json : CalculationHandler L → Json L
  method_json h =
      object (fields ((codes "name", text h.name) ∷ (codes "description", text h.description) ∷ []))

  unfoldable pub list_json : Registry L → Fields L
  unfolding method_json
  list_json registry =
      fields ((codes "methods", array (items (map (λ e. method_json e.1) registry))) ∷ [])

  unfoldable pub list_calculations : Registry L → Response L
  unfolding list_json
  list_calculations registry = response 200 (list_json registry)

-- The parameters that `parse_calc_params` knows.
unfoldable pub is_known : Text → Bool
is_known key = is_in (
    codes "symbol"
    ∷ codes "symbol2"
    ∷ codes "timeframe"
    ∷ codes "from"
    ∷ codes "to"
    ∷ codes "window"
    ∷ codes "limit"
    ∷ [])
  where
    is_in : List Text → Bool
    is_in [] = false
    is_in (k ∷ ks) = let more = is_in ks in if eq_text key k then true else more

-- The parameters that are not known, by the keys of the URL; a key's value is the one that `get` gives.
unfoldable pub extras : Request → List Text → List (Text × Text)
unfolding is_known
extras req [] = []
extras req (key ∷ keys) =
    let more = extras req keys in
    if is_known key then more else (key, text_or [] (req.url_param key)) ∷ more

unfoldable pub parse_calc_params : Request → List Text → CalcParams
unfolding stoi stoll extras
parse_calc_params req keys = record {
  symbol = text_or [] (req.url_param (codes "symbol"));
  symbol2 = text_or [] (req.url_param (codes "symbol2"));
  timeframe = text_or [] (req.url_param (codes "timeframe"));
  from_time = number_or stoll (pos 0) (req.url_param (codes "from"));
  to_time = number_or stoll (pos 0) (req.url_param (codes "to"));
  window = number_or stoi (pos 14) (req.url_param (codes "window"));
  limit = number_or stoi (pos 200) (req.url_param (codes "limit"));
  extra = extras req keys;
}

-- Whether a text has two bytes or more, is quoted, and without its quotes; otherwise the text.
unfoldable pub unquoted : Text → Text
unquoted [] = []
unquoted (c ∷ cs) = if c == 34 then closed cs else c ∷ cs
  where
    front : ℕ → Text → Text
    front d [] = []
    front d (e ∷ es) = d ∷ front e es

    last_of : ℕ → Text → ℕ
    last_of d [] = d
    last_of d (e ∷ es) = last_of e es

    closed : Text → Text
    closed [] = c ∷ []
    closed (d ∷ ds) = if last_of d ds == 34 then front d ds else c ∷ d ∷ ds

-- The message for an error whose dump is this; `none`: the dump throws.
unfoldable pub error_message : Option Text → Text
unfolding unquoted
error_message none = codes "error"
error_message (some dumped) = elim (unquoted dumped) [ [] ↦ codes "error" | c ∷ cs ↦ c ∷ cs ]

module _ {L : Library} where
  -- The text of the field `error`, if it is one.
  unfoldable pub error_of : Fields L → Option Text
  error_of end = none
  error_of (entry k (text t) fs) =
      let more = error_of fs in if eq_text k (codes "error") then some t else more
  error_of (entry k v fs) =
      let more = error_of fs in if eq_text k (codes "error") then none else more

  -- What the web framework makes of a text in JSON, and of an object when a field that it does not have is
  -- asked for.
  module _ (dump : Text → Option Text) (asked_for : Text → Fields L → Fields L) where
    unfoldable pub calculation_response : Fields L → Response L
    unfolding error_of error_message
    calculation_response result = elim (error_of result) [
      | some t ↦ error_response (error_message (dump t)) 400
      | none ↦ response 200 (asked_for (codes "error") result)
    ]

    unfoldable pub run_calculation :
        Registry L → Request → List Text → Text → Program L (Response L)
    unfolding find_handler parse_calc_params calculation_response
    run_calculation registry req keys method = elim (find_handler method registry) [
      | none ↦ done (not_found_response (codes "Calculation method '" ++ (method ++ codes "'")))
      | some h ↦
          catching (λ e. done (error_response (L.what e) 500))
            (do result ← h.compute (parse_calc_params req keys); done (calculation_response result))
    ]
