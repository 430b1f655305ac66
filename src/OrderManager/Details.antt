-- ===== src/OrderManager/Details.antt =====
-- `OrderDetails` of Order-Manager-Server/include/Executor-Manager-Core/OrderDetails.hpp and
-- `parseOrder` of Order-Manager-Server/src/Scheduler/scheduler.cpp. A text is the list of its bytes.
use velocity_vortex.Base.Number.{is_space}
use velocity_vortex.Base.{true, false, Option, none, some, List, [], ◌∷◌, ◌++◌, Text}

pub record OrderDetails : Type 0 where
  pub side : Text
  pub type : Text
  pub time_in_force : Text
  pub symbol : Text
  pub qty : Text
  pub limit_price : Option Text
  pub stop_price : Option Text
  pub trail_price : Option Text
  pub trail_percent : Option Text

-- The texts that `iss >> text` yields one after the other: maximal runs without white space.
-- `word` is the run so far.
unfoldable pub words_from : Text → Text → List Text
words_from [] [] = []
words_from (w ∷ ws) [] = (w ∷ ws) ∷ []
words_from word (c ∷ cs) = elim (is_space c) [
  | false ↦ words_from (word ++ (c ∷ [])) cs
  | true ↦ elim word [ [] ↦ words_from [] cs | w ∷ ws ↦ (w ∷ ws) ∷ words_from [] cs ]
]

-- `iss >> field`: an extraction that fails leaves the text empty, or the option.
abbrev pub field : List Text → Text
field [] = []
field (w ∷ ws) = w

abbrev pub optional_field : List Text → Option Text
optional_field [] = none
optional_field (w ∷ ws) = some w

abbrev pub rest : List Text → List Text
rest [] = []
rest (w ∷ ws) = ws

unfoldable pub details_of : List Text → OrderDetails
details_of ws =
    let ws1 = rest ws in
    let ws2 = rest ws1 in
    let ws3 = rest ws2 in
    let ws4 = rest ws3 in
    let ws5 = rest ws4 in
    let ws6 = rest ws5 in
    let ws7 = rest ws6 in
    record {
      side = field ws;
      type = field ws1;
      time_in_force = field ws2;
      symbol = field ws3;
      qty = field ws4;
      limit_price = optional_field ws5;
      stop_price = optional_field ws6;
      trail_price = optional_field ws7;
      trail_percent = optional_field (rest ws7);
    }

unfoldable pub parse_order : Text → OrderDetails
unfolding details_of words_from
parse_order order = details_of (words_from [] order)
