-- ===== src/IoServer/Params.antt =====
-- `parse_params` and `parse_calc_params` of IO-Server/src/api_router.cpp.
use velocity_vortex.Base.{Option, none, some, [], Text, codes}
use velocity_vortex.Base.Int.{ℤ, pos}
use velocity_vortex.Base.Number.{stoi, stoll}

-- `url_params.get`, with `none` for a null pointer, and the body.
pub record Request : Type 0 where
  pub url_param : Text → Option Text
  pub body : Text

pub record QueryParams : Type 0 where
  pub symbol : Text
  pub timeframe : Text
  pub from_time : ℤ
  pub to_time : ℤ
  pub limit : ℤ
  pub offset : ℤ
  pub strategy : Text
  pub status : Text
  pub direction : Text
  pub order_by : Text
  pub order_dir : Text

abbrev pub text_or : Text → Option Text → Text
text_or default none = default
text_or default (some t) = t

-- `try { x = given ? convert(given) : default; } catch (...) { x = default; }`
abbrev pub number_or : (Text → Option ℤ) → ℤ → Option Text → ℤ
number_or convert default none = default
number_or convert default (some t) = elim (convert t) [ none ↦ default | some i ↦ i ]

unfoldable pub parse_params : Request → QueryParams
unfolding stoi stoll
parse_params req = record {
  symbol = text_or [] (req.url_param (codes "symbol"));
  timeframe = text_or [] (req.url_param (codes "timeframe"));
  from_time = number_or stoll (pos 0) (req.url_param (codes "from"));
  to_time = number_or stoll (pos 0) (req.url_param (codes "to"));
  limit = number_or stoi (pos 100) (req.url_param (codes "limit"));
  offset = number_or stoi (pos 0) (req.url_param (codes "offset"));
  strategy = text_or [] (req.url_param (codes "strategy"));
  status = text_or [] (req.url_param (codes "status"));
  direction = text_or [] (req.url_param (codes "direction"));
  order_by = text_or [] (req.url_param (codes "order_by"));
  order_dir = text_or (codes "ASC") (req.url_param (codes "order_dir"));
}
