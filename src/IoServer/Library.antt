-- ===== src/IoServer/Library.antt =====
-- What the code of IO-Server/src calls of other libraries: the conversions of the C++ standard library,
-- and nlohmann::json on the body of a request. `none`: the call throws.
use velocity_vortex.Base.{ℕ, Bool, Option, Text}
use velocity_vortex.Base.Int.{ℤ}

pub data Exception : Type 0 where
  -- SQLiteDB throws std::runtime_error with a message.
  database : Text → Exception
  missing_key bad_number bad_json : Exception

pub record Library : Type 1 where
  pub Real : Type 0
  -- The literal with these digits, of which the second number stand behind the point.
  pub decimal : ℕ → ℕ → Real
  pub add : Real → Real → Real
  pub stod : Text → Option Real
  -- strtod, if it reads the whole text.
  pub strtod : Text → Option Real
  pub what : Exception → Text
  -- What std::vector::size is after the vector was moved from.
  pub moved_size : ℕ → ℕ
  pub Body : Type 0
  pub parse : Text → Option Body
  pub contains : Body → Text → Bool
  -- `body[key]`, converted to what a call takes.
  pub text_at : Body → Text → Option Text
  pub real_at : Body → Text → Option Real
  pub int_at : Body → Text → Option ℤ
  pub dump_at : Body → Text → Option Text
  -- `body.value(key, default)`.
  pub text_or : Body → Text → Text → Option Text
  pub real_or : Body → Text → Real → Option Real
  pub int_or : Body → Text → ℤ → Option ℤ
