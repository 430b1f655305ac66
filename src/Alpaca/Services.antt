-- ===== src/Alpaca/Services.antt =====
-- What the clients use of libraries: JsonCpp (`Json::Value`, its reader and its writer) and libcurl, and a
-- call's result: the sequence of calls that may throw.
use velocity_vortex.Base.{ℕ, Bool, Option, none, some, List, [], ◌∷◌, Text}
use velocity_vortex.Base.Int.{ℤ}
use velocity_vortex.Trading.Double.{Double}

-- `none`: `Json::LogicError` is thrown.
pub record JsonCpp (F : Double) : Type 1 where
  pub Value : Type 0
  -- `none`: the text is no JSON.
  pub parse : Text → Option Value
  pub member : Value → Text → Option Value
  -- The values that `for (const auto &item : value)` goes over.
  pub elements : Value → List Value
  pub is_null : Value → Bool
  pub is_array : Value → Bool
  pub is_member : Value → Text → Option Bool
  -- Whether the value is this text.
  pub is_text : Value → Text → Bool
  pub as_string : Value → Option Text
  pub as_double : Value → Option F.Carrier
  pub as_int : Value → Option ℤ
  pub as_int64 : Value → Option ℤ
  pub as_bool : Value → Option Bool
  pub to_styled_string : Value → Text
  -- `Json::writeString` of an object with these members, each a text.
  pub write_object : List (Text × Text) → Text

-- What `CURLOPT_POSTFIELDS` points to, which libcurl does not copy: a payload that is still there, or one that
-- its owner has freed.
pub data PostFields : Type 0 where
  unset : PostFields
  live : Text → PostFields
  freed : PostFields

-- The options of a handle of libcurl, which stay set from one transfer to the next.
pub record Options : Type 0 where
  pub custom_request : Option Text
  pub url : Text
  pub post_fields : PostFields
  pub headers : List Text

-- `curl_easy_perform`: the code and what the write callback got, by the transfers before it and the
-- options of the handle. `easy_init`: whether, after these transfers, a handle is made, with the number of
-- the handles that its owner has. A transfer whose `post_fields` are freed has no defined behaviour; what
-- is given for it means nothing.
pub record Curl : Type 0 where
  pub perform : List Options → Options → ℕ × Text
  pub easy_init : List Options → ℕ → Bool

-- A handle as `curl_easy_init` makes it.
abbrev pub new_handle : Options
new_handle = record { custom_request = none; url = []; post_fields = unset; headers = [] }

module _ {A B : Type 0} where
  -- `none`: an exception is thrown.
  infixl 20 ◌>>=◌
  unfoldable pub ◌>>=◌ : Option A → (A → Option B) → Option B
  none >>= f = none
  some x >>= f = f x

  -- A loop over the items that makes one thing of each.
  unfoldable pub for_each : (A → Option B) → List A → Option (List B)
  for_each f [] = some []
  for_each f (x ∷ xs) = elim (f x) [
    | none ↦ none
    | some y ↦ elim (for_each f xs) [ none ↦ none | some ys ↦ some (y ∷ ys) ]
  ]
