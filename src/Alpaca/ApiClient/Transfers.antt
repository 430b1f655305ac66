-- ===== src/Alpaca/ApiClient/Transfers.antt =====
-- The transfers that the calls of a client make, described without its handles.
use velocity_vortex.Base.{
  ◌≡◌, refl, sym, ap, ◌∙◌, Bool, true, false, Option, none, some, List, [], ◌∷◌, ◌++◌, Text, codes,
  eq_text, last?, if◌then◌else◌,
}
use mathlib.Core.List.{append-nil, append_assoc}
use velocity_vortex.Alpaca.Services.{Curl, PostFields, unset, live, freed, Options}
use velocity_vortex.Alpaca.ApiClient.{
  ApiClient, Session, set_options, outlived, perform_request, with_handle, post, get, del,
}

pub data Request : Type 0 where
  posting : Text → Text → Request
  getting : Text → Request
  deleting : Text → Request

-- The session after the call.
unfoldable pub make_request : Curl → Request → Session → Session
unfolding post get del
make_request C (posting url payload) s = (post C url payload s).1
make_request C (getting url) s = (get C url s).1
make_request C (deleting url) s = (del C url s).1

-- Whether the last transfer read a payload that was freed.
abbrev pub is_undefined : Option Options → Bool
is_undefined none = false
is_undefined (some options) = elim (options.post_fields) [
  | unset ↦ false
  | live payload ↦ false
  | freed ↦ true
]

-- A call for each request, one after the other.
unfoldable pub make_requests : Curl → List Request → Session → Session
make_requests C [] s = s
make_requests C (r ∷ rs) s = make_requests C rs (make_request C r s)

-- The same, with `none` where a transfer has no defined behaviour.
unfoldable pub make_defined : Curl → List Request → Session → Option Session
unfolding make_request
make_defined C [] s = some s
make_defined C (r ∷ rs) s =
    let next = make_request C r s in
    let later = make_defined C rs next in if is_undefined (last? next.sent) then none else later

abbrev pub auth_headers : ApiClient → List Text
auth_headers client =
    codes "accept: application/json"
    ∷ codes "content-type: application/json"
    ∷ (codes "APCA-API-KEY-ID: " ++ client.api_key)
    ∷ (codes "APCA-API-SECRET-KEY: " ++ client.secret_key)
    ∷ []

abbrev pub transfer : ApiClient → Text → Text → PostFields → Options
transfer client method url fields = record {
  custom_request = some method;
  url = url;
  post_fields = fields;
  headers = auth_headers client;
}

abbrev pub preceded : Options → Option (List Options) → Option (List Options)
preceded options none = none
preceded options (some later) = some (options ∷ later)

-- A transfer for each request; `fields`: what the handle points to before. `none`: a GET or DELETE comes after
-- the payload of a POST was freed.
unfoldable pub transfers : ApiClient → PostFields → List Request → Option (List Options)
unfolding outlived
transfers client fields [] = some []
transfers client fields (posting url payload ∷ rs) =
    preceded (transfer client (codes "POST") url (live payload)) (transfers client freed rs)
transfers client unset (getting url ∷ rs) =
    preceded (transfer client (codes "GET") url unset) (transfers client unset rs)
transfers client (live p) (getting url ∷ rs) =
    preceded (transfer client (codes "GET") url (live p)) (transfers client freed rs)
transfers client freed (getting url ∷ rs) = none
transfers client unset (deleting url ∷ rs) =
    preceded (transfer client (codes "DELETE") url unset) (transfers client unset rs)
transfers client (live p) (deleting url ∷ rs) =
    preceded (transfer client (codes "DELETE") url (live p)) (transfers client freed rs)
transfers client freed (deleting url ∷ rs) = none

abbrev pub session : Text → Text → Options → List Options → List Options → Session
session key secret handle others sent = record {
  client = record { api_key = key; secret_key = secret; handles = handle ∷ others };
  sent = sent;
}

abbrev pub sent_by : Option Session → Option (List Options)
sent_by none = none
sent_by (some s) = some s.sent

abbrev pub following : List Options → Option (List Options) → Option (List Options)
following sent none = none
following sent (some later) = some (sent ++ later)

last?-append : {A : Type 0} (xs : List A) (x : A) → last? (xs ++ (x ∷ [])) ≡ some x
last?-append [] x = refl
last?-append (y ∷ []) x = refl
last?-append (y ∷ z ∷ xs) x = last?-append (z ∷ xs) x

following-preceded :
    (sent : List Options) (options : Options) (later : Option (List Options))
    → following (sent ++ (options ∷ [])) later ≡ following sent (preceded options later)
following-preceded sent options none = refl
following-preceded sent options (some later) = ap some (append_assoc sent (options ∷ []) later)

requests_follow :
    (C : Curl) (key secret : Text) (method : Option Text) (url : Text) (fields : PostFields)
    (headers : List Text) (others sent : List Options) (rs : List Request)
    → (let handle : Options = record {
      custom_request = method;
      url = url;
      post_fields = fields;
      headers = headers;
    } in
        sent_by (make_defined C rs (session key secret handle others sent))
        ≡ following sent (transfers (session key secret handle others sent).client fields rs))
unfolding make_defined make_request transfers post get del with_handle perform_request set_options
    outlived eq_text codes
requests_follow C key secret m u fields hs others sent [] = ap some (sym (append-nil sent))
requests_follow C key secret m u fields hs others sent (posting url payload ∷ rs) =
    rw (last?-append sent _)
      (requests_follow C key secret _ _ freed _ others _ rs ∙ following-preceded sent _ _)
requests_follow C key secret m u unset hs others sent (getting url ∷ rs) =
    rw (last?-append sent _)
      (requests_follow C key secret _ _ unset _ others _ rs ∙ following-preceded sent _ _)
requests_follow C key secret m u (live p) hs others sent (getting url ∷ rs) =
    rw (last?-append sent _)
      (requests_follow C key secret _ _ freed _ others _ rs ∙ following-preceded sent _ _)
requests_follow C key secret m u freed hs others sent (getting url ∷ rs) =
    rw (last?-append sent _) refl
requests_follow C key secret m u unset hs others sent (deleting url ∷ rs) =
    rw (last?-append sent _)
      (requests_follow C key secret _ _ unset _ others _ rs ∙ following-preceded sent _ _)
requests_follow C key secret m u (live p) hs others sent (deleting url ∷ rs) =
    rw (last?-append sent _)
      (requests_follow C key secret _ _ freed _ others _ rs ∙ following-preceded sent _ _)
requests_follow C key secret m u freed hs others sent (deleting url ∷ rs) =
    rw (last?-append sent _) refl

-- A client that has a handle makes a transfer for each call, in their order, with the method, the URL and
-- the keys that belong to it, and a POST with its payload; unless a GET or DELETE comes after a POST: the
-- handle still points to that payload, which is freed, and the transfer has no defined behaviour.
pub make_requests-transfers :
    (C : Curl) (key secret : Text) (handle : Options) (others sent : List Options)
    (rs : List Request)
    → sent_by (make_defined C rs (session key secret handle others sent))
      ≡ following sent
          (transfers (session key secret handle others sent).client handle.post_fields rs)
make_requests-transfers C key secret handle others sent rs =
    requests_follow C key secret handle.custom_request handle.url handle.post_fields handle.headers
      others sent rs
