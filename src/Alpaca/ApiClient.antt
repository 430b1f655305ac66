-- ===== src/Alpaca/ApiClient.antt =====
-- `APIClient`, Computing-Server/include/Order-Manager-Core/APIClient.hpp: requests over handles of libcurl
-- that are kept. Order-Manager-Server/include/Executor-Manager-Core/APIClient.hpp has the same class.
pub mod Transfers
use velocity_vortex.Base.{
  ℕ, zero, suc, if◌then◌else◌, none, some, List, [], ◌∷◌, ◌++◌, Text, codes, eq_text,
}
use velocity_vortex.Alpaca.Services.{Curl, PostFields, unset, live, freed, Options, new_handle}

-- The last handle is the head of the list.
pub record ApiClient : Type 0 where
  pub api_key : Text
  pub secret_key : Text
  pub handles : List Options

-- A client, and the transfers that were made so far.
pub record Session : Type 0 where
  pub client : ApiClient
  pub sent : List Options

-- The options that `performRequest` sets; others stay as they were.
unfoldable pub set_options : ApiClient → Text → Text → Text → Options → Options
unfolding eq_text codes
set_options client method url payload handle =
    let with_headers : Options = record handle {
      headers =
          codes "accept: application/json"
          ∷ codes "content-type: application/json"
          ∷ (codes "APCA-API-KEY-ID: " ++ client.api_key)
          ∷ (codes "APCA-API-SECRET-KEY: " ++ client.secret_key)
          ∷ [];
    } in
    if eq_text method (codes "POST")
    then record with_headers {
      custom_request = some (codes "POST");
      url = url;
      post_fields = live payload;
    }
    else if eq_text method (codes "GET")
    then record with_headers { custom_request = some (codes "GET"); url = url }
    else if eq_text method (codes "DELETE")
    then record with_headers { custom_request = some (codes "DELETE"); url = url }
    else with_headers

-- The pointer once a request is over: the payload is a local string of the function that called `post`,
-- and is freed when that returns.
unfoldable pub outlived : PostFields → PostFields
outlived unset = unset
outlived (live payload) = freed
outlived freed = freed

-- `CURLE_OK` and `CURLE_FAILED_INIT`.
abbrev pub curle_ok : ℕ
curle_ok = 0

abbrev pub curle_failed_init : ℕ
curle_failed_init = 2

module _ (C : Curl) where
  -- The handles that could be made of so many.
  unfoldable pub init_handles : ℕ → List Options → ApiClient → ApiClient
  init_handles zero sent client = client
  init_handles (suc n) sent client =
      let before = init_handles n sent client in
      if C.easy_init sent n then record before { handles = new_handle ∷ before.handles } else before

  -- The answer, the handle with its options and the transfers with the new one.
  unfoldable pub perform_request :
      ApiClient
      → Text
      → Text
      → Text
      → Options
      → List Options
      → (ℕ × Text) × (Options × List Options)
  unfolding set_options
  perform_request client method url payload handle sent =
      let options = set_options client method url payload handle in
      (C.perform sent options, (options, sent ++ (options ∷ [])))

  -- The last handle is taken, used and put back.
  unfoldable pub with_handle : Text → Text → Text → Session → (ℕ × Text) × Session
  unfolding perform_request outlived
  with_handle method url payload s = elim (s.client.handles) [
    | [] ↦ ((curle_failed_init, []), s)
    | handle ∷ others ↦
        let done = perform_request s.client method url payload handle s.sent in
        let session : Session = record {
          client = record s.client {
            handles = record done.1.0 { post_fields = outlived done.1.0.post_fields } ∷ others;
          };
          sent = done.1.1;
        } in
        (done.0, session)
  ]

  unfoldable pub post : Text → Text → Session → (ℕ × Text) × Session
  unfolding with_handle
  post url payload = with_handle (codes "POST") url payload

  unfoldable pub get : Text → Session → (ℕ × Text) × Session
  unfolding with_handle
  get url = with_handle (codes "GET") url []

  unfoldable pub del : Text → Session → (ℕ × Text) × Session
  unfolding with_handle
  del url = with_handle (codes "DELETE") url []
