-- ===== src/Alpaca/Tests.antt =====
-- The clients at concrete inputs, with a reader of no JSON and a network that answers nothing.
use velocity_vortex.Base.{
  ◌≡◌, refl, true, false, none, some, Option, map, List, [], ◌∷◌, ◌++◌, All, Text, codes, eq_text,
  arith,
}
use velocity_vortex.IoServer.RedisSubscriber.Split.{split_string}
use velocity_vortex.Trading.Tests.{nat_double}
use velocity_vortex.Alpaca.Services.{JsonCpp, ◌>>=◌, Curl, new_handle, unset, live, Options}
use velocity_vortex.Alpaca.Url.{url_encode, encode_char, format_rfc3339}
use velocity_vortex.Alpaca.Url.Sound.{
  IsEncoded, url_decode, url_decode-url_encode, url_encode-IsEncoded,
}
use velocity_vortex.Alpaca.DataFetcher.{historical_bars_url, parse_historical_bars}
use velocity_vortex.Alpaca.DataFetcher.Query.{bars_parameters, address, historical_bars_url-query}
use velocity_vortex.Alpaca.ApiClient.{ApiClient, init_handles, outlived}
use velocity_vortex.Alpaca.ApiClient.Transfers.{
  Request, posting, getting, session, transfers, make_defined, make_requests-transfers, sent_by,
  following,
}
use velocity_vortex.Alpaca.WebSocket.{
  WebSocket, Completion, auth, subscribe, run_socket, complete, on_completed, on_opened, on_read,
  send_auth_message, do_read, new_socket,
}
use velocity_vortex.Alpaca.WebSocket.Orderly.{IsOrderly, setting, run_socket-IsOrderly}

abbrev pub no_json : JsonCpp nat_double
no_json = record {
  Value = Text;
  parse = λ t. none;
  member = λ v key. none;
  elements = λ v. [];
  is_null = λ v. true;
  is_array = λ v. false;
  is_member = λ v key. some false;
  is_text = λ v t. eq_text v t;
  as_string = λ v. some v;
  as_double = λ v. none;
  as_int = λ v. none;
  as_int64 = λ v. none;
  as_bool = λ v. none;
  to_styled_string = λ v. v;
  write_object = λ members. written members;
}
  where
    written : List (Text × Text) → Text
    written [] = []
    written ((key, value) ∷ members) = key ++ (58 ∷ value) ++ (44 ∷ written members)

abbrev pub silent : Curl
silent = record { perform = λ sent options. (0, []); easy_init = λ sent n. true }

encoded_space : url_encode (codes "a b&") ≡ codes "a%20b%26"
unfolding url_encode encode_char codes
encoded_space = refl

-- The byte E9, a negative char: all eight digits of the int.
encoded_negative : url_encode (233 ∷ []) ≡ codes "%ffffffe9"
unfolding url_encode encode_char codes
encoded_negative = refl

with_midnight : format_rfc3339 (codes "2022-01-31") ≡ codes "2022-01-31T00:00:00Z"
unfolding format_rfc3339 codes
with_midnight = refl

no_bars : parse_historical_bars no_json (codes "x") (codes "AAPL") ≡ some []
unfolding parse_historical_bars
no_bars = refl

abbrev new_client : ApiClient
new_client = record { api_key = codes "key"; secret_key = codes "secret"; handles = [] }

two_handles :
    init_handles silent 2 [] new_client
    ≡ record new_client { handles = new_handle ∷ new_handle ∷ [] }
unfolding init_handles
two_handles = refl

abbrev two_names : Text
two_names = 65 ∷ 38 ∷ 66 ∷ []

url_decode-url_encode_example : url_decode (url_encode two_names) ≡ two_names
url_decode-url_encode_example =
    url_decode-url_encode two_names (omega arith, (omega arith, (omega arith, tt)))

url_encode-IsEncoded_example : All IsEncoded (url_encode (65 ∷ 38 ∷ 233 ∷ []))
url_encode-IsEncoded_example = url_encode-IsEncoded (65 ∷ 38 ∷ 233 ∷ [])

historical_bars_url-query_example :
    (query : Text) × (historical_bars_url two_names (codes "1Day") (codes "2022-01-01") two_names
      ≡ address ++ query)
    × (split_string 38 query
        ≡ bars_parameters two_names (codes "1Day") (codes "2022-01-01") two_names)
historical_bars_url-query_example =
    historical_bars_url-query two_names (codes "1Day") (codes "2022-01-01") two_names

abbrev given_or : List Options → Option (List Options) → List Options
given_or xs none = xs
given_or xs (some ys) = ys

abbrev get_then_posts : List Request
get_then_posts =
    getting (codes "clock")
    ∷ posting (codes "orders") (codes "{}")
    ∷ posting (codes "orders") (codes "[]")
    ∷ []

make_requests-transfers_example :
    sent_by
      (make_defined silent get_then_posts (session (codes "key") (codes "secret") new_handle [] []))
    ≡ following [] (
        transfers
          (session (codes "key") (codes "secret") new_handle [] []).client
          unset
          get_then_posts)
make_requests-transfers_example =
    make_requests-transfers silent (codes "key") (codes "secret") new_handle [] [] get_then_posts

three_transfers :
    map
      (λ o. o.post_fields)
      (given_or [] (
        transfers
          (session (codes "key") (codes "secret") new_handle [] []).client
          unset
          get_then_posts))
    ≡ unset ∷ live (codes "{}") ∷ live (codes "[]") ∷ []
unfolding transfers codes outlived
three_transfers = refl

-- The five operations before the first read complete.
abbrev completions : List Completion
completions =
    completed
    ∷ completed
    ∷ completed
    ∷ completed
    ∷ completed
    ∷ (record completed { succeeded = false })
    ∷ []
  where
    completed : Completion
    completed = record { position = 0; succeeded = true; message = [] }

abbrev after_auth : WebSocket Text
after_auth = record {
  connected = true;
  authenticated = false;
  reading = false;
  stop_reading = false;
  pending = [];
  written = auth (codes "key") (codes "secret") ∷ [];
  processed = [];
}

socket_run :
    run_socket no_json
      (setting no_json (codes "AAPL") (codes "key") (codes "secret"))
      completions
      new_socket
    ≡ some after_auth
unfolding run_socket complete on_completed on_opened on_read send_auth_message do_read ◌>>=◌
socket_run = refl

run_socket-IsOrderly_example :
    IsOrderly (auth (codes "key") (codes "secret")) (subscribe (codes "AAPL")) after_auth
run_socket-IsOrderly_example =
    run_socket-IsOrderly no_json (codes "AAPL") (codes "key") (codes "secret") completions
      after_auth socket_run
