-- ===== src/Alpaca/DataFetcher.antt =====
-- `DataFetcher`, Computing-Server/src/Data-Fetcher-Core/DataFetcher.cpp. What is only printed is left out.
pub mod Query
use velocity_vortex.Base.{
  ℕ, Bool, if◌then◌else◌, Option, none, some, List, [], ◌∷◌, ◌++◌, Text, codes,
}
use velocity_vortex.Trading.Double.{Double}
use velocity_vortex.Trading.Candle.{Bar}
use velocity_vortex.Alpaca.Services.{JsonCpp, Curl, Options, new_handle, ◌>>=◌, for_each}
use velocity_vortex.Alpaca.Url.{url_encode, format_rfc3339, stream}
use velocity_vortex.Alpaca.Feed.{
  Quote, Trade, new_bar, bar_from_json, quote_from_json, trade_from_json,
}

pub record DataFetcher : Type 0 where
  pub api_key : Text
  pub secret_key : Text

-- The parameters of the period, before the others.
abbrev pub period_query : Text → Text → List Text → List Text
period_query start end more =
    codes "&start="
    ∷ url_encode (format_rfc3339 start)
    ∷ codes "&end="
    ∷ url_encode (format_rfc3339 end)
    ∷ more

unfoldable pub historical_bars_url : Text → Text → Text → Text → Text
historical_bars_url symbols timeframe start end = stream (
    codes "https://data.alpaca.markets/v2/stocks/bars?symbols="
    ∷ url_encode symbols
    ∷ codes "&timeframe="
    ∷ url_encode timeframe
    ∷ period_query start end (codes "&limit=1000&adjustment=raw&feed=iex&sort=asc" ∷ []))

unfoldable pub historical_quotes_url : Text → Text → Text → Text
historical_quotes_url symbols start end = stream (
    codes "https://data.alpaca.markets/v2/stocks/quotes?symbols="
    ∷ url_encode symbols
    ∷ period_query start end (codes "&limit=10000&sort=asc" ∷ []))

unfoldable pub historical_trades_url : Text → Text → Text → Text
historical_trades_url symbols start end = stream (
    codes "https://data.alpaca.markets/v2/stocks/trades?symbols="
    ∷ url_encode symbols
    ∷ period_query start end (codes "&limit=1000&sort=asc" ∷ []))

-- The latest of bars, quotes or trades.
unfoldable pub latest_url : Text → Text → Text
latest_url of symbols = stream (
    codes "https://data.alpaca.markets/v2/stocks/"
    ∷ of
    ∷ codes "/latest?symbols="
    ∷ url_encode symbols
    ∷ [])

module _ (C : Curl) where
  -- The answer, and the transfers with the new one. A transfer that fails gives what came of it.
  unfoldable pub make_api_request : DataFetcher → Text → List Options → Text × List Options
  make_api_request fetcher url sent =
      let options : Options = record new_handle {
        url = url;
        headers =
            codes "accept: application/json"
            ∷ (codes "APCA-API-KEY-ID: " ++ fetcher.api_key)
            ∷ (codes "APCA-API-SECRET-KEY: " ++ fetcher.secret_key)
            ∷ [];
      } in
      if C.easy_init sent 0
      then ((C.perform sent options).1, sent ++ (options ∷ []))
      else ([], sent)

  unfoldable pub get_historical_bars :
      DataFetcher → Text → Text → Text → Text → List Options → Text × List Options
  unfolding make_api_request historical_bars_url
  get_historical_bars fetcher symbols timeframe start end =
      make_api_request fetcher (historical_bars_url symbols timeframe start end)

  unfoldable pub get_latest_bars : DataFetcher → Text → List Options → Text × List Options
  unfolding make_api_request latest_url
  get_latest_bars fetcher symbols = make_api_request fetcher (latest_url (codes "bars") symbols)

  unfoldable pub get_historical_quotes :
      DataFetcher → Text → Text → Text → List Options → Text × List Options
  unfolding make_api_request historical_quotes_url
  get_historical_quotes fetcher symbols start end =
      make_api_request fetcher (historical_quotes_url symbols start end)

  unfoldable pub get_latest_quotes : DataFetcher → Text → List Options → Text × List Options
  unfolding make_api_request latest_url
  get_latest_quotes fetcher symbols = make_api_request fetcher (latest_url (codes "quotes") symbols)

  unfoldable pub get_historical_trades :
      DataFetcher → Text → Text → Text → List Options → Text × List Options
  unfolding make_api_request historical_trades_url
  get_historical_trades fetcher symbols start end =
      make_api_request fetcher (historical_trades_url symbols start end)

  unfoldable pub get_latest_trades : DataFetcher → Text → List Options → Text × List Options
  unfolding make_api_request latest_url
  get_latest_trades fetcher symbols = make_api_request fetcher (latest_url (codes "trades") symbols)

-- `none`: an exception is thrown.
module _ {F : Double} (J : JsonCpp F) where
  -- `jsonData[kind][symbol]`.
  unfoldable pub listed_under : Text → Text → J.Value → Option J.Value
  listed_under kind symbol json = do by_symbol ← J.member json kind; J.member by_symbol symbol

  -- An answer that is no JSON has no bars.
  unfoldable pub parse_historical_bars : Text → Text → Option (List (Bar F))
  unfolding listed_under bar_from_json for_each
  parse_historical_bars response symbol = elim (J.parse response) [
    | none ↦ some []
    | some json ↦ do
      bars ← listed_under (codes "bars") symbol json
      for_each (bar_from_json J symbol) (J.elements bars)
  ]

  unfoldable pub parse_latest_bars : Text → Text → Option (Bar F)
  unfolding listed_under bar_from_json
  parse_latest_bars response symbol = elim (J.parse response) [
    | none ↦ some (new_bar J symbol)
    | some json ↦ do
      bar ← listed_under (codes "bars") symbol json
      if J.is_null bar then some (new_bar J symbol) else bar_from_json J symbol bar
  ]

  unfoldable pub parse_historical_quotes : Text → Text → Option (List (Quote F))
  unfolding listed_under quote_from_json for_each
  parse_historical_quotes response symbol = elim (J.parse response) [
    | none ↦ some []
    | some json ↦ do
      quotes ← listed_under (codes "quotes") symbol json
      for_each (quote_from_json J symbol) (J.elements quotes)
  ]

  -- `some none`: a quote of which only the symbol is set.
  unfoldable pub parse_latest_quotes : Text → Text → Option (Option (Quote F))
  unfolding quote_from_json
  parse_latest_quotes response symbol = elim (J.parse response) [
    | none ↦ some none
    | some json ↦ do
      value ← J.member json (codes "quote")
      quote ← quote_from_json J symbol value
      some (some quote)
  ]

  unfoldable pub parse_historical_trades : Text → Text → Option (List (Trade F))
  unfolding listed_under trade_from_json for_each
  parse_historical_trades response symbol = elim (J.parse response) [
    | none ↦ some []
    | some json ↦ do
      trades ← listed_under (codes "trades") symbol json
      for_each (trade_from_json J symbol) (J.elements trades)
  ]

  -- `some none`: a trade of which only the symbol is set.
  unfoldable pub parse_latest_trades : Text → Text → Option (Option (Trade F))
  unfolding trade_from_json
  parse_latest_trades response symbol = elim (J.parse response) [
    | none ↦ some none
    | some json ↦ do
      value ← J.member json (codes "trade")
      trade ← trade_from_json J symbol value
      some (some trade)
  ]
