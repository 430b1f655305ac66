-- ===== src/Alpaca/DataFetcher/Query.antt =====
-- What a server reads in the query of the URL of the historical bars: parameters between ampersands.
use velocity_vortex.Base.{
  ◌≡◌, ◌≢◌, refl, false, List, [], ◌∷◌, ◌++◌, All, All-append, Text, codes, arith,
}
use velocity_vortex.IoServer.RedisSubscriber.Split.{split_string, join, split_string-join}
use velocity_vortex.Alpaca.Url.{is_unreserved, url_encode, has_char, format_rfc3339}
use velocity_vortex.Alpaca.Url.Sound.{IsEncoded, url_encode-IsEncoded}
use velocity_vortex.Alpaca.DataFetcher.{historical_bars_url}

abbrev NoAmpersand : Text → Type 0
NoAmpersand = All (λ c. c ≢ 38)

encoded-NoAmpersand : (t : Text) → All IsEncoded t → NoAmpersand t
unfolding is_unreserved
encoded-NoAmpersand [] h = tt
encoded-NoAmpersand (c ∷ cs) (h, hs) = (ground arith, encoded-NoAmpersand cs hs)

no_ampersand : (t : Text) → has_char 38 t ≡ false → NoAmpersand t
unfolding has_char
no_ampersand [] e = tt
no_ampersand (c ∷ cs) e = (ground arith, no_ampersand cs (ground arith))

-- A name and an equals sign, then the value, encoded.
parameter : (name value : Text) → has_char 38 name ≡ false → NoAmpersand (name ++ url_encode value)
parameter name value e =
    All-append (λ c. c ≢ 38) name _ (no_ampersand name e)
      (encoded-NoAmpersand _ (url_encode-IsEncoded value))

sort_filled : codes "sort=asc" ≢ []
unfolding codes
sort_filled e = cc

-- The text after the question mark.
abbrev pub bars_parameters : Text → Text → Text → Text → List Text
bars_parameters symbols timeframe start end =
    (codes "symbols=" ++ url_encode symbols)
    ∷ (codes "timeframe=" ++ url_encode timeframe)
    ∷ (codes "start=" ++ url_encode (format_rfc3339 start))
    ∷ (codes "end=" ++ url_encode (format_rfc3339 end))
    ∷ codes "limit=1000"
    ∷ codes "adjustment=raw"
    ∷ codes "feed=iex"
    ∷ codes "sort=asc"
    ∷ []

abbrev pub address : Text
address = codes "https://data.alpaca.markets/v2/stocks/bars?"

-- Whatever the arguments hold, the URL of the historical bars is the service's address and a query that
-- is read, at its ampersands, as just these parameters: no argument adds another one.
pub historical_bars_url-query :
    (symbols timeframe start end : Text)
    → (query : Text) × (historical_bars_url symbols timeframe start end ≡ address ++ query)
      × (split_string 38 query ≡ bars_parameters symbols timeframe start end)
unfolding historical_bars_url join codes has_char
historical_bars_url-query symbols timeframe start end =
    let first = codes "symbols=" ++ url_encode symbols in
    let more =
      (codes "timeframe=" ++ url_encode timeframe)
      ∷ (codes "start=" ++ url_encode (format_rfc3339 start))
      ∷ (codes "end=" ++ url_encode (format_rfc3339 end))
      ∷ codes "limit=1000"
      ∷ codes "adjustment=raw"
      ∷ codes "feed=iex"
      ∷ codes "sort=asc"
      ∷ [] in
    (
      join 38 first more,
      refl,
      split_string-join 38 first more (
        parameter (codes "symbols=") symbols refl,
        (
          parameter (codes "timeframe=") timeframe refl,
          (
            parameter (codes "start=") (format_rfc3339 start) refl,
            (
              parameter (codes "end=") (format_rfc3339 end) refl,
              (
                no_ampersand (codes "limit=1000") refl,
                (
                  no_ampersand (codes "adjustment=raw") refl,
                  (
                    no_ampersand (codes "feed=iex") refl,
                    (no_ampersand (codes "sort=asc") refl, sort_filled),
                  ),
                ),
              ),
            ),
          ),
        ),
      ),
    )
