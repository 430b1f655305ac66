-- ===== src/Alpaca/Feed.antt =====
-- `Quote` and `Trade` (Computing-Server/include/Utilities) and how they and `Bar` are read from JSON.
use velocity_vortex.Base.{if◌then◌else◌, Option, some, List, [], Text, codes}
use velocity_vortex.Base.Int.{ℤ}
use velocity_vortex.Trading.Double.{Double}
use velocity_vortex.Trading.Candle.{Bar}
use velocity_vortex.Alpaca.Services.{JsonCpp, ◌>>=◌, for_each}

module _ (F : Double) where
  pub record Quote : Type 0 where
    pub symbol : Text
    pub bid_price : F.Carrier
    pub bid_size : ℤ
    pub bid_exchange : Text
    pub ask_price : F.Carrier
    pub ask_size : ℤ
    pub ask_exchange : Text
    pub timestamp : Text
    pub conditions : List Text

  pub record Trade : Type 0 where
    pub symbol : Text
    pub price : F.Carrier
    pub size : ℤ
    pub timestamp : Text
    pub conditions : List Text
    pub identifier : ℤ
    pub exchange : Text
    pub trade_condition : Text

module _ {F : Double} (J : JsonCpp F) where
  -- `json[key].asString()` and the like.
  unfoldable pub string_at : J.Value → Text → Option Text
  string_at json key = do value ← J.member json key; J.as_string value

  unfoldable pub double_at : J.Value → Text → Option F.Carrier
  double_at json key = do value ← J.member json key; J.as_double value

  unfoldable pub int64_at : J.Value → Text → Option ℤ
  int64_at json key = do value ← J.member json key; J.as_int64 value

  -- The constructor of a bar, before `fromJson`.
  abbrev pub new_bar : Text → Bar F
  new_bar symbol = record {
    time = [];
    symbol = symbol;
    open_price = F.of_nat 0;
    high = F.of_nat 0;
    low = F.of_nat 0;
    close = F.of_nat 0;
    volume = ℤ.pos 0;
  }

  unfoldable pub bar_from_json : Text → J.Value → Option (Bar F)
  unfolding string_at double_at int64_at
  bar_from_json symbol json = do
    time ← string_at json (codes "t")
    open_price ← double_at json (codes "o")
    high ← double_at json (codes "h")
    low ← double_at json (codes "l")
    close ← double_at json (codes "c")
    volume ← int64_at json (codes "v")
    some (record {
      time = time;
      symbol = symbol;
      open_price = open_price;
      high = high;
      low = low;
      close = close;
      volume = volume;
    })

  unfoldable pub strings_of : J.Value → Option (List Text)
  unfolding for_each
  strings_of json = for_each J.as_string (J.elements json)

  unfoldable pub quote_from_json : Text → J.Value → Option (Quote F)
  unfolding string_at double_at int64_at strings_of
  quote_from_json symbol json = do
    bid_price ← double_at json (codes "bp")
    bid_size ← int64_at json (codes "bs")
    bid_exchange ← string_at json (codes "bx")
    ask_price ← double_at json (codes "ap")
    ask_size ← int64_at json (codes "as")
    ask_exchange ← string_at json (codes "ax")
    timestamp ← string_at json (codes "t")
    listed ← J.member json (codes "c")
    conditions ← strings_of listed
    some (record {
      symbol = symbol;
      bid_price = bid_price;
      bid_size = bid_size;
      bid_exchange = bid_exchange;
      ask_price = ask_price;
      ask_size = ask_size;
      ask_exchange = ask_exchange;
      timestamp = timestamp;
      conditions = conditions;
    })

  -- The conditions, if there are any and they are an array.
  unfoldable pub trade_conditions : J.Value → Option (List Text)
  unfolding strings_of
  trade_conditions json = do
    present ← J.is_member json (codes "c")
    if present
        then (do
          listed ← J.member json (codes "c")
          if J.is_array listed then strings_of listed else some [])
        else some []

  unfoldable pub trade_from_json : Text → J.Value → Option (Trade F)
  unfolding string_at double_at int64_at trade_conditions
  trade_from_json symbol json = do
    price ← double_at json (codes "p")
    size ← int64_at json (codes "s")
    timestamp ← string_at json (codes "t")
    conditions ← trade_conditions json
    number ← J.member json (codes "i")
    identifier ← J.as_int number
    exchange ← string_at json (codes "x")
    trade_condition ← string_at json (codes "z")
    some (record {
      symbol = symbol;
      price = price;
      size = size;
      timestamp = timestamp;
      conditions = conditions;
      identifier = identifier;
      exchange = exchange;
      trade_condition = trade_condition;
    })
