-- ===== src/Trading/Candle.antt =====
-- `Bar` and `OHLCV` (Computing-Server/include/Utilities) and the functions on them of
-- Computing-Server/src/Utilities/Utilities.cpp.
use velocity_vortex.Base.{Text, Option, none, some, List, [], ◌∷◌, foldl, if◌then◌else◌}
use velocity_vortex.Base.Int.{ℤ}
use velocity_vortex.Trading.Double.{Double, of_int, to_signed}

module _ (F : Double) where
  pub record Ohlcv : Type 0 where
    pub open_price : F.Carrier
    pub high : F.Carrier
    pub low : F.Carrier
    pub close : F.Carrier
    pub volume : F.Carrier
    pub timestamp : Text

  pub record Bar : Type 0 where
    pub time : Text
    pub symbol : Text
    pub open_price : F.Carrier
    pub high : F.Carrier
    pub low : F.Carrier
    pub close : F.Carrier
    pub volume : ℤ

module _ {F : Double} where
  unfoldable pub bar_to_ohlcv : Bar F → Ohlcv F
  bar_to_ohlcv bar = record {
    open_price = bar.open_price;
    high = bar.high;
    low = bar.low;
    close = bar.close;
    volume = of_int F bar.volume;
    timestamp = bar.time;
  }

  -- `none`: the volume is out of the range of a long.
  unfoldable pub ohlcv_to_bar : Ohlcv F → Text → Option (Bar F)
  unfolding to_signed
  ohlcv_to_bar ohlcv symbol = elim (to_signed F 63 ohlcv.volume) [
    | none ↦ none
    | some volume ↦ some (record {
      time = ohlcv.timestamp;
      symbol = symbol;
      open_price = ohlcv.open_price;
      high = ohlcv.high;
      low = ohlcv.low;
      close = ohlcv.close;
      volume = volume;
    })
  ]

  -- std::max_element by the highs and std::min_element by the lows: of equal ones the first.
  unfoldable pub highest : Ohlcv F → List (Ohlcv F) → Ohlcv F
  highest m [] = m
  highest m (c ∷ cs) = highest (if F.less m.high c.high then c else m) cs

  unfoldable pub lowest : Ohlcv F → List (Ohlcv F) → Ohlcv F
  lowest m [] = m
  lowest m (c ∷ cs) = lowest (if F.less c.low m.low then c else m) cs

  -- `candles.back()`, with the first candle before the others.
  unfoldable pub back : Ohlcv F → List (Ohlcv F) → Ohlcv F
  back c [] = c
  back c (d ∷ ds) = back d ds

  -- `none`: of no candles, a candle of which no number was set.
  unfoldable pub build_aggregated_candle : List (Ohlcv F) → Option (Ohlcv F)
  unfolding highest lowest back
  build_aggregated_candle [] = none
  build_aggregated_candle (c ∷ cs) = some (record {
    open_price = c.open_price;
    high = (highest c cs).high;
    low = (lowest c cs).low;
    close = (back c cs).close;
    volume = foldl (λ total d. F.add total d.volume) (F.of_nat 0) (c ∷ cs);
    timestamp = (back c cs).timestamp;
  })
