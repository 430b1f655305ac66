-- ===== src/Trading/BackTester/Aligned.antt =====
-- What holds after every bar of the back test: its vectors go together, its marks are its trades.
use velocity_vortex.Base.{
  ℕ, suc, ◌+◌, ◌-◌, ◌≡◌, refl, sym, ap, ◌∙◌, Bool, true, false, not, ◌&&◌, Option, none, some, List,
  [], ◌∷◌, ◌++◌, length, length-append, if◌then◌else◌, Text, arith,
}
use velocity_vortex.Base.Int.{pos}
use velocity_vortex.Trading.Double.{Double, to_signed}
use velocity_vortex.Trading.Candle.{Bar, bar_to_ohlcv}
use velocity_vortex.Trading.Indicator.{
  Call, returned, thrown, undefined, Indicator, SignalResult, add_data, get_single_value,
}
use velocity_vortex.Trading.Indicator.Sma
use velocity_vortex.Trading.Indicator.Ema
use velocity_vortex.Trading.BackTester.{
  BackTester, put_at, Outcome, completed, no_int, no_index, no_value, and_then, or_else,
  new_back_tester, with_bar, with_indicators, load_bars, buy_shares, sell_shares, trade_at,
  trade_on, after_ema, after_sma, process_bar, run,
}

-- The points that are numbers.
abbrev pub count : {A : Type 0} → List (Option A) → ℕ
count [] = 0
count (none ∷ points) = count points
count (some x ∷ points) = suc (count points)

abbrev pub opened : Bool → ℕ
opened true = 1
opened false = 0

-- The four vectors have a point for each bar; there is one mark of a purchase more than of a sale just
-- when a position is open; without an open position nothing is held.
pub record IsAligned {F : Double} (t : BackTester F) : Type 0 where
  pub times : length t.time_index ≡ length t.historical_data
  pub prices : length t.price_data ≡ length t.historical_data
  pub buys : length t.buy_points ≡ length t.historical_data
  pub sells : length t.sell_points ≡ length t.historical_data
  pub balance : count t.buy_points ≡ count t.sell_points + opened t.position_open
  pub empty_handed : t.position_open ≡ false → t.holding ≡ pos 0

-- The last point of the vector is no number yet.
abbrev NewLast : {A : Type 0} → List (Option A) → Type 0
NewLast {A} points = (before : List (Option A)) × (points ≡ before ++ (none ∷ []))

count_append : {A : Type 0} (xs ys : List (Option A)) → count (xs ++ ys) ≡ count xs + count ys
count_append [] ys = omega arith
count_append (none ∷ xs) ys = count_append xs ys
count_append (some x ∷ xs) ys = omega (arith, count_append xs ys)

put_last :
    {A : Type 0} (x : A) (before : List (Option A))
    → put_at (length before) (some x) (before ++ (none ∷ [])) ≡ some (before ++ (some x ∷ []))
put_last x [] = refl
put_last x (y ∷ before) = rw (put_last x before) refl

-- A mark in the last place: the vector keeps its length and has one mark more.
marked :
    {A : Type 0} (x : A) (points : List (Option A))
    → NewLast points
    → (points' : List (Option A)) × (put_at (length points - 1) (some x) points ≡ some points')
      × (length points' ≡ length points)
      × (count points' ≡ suc (count points))
marked x points (before, e) =
    let size : length (before ++ (none ∷ [])) - 1 ≡ length before =
      omega (arith, length-append before (none ∷ [])) in
    (
      before ++ (some x ∷ []),
      rw e (rw size (put_last x before)),
      length-append before (some x ∷ [])
          ∙ sym (length-append before (none ∷ []))
          ∙ ap length (sym e),
      count_append before (some x ∷ [])
          ∙ omega (arith, ap count e, count_append before (none ∷ [])),
    )

-- No index was out of range, and where there is a state, this holds of it.
abbrev pub InRange : {A : Type 0} → (A → Type 0) → Outcome A → Type 0
InRange P (completed x) = P x
InRange P no_int = Unit
InRange P no_index = ⊥
InRange P no_value = Unit

int-InRange :
    {A B : Type 0} (P : B → Type 0) (x : Option A) (f : A → Outcome B)
    → ((y : A) → InRange P (f y))
    → InRange P (and_then (or_else no_int x) f)
unfolding and_then
int-InRange P none f h = tt
int-InRange P (some y) f h = h y

and_then-InRange :
    {A B : Type 0} (P : A → Type 0) (Q : B → Type 0) (x : Outcome A) (f : A → Outcome B)
    → InRange P x
    → ((y : A) → P y → InRange Q (f y))
    → InRange Q (and_then x f)
unfolding and_then
and_then-InRange P Q (completed y) f k h = h y k
and_then-InRange P Q no_int f k h = tt
and_then-InRange P Q no_index f k h = k
and_then-InRange P Q no_value f k h = tt

one_more :
    {A B : Type 0} (xs : List A) (ys : List B) (x : A) (y : B)
    → length xs ≡ length ys
    → length (xs ++ (x ∷ [])) ≡ length (ys ++ (y ∷ []))
one_more xs ys x y e = omega (arith, e, length-append xs (x ∷ []), length-append ys (y ∷ []))

module _ {F : Double} where
  -- Before the trade on a bar: its points are the last ones, and no marks.
  record IsReady (t : BackTester F) : Type 0 where
    aligned : IsAligned t
    new_buy : NewLast t.buy_points
    new_sell : NewLast t.sell_points

  buy_shares-IsAligned :
      (price : F.Carrier) (t : BackTester F)
      → IsReady t
      → t.position_open ≡ false
      → InRange (IsAligned {F = F}) (buy_shares price t)
  unfolding buy_shares and_then
  buy_shares-IsAligned price t h closed =
      let index : length t.time_index - 1 ≡ length t.buy_points - 1 =
        omega (arith, h.aligned.times, h.aligned.buys) in
      let m = marked price t.buy_points h.new_buy in
      let put : put_at (length t.time_index - 1) (some price) t.buy_points ≡ some m.0 =
        rw index m.1 in
      int-InRange IsAligned (to_signed F 31 _) _ (λ holding.
        int-InRange IsAligned (to_signed F 31 _) _ (λ amount. rw put (record {
          times = h.aligned.times;
          prices = h.aligned.prices;
          buys = m.2 ∙ h.aligned.buys;
          sells = h.aligned.sells;
          balance = omega (arith, m.3, h.aligned.balance, ap opened closed);
          empty_handed = λ e. cc;
        })))

  sell_shares-IsAligned :
      (price : F.Carrier) (t : BackTester F)
      → IsReady t
      → t.position_open ≡ true
      → InRange (IsAligned {F = F}) (sell_shares price t)
  unfolding sell_shares and_then
  sell_shares-IsAligned price t h is_open =
      let index : length t.time_index - 1 ≡ length t.sell_points - 1 =
        omega (arith, h.aligned.times, h.aligned.sells) in
      let m = marked price t.sell_points h.new_sell in
      let put : put_at (length t.time_index - 1) (some price) t.sell_points ≡ some m.0 =
        rw index m.1 in
      int-InRange IsAligned (to_signed F 31 _) _ (λ amount. rw put (record {
        times = h.aligned.times;
        prices = h.aligned.prices;
        buys = h.aligned.buys;
        sells = m.2 ∙ h.aligned.sells;
        balance = omega (arith, m.3, h.aligned.balance, ap opened is_open);
        empty_handed = λ e. refl;
      }))

  by_choice :
      (price : F.Carrier) (t : BackTester F) (is_open may_buy may_sell : Bool)
      → IsReady t
      → t.position_open ≡ is_open
      → InRange (IsAligned {F = F}) (
          if not is_open && may_buy
          then buy_shares price t
          else if is_open && may_sell
          then sell_shares price t
          else completed t)
  by_choice price t false true may_sell h e = buy_shares-IsAligned price t h e
  by_choice price t false false may_sell h e = h.aligned
  by_choice price t true may_buy true h e = sell_shares-IsAligned price t h e
  by_choice price t true may_buy false h e = h.aligned

  trade_at-IsAligned :
      (price long_sma short_ema : F.Carrier) (t : BackTester F)
      → IsReady t
      → InRange (IsAligned {F = F}) (trade_at price long_sma short_ema t)
  unfolding trade_at
  trade_at-IsAligned price long_sma short_ema t h =
      by_choice price t t.position_open (F.less long_sma short_ema) (F.less short_ema long_sma) h
        refl

  with_indicators-IsAligned :
      (sma ema : Indicator F) (t : BackTester F)
      → IsAligned t
      → IsAligned (with_indicators sma ema t)
  with_indicators-IsAligned sma ema t h = record {
    times = h.times;
    prices = h.prices;
    buys = h.buys;
    sells = h.sells;
    balance = h.balance;
    empty_handed = h.empty_handed;
  }

  with_indicators-IsReady :
      (sma ema : Indicator F) (t : BackTester F) → IsReady t → IsReady (with_indicators sma ema t)
  with_indicators-IsReady sma ema t h = record {
    aligned = with_indicators-IsAligned sma ema t h.aligned;
    new_buy = h.new_buy;
    new_sell = h.new_sell;
  }

  with_bar-IsAligned :
      (timestamp : F.Carrier) (bar : Bar F) (t : BackTester F)
      → IsAligned t
      → IsAligned (with_bar timestamp bar t)
  with_bar-IsAligned timestamp bar t h = record {
    times = one_more t.time_index t.historical_data _ _ h.times;
    prices = one_more t.price_data t.historical_data _ _ h.prices;
    buys = one_more t.buy_points t.historical_data _ _ h.buys;
    sells = one_more t.sell_points t.historical_data _ _ h.sells;
    balance = omega (
      arith,
      h.balance,
      count_append t.buy_points (none ∷ []),
      count_append t.sell_points (none ∷ []),
    );
    empty_handed = h.empty_handed;
  }

  with_bar-IsReady :
      (timestamp : F.Carrier) (bar : Bar F) (t : BackTester F)
      → IsAligned t
      → IsReady (with_bar timestamp bar t)
  with_bar-IsReady timestamp bar t h = record {
    aligned = with_bar-IsAligned timestamp bar t h;
    new_buy = (t.buy_points, refl);
    new_sell = (t.sell_points, refl);
  }

  trade_on-IsAligned :
      (price : F.Carrier) (long_sma short_ema : Option F.Carrier) (t : BackTester F)
      → IsReady t
      → InRange (IsAligned {F = F}) (trade_on price long_sma short_ema t)
  unfolding trade_on
  trade_on-IsAligned price none short_ema t h = h.aligned
  trade_on-IsAligned price (some a) none t h = h.aligned
  trade_on-IsAligned price (some a) (some b) t h = trade_at-IsAligned price a b t h

  after_ema-IsAligned :
      (price : F.Carrier) (value : Option F.Carrier) (c : Call (Indicator F) (SignalResult F))
      (t : BackTester F)
      → IsReady t
      → InRange (IsAligned {F = F}) (after_ema price value c t)
  unfolding after_ema
  after_ema-IsAligned price value (returned ema s) t h =
      trade_on-IsAligned price value (get_single_value s) _ (with_indicators-IsReady t.sma ema t h)
  after_ema-IsAligned price value (thrown ema) t h = with_indicators-IsAligned t.sma ema t h.aligned
  after_ema-IsAligned price value undefined t h = tt

  after_sma-IsAligned :
      (price : F.Carrier) (c : Call (Indicator F) (SignalResult F)) (t : BackTester F)
      → IsReady t
      → InRange (IsAligned {F = F}) (after_sma price c t)
  unfolding after_sma
  after_sma-IsAligned price (returned sma s) t h =
      after_ema-IsAligned price (get_single_value s) (Ema.calculate_signal t.ema) _
        (with_indicators-IsReady sma t.ema t h)
  after_sma-IsAligned price (thrown sma) t h = with_indicators-IsAligned sma t.ema t h.aligned
  after_sma-IsAligned price undefined t h = tt

  process_bar-IsAligned :
      (timestamp : F.Carrier) (bar : Bar F) (t : BackTester F)
      → IsAligned t
      → InRange (IsAligned {F = F}) (process_bar timestamp bar t)
  unfolding process_bar
  process_bar-IsAligned timestamp bar t h =
      let c = bar_to_ohlcv bar in
      let sma = add_data c t.sma in
      let ema = add_data c t.ema in
      let ready = with_bar timestamp bar t in
      after_sma-IsAligned c.close (Sma.calculate_signal sma) (with_indicators sma ema ready)
        (with_indicators-IsReady sma ema ready (with_bar-IsReady timestamp bar t h))

  run-IsAligned :
      (to_timestamp : Text → F.Carrier) (bars : List (Bar F)) (t : BackTester F)
      → IsAligned t
      → InRange (IsAligned {F = F}) (run to_timestamp bars t)
  unfolding run
  run-IsAligned to_timestamp [] t h = h
  run-IsAligned to_timestamp (bar ∷ bars) t h =
      and_then-InRange IsAligned IsAligned (process_bar (to_timestamp bar.time) bar t)
        (run to_timestamp bars) (process_bar-IsAligned (to_timestamp bar.time) bar t h)
        (λ t' k. run-IsAligned to_timestamp bars t' k)

  load_bars-IsAligned :
      (to_timestamp : Text → F.Carrier) (bars : List (Bar F)) (t : BackTester F)
      → IsAligned t
      → IsAligned (load_bars to_timestamp bars t)
  unfolding load_bars
  load_bars-IsAligned to_timestamp [] t h = h
  load_bars-IsAligned to_timestamp (bar ∷ bars) t h =
      load_bars-IsAligned to_timestamp bars _
        (with_bar-IsAligned (to_timestamp bar.time) bar _ (with_indicators-IsAligned _ _ t h))

  new_back_tester-IsAligned : IsAligned (new_back_tester {F = F})
  new_back_tester-IsAligned = record {
    times = refl;
    prices = refl;
    buys = refl;
    sells = refl;
    balance = omega arith;
    empty_handed = λ e. refl;
  }

  -- For any bars to begin with and any bars of a run of the back test, no index is out of range where a mark is
  -- put; and a run that neither fails to convert a double to an int nor gets no value of a signal
  -- completes with a tester whose vectors have a point for each bar, with one purchase more than there
  -- are sales just when a position is open, and with nothing held when none is.
  pub back_test-IsAligned :
      (to_timestamp : Text → F.Carrier) (first bars : List (Bar F))
      → InRange IsAligned (run to_timestamp bars (load_bars to_timestamp first new_back_tester))
  back_test-IsAligned to_timestamp first bars =
      run-IsAligned to_timestamp bars _
        (load_bars-IsAligned to_timestamp first _ new_back_tester-IsAligned)
