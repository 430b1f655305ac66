-- ===== src/Orderbook/MarketMaking.antt =====
-- `Orderbook::executeMarketMakingStrategy` and the setters of Computing-Server/src/Orderbook/order_book.cpp.
-- The operations of double, the conversion of a price and the text of a number are parameters.
use velocity_vortex.Base.{
  ℕ, suc, ◌-◌, ◌^◌, min, Bool, true, false, not, ◌&&◌, [], Text, codes, if◌then◌else◌,
}
use velocity_vortex.Base.Int.{ℤ, pos, negsuc, ltb_ℤ, ◌+ℤ◌, pos_minus}
use velocity_vortex.Trading.Double.{Double}
use velocity_vortex.Orderbook.Order.{good_till_cancel, buy, sell, new_order}
use velocity_vortex.Orderbook.Book.{Orderbook, Outcome, done, ◌>>=◌, lock, unlock, add_order}

-- The value of an unsigned sum or difference, converted to int.
abbrev pub to_int : ℤ → ℤ
to_int i =
    if ltb_ℤ i (pos (2 ^ 31))
    then if ltb_ℤ i (negsuc (2 ^ 31 - 1)) then i +ℤ pos (2 ^ 32) else i
    else i +ℤ negsuc (2 ^ 32 - 1)

abbrev pub minus_ℤ : ℤ → ℤ
minus_ℤ (pos n) = pos_minus 0 n
minus_ℤ (negsuc n) = pos (suc n)

-- `OrderId orderId = CounterId`, from int to a word of 64 bits.
abbrev pub to_id : ℤ → ℕ
to_id (pos n) = n
to_id (negsuc n) = 2 ^ 64 - 1 - n

-- `std::min(quantity, static_cast<Quantity>(100))`.
abbrev pub lot : ℕ → ℕ
lot quantity = min quantity 100

module _ (F : Double) where
  -- An order book with the fields that its strategy uses.
  pub record Maker : Type 0 where
    pub book : Orderbook
    pub spread_threshold : F.Carrier
    pub imbalance_threshold : F.Carrier
    pub position_limit : ℤ
    pub current_position : ℤ
    pub max_position_size : ℤ
    pub max_trade_size : ℤ

  unfoldable pub set_spread_threshold : F.Carrier → Maker → Maker
  set_spread_threshold threshold m = record m { spread_threshold = threshold }

  unfoldable pub set_imbalance_threshold : F.Carrier → Maker → Maker
  set_imbalance_threshold threshold m = record m { imbalance_threshold = threshold }

  unfoldable pub set_position_limit : ℤ → Maker → Maker
  set_position_limit limit m = record m { position_limit = limit }

  unfoldable pub set_max_position_size : ℤ → Maker → Maker
  set_max_position_size size m = record m { max_position_size = size }

  unfoldable pub set_max_trade_size : ℤ → Maker → Maker
  set_max_trade_size size m = record m { max_trade_size = size }

  -- Whether the strategy returns at once, as it is written: both tests must hold.
  unfoldable pub at_limit : Maker → Bool
  at_limit m =
      not (ltb_ℤ m.current_position m.position_limit)
      && not (ltb_ℤ (minus_ℤ m.position_limit) m.current_position)

  abbrev pub hold : Maker → Outcome ((Text × Text) × Maker)
  hold m = done ((codes "hold", []), m)

  -- AddOrder, and then the change of the position under the mutex.
  unfoldable pub place :
      ℕ → Text → Text → (ℕ × ℕ) → Bool → ℤ → ℤ → Maker → Outcome ((Text × Text) × Maker)
  place fuel action price_text id_quantity buys price position m = do
    added ←
        add_order fuel
          (new_order good_till_cancel id_quantity.0 (if buys then buy else sell) price
            id_quantity.1)
          m.book
    locked ← lock added.1
    done ((action, price_text), record m { book = unlock locked; current_position = position })

  module _ (to_price : F.Carrier → ℤ) (show : F.Carrier → Text) where
    -- What comes after the first test.
    unfoldable pub quote :
        ℕ → ℤ → F.Carrier → F.Carrier → ℕ → ℕ → Maker → Outcome ((Text × Text) × Maker)
    quote fuel counter_id bid_price ask_price bid_quantity ask_quantity m =
        let half = F.div m.spread_threshold (F.of_nat 2) in
        let improved_bid = F.add bid_price half in
        let improved_ask = F.sub ask_price half in
        if not (F.less m.spread_threshold (F.sub ask_price bid_price))
        then hold m
        else if ltb_ℤ m.current_position m.position_limit
        then place fuel (codes "buy") (show improved_bid) (to_id counter_id, lot ask_quantity) true
            (to_price improved_bid) (to_int (m.current_position +ℤ pos (lot ask_quantity))) m
        else if ltb_ℤ (minus_ℤ m.position_limit) m.current_position
        then place fuel (codes "sell") (show improved_ask)
            (to_id (counter_id +ℤ pos 1), lot bid_quantity) false (to_price improved_ask)
            (to_int (m.current_position +ℤ minus_ℤ (pos (lot bid_quantity)))) m
        else hold m

    unfoldable pub execute_market_making_strategy :
        ℕ → ℤ → F.Carrier → F.Carrier → ℕ → ℕ → Maker → Outcome ((Text × Text) × Maker)
    unfolding at_limit quote
    execute_market_making_strategy fuel counter_id bid_price ask_price bid_quantity ask_quantity m =
        do
          locked ← lock m.book
          let free = record m { book = unlock locked } in
              if at_limit free
              then hold free
              else quote fuel counter_id bid_price ask_price bid_quantity ask_quantity free
