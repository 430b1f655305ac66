-- ===== src/Orderbook/Position.antt =====
-- The position that `Orderbook::executeMarketMakingStrategy` (Computing-Server/src/Orderbook/order_book.cpp)
-- leaves.
use velocity_vortex.Base.{
  ℕ, ◌+◌, ◌≤◌, ◌≡◌, ◌⊎◌, Bool, true, false, inl, inr, Bool-cases, List, Text, if◌then◌else◌, arith,
}
use velocity_vortex.Base.Int.{ℤ, pos, negsuc, ltb_ℤ, ◌≤ℤ◌, ◌+ℤ◌}
use velocity_vortex.Trading.Double.{Double}
use velocity_vortex.Orderbook.Order.{Trade, good_till_cancel, buy, sell, new_order}
use velocity_vortex.Orderbook.Book.{
  Orderbook, Outcome, done, deadlock, dangling, hung, ◌>>=◌, lock, unlock, add_order,
}
use velocity_vortex.Orderbook.MarketMaking.{
  to_int, minus_ℤ, lot, Maker, at_limit, hold, place, quote, execute_market_making_strategy,
}

-- A position from `old`: at most 99 past the limit, and not less than before, unless it comes from the
-- limit or above and is at most 100 below it.
abbrev pub Kept : ℕ → ℤ → ℤ → Type 0
Kept limit old new =
    (new ≤ℤ pos (limit + 99)) × ((old ≤ℤ new) ⊎ (pos limit ≤ℤ old × pos limit ≤ℤ new +ℤ pos 100))

le_refl : (i : ℤ) → i ≤ℤ i
le_refl i = omega arith

lot_le : (q : ℕ) → lot q ≤ 100
lot_le q = omega arith

bought_Kept :
    (limit n : ℕ) (p : ℤ)
    → limit ≤ 1073741824
    → n ≤ 100
    → negsuc 1073741824 ≤ℤ p
    → ltb_ℤ p (pos limit) ≡ true
    → Kept limit p (to_int (p +ℤ pos n))
bought_Kept limit n (pos p) hl hn hp h = ground arith
bought_Kept limit n (negsuc p) hl hn hp h = ground arith

sold_Kept :
    (limit n : ℕ) (p : ℤ)
    → limit ≤ 1073741824
    → n ≤ 100
    → p ≤ℤ pos (limit + 99)
    → ltb_ℤ p (pos limit) ≡ false
    → Kept limit p (to_int (p +ℤ minus_ℤ (pos n)))
sold_Kept limit n (pos p) hl hn hp h = ground arith
sold_Kept limit n (negsuc p) hl hn hp h = ground arith

module _ (F : Double) where
  -- What holds of the position that a call leaves, if it returns.
  abbrev pub Leaves : (ℤ → Type 0) → Outcome ((Text × Text) × Maker F) → Type 0
  Leaves P (done r) = P r.1.current_position
  Leaves P deadlock = Unit
  Leaves P dangling = Unit
  Leaves P hung = Unit

  place-Leaves :
      (P : ℤ → Type 0) (fuel : ℕ) (action price_text : Text) (id_quantity : ℕ × ℕ) (buys : Bool)
      (price position : ℤ) (m : Maker F)
      → P position
      → Leaves P (place F fuel action price_text id_quantity buys price position m)
  unfolding place
  place-Leaves P fuel action price_text id_quantity buys price position m h = added (
      add_order fuel
        (new_order good_till_cancel id_quantity.0 (if buys then buy else sell) price id_quantity.1)
        m.book)
    where
      locked_book :
          (b : Outcome Orderbook)
          → Leaves P (
              b >>= λ locked. done (
                (action, price_text),
                record m { book = unlock locked; current_position = position },
              ))
      locked_book (done b) = h
      locked_book deadlock = tt
      locked_book dangling = tt
      locked_book hung = tt

      added :
          (o : Outcome (List Trade × Orderbook))
          → Leaves P (
              o >>= λ r.
              (lock r.1 >>= λ locked. done (
                (action, price_text),
                record m { book = unlock locked; current_position = position },
              )))
      added (done r) = locked_book (lock r.1)
      added deadlock = tt
      added dangling = tt
      added hung = tt

  module _ (to_price : F.Carrier → ℤ) (show : F.Carrier → Text) where
    quote-Leaves :
        (fuel : ℕ) (id : ℤ) (bid ask : F.Carrier) (bids asks : ℕ) (m : Maker F) (limit : ℕ)
        → m.position_limit ≡ pos limit
        → limit ≤ 1073741824
        → negsuc 1073741824 ≤ℤ m.current_position
        → m.current_position ≤ℤ pos (limit + 99)
        → Leaves (Kept limit m.current_position) (quote F to_price show fuel id bid ask bids asks m)
    unfolding quote
    quote-Leaves fuel id bid ask bids asks m limit e hl low high =
        elim (Bool-cases (F.less m.spread_threshold (F.sub ask bid))) [
          | inr narrow ↦ rw narrow stays
          | inl wide ↦ elim (Bool-cases (ltb_ℤ m.current_position (pos limit))) [
            | inl below ↦ rw wide (
                rw e (
                  rw below (
                    place-Leaves (Kept limit m.current_position) fuel _ _ _ _ _ _ _ (
                      bought_Kept limit (lot asks) m.current_position hl (lot_le asks) low below))))
            | inr above ↦ elim (Bool-cases (ltb_ℤ (minus_ℤ (pos limit)) m.current_position)) [
              | inl long ↦ rw wide (
                  rw e (
                    rw above (
                      rw long (
                        place-Leaves (Kept limit m.current_position) fuel _ _ _ _ _ _ _ (
                          sold_Kept limit (lot bids) m.current_position hl (lot_le bids) high
                            above)))))
              | inr short ↦ rw wide (rw e (rw above (rw short stays)))
            ]
          ]
        ]
      where
        stays : Kept limit m.current_position m.current_position
        stays = (high, inl (le_refl m.current_position))

    -- For a limit from 0 to 2 ^ 30, a call that returns leaves a position at most 99 past the limit, if
    -- the position was, and is not below -(2 ^ 30) - 1. It does not lower the position unless it was at
    -- the limit or above, and then leaves it at most 100 below the limit.
    pub execute_market_making_strategy-Kept :
        (fuel : ℕ) (id : ℤ) (bid ask : F.Carrier) (bids asks : ℕ) (m : Maker F) (limit : ℕ)
        → m.position_limit ≡ pos limit
        → limit ≤ 1073741824
        → negsuc 1073741824 ≤ℤ m.current_position
        → m.current_position ≤ℤ pos (limit + 99)
        → Leaves
            (Kept limit m.current_position)
            (execute_market_making_strategy F to_price show fuel id bid ask bids asks m)
    unfolding execute_market_making_strategy
    execute_market_making_strategy-Kept fuel id bid ask bids asks m limit e hl low high =
        begun (lock m.book)
      where
        begun :
            (o : Outcome Orderbook)
            → Leaves (Kept limit m.current_position) (
                o >>= λ locked.
                (let free = record m { book = unlock locked } in
                  if at_limit F free
                  then hold F free
                  else quote F to_price show fuel id bid ask bids asks free))
        begun deadlock = tt
        begun dangling = tt
        begun hung = tt
        begun (done b) = elim (Bool-cases (at_limit F (record m { book = unlock b }))) [
          | inl stopped ↦ rw stopped (high, inl (le_refl m.current_position))
          | inr goes ↦ rw goes (
              quote-Leaves fuel id bid ask bids asks (record m { book = unlock b }) limit e hl low
                high)
        ]
