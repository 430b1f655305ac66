-- ===== src/Orderbook/Tests.antt =====
-- The order book at concrete inputs.
use velocity_vortex.Base.{ℕ, ◌+◌, ◌-◌, ◌<◌, ◌≡◌, refl, false, List, [], ◌∷◌, none, some, arith}
use velocity_vortex.Base.{◌*◌, ltb, ◌==◌}
use velocity_vortex.Base.Int.{pos, ltb_ℤ}
use velocity_vortex.Trading.Double.{Double}
use velocity_vortex.Orderbook.MarketMaking.{Maker, execute_market_making_strategy}
use velocity_vortex.Orderbook.Position.{Kept, Leaves, execute_market_making_strategy-Kept}
use velocity_vortex.Orderbook.Order.{
  Order, new_order, good_till_cancel, fill_and_kill, Side, buy, sell, Trade,
}
use velocity_vortex.Orderbook.Level.{Level, level}
use velocity_vortex.Orderbook.Match.{Index, OrderEntry, find, erase, Matching, match_loop, trade_of}
use velocity_vortex.Orderbook.Book.{
  Orderbook, done, deadlock, hung, add_order, modify_order, cancel_order,
}
use velocity_vortex.Orderbook.Invariant.{IsResting}
use velocity_vortex.Orderbook.Index.{IsIndexed, keys, nodes, side_nodes, same}
use velocity_vortex.Orderbook.Valid.{IsValid, IsNew}
use velocity_vortex.Orderbook.Add.{IsSafe, add_order-IsSafe}
use velocity_vortex.Orderbook.Cancel.{cancel_order_found}
use velocity_vortex.Orderbook.Locks.{modify_order_lem, add_order_fill_and_kill}
use velocity_vortex.Orderbook.Hang.{add_buy_returns}
use velocity_vortex.Orderbook.ExactFill.{exact_fill_hangs_later}
use velocity_vortex.Orderbook.Matching.Volume.{
  book_volume, bid_traded, ask_traded, match_loop_conserves,
}
use velocity_vortex.Orderbook.Matching.Priority.{IsRest, queue, match_loop-IsRest}
use velocity_vortex.Orderbook.Matching.Fair.{IsFormed, match_loop-IsFormed}
use velocity_vortex.Orderbook.Matching.Indexed.{match_loop-IsTracked}
use velocity_vortex.Orderbook.Matching.Spin.{Decided, weight, match_loop-Decided}

abbrev entry : Side → ℕ → OrderEntry
entry s p = record { side = s; price = pos p }

abbrev gtc : ℕ → Side → ℕ → ℕ → Order
gtc i s p q = new_order good_till_cancel i s (pos p) q

-- A bid of 5 at 99 and an ask of 10 at 100.
abbrev two_sided : Orderbook
two_sided = record {
  bids = level (pos 99) (gtc 7 buy 99 5 ∷ []) ∷ [];
  asks = level (pos 100) (gtc 1 sell 100 10 ∷ []) ∷ [];
  orders = (1, entry sell 100) ∷ (7, entry buy 99) ∷ [];
  mutex = false;
}

gtc-IsResting : (i : ℕ) (s : Side) (p q : ℕ) → 0 < q → IsResting s (pos p) (gtc i s p q)
gtc-IsResting i s p q h = record {
  on_side = refl;
  at_price = refl;
  is_open = h;
  within = omega arith;
  lasting = refl;
}

two_sided-IsIndexed : IsIndexed two_sided.bids two_sided.asks two_sided.orders
unfolding keys nodes side_nodes find
two_sided-IsIndexed = record {
  counts = λ i. omega arith;
  unique = λ i. ground arith;
  bids_agree = ((refl, tt), tt);
  asks_agree = ((refl, tt), tt);
}

two_sided-IsValid : IsValid two_sided
two_sided-IsValid = record {
  unlocked = refl;
  bids_resting = ((gtc-IsResting 7 buy 99 5 (omega arith), tt), tt);
  bids_sorted = (tt, tt);
  asks_resting = ((gtc-IsResting 1 sell 100 10 (omega arith), tt), tt);
  asks_sorted = (tt, tt);
  uncrossed = refl;
  indexed = two_sided-IsIndexed;
}

gtc-IsNew : (i : ℕ) (s : Side) (p q : ℕ) → 0 < q → IsNew (gtc i s p q)
gtc-IsNew i s p q h = record { some_quantity = h; unfilled = refl }

add_order-IsSafe_example :
    IsSafe (gtc 2 buy 100 4) two_sided (add_order 9 (gtc 2 buy 100 4) two_sided)
unfolding find
add_order-IsSafe_example =
    add_order-IsSafe 9 (gtc 2 buy 100 4) two_sided two_sided-IsValid
      (gtc-IsNew 2 buy 100 4 (omega arith)) refl refl

add_buy_returns_example :
    (ts : List Trade) × (b' : Orderbook) × (add_order 9 (gtc 2 buy 100 4) two_sided ≡ done (ts, b'))
    × IsSafe (gtc 2 buy 100 4) two_sided (done (ts, b'))
unfolding find weight
add_buy_returns_example =
    add_buy_returns (gtc 2 buy 100 4) two_sided two_sided-IsValid
      (gtc-IsNew 2 buy 100 4 (omega arith)) refl refl refl 9 ((λ e. cc), tt) (omega arith)

cancel_order_found_example :
    (b' : Orderbook) × (cancel_order 7 two_sided ≡ done b')
    × IsValid b'
    × ((j : ℕ) → keys j b'.orders ≡ keys j two_sided.orders - same 7 j)
unfolding find
cancel_order_found_example =
    cancel_order_found 7 two_sided {entry = entry buy 99} two_sided-IsValid refl

add_order_fill_and_kill_example :
    add_order 9 (new_order fill_and_kill 2 buy (pos 100) 4) two_sided ≡ deadlock
unfolding find
add_order_fill_and_kill_example =
    add_order_fill_and_kill 9 (new_order fill_and_kill 2 buy (pos 100) 4) two_sided refl refl refl

modify_order_lem_example : modify_order 9 (gtc 7 buy 99 2) two_sided ≡ deadlock
unfolding find
modify_order_lem_example =
    modify_order_lem 9 (gtc 7 buy 99 2) two_sided refl (some (entry buy 99)) refl

exact_fill_hangs_later_example :
    (b' : Orderbook) × (add_order 3 (gtc 2 buy 101 10) two_sided
      ≡ done (trade_of 10 (gtc 2 buy 101 10) (gtc 1 sell 100 10) ∷ [], b'))
    × (b'.asks ≡ level (pos 100) [] ∷ [])
    × (b'.bids ≡ two_sided.bids)
    × ((o' : Order)
        → IsNew o'
        → o'.side ≡ buy
        → o'.order_type ≡ good_till_cancel
        → find o'.order_id b'.orders ≡ none
        → ltb_ℤ o'.price (pos 100) ≡ false
        → (fuel : ℕ) → add_order fuel o' b' ≡ hung)
unfolding find
exact_fill_hangs_later_example =
    exact_fill_hangs_later 1 (gtc 2 buy 101 10) (gtc 1 sell 100 10) two_sided (pos 100) []
      two_sided-IsValid (gtc-IsNew 2 buy 101 10 (omega arith)) refl refl refl refl refl refl

-- The state of the loops once a bid of 4 at 100 has joined `two_sided`.
abbrev crossed_bids : List Level
crossed_bids = level (pos 100) (gtc 2 buy 100 4 ∷ []) ∷ two_sided.bids

abbrev crossed_index : Index
crossed_index = (2, entry buy 100) ∷ two_sided.orders

-- What the loops leave of it.
abbrev after_match : Matching
after_match = record {
  bids = two_sided.bids;
  asks = level (pos 100) (record (gtc 1 sell 100 10) { remaining_quantity = 6 } ∷ []) ∷ [];
  index = two_sided.orders;
  trades = trade_of 4 (gtc 2 buy 100 4) (gtc 1 sell 100 10) ∷ [];
}

match_loop_test : match_loop 9 crossed_bids two_sided.asks crossed_index [] ≡ some after_match
unfolding match_loop erase
match_loop_test = refl

crossed-IsIndexed : IsIndexed crossed_bids two_sided.asks crossed_index
unfolding keys nodes side_nodes find
crossed-IsIndexed = record {
  counts = λ i. omega arith;
  unique = λ i. ground arith;
  bids_agree = ((refl, tt), ((refl, tt), tt));
  asks_agree = ((refl, tt), tt);
}

match_loop_conserves_example :
    (book_volume after_match.bids + bid_traded after_match.trades ≡ book_volume crossed_bids)
    × (book_volume after_match.asks + ask_traded after_match.trades ≡ book_volume two_sided.asks)
match_loop_conserves_example =
    match_loop_conserves 9 crossed_bids two_sided.asks crossed_index match_loop_test

match_loop-IsRest_example :
    IsRest (queue crossed_bids) (queue after_match.bids)
    × IsRest (queue two_sided.asks) (queue after_match.asks)
match_loop-IsRest_example =
    match_loop-IsRest 9 crossed_bids two_sided.asks crossed_index match_loop_test

match_loop-IsTracked_example : IsIndexed after_match.bids after_match.asks after_match.index
match_loop-IsTracked_example =
    match_loop-IsTracked 9 crossed_bids two_sided.asks crossed_index crossed-IsIndexed
      match_loop_test

match_loop-IsFormed_example : IsFormed after_match
match_loop-IsFormed_example =
    match_loop-IsFormed 9 crossed_bids two_sided.asks crossed_index
      ((gtc-IsResting 2 buy 100 4 (omega arith), tt), two_sided-IsValid.bids_resting)
      ((refl, tt), (tt, tt)) two_sided-IsValid.asks_resting (tt, tt) match_loop_test

match_loop-Decided_example : Decided 9 crossed_bids two_sided.asks crossed_index []
unfolding weight
match_loop-Decided_example =
    match_loop-Decided 9 crossed_bids two_sided.asks crossed_index []
      (record {
        bids_open = ((omega arith, tt), ((omega arith, tt), tt));
        asks_open = ((omega arith, tt), tt);
        bids_filled = ((λ e. cc), ((λ e. cc), tt));
        asks_filled = tt;
      })
      (omega arith)

abbrev whole : Double
whole = record {
  Carrier = ℕ;
  add = λ x y. x + y;
  sub = λ x y. x - y;
  mul = λ x y. x * y;
  div = λ x y. x;
  neg = λ x. x;
  abs = λ x. x;
  sqrt = λ x. x;
  less = ltb;
  equal = λ x y. x == y;
  of_nat = λ n. n;
  truncate = λ x. some (pos x);
  largest = 1000;
  decimal = λ digits places. digits;
  par_sum = λ number xs. 0;
}

abbrev maker : Maker whole
maker = record {
  book = two_sided;
  spread_threshold = 2;
  imbalance_threshold = 1;
  position_limit = pos 1000;
  current_position = pos 40;
  max_position_size = pos 0;
  max_trade_size = pos 0;
}

execute_market_making_strategy-Kept_example :
    Leaves whole
      (Kept 1000 (pos 40))
      (execute_market_making_strategy whole pos (λ x. []) 5 (pos 9) 100 110 30 500 maker)
execute_market_making_strategy-Kept_example =
    execute_market_making_strategy-Kept whole pos (λ x. []) 5 (pos 9) 100 110 30 500 maker 1000 refl
      (omega arith) (omega arith) (omega arith)
