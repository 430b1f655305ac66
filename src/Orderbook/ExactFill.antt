-- ===== src/Orderbook/ExactFill.antt =====
-- How `MatchOrders` (Computing-Server/src/Orderbook/order_book.cpp) leaves an ask level without
-- orders in `asks_`, and what that does to later calls.
use velocity_vortex.Base.{
  ℕ, suc, ◌<◌, ◌≡◌, refl, ap, subst, ◌∙◌, false, none, some, List, [], ◌∷◌, arith,
}
use velocity_vortex.Base.Int.{ℤ, ltb_ℤ}
use velocity_vortex.Orderbook.Order.{Order, good_till_cancel, buy}
use velocity_vortex.Orderbook.Level.{Level, level}
use velocity_vortex.Orderbook.Match.{
  Index, Front, bids_out, erase, find, Matching, match_level, match_loop, trade_of,
}
use velocity_vortex.Orderbook.Book.{Orderbook, done, hung, held, unlock, insert, add_order}
use velocity_vortex.Orderbook.Invariant.{IsUncrossed}
use velocity_vortex.Orderbook.Valid.{IsValid, IsNew}
use velocity_vortex.Orderbook.Add.{matched, inserted, add_order_returned, IsSafe, add_order-IsSafe}
use velocity_vortex.Orderbook.Hang.{inserted_buy, push_back_top, empty_level_hangs}
use velocity_vortex.Orderbook.Matching.Exchange.{
  Exchange, nothing, both_filled, bid_filled, ask_filled, trade_fronts-Exchange,
}
use velocity_vortex.Orderbook.Matching.Rule.{front, matching, match_loop-step, after_level}
use velocity_vortex.Orderbook.Matching.Uncross.{match_loop_idle}

-- Two lone orders of the same quantity fill each other: the bid level is erased.
lone_fronts :
    (bid ask : Order) (index : Index) {s : Front}
    → 0 < bid.remaining_quantity
    → bid.remaining_quantity ≡ ask.remaining_quantity
    → Exchange bid [] ask [] index [] s
    → s
      ≡ front [] []
          (erase ask.order_id (erase bid.order_id index))
          (trade_of bid.remaining_quantity bid ask ∷ [])
lone_fronts bid ask ix h e (nothing z k) = absurd (grind arith)
lone_fronts bid ask ix h e (both_filled p q k) = k
lone_fronts bid ask ix h e (bid_filled p q k) = absurd (omega arith)
lone_fronts bid ask ix h e (ask_filled p q k) = absurd (omega arith)

-- `orders_` without the two.
abbrev index_after : Order → Order → Index → Index
index_after bid ask index = erase ask.order_id (erase bid.order_id index)

module _ (f : ℕ) (bid ask : Order) (bs ls : List Level) (pb pa : ℤ) (index : Index)
    (some_quantity : 0 < bid.remaining_quantity)
    (equal : bid.remaining_quantity ≡ ask.remaining_quantity) (crossed : ltb_ℤ pb pa ≡ false)
    (below : IsUncrossed bs (level pa [] ∷ ls)) where
  lone_level :
      match_level (suc (suc f)) (bid ∷ []) (ask ∷ []) index []
      ≡ bids_out
          (front [] [] (index_after bid ask index) (trade_of bid.remaining_quantity bid ask ∷ []))
  unfolding match_level
  lone_level =
      let e =
        lone_fronts bid ask index some_quantity equal
          (trade_fronts-Exchange bid [] ask [] index []) in
      rw (e, match_level) (ap bids_out e)

  exact_fill_loop :
      match_loop (suc (suc f)) (level pb (bid ∷ []) ∷ bs) (level pa (ask ∷ []) ∷ ls) index []
      ≡ some (
          matching bs
            (level pa [] ∷ ls)
            (index_after bid ask index)
            (trade_of bid.remaining_quantity bid ask ∷ []))
  unfolding after_level
  exact_fill_loop =
      match_loop-step (suc f) (level pb (bid ∷ [])) bs (level pa (ask ∷ [])) ls index [] crossed
      ∙ rw lone_level (
          match_loop_idle (suc f) bs (level pa [] ∷ ls) (index_after bid ask index) _ (omega arith)
            below)

-- In a valid book whose best ask level holds one order, add a GoodTillCancel buy order with a new id that
-- reaches its price, for the same quantity. The call makes that one trade, but the ask level stays in
-- the book without orders; and from then on adding any GoodTillCancel buy order with a new id that reaches its price hangs.
pub exact_fill_hangs_later :
    (f : ℕ) (o ask : Order) (b : Orderbook) (p : ℤ) (ls : List Level)
    → IsValid b
    → IsNew o
    → o.order_type ≡ good_till_cancel
    → find o.order_id b.orders ≡ none
    → o.side ≡ buy
    → b.asks ≡ level p (ask ∷ []) ∷ ls
    → o.remaining_quantity ≡ ask.remaining_quantity
    → ltb_ℤ o.price p ≡ false
    → (b' : Orderbook) × (add_order (suc (suc f)) o b
        ≡ done (trade_of o.remaining_quantity o ask ∷ [], b'))
      × (b'.asks ≡ level p [] ∷ ls)
      × (b'.bids ≡ b.bids)
      × ((o' : Order)
          → IsNew o'
          → o'.side ≡ buy
          → o'.order_type ≡ good_till_cancel
          → find o'.order_id b'.orders ≡ none
          → ltb_ℤ o'.price p ≡ false
          → (fuel : ℕ) → add_order fuel o' b' ≡ hung)
exact_fill_hangs_later f o ask b p ls v n gtc fresh is_buy asks equal reach =
    let b' = unlock (matched filled (insert o (held b))) in
    (
      b',
      returned,
      refl,
      refl,
      λ o' n' is_buy' gtc' fresh' reach' fuel.
          empty_level_hangs o' b' valid n' is_buy' gtc' fresh' p ls refl reach' fuel,
    )
  where
    filled : Matching
    filled =
        matching b.bids (level p [] ∷ ls)
          (index_after o ask ((o.order_id, record { side = buy; price = o.price }) ∷ b.orders))
          (trade_of o.remaining_quantity o ask ∷ [])

    below : IsUncrossed b.bids (level p (ask ∷ []) ∷ ls)
    below = subst (IsUncrossed b.bids) asks v.uncrossed

    below_empty :
        (bids : List Level)
        → IsUncrossed bids (level p (ask ∷ []) ∷ ls)
        → IsUncrossed bids (level p [] ∷ ls)
    below_empty [] u = tt
    below_empty (x ∷ xs) u = u

    loop : inserted (suc (suc f)) o b ≡ some filled
    loop =
        inserted_buy o b v n is_buy gtc fresh (suc (suc f))
        ∙ rw asks (
            rw (push_back_top o b v n is_buy gtc fresh p (ask ∷ []) ls b.bids below reach) (
              exact_fill_loop f o ask b.bids ls o.price p _
                (omega (arith, n.some_quantity, n.unfilled)) equal reach
                (below_empty b.bids below)))

    returned :
        add_order (suc (suc f)) o b
        ≡ done
            (trade_of o.remaining_quantity o ask ∷ [], unlock (matched filled (insert o (held b))))
    returned = add_order_returned (suc (suc f)) o b v n gtc fresh loop

    valid : IsValid (unlock (matched filled (insert o (held b))))
    valid = (subst (IsSafe o b) returned (add_order-IsSafe (suc (suc f)) o b v n gtc fresh)).0
