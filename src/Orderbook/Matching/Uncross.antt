-- ===== src/Orderbook/Matching/Uncross.antt =====
-- Where `MatchOrders` (Computing-Server/src/Orderbook/order_book.cpp) returns, no bid reaches an
-- ask; and a new best bid on an uncrossed book without empty levels is always matched to the end.
use velocity_vortex.Base.{
  ℕ, zero, suc, ◌+◌, ◌≤◌, ◌<◌, ◌≡◌, refl, sym, subst, ◌∙◌, inl, inr, some, List, [], ◌∷◌, All,
  length, arith, Bool-cases,
}
use mathlib.Core.Option.{some-injective}
use velocity_vortex.Base.Int.{ltb_ℤ}
use velocity_vortex.Orderbook.Order.{Order, sell, Trade}
use velocity_vortex.Orderbook.Level.{Level, level}
use velocity_vortex.Orderbook.Match.{
  Index, LevelExit, bids_out, asks_out, not_entered, out_of_fuel, match_level, Matching, match_loop,
}
use velocity_vortex.Orderbook.Invariant.{IsUncrossed, IsSorted}
use velocity_vortex.Orderbook.Matching.Rule.{
  matching, after_level, match_loop-step, match_loop-stop,
}
use velocity_vortex.Orderbook.Matching.Ends.{IsOpen, HasEnded, match_level-HasEnded}
use velocity_vortex.Orderbook.Matching.Spin.{Returns, OpenLevels, HasOrders, weight}

after_level-IsUncrossed :
    (f : ℕ) (b : Level) (bs : List Level) (a : Level) (ls : List Level) (x : LevelExit)
    {m : Matching}
    → ((bids asks : List Level) (index : Index) (trades : List Trade)
        → match_loop f bids asks index trades ≡ some m
        → IsUncrossed m.bids m.asks)
    → after_level f b bs a ls x ≡ some m
    → IsUncrossed m.bids m.asks
unfolding after_level
after_level-IsUncrossed f b bs a ls (bids_out s) rec e = rec _ _ _ _ e
after_level-IsUncrossed f b bs a ls (asks_out s) rec e = rec _ _ _ _ e
after_level-IsUncrossed f b bs a ls (not_entered s) rec e = rec _ _ _ _ e
after_level-IsUncrossed f b bs a ls out_of_fuel rec e = cc

returned :
    {m n : Matching} → IsUncrossed n.bids n.asks → some n ≡ some m → IsUncrossed m.bids m.asks
returned u e = subst (λ k. IsUncrossed k.bids k.asks) (some-injective _ _ e) u

-- If the loops return, no bid reaches an ask.
pub match_loop-IsUncrossed :
    (f : ℕ) (bids asks : List Level) (index : Index) (trades : List Trade) {m : Matching}
    → match_loop f bids asks index trades ≡ some m
    → IsUncrossed m.bids m.asks
unfolding match_loop
match_loop-IsUncrossed zero bids asks ix ts e = cc
match_loop-IsUncrossed (suc f) [] asks ix ts e = returned {n = matching [] asks ix ts} tt e
match_loop-IsUncrossed (suc f) (b ∷ bs) [] ix ts e = returned {n = matching (b ∷ bs) [] ix ts} tt e
match_loop-IsUncrossed (suc f) (b ∷ bs) (a ∷ ls) ix ts e =
    elim (Bool-cases (ltb_ℤ b.price a.price)) [
      | inl stop ↦
          returned {n = matching (b ∷ bs) (a ∷ ls) ix ts} stop
            (sym (match_loop-stop f b bs a ls ix ts stop) ∙ e)
      | inr go ↦
          after_level-IsUncrossed f b bs a ls _
            (λ bids asks ix' ts' e'. match_loop-IsUncrossed f bids asks ix' ts' e')
            (sym (match_loop-step f b bs a ls ix ts go) ∙ e)
    ]

-- On an uncrossed state the loops return at once, with nothing changed.
pub match_loop_idle :
    (f : ℕ) (bids asks : List Level) (index : Index) (trades : List Trade)
    → 0 < f
    → IsUncrossed bids asks
    → match_loop f bids asks index trades ≡ some (matching bids asks index trades)
unfolding match_loop
match_loop_idle zero bids asks ix ts h u = elim h [ ]
match_loop_idle (suc f) [] asks ix ts h u = refl
match_loop_idle (suc f) (b ∷ bs) [] ix ts h u = refl
match_loop_idle (suc f) (b ∷ bs) (a ∷ ls) ix ts h u = match_loop-stop f b bs a ls ix ts u

-- A best bid level `b` above an uncrossed book in which every ask level has orders.
pub record IsNewBid (b : Level) (bs asks : List Level) : Type 0 where
  pub bid_open : All IsOpen b.orders
  pub bid_filled : HasOrders b
  pub asks_open : OpenLevels asks
  pub asks_filled : All HasOrders asks
  pub asks_sorted : IsSorted sell asks
  pub below : IsUncrossed bs asks

IsUncrossed-tail :
    (bs : List Level) (a : Level) (ls : List Level)
    → IsSorted sell (a ∷ ls)
    → IsUncrossed bs (a ∷ ls)
    → IsUncrossed bs ls
IsUncrossed-tail [] a ls s u = tt
IsUncrossed-tail (b ∷ bs) a [] s u = tt
IsUncrossed-tail (b ∷ bs) a (k ∷ ls) s u = ground (arith, s.0.0)

IsUncrossed-level :
    (bs : List Level) (a : Level) (os : List Order) (ls : List Level)
    → IsUncrossed bs (a ∷ ls)
    → IsUncrossed bs (level a.price os ∷ ls)
IsUncrossed-level [] a os ls u = tt
IsUncrossed-level (b ∷ bs) a os ls u = u

after_level-Returns :
    (f n : ℕ) (b : Level) (bs : List Level) (a : Level) (ls : List Level) (x : LevelExit)
    → HasEnded n x
    → IsNewBid b bs (a ∷ ls)
    → n + weight ls < f
    → ((b' : Level) (index : Index) (trades : List Trade)
        → IsNewBid b' bs ls
        → length b'.orders ≤ n
        → Returns f (b' ∷ bs) ls index trades)
    → (m : Matching) × (after_level f b bs a ls x ≡ some m)
unfolding after_level
after_level-Returns f n b bs a ls (bids_out s) h v lt rec = (
  _,
  match_loop_idle f bs (level a.price s.asks ∷ ls) s.index s.trades (omega arith)
      (IsUncrossed-level bs a s.asks ls v.below),
)
after_level-Returns f n b bs a ls (asks_out s) (e, filled, opened, le) v lt rec =
    rec (level b.price s.bids) s.index s.trades
      (record {
        bid_open = opened;
        bid_filled = filled;
        asks_open = v.asks_open.1;
        asks_filled = v.asks_filled.1;
        asks_sorted = v.asks_sorted.1;
        below = IsUncrossed-tail bs a ls v.asks_sorted v.below;
      })
      le
after_level-Returns f n b bs a ls (not_entered s) h v lt rec = absurd h
after_level-Returns f n b bs a ls out_of_fuel h v lt rec = absurd h

-- Then the loops return, with as much fuel as there are orders at `b` and levels and orders of asks.
pub new_bid-Returns :
    (f : ℕ) (b : Level) (bs asks : List Level) (index : Index) (trades : List Trade)
    → IsNewBid b bs asks
    → length b.orders + weight asks < f
    → Returns f (b ∷ bs) asks index trades
unfolding match_loop weight
new_bid-Returns zero b bs asks ix ts v h = elim h [ ]
new_bid-Returns (suc f) b bs [] ix ts v h = (matching (b ∷ bs) [] ix ts, refl)
new_bid-Returns (suc f) b bs (a ∷ ls) ix ts v h = elim (Bool-cases (ltb_ℤ b.price a.price)) [
  | inl stop ↦ (matching (b ∷ bs) (a ∷ ls) ix ts, match_loop-stop f b bs a ls ix ts stop)
  | inr go ↦
      let n = length b.orders + length a.orders in
      let ended : HasEnded n (match_level (suc f) b.orders a.orders ix ts) =
        match_level-HasEnded (suc f) b.orders a.orders ix ts v.bid_open v.asks_open.0 v.bid_filled
          v.asks_filled.0 (omega arith) in
      let r : (m : Matching) × (after_level f b bs a ls
              (match_level (suc f) b.orders a.orders ix ts)
            ≡ some m) =
        after_level-Returns f n b bs a ls _ ended v (omega arith)
          (λ b' ix' ts' w le. new_bid-Returns f b' bs ls ix' ts' w (omega arith)) in
      (r.0, match_loop-step f b bs a ls ix ts go ∙ r.1)
]
