-- ===== src/Orderbook/Add.antt =====
-- `Orderbook::AddOrder`, Computing-Server/src/Orderbook/order_book.cpp, of a GoodTillCancel order
-- with a new id.
use velocity_vortex.Base.{
  ℕ, ◌+◌, ◌≡◌, refl, ◌∙◌, false, Option, none, some, List, [], ◌∷◌, All, arith,
}
use velocity_vortex.Base.Int.{ℤ}
use velocity_vortex.Orderbook.Order.{Order, good_till_cancel, Side, buy, sell, Trade}
use velocity_vortex.Orderbook.Level.{Level, level}
use velocity_vortex.Orderbook.Match.{find, Matching, match_loop}
use velocity_vortex.Orderbook.Book.{
  Orderbook, Outcome, done, deadlock, dangling, hung, ◌>>=◌, held, unlock, cancel_fak, finish_match,
  insert, add_order,
}
use velocity_vortex.Orderbook.Invariant.{IsResting, AllResting, IsFair}
use velocity_vortex.Orderbook.Insert.{book_volume-push_back}
use velocity_vortex.Orderbook.Valid.{IsValid, IsNew}
use velocity_vortex.Orderbook.Ready.{IsReady, insert_buy, insert_sell, insert-IsReady}
use velocity_vortex.Orderbook.Matching.Volume.{
  book_volume, bid_traded, ask_traded, match_loop_conserves,
}
use velocity_vortex.Orderbook.Matching.Fair.{IsFormed, match_loop-IsFormed}
use velocity_vortex.Orderbook.Matching.Indexed.{match_loop-IsTracked}
use velocity_vortex.Orderbook.Matching.Uncross.{match_loop-IsUncrossed}

-- No FillAndKill order is in the book, so the end of MatchOrders cancels none.
cancel_fak_front :
    (s : Side) (p : ℤ) (os : List Order) (ls : List Level) (b : Orderbook)
    → All (IsResting s p) os
    → cancel_fak (level p os ∷ ls) b ≡ done b
unfolding cancel_fak
cancel_fak_front s p [] ls b r = refl
cancel_fak_front s p (o ∷ os) ls b r = rw r.0.lasting

cancel_fak_idle :
    (s : Side) (ls : List Level) (b : Orderbook) → AllResting s ls → cancel_fak ls b ≡ done b
unfolding cancel_fak
cancel_fak_idle s [] b r = refl
cancel_fak_idle s (l ∷ ls) b r = cancel_fak_front s l.price l.orders ls b r.0

abbrev pub matched : Matching → Orderbook → Orderbook
matched m b = record b { bids = m.bids; asks = m.asks; orders = m.index }

finish_match_resting :
    (b : Orderbook) (m : Matching)
    → AllResting buy m.bids
    → AllResting sell m.asks
    → finish_match (some m) b ≡ done (m.trades, matched m b)
unfolding finish_match
finish_match_resting b m rb ra =
    rw (cancel_fak_idle buy m.bids (matched m b) rb)
      (rw (cancel_fak_idle sell m.asks (matched m b) ra))

-- AddOrder is the insertion, the loops and what follows them.
module _ (fuel : ℕ) (o : Order) (b : Orderbook) where
  unfoldable pub inserted : Option Matching
  inserted =
      match_loop fuel (insert o (held b)).bids (insert o (held b)).asks (insert o (held b)).orders
        []

  release : Outcome (List Trade × Orderbook) → Outcome (List Trade × Orderbook)
  release r = r >>= λ t. done (t.0, unlock t.1)

  add_order_fresh :
      b.mutex ≡ false
      → o.order_type ≡ good_till_cancel
      → find o.order_id b.orders ≡ none
      → add_order fuel o b ≡ release (finish_match inserted (insert o (held b)))
  unfolding add_order release inserted
  add_order_fresh free gtc fresh = rw free (rw fresh (simp gtc))

-- What an order adds to the volume of a side.
abbrev pub offered : Side → Side → Order → ℕ
offered buy buy o = o.remaining_quantity
offered sell sell o = o.remaining_quantity
offered _ _ o = 0

-- A valid book again, fair trades only, and on each side the volume that was there or was offered is
-- still there or was traded. The loop may be out of fuel; nothing else goes wrong.
abbrev pub IsSafe : Order → Orderbook → Outcome (List Trade × Orderbook) → Type 0
IsSafe o b (done (ts, b')) =
    IsValid b'
    × All IsFair ts
    × (book_volume b'.bids + bid_traded ts ≡ book_volume b.bids + offered buy o.side o)
    × (book_volume b'.asks + ask_traded ts ≡ book_volume b.asks + offered sell o.side o)
IsSafe o b hung = Unit {0}
IsSafe o b deadlock = ⊥
IsSafe o b dangling = ⊥

insert_volume :
    (o : Order) (b : Orderbook) (s : Side)
    → o.side ≡ s
    → (book_volume (insert o (held b)).bids ≡ book_volume b.bids + offered buy s o)
      × (book_volume (insert o (held b)).asks ≡ book_volume b.asks + offered sell s o)
insert_volume o b buy e =
    rw (insert_buy o (held b) e) (omega (arith, book_volume-push_back buy o b.bids), omega arith)
insert_volume o b sell e =
    rw (insert_sell o (held b) e) (omega arith, omega (arith, book_volume-push_back sell o b.asks))

module _ (fuel : ℕ) (o : Order) (b : Orderbook) (ready : IsReady (insert o (held b))) where
  finish_IsSafe :
      (r : Option Matching)
      → inserted fuel o b ≡ r
      → IsSafe o b (release fuel o b (finish_match r (insert o (held b))))
  unfolding inserted release finish_match
  finish_IsSafe none e = tt
  finish_IsSafe (some m) e =
      rw (finish_match_resting (insert o (held b)) m formed.bids_resting formed.asks_resting) (
        record {
          unlocked = refl;
          bids_resting = formed.bids_resting;
          bids_sorted = formed.bids_sorted;
          asks_resting = formed.asks_resting;
          asks_sorted = formed.asks_sorted;
          uncrossed = match_loop-IsUncrossed fuel _ _ _ [] e;
          indexed = match_loop-IsTracked fuel _ _ _ ready.indexed e;
        },
        formed.fair,
        omega (arith, insert_volume o b o.side refl, match_loop_conserves fuel _ _ _ e),
        omega (arith, insert_volume o b o.side refl, match_loop_conserves fuel _ _ _ e),
      )
    where
      formed : IsFormed m
      formed =
          match_loop-IsFormed fuel _ _ _ ready.bids_resting ready.bids_sorted ready.asks_resting
            ready.asks_sorted e

-- Adding an unfilled GoodTillCancel order of some quantity, with an id that the book does not have, to a
-- valid book never deadlocks nor uses a dangling iterator; if it returns, then the book is valid again, so no bid reaches an ask,
-- every trade is fair, and no quantity is lost or made up on either side.
pub add_order-IsSafe :
    (fuel : ℕ) (o : Order) (b : Orderbook)
    → IsValid b
    → IsNew o
    → o.order_type ≡ good_till_cancel
    → find o.order_id b.orders ≡ none
    → IsSafe o b (add_order fuel o b)
add_order-IsSafe fuel o b v n gtc fresh =
    rw (add_order_fresh fuel o b v.unlocked gtc fresh) (
      finish_IsSafe fuel o b (insert-IsReady o b v n gtc fresh o.side refl) (inserted fuel o b)
        refl)

-- By whether the loops return.
pub add_order_returned :
    (fuel : ℕ) (o : Order) (b : Orderbook) {m : Matching}
    → IsValid b
    → IsNew o
    → o.order_type ≡ good_till_cancel
    → find o.order_id b.orders ≡ none
    → inserted fuel o b ≡ some m
    → add_order fuel o b ≡ done (m.trades, unlock (matched m (insert o (held b))))
unfolding release inserted
add_order_returned fuel o b {m} v n gtc fresh e =
    add_order_fresh fuel o b v.unlocked gtc fresh
    ∙ rw e (rw (finish_match_resting (insert o (held b)) m formed.bids_resting formed.asks_resting))
  where
    ready : IsReady (insert o (held b))
    ready = insert-IsReady o b v n gtc fresh o.side refl

    formed : IsFormed m
    formed =
        match_loop-IsFormed fuel _ _ _ ready.bids_resting ready.bids_sorted ready.asks_resting
          ready.asks_sorted e

pub add_order_hung :
    (fuel : ℕ) (o : Order) (b : Orderbook)
    → b.mutex ≡ false
    → o.order_type ≡ good_till_cancel
    → find o.order_id b.orders ≡ none
    → inserted fuel o b ≡ none
    → add_order fuel o b ≡ hung
unfolding release finish_match
add_order_hung fuel o b free gtc fresh e = add_order_fresh fuel o b free gtc fresh ∙ rw e
