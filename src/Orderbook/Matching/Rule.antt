-- ===== src/Orderbook/Matching/Rule.antt =====
-- The invariant rule of `MatchOrders`: a property that one exchange between the two fronts keeps,
-- and that the removal of an empty level keeps, holds of what the loops return.
use velocity_vortex.Base.{
  ℕ, zero, suc, ◌≡◌, refl, true, false, Option, none, some, List, [], ◌∷◌, Bool-cases, inl, inr,
  subst, sym, ◌∙◌,
}
use mathlib.Core.Option.{some-injective}
use velocity_vortex.Base.Int.{ℤ, ltb_ℤ}
use velocity_vortex.Orderbook.Order.{Order, Trade}
use velocity_vortex.Orderbook.Level.{Level}
use velocity_vortex.Orderbook.Match.{
  Index, Front, LevelExit, bids_out, asks_out, not_entered, out_of_fuel, trade_fronts, match_level,
  Matching, match_loop,
}

-- The state of the outer loop where the best levels have these prices and queues.
abbrev pub at_front : ℤ → List Level → ℤ → List Level → Front → Matching
at_front pb bs pa ls s = record {
  bids = record { price = pb; orders = s.bids } ∷ bs;
  asks = record { price = pa; orders = s.asks } ∷ ls;
  index = s.index;
  trades = s.trades;
}

abbrev pub front : List Order → List Order → Index → List Trade → Front
front bids asks index trades = record { bids = bids; asks = asks; index = index; trades = trades }

abbrev pub matching : List Level → List Level → Index → List Trade → Matching
matching bids asks index trades = record {
  bids = bids;
  asks = asks;
  index = index;
  trades = trades;
}

pub record IsKept (P : Matching → Type 0) : Type 0 where
  pub trade :
      (pb pa : ℤ) (bs ls : List Level) (bid : Order) (bids : List Order) (ask : Order)
      (asks : List Order) (index : Index) (trades : List Trade)
      → ltb_ℤ pb pa ≡ false
      → P (at_front pb bs pa ls (front (bid ∷ bids) (ask ∷ asks) index trades))
      → P (at_front pb bs pa ls (trade_fronts bid bids ask asks index trades))
  pub drop_bid :
      (p : ℤ) (bs asks : List Level) (index : Index) (trades : List Trade)
      → P (matching (record { price = p; orders = [] } ∷ bs) asks index trades)
      → P (matching bs asks index trades)
  pub drop_ask :
      (p : ℤ) (bids ls : List Level) (index : Index) (trades : List Trade)
      → P (matching bids (record { price = p; orders = [] } ∷ ls) index trades)
      → P (matching bids ls index trades)

-- What holds at the end of the inner loop.
abbrev pub AtExit : (Front → Type 0) → LevelExit → Type 0
AtExit P (bids_out s) = P s × (s.bids ≡ [])
AtExit P (asks_out s) = P s × (s.asks ≡ [])
AtExit P (not_entered s) = P s
AtExit P out_of_fuel = Unit

module _ (P : Front → Type 0)
    (keep : (bid : Order) (bids : List Order) (ask : Order) (asks : List Order) (index : Index)
        (trades : List Trade)
      → P (front (bid ∷ bids) (ask ∷ asks) index trades)
      → P (trade_fronts bid bids ask asks index trades)) where
  exit_cases :
      (s : Front) (bs as' : List Order) (rest : LevelExit)
      → s.bids ≡ bs
      → s.asks ≡ as'
      → P s
      → AtExit P rest
      → AtExit P (elim bs [ [] ↦ bids_out s | _ ∷ _ ↦ elim as' [ [] ↦ asks_out s | _ ∷ _ ↦ rest ] ])
  exit_cases s [] as' rest e e' p r = (p, e)
  exit_cases s (x ∷ bs) [] rest e e' p r = (p, e')
  exit_cases s (x ∷ bs) (y ∷ as') rest e e' p r = r

  pub match_level_inv :
      (f : ℕ) (bids asks : List Order) (index : Index) (trades : List Trade)
      → P (front bids asks index trades)
      → AtExit P (match_level f bids asks index trades)
  unfolding match_level
  match_level_inv zero bids asks index trades p = tt
  match_level_inv (suc f) [] asks index trades p = p
  match_level_inv (suc f) (bid ∷ bids) [] index trades p = p
  match_level_inv (suc f) (bid ∷ bids) (ask ∷ asks) index trades p =
      let s = trade_fronts bid bids ask asks index trades in
      let p' = keep bid bids ask asks index trades p in
      exit_cases s s.bids s.asks _ refl refl p'
        (match_level_inv f s.bids s.asks s.index s.trades p')

-- A round of the outer loop, by the end of its inner loop.
unfoldable pub after_level :
    ℕ → Level → List Level → Level → List Level → LevelExit → Option Matching
unfolding match_loop
after_level f b bs a ls out_of_fuel = none
after_level f b bs a ls (bids_out s) =
    match_loop f bs (record a { orders = s.asks } ∷ ls) s.index s.trades
after_level f b bs a ls (asks_out s) =
    match_loop f (record b { orders = s.bids } ∷ bs) ls s.index s.trades
after_level f b bs a ls (not_entered s) =
    match_loop f (record b { orders = s.bids } ∷ bs) (record a { orders = s.asks } ∷ ls) s.index
      s.trades

module _ (f : ℕ) (b : Level) (bs : List Level) (a : Level) (ls : List Level) (index : Index)
    (trades : List Trade) where
  pub match_loop-step :
      ltb_ℤ b.price a.price ≡ false
      → match_loop (suc f) (b ∷ bs) (a ∷ ls) index trades
        ≡ after_level f b bs a ls (match_level (suc f) b.orders a.orders index trades)
  unfolding match_loop after_level
  match_loop-step crossed =
      rw (crossed, match_loop) (exits (match_level (suc f) b.orders a.orders index trades))
    where
      exits :
          (x : LevelExit)
          → (elim x [
            | out_of_fuel ↦ none
            | bids_out s ↦ match_loop f bs (record a { orders = s.asks } ∷ ls) s.index s.trades
            | asks_out s ↦ match_loop f (record b { orders = s.bids } ∷ bs) ls s.index s.trades
            | not_entered s ↦
                match_loop f
                  (record b { orders = s.bids } ∷ bs)
                  (record a { orders = s.asks } ∷ ls)
                  s.index
                  s.trades
          ])
            ≡ after_level f b bs a ls x
      exits out_of_fuel = refl
      exits (bids_out s) = refl
      exits (asks_out s) = refl
      exits (not_entered s) = refl

  pub match_loop-stop :
      ltb_ℤ b.price a.price ≡ true
      → match_loop (suc f) (b ∷ bs) (a ∷ ls) index trades
        ≡ some (matching (b ∷ bs) (a ∷ ls) index trades)
  unfolding match_loop
  match_loop-stop uncrossed = rw (uncrossed, match_loop)

module _ (P : Matching → Type 0) (kept : IsKept P) where
  after_level_inv :
      (f : ℕ) (b : Level) (bs : List Level) (a : Level) (ls : List Level) (x : LevelExit)
      {m : Matching}
      → ((bids asks : List Level) (index : Index) (trades : List Trade)
          → P (matching bids asks index trades)
          → match_loop f bids asks index trades ≡ some m
          → P m)
      → AtExit (λ s. P (at_front b.price bs a.price ls s)) x
      → after_level f b bs a ls x ≡ some m
      → P m
  unfolding after_level
  after_level_inv f b bs a ls out_of_fuel rec p e = cc
  after_level_inv f b bs a ls (bids_out s) rec (p, empty) e =
      rec _ _ _ _ (kept.drop_bid b.price bs _ _ _ (rw empty at p)) e
  after_level_inv f b bs a ls (asks_out s) rec (p, empty) e =
      rec _ _ _ _ (kept.drop_ask a.price _ ls _ _ (rw empty at p)) e
  after_level_inv f b bs a ls (not_entered s) rec p e = rec _ _ _ _ p e

  pub match_loop_inv :
      (f : ℕ) (bids asks : List Level) (index : Index) (trades : List Trade) {m : Matching}
      → P (matching bids asks index trades)
      → match_loop f bids asks index trades ≡ some m
      → P m
  unfolding match_loop
  match_loop_inv zero bids asks index trades p e = cc
  match_loop_inv (suc f) [] asks index trades p e = subst P (some-injective _ _ e) p
  match_loop_inv (suc f) (b ∷ bs) [] index trades p e = subst P (some-injective _ _ e) p
  match_loop_inv (suc f) (b ∷ bs) (a ∷ ls) index trades {m} p e =
      elim (Bool-cases (ltb_ℤ b.price a.price)) [
        | inl stop ↦
            subst P (some-injective _ _ (sym (match_loop-stop f b bs a ls index trades stop) ∙ e)) p
        | inr go ↦
            after_level_inv f b bs a ls _ (λ bids asks ix ts q. match_loop_inv f bids asks ix ts q)
              (match_level_inv (λ s. P (at_front b.price bs a.price ls s))
                (λ bid bids ask asks ix ts.
                  kept.trade b.price a.price bs ls bid bids ask asks ix ts go)
                (suc f) b.orders a.orders index trades p)
              (sym (match_loop-step f b bs a ls index trades go) ∙ e)
      ]
