-- ===== src/Orderbook/Matching/Spin.antt =====
-- `MatchOrders` (Computing-Server/src/Orderbook/order_book.cpp) returns, or it spins for ever at an
-- ask level that an exact fill has left without orders.
use velocity_vortex.Base.{
  ℕ, zero, suc, ◌+◌, ◌≤◌, ◌<◌, ◌≡◌, refl, sym, subst, ◌∙◌, ◌≢◌, ◌⊎◌, inl, inr, false, some, none,
  List, [], ◌∷◌, All, length, arith, Bool-cases,
}
use velocity_vortex.Base.Int.{ℤ, ltb_ℤ}
use velocity_vortex.Orderbook.Order.{Order, Trade}
use velocity_vortex.Orderbook.Level.{Level, level}
use velocity_vortex.Orderbook.Match.{
  Index, Front, LevelExit, bids_out, asks_out, not_entered, out_of_fuel, trade_fronts, match_level,
  Matching, match_loop,
}
use velocity_vortex.Orderbook.Matching.Rule.{
  matching, after_level, match_loop-step, match_loop-stop,
}
use velocity_vortex.Orderbook.Matching.Ends.{IsOpen, HasEnded, match_level-HasEnded}

-- No fuel is enough.
abbrev pub Spins : List Level → List Level → Index → List Trade → Type 0
Spins bids asks index trades = (f : ℕ) → match_loop f bids asks index trades ≡ none

abbrev pub Returns : ℕ → List Level → List Level → Index → List Trade → Type 0
Returns f bids asks index trades = (m : Matching) × (match_loop f bids asks index trades ≡ some m)

abbrev pub HasOrders : Level → Type 0
HasOrders l = l.orders ≢ []

abbrev pub OpenLevels : List Level → Type 0
OpenLevels = All (λ l. All IsOpen l.orders)

-- The levels and the orders in them.
unfoldable pub weight : List Level → ℕ
weight [] = 0
weight (l ∷ ls) = 1 + length l.orders + weight ls

-- The inner loop's state does not depend on the fuel, if it ends.
abbrev Agrees : LevelExit → LevelExit → Type 0
Agrees x y = (y ≡ out_of_fuel) ⊎ (y ≡ x)

pick-Agrees :
    (s : Front) (bs ks : List Order) (x y : LevelExit)
    → ((x ≡ out_of_fuel) ⊎ Agrees x y)
    → let out : LevelExit → LevelExit =
        λ r. elim bs [ [] ↦ bids_out s | _ ∷ _ ↦ elim ks [ [] ↦ asks_out s | _ ∷ _ ↦ r ] ] in
      (out x ≡ out_of_fuel) ⊎ Agrees (out x) (out y)
pick-Agrees s [] ks x y h = inr (inr refl)
pick-Agrees s (b ∷ bs) [] x y h = inr (inr refl)
pick-Agrees s (b ∷ bs) (k ∷ ks) x y h = h

match_level-Agrees :
    (f g : ℕ) (bids asks : List Order) (index : Index) (trades : List Trade)
    → let x = match_level f bids asks index trades in
      (x ≡ out_of_fuel) ⊎ Agrees x (match_level g bids asks index trades)
unfolding match_level
match_level-Agrees zero g bids asks ix ts = inl refl
match_level-Agrees (suc f) zero bids asks ix ts = inr (inl refl)
match_level-Agrees (suc f) (suc g) [] asks ix ts = inr (inr refl)
match_level-Agrees (suc f) (suc g) (b ∷ bids) [] ix ts = inr (inr refl)
match_level-Agrees (suc f) (suc g) (b ∷ bids) (a ∷ asks) ix ts =
    let s = trade_fronts b bids a asks ix ts in
    pick-Agrees s s.bids s.asks _ _ (match_level-Agrees f g s.bids s.asks s.index s.trades)

module _ (b : Level) (bs : List Level) (a : Level) (ls : List Level) (index : Index)
    (trades : List Trade) (crossed : ltb_ℤ b.price a.price ≡ false) where
  -- If the state after the inner loop spins, so does the state before it.
  Spins-before :
      (f : ℕ)
      → match_level f b.orders a.orders index trades ≢ out_of_fuel
      → ((g : ℕ) → after_level g b bs a ls (match_level f b.orders a.orders index trades) ≡ none)
      → Spins (b ∷ bs) (a ∷ ls) index trades
  unfolding match_loop after_level
  Spins-before f ends later zero = refl
  Spins-before f ends later (suc g) =
      match_loop-step g b bs a ls index trades crossed
      ∙ elim (match_level-Agrees f (suc g) b.orders a.orders index trades) [
        | inl e ↦ absurd (ends e)
        | inr (inl e) ↦ rw e
        | inr (inr e) ↦ rw e (later g)
      ]

-- An ask level without orders that the best bid reaches is never left.
pub empty_asks-Spins :
    (pb pa : ℤ) (os : List Order) (bs ls : List Level) (index : Index) (trades : List Trade)
    → ltb_ℤ pb pa ≡ false
    → Spins (level pb os ∷ bs) (level pa [] ∷ ls) index trades
unfolding match_loop match_level after_level
empty_asks-Spins pb pa os bs ls ix ts go zero = refl
empty_asks-Spins pb pa [] bs ls ix ts go (suc f) =
    match_loop-step f (level pb []) bs (level pa []) ls ix ts go
    ∙ empty_asks-Spins pb pa [] bs ls ix ts go f
empty_asks-Spins pb pa (o ∷ os) bs ls ix ts go (suc f) =
    match_loop-step f (level pb (o ∷ os)) bs (level pa []) ls ix ts go
    ∙ empty_asks-Spins pb pa (o ∷ os) bs ls ix ts go f

abbrev pub TailHasOrders : List Level → Type 0
TailHasOrders [] = Unit {0}
TailHasOrders (l ∷ ls) = All HasOrders ls

-- A state of the outer loop: all orders are open, and of the levels at most the best ask has none.
pub record IsAlive (bids asks : List Level) : Type 0 where
  pub bids_open : OpenLevels bids
  pub asks_open : OpenLevels asks
  pub bids_filled : All HasOrders bids
  pub asks_filled : TailHasOrders asks

abbrev pub Decided : ℕ → List Level → List Level → Index → List Trade → Type 0
Decided f bids asks ix ts = Returns f bids asks ix ts ⊎ Spins bids asks ix ts

abbrev Later : ℕ → Level → List Level → Level → List Level → LevelExit → Type 0
Later f b bs a ls x =
    ((m : Matching) × (after_level f b bs a ls x ≡ some m))
    ⊎ ((g : ℕ) → after_level g b bs a ls x ≡ none)

-- The round after an inner loop that has ended, given that the smaller states are decided.
after_level-Later :
    (f n : ℕ) (b : Level) (bs : List Level) (a : Level) (ls : List Level) (x : LevelExit)
    → HasEnded n x
    → IsAlive (b ∷ bs) (a ∷ ls)
    → n + weight bs + weight ls < f
    → ((bids asks : List Level) (index : Index) (trades : List Trade)
        → IsAlive bids asks
        → weight bids + weight asks ≤ n + 1 + weight bs + weight ls
        → Decided f bids asks index trades)
    → Later f b bs a ls x
unfolding after_level weight
after_level-Later f n b bs a ls (bids_out s) (e, opened, len) v h rec =
    rec bs (level a.price s.asks ∷ ls) s.index s.trades
      (record {
        bids_open = v.bids_open.1;
        asks_open = (opened, v.asks_open.1);
        bids_filled = v.bids_filled.1;
        asks_filled = v.asks_filled;
      })
      (omega arith)
after_level-Later f n b bs a ls (asks_out s) (e, filled, opened, len) v h rec =
    rec (level b.price s.bids ∷ bs) ls s.index s.trades
      (record {
        bids_open = (opened, v.bids_open.1);
        asks_open = v.asks_open.1;
        bids_filled = (filled, v.bids_filled.1);
        asks_filled = all_tail ls v.asks_filled;
      })
      (omega arith)
  where
    all_tail : (ks : List Level) → All HasOrders ks → TailHasOrders ks
    all_tail [] u = tt
    all_tail (k ∷ ks) u = u.1
after_level-Later f n b bs a ls (not_entered s) z v h rec = absurd z
after_level-Later f n b bs a ls out_of_fuel z v h rec = absurd z

HasEnded-ends : (n : ℕ) (x : LevelExit) → HasEnded n x → x ≢ out_of_fuel
HasEnded-ends n (bids_out s) h = λ e. cc
HasEnded-ends n (asks_out s) h = λ e. cc
HasEnded-ends n (not_entered s) h = absurd h
HasEnded-ends n out_of_fuel h = absurd h

orders_cases : (os : List Order) → (os ≡ []) ⊎ (os ≢ [])
orders_cases [] = inl refl
orders_cases (o ∷ os) = inr (λ e. cc)

-- If all orders are open and every level has some, but perhaps the best ask level, then with more fuel
-- than levels and orders the loops return or they spin: if that fuel is not enough, none is.
pub match_loop-Decided :
    (f : ℕ) (bids asks : List Level) (index : Index) (trades : List Trade)
    → IsAlive bids asks
    → weight bids + weight asks < f
    → Decided f bids asks index trades
unfolding match_loop weight
match_loop-Decided zero bids asks ix ts v h = elim h [ ]
match_loop-Decided (suc f) [] asks ix ts v h = inl (matching [] asks ix ts, refl)
match_loop-Decided (suc f) (b ∷ bs) [] ix ts v h = inl (matching (b ∷ bs) [] ix ts, refl)
match_loop-Decided (suc f) (b ∷ bs) (a ∷ ls) ix ts v h = elim (Bool-cases (ltb_ℤ b.price a.price)) [
  | inl stop ↦ inl (matching (b ∷ bs) (a ∷ ls) ix ts, match_loop-stop f b bs a ls ix ts stop)
  | inr go ↦ elim (orders_cases a.orders) [
    | inl empty ↦ inr (
        subst (λ os. Spins (b ∷ bs) (level a.price os ∷ ls) ix ts) (sym empty)
          (empty_asks-Spins b.price a.price b.orders bs ls ix ts go))
    | inr some_asks ↦
        let x = match_level (suc f) b.orders a.orders ix ts in
        let n = length b.orders + length a.orders in
        let ended : HasEnded n x =
          match_level-HasEnded (suc f) b.orders a.orders ix ts v.bids_open.0 v.asks_open.0
            v.bids_filled.0 some_asks (omega arith) in
        let later : Later f b bs a ls x =
          after_level-Later f n b bs a ls x ended v (omega arith)
            (λ bids asks ix' ts' w le. match_loop-Decided f bids asks ix' ts' w (omega arith)) in
        elim later [
          | inl (m, e) ↦ inl (m, match_loop-step f b bs a ls ix ts go ∙ e)
          | inr spins ↦
              inr (Spins-before b bs a ls ix ts go (suc f) (HasEnded-ends n x ended) spins)
        ]
  ]
]
