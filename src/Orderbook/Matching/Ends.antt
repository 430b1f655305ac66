-- ===== src/Orderbook/Matching/Ends.antt =====
-- When the loops of `MatchOrders` (Computing-Server/src/Orderbook/order_book.cpp) end.
use velocity_vortex.Base.{
  ℕ, zero, suc, ◌+◌, ◌≤◌, ◌<◌, ◌≡◌, refl, ◌≢◌, List, [], ◌∷◌, All, length, arith,
}
use velocity_vortex.Orderbook.Order.{Order, Trade}
use velocity_vortex.Orderbook.Match.{
  Index, Front, LevelExit, bids_out, asks_out, not_entered, out_of_fuel, trade_fronts, match_level,
}
use velocity_vortex.Orderbook.Matching.Exchange.{
  Exchange, nothing, both_filled, bid_filled, ask_filled, trade_fronts-Exchange,
}

abbrev pub IsOpen : Order → Type 0
IsOpen o = 0 < o.remaining_quantity

-- With open orders a round fills at least one of them.
pub record Progress (bids asks : List Order) (s : Front) : Type 0 where
  pub open_bids : All IsOpen s.bids
  pub open_asks : All IsOpen s.asks
  pub fewer : length s.bids + length s.asks < length bids + length asks

Exchange-Progress :
    {bid : Order} {bids : List Order} {ask : Order} {asks : List Order} {index : Index}
    {trades : List Trade} {s : Front}
    → Exchange bid bids ask asks index trades s
    → All IsOpen (bid ∷ bids)
    → All IsOpen (ask ∷ asks)
    → Progress (bid ∷ bids) (ask ∷ asks) s
Exchange-Progress (nothing z e) ob oa = absurd (grind arith)
Exchange-Progress (both_filled p q e) ob oa =
    rw e (record { open_bids = ob.1; open_asks = oa.1; fewer = omega arith })
Exchange-Progress (bid_filled p q e) ob oa =
    rw e (record { open_bids = ob.1; open_asks = (omega arith, oa.1); fewer = omega arith })
Exchange-Progress (ask_filled p q e) ob oa =
    rw e (record { open_bids = (omega arith, ob.1); open_asks = oa.1; fewer = omega arith })

-- The inner loop has ended by erasing the level of one side; what is left in the other is open.
abbrev pub HasEnded : ℕ → LevelExit → Type 0
HasEnded n (bids_out s) = (s.bids ≡ []) × All IsOpen s.asks × (length s.asks ≤ n)
HasEnded n (asks_out s) = (s.asks ≡ []) × (s.bids ≢ []) × All IsOpen s.bids × (length s.bids ≤ n)
HasEnded n (not_entered s) = ⊥
HasEnded n out_of_fuel = ⊥

ended_cases :
    (n : ℕ) (s : Front) (bs ks : List Order) (rest : LevelExit)
    → s.bids ≡ bs
    → s.asks ≡ ks
    → All IsOpen bs
    → All IsOpen ks
    → length bs + length ks ≤ n
    → (bs ≢ [] → ks ≢ [] → HasEnded n rest)
    → HasEnded n (elim bs [ [] ↦ bids_out s | _ ∷ _ ↦ elim ks [ [] ↦ asks_out s | _ ∷ _ ↦ rest ] ])
ended_cases n s [] ks rest e e' ob oa h r = (e, rw e' oa, rw e' (omega arith))
ended_cases n s (x ∷ bs) [] rest e e' ob oa h r = (e', (λ z. cc), rw e ob, rw e (omega arith))
ended_cases n s (x ∷ bs) (y ∷ ks) rest e e' ob oa h r = r (λ z. cc) (λ z. cc)

HasEnded-mono : {m n : ℕ} (x : LevelExit) → m ≤ n → HasEnded m x → HasEnded n x
HasEnded-mono (bids_out s) h (e, o, l) = (e, o, omega arith)
HasEnded-mono (asks_out s) h (e, d, o, l) = (e, d, o, omega arith)
HasEnded-mono (not_entered s) h z = z
HasEnded-mono out_of_fuel h z = z

-- With two open queues and as much fuel as orders the inner loop ends.
pub match_level-HasEnded :
    (f : ℕ) (bids asks : List Order) (index : Index) (trades : List Trade)
    → All IsOpen bids
    → All IsOpen asks
    → bids ≢ []
    → asks ≢ []
    → length bids + length asks ≤ f
    → HasEnded (length bids + length asks) (match_level f bids asks index trades)
unfolding match_level
match_level-HasEnded f [] asks ix ts ob oa nb na h = absurd (nb refl)
match_level-HasEnded f (b ∷ bids) [] ix ts ob oa nb na h = absurd (na refl)
match_level-HasEnded zero (b ∷ bids) (a ∷ asks) ix ts ob oa nb na h = absurd (omega arith)
match_level-HasEnded (suc f) (b ∷ bids) (a ∷ asks) ix ts ob oa nb na h =
    let s = trade_fronts b bids a asks ix ts in
    let p = Exchange-Progress (trade_fronts-Exchange b bids a asks ix ts) ob oa in
    ended_cases _ s s.bids s.asks _ refl refl p.open_bids p.open_asks (omega arith) λ nb' na'.
      HasEnded-mono _ (omega arith) (
        match_level-HasEnded f s.bids s.asks s.index s.trades p.open_bids p.open_asks nb' na'
          (omega arith))
