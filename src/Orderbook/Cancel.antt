-- ===== src/Orderbook/Cancel.antt =====
-- `Orderbook::CancelOrder`, Computing-Server/src/Orderbook/order_book.cpp.
use velocity_vortex.Base.{
  ℕ, ◌+◌, ◌-◌, ◌≤◌, ◌≡◌, refl, ◌∙◌, ◌⊎◌, inl, inr, false, none, some, List, [], ◌∷◌, arith,
}
use velocity_vortex.Base.Int.{ℤ}
use velocity_vortex.Orderbook.Order.{Order, Side, buy, sell}
use velocity_vortex.Orderbook.Level.{Level, level, erase_order}
use velocity_vortex.Orderbook.Match.{Index, OrderEntry, find, erase}
use velocity_vortex.Orderbook.Book.{
  Orderbook, Outcome, done, dangling, cancel_order, cancel_locked, held, unlock, levels,
  with_levels,
}
use velocity_vortex.Orderbook.Invariant.{IsResting, IsSorted, IsUncrossed}
use velocity_vortex.Orderbook.Index.{
  IsIndexed, keys, same, side_nodes, keys-erase, SideAgrees-erase, same_self,
}
use velocity_vortex.Orderbook.Erase.{
  erase_order_inv, drop_empty_cases, side_nodes-erase_order, All-erase_order, erase_order-IsSorted,
  erase_order_found, agree_side,
}
use velocity_vortex.Orderbook.Valid.{IsValid}

IsUncrossed-nil : (ls : List Level) → IsUncrossed ls []
IsUncrossed-nil [] = tt
IsUncrossed-nil (l ∷ ls) = tt

next_bids :
    (b : Level) (bs asks : List Level)
    → IsSorted buy (b ∷ bs)
    → IsUncrossed (b ∷ bs) asks
    → IsUncrossed bs asks
next_bids b [] asks v u = tt
next_bids b (c ∷ bs) [] v u = tt
next_bids b (c ∷ bs) (a ∷ ls) v u = ground (arith, v.0.0)

next_asks :
    (bids : List Level) (a : Level) (ls : List Level)
    → IsSorted sell (a ∷ ls)
    → IsUncrossed bids (a ∷ ls)
    → IsUncrossed bids ls
next_asks [] a ls v u = tt
next_asks (b ∷ bs) a [] v u = tt
next_asks (b ∷ bs) a (k ∷ ls) v u = ground (arith, v.0.0)

same_price :
    (b : Level) (bs cs : List Level) (os : List Order) (asks : List Level)
    → IsUncrossed (b ∷ bs) asks
    → IsUncrossed (level b.price os ∷ cs) asks
same_price b bs cs os [] u = tt
same_price b bs cs os (a ∷ ls) u = u

same_ask_price :
    (bids : List Level) (a : Level) (ls ks : List Level) (os : List Order)
    → IsUncrossed bids (a ∷ ls)
    → IsUncrossed bids (level a.price os ∷ ks)
same_ask_price [] a ls ks os u = tt
same_ask_price (b ∷ bs) a ls ks os u = u

erase_bid-IsUncrossed :
    (p : ℤ) (i : ℕ) (bids asks : List Level) {out : List Level}
    → IsSorted buy bids
    → IsUncrossed bids asks
    → erase_order buy p i bids ≡ some out
    → IsUncrossed out asks
unfolding erase_order
erase_bid-IsUncrossed p i [] asks v u e = cc
erase_bid-IsUncrossed p i (b ∷ bs) asks v u e =
    let R = λ (out : List Level). IsUncrossed out asks in
    erase_order_inv buy p i R b bs (λ rest n. same_price b bs rest b.orders asks u)
      (λ os n.
        drop_empty_cases R b.price os bs (λ z. next_bids b bs asks v u)
          (same_price b bs bs os asks u))
      e

erase_ask-IsUncrossed :
    (p : ℤ) (i : ℕ) (bids asks : List Level) {out : List Level}
    → IsSorted sell asks
    → IsUncrossed bids asks
    → erase_order sell p i asks ≡ some out
    → IsUncrossed bids out
unfolding erase_order
erase_ask-IsUncrossed p i bids [] v u e = cc
erase_ask-IsUncrossed p i bids (a ∷ ls) v u e =
    let R = IsUncrossed bids in
    erase_order_inv sell p i R a ls (λ rest n. same_ask_price bids a ls rest a.orders u)
      (λ os n.
        drop_empty_cases R a.price os ls (λ z. next_asks bids a ls v u)
          (same_ask_price bids a ls ls os u))
      e

module _ (i : ℕ) (p : ℤ) {bids asks out : List Level} {ix : Index}
    (v : IsIndexed bids asks ix) where
  erase_bid-IsIndexed : erase_order buy p i bids ≡ some out → IsIndexed out asks (erase i ix)
  erase_bid-IsIndexed e =
      let nodes_of = λ (j : ℕ). side_nodes-erase_order buy p i j bids e in
      let gone : side_nodes i out + side_nodes i asks ≡ 0 =
        omega (arith, v.counts i, v.unique i, same_self i, nodes_of i) in
      record {
        counts = λ j. omega (arith, keys-erase i j ix, v.counts j, nodes_of j);
        unique = λ j. omega (arith, keys-erase i j ix, v.unique j);
        bids_agree = SideAgrees-erase buy i ix out (omega arith) (
            All-erase_order buy p i
              (λ q o. find o.order_id ix ≡ some (record { side = buy; price = q })) bids e
              v.bids_agree);
        asks_agree = SideAgrees-erase sell i ix asks (omega arith) v.asks_agree;
      }

  erase_ask-IsIndexed : erase_order sell p i asks ≡ some out → IsIndexed bids out (erase i ix)
  erase_ask-IsIndexed e =
      let nodes_of = λ (j : ℕ). side_nodes-erase_order sell p i j asks e in
      let gone : side_nodes i bids + side_nodes i out ≡ 0 =
        omega (arith, v.counts i, v.unique i, same_self i, nodes_of i) in
      record {
        counts = λ j. omega (arith, keys-erase i j ix, v.counts j, nodes_of j);
        unique = λ j. omega (arith, keys-erase i j ix, v.unique j);
        bids_agree = SideAgrees-erase buy i ix bids (omega arith) v.bids_agree;
        asks_agree = SideAgrees-erase sell i ix out (omega arith) (
            All-erase_order sell p i
              (λ q o. find o.order_id ix ≡ some (record { side = sell; price = q })) asks e
              v.asks_agree);
      }

-- The book once the node of `i` is out of this side's levels.
abbrev pub cancelled : ℕ → Side → Orderbook → List Level → Orderbook
cancelled i s b ls = unlock (record (with_levels s (held b) ls) { orders = erase i b.orders })

cancelled-IsValid :
    (i : ℕ) (s : Side) (p : ℤ) (b : Orderbook) (out : List Level)
    → IsValid b
    → erase_order s p i (levels s b) ≡ some out
    → IsValid (cancelled i s b out)
cancelled-IsValid i buy p b out v e = record {
  unlocked = refl;
  bids_resting = All-erase_order buy p i (IsResting buy) b.bids e v.bids_resting;
  bids_sorted = erase_order-IsSorted buy p i b.bids e v.bids_sorted;
  asks_resting = v.asks_resting;
  asks_sorted = v.asks_sorted;
  uncrossed = erase_bid-IsUncrossed p i b.bids b.asks v.bids_sorted v.uncrossed e;
  indexed = erase_bid-IsIndexed i p v.indexed e;
}
cancelled-IsValid i sell p b out v e = record {
  unlocked = refl;
  bids_resting = v.bids_resting;
  bids_sorted = v.bids_sorted;
  asks_resting = All-erase_order sell p i (IsResting sell) b.asks e v.asks_resting;
  asks_sorted = erase_order-IsSorted sell p i b.asks e v.asks_sorted;
  uncrossed = erase_ask-IsUncrossed p i b.bids b.asks v.asks_sorted v.uncrossed e;
  indexed = erase_ask-IsIndexed i p v.indexed e;
}

keys_of_find : (i : ℕ) (ix : Index) {entry : OrderEntry} → find i ix ≡ some entry → 1 ≤ keys i ix
unfolding find keys
keys_of_find i [] e = cc
keys_of_find i ((j, x) ∷ ix) {entry} e = ground (arith, keys_of_find i ix {entry = entry})

-- The entry's side has the order.
find_side :
    (i : ℕ) (b : Orderbook) {entry : OrderEntry}
    → IsValid b
    → find i b.orders ≡ some entry
    → (out : List Level) × (erase_order entry.side entry.price i (levels entry.side b) ≡ some out)
find_side i b {entry} v f = elim (on_a_side (side_nodes i b.bids) (side_nodes i b.asks) some_node) [
  | inl h ↦
      let side = (agree_side buy b.orders i b.bids v.indexed.bids_agree f h).0 in
      let r = erase_order_found buy b.orders i b.bids v.bids_sorted v.indexed.bids_agree f h in
      (r.0, rw side r.1)
  | inr h ↦
      let side = (agree_side sell b.orders i b.asks v.indexed.asks_agree f h).0 in
      let r = erase_order_found sell b.orders i b.asks v.asks_sorted v.indexed.asks_agree f h in
      (r.0, rw side r.1)
]
  where
    on_a_side : (m n : ℕ) → 1 ≤ m + n → (1 ≤ m) ⊎ (1 ≤ n)
    on_a_side m n h = grind arith

    some_node : 1 ≤ side_nodes i b.bids + side_nodes i b.asks
    some_node = omega (arith, v.indexed.counts i, keys_of_find i b.orders f)

cancel_order-held :
    (i : ℕ) (b : Orderbook) → b.mutex ≡ false → cancel_order i b ≡ cancel_locked i (held b)
unfolding cancel_order
cancel_order-held i b free = rw free

cancel_order-found :
    (i : ℕ) (b : Orderbook) (entry : OrderEntry) (out : List Level)
    → b.mutex ≡ false
    → find i b.orders ≡ some entry
    → erase_order entry.side entry.price i (levels entry.side b) ≡ some out
    → cancel_order i b ≡ done (cancelled i entry.side b out)
unfolding cancel_order
cancel_order-found i b entry out free f e =
    cancel_order-held i b free ∙ rw (f, cancel_locked) (by_side entry.side e)
  where
    by_side :
        (s : Side)
        → erase_order s entry.price i (levels s b) ≡ some out
        → (elim (erase_order s entry.price i (levels s (held b))) as (λ x. Outcome Orderbook) [
          | none ↦ dangling
          | some ls ↦
              done (unlock (record (with_levels s (held b) ls) { orders = erase i b.orders }))
        ])
          ≡ done (cancelled i s b out)
    by_side buy h = rw h
    by_side sell h = rw h

-- Cancelling an order that is in a valid book succeeds, on either side: no iterator dangles. The book stays
-- valid, and just the entry of that id is gone from `orders_`.
pub cancel_order_found :
    (i : ℕ) (b : Orderbook) {entry : OrderEntry}
    → IsValid b
    → find i b.orders ≡ some entry
    → (b' : Orderbook) × (cancel_order i b ≡ done b')
      × IsValid b'
      × ((j : ℕ) → keys j b'.orders ≡ keys j b.orders - same i j)
unfolding cancel_order
cancel_order_found i b {entry} v f =
    let r = find_side i b v f in
    (
      cancelled i entry.side b r.0,
      cancel_order-found i b entry r.0 v.unlocked f r.1,
      cancelled-IsValid i entry.side entry.price b r.0 v r.1,
      λ j. keys-erase i j b.orders,
    )

-- If the mutex is free, cancelling an id that the book does not have changes nothing.
pub cancel_order_missing :
    (i : ℕ) (b : Orderbook) → b.mutex ≡ false → find i b.orders ≡ none → cancel_order i b ≡ done b
unfolding cancel_order
cancel_order_missing i b free f = ground arith
