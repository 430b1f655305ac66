-- ===== src/Orderbook/Index.antt =====
-- `orders_` (Computing-Server/include/Orderbook/order_book.hpp) beside the two sides of the book:
-- it has one entry for each resting order, with that order's side and price, and no other.
use velocity_vortex.Base.{
  ℕ, ◌+◌, ◌-◌, ◌≤◌, ◌≡◌, refl, ap, ◌⊎◌, inl, inr, some, List, [], ◌∷◌, All, arith, ◌==◌,
  if◌then◌else◌,
}
use velocity_vortex.Base.Int.{ℤ}
use velocity_vortex.Orderbook.Order.{Order, Side, buy, sell}
use velocity_vortex.Orderbook.Level.{Level}
use velocity_vortex.Orderbook.Match.{Index, OrderEntry, find, erase}

abbrev pub same : ℕ → ℕ → ℕ
same i j = if i == j then 1 else 0

-- How often an id occurs in the index, in a queue and on a side.
unfoldable pub keys : ℕ → Index → ℕ
keys i [] = 0
keys i ((j, e) ∷ m) = same j i + keys i m

unfoldable pub nodes : ℕ → List Order → ℕ
nodes i [] = 0
nodes i (o ∷ os) = same o.order_id i + nodes i os

unfoldable pub side_nodes : ℕ → List Level → ℕ
side_nodes i [] = 0
side_nodes i (l ∷ ls) = nodes i l.orders + side_nodes i ls

-- The entries of the orders of one queue, and of one side.
abbrev pub Agrees : Side → ℤ → Index → List Order → Type 0
Agrees s p ix = All (λ o. find o.order_id ix ≡ some (record { side = s; price = p }))

abbrev pub SideAgrees : Side → Index → List Level → Type 0
SideAgrees s ix = All (λ l. Agrees s l.price ix l.orders)

pub record IsIndexed (bids asks : List Level) (ix : Index) : Type 0 where
  pub counts : (i : ℕ) → keys i ix ≡ side_nodes i bids + side_nodes i asks
  pub unique : (i : ℕ) → keys i ix ≤ 1
  pub bids_agree : SideAgrees buy ix bids
  pub asks_agree : SideAgrees sell ix asks

pub keys-erase : (i j : ℕ) (ix : Index) → keys j (erase i ix) ≡ keys j ix - same i j
unfolding keys erase
keys-erase i j [] = ground arith
keys-erase i j ((k, e) ∷ ix) = ground (arith, keys-erase i j ix)

find-erase : (i j : ℕ) (ix : Index) → same j i ≡ 0 → find j (erase i ix) ≡ find j ix
unfolding find erase
find-erase i j [] h = refl
find-erase i j ((k, e) ∷ ix) h = ground (arith, find-erase i j ix h)

pub Agrees-erase :
    (s : Side) (p : ℤ) (i : ℕ) (ix : Index) (os : List Order)
    → nodes i os ≡ 0
    → Agrees s p ix os
    → Agrees s p (erase i ix) os
unfolding nodes
Agrees-erase s p i ix [] h a = tt
Agrees-erase s p i ix (o ∷ os) h a =
    (rw (find-erase i o.order_id ix (omega arith)) a.0, Agrees-erase s p i ix os (omega arith) a.1)

pub SideAgrees-erase :
    (s : Side) (i : ℕ) (ix : Index) (ls : List Level)
    → side_nodes i ls ≡ 0
    → SideAgrees s ix ls
    → SideAgrees s (erase i ix) ls
unfolding side_nodes
SideAgrees-erase s i ix [] h a = tt
SideAgrees-erase s i ix (l ∷ ls) h a = (
  Agrees-erase s l.price i ix l.orders (omega arith) a.0,
  SideAgrees-erase s i ix ls (omega arith) a.1,
)

pub same_self : (i : ℕ) → same i i ≡ 1
same_self i = ground arith

-- An entry for an id that no order of the queue has.
Agrees-cons :
    (s : Side) (p : ℤ) (i : ℕ) (entry : OrderEntry) (ix : Index) (os : List Order)
    → nodes i os ≡ 0
    → Agrees s p ix os
    → Agrees s p ((i, entry) ∷ ix) os
unfolding nodes find
Agrees-cons s p i entry ix [] h a = tt
Agrees-cons s p i entry ix (o ∷ os) h a =
    (ground arith, Agrees-cons s p i entry ix os (omega arith) a.1)

pub SideAgrees-cons :
    (s : Side) (i : ℕ) (entry : OrderEntry) (ix : Index) (ls : List Level)
    → side_nodes i ls ≡ 0
    → SideAgrees s ix ls
    → SideAgrees s ((i, entry) ∷ ix) ls
unfolding side_nodes
SideAgrees-cons s i entry ix [] h a = tt
SideAgrees-cons s i entry ix (l ∷ ls) h a = (
  Agrees-cons s l.price i entry ix l.orders (omega arith) a.0,
  SideAgrees-cons s i entry ix ls (omega arith) a.1,
)

pub keys-cons_le :
    (i j : ℕ) (entry : OrderEntry) (ix : Index)
    → keys i ix ≡ 0
    → keys j ix ≤ 1
    → keys j ((i, entry) ∷ ix) ≤ 1
unfolding keys
keys-cons_le i j entry ix z h = elim (same_cases i j) [
  | inl n ↦ omega arith
  | inr (e, n) ↦ omega (arith, ap (λ k. keys k ix) e)
]
  where
    same_cases : (i j : ℕ) → (same i j ≡ 0) ⊎ ((i ≡ j) × (same i j ≡ 1))
    same_cases i j = ground arith

pub find-cons_self :
    (i : ℕ) (entry : OrderEntry) (ix : Index) → find i ((i, entry) ∷ ix) ≡ some entry
unfolding find
find-cons_self i entry ix = ground arith
