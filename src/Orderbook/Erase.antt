-- ===== src/Orderbook/Erase.antt =====
-- What `orders.erase(location)` of CancelOrder (Computing-Server/src/Orderbook/order_book.cpp) does
-- to the levels of a side, and that the node is there.
use mathlib.Core.Option.{some-injective}
use velocity_vortex.Base.{
  ℕ, ◌+◌, ◌≤◌, ◌≡◌, refl, sym, ap, subst, ◌∙◌, ◌⊎◌, inl, inr, true, false, some, List, [], ◌∷◌, All,
  arith, Bool-cases, Option-cases, ◌==◌,
}
use velocity_vortex.Base.Int.{ℤ}
use velocity_vortex.Orderbook.Order.{Order, Side, buy, sell}
use velocity_vortex.Orderbook.Level.{Level, level, before, erase_node, drop_empty, erase_order}
use velocity_vortex.Orderbook.Match.{Index, OrderEntry, find}
use velocity_vortex.Orderbook.Invariant.{IsBefore, IsSorted}
use velocity_vortex.Orderbook.Index.{same, nodes, side_nodes, Agrees, SideAgrees}

module _ (i : ℕ) where
  erase_node_inv {ℓ} :
      (R : List Order → Type ℓ) (o : Order) (os : List Order) {out : List Order}
      → ((o.order_id == i) ≡ true → R os)
      → ((rest : List Order) → erase_node i os ≡ some rest → R (o ∷ rest))
      → erase_node i (o ∷ os) ≡ some out
      → R out
  unfolding erase_node
  erase_node_inv R o os here later e = elim (Bool-cases (o.order_id == i)) [
    | inl t ↦ subst R (some-injective _ _ (rw t at e)) (here t)
    | inr t ↦ elim (Option-cases (erase_node i os)) [
      | inl n ↦ cc (rw (t, n) at e)
      | inr (rest, n) ↦ subst R (some-injective _ _ (rw (t, n) at e)) (later rest n)
    ]
  ]

  nodes-erase_node :
      (j : ℕ) (os : List Order) {out : List Order}
      → erase_node i os ≡ some out
      → nodes j os ≡ same i j + nodes j out
  unfolding nodes erase_node
  nodes-erase_node j [] e = cc
  nodes-erase_node j (o ∷ os) e =
      erase_node_inv (λ out. nodes j (o ∷ os) ≡ same i j + nodes j out) o os (λ t. ground arith)
        (λ rest n. omega (arith, nodes-erase_node j os n)) e

  All-erase_node {κ} :
      (Q : Order → Type κ) (os : List Order) {out : List Order}
      → erase_node i os ≡ some out
      → All Q os
      → All Q out
  unfolding erase_node
  All-erase_node Q [] e a = cc
  All-erase_node Q (o ∷ os) e a =
      erase_node_inv (All Q) o os (λ t. a.1) (λ rest n. (a.0, All-erase_node Q os n a.1)) e

  erase_node_found :
      (os : List Order) → 1 ≤ nodes i os → (out : List Order) × (erase_node i os ≡ some out)
  unfolding nodes erase_node
  erase_node_found [] h = elim h [ ]
  erase_node_found (o ∷ os) h = elim (Bool-cases (o.order_id == i)) [
    | inl t ↦ (os, rw t)
    | inr t ↦ let r = erase_node_found os (ground arith) in (o ∷ r.0, rw (t, r.1))
  ]

pub drop_empty_cases {ℓ} :
    (R : List Level → Type ℓ) (p : ℤ) (os : List Order) (ls : List Level)
    → (os ≡ [] → R ls)
    → R (level p os ∷ ls)
    → R (drop_empty p os ls)
unfolding drop_empty
drop_empty_cases R p [] ls none_left left = none_left refl
drop_empty_cases R p (o ∷ os) ls none_left left = left

module _ (s : Side) (p : ℤ) (i : ℕ) where
  -- The node goes from a later level or from this one, which goes too if it was the only one.
  pub erase_order_inv {ℓ} :
      (R : List Level → Type ℓ) (l : Level) (ls : List Level) {out : List Level}
      → ((rest : List Level) → erase_order s p i ls ≡ some rest → R (l ∷ rest))
      → ((os : List Order) → erase_node i l.orders ≡ some os → R (drop_empty l.price os ls))
      → erase_order s p i (l ∷ ls) ≡ some out
      → R out
  unfolding erase_order
  erase_order_inv R l ls later here e = elim (Bool-cases (before s l.price p)) [
    | inl t ↦ elim (Option-cases (erase_order s p i ls)) [
      | inl n ↦ cc (rw (t, n) at e)
      | inr (rest, n) ↦ subst R (some-injective _ _ (rw (t, n) at e)) (later rest n)
    ]
    | inr t ↦ elim (Bool-cases (before s p l.price)) [
      | inl t' ↦ cc (rw (t, t') at e)
      | inr t' ↦ elim (Option-cases (erase_node i l.orders)) [
        | inl n ↦ cc (rw (t, t', n) at e)
        | inr (os, n) ↦ subst R (some-injective _ _ (rw (t, t', n) at e)) (here os n)
      ]
    ]
  ]

  pub side_nodes-erase_order :
      (j : ℕ) (ls : List Level) {out : List Level}
      → erase_order s p i ls ≡ some out
      → side_nodes j ls ≡ same i j + side_nodes j out
  unfolding side_nodes erase_order nodes
  side_nodes-erase_order j [] e = cc
  side_nodes-erase_order j (l ∷ ls) e =
      let R = λ (out : List Level). side_nodes j (l ∷ ls) ≡ same i j + side_nodes j out in
      erase_order_inv R l ls (λ rest n. omega (arith, side_nodes-erase_order j ls n))
        (λ os n.
          drop_empty_cases R l.price os ls
            (λ z. omega (arith, nodes-erase_node i j l.orders n, ap (nodes j) z))
            (omega (arith, nodes-erase_node i j l.orders n)))
        e

  -- What holds of each order and its level's price still holds.
  pub All-erase_order {κ} :
      (Q : ℤ → Order → Type κ) (ls : List Level) {out : List Level}
      → erase_order s p i ls ≡ some out
      → All (λ l. All (Q l.price) l.orders) ls
      → All (λ l. All (Q l.price) l.orders) out
  unfolding erase_order
  All-erase_order Q [] e a = cc
  All-erase_order Q (l ∷ ls) e a =
      let R = All (λ (k : Level). All (Q k.price) k.orders) in
      erase_order_inv R l ls (λ rest n. (a.0, All-erase_order Q ls n a.1))
        (λ os n.
          drop_empty_cases R l.price os ls (λ z. a.1)
            (All-erase_node i (Q l.price) l.orders n a.0, a.1))
        e

  IsBefore-erase_order :
      (q : ℤ) (ls : List Level) {out : List Level}
      → erase_order s p i ls ≡ some out
      → IsBefore s q ls
      → IsBefore s q out
  unfolding erase_order
  IsBefore-erase_order q [] e b = cc
  IsBefore-erase_order q (l ∷ ls) e b =
      erase_order_inv (IsBefore s q) l ls (λ rest n. (b.0, IsBefore-erase_order q ls n b.1))
        (λ os n. drop_empty_cases (IsBefore s q) l.price os ls (λ z. b.1) b) e

  pub erase_order-IsSorted :
      (ls : List Level) {out : List Level}
      → erase_order s p i ls ≡ some out
      → IsSorted s ls
      → IsSorted s out
  unfolding erase_order
  erase_order-IsSorted [] e v = cc
  erase_order-IsSorted (l ∷ ls) e v =
      erase_order_inv (IsSorted s) l ls
        (λ rest n. (IsBefore-erase_order l.price ls n v.0, erase_order-IsSorted ls n v.1))
        (λ os n. drop_empty_cases (IsSorted s) l.price os ls (λ z. v.1) v) e

-- An order of the queue has the entry that the queue says.
agree_node :
    (s : Side) (q : ℤ) (ix : Index) (i : ℕ) {entry : OrderEntry} (os : List Order)
    → Agrees s q ix os
    → find i ix ≡ some entry
    → 1 ≤ nodes i os
    → entry ≡ record { side = s; price = q }
unfolding nodes
agree_node s q ix i [] a f h = elim h [ ]
agree_node s q ix i (o ∷ os) a f h = elim (Bool-cases (o.order_id == i)) [
  | inl t ↦ some-injective _ _ (sym f ∙ (ap (λ k. find k ix) (sym (ids t)) ∙ a.0))
  | inr t ↦ agree_node s q ix i os a.1 f (ground arith)
]
  where
    ids : (o.order_id == i) ≡ true → o.order_id ≡ i
    ids t = ground arith

zero_or_more : (n : ℕ) → (n ≡ 0) ⊎ (1 ≤ n)
zero_or_more n = grind arith

pub agree_side :
    (s : Side) (ix : Index) (i : ℕ) {entry : OrderEntry} (ls : List Level)
    → SideAgrees s ix ls
    → find i ix ≡ some entry
    → 1 ≤ side_nodes i ls
    → (entry.side ≡ s) × ((q : ℤ) → IsBefore s q ls → before s q entry.price ≡ true)
unfolding side_nodes
agree_side s ix i [] a f h = elim h [ ]
agree_side s ix i {entry} (l ∷ ls) a f h = elim (zero_or_more (nodes i l.orders)) [
  | inl z ↦ let (e, b) = agree_side s ix i ls a.1 f (omega arith) in (e, λ q k. b q k.1)
  | inr m ↦
      let e = agree_node s l.price ix i l.orders a.0 f m in
      (ap (λ (t : OrderEntry). t.side) e, λ q k. rw e k.0)
]

before_irrefl : (s : Side) (p : ℤ) → before s p p ≡ false
before_irrefl buy p = ground arith
before_irrefl sell p = ground arith

-- The entry of a resting order leads to its node: the iterator does not dangle.
pub erase_order_found :
    (s : Side) (ix : Index) (i : ℕ) {entry : OrderEntry} (ls : List Level)
    → IsSorted s ls
    → SideAgrees s ix ls
    → find i ix ≡ some entry
    → 1 ≤ side_nodes i ls
    → (out : List Level) × (erase_order s entry.price i ls ≡ some out)
unfolding side_nodes erase_order
erase_order_found s ix i [] v a f h = elim h [ ]
erase_order_found s ix i {entry} (l ∷ ls) v a f h = elim (zero_or_more (nodes i l.orders)) [
  | inl z ↦
      let below = (agree_side s ix i ls a.1 f (omega arith)).1 l.price v.0 in
      let r = erase_order_found s ix i ls v.1 a.1 f (omega arith) in (l ∷ r.0, rw (below, r.1))
  | inr m ↦
      let e = ap (λ (t : OrderEntry). t.price) (agree_node s l.price ix i l.orders a.0 f m) in
      let r = erase_node_found i l.orders m in
      (drop_empty l.price r.0 ls, rw (e, before_irrefl s l.price, r.1))
]
