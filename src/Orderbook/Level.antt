-- ===== src/Orderbook/Level.antt =====
-- The two sides of the book: std::map<Price, std::list<OrderPointer>, Compare>, as a list of price
-- levels in the order of the map, which is std::greater for bids_ and std::less for asks_.
use velocity_vortex.Base.{ℕ, Bool, Option, none, some, List, [], ◌∷◌, ◌++◌, ◌==◌, if◌then◌else◌}
use velocity_vortex.Base.Int.{ℤ, ltb_ℤ}
use velocity_vortex.Orderbook.Order.{Order, Side, buy, sell}

pub record Level : Type 0 where
  pub price : ℤ
  pub orders : List Order

abbrev pub level : ℤ → List Order → Level
level p os = record { price = p; orders = os }

-- The comparison of the side's map: the better price comes first.
abbrev pub before : Side → ℤ → ℤ → Bool
before buy a b = ltb_ℤ b a
before sell a b = ltb_ℤ a b

-- `auto &orders = map[price]; orders.push_back(order);`: a level that is not there is made.
unfoldable pub push_back : Side → Order → List Level → List Level
push_back s o [] = record { price = o.price; orders = o ∷ [] } ∷ []
push_back s o (l ∷ ls) =
    if before s l.price o.price
    then l ∷ push_back s o ls
    else if before s o.price l.price
    then record { price = o.price; orders = o ∷ [] } ∷ l ∷ ls
    else record l { orders = l.orders ++ (o ∷ []) } ∷ ls

-- `orders.erase(location)`, where the location is that of the order with this id. `none`: there is
-- no such node, so that the iterator dangles.
unfoldable pub erase_node : ℕ → List Order → Option (List Order)
erase_node i [] = none
erase_node i (o ∷ os) =
    if o.order_id == i
    then some os
    else elim (erase_node i os) [ none ↦ none | some rest ↦ some (o ∷ rest) ]

-- A level without orders is taken out of the map.
unfoldable pub drop_empty : ℤ → List Order → List Level → List Level
drop_empty p [] ls = ls
drop_empty p (o ∷ os) ls = record { price = p; orders = o ∷ os } ∷ ls

-- The rest of CancelOrder on one side: `auto &orders = map[price]; orders.erase(location);
-- if (orders.empty()) map.erase(price);`
unfoldable pub erase_order : Side → ℤ → ℕ → List Level → Option (List Level)
erase_order s p i [] = none
erase_order s p i (l ∷ ls) =
    if before s l.price p
    then elim (erase_order s p i ls) [ none ↦ none | some rest ↦ some (l ∷ rest) ]
    else if before s p l.price
    then none
    else elim (erase_node i l.orders) [ none ↦ none | some os ↦ some (drop_empty l.price os ls) ]
