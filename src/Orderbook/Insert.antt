-- ===== src/Orderbook/Insert.antt =====
-- What `bids_[price].push_back(order)` (Computing-Server/src/Orderbook/order_book.cpp) does to the
-- levels of a side.
use velocity_vortex.Base.{
  ℕ, ◌+◌, ◌≡◌, refl, sym, subst, inl, inr, true, false, List, [], ◌∷◌, ◌++◌, All-append, arith,
  Bool-cases, some,
}
use velocity_vortex.Base.Int.{ℤ, eq_of_parts}
use velocity_vortex.Orderbook.Order.{Order, Side, buy, sell}
use velocity_vortex.Orderbook.Level.{Level, level, before, push_back}
use velocity_vortex.Orderbook.Match.{Index, find}
use velocity_vortex.Orderbook.Invariant.{IsResting, AllResting, IsBefore, IsSorted}
use velocity_vortex.Orderbook.Index.{same, nodes, side_nodes, SideAgrees}
use velocity_vortex.Orderbook.Matching.Volume.{volume, book_volume}

pub before_trans :
    (s : Side) (a b c : ℤ) → before s a b ≡ true → before s b c ≡ true → before s a c ≡ true
before_trans buy a b c h k = ground arith
before_trans sell a b c h k = ground arith

pub eq_of_before : (s : Side) (a b : ℤ) → before s a b ≡ false → before s b a ≡ false → a ≡ b
eq_of_before buy a b h k = eq_of_parts a b (ground arith)
eq_of_before sell a b h k = eq_of_parts a b (ground arith)

module _ (s : Side) (o : Order) where
  -- The order's level comes later, is new before this one, or is this one.
  pub push_back_cases {ℓ} :
      (P : List Level → Type ℓ) (l : Level) (ls : List Level)
      → (before s l.price o.price ≡ true → P (l ∷ push_back s o ls))
      → (before s o.price l.price ≡ true → P (level o.price (o ∷ []) ∷ l ∷ ls))
      → (l.price ≡ o.price → P (level l.price (l.orders ++ (o ∷ [])) ∷ ls))
      → P (push_back s o (l ∷ ls))
  unfolding push_back
  push_back_cases P l ls later new here = elim (Bool-cases (before s l.price o.price)) [
    | inl e ↦ rw e (later e)
    | inr e ↦ elim (Bool-cases (before s o.price l.price)) [
      | inl e' ↦ rw (e, e') (new e')
      | inr e' ↦ rw (e, e') (here (eq_of_before s l.price o.price e e'))
    ]
  ]

  pub IsBefore-push_back :
      (p : ℤ) (ls : List Level)
      → before s p o.price ≡ true
      → IsBefore s p ls
      → IsBefore s p (push_back s o ls)
  unfolding push_back
  IsBefore-push_back p [] h k = (h, tt)
  IsBefore-push_back p (l ∷ ls) h k =
      push_back_cases (IsBefore s p) l ls (λ e. (k.0, IsBefore-push_back p ls h k.1)) (λ e. (h, k))
        (λ e. k)

  IsBefore-trans :
      (p q : ℤ) (ls : List Level) → before s p q ≡ true → IsBefore s q ls → IsBefore s p ls
  IsBefore-trans p q [] h k = tt
  IsBefore-trans p q (l ∷ ls) h k = (before_trans s p q l.price h k.0, IsBefore-trans p q ls h k.1)

  pub push_back-IsSorted : (ls : List Level) → IsSorted s ls → IsSorted s (push_back s o ls)
  unfolding push_back
  push_back-IsSorted [] v = (tt, tt)
  push_back-IsSorted (l ∷ ls) v =
      push_back_cases (IsSorted s) l ls
        (λ e. (IsBefore-push_back l.price ls e v.0, push_back-IsSorted ls v.1))
        (λ e. ((e, IsBefore-trans o.price l.price ls e v.0), v)) (λ e. v)

  pub push_back-AllResting :
      (ls : List Level) → IsResting s o.price o → AllResting s ls → AllResting s (push_back s o ls)
  unfolding push_back
  push_back-AllResting [] r v = ((r, tt), tt)
  push_back-AllResting (l ∷ ls) r v =
      push_back_cases (AllResting s) l ls (λ e. (v.0, push_back-AllResting ls r v.1))
        (λ e. ((r, tt), v))
        (λ e. (
          All-append (IsResting s l.price) l.orders (o ∷ []) v.0
              (subst (λ p. IsResting s p o) (sym e) r, tt),
          v.1,
        ))

  nodes-append :
      (i : ℕ) (os : List Order) → nodes i (os ++ (o ∷ [])) ≡ same o.order_id i + nodes i os
  unfolding nodes
  nodes-append i [] = refl
  nodes-append i (p ∷ os) = omega (arith, nodes-append i os)

  pub side_nodes-push_back :
      (i : ℕ) (ls : List Level)
      → side_nodes i (push_back s o ls) ≡ same o.order_id i + side_nodes i ls
  unfolding push_back side_nodes nodes
  side_nodes-push_back i [] = omega arith
  side_nodes-push_back i (l ∷ ls) =
      push_back_cases (λ ks. side_nodes i ks ≡ same o.order_id i + side_nodes i (l ∷ ls)) l ls
        (λ e. omega (arith, side_nodes-push_back i ls)) (λ e. omega arith)
        (λ e. omega (arith, nodes-append i l.orders))

  volume-append : (os : List Order) → volume (os ++ (o ∷ [])) ≡ o.remaining_quantity + volume os
  unfolding volume
  volume-append [] = refl
  volume-append (p ∷ os) = omega (arith, volume-append os)

  pub book_volume-push_back :
      (ls : List Level) → book_volume (push_back s o ls) ≡ o.remaining_quantity + book_volume ls
  unfolding push_back book_volume volume
  book_volume-push_back [] = omega arith
  book_volume-push_back (l ∷ ls) =
      push_back_cases (λ ks. book_volume ks ≡ o.remaining_quantity + book_volume (l ∷ ls)) l ls
        (λ e. omega (arith, book_volume-push_back ls)) (λ e. omega arith)
        (λ e. omega (arith, volume-append l.orders))

  pub push_back-SideAgrees :
      (ix : Index) (ls : List Level)
      → find o.order_id ix ≡ some (record { side = s; price = o.price })
      → SideAgrees s ix ls
      → SideAgrees s ix (push_back s o ls)
  unfolding push_back
  push_back-SideAgrees ix [] r v = ((r, tt), tt)
  push_back-SideAgrees ix (l ∷ ls) r v =
      push_back_cases (SideAgrees s ix) l ls (λ e. (v.0, push_back-SideAgrees ix ls r v.1))
        (λ e. ((r, tt), v))
        (λ e. (
          All-append (λ k. find k.order_id ix ≡ some (record { side = s; price = l.price }))
              l.orders (o ∷ []) v.0 (rw e r, tt),
          v.1,
        ))
