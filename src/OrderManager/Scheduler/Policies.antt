-- ===== src/OrderManager/Scheduler/Policies.antt =====
-- The policies `Equalizer`, `Latency_Based` and `Liquidity_Based` of
-- Order-Manager-Server/src/Scheduler/scheduler.cpp.
use velocity_vortex.Base.{
  Text, ℕ, ◌+◌, ◌/◌, ◌%◌, ◌^◌, ◌≤◌, ◌<◌, ◌≡◌, refl, some, none, List, [], ◌∷◌, length, arith,
  le→leb, lt→leb_false,
}
use velocity_vortex.Base.Int.{pos}
use velocity_vortex.OrderManager.TsQueue
use velocity_vortex.OrderManager.TsQueue.{TsQueue, push, pop}
use velocity_vortex.OrderManager.Details.{OrderDetails}
use velocity_vortex.Base.Number.{atoi, to_string, atoi-to_string}
use velocity_vortex.OrderManager.Scheduler.{
  Providers, drain, pass, equalizer, latency_based, liquidity_based, size_sub,
}

module _ (d : OrderDetails) (q0 q1 q2 : TsQueue OrderDetails) where
  -- With the three providers that main.cpp registers, an order of 3 or more is handed to an index out
  -- of the vector's range: the policy has no defined behaviour.
  pub equalizer_out_of_range :
      (qty : ℕ) → atoi d.qty ≡ pos qty → 3 ≤ qty → equalizer tt d (q0 ∷ q1 ∷ q2 ∷ []) ≡ none
  unfolding equalizer push
  equalizer_out_of_range qty e h = rw e (rw (le→leb 3 qty h))

  abbrev pub part : ℕ → OrderDetails
  part n = record d { qty = to_string n }

  -- With a fourth queue, an order of 3 or more is split in three parts that add up to its quantity; the
  -- third queue gets none.
  pub equalizer_splits :
      (q3 : TsQueue OrderDetails) (qty : ℕ)
      → atoi d.qty ≡ pos qty
      → 3 ≤ qty
      → (a b c : ℕ) × (equalizer tt d (q0 ∷ q1 ∷ q2 ∷ q3 ∷ [])
          ≡ some (tt, push q0 (part a) ∷ push q1 (part b) ∷ q2 ∷ push q3 (part c) ∷ []))
        × (atoi (part a).qty ≡ pos a)
        × (atoi (part b).qty ≡ pos b)
        × (atoi (part c).qty ≡ pos c)
        × (a + b + c ≡ qty)
  unfolding equalizer push
  equalizer_splits q3 qty e h = (
    qty / 3,
    qty / 3,
    qty / 3 + qty % 3,
    rw e (rw (le→leb 3 qty h)),
    atoi-to_string (qty / 3),
    atoi-to_string (qty / 3),
    atoi-to_string (qty / 3 + qty % 3),
    omega arith,
  )

  -- With three queues, the first of them longer than 7 and the second longer than the third (and
  -- shorter than 2 ^ 63), an order goes to the second: the difference of the sizes wraps around.
  pub latency_prefers_longer :
      7 < length q0
      → length q2 < length q1
      → length q1 < 2 ^ 63
      → latency_based tt d (q0 ∷ q1 ∷ q2 ∷ []) ≡ some (tt, q0 ∷ push q1 d ∷ q2 ∷ [])
  unfolding latency_based push TsQueue.size
  latency_prefers_longer h0 h12 h1 =
      rw (lt→leb_false (length q0) 7 h0)
        (rw (le→leb 10 (size_sub (length q2) (length q1)) (omega arith)))

-- Liquidity_Based takes every order off its queue, and no provider gets one.
pub liquidity_drops :
    (providers : Providers) (orders : List Text)
    → pass liquidity_based tt (record { provider_pointer = providers; order_queue = orders })
      ≡ some (tt, record { provider_pointer = providers; order_queue = [] })
unfolding pass drain TsQueue.size pop liquidity_based
liquidity_drops providers [] = refl
liquidity_drops providers (o ∷ os) = liquidity_drops providers os
