-- ===== src/OrderManager/Scheduler.antt =====
-- `Scheduler`, Order-Manager-Server/include/Scheduler/scheduler.hpp and src/Scheduler/scheduler.cpp:
-- one pass of the loop `while (!orderQueue.empty())` of each policy. The outer `while (true)` makes
-- such passes for ever. The queues are those of the executors, in the order of their registration.
pub mod RoundRobin
pub mod Policies
use velocity_vortex.Base.{
  Text, ℕ, zero, suc, ◌+◌, ◌-◌, ◌/◌, ◌%◌, ◌^◌, Option, none, some, List, [], ◌∷◌, ◌++◌, get_elem?,
  leb, if◌then◌else◌,
}
use velocity_vortex.Base.Int.{ℤ, pos, negsuc}
use velocity_vortex.OrderManager.TsQueue
use velocity_vortex.OrderManager.TsQueue.{TsQueue, push, pop}
use velocity_vortex.OrderManager.Details.{OrderDetails, parse_order}
use velocity_vortex.Base.Number.{atoi, to_string}

abbrev pub Providers : Type 0
Providers = List (TsQueue OrderDetails)

pub record Scheduler : Type 0 where
  pub provider_pointer : Providers
  pub order_queue : TsQueue Text

abbrev pub total_provider : ℕ
total_provider = 3

-- Register_Provider, but for the map from names, which nothing reads.
unfoldable pub register_provider : TsQueue OrderDetails → Scheduler → Scheduler
register_provider q s = record s { provider_pointer = s.provider_pointer ++ (q ∷ []) }

-- `Provider_pointer[i]->push(details)`. `none`: the index is out of the vector's range.
unfoldable pub push_to : ℕ → OrderDetails → Providers → Option Providers
unfolding push
push_to i d [] = none
push_to zero d (q ∷ qs) = some (push q d ∷ qs)
push_to (suc i) d (q ∷ qs) = elim (push_to i d qs) [ none ↦ none | some rest ↦ some (q ∷ rest) ]

-- A policy hands an order on, with a state of its own. `none`: it has no defined behaviour.
abbrev pub Policy : Type 0 → Type 0
Policy S = S → OrderDetails → Providers → Option (S × Providers)

-- `while (order_we_have--)`, for any policy: pop, parse, hand on.
module _ {S : Type 0} (policy : Policy S) where
  unfoldable pub drain : ℕ → S → Scheduler → Option (S × Scheduler)
  drain zero state s = some (state, s)
  drain (suc n) state s = elim (pop s.order_queue) [
    | none ↦ none
    | some (order, queue) ↦ elim (policy state (parse_order order) s.provider_pointer) [
      | none ↦ none
      | some (state', providers) ↦
          drain n state' (record { provider_pointer = providers; order_queue = queue })
    ]
  ]

  unfoldable pub pass : S → Scheduler → Option (S × Scheduler)
  unfolding drain
  pass state s = drain (TsQueue.size s.order_queue) state s

-- The state is `current`.
unfoldable pub round_robin : Policy ℕ
unfolding push_to
round_robin current d providers = elim (push_to current d providers) [
  | none ↦ none
  | some providers' ↦ some ((current + 1) % total_provider, providers')
]

-- `for (int i = 0; i < total_provider - 1; i++)`, with `n` rounds to go.
unfoldable pub push_each : ℕ → ℕ → OrderDetails → Providers → Option Providers
unfolding push_to
push_each zero i d providers = some providers
push_each (suc n) i d providers = elim (push_to i d providers) [
  | none ↦ none
  | some providers' ↦ push_each n (i + 1) d providers'
]

-- A quantity of at least 3 is split in three parts; the last takes the remainder.
unfoldable pub split_order : ℕ → OrderDetails → Providers → Option Providers
unfolding push_each
split_order qty d providers =
    elim (push_each (total_provider - 1) 0 (record d { qty = to_string (qty / total_provider) })
      providers) [
        | none ↦ none
        | some providers' ↦
            push_to total_provider
              (record d { qty = to_string (qty / total_provider + qty % total_provider) })
              providers'
      ]

unfoldable pub equalize : ℤ → OrderDetails → Providers → Option Providers
unfolding split_order
equalize (pos qty) d providers =
    if leb 3 qty then split_order qty d providers else push_to 0 d providers
equalize (negsuc n) d providers = push_to 0 d providers

abbrev pub no_state : Option Providers → Option (Unit {0} × Providers)
no_state none = none
no_state (some providers) = some (tt, providers)

unfoldable pub equalizer : Policy (Unit {0})
unfolding equalize
equalizer u d providers = no_state (equalize (atoi d.qty) d providers)

-- A difference of size_t.
abbrev pub size_sub : ℕ → ℕ → ℕ
size_sub a b = (a + 2 ^ 64 - b) % 2 ^ 64

unfoldable pub latency_choice : ℕ → ℕ → ℕ → ℕ
latency_choice size0 size1 size2 =
    if leb size0 7 then 0 else if leb 10 (size_sub size2 size1) then 1 else 2

-- The first three queues' sizes decide.
unfoldable pub latency_based : Policy (Unit {0})
unfolding latency_choice push_to
latency_based u d [] = none
latency_based u d (q0 ∷ []) =
    if leb (TsQueue.size q0) 7 then no_state (push_to 0 d (q0 ∷ [])) else none
latency_based u d (q0 ∷ q1 ∷ []) =
    if leb (TsQueue.size q0) 7 then no_state (push_to 0 d (q0 ∷ q1 ∷ [])) else none
latency_based u d (q0 ∷ q1 ∷ q2 ∷ qs) = no_state (
    push_to (latency_choice (TsQueue.size q0) (TsQueue.size q1) (TsQueue.size q2)) d
      (q0 ∷ q1 ∷ q2 ∷ qs))

-- Liquidity_Based parses each order and does nothing with it.
unfoldable pub liquidity_based : Policy (Unit {0})
liquidity_based u d providers = some (u, providers)
