-- ===== src/OrderManager/Scheduler/RoundRobin.antt =====
-- The policy of `Scheduler::RoundRobin`, Order-Manager-Server/src/Scheduler/scheduler.cpp, deals the
-- orders out in turn.
use velocity_vortex.Base.{
  Text, ℕ, zero, suc, ◌+◌, ◌%◌, ◌<◌, ◌≡◌, some, List, [], ◌∷◌, ◌++◌, length, ◌==◌, if◌then◌else◌,
  arith,
}
use mathlib.Core.List.{append-nil, append_assoc}
use velocity_vortex.OrderManager.TsQueue
use velocity_vortex.OrderManager.TsQueue.{TsQueue, push, pop}
use velocity_vortex.OrderManager.Details.{OrderDetails, parse_order}
use velocity_vortex.OrderManager.Scheduler.{Providers, Scheduler, push_to, drain, pass, round_robin}

-- Of the orders that are dealt out from provider `current` on, those of provider `k` out of three.
unfoldable pub share : ℕ → ℕ → List Text → List OrderDetails
share k current [] = []
share k current (o ∷ os) =
    let later = share k ((current + 1) % 3) os in
    if current == k then parse_order o ∷ later else later

-- The state with these three queues.
abbrev pub three : (q0 q1 q2 : TsQueue OrderDetails) → Providers
three q0 q1 q2 = q0 ∷ q1 ∷ q2 ∷ []

abbrev pub scheduler : Providers → List Text → Scheduler
scheduler ps os = record { provider_pointer = ps; order_queue = os }

-- With three providers, and from one of them on, every queue gets just its share of the orders, behind what it had and in the
-- order in which they came, and none is left.
pub round_robin_shares :
    (current : ℕ) (q0 q1 q2 : TsQueue OrderDetails) (orders : List Text)
    → current < 3
    → (last : ℕ) × (pass round_robin current (scheduler (three q0 q1 q2) orders)
        ≡ some (
          last,
          scheduler
              (three
                (q0 ++ share 0 current orders)
                (q1 ++ share 1 current orders)
                (q2 ++ share 2 current orders))
              [],
        ))
      × (last ≡ (current + length orders) % 3)
unfolding pass drain TsQueue.size pop share round_robin push_to push
round_robin_shares current q0 q1 q2 [] h = (current, simp append-nil, omega arith)
round_robin_shares zero q0 q1 q2 (o ∷ os) h =
    let r = round_robin_shares 1 (push q0 (parse_order o)) q1 q2 os (omega arith) in
    (r.0, simp append_assoc at (r.1), omega (arith, r.2))
round_robin_shares (suc zero) q0 q1 q2 (o ∷ os) h =
    let r = round_robin_shares 2 q0 (push q1 (parse_order o)) q2 os (omega arith) in
    (r.0, simp append_assoc at (r.1), omega (arith, r.2))
round_robin_shares (suc (suc zero)) q0 q1 q2 (o ∷ os) h =
    let r = round_robin_shares 0 q0 q1 (push q2 (parse_order o)) os (omega arith) in
    (r.0, simp append_assoc at (r.1), omega (arith, r.2))
round_robin_shares (suc (suc (suc k))) q0 q1 q2 os h = absurd (omega arith)
