-- ===== src/OrderManager/TsQueue.antt =====
-- `TSQueue`, Order-Manager-Server/include/Queue/TSQueue.hpp. Each method holds the queue's mutex from
-- its first line to its last, so a call is one step on the items; the head of the list is the front.
use velocity_vortex.Base.{ℕ, Bool, true, false, Option, none, some, List, [], ◌∷◌, ◌++◌, length}

abbrev pub TsQueue {ℓ} : Type ℓ → Type ℓ
TsQueue T = List T

module _ {ℓ} {T : Type ℓ} where
  unfoldable pub push : TsQueue T → T → TsQueue T
  push q item = q ++ (item ∷ [])

  -- `none`: the queue is empty, and the caller waits.
  unfoldable pub pop : TsQueue T → Option (T × TsQueue T)
  pop [] = none
  pop (item ∷ q) = some (item, q)

  unfoldable pub empty : TsQueue T → Bool
  empty [] = true
  empty (item ∷ q) = false

  unfoldable pub size : TsQueue T → ℕ
  size q = length q
