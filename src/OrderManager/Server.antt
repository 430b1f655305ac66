-- ===== src/OrderManager/Server.antt =====
-- `main` of Order-Manager-Server/src/main.cpp: the messages that it receives, the scheduler that it calls and
-- the three executors, whose threads run beside it.
use velocity_vortex.Base.{ℕ, zero, suc, ◌≡◌, refl, Option, none, some, List, [], ◌∷◌, map, Text}
use velocity_vortex.Trading.Double.{Double}
use velocity_vortex.Alpaca.Services.{JsonCpp, Curl}
use velocity_vortex.Alpaca.ApiClient.{Session}
use velocity_vortex.OrderManager.TsQueue.{TsQueue, empty, size}
use velocity_vortex.OrderManager.Scheduler.{Providers, drain, pass, round_robin}
use velocity_vortex.OrderManager.ExecutorManager.{Executor, act}

-- `order_queue` is the member orderQueue of the scheduler, which is private; `current` is that of
-- RoundRobin, once it has been called. The providers of the scheduler are the queues of the executors.
pub record Server : Type 0 where
  pub order_queue : TsQueue Text
  pub executors : List Executor
  pub current : Option ℕ

pub data ServerEvent : Type 0 where
  -- A message is there.
  message : Text → ServerEvent
  -- RoundRobin goes round its loop `while (true)`.
  another_round : ServerEvent
  -- The thread of an executor makes a step.
  step : ℕ → ServerEvent

-- `scheduler.RoundRobin(receivedMessage)`, which does not look at the text that it is called with. It does
-- not return, so that a later message is not received.
unfoldable pub receive : Text → Server → Server
receive text s = elim (s.current) [ none ↦ record s { current = some 0 } | some c ↦ s ]

abbrev pub with_queues : Providers → List Executor → List Executor
with_queues [] es = es
with_queues (q ∷ qs) [] = []
with_queues (q ∷ qs) (e ∷ es) = record e { order_queue = q } ∷ with_queues qs es

-- `none`: it has no defined behaviour.
unfoldable pub go_round : Server → Option Server
unfolding pass round_robin
go_round s = elim (s.current) [
  | none ↦ some s
  | some c ↦
      elim (pass round_robin c (record {
        provider_pointer = map (λ e. e.order_queue) s.executors;
        order_queue = s.order_queue;
      })) [
        | none ↦ none
        | some (c', scheduler) ↦ some (record {
          order_queue = scheduler.order_queue;
          executors = with_queues scheduler.provider_pointer s.executors;
          current = some c';
        })
      ]
]

module _ {F : Double} (J : JsonCpp F) (C : Curl) where
  unfoldable pub act_at : ℕ → List Executor → List Executor
  unfolding act
  act_at i [] = []
  act_at zero (e ∷ es) = act J C e ∷ es
  act_at (suc i) (e ∷ es) = e ∷ act_at i es

  unfoldable pub happen : ServerEvent → Server → Option Server
  unfolding receive go_round act_at
  happen (message text) s = some (receive text s)
  happen another_round s = go_round s
  happen (step i) s = some (record s { executors = act_at i s.executors })

  unfoldable pub serve : List ServerEvent → Server → Option Server
  unfolding happen
  serve [] s = some s
  serve (e ∷ es) s = elim (happen e s) [ none ↦ none | some t ↦ serve es t ]

abbrev pub new_executor : Session → Executor
new_executor s = record { session = s; order_queue = []; to_take = 0; taken = none }

-- The server with the executors' sessions.
abbrev pub new_server : Session → Session → Session → Server
new_server s0 s1 s2 = record {
  order_queue = [];
  executors = new_executor s0 ∷ new_executor s1 ∷ new_executor s2 ∷ [];
  current = none;
}

module _ {F : Double} (J : JsonCpp F) (C : Curl) (s0 s1 s2 : Session) where
  abbrev waiting_at : Option ℕ → Server
  waiting_at current = record (new_server s0 s1 s2) { current = current }

  act_at-idle :
      (i : ℕ) → act_at J C i (new_server s0 s1 s2).executors ≡ (new_server s0 s1 s2).executors
  unfolding act_at act empty
  act_at-idle zero = refl
  act_at-idle (suc zero) = refl
  act_at-idle (suc (suc zero)) = refl
  act_at-idle (suc (suc (suc i))) = refl

  happen-idle :
      (e : ServerEvent) (current : Option ℕ)
      → (next : Option ℕ) × (happen J C e (waiting_at current) ≡ some (waiting_at next))
  unfolding happen receive go_round pass drain size
  happen-idle (message text) none = (some 0, refl)
  happen-idle (message text) (some c) = (some c, refl)
  happen-idle another_round none = (none, refl)
  happen-idle another_round (some c) = (some c, refl)
  happen-idle (step i) current = (current, rw (act_at-idle i) refl)

  serve-idle :
      (es : List ServerEvent) (current : Option ℕ)
      → (next : Option ℕ) × (serve J C es (waiting_at current) ≡ some (waiting_at next))
  unfolding serve
  serve-idle [] current = (current, refl)
  serve-idle (e ∷ es) current =
      let (next, h) = happen-idle e current in
      let (last, k) = serve-idle es next in (last, rw (h, serve) k)

  -- Whatever messages come and in whatever order the scheduler and the executors go on, the executors of the
  -- server stay as they are when it starts: they get no order and post none, since nothing puts a
  -- message into the queue that the scheduler deals out.
  pub serve-posts_nothing :
      (es : List ServerEvent)
      → (s : Server) × (serve J C es (new_server s0 s1 s2) ≡ some s)
        × (s.executors ≡ (new_server s0 s1 s2).executors)
        × (s.order_queue ≡ [])
  serve-posts_nothing es = let (last, h) = serve-idle es none in (_, h, refl, refl)
