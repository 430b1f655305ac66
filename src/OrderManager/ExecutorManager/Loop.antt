-- ===== src/OrderManager/ExecutorManager/Loop.antt =====
-- The loop of `processOrderQueue` with the scheduler's pushes between its steps: what it posts.
use velocity_vortex.Base.{
  ℕ, zero, suc, ◌+◌, ◌*◌, ◌≤◌, ◌≡◌, refl, ap, sym, ◌∙◌, Option, none, some, List, [], ◌∷◌, ◌++◌,
  length, length-append, map, arith,
}
use mathlib.Core.List.{append-nil, append_assoc}
use velocity_vortex.Trading.Double.{Double}
use velocity_vortex.Alpaca.Services.{JsonCpp, Curl}
use velocity_vortex.Alpaca.OrderManager.{orders_url}
use velocity_vortex.Alpaca.ApiClient.{Session}
use velocity_vortex.Alpaca.ApiClient.Transfers.{Request, posting, make_request, make_requests}
use velocity_vortex.OrderManager.TsQueue.{TsQueue, push, pop, empty, size}
use velocity_vortex.OrderManager.Details.{OrderDetails}
use velocity_vortex.OrderManager.ExecutorManager.{
  details_payload, Executor, Event, arrival, action, create_order, act, process_order_queue,
}

abbrev pub arrivals : List Event → List OrderDetails
arrivals [] = []
arrivals (arrival d ∷ events) = d ∷ arrivals events
arrivals (action ∷ events) = arrivals events

abbrev pub actions : ℕ → List Event
actions zero = []
actions (suc n) = action ∷ actions n

abbrev pub in_hand : Option OrderDetails → List OrderDetails
in_hand none = []
in_hand (some d) = d ∷ []

-- The orders that are taken and not posted, then those that are in the queue.
abbrev pub waiting : Executor → List OrderDetails
waiting e = in_hand e.taken ++ e.order_queue

abbrev pub executor : Session → TsQueue OrderDetails → ℕ → Option OrderDetails → Executor
executor s q n t = record { session = s; order_queue = q; to_take = n; taken = t }

-- The inner loop has no more orders to take than there are.
abbrev pub IsReady : Executor → Type 0
IsReady e = e.to_take ≤ length e.order_queue

-- A bound of the steps that are left, and one.
abbrev weight : Executor → ℕ
weight e =
    3 * length e.order_queue
    + length (in_hand e.taken)
    + elim (e.to_take) as (λ n. ℕ) [ zero ↦ 1 | suc n ↦ 0 ]

make_requests_append :
    (C : Curl) (xs ys : List Request) (s : Session)
    → make_requests C ys (make_requests C xs s) ≡ make_requests C (xs ++ ys) s
unfolding make_requests
make_requests_append C [] ys s = refl
make_requests_append C (x ∷ xs) ys s = make_requests_append C xs ys (make_request C x s)

arrivals-append : (events : List Event) (k : ℕ) → arrivals (events ++ actions k) ≡ arrivals events
arrivals-append [] zero = refl
arrivals-append [] (suc k) = arrivals-append [] k
arrivals-append (arrival d ∷ events) k = ap (λ ds. d ∷ ds) (arrivals-append events k)
arrivals-append (action ∷ events) k = arrivals-append events k

nothing_queued : (t : Option OrderDetails) (q : List OrderDetails) → in_hand t ++ q ≡ [] → q ≡ []
nothing_queued none q e = e
nothing_queued (some d) q e = cc

nothing_taken : (t : Option OrderDetails) (q : List OrderDetails) → in_hand t ++ q ≡ [] → t ≡ none
nothing_taken none q e = refl
nothing_taken (some d) q e = cc

bounded :
    (s : Session) (q : TsQueue OrderDetails) (n : ℕ) (t : Option OrderDetails) (k : ℕ)
    → 3 * length (in_hand t ++ q) ≤ k
    → weight (executor s q n t) ≤ suc k
bounded s q zero none k h = omega arith
bounded s q (suc n) none k h = omega arith
bounded s q zero (some d) k h = omega arith
bounded s q (suc n) (some d) k h = omega arith

module _ {F : Double} (J : JsonCpp F) (C : Curl) where
  abbrev pub order_request : OrderDetails → Request
  order_request d = posting orders_url (J.write_object (details_payload d))

  -- The session after these orders are posted, one after the other.
  unfoldable pub posted : List OrderDetails → Session → Session
  unfolding make_requests
  posted ds s = make_requests C (map (order_request) ds) s

  posted_append :
      (ds es : List OrderDetails) (s : Session) → posted es (posted ds s) ≡ posted (ds ++ es) s
  unfolding posted make_requests
  posted_append [] es s = refl
  posted_append (d ∷ ds) es s = posted_append ds es _

  act-IsReady :
      (s : Session) (q : TsQueue OrderDetails) (n : ℕ) (t : Option OrderDetails)
      → n ≤ length q
      → IsReady (act J C (executor s q n t))
  unfolding act pop empty size
  act-IsReady s q n (some d) h = h
  act-IsReady s [] zero none h = h
  act-IsReady s (d ∷ q) zero none h = omega arith
  act-IsReady s [] (suc n) none h = h
  act-IsReady s (d ∷ q) (suc n) none h = omega arith

  weight-act :
      (s : Session) (q : TsQueue OrderDetails) (n : ℕ) (t : Option OrderDetails) (k : ℕ)
      → n ≤ length q
      → weight (executor s q n t) ≤ suc (suc k)
      → weight (act J C (executor s q n t)) ≤ suc k
  unfolding act pop empty size
  weight-act s q n (some d) k h w = omega arith
  weight-act s [] zero none k h w = omega arith
  weight-act s (d ∷ q) zero none k h w = omega arith
  weight-act s [] (suc n) none k h w = absurd (omega arith)
  weight-act s (d ∷ q) (suc zero) none k h w = omega arith
  weight-act s (d ∷ q) (suc (suc n)) none k h w = omega arith

  act-posts :
      (s : Session) (q : TsQueue OrderDetails) (n : ℕ) (t : Option OrderDetails)
      → (ds : List OrderDetails) × ((act J C (executor s q n t)).session ≡ posted ds s)
        × (ds ++ waiting (act J C (executor s q n t)) ≡ waiting (executor s q n t))
  unfolding act pop empty size posted make_requests make_request create_order
  act-posts s q n (some d) = (d ∷ [], refl, refl)
  act-posts s [] zero none = ([], refl, refl)
  act-posts s (d ∷ q) zero none = ([], refl, refl)
  act-posts s [] (suc n) none = ([], refl, refl)
  act-posts s (d ∷ q) (suc n) none = ([], refl, refl)

  -- Whatever the order of the executor's steps and the scheduler's pushes, what was posted, what is taken and
  -- what is still in the queue are together the orders that waited at first and those that arrived, in
  -- their order: none is lost, posted twice, or posted before an earlier one.
  pub process_order_queue-posts_in_order :
      (events : List Event) (s : Session) (q : TsQueue OrderDetails) (n : ℕ)
      (t : Option OrderDetails)
      → (ds : List OrderDetails) × ((process_order_queue J C events (executor s q n t)).session
          ≡ posted ds s)
        × (ds ++ waiting (process_order_queue J C events (executor s q n t))
            ≡ waiting (executor s q n t) ++ arrivals events)
  unfolding process_order_queue push posted make_requests
  process_order_queue-posts_in_order [] s q n t = ([], refl, sym (append-nil _))
  process_order_queue-posts_in_order (arrival d ∷ events) s q n t =
      let r = process_order_queue-posts_in_order events s (push q d) n t in
      (
        r.0,
        r.1,
        r.2
            ∙ ap (λ w. w ++ arrivals events) (sym (append_assoc (in_hand t) q (d ∷ [])))
            ∙ append_assoc (in_hand t ++ q) (d ∷ []) (arrivals events),
      )
  process_order_queue-posts_in_order (action ∷ events) s q n t =
      let e = act J C (executor s q n t) in
      let one = act-posts s q n t in
      let r = process_order_queue-posts_in_order events e.session e.order_queue e.to_take e.taken in
      (
        one.0 ++ r.0,
        r.1 ∙ ap (posted r.0) one.1 ∙ posted_append one.0 r.0 s,
        append_assoc one.0 r.0 _
            ∙ ap (λ ds. one.0 ++ ds) r.2
            ∙ sym (append_assoc one.0 _ (arrivals events))
            ∙ ap (λ ds. ds ++ arrivals events) one.2,
      )

  process-IsReady :
      (events : List Event) (s : Session) (q : TsQueue OrderDetails) (n : ℕ)
      (t : Option OrderDetails)
      → n ≤ length q
      → IsReady (process_order_queue J C events (executor s q n t))
  unfolding process_order_queue push
  process-IsReady [] s q n t h = h
  process-IsReady (arrival d ∷ events) s q n t h =
      process-IsReady events s (q ++ (d ∷ [])) n t (omega (arith, length-append q (d ∷ [])))
  process-IsReady (action ∷ events) s q n t h =
      let e = act J C (executor s q n t) in
      process-IsReady events e.session e.order_queue e.to_take e.taken (act-IsReady s q n t h)

  idle :
      (s : Session) (q : TsQueue OrderDetails) (n : ℕ) (t : Option OrderDetails)
      → n ≤ length q
      → weight (executor s q n t) ≤ 1
      → waiting (executor s q n t) ≡ []
  idle s [] n none h w = refl
  idle s [] zero (some d) h w = absurd (omega arith)
  idle s [] (suc n) (some d) h w = absurd (omega arith)
  idle s (d ∷ q) n t h w = absurd (omega arith)

  drained :
      (k : ℕ) (s : Session) (q : TsQueue OrderDetails) (n : ℕ) (t : Option OrderDetails)
      → n ≤ length q
      → weight (executor s q n t) ≤ suc k
      → waiting (process_order_queue J C (actions k) (executor s q n t)) ≡ []
  unfolding process_order_queue
  drained zero s q n t h w = idle s q n t h w
  drained (suc k) s q n t h w =
      let e = act J C (executor s q n t) in
      drained k e.session e.order_queue e.to_take e.taken (act-IsReady s q n t h)
        (weight-act s q n t k h w)

  process_append :
      (events later : List Event) (e : Executor)
      → process_order_queue J C (events ++ later) e
        ≡ process_order_queue J C later (process_order_queue J C events e)
  unfolding process_order_queue
  process_append [] later e = refl
  process_append (arrival d ∷ events) later e = process_append events later _
  process_append (action ∷ events) later e = process_append events later _

  all_drained :
      (events : List Event) (k : ℕ) (s : Session)
      → 3 * length (arrivals events) ≤ k
      → waiting (process_order_queue J C (events ++ actions k) (executor s [] 0 none)) ≡ []
  all_drained events k s enough =
      let e = process_order_queue J C events (executor s [] 0 none) in
      let r = process_order_queue-posts_in_order events s [] 0 none in
      let total : length r.0 + length (waiting e) ≡ length (arrivals events) =
        sym (length-append r.0 (waiting e)) ∙ ap length r.2 in
      rw (process_append events (actions k) (executor s [] 0 none)) (
        drained k e.session e.order_queue e.to_take e.taken
          (process-IsReady events s [] 0 none (omega arith))
          (bounded e.session e.order_queue e.to_take e.taken k (omega (arith, total, enough))))

  -- However the scheduler's pushes fall between the steps of an idle executor, after them three more steps for
  -- each order that arrived are enough: the orders that arrived have been posted, each once and in their
  -- order, and none is left.
  pub process_order_queue-posts_all :
      (events : List Event) (k : ℕ) (s : Session)
      → 3 * length (arrivals events) ≤ k
      → ((process_order_queue J C (events ++ actions k) (executor s [] 0 none)).session
          ≡ posted (arrivals events) s)
        × ((process_order_queue J C (events ++ actions k) (executor s [] 0 none)).order_queue ≡ [])
        × ((process_order_queue J C (events ++ actions k) (executor s [] 0 none)).taken ≡ none)
  process_order_queue-posts_all events k s enough =
      let e = process_order_queue J C (events ++ actions k) (executor s [] 0 none) in
      let r = process_order_queue-posts_in_order (events ++ actions k) s [] 0 none in
      let none_left : waiting e ≡ [] = all_drained events k s enough in
      let all : r.0 ≡ arrivals events =
        sym (append-nil r.0)
        ∙ ap (λ w. r.0 ++ w) (sym none_left)
        ∙ r.2
        ∙ arrivals-append events k in
      (
        r.1 ∙ ap (λ ds. posted ds s) all,
        nothing_queued e.taken e.order_queue none_left,
        nothing_taken e.taken e.order_queue none_left,
      )
