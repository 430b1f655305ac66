-- ===== src/OrderManager/Tests.antt =====
-- Runs of the scheduler's policies (Order-Manager-Server/src/Scheduler/scheduler.cpp) on small inputs.
use velocity_vortex.Base.{
  Text, ℕ, zero, suc, ◌+◌, ◌%◌, ◌≡◌, refl, false, none, some, List, [], ◌∷◌, ◌++◌, length, codes,
  arith,
}
use velocity_vortex.Base.Int.{pos, negsuc}
use velocity_vortex.OrderManager.TsQueue.{TsQueue, push, empty}
use velocity_vortex.OrderManager.Details.{OrderDetails, parse_order}
use velocity_vortex.Base.Number.{atoi, to_string, atoi-to_string}
use velocity_vortex.OrderManager.Scheduler.{register_provider, pass, round_robin, equalizer}
use velocity_vortex.OrderManager.Scheduler.RoundRobin.{share, three, scheduler, round_robin_shares}
use velocity_vortex.OrderManager.Scheduler.Policies.{equalizer_out_of_range}
use velocity_vortex.Alpaca.Services.{new_handle}
use velocity_vortex.Alpaca.ApiClient.{Session}
use velocity_vortex.Alpaca.ApiClient.Transfers.{session}
use velocity_vortex.Alpaca.Tests.{no_json, silent}
use velocity_vortex.OrderManager.ExecutorManager.{
  Event, arrival, action, process_order_queue, details_payload,
}
use velocity_vortex.OrderManager.ExecutorManager.Payload.{
  read_details, read_details-details_payload,
}
use velocity_vortex.OrderManager.ExecutorManager.Loop.{
  arrivals, actions, waiting, executor, posted, process_order_queue-posts_in_order,
  process_order_queue-posts_all,
}
use velocity_vortex.OrderManager.Server.{
  Server, ServerEvent, message, another_round, step, serve, new_server, serve-posts_nothing,
}

-- "buy mkt day AB 10"
abbrev buy_ten : Text
buy_ten =
    98 ∷ 117 ∷ 121 ∷ 32 ∷ 109 ∷ 107 ∷ 116 ∷ 32 ∷ 100 ∷ 97 ∷ 121 ∷ 32 ∷ 65 ∷ 66 ∷ 32 ∷ 49 ∷ 48 ∷ []

-- "sell"
abbrev sell_text : Text
sell_text = 115 ∷ 101 ∷ 108 ∷ 108 ∷ []

abbrev four_texts : List Text
four_texts = buy_ten ∷ sell_text ∷ buy_ten ∷ sell_text ∷ []

abbrev ten : OrderDetails
ten = record {
  side = 98 ∷ 117 ∷ 121 ∷ [];
  type = 109 ∷ 107 ∷ 116 ∷ [];
  time_in_force = 100 ∷ 97 ∷ 121 ∷ [];
  symbol = 65 ∷ 66 ∷ [];
  qty = 49 ∷ 48 ∷ [];
  limit_price = none;
  stop_price = none;
  trail_price = none;
  trail_percent = none;
}

parse_ten : parse_order buy_ten ≡ ten
unfolding parse_order
parse_ten = refl

atoi_ten : atoi (49 ∷ 48 ∷ []) ≡ pos 10
unfolding atoi
atoi_ten = refl

atoi_minus : atoi (32 ∷ 45 ∷ 55 ∷ 120 ∷ []) ≡ negsuc 6
unfolding atoi
atoi_minus = refl

to_string_ten : to_string 10 ≡ 49 ∷ 48 ∷ []
unfolding to_string
to_string_ten = refl

registered :
    register_provider (ten ∷ []) (scheduler ([] ∷ []) four_texts)
    ≡ scheduler ([] ∷ (ten ∷ []) ∷ []) four_texts
unfolding register_provider
registered = refl

queue_run : empty (push [] ten) ≡ false
unfolding empty push
queue_run = refl

atoi-to_string_example : atoi (to_string 4096) ≡ pos 4096
atoi-to_string_example = atoi-to_string 4096

round_robin_shares_example :
    (last : ℕ) × (pass round_robin 2 (scheduler (three [] (ten ∷ []) []) four_texts)
      ≡ some (
        last,
        scheduler
            (three
              ([] ++ share 0 2 four_texts)
              ((ten ∷ []) ++ share 1 2 four_texts)
              ([] ++ share 2 2 four_texts))
            [],
      ))
    × (last ≡ (2 + length four_texts) % 3)
round_robin_shares_example = round_robin_shares 2 [] (ten ∷ []) [] four_texts (omega arith)

equalizer_out_of_range_example : equalizer tt ten ([] ∷ (ten ∷ []) ∷ [] ∷ []) ≡ none
equalizer_out_of_range_example =
    equalizer_out_of_range ten [] (ten ∷ []) [] 10 atoi_ten (omega arith)

abbrev tens : ℕ → TsQueue OrderDetails
tens zero = []
tens (suc n) = ten ∷ tens n

abbrev two_arrivals : List Event
two_arrivals = arrival ten ∷ action ∷ action ∷ arrival (parse_order sell_text) ∷ action ∷ []

abbrev idle_session : Session
idle_session = session (codes "key") (codes "secret") new_handle [] []

process_order_queue-posts_in_order_example :
    (ds : List OrderDetails) × ((process_order_queue no_json silent two_arrivals
        (executor idle_session [] 0 none)).session
      ≡ posted no_json silent ds idle_session)
    × (ds
          ++ waiting
              (process_order_queue no_json silent two_arrivals (executor idle_session [] 0 none))
        ≡ waiting (executor idle_session [] 0 none) ++ arrivals two_arrivals)
process_order_queue-posts_in_order_example =
    process_order_queue-posts_in_order no_json silent two_arrivals idle_session [] 0 none

process_order_queue-posts_all_example :
    ((process_order_queue no_json silent
        (two_arrivals ++ actions 6)
        (executor idle_session [] 0 none)).session
      ≡ posted no_json silent (arrivals two_arrivals) idle_session)
    × ((process_order_queue no_json silent
          (two_arrivals ++ actions 6)
          (executor idle_session [] 0 none)).order_queue
        ≡ [])
    × ((process_order_queue no_json silent
          (two_arrivals ++ actions 6)
          (executor idle_session [] 0 none)).taken
        ≡ none)
process_order_queue-posts_all_example =
    process_order_queue-posts_all no_json silent two_arrivals 6 idle_session (omega arith)

abbrev server_events : List ServerEvent
server_events =
    message buy_ten
    ∷ another_round
    ∷ step 0
    ∷ another_round
    ∷ message sell_text
    ∷ step 1
    ∷ step 2
    ∷ []

serve-posts_nothing_example :
    (s : Server) × (serve no_json silent server_events
        (new_server idle_session idle_session idle_session)
      ≡ some s)
    × (s.executors ≡ (new_server idle_session idle_session idle_session).executors)
    × (s.order_queue ≡ [])
serve-posts_nothing_example =
    serve-posts_nothing no_json silent idle_session idle_session idle_session server_events

abbrev ten_at_limit : OrderDetails
ten_at_limit = record ten { limit_price = some (49 ∷ []); trail_percent = some (50 ∷ []) }

read_details-details_payload_example : read_details (details_payload ten_at_limit) ≡ ten_at_limit
read_details-details_payload_example = read_details-details_payload ten_at_limit
