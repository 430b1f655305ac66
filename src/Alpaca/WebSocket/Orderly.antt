-- ===== src/Alpaca/WebSocket/Orderly.antt =====
-- What the handlers keep to, in whatever order the operations complete.
use velocity_vortex.Base.{
  ℕ, zero, suc, ◌≡◌, refl, Bool, true, false, if◌then◌else◌, Option, none, some, List, [], ◌∷◌,
  ◌++◌, Text, IfDefined, subst, Bool-cases, inl, inr,
}
use velocity_vortex.Trading.Double.{Double}
use velocity_vortex.Alpaca.Services.{JsonCpp, ◌>>=◌}
use velocity_vortex.Alpaca.WebSocket.{
  Operation, resolve, connect, ssl_handshake, handshake, auth_write, channel_write, read, Message,
  auth, subscribe, Setting, WebSocket, Completion, send_auth_message, subscribe_to_channels,
  do_read, on_opened, is_authenticated, on_answer, on_messages, on_parsed, on_read, on_completed,
  complete, run_socket, new_socket,
}

-- The read operations among those that are pending.
abbrev pub reads : List Operation → ℕ
reads [] = 0
reads (read ∷ ops) = suc (reads ops)
reads (resolve ∷ ops) = reads ops
reads (connect ∷ ops) = reads ops
reads (ssl_handshake ∷ ops) = reads ops
reads (handshake ∷ ops) = reads ops
reads (auth_write ∷ ops) = reads ops
reads (channel_write ∷ ops) = reads ops

-- What is written is a beginning of the two messages, and both once the socket is authenticated; before
-- that no message is processed; a read is pending just while `reading` is set, and then a single one.
pub record IsOrderly {V : Type 0} (first second : Message) (s : WebSocket V) : Type 0 where
  pub begins : (rest : List Message) × (s.written ++ rest ≡ first ∷ second ∷ [])
  pub complete_once : s.authenticated ≡ true → s.written ≡ first ∷ second ∷ []
  pub silent : s.authenticated ≡ false → s.processed ≡ []
  pub one_read : reads s.pending ≡ (if s.reading then 1 else 0)

abbrev socket :
    {V : Type 0} → Bool → Bool → Bool → List Operation → List Message → List V → WebSocket V
socket connected authenticated reading pending written processed = record {
  connected = connected;
  authenticated = authenticated;
  reading = reading;
  stop_reading = false;
  pending = pending;
  written = written;
  processed = processed;
}

abbrev in_progress : Bool → Bool → List Operation
in_progress writing reading =
    (if writing then channel_write ∷ [] else []) ++ (if reading then read ∷ [] else [])

bound-IfDefined :
    {A B : Type 0} (P : A → Type 0) (Q : B → Type 0) (x : Option A) (f : A → Option B)
    → IfDefined P x
    → ((y : A) → P y → IfDefined Q (f y))
    → IfDefined Q (x >>= f)
unfolding ◌>>=◌
bound-IfDefined P Q none f k h = tt
bound-IfDefined P Q (some y) f k h = h y k

-- The states that a socket comes to.
data Phase {V : Type 0} (first second : Message) : WebSocket V → Type 0 where
  resolving : Phase first second (socket false false false (resolve ∷ []) [] [])
  connecting : Phase first second (socket false false false (connect ∷ []) [] [])
  securing : Phase first second (socket false false false (ssl_handshake ∷ []) [] [])
  shaking_hands : Phase first second (socket false false false (handshake ∷ []) [] [])
  ended : (c : Bool) → Phase first second (socket c false false [] [] [])
  authenticating : Phase first second (socket true false false (auth_write ∷ []) (first ∷ []) [])
  refused : Phase first second (socket true false false [] (first ∷ []) [])
  listening : Phase first second (socket true false true (read ∷ []) (first ∷ []) [])
  subscribed :
      (writing reading : Bool) (messages : List V)
      → Phase first second
          (socket true true reading (in_progress writing reading) (first ∷ second ∷ []) messages)

before-IsOrderly :
    {V : Type 0} {first second : Message} {c r : Bool} {ops : List Operation} {w : List Message}
    → (rest : List Message) × (w ++ rest ≡ first ∷ second ∷ [])
    → reads ops ≡ (if r then 1 else 0)
    → IsOrderly {V = V} first second (socket c false r ops w [])
before-IsOrderly begins one = record {
  begins = begins;
  complete_once = λ e. cc;
  silent = λ e. refl;
  one_read = one;
}

reads-in_progress : (w r : Bool) → reads (in_progress w r) ≡ (if r then 1 else 0)
reads-in_progress true true = refl
reads-in_progress true false = refl
reads-in_progress false true = refl
reads-in_progress false false = refl

Phase-IsOrderly :
    {V : Type 0} {first second : Message} {s : WebSocket V}
    → Phase first second s
    → IsOrderly first second s
Phase-IsOrderly resolving = before-IsOrderly (_, refl) refl
Phase-IsOrderly connecting = before-IsOrderly (_, refl) refl
Phase-IsOrderly securing = before-IsOrderly (_, refl) refl
Phase-IsOrderly shaking_hands = before-IsOrderly (_, refl) refl
Phase-IsOrderly (ended c) = before-IsOrderly (_, refl) refl
Phase-IsOrderly authenticating = before-IsOrderly (_, refl) refl
Phase-IsOrderly refused = before-IsOrderly (_, refl) refl
Phase-IsOrderly listening = before-IsOrderly (_, refl) refl
Phase-IsOrderly (subscribed w r ms) = record {
  begins = ([], refl);
  complete_once = λ e. refl;
  silent = λ e. cc;
  one_read = reads-in_progress w r;
}

module _ {F : Double} (J : JsonCpp F) (stock key secret : Text) where
  abbrev pub setting : Setting
  setting = record { stock = stock; credentials = some (key, secret) }

  abbrev InPhase : WebSocket J.Value → Type 0
  InPhase = Phase (auth key secret) (subscribe stock)

  abbrev StaysIn : Option (WebSocket J.Value) → Type 0
  StaysIn = IfDefined InPhase

  -- A read before authentication completed.
  abbrev heard : WebSocket J.Value
  heard = socket true false false [] (auth key secret ∷ []) []

  answered : (answer : Option Bool) → StaysIn (on_answer J setting answer heard)
  unfolding on_answer subscribe_to_channels do_read
  answered none = tt
  answered (some false) = listening
  answered (some true) = subscribed true true []

  messages_heard : (messages : List J.Value) → StaysIn (on_messages J setting messages heard)
  unfolding on_messages do_read
  messages_heard [] = listening
  messages_heard (m ∷ ms) = answered (is_authenticated J setting m)

  parsed_heard : (root : Option J.Value) → StaysIn (on_parsed J setting root heard)
  unfolding on_parsed do_read
  parsed_heard none = listening
  parsed_heard (some root) = elim (Bool-cases (J.is_array root)) [
    | inl e ↦ rw e (messages_heard (J.elements root))
    | inr e ↦ rw e listening
  ]

  -- The same with the subscription, which may still be written.
  abbrev told : Bool → List J.Value → WebSocket J.Value
  told writing ms =
      socket true true false (in_progress writing false) (auth key secret ∷ subscribe stock ∷ []) ms

  reads_on : (writing : Bool) (ms : List J.Value) → InPhase (do_read (told writing ms))
  unfolding do_read
  reads_on true ms = subscribed true true ms
  reads_on false ms = subscribed false true ms

  messages_told :
      (writing : Bool) (ms messages : List J.Value)
      → StaysIn (on_messages J setting messages (told writing ms))
  unfolding on_messages
  messages_told writing ms [] = reads_on writing ms
  messages_told writing ms (m ∷ messages) = reads_on writing (ms ++ (m ∷ []))

  parsed_told :
      (writing : Bool) (ms : List J.Value) (root : Option J.Value)
      → StaysIn (on_parsed J setting root (told writing ms))
  unfolding on_parsed
  parsed_told writing ms none = reads_on writing ms
  parsed_told writing ms (some root) = elim (Bool-cases (J.is_array root)) [
    | inl e ↦ rw e (messages_told writing ms (J.elements root))
    | inr e ↦ rw e (reads_on writing ms)
  ]

  completes :
      (place : ℕ) (ok : Bool) (message : Text) {s : WebSocket J.Value}
      → InPhase s
      → StaysIn
          (complete J setting (record { position = place; succeeded = ok; message = message }) s)
  unfolding complete on_completed on_opened on_read send_auth_message do_read
  completes zero true m resolving = connecting
  completes zero false m resolving = ended false
  completes zero true m connecting = securing
  completes zero false m connecting = ended false
  completes zero true m securing = shaking_hands
  completes zero false m securing = ended false
  completes zero true m shaking_hands = authenticating
  completes zero false m shaking_hands = ended false
  completes zero true m authenticating = listening
  completes zero false m authenticating = refused
  completes zero true m listening = parsed_heard (J.parse m)
  completes zero false m listening = refused
  completes zero true m (subscribed true r ms) = subscribed false r ms
  completes zero false m (subscribed true r ms) = subscribed false r ms
  completes zero true m (subscribed false true ms) = parsed_told false ms (J.parse m)
  completes zero false m (subscribed false true ms) = subscribed false false ms
  completes (suc zero) true m (subscribed true true ms) = parsed_told true ms (J.parse m)
  completes (suc zero) false m (subscribed true true ms) = subscribed true false ms
  completes (suc (suc i)) ok m (subscribed true true ms) = subscribed true true ms
  completes (suc i) ok m (subscribed true false ms) = subscribed true false ms
  completes (suc i) ok m (subscribed false true ms) = subscribed false true ms
  completes i ok m (subscribed false false ms) = subscribed false false ms
  completes (suc i) ok m resolving = resolving
  completes (suc i) ok m connecting = connecting
  completes (suc i) ok m securing = securing
  completes (suc i) ok m shaking_hands = shaking_hands
  completes (suc i) ok m authenticating = authenticating
  completes (suc i) ok m listening = listening
  completes i ok m (ended c) = ended c
  completes i ok m refused = refused

  runs :
      (cs : List Completion) {s : WebSocket J.Value}
      → InPhase s
      → StaysIn (run_socket J setting cs s)
  unfolding run_socket
  runs [] p = p
  runs (c ∷ cs) p =
      bound-IfDefined InPhase InPhase _ (run_socket J setting cs)
        (completes c.position c.succeeded c.message p) (λ s' q. runs cs q)

  -- With the two credentials set, and in whatever order and with whatever results the operations complete,
  -- the socket writes the credentials and then at most the subscription, which it has written as soon as
  -- it is authenticated; before that it processes no message, and it never has two reads pending.
  pub run_socket-IsOrderly :
      (cs : List Completion) (s : WebSocket J.Value)
      → run_socket J setting cs new_socket ≡ some s
      → IsOrderly (auth key secret) (subscribe stock) s
  run_socket-IsOrderly cs s e = Phase-IsOrderly (subst StaysIn e (runs cs resolving))
