-- ===== src/Alpaca/WebSocket.antt =====
-- `WebSocket`, Computing-Server/src/Data-Fetcher-Core/Websocket.cpp: the handlers of its asynchronous
-- operations. A handler runs when an operation that was started completes; which of those does, and with what
-- result, is an event. DataBroker-Server/src/WebSockets/Sockets.cpp has the same handlers.
pub mod Orderly
use velocity_vortex.Base.{
  ℕ, zero, suc, Bool, true, false, ◌&&◌, ◌||◌, if◌then◌else◌, Option, none, some, List, [], ◌∷◌,
  ◌++◌, Text, codes,
}
use velocity_vortex.Trading.Double.{Double}
use velocity_vortex.Alpaca.Services.{JsonCpp, ◌>>=◌}

pub data Operation : Type 0 where
  resolve connect ssl_handshake handshake auth_write channel_write read : Operation

-- What is written: the key and the secret, or the symbol whose quotes are asked for.
pub data Message : Type 0 where
  auth : Text → Text → Message
  subscribe : Text → Message

-- `Stock`, and what std::getenv finds, unless one of the two is not set.
pub record Setting : Type 0 where
  pub stock : Text
  pub credentials : Option (Text × Text)

-- `pending` are the operations that were started and have not completed; `processed` are the messages
-- that `processMessage`, which the subclasses define, was given.
pub record WebSocket (V : Type 0) : Type 0 where
  pub connected : Bool
  pub authenticated : Bool
  pub reading : Bool
  pub stop_reading : Bool
  pub pending : List Operation
  pub written : List Message
  pub processed : List V

-- The operation at this place completes, without an error or with one; a read brings a text.
pub record Completion : Type 0 where
  pub position : ℕ
  pub succeeded : Bool
  pub message : Text

abbrev pub take_at : {A : Type 0} → ℕ → List A → Option (A × List A)
take_at i [] = none
take_at zero (x ∷ xs) = some (x, xs)
take_at (suc i) (x ∷ xs) = elim (take_at i xs) [ none ↦ none | some (y, ys) ↦ some (y, x ∷ ys) ]

module _ {V : Type 0} where
  abbrev pub start : Operation → WebSocket V → WebSocket V
  start op s = record s { pending = s.pending ++ (op ∷ []) }

  -- `async_write`. Its buffer is a local string that is gone before the write completes, so that what goes
  -- out is not defined; `written` has the messages that the code means to write.
  abbrev pub write : Operation → Message → WebSocket V → WebSocket V
  write op m s = start op (record s { written = s.written ++ (m ∷ []) })

  unfoldable pub send_auth_message : Option (Text × Text) → WebSocket V → WebSocket V
  send_auth_message none s = s
  send_auth_message (some (key, secret)) s = write auth_write (auth key secret) s

  unfoldable pub subscribe_to_channels : Text → WebSocket V → WebSocket V
  subscribe_to_channels stock s =
      if s.authenticated then write channel_write (subscribe stock) s else s

  unfoldable pub do_read : WebSocket V → WebSocket V
  do_read s = if s.stop_reading || s.reading then s else start read (record s { reading = true })

  -- The handlers before the first read: with an error they do nothing. (That the host name cannot be set
  -- counts as an error of `on_connect`.)
  unfoldable pub on_opened : Setting → Operation → WebSocket V → WebSocket V
  unfolding send_auth_message do_read
  on_opened setting resolve s = start connect s
  on_opened setting connect s = start ssl_handshake s
  on_opened setting ssl_handshake s = start handshake s
  on_opened setting handshake s =
      send_auth_message setting.credentials (record s { connected = true })
  on_opened setting auth_write s = do_read s
  on_opened setting channel_write s = s
  on_opened setting read s = s

-- `none`: an exception is thrown.
module _ {F : Double} (J : JsonCpp F) (setting : Setting) where
  -- `isMember("msg") && message["msg"] == "authenticated"`.
  unfoldable pub is_authenticated : J.Value → Option Bool
  is_authenticated message = do
    present ← J.is_member message (codes "msg")
    if present
        then (do
          value ← J.member message (codes "msg")
          some (J.is_text value (codes "authenticated")))
        else some false

  -- The answer to the first message, before authentication.
  unfoldable pub on_answer : Option Bool → WebSocket J.Value → Option (WebSocket J.Value)
  unfolding subscribe_to_channels do_read
  on_answer none s = none
  on_answer (some false) s = some (do_read s)
  on_answer (some true) s =
      some (do_read (subscribe_to_channels setting.stock (record s { authenticated = true })))

  -- Only the first message of an array is looked at.
  unfoldable pub on_messages : List J.Value → WebSocket J.Value → Option (WebSocket J.Value)
  unfolding on_answer is_authenticated do_read
  on_messages [] s = some (do_read s)
  on_messages (message ∷ others) s =
      if s.authenticated
      then some (do_read (record s { processed = s.processed ++ (message ∷ []) }))
      else on_answer (is_authenticated message) s

  unfoldable pub on_parsed : Option J.Value → WebSocket J.Value → Option (WebSocket J.Value)
  unfolding on_messages do_read
  on_parsed none s = some (do_read s)
  on_parsed (some root) s =
      if J.is_array root then on_messages (J.elements root) s else some (do_read s)

  unfoldable pub on_read : Bool → Text → WebSocket J.Value → Option (WebSocket J.Value)
  unfolding on_parsed
  on_read false message s = some (record s { reading = false })
  on_read true message s = on_parsed (J.parse message) (record s { reading = false })

  unfoldable pub on_completed :
      Operation → Bool → Text → WebSocket J.Value → Option (WebSocket J.Value)
  unfolding on_opened on_read
  on_completed read ok message s = on_read ok message s
  on_completed op false message s = some s
  on_completed op true message s = some (on_opened setting op s)

  -- If no operation is at the place, nothing completes.
  unfoldable pub complete : Completion → WebSocket J.Value → Option (WebSocket J.Value)
  unfolding on_completed
  complete c s = elim (take_at c.position s.pending) [
    | none ↦ some s
    | some (op, others) ↦ on_completed op c.succeeded c.message (record s { pending = others })
  ]

  unfoldable pub run_socket : List Completion → WebSocket J.Value → Option (WebSocket J.Value)
  unfolding complete
  run_socket [] s = some s
  run_socket (c ∷ cs) s = complete c s >>= run_socket cs

-- The object after its constructor and `run`.
abbrev pub new_socket : {V : Type 0} → WebSocket V
new_socket = record {
  connected = false;
  authenticated = false;
  reading = false;
  stop_reading = false;
  pending = resolve ∷ [];
  written = [];
  processed = [];
}
