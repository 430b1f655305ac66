-- ===== src/IoServer/RedisSubscriber.antt =====
-- IO-Server/src/Redissubscriber.cpp: the messages of the Redis channels, parsed and put into the
-- database. The reply is hiredis's. What is only
-- logged is left out.
use velocity_vortex.Base.{
  ℕ, Bool, true, false, ◌||◌, ◌&&◌, ◌==◌, Option, none, some, List, [], ◌∷◌, ◌++◌, length, Text,
  codes, if◌then◌else◌, eq_text, ltb,
}
use velocity_vortex.Base.Number.{stoll}
use velocity_vortex.IoServer.Library.{Library}
use velocity_vortex.IoServer.Program.{
  Program, done, clock, BindValue, bind_int, bind_real, bind_text, ◌>>=◌, ◌>>◌, catching, run_exec,
}
pub mod Split
pub mod Sound
unfoldable pub use Split.*

unfoldable pub starts_with : Text → Text → Bool
starts_with [] text = true
starts_with (c ∷ word) [] = false
starts_with (c ∷ word) (d ∷ text) = (c == d) && starts_with word text

-- `text.find(word) != std::string::npos`.
unfoldable pub has_word : Text → Text → Bool
unfolding starts_with
has_word word [] = starts_with word []
has_word word (c ∷ text) = starts_with word (c ∷ text) || has_word word text

-- The statements that store a message.
unfoldable pub insert_raw : Text
insert_raw =
    codes "\n            INSERT INTO raw_messages (channel, message, received_at, processed)\n"
    ++ (codes "            VALUES (?, ?, ?, 0)\n        ")

unfoldable pub insert_trade : Text
insert_trade =
    codes
      "\n            INSERT INTO trades (symbol, price, quantity, timestamp, trade_id, side, created_at)\n"
    ++ (codes "            VALUES (?, ?, ?, ?, ?, ?, ?)\n        ")

unfoldable pub update_raw : Text
update_raw =
    codes "\n            UPDATE raw_messages SET processed = 1 \n"
    ++ (codes "            WHERE message = ? AND channel = ? AND processed = 0\n        ")

unfoldable pub insert_orderbook : Text
insert_orderbook =
    codes
      "\n            INSERT INTO orderbook_updates (symbol, side, price, quantity, timestamp, update_type, sequence, created_at)\n"
    ++ (codes "            VALUES (?, ?, ?, ?, ?, ?, ?, ?)\n        ")

unfoldable pub insert_ticker : Text
insert_ticker =
    codes
      "\n            INSERT INTO ticker_updates (symbol, bid, ask, last, volume, timestamp, created_at)\n"
    ++ (codes "            VALUES (?, ?, ?, ?, ?, ?, ?)\n        ")

-- What comes after a conversion, unless the conversion throws.
unfoldable pub given : {A B : Type 0} → Option A → (A → Option B) → Option B
given none next = none
given (some x) next = next x

-- An element of a `redisReply`: a null pointer, or a reply with its `str`, which is null for a nil or an
-- integer.
pub data Element : Type 0 where
  null_element : Element
  element : Option Text → Element

-- `redisReply`, with whether it is an array.
pub record Reply : Type 0 where
  pub is_array : Bool
  pub elements : List Element

-- `element ? element->str : ""`, made a std::string. `none`: that of a null pointer is not defined.
abbrev pub text_of : Element → Option Text
text_of null_element = some []
text_of (element str) = str

module _ {L : Library} where
  -- `none`: there are too few parts, or one is no number.
  unfoldable pub trade_params : List Text → Option (List (BindValue L))
  unfolding stoll
  trade_params (symbol ∷ price ∷ quantity ∷ timestamp ∷ trade_id ∷ side ∷ more) =
      given (L.stod price) (λ p. given (L.stod quantity) (λ q. given (stoll timestamp) (λ t. some (
        bind_text symbol
        ∷ bind_real p
        ∷ bind_real q
        ∷ bind_int t
        ∷ bind_text trade_id
        ∷ bind_text side
        ∷ []))))
  trade_params _ = none

  unfoldable pub orderbook_params : List Text → Option (List (BindValue L))
  unfolding stoll
  orderbook_params (symbol ∷ side ∷ price ∷ quantity ∷ timestamp ∷ update_type ∷ sequence ∷ more) =
      given (L.stod price) (λ p. given (L.stod quantity) (λ q. given (stoll timestamp) (λ t.
        given (stoll sequence) (λ n. some (
          bind_text symbol
          ∷ bind_text side
          ∷ bind_real p
          ∷ bind_real q
          ∷ bind_int t
          ∷ bind_text update_type
          ∷ bind_int n
          ∷ [])))))
  orderbook_params _ = none

  unfoldable pub ticker_params : List Text → Option (List (BindValue L))
  unfolding stoll
  ticker_params (symbol ∷ bid ∷ ask ∷ last ∷ volume ∷ timestamp ∷ more) = given (L.stod bid) (λ b.
      given (L.stod ask) (λ a. given (L.stod last) (λ l. given (L.stod volume) (λ v.
        given (stoll timestamp) (λ t. some (
          bind_text symbol
          ∷ bind_real b
          ∷ bind_real a
          ∷ bind_real l
          ∷ bind_real v
          ∷ bind_int t
          ∷ []))))))
  ticker_params _ = none

  unfoldable pub parse_trade_message : Text → Option (List (BindValue L))
  unfolding split_string trade_params
  parse_trade_message message = trade_params (split_string 44 message)

  unfoldable pub parse_order_book_message : Text → Option (List (BindValue L))
  unfolding split_string orderbook_params
  parse_order_book_message message = orderbook_params (split_string 44 message)

  unfoldable pub parse_ticker_message : Text → Option (List (BindValue L))
  unfolding split_string ticker_params
  parse_ticker_message message = ticker_params (split_string 44 message)

  unfoldable pub store_raw_message : Text → Text → Program L (Unit {0})
  store_raw_message channel message =
      catching (λ e. done tt)
        (do
          now ← clock done
          run_exec insert_raw (bind_text channel ∷ bind_text message ∷ bind_int now ∷ []))

  -- What a parsed message is stored with; a message that could not be parsed, or not be stored, is
  -- stored as it is.
  unfoldable pub store_parsed :
      Text
      → Text
      → Option (List (BindValue L))
      → (List (BindValue L) → Program L (Unit {0}))
      → Program L (Unit {0})
  store_parsed channel message none store = store_raw_message channel message
  store_parsed channel message (some params) store =
      catching (λ e. store_raw_message channel message) (store params)

  -- The statement with the time at its end.
  unfoldable pub insert_now : Text → List (BindValue L) → Program L (Unit {0})
  insert_now sql params = do now ← clock done; run_exec sql (params ++ (bind_int now ∷ []))

  unfoldable pub store_trade : Text → Text → Program L (Unit {0})
  store_trade channel message =
      store_parsed channel message (parse_trade_message message) (λ params. do
        insert_now insert_trade params
        run_exec update_raw (bind_text message ∷ bind_text channel ∷ []))

  unfoldable pub store_order_book : Text → Text → Program L (Unit {0})
  store_order_book channel message =
      store_parsed channel message (parse_order_book_message message) (insert_now insert_orderbook)

  unfoldable pub store_ticker : Text → Text → Program L (Unit {0})
  store_ticker channel message =
      store_parsed channel message (parse_ticker_message message) (insert_now insert_ticker)

  -- The table for a message, by the name of its channel.
  unfoldable pub route_message : Text → Text → Program L (Unit {0})
  route_message channel message =
      if has_word (codes "trade") channel || eq_text channel (codes "trades")
      then store_trade channel message
      else if has_word (codes "orderbook") channel || eq_text channel (codes "orderbook")
      then store_order_book channel message
      else if has_word (codes "ticker") channel || eq_text channel (codes "tickers")
      then store_ticker channel message
      else done tt

  -- `none`: it has no defined behaviour.
  unfoldable pub process_elements : List Element → Option (Program L (Unit {0}))
  unfolding given
  process_elements (element (some kind) ∷ channel ∷ message ∷ more) =
      if eq_text kind (codes "message")
      then given (text_of channel) (λ name.
        given (text_of message)
          (λ content. some (store_raw_message name content >> route_message name content)))
      else some (done tt)
  process_elements _ = some (done tt)

  unfoldable pub process_reply : Option Reply → Option (Program L (Unit {0}))
  unfolding process_elements
  process_reply none = some (done tt)
  process_reply (some reply) =
      if reply.is_array then process_elements reply.elements else some (done tt)
