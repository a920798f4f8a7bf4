-- ===== src/Ws/Messages.antt =====
-- Errors, frames and the handler interface of v_exchanges_api_generics/src/ws.rs.
use v_exchanges.Prelude.{Bool, true, false, Option, none, some, List, [], ◌∷◌, ℤ, Result, Text}
use v_exchanges.Http.Errors.{ConstructAuthError, UrlError}

pub data WsError : Type 0 where
  definition : WsError
  tungstenite : Text → WsError
  auth : ConstructAuthError → WsError
  parse subscription : Text → WsError
  network_connection : WsError
  url : UrlError → WsError
  unexpected_event other : Text → WsError

-- The errors of the WebSocket library.
pub data ReadError : Type 0 where
  connection_closed already_closed io protocol attack_attempt capacity utf8 : ReadError
  write_buffer_full tls url http http_format : ReadError

-- `is_reconnecting`; `none` is its panics.
abbrev pub is_reconnecting : ReadError → Option Bool
is_reconnecting connection_closed = some true
is_reconnecting already_closed = some true
is_reconnecting io = some true
is_reconnecting protocol = some true
is_reconnecting attack_attempt = some true
is_reconnecting capacity = some false
is_reconnecting _ = none

-- `ResponseOrContent`.
pub data Answer (Message Content : Type 0) : Type 0 where
  response : List Message → Answer Message Content
  content : Content → Answer Message Content

-- `ContentEvent`; its time is in nanoseconds.
pub record ContentEvent (Value : Type 0) : Type 0 where
  pub data_ : Value
  pub topic : Text
  pub time : ℤ
  pub event_type : Text

-- A topic of the interface: a text, or an order.
pub data Topic (Order : Type 0) : Type 0 where
  string : Text → Topic Order
  order : Order → Topic Order

abbrev pub strings : {Order : Type 0} → List (Topic Order) → List Text
strings [] = []
strings (string s ∷ topics) = s ∷ strings topics
strings (order _ ∷ topics) = strings topics

-- The types of an exchange's messages, and its `WsHandler`. A text frame is parsed to a value, or
-- is no JSON; an acknowledgement of an active ping is told by `is_pong`.
pub record Protocol : Type 1 where
  pub Value : Type 0
  pub Message : Type 0
  pub Content : Type 0
  pub Handler : Type 0
  pub ping : Message
  pub is_pong : Value → Bool
  pub active_ping : Handler → List Message
  pub handle_auth : Handler → Result WsError (List Message) × Handler
  pub handle_jrpc : Value → Handler → Result WsError (Answer Message Content) × Handler

-- A frame of a batch.
pub data Frame (Value : Type 0) : Type 0 where
  text : Option Value → Frame Value
  ping pong close binary raw : Frame Value
  failed : ReadError → Frame Value

-- What completes first on the set of futures, or that nothing did in time.
pub data Event (Value : Type 0) : Type 0 where
  timed_out drained ping_due : Event Value
  wrote : Option ReadError → Event Value
  read : List (Frame Value) → Event Value
