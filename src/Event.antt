-- ===== src/Event.antt =====
-- include/http/event.h: the events that an engine queues.
use stunning_waddle.Base.{ℕ, Bytes}
use stunning_waddle.Headers.{Headers}

-- `std::error_code`: a code of the library's own category, or the generic `protocol_error`.
pub data ErrorCode : Type 0 where
  http_error : ℕ → ErrorCode
  errc_protocol_error : ErrorCode

pub record GoawayInfo : Type 0 where
  pub last_stream_id : ℕ
  pub ec : ℕ

pub data EventType : Type 0 where
  new_stream headers_event data_event stream_closed stream_reset goaway_event : EventType
  connection_error stream_window_available connection_window_available : EventType

-- The alternatives of the variant.
pub data Payload : Type 0 where
  monostate : Payload
  headers_payload : Headers → Payload
  data_payload : Bytes → Payload
  error_payload : ErrorCode → Payload
  goaway_payload : GoawayInfo → Payload

pub record Event : Type 0 where
  pub stream_id : ℕ
  pub type : EventType
  pub payload : Payload

abbrev pub plain_event : ℕ → EventType → Event
plain_event sid t = record { stream_id = sid; type = t; payload = monostate }

abbrev pub headers_of : ℕ → Headers → Event
headers_of sid h = record { stream_id = sid; type = headers_event; payload = headers_payload h }

abbrev pub data_of : ℕ → Bytes → Event
data_of sid d = record { stream_id = sid; type = data_event; payload = data_payload d }

abbrev pub error_of : ℕ → EventType → ErrorCode → Event
error_of sid t ec = record { stream_id = sid; type = t; payload = error_payload ec }

abbrev pub goaway_of : ℕ → GoawayInfo → Event
goaway_of sid info = record { stream_id = sid; type = goaway_event; payload = goaway_payload info }
