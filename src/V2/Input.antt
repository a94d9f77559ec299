-- ===== src/V2/Input.antt =====
-- source/v2/engine.cpp: `input_begin` and `input_end`, with the parser's callbacks as the
-- constructor registers them. The bytes that the caller wrote into the span of `input_begin` are
-- the argument of `input_end`.
pub mod Totality
pub mod Session
pub mod Data
pub mod Handshake
pub mod Settings
pub mod Goaway
pub mod WindowUpdate
pub mod BadPreface
pub mod Overrun
pub mod Cut
use stunning_waddle.Base.{
  ℕ, ◌-◌, Bool, ◌&&◌, List, [], ◌∷◌, ◌++◌, Option, none, some, Bytes, length, take, drop, is_empty,
  str_eq, if◌then◌else◌, leb, true, false,
}
use stunning_waddle.ErrorCodes.{protocol_error}
use stunning_waddle.Event.{error_of, connection_error, http_error}
use stunning_waddle.Frame.{FrameHeader}
use stunning_waddle.FrameParser.Defs.{FrameParser, Callbacks, consume}
use stunning_waddle.V2.State.{
  Engine, EngineState, idle, awaiting_preface, preface_sent, ready, input_capacity, queue_event,
}
use stunning_waddle.V2.Send.{preface, write_settings}
use stunning_waddle.V2.Receive.{Run, running, thrown, handle_frame_header, handle_payload_chunk}

-- The callbacks of the constructor. Once one has thrown, the parser returns and calls no other.
unfoldable pub header_callback : FrameHeader → Run → Run
header_callback h (running e) = running (handle_frame_header h e)
header_callback h (thrown error e) = thrown error e

unfoldable pub payload_callback : FrameHeader → Bytes → Run → ℕ × Run
payload_callback h chunk (running e) = handle_payload_chunk h chunk e
payload_callback h chunk (thrown error e) = (0, thrown error e)

abbrev pub callbacks : Callbacks Run
callbacks = record { header_cb = some header_callback; payload_cb = some payload_callback }

-- The free space behind the unconsumed bytes.
unfoldable pub input_begin : Engine → ℕ
input_begin e = input_capacity - length e.input_buffer

-- What follows the call of `consume`: the unconsumed bytes slide to the front, unless it threw.
unfoldable pub slide : ℕ → FrameParser → Bytes → Run → Run
slide consumed p buf (running e) =
    running (record e { parser = p; input_buffer = drop consumed buf })
slide consumed p buf (thrown error e) = thrown error (record e { parser = p })

-- `none` would mean that the parser's loop does not end.
unfoldable pub parse : Engine → Bytes → Option Run
parse e buf = elim (consume callbacks e.parser (running e) buf) [
  | none ↦ none
  | some r ↦ some (slide r.0 r.1 buf r.2)
]

unfoldable pub try_consume_client_preface : Engine → Bool × Engine
try_consume_client_preface e =
    if str_eq (take (length preface) e.input_buffer) preface
    then (true, e)
    else (false, queue_event e (error_of 0 connection_error (http_error protocol_error)))

-- The rest of the input, once the preface is there.
unfoldable pub after_preface : Engine → Option Run
after_preface e =
    let e' = record (write_settings e) { state = ready } in
    let remaining = drop (length preface) e.input_buffer in
    if is_empty remaining
    then some (running (record e' { input_buffer = [] }))
    else parse e' remaining

unfoldable pub await_preface : Engine → Option Run
await_preface e =
    let (valid, e') = try_consume_client_preface e in
    if leb (length preface) (length e.input_buffer)
    then (if valid then after_preface e' else some (running e'))
    else some (running e)

abbrev pub is_awaiting_preface : EngineState → Bool
is_awaiting_preface idle = false
is_awaiting_preface awaiting_preface = true
is_awaiting_preface preface_sent = false
is_awaiting_preface ready = false

unfoldable pub input_end : Engine → Bytes → Option Run
input_end e bytes =
    let e' = record e { input_buffer = e.input_buffer ++ bytes } in
    if is_empty bytes
    then some (running e)
    else if is_awaiting_preface e.state
    then await_preface e'
    else parse e' e'.input_buffer
