-- ===== src/Context/Engines.antt =====
-- source/client_context.cpp, server_context.cpp, include/http/protocol_engine.h and context_base.h: the
-- choice of an engine by version, and what a context passes on to it. A `protocol_engine` is one
-- of the two engines. The HTTP/1.1 operations that parse give an option, which is `none` for no
-- valid engine (V1/Reachable); the engine is then left as it is.
use stunning_waddle.Base.{ℕ, Bool, [], Option, none, some, Bytes, ℤ}
use stunning_waddle.Event.{Event}
use stunning_waddle.Headers.{Headers}
use stunning_waddle.Hpack.Result.{Error}
use stunning_waddle.V2.State.{
  ConnectionRole, Engine as Engine2, new_engine as new_engine2, next_event as next_event2,
  has_events as has_events2, has_output as has_output2, output_begin as output_begin2,
  output_end as output_end2, on_output_ready as on_output_ready2,
  stream_send_window as stream_send_window2,
}
use stunning_waddle.V2.Send.{
  open_stream as open_stream2, send_request_headers as send_request_headers2,
  send_response_headers as send_response_headers2, send_data as send_data2,
  set_initial_window_size as set_initial_window_size2,
}
use stunning_waddle.V2.Receive.{Run, running, thrown}
use stunning_waddle.V2.Input.{input_begin as input_begin2, input_end as input_end2}
use stunning_waddle.V1.State.{
  Engine as Engine1, new_engine as new_engine1, next_event as next_event1,
  has_events as has_events1, has_output as has_output1, output_begin as output_begin1,
  output_end as output_end1, on_output_ready as on_output_ready1,
  stream_send_window as stream_send_window1, connection_send_window as connection_send_window1,
  open_stream as open_stream1,
}
use stunning_waddle.V1.Send.{send_request_headers as send_request_headers1}
use stunning_waddle.V1.Input.{
  input_begin as input_begin1, input_end as input_end1, eof as eof1,
  send_response_headers as send_response_headers1, send_data as send_data1,
}
use stunning_waddle.Context.{ProtocolEngine, Context}

pub data ProtocolVersion : Type 0 where
  v1_1 v2 v3 : ProtocolVersion

pub data AnyEngine : Type 0 where
  http1 : Engine1 → AnyEngine
  http2 : Engine2 → AnyEngine

-- The engine that an operation leaves behind.
abbrev pub or_same : Engine1 → Option Engine1 → Engine1
or_same e none = e
or_same e (some e') = e'

unfoldable pub any_next_event : AnyEngine → Option Event × AnyEngine
any_next_event (http1 e) = let (ev, e') = next_event1 e in (ev, http1 e')
any_next_event (http2 e) = let (ev, e') = next_event2 e in (ev, http2 e')

unfoldable pub any_open_stream : AnyEngine → ℕ × AnyEngine
any_open_stream (http1 e) = let (id, e') = open_stream1 e in (id, http1 e')
any_open_stream (http2 e) = let (id, e') = open_stream2 e in (id, http2 e')

unfoldable pub any_send_request_headers :
    AnyEngine → ℕ → Bytes → Bytes → Bytes → Headers → Bool → AnyEngine
any_send_request_headers (http1 e) id method path authority h fin =
    http1 (send_request_headers1 e id method path authority h fin)
any_send_request_headers (http2 e) id method path authority h fin =
    http2 (send_request_headers2 e id method path authority h fin)

unfoldable pub any_send_response_headers : AnyEngine → ℕ → ℕ → Headers → Bool → AnyEngine
any_send_response_headers (http1 e) id status h fin =
    http1 (or_same e (send_response_headers1 e id status h fin))
any_send_response_headers (http2 e) id status h fin =
    http2 (send_response_headers2 e id status h fin)

unfoldable pub any_send_data : AnyEngine → ℕ → Bytes → Bool → ℕ × AnyEngine
any_send_data (http1 e) id body fin =
    let (sent, e') = send_data1 e id body fin in (sent, http1 (or_same e e'))
any_send_data (http2 e) id body fin = let (sent, e') = send_data2 e id body fin in (sent, http2 e')

unfoldable pub any_stream_send_window : AnyEngine → ℕ → ℤ
any_stream_send_window (http1 e) id = stream_send_window1 e id
any_stream_send_window (http2 e) id = stream_send_window2 e id

unfoldable pub any_connection_send_window : AnyEngine → ℤ
any_connection_send_window (http1 e) = connection_send_window1 e
any_connection_send_window (http2 e) = e.connection_send_window

-- The operations that streams and contexts call, on either engine.
abbrev pub any_engine : ProtocolEngine AnyEngine
any_engine = record {
  engine_next_event = any_next_event;
  engine_open_stream = any_open_stream;
  engine_send_request_headers = any_send_request_headers;
  engine_send_response_headers = any_send_response_headers;
  engine_send_data = any_send_data;
  engine_stream_send_window = any_stream_send_window;
  engine_connection_send_window = any_connection_send_window;
}

-- `make_unique`, or the exception for a version that is not there.
unfoldable pub engine_of : ProtocolVersion → ConnectionRole → Option AnyEngine
engine_of v1_1 role = some (http1 (new_engine1 role))
engine_of v2 role = some (http2 (new_engine2 role))
engine_of v3 role = none

-- `set_protocol_version` of a client's or a server's context; `none` is the exception.
unfoldable pub set_protocol_version :
    Context AnyEngine → ProtocolVersion → Option (Context AnyEngine)
set_protocol_version c v = elim (engine_of v c.kind) [
  | none ↦ none
  | some engine ↦ some (record c { engine = engine })
]

-- The constructors of the two contexts.
unfoldable pub initial_context : ConnectionRole → Context AnyEngine
initial_context role = record {
  kind = role;
  engine = http2 (new_engine2 role);
  heap = [];
  streams = [];
}

-- What a context passes on: input, the end of input, output, and whether there are events.
unfoldable pub context_input_begin : Context AnyEngine → ℕ
context_input_begin c = elim c.engine [ http1 e ↦ input_begin1 e | http2 e ↦ input_begin2 e ]

-- How input ends: in a context, with the exception that was thrown if one was.
abbrev pub Ending : Type 0
Ending = Option Error × Context AnyEngine

abbrev pub run_ending : Context AnyEngine → Run → Ending
run_ending c (running e) = (none, record c { engine = http2 e })
run_ending c (thrown error e) = (some error, record c { engine = http2 e })

-- `none` would mean that a parser's loop does not end.
unfoldable pub context_input_end : Context AnyEngine → Bytes → Option Ending
context_input_end c bytes = elim c.engine [
  | http1 e ↦ elim (input_end1 e bytes) [
    | none ↦ none
    | some e' ↦ some (none, record c { engine = http1 e' })
  ]
  | http2 e ↦ elim (input_end2 e bytes) [ none ↦ none | some r ↦ some (run_ending c r) ]
]

-- The HTTP/2 engine does nothing at the end of input.
unfoldable pub any_eof : AnyEngine → AnyEngine
any_eof (http1 e) = http1 (eof1 e)
any_eof (http2 e) = http2 e

unfoldable pub context_eof : Context AnyEngine → Context AnyEngine
context_eof c = record c { engine = any_eof c.engine }

unfoldable pub context_output_begin : Context AnyEngine → Bytes
context_output_begin c = elim c.engine [ http1 e ↦ output_begin1 e | http2 e ↦ output_begin2 e ]

unfoldable pub any_output_end : AnyEngine → ℕ → AnyEngine
any_output_end (http1 e) n = http1 (output_end1 e n)
any_output_end (http2 e) n = http2 (output_end2 e n)

unfoldable pub context_output_end : Context AnyEngine → ℕ → Context AnyEngine
context_output_end c n = record c { engine = any_output_end c.engine n }

unfoldable pub context_has_output : Context AnyEngine → Bool
context_has_output c = elim c.engine [ http1 e ↦ has_output1 e | http2 e ↦ has_output2 e ]

unfoldable pub any_on_output_ready : AnyEngine → AnyEngine
any_on_output_ready (http1 e) = http1 (on_output_ready1 e)
any_on_output_ready (http2 e) = http2 (on_output_ready2 e)

unfoldable pub context_on_output_ready : Context AnyEngine → Context AnyEngine
context_on_output_ready c = record c { engine = any_on_output_ready c.engine }

unfoldable pub any_has_events : AnyEngine → Bool
any_has_events (http1 e) = has_events1 e
any_has_events (http2 e) = has_events2 e

unfoldable pub context_has_events : Context AnyEngine → Bool
context_has_events c = any_has_events c.engine

-- The HTTP/1.1 engine inherits the empty default.
unfoldable pub any_set_initial_window_size : AnyEngine → ℕ → AnyEngine
any_set_initial_window_size (http1 e) size = http1 e
any_set_initial_window_size (http2 e) size = http2 (set_initial_window_size2 e size)

unfoldable pub context_set_initial_window_size : Context AnyEngine → ℕ → Context AnyEngine
context_set_initial_window_size c size = record c {
  engine = any_set_initial_window_size c.engine size;
}
