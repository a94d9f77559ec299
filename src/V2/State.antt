-- ===== src/V2/State.antt =====
-- include/http/v2/engine.h and source/v2/engine.cpp: the engine's state, its constructor, and the
-- members that the sending and the receiving side share. `input_buffer` holds the bytes that are
-- buffered, so that `input_buffered_` is its length. The client's output callback does not call
-- the engine back: `output_ready_cb` says whether there is one, `ready_calls` counts its calls.
-- The map of the streams is read in the order in which the streams came.
use stunning_waddle.Base.{
  ℕ, ◌+◌, min, Bool, true, false, ◌&&◌, not, List, [], ◌∷◌, ◌++◌, Option, none, some, Bytes, length,
  drop, is_empty, if◌then◌else◌, Map, find, insert, ℤ, pos, ltb_ℤ,
}
use stunning_waddle.Frame.{Setting}
use stunning_waddle.FrameParser.Defs.{FrameParser, initial_parser}
use stunning_waddle.Hpack.Context.{HpackContext, new_context}
use stunning_waddle.ErrorCodes.{no_error}
use stunning_waddle.Event.{Event, plain_event, stream_window_available, connection_window_available}

pub data ConnectionRole : Type 0 where
  client server : ConnectionRole

pub data EngineState : Type 0 where
  idle awaiting_preface preface_sent ready : EngineState

pub record StreamFlowState : Type 0 where
  pub consumed_bytes : ℕ
  pub send_window : ℤ
  pub recv_window : ℤ
  pub known : Bool

pub record Engine : Type 0 where
  pub role : ConnectionRole
  pub state : EngineState
  pub input_buffer : Bytes
  pub pending_out : Bytes
  pub output_ready_cb : Bool
  pub ready_calls : ℕ
  pub had_output : Bool
  pub parser : FrameParser
  pub encode_ctx : HpackContext
  pub decode_ctx : HpackContext
  pub next_stream_id : ℕ
  pub initial_window_size : ℕ
  pub connection_consumed : ℕ
  pub connection_recv_window : ℤ
  pub local_settings : List Setting
  pub connection_send_window : ℤ
  pub peer_initial_window_size : ℕ
  pub stream_flow_states : Map StreamFlowState
  pub goaway_received : Bool
  pub last_goaway_stream_id : ℕ
  pub last_goaway_error_code : ℕ
  pub event_queue : List Event

abbrev pub default_initial_window_size : ℕ
default_initial_window_size = 65535

abbrev pub input_capacity : ℕ
input_capacity = 16384

abbrev pub max_frame_size : ℕ
max_frame_size = 16384

abbrev pub is_server : ConnectionRole → Bool
is_server client = false
is_server server = true

abbrev pub is_idle : EngineState → Bool
is_idle idle = true
is_idle awaiting_preface = false
is_idle preface_sent = false
is_idle ready = false

-- The constructor.
unfoldable pub new_engine : ConnectionRole → Engine
new_engine role = record {
  role = role;
  state = if is_server role then awaiting_preface else idle;
  input_buffer = [];
  pending_out = [];
  output_ready_cb = false;
  ready_calls = 0;
  had_output = false;
  parser = initial_parser;
  encode_ctx = new_context 4096;
  decode_ctx = new_context 4096;
  next_stream_id = if is_server role then 2 else 1;
  initial_window_size = default_initial_window_size;
  connection_consumed = 0;
  connection_recv_window = pos default_initial_window_size;
  local_settings = [];
  connection_send_window = pos default_initial_window_size;
  peer_initial_window_size = default_initial_window_size;
  stream_flow_states = [];
  goaway_received = false;
  last_goaway_stream_id = 0;
  last_goaway_error_code = no_error;
  event_queue = [];
}

unfoldable pub queue_event : Engine → Event → Engine
queue_event e ev = record e { event_queue = e.event_queue ++ (ev ∷ []) }

unfoldable pub has_events : Engine → Bool
has_events e = not (is_empty e.event_queue)

unfoldable pub next_event : Engine → Option Event × Engine
next_event e = elim e.event_queue [
  | [] ↦ (none, e)
  | ev ∷ rest ↦ (some ev, record e { event_queue = rest })
]

unfoldable pub has_output : Engine → Bool
has_output e = not (is_empty e.pending_out)

unfoldable pub on_output_ready : Engine → Engine
on_output_ready e = record e { output_ready_cb = true }

unfoldable pub output_begin : Engine → Bytes
output_begin e = e.pending_out

unfoldable pub output_end : Engine → ℕ → Engine
output_end e n =
    let left = drop (min n (length e.pending_out)) e.pending_out in
    record e { pending_out = left; had_output = if is_empty left then false else e.had_output }

unfoldable pub maybe_invoke_output_ready : Engine → Engine
maybe_invoke_output_ready e =
    if e.output_ready_cb && not e.had_output
    then record e { had_output = true; ready_calls = e.ready_calls + 1 }
    else e

-- The state that `get_or_init_stream_flow_state` gives to a new stream.
unfoldable pub new_flow_state : Engine → StreamFlowState
new_flow_state e = record {
  consumed_bytes = 0;
  send_window = pos e.peer_initial_window_size;
  recv_window = pos e.initial_window_size;
  known = false;
}

-- What the reference that `get_or_init_stream_flow_state` returns reads; `set_flow_state` is an
-- assignment through it, and enters the new stream in the map.
unfoldable pub get_or_init_stream_flow_state : Engine → ℕ → StreamFlowState
get_or_init_stream_flow_state e stream_id = elim (find stream_id e.stream_flow_states) [
  | none ↦ new_flow_state e
  | some s ↦ s
]

unfoldable pub set_flow_state : Engine → ℕ → StreamFlowState → Engine
set_flow_state e stream_id s = record e {
  stream_flow_states = insert stream_id s e.stream_flow_states;
}

unfoldable pub stream_send_window : Engine → ℕ → ℤ
stream_send_window e stream_id = elim (find stream_id e.stream_flow_states) [
  | none ↦ pos e.peer_initial_window_size
  | some s ↦ s.send_window
]

unfoldable pub notify_stream_window_available : Engine → ℕ → Engine
notify_stream_window_available e stream_id =
    if ltb_ℤ (pos 0) e.connection_send_window
    then queue_event e (plain_event stream_id stream_window_available)
    else e

-- The loop of `notify_connection_window_available`.
unfoldable pub notify_open_streams : Engine → Map StreamFlowState → Engine
notify_open_streams e [] = e
notify_open_streams e ((id, s) ∷ rest) =
    notify_open_streams
      (if ltb_ℤ (pos 0) s.send_window
        then queue_event e (plain_event id stream_window_available)
        else e)
      rest

unfoldable pub notify_connection_window_available : Engine → Engine
notify_connection_window_available e =
    notify_open_streams (queue_event e (plain_event 0 connection_window_available))
      e.stream_flow_states
