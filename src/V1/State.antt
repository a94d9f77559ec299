-- ===== src/V1/State.antt =====
-- include/http/v1/engine.h and source/v1/engine.cpp: the engine's state, its constructor, events and
-- output. `input_buffer` holds the buffered bytes, so that `input_buffered_` is its length; the
-- output callback is as in the HTTP/2 engine's model; `streams_` is read by key only.
use stunning_waddle.Base.{
  ℕ, ◌+◌, ◌-◌, ◌^◌, ◌%◌, min, Bool, true, false, ◌&&◌, not, List, [], ◌∷◌, ◌++◌, Option, none, some,
  Bytes, length, drop, is_empty, if◌then◌else◌, ◌==◌, Map, find, insert, ℤ, pos,
}
use stunning_waddle.ErrorCodes.{no_error}
use stunning_waddle.Event.{Event, EventType, error_of, goaway_of, http_error}
use stunning_waddle.Headers.{Headers}
use stunning_waddle.V2.State.{ConnectionRole}

pub data ParseState : Type 0 where
  start_line skip_interim reading_headers body_length chunk_size chunk_data : ParseState
  chunk_crlf chunk_trailer body_until_close awaiting_response done : ParseState

pub record StreamInfo : Type 0 where
  pub id : ℕ
  pub method : Bytes
  pub head : Bytes
  pub body_staged : Bytes
  pub head_sent : Bool
  pub finished : Bool
  pub chunked : Bool
  pub no_body : Bool
  pub request_body_done : Bool
  pub request_complete : Bool
  pub close_after : Bool

pub record Engine : Type 0 where
  pub role : ConnectionRole
  pub state : ParseState
  pub input_buffer : Bytes
  pub pending_out : Bytes
  pub output_ready_cb : Bool
  pub ready_calls : ℕ
  pub had_output : Bool
  pub streams : Map StreamInfo
  pub stream_order : List ℕ
  pub next_stream_id : ℕ
  pub active_stream : Option ℕ
  pub status_code : ℤ
  pub http_minor : ℕ
  pub body_remaining : ℕ
  pub message_headers : Headers
  pub pending_target : Bytes
  pub connection_done : Bool
  pub goaway_sent : Bool
  pub eof_seen : Bool
  pub last_stream_id : ℕ
  pub event_queue : List Event

abbrev pub input_capacity : ℕ
input_capacity = 16384

abbrev pub unlimited_window : ℤ
unlimited_window = pos (2 ^ 63 - 1)

-- The default values of `stream_info`.
abbrev pub default_info : StreamInfo
default_info = record {
  id = 0;
  method = [];
  head = [];
  body_staged = [];
  head_sent = false;
  finished = false;
  chunked = false;
  no_body = false;
  request_body_done = false;
  request_complete = false;
  close_after = false;
}

-- The constructor.
unfoldable pub new_engine : ConnectionRole → Engine
new_engine role = record {
  role = role;
  state = start_line;
  input_buffer = [];
  pending_out = [];
  output_ready_cb = false;
  ready_calls = 0;
  had_output = false;
  streams = [];
  stream_order = [];
  next_stream_id = 1;
  active_stream = none;
  status_code = pos 0;
  http_minor = 1;
  body_remaining = 0;
  message_headers = [];
  pending_target = [];
  connection_done = false;
  goaway_sent = false;
  eof_seen = false;
  last_stream_id = 0;
  event_queue = [];
}

-- `event_queue_.emplace_back`
abbrev pub queue_event : Engine → Event → Engine
queue_event e ev = record e { event_queue = e.event_queue ++ (ev ∷ []) }

unfoldable pub has_events : Engine → Bool
has_events e = not (is_empty e.event_queue)

unfoldable pub next_event : Engine → Option Event × Engine
next_event e = elim e.event_queue [
  | [] ↦ (none, e)
  | ev ∷ rest ↦ (some ev, record e { event_queue = rest })
]

unfoldable pub has_output : Engine → Bool
has_output e = not (is_empty e.pending_out)

unfoldable pub on_output_ready : Engine → Engine
on_output_ready e = record e { output_ready_cb = true }

unfoldable pub output_begin : Engine → Bytes
output_begin e = e.pending_out

unfoldable pub output_end : Engine → ℕ → Engine
output_end e n =
    let left = drop (min n (length e.pending_out)) e.pending_out in
    record e { pending_out = left; had_output = if is_empty left then false else e.had_output }

unfoldable pub maybe_invoke_output_ready : Engine → Engine
maybe_invoke_output_ready e =
    if e.output_ready_cb && not e.had_output
    then record e { had_output = true; ready_calls = e.ready_calls + 1 }
    else e

unfoldable pub append_pending : Engine → Bytes → Engine
append_pending e bytes =
    maybe_invoke_output_ready (record e { pending_out = e.pending_out ++ bytes })

unfoldable pub connection_send_window : Engine → ℤ
connection_send_window e = unlimited_window

unfoldable pub stream_send_window : Engine → ℕ → ℤ
stream_send_window e stream_id = unlimited_window

abbrev pub update : Engine → ℕ → StreamInfo → Engine
update e id info = record e { streams = insert id info e.streams }

-- What `streams_[id]` reads.
unfoldable pub info_at : Engine → ℕ → StreamInfo
info_at e id = elim (find id e.streams) [ none ↦ default_info | some info ↦ info ]

-- `next_stream_id_`, with the increment that follows its use.
unfoldable pub advance_stream_id : Engine → Engine
advance_stream_id e = record e { next_stream_id = (e.next_stream_id + 2) % 2 ^ 32 }

unfoldable pub open_stream : Engine → ℕ × Engine
open_stream e =
    let id = e.next_stream_id in
    let e' = advance_stream_id e in
    let info = record (info_at e' id) { id = id } in
    (id, record (update e' id info) { stream_order = e.stream_order ++ (id ∷ []) })

unfoldable pub erase_first : ℕ → List ℕ → List ℕ
erase_first id [] = []
erase_first id (x ∷ xs) = if x == id then xs else x ∷ erase_first id xs

unfoldable pub erase_stream_order : Engine → ℕ → Engine
erase_stream_order e id = record e { stream_order = erase_first id e.stream_order }

unfoldable pub mark_connection_done : Engine → Engine
mark_connection_done e =
    let e' = record e { connection_done = true; state = done; active_stream = none } in
    if e.goaway_sent
    then e'
    else queue_event (record e' { goaway_sent = true })
        (goaway_of 0 (record { last_stream_id = e.last_stream_id; ec = no_error }))

unfoldable pub connection_error : Engine → ℕ → Engine
connection_error e ec =
    if e.connection_done
    then e
    else record (queue_event e (error_of 0 EventType.connection_error (http_error ec))) {
      connection_done = true;
      state = done;
      active_stream = none;
    }

-- `active_stream_ == id`
unfoldable pub is_active : Engine → ℕ → Bool
is_active e id = elim e.active_stream [ none ↦ false | some a ↦ a == id ]
