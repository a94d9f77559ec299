-- ===== src/Context.antt =====
-- include/http/stream.h, source/stream.cpp, include/http/context_base.h, source/context_base.cpp,
-- client_context.cpp and server_context.cpp, over an engine that is known by its operations. A
-- `shared_ptr<stream_state>` is an index into `heap`, where a state stays when `streams_` drops it.
pub mod Events
pub mod Lifecycle
pub mod Engines
pub mod Queues
use stunning_waddle.Base.{
  ℕ, zero, suc, ◌+◌, Bool, true, false, ◌&&◌, not, List, [], ◌∷◌, ◌++◌, Option, none, some, Bytes,
  length, get_elem?, if◌then◌else◌, ◌==◌, Map, find, insert, erase, ℤ, pos,
}
use stunning_waddle.Headers.{Headers}
use stunning_waddle.Event.{
  Event, EventType, new_stream, headers_event, data_event, stream_closed, stream_reset,
  goaway_event, connection_error, stream_window_available, connection_window_available,
}
use stunning_waddle.V2.State.{ConnectionRole, client, server}

-- The operations of `protocol_engine` that streams and contexts call.
pub record ProtocolEngine (En : Type 0) : Type 0 where
  pub engine_next_event : En → Option Event × En
  pub engine_open_stream : En → ℕ × En
  pub engine_send_request_headers : En → ℕ → Bytes → Bytes → Bytes → Headers → Bool → En
  pub engine_send_response_headers : En → ℕ → ℕ → Headers → Bool → En
  pub engine_send_data : En → ℕ → Bytes → Bool → ℕ × En
  pub engine_stream_send_window : En → ℕ → ℤ
  pub engine_connection_send_window : En → ℤ

pub data StreamStateEnum : Type 0 where
  idle open_ half_closed_local half_closed_remote closed : StreamStateEnum

-- `owner` is the kind of the context that bound the send functions: a client's stream has no
-- `send_response_headers_fn`, a server's no `send_request_headers_fn`.
pub record StreamState : Type 0 where
  pub id : ℕ
  pub state : StreamStateEnum
  pub headers_sent : Bool
  pub owner : ConnectionRole

-- `stream`, by its `impl_`.
abbrev pub Stream : Type 0
Stream = Option ℕ

pub record Context (En : Type 0) : Type 0 where
  pub kind : ConnectionRole
  pub engine : En
  pub heap : List StreamState
  pub streams : Map ℕ

abbrev pub is_server_side : ConnectionRole → Bool
is_server_side client = false
is_server_side server = true

abbrev pub is_half_closed_local : StreamStateEnum → Bool
is_half_closed_local half_closed_local = true
is_half_closed_local _ = false

abbrev pub is_open : StreamStateEnum → Bool
is_open open_ = true
is_open _ = false

abbrev pub is_closed : StreamStateEnum → Bool
is_closed closed = true
is_closed _ = false

unfoldable pub write_state : List StreamState → ℕ → StreamState → List StreamState
write_state [] i s = []
write_state (x ∷ heap) zero s = s ∷ heap
write_state (x ∷ heap) (suc i) s = x ∷ write_state heap i s

-- The new state in `close_stream_internal`.
unfoldable pub close_remote : StreamStateEnum → StreamStateEnum
close_remote s =
    if is_half_closed_local s then closed else if is_open s then half_closed_remote else closed

-- The state that sending headers leads to.
unfoldable pub state_after_headers : Bool → StreamStateEnum
state_after_headers end_stream = if end_stream then half_closed_local else open_

module _ {En : Type 0} (api : ProtocolEngine En) where
  -- What `impl_` points to.
  unfoldable pub deref : Context En → Stream → Option StreamState
  deref c none = none
  deref c (some i) = get_elem? c.heap i

  unfoldable pub set_state : Context En → Stream → StreamState → Context En
  set_state c none s = c
  set_state c (some i) s = record c { heap = write_state c.heap i s }

  unfoldable pub send_headers :
      Context En → Stream → Bytes → Bytes → Bytes → Headers → Bool → Context En
  send_headers c st method path authority h end_stream = elim (deref c st) [
    | none ↦ c
    | some s ↦
        if is_server_side s.owner
        then c
        else set_state
            (record c {
              engine =
                  api.engine_send_request_headers c.engine s.id method path authority h end_stream;
            })
            st (record s { state = state_after_headers end_stream; headers_sent = true })
  ]

  unfoldable pub send_response : Context En → Stream → ℕ → Headers → Bool → Context En
  send_response c st status_code h end_stream = elim (deref c st) [
    | none ↦ c
    | some s ↦
        if is_server_side s.owner
        then set_state
            (record c {
              engine = api.engine_send_response_headers c.engine s.id status_code h end_stream;
            })
            st (record s { state = state_after_headers end_stream; headers_sent = true })
        else c
  ]

  unfoldable pub stream_send_data : Context En → Stream → Bytes → Bool → ℕ × Context En
  stream_send_data c st body end_stream = elim (deref c st) [
    | none ↦ (0, c)
    | some s ↦
        if not s.headers_sent
        then (0, c)
        else let (sent, engine') = api.engine_send_data c.engine s.id body end_stream in
          let c' = record c { engine = engine' } in
          if end_stream && (sent == length body)
          then (sent, set_state c' st (record s { state = half_closed_local }))
          else (sent, c')
  ]

  unfoldable pub send_end : Context En → Stream → Context En
  send_end c st = (stream_send_data c st [] true).1

  unfoldable pub stream_window : Context En → Stream → ℤ
  stream_window c st = elim (deref c st) [
    | none ↦ pos 0
    | some s ↦ api.engine_stream_send_window c.engine s.id
  ]

  unfoldable pub connection_window : Context En → Stream → ℤ
  connection_window c st = elim (deref c st) [
    | none ↦ pos 0
    | some s ↦ api.engine_connection_send_window c.engine
  ]

  unfoldable pub stream_id_of : Context En → Stream → ℕ
  stream_id_of c st = elim (deref c st) [ none ↦ 0 | some s ↦ s.id ]

  unfoldable pub stream_state_of : Context En → Stream → StreamStateEnum
  stream_state_of c st = elim (deref c st) [ none ↦ closed | some s ↦ s.state ]

  unfoldable pub get_stream : Context En → ℕ → Stream
  get_stream c id = find id c.streams

  unfoldable pub active_streams : Context En → ℕ
  active_streams c = length c.streams

  -- `create_stream_with_state` on a new state.
  unfoldable pub create_stream_with_state : Context En → StreamState → Stream × Context En
  create_stream_with_state c s = (
    some (length c.heap),
    record c { heap = c.heap ++ (s ∷ []); streams = insert s.id (length c.heap) c.streams },
  )

  unfoldable pub new_stream_state : Context En → ℕ → StreamState
  new_stream_state c id = record { id = id; state = idle; headers_sent = false; owner = c.kind }

  -- `client_context::open_stream`
  unfoldable pub context_open_stream : Context En → Stream × Context En
  context_open_stream c =
      let (id, engine') = api.engine_open_stream c.engine in
      create_stream_with_state (record c { engine = engine' }) (new_stream_state c id)

  -- A server creates the stream, a client does nothing.
  unfoldable pub on_new_stream_event : Context En → ℕ → Context En
  on_new_stream_event c id =
      if is_server_side c.kind then (create_stream_with_state c (new_stream_state c id)).1 else c

  -- The body of `close_stream_internal`, on the state that the iterator points to.
  unfoldable pub close_found : Context En → ℕ → ℕ → StreamState → Context En
  close_found c id i s =
      let s' = record s { state = close_remote s.state } in
      let c' = record c { heap = write_state c.heap i s' } in
      if is_closed s'.state then record c' { streams = erase id c'.streams } else c'

  unfoldable pub close_stream_internal : Context En → ℕ → Context En
  close_stream_internal c id = elim (find id c.streams) [
    | none ↦ c
    | some i ↦ elim (get_elem? c.heap i) [ none ↦ c | some s ↦ close_found c id i s ]
  ]

  unfoldable pub reset_stream_internal : Context En → ℕ → Context En
  reset_stream_internal c id = record c { streams = erase id c.streams }

  -- The switch of `next_event`: the context, and whether the event is passed on.
  unfoldable pub handle_event : Context En → Event → Context En × Bool
  handle_event c ev = elim ev.type [
    | new_stream ↦ (on_new_stream_event c ev.stream_id, false)
    | stream_closed ↦ (close_stream_internal c ev.stream_id, true)
    | stream_reset ↦ (reset_stream_internal c ev.stream_id, true)
    | headers_event ↦ (c, true)
    | data_event ↦ (c, true)
    | goaway_event ↦ (c, true)
    | connection_error ↦ (c, true)
    | stream_window_available ↦ (c, true)
    | connection_window_available ↦ (c, true)
  ]

  -- The loop of `next_event`. The outer `none` means that the fuel ran out.
  unfoldable pub context_next_event : ℕ → Context En → Option (Option Event × Context En)
  context_next_event zero c = none
  context_next_event (suc fuel) c =
      let (found, engine') = api.engine_next_event c.engine in
      let c' = record c { engine = engine' } in
      elim found [
        | none ↦ some (none, c')
        | some ev ↦
            let (c'', passed) = handle_event c' ev in
            let rest = context_next_event fuel c'' in if passed then some (some ev, c'') else rest
      ]
