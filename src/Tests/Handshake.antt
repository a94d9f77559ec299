-- ===== src/Tests/Handshake.antt =====
-- source/v2/engine.cpp: a connection is set up, streams are opened, and a body arrives in pieces.
use stunning_waddle.Base.{
  codes, str_eq, ltb_ℤ, ◌&&◌, ℕ, List, All, ◌+ℤ◌, ◌-ℤ◌, false, ◌+◌, ◌≤◌, ◌<◌, ◌^◌, ◌≡◌, refl, true,
  [], ◌∷◌, some, arith, pos, ◌≤ℤ◌, ◌++◌, find, if◌then◌else◌, ◌==◌, not, take, drop, inl, ◌<ℤ◌,
}
use stunning_waddle.Frame.{
  encode_data_frame, Setting, encode_settings_frame, encode_goaway_frame,
  encode_window_update_frame, max_frame_size, initial_window_size, settings_id_value,
  settings_id_of,
}
use stunning_waddle.FrameParser.OneFrame.{IsIdle}
use stunning_waddle.V2.State.{
  Engine, client, server, is_server, is_idle, idle, awaiting_preface, ready, new_flow_state,
  new_engine, default_initial_window_size, stream_send_window, get_or_init_stream_flow_state,
}
use stunning_waddle.V2.Send.{open_stream}
use stunning_waddle.V2.Send.Streams.{greeting, open_stream-twice}
use stunning_waddle.V2.Receive.{running, opens}
use stunning_waddle.V2.Receive.Partial.{closings}
use stunning_waddle.V2.Input.Overrun.{overrun_events, input_end-overrun}
use stunning_waddle.V2.Input.Cut.{input_end-cut}
use stunning_waddle.V2.Input.{input_end}
use stunning_waddle.V2.Input.Session.{IsWaiting}
use stunning_waddle.V2.Input.Data.{data_events, input_end-encode_data_frame}
use stunning_waddle.V2.Receive.Settings.{IsWireSetting, last_size}
use stunning_waddle.Event.{goaway_of, plain_event, stream_window_available}
use stunning_waddle.V2.Input.BadPreface.{IsBad, feed, refusals, all_bytes, feed-IsBad}
use stunning_waddle.V2.Input.Goaway.{input_end-encode_goaway_frame}
use stunning_waddle.V2.Input.WindowUpdate.{input_end-encode_window_update_frame}
use stunning_waddle.V2.Input.Settings.{input_end-encode_settings_frame}
use stunning_waddle.V2.Input.Handshake.{input_end-open_stream}

client_role : (new_engine client).role ≡ client
unfolding new_engine
client_role = refl

client_state : (new_engine client).state ≡ idle
unfolding new_engine
client_state = refl

client_output : (new_engine client).pending_out ≡ []
unfolding new_engine
client_output = refl

client_settings : (new_engine client).local_settings ≡ []
unfolding new_engine
client_settings = refl

client_size : (new_engine client).initial_window_size ≤ default_initial_window_size
unfolding new_engine
client_size = omega arith

server_state : (new_engine server).state ≡ awaiting_preface
unfolding new_engine
server_state = refl

server_parser-IsIdle : IsIdle (new_engine server).parser
unfolding new_engine
server_parser-IsIdle = record { awaits = refl; fresh = refl }

server_buffer : (new_engine server).input_buffer ≡ []
unfolding new_engine
server_buffer = refl

input_end-open_stream_example :
    (s' : Engine) × (input_end (new_engine server) (open_stream (new_engine client)).1.pending_out
      ≡ some (running s'))
    × (s'.event_queue ≡ (new_engine server).event_queue)
    × (s'.decode_ctx ≡ (new_engine server).decode_ctx)
    × IsWaiting s'
input_end-open_stream_example =
    input_end-open_stream (new_engine client) (new_engine server) client_role client_state
      client_output client_settings client_size server_state server_parser-IsIdle server_buffer

client_next : (new_engine client).next_stream_id + 2 < 2 ^ 32
unfolding new_engine
client_next = omega arith

open_stream-twice_example :
    let id = (open_stream (new_engine client)).0 in
    let e' = (open_stream (new_engine client)).1 in
    (id ≡ (new_engine client).next_stream_id)
    × ((open_stream e').0 ≡ id + 2)
    × ((open_stream e').1.pending_out ≡ (
        if not (is_server (new_engine client).role) && is_idle (new_engine client).state
        then greeting (new_engine client)
        else (new_engine client).pending_out))
    × ((open_stream e').1.pending_out ≡ e'.pending_out)
    × (stream_send_window e' id ≡ pos (new_engine client).peer_initial_window_size)
    × ((get_or_init_stream_flow_state e' id).known ≡ true)
    × (find 9 e'.stream_flow_states ≡ (
        if id == 9
        then some (get_or_init_stream_flow_state e' id)
        else find 9 (new_engine client).stream_flow_states))
open_stream-twice_example = open_stream-twice (new_engine client) 9 client_next

abbrev waiting_server : Engine
unfolding new_engine
waiting_server = record (new_engine server) { state = ready }

waiting_server-IsWaiting : IsWaiting waiting_server
unfolding new_engine waiting_server
waiting_server-IsWaiting = record {
  open_ = refl;
  idle = record { awaits = refl; fresh = refl };
  drained = refl;
}

server_window : pos 2 ≤ℤ waiting_server.connection_recv_window
unfolding new_engine waiting_server
server_window = omega arith

server_stream_window : pos 2 ≤ℤ (get_or_init_stream_flow_state waiting_server 1).recv_window
unfolding new_engine waiting_server get_or_init_stream_flow_state new_flow_state find
server_stream_window = omega arith

input_end-encode_data_frame_example :
    (s' : Engine) × (input_end waiting_server (encode_data_frame [] 1 (7 ∷ 8 ∷ []) true)
      ≡ some (running s'))
    × (s'.event_queue ≡ waiting_server.event_queue ++ data_events 1 (7 ∷ 8 ∷ []) true)
    × IsWaiting s'
input_end-encode_data_frame_example =
    input_end-encode_data_frame waiting_server 1 (7 ∷ 8 ∷ []) true waiting_server-IsWaiting
      (omega arith) (omega arith) (omega arith) server_window server_stream_window

abbrev two_settings : List Setting
two_settings =
    record { id = max_frame_size; value = 16384 }
    ∷ record { id = initial_window_size; value = 100 }
    ∷ []

two_settings-IsWireSetting : All IsWireSetting two_settings
unfolding settings_id_value settings_id_of
two_settings-IsWireSetting = (
  record { value_fits = omega arith; id_fits = omega arith; named = refl },
  (record { value_fits = omega arith; id_fits = omega arith; named = refl }, tt),
)

input_end-encode_settings_frame_example :
    let size = last_size waiting_server.peer_initial_window_size two_settings in
    (s' : Engine) × (input_end waiting_server (encode_settings_frame [] two_settings false)
      ≡ some (running s'))
    × (s'.pending_out ≡ encode_settings_frame waiting_server.pending_out [] true)
    × (s'.peer_initial_window_size ≡ size)
    × ((k : ℕ)
        → stream_send_window s' k
          ≡ stream_send_window waiting_server k
            +ℤ (pos size -ℤ pos waiting_server.peer_initial_window_size))
    × (s'.connection_send_window ≡ waiting_server.connection_send_window)
    × IsWaiting s'
input_end-encode_settings_frame_example =
    input_end-encode_settings_frame waiting_server two_settings waiting_server-IsWaiting
      (omega arith) (omega arith) two_settings-IsWireSetting

input_end-encode_goaway_frame_example :
    (s' : Engine) × (input_end waiting_server (encode_goaway_frame [] 7 2 (33 ∷ []))
      ≡ some (running s'))
    × (s' ≡ record waiting_server {
      goaway_received = true;
      last_goaway_stream_id = 7;
      last_goaway_error_code = 2;
      event_queue =
          waiting_server.event_queue ++ (goaway_of 0 (record { last_stream_id = 7; ec = 2 }) ∷ []);
      parser = s'.parser;
    })
    × IsWaiting s'
input_end-encode_goaway_frame_example =
    input_end-encode_goaway_frame waiting_server 7 2 (33 ∷ []) waiting_server-IsWaiting
      (omega arith) (omega arith) (omega arith)

input_end-encode_window_update_frame_example :
    let old = stream_send_window waiting_server 1 in
    (s' : Engine) × (input_end waiting_server (encode_window_update_frame [] 1 500)
      ≡ some (running s'))
    × ((k : ℕ)
        → stream_send_window s' k
          ≡ (if 1 == k then old +ℤ pos 500 else stream_send_window waiting_server k))
    × (s'.event_queue ≡ (
        if opens old (old +ℤ pos 500) && ltb_ℤ (pos 0) waiting_server.connection_send_window
        then waiting_server.event_queue ++ (plain_event 1 stream_window_available ∷ [])
        else waiting_server.event_queue))
    × (s'.connection_send_window ≡ waiting_server.connection_send_window)
    × IsWaiting s'
input_end-encode_window_update_frame_example =
    input_end-encode_window_update_frame waiting_server 1 500 waiting_server-IsWaiting (omega arith)
      (omega arith) (omega arith) (omega arith)

-- A server whose connection window is all but used up.
abbrev tight_server : Engine
tight_server = record waiting_server { connection_recv_window = pos 1 }

tight_server-IsWaiting : IsWaiting tight_server
unfolding new_engine
tight_server-IsWaiting = record {
  open_ = refl;
  idle = record { awaits = refl; fresh = refl };
  drained = refl;
}

tight_window : tight_server.connection_recv_window <ℤ pos 2
tight_window = omega arith

input_end-overrun_example :
    (s' : Engine) × (input_end tight_server (encode_data_frame [] 1 (7 ∷ 8 ∷ []) true)
      ≡ some (running s'))
    × (s'.event_queue ≡ tight_server.event_queue ++ overrun_events 1 (7 ∷ 8 ∷ []) true)
    × (s'.pending_out ≡ tight_server.pending_out)
    × IsWaiting s'
input_end-overrun_example =
    input_end-overrun tight_server 1 (7 ∷ 8 ∷ []) true tight_server-IsWaiting (omega arith)
      (omega arith) (omega arith) (inl tight_window)

input_end-cut_example :
    let frame = encode_data_frame [] 1 (7 ∷ 8 ∷ 9 ∷ []) true in
    let closed = closings 1 waiting_server.event_queue in
    ((s1 : Engine) × (s2 : Engine) × (input_end waiting_server (take (9 + 1) frame)
        ≡ some (running s1))
      × (closings 1 s1.event_queue ≡ closed + 1)
      × (input_end s1 (drop (9 + 1) frame) ≡ some (running s2))
      × (closings 1 s2.event_queue ≡ closed + 2)
      × IsWaiting s2)
    × ((s' : Engine) × (input_end waiting_server frame ≡ some (running s'))
        × (closings 1 s'.event_queue ≡ closed + 1)
        × IsWaiting s')
input_end-cut_example =
    input_end-cut waiting_server 1 (7 ∷ []) (8 ∷ 9 ∷ []) waiting_server-IsWaiting (omega arith)
      (omega arith) (omega arith) (omega arith)

-- A server that has got an HTTP/1.1 request.
abbrev puzzled_server : Engine
puzzled_server = record (new_engine server) { input_buffer = codes "GET /index.html HTTP/1.1" }

puzzled_server-IsBad : IsBad puzzled_server.input_buffer
unfolding str_eq
puzzled_server-IsBad = record { enough = omega arith; differs = refl }

feed-IsBad_example :
    feed puzzled_server ((13 ∷ []) ∷ (10 ∷ []) ∷ [])
    ≡ some (
        running (record puzzled_server {
          input_buffer = puzzled_server.input_buffer ++ all_bytes ((13 ∷ []) ∷ (10 ∷ []) ∷ []);
          event_queue = puzzled_server.event_queue ++ refusals ((13 ∷ []) ∷ (10 ∷ []) ∷ []);
        }))
feed-IsBad_example =
    feed-IsBad ((13 ∷ []) ∷ (10 ∷ []) ∷ []) puzzled_server server_state puzzled_server-IsBad
      (omega arith, (omega arith, tt))
