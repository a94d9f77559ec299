-- ===== src/Tests/Connection.antt =====
-- source/v2/frame_parser.cpp and engine.cpp on concrete input.
use stunning_waddle.Base.{
  ℕ, ◌+◌, ◌≤◌, ◌<◌, ◌≡◌, refl, ◌∙◌, sym, true, ◌&&◌, [], ◌∷◌, ◌++◌, append_assoc, append-nil, some,
  Bytes, length, arith, take, min, pos, ◌+ℤ◌, ◌-ℤ◌, ◌≤ℤ◌, ◌<ℤ◌, pos_part, find, if◌then◌else◌, ◌==◌,
}
use stunning_waddle.Event.{plain_event, connection_window_available}
use stunning_waddle.Frame.{
  FrameHeader, data_frame, write_frame_header, word_bytes, frame_type_of, frame_type_byte,
  parse_header, word_of,
}
use stunning_waddle.Frame.Layout.{IsWire}
use stunning_waddle.FrameParser.Defs.{
  FrameParser, Callbacks, initial_parser, call_header, call_payload, consume, consume_loop, turn,
  read_header, process_header, reading_payload,
}
use stunning_waddle.FrameParser.Totality.{IsValid, IsBounded, Ends, consume-Ends}
use stunning_waddle.FrameParser.Bytewise.{TakesAll, feed_all}
use stunning_waddle.FrameParser.Cuts.{consume-resume}
use stunning_waddle.FrameParser.OneFrame.{frame_end, consume_frame}
use stunning_waddle.V2.State.{
  Engine, client, new_engine, stream_send_window, get_or_init_stream_flow_state, new_flow_state,
  input_capacity,
}
use stunning_waddle.V2.Send.{send_data}
use stunning_waddle.V2.Send.Chunks.{Chunks, available, send_data-frames}
use stunning_waddle.V2.Receive.{handle_window_update, opens}
use stunning_waddle.V2.Receive.Windows.{open_stream_events, handle_window_update-connection}
use stunning_waddle.V2.Input.{input_begin, input_end}
use stunning_waddle.V2.Input.Totality.{Returns, input_end-Returns}

-- Callbacks that write down what they are given.
abbrev log_callbacks : Callbacks Bytes
log_callbacks = record {
  header_cb = some (λ h log. log ++ (h.stream_id ∷ []));
  payload_cb = some (λ h chunk log. (length chunk, log ++ chunk));
}

abbrev log_byte : FrameHeader → ℕ → Bytes → Bytes
log_byte h b log = log ++ (b ∷ [])

feed_all-log : (h : FrameHeader) (chunk log : Bytes) → feed_all log_byte h chunk log ≡ log ++ chunk
feed_all-log h [] log = sym (append-nil log)
feed_all-log h (b ∷ chunk) log =
    feed_all-log h chunk (log ++ (b ∷ [])) ∙ append_assoc log (b ∷ []) chunk

log-TakesAll : TakesAll log_callbacks log_byte
unfolding call_payload
log-TakesAll h [] log = refl
log-TakesAll h (b ∷ chunk) log = ground (arith, feed_all-log h (b ∷ chunk) log)

log-IsBounded : IsBounded log_callbacks
unfolding call_payload
log-IsBounded h chunk log = ground arith

initial-IsValid : IsValid initial_parser
initial-IsValid = record { header_short = omega arith; payload_open = tt }

abbrev small_frame : FrameHeader
small_frame = record { length_ = 2; type = data_frame; flags = 1; stream_id = 3; reserved = 0 }

small_frame-IsWire : IsWire small_frame
unfolding frame_type_of frame_type_byte
small_frame-IsWire = record {
  length_fits = omega arith;
  type_named = refl;
  stream_fits = omega arith;
  reserved_zero = refl;
}

consume-Ends_example : Ends 5 (consume log_callbacks initial_parser [] (0 ∷ 0 ∷ 2 ∷ 0 ∷ 1 ∷ []))
consume-Ends_example =
    consume-Ends log_callbacks log-IsBounded initial_parser [] (0 ∷ 0 ∷ 2 ∷ 0 ∷ 1 ∷ [])
      initial-IsValid

abbrev half_read : FrameParser
half_read = record initial_parser { header_buffer = 0 ∷ 0 ∷ 2 ∷ 0 ∷ 1 ∷ [] }

first_half :
    consume log_callbacks initial_parser [] (0 ∷ 0 ∷ 2 ∷ 0 ∷ 1 ∷ []) ≡ some (5, half_read, [])
unfolding consume consume_loop turn read_header
first_half = refl

second_half :
    consume log_callbacks half_read [] (0 ∷ 0 ∷ 0 ∷ 3 ∷ [])
    ≡ some
        (4, record initial_parser { state = reading_payload; current_header = small_frame }, 3 ∷ [])
unfolding consume consume_loop turn read_header process_header parse_header word_of call_header
    frame_type_of
second_half = refl

consume-resume_example :
    consume log_callbacks initial_parser [] (0 ∷ 0 ∷ 2 ∷ 0 ∷ 1 ∷ 0 ∷ 0 ∷ 0 ∷ 3 ∷ [])
    ≡ some
        (9, record initial_parser { state = reading_payload; current_header = small_frame }, 3 ∷ [])
consume-resume_example =
    consume-resume log_callbacks log-IsBounded initial_parser half_read
      (record initial_parser { state = reading_payload; current_header = small_frame }) [] []
      (3 ∷ []) (0 ∷ 0 ∷ 2 ∷ 0 ∷ 1 ∷ []) (0 ∷ 0 ∷ 0 ∷ 3 ∷ []) 4 initial-IsValid first_half refl
      second_half

consume_frame_example :
    consume log_callbacks initial_parser [] (write_frame_header [] small_frame ++ (7 ∷ 8 ∷ []))
    ≡ some (
      9 + 2,
      frame_end initial_parser small_frame,
      feed_all log_byte small_frame (7 ∷ 8 ∷ []) (call_header log_callbacks small_frame []),
    )
consume_frame_example =
    consume_frame log_callbacks log_byte log-TakesAll initial_parser [] small_frame (7 ∷ 8 ∷ [])
      (record { awaits = refl; fresh = refl }) small_frame-IsWire refl

abbrev fresh_client : Engine
unfolding new_engine
fresh_client = new_engine client

fresh_window : pos 0 <ℤ available fresh_client 1
unfolding new_engine stream_send_window find
fresh_window = omega arith

send_data-frames_example :
    let n = min 2 (pos_part (available fresh_client 1)) in
    let e' = (send_data fresh_client 1 (7 ∷ 8 ∷ []) true).1 in
    ((send_data fresh_client 1 (7 ∷ 8 ∷ []) true).0 ≡ n)
    × (0 < n)
    × Chunks 1 ((n == 2) && true) (take n (7 ∷ 8 ∷ [])) fresh_client.pending_out e'.pending_out
    × (e'.connection_send_window ≡ fresh_client.connection_send_window -ℤ pos n)
    × (stream_send_window e' 1 ≡ stream_send_window fresh_client 1 -ℤ pos n)
    × (pos 0 ≤ℤ e'.connection_send_window)
    × (pos 0 ≤ℤ stream_send_window e' 1)
    × (stream_send_window e' 3 ≡ (
        if 1 == 3
        then stream_send_window fresh_client 1 -ℤ pos n
        else stream_send_window fresh_client 3))
send_data-frames_example =
    send_data-frames fresh_client 1 3 (7 ∷ 8 ∷ []) true (omega arith) fresh_window

stream_fits : pos 40000 ≤ℤ (get_or_init_stream_flow_state fresh_client 1).recv_window
unfolding new_engine get_or_init_stream_flow_state find new_flow_state
stream_fits = omega arith

-- A client whose connection window is used up.
abbrev blocked_client : Engine
blocked_client = record fresh_client { connection_send_window = pos 0 }

handle_window_update-connection_example :
    let window = blocked_client.connection_send_window +ℤ pos 10 in
    handle_window_update blocked_client 0 (word_bytes 10) ≡ record blocked_client {
      connection_send_window = window;
      event_queue =
          if opens blocked_client.connection_send_window window
          then blocked_client.event_queue
            ++ (plain_event 0 connection_window_available
                ∷ open_stream_events blocked_client.stream_flow_states)
          else blocked_client.event_queue;
    }
handle_window_update-connection_example =
    handle_window_update-connection blocked_client 10 (omega arith) (omega arith)

client_parser-IsValid : IsValid fresh_client.parser
unfolding new_engine
client_parser-IsValid = initial-IsValid

client_buffer : length fresh_client.input_buffer ≤ input_capacity
unfolding new_engine
client_buffer = omega arith

client_room : 3 ≤ input_begin fresh_client
unfolding new_engine input_begin
client_room = omega arith

input_end-Returns_example : Returns input_capacity (input_end fresh_client (0 ∷ 0 ∷ 4 ∷ []))
input_end-Returns_example =
    input_end-Returns fresh_client (0 ∷ 0 ∷ 4 ∷ []) client_parser-IsValid client_buffer client_room
