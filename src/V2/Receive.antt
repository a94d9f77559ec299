-- ===== src/V2/Receive.antt =====
-- source/v2/engine.cpp: what the HTTP/2 engine does with the frames that arrive. The payload
-- handler is the only one that can throw, out of the HPACK decoder.
pub mod Credit
pub mod Partial
pub mod Windows
pub mod Settings
pub mod Buffer
use stunning_waddle.Base.{
  ℕ, zero, suc, ◌+◌, ◌-◌, ◌*◌, ◌/◌, ◌%◌, ◌^◌, Bool, true, false, ◌&&◌, ◌||◌, not, List, [], ◌∷◌,
  ◌++◌, Bytes, length, get_or, if◌then◌else◌, ◌==◌, ltb, leb, Map, erase, ℤ, pos, ◌+ℤ◌, ◌-ℤ◌, ltb_ℤ,
  leb_ℤ,
}
use stunning_waddle.ErrorCodes.{protocol_error, flow_control_error, frame_size_error}
use stunning_waddle.Event.{
  plain_event, headers_of, data_of, error_of, goaway_of, connection_error, stream_closed,
  stream_reset, new_stream, http_error, errc_protocol_error,
}
use stunning_waddle.Hpack.Result.{Error, ok, err}
use stunning_waddle.Hpack.Context.{decode, decode_context}
use stunning_waddle.Frame.{
  FrameHeader, word_of, settings_id_value, initial_window_size, encode_window_update_frame,
  encode_settings_frame, data_frame, headers, priority, rst_stream, settings, push_promise, ping,
  goaway, window_update, continuation, unnamed,
}
use stunning_waddle.V2.State.{
  Engine, StreamFlowState, is_server, queue_event, maybe_invoke_output_ready,
  get_or_init_stream_flow_state, set_flow_state, notify_stream_window_available,
  notify_connection_window_available,
}

-- What a call leaves behind: the engine, and the exception that ended it if one did.
pub data Run : Type 0 where
  running : Engine → Run
  thrown : Error → Engine → Run

-- The connection-level part of `update_flow_control`, from the threshold on.
unfoldable pub credit_connection : Engine → Engine
credit_connection e =
    if leb (e.initial_window_size / 2) e.connection_consumed
    then maybe_invoke_output_ready (record e {
      pending_out = encode_window_update_frame e.pending_out 0 e.connection_consumed;
      connection_recv_window = e.connection_recv_window +ℤ pos e.connection_consumed;
      connection_consumed = 0;
    })
    else e

-- The stream-level part.
unfoldable pub credit_stream : Engine → ℕ → StreamFlowState → Engine
credit_stream e stream_id s =
    if leb (e.initial_window_size / 2) s.consumed_bytes
    then maybe_invoke_output_ready (
        set_flow_state
          (record e {
            pending_out = encode_window_update_frame e.pending_out stream_id s.consumed_bytes;
          })
          stream_id
          (record s { recv_window = s.recv_window +ℤ pos s.consumed_bytes; consumed_bytes = 0 }))
    else set_flow_state e stream_id s

unfoldable pub update_flow_control : Engine → ℕ → ℕ → Engine
update_flow_control e stream_id bytes_received =
    let s = get_or_init_stream_flow_state e stream_id in
    let window = e.connection_recv_window -ℤ pos bytes_received in
    let s' = record s { recv_window = s.recv_window -ℤ pos bytes_received } in
    let e' = record e { connection_recv_window = window } in
    if ltb_ℤ window (pos 0) || ltb_ℤ s'.recv_window (pos 0)
    then queue_event (set_flow_state e' stream_id s')
        (error_of 0 connection_error (http_error flow_control_error))
    else credit_stream
        (credit_connection
          (record e' { connection_consumed = (e.connection_consumed + bytes_received) % 2 ^ 32 }))
        stream_id (record s' { consumed_bytes = (s.consumed_bytes + bytes_received) % 2 ^ 32 })

-- `old <= 0 && window > 0`
unfoldable pub opens : ℤ → ℤ → Bool
opens old window = leb_ℤ old (pos 0) && ltb_ℤ (pos 0) window

-- The increment that a WINDOW_UPDATE payload holds, without its reserved bit.
unfoldable pub window_increment : Bytes → ℕ
window_increment payload =
    word_of (get_or payload 0 0 % 2 ^ 7) (get_or payload 1 0) (get_or payload 2 0)
      (get_or payload 3 0)

unfoldable pub update_connection_window : Engine → ℕ → Engine
update_connection_window e increment =
    let old = e.connection_send_window in
    let e' = record e { connection_send_window = old +ℤ pos increment } in
    if opens old e'.connection_send_window then notify_connection_window_available e' else e'

unfoldable pub update_stream_window : Engine → ℕ → ℕ → Engine
update_stream_window e stream_id increment =
    let s = get_or_init_stream_flow_state e stream_id in
    let s' = record s { send_window = s.send_window +ℤ pos increment } in
    let e' = set_flow_state e stream_id s' in
    if opens s.send_window s'.send_window then notify_stream_window_available e' stream_id else e'

unfoldable pub handle_window_update : Engine → ℕ → Bytes → Engine
handle_window_update e stream_id payload =
    let increment = window_increment payload in
    if ltb (length payload) 4
    then e
    else if increment == 0
    then queue_event e (error_of 0 connection_error (http_error protocol_error))
    else if stream_id == 0
    then update_connection_window e increment
    else update_stream_window e stream_id increment

-- The loop of `apply_peer_initial_window_size`, over the streams that are left.
unfoldable pub shift_windows : ℤ → Engine → Map StreamFlowState → Map StreamFlowState × Engine
shift_windows delta e [] = ([], e)
shift_windows delta e ((id, s) ∷ rest) =
    let s' = record s { send_window = s.send_window +ℤ delta } in
    let e' =
      if opens s.send_window s'.send_window then notify_stream_window_available e id else e in
    let (rest', e'') = shift_windows delta e' rest in ((id, s') ∷ rest', e'')

unfoldable pub apply_peer_initial_window_size : Engine → ℕ → Engine
apply_peer_initial_window_size e new_size =
    let (states, e') =
      shift_windows (pos new_size -ℤ pos e.peer_initial_window_size) e e.stream_flow_states in
    record e' { stream_flow_states = states; peer_initial_window_size = new_size }

-- One entry of a SETTINGS payload.
unfoldable pub handle_setting : Engine → ℕ → ℕ → Engine
handle_setting e id value =
    if id == settings_id_value initial_window_size
    then apply_peer_initial_window_size e value
    else e

unfoldable pub handle_settings_payload : Engine → Bytes → Engine
handle_settings_payload e (a ∷ b ∷ c ∷ d ∷ f ∷ g ∷ payload) =
    handle_settings_payload (handle_setting e (a * 2 ^ 8 + b) (word_of c d f g)) payload
handle_settings_payload e payload = e

unfoldable pub handle_goaway_payload : Engine → Bytes → ℕ → Engine
handle_goaway_payload e payload size =
    let last_stream_id =
      word_of (get_or payload 0 0) (get_or payload 1 0) (get_or payload 2 0) (get_or payload 3 0) in
    let error_code =
      word_of (get_or payload 4 0) (get_or payload 5 0) (get_or payload 6 0) (get_or payload 7 0) in
    if ltb size 8
    then e
    else if leb (2 ^ 31) last_stream_id
    then queue_event e (error_of 0 connection_error (http_error frame_size_error))
    else queue_event
        (record e {
          goaway_received = true;
          last_goaway_stream_id = last_stream_id;
          last_goaway_error_code = error_code;
        })
        (goaway_of 0 (record { last_stream_id = last_stream_id; ec = error_code }))

unfoldable pub is_ack : FrameHeader → Bool
is_ack h = h.flags % 2 == 1

-- `(h.flags & 0x01) != 0`, END_STREAM on DATA and HEADERS.
unfoldable pub ends_stream : FrameHeader → Bool
ends_stream h = h.flags % 2 == 1

-- `(h.flags & 0x04) != 0`
unfoldable pub ends_headers : FrameHeader → Bool
ends_headers h = h.flags / 4 % 2 == 1

-- A DATA or HEADERS frame with no payload ends its stream here.
unfoldable pub close_empty : FrameHeader → Engine → Engine
close_empty h e =
    if ends_stream h && (h.length_ == 0)
    then queue_event e (plain_event h.stream_id stream_closed)
    else e

unfoldable pub handle_frame_header : FrameHeader → Engine → Engine
handle_frame_header h e = elim h.type [
  | settings ↦
      if is_ack h
      then e
      else maybe_invoke_output_ready
          (record e { pending_out = encode_settings_frame e.pending_out [] true })
  | data_frame ↦ close_empty h e
  | headers ↦ close_empty h e
  | priority ↦ e
  | rst_stream ↦ e
  | push_promise ↦ e
  | ping ↦ e
  | goaway ↦ e
  | window_update ↦ e
  | continuation ↦ e
  | unnamed b ↦ e
]

-- `case frame_type::data`
unfoldable pub handle_data_chunk : FrameHeader → Bytes → Engine → Engine
handle_data_chunk h chunk e =
    let e' =
      update_flow_control (queue_event e (data_of h.stream_id chunk)) h.stream_id
        (length chunk % 2 ^ 32) in
    if ends_stream h
    then queue_event (record e' { stream_flow_states = erase h.stream_id e'.stream_flow_states })
        (plain_event h.stream_id stream_closed)
    else e'

-- `case frame_type::headers`, up to the flags.
unfoldable pub note_stream : ℕ → Engine → Engine
note_stream stream_id e =
    let s = get_or_init_stream_flow_state e stream_id in
    if is_server e.role && not s.known
    then queue_event (set_flow_state e stream_id (record s { known = true }))
        (plain_event stream_id new_stream)
    else set_flow_state e stream_id s

unfoldable pub close_headers : FrameHeader → Engine → Engine
close_headers h e =
    if ends_stream h then queue_event e (plain_event h.stream_id stream_closed) else e

-- `case frame_type::headers`
unfoldable pub handle_headers_chunk : FrameHeader → Bytes → Engine → ℕ × Run
handle_headers_chunk h chunk e =
    let e' = note_stream h.stream_id e in
    if ends_headers h
    then elim (decode e'.decode_ctx chunk) [
      | ok r ↦ (
        length chunk,
        running (
            close_headers h
              (queue_event (record e' { decode_ctx = r.0 }) (headers_of h.stream_id r.1))),
      )
      | err error ↦
          (0, thrown error (record e' { decode_ctx = decode_context e'.decode_ctx chunk }))
    ]
    else (length chunk, running (close_headers h e'))

-- A payload that is handled whole, and left to the caller until it is there.
unfoldable pub when_whole : FrameHeader → Bytes → Engine → Engine → ℕ × Run
when_whole h chunk e e' =
    if leb h.length_ (length chunk) then (length chunk, running e') else (0, running e)

-- An exception leaves the parser with nothing of the chunk consumed, which the 0 says.
unfoldable pub handle_payload_chunk : FrameHeader → Bytes → Engine → ℕ × Run
handle_payload_chunk h chunk e = elim h.type [
  | data_frame ↦ (length chunk, running (handle_data_chunk h chunk e))
  | headers ↦ handle_headers_chunk h chunk e
  | rst_stream ↦ (
    length chunk,
    running (queue_event e (error_of h.stream_id stream_reset errc_protocol_error)),
  )
  | settings ↦ when_whole h chunk e (handle_settings_payload e chunk)
  | goaway ↦ when_whole h chunk e (handle_goaway_payload e chunk h.length_)
  | window_update ↦ when_whole h chunk e (handle_window_update e h.stream_id chunk)
  | priority ↦ (length chunk, running e)
  | push_promise ↦ (length chunk, running e)
  | ping ↦ (length chunk, running e)
  | continuation ↦ (length chunk, running e)
  | unnamed b ↦ (length chunk, running e)
]
