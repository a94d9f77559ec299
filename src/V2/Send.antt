-- ===== src/V2/Send.antt =====
-- source/v2/engine.cpp: what the HTTP/2 engine writes: the connection preface and the SETTINGS,
-- opened streams, header blocks, body data and GOAWAY, and the window that the client chooses.
pub mod Chunks
pub mod Streams
use stunning_waddle.Base.{
  ℕ, zero, suc, ◌+◌, ◌-◌, ◌%◌, ◌^◌, min, Bool, true, false, ◌&&◌, not, List, [], ◌∷◌, ◌++◌, Option,
  none, some, Bytes, codes, length, take, drop, is_empty, if◌then◌else◌, ◌==◌, ltb, ℤ, pos,
  pos_part, ◌+ℤ◌, ◌-ℤ◌, ltb_ℤ, leb_ℤ,
}
use stunning_waddle.Decimal.{to_string}
use stunning_waddle.Headers.{Header, Headers}
use stunning_waddle.Hpack.Context.{encode}
use stunning_waddle.Frame.{
  encode_data_frame, encode_headers_frame, encode_settings_frame, encode_window_update_frame,
  encode_goaway_frame, initial_window_size,
}
use stunning_waddle.V2.State.{
  Engine, is_server, is_idle, preface_sent, default_initial_window_size, max_frame_size,
  maybe_invoke_output_ready, get_or_init_stream_flow_state, set_flow_state, stream_send_window,
}

abbrev pub preface : Bytes
preface =
    codes "PRI * HTTP/2.0" ++ (13 ∷ 10 ∷ 13 ∷ 10 ∷ []) ++ (codes "SM" ++ (13 ∷ 10 ∷ 13 ∷ 10 ∷ []))

unfoldable pub write_preface : Engine → Engine
write_preface e = maybe_invoke_output_ready (record e { pending_out = e.pending_out ++ preface })

unfoldable pub write_settings : Engine → Engine
write_settings e =
    let out = encode_settings_frame e.pending_out e.local_settings false in
    maybe_invoke_output_ready (record e {
      pending_out =
          if ltb default_initial_window_size e.initial_window_size
          then encode_window_update_frame out 0
              (e.initial_window_size - default_initial_window_size)
          else out;
    })

-- The preface and the SETTINGS that a client writes before its first stream.
unfoldable pub start_client : Engine → Engine
start_client e =
    if not (is_server e.role) && is_idle e.state
    then record (write_settings (write_preface e)) { state = preface_sent }
    else e

unfoldable pub open_stream : Engine → ℕ × Engine
open_stream e =
    let id = e.next_stream_id in
    let started = start_client e in
    let s = get_or_init_stream_flow_state started id in
    let opened =
      set_flow_state started id
        (record s { known = true; send_window = pos started.peer_initial_window_size }) in
    (id, record opened { next_stream_id = (e.next_stream_id + 2) % 2 ^ 32 })

-- `encode` has Huffman coding by default.
unfoldable pub send_headers_frame : Engine → ℕ → Headers → Bool → Engine
send_headers_frame e stream_id header_list end_stream =
    let (header_block, encode_ctx') = encode e.encode_ctx [] header_list true in
    maybe_invoke_output_ready (record e {
      encode_ctx = encode_ctx';
      pending_out = encode_headers_frame e.pending_out stream_id header_block true end_stream;
    })

abbrev field : Bytes → Bytes → Header
field name value = record { name = name; value = value }

unfoldable pub request_header_list : Bytes → Bytes → Bytes → Headers → Headers
request_header_list method path authority headers =
    field (codes ":method") method
    ∷ field (codes ":scheme") (codes "https")
    ∷ field (codes ":authority") authority
    ∷ field (codes ":path") path
    ∷ headers

unfoldable pub send_request_headers : Engine → ℕ → Bytes → Bytes → Bytes → Headers → Bool → Engine
send_request_headers e stream_id method path authority headers end_stream =
    send_headers_frame e stream_id (request_header_list method path authority headers) end_stream

-- A status code is not negative here, as `std::to_string` of an `int` would allow.
unfoldable pub response_header_list : ℕ → Headers → Headers
response_header_list status_code headers = field (codes ":status") (to_string status_code) ∷ headers

unfoldable pub send_response_headers : Engine → ℕ → ℕ → Headers → Bool → Engine
send_response_headers e stream_id status_code headers end_stream =
    send_headers_frame e stream_id (response_header_list status_code headers) end_stream

-- `std::min` of two windows.
unfoldable pub min_ℤ : ℤ → ℤ → ℤ
min_ℤ a b = if ltb_ℤ b a then b else a

-- The do-while loop of `send_data`. A turn sends a byte at least, so as many turns as bytes to
-- send are enough.
unfoldable pub send_chunks : ℕ → Bytes → ℕ → Bytes → Bool → ℕ → ℕ → Bytes
send_chunks zero out stream_id body end_stream total offset = out
send_chunks (suc fuel) out stream_id body end_stream total offset =
    let chunk_size = min (total - offset) max_frame_size in
    let offset' = offset + chunk_size in
    let final_flag = (offset' == length body) && end_stream in
    let out' = encode_data_frame out stream_id (take chunk_size (drop offset body)) final_flag in
    let rest = send_chunks fuel out' stream_id body end_stream total offset' in
    if ltb offset' total then rest else out'

-- The two assignments at the end of `send_data`.
unfoldable pub spend_windows : Engine → ℕ → ℕ → Engine
spend_windows e stream_id total =
    let e' = record e { connection_send_window = e.connection_send_window -ℤ pos total } in
    let s = get_or_init_stream_flow_state e' stream_id in
    set_flow_state e' stream_id (record s { send_window = s.send_window -ℤ pos total })

unfoldable pub send_data : Engine → ℕ → Bytes → Bool → ℕ × Engine
send_data e stream_id body end_stream =
    let available = min_ℤ e.connection_send_window (stream_send_window e stream_id) in
    let total = min (length body) (pos_part available) in
    if is_empty body
    then (
      0,
      (if end_stream
          then maybe_invoke_output_ready
              (record e { pending_out = encode_data_frame e.pending_out stream_id [] true })
          else e),
    )
    else if leb_ℤ available (pos 0)
    then (0, e)
    else (
      total,
      spend_windows
          (maybe_invoke_output_ready (record e {
            pending_out = send_chunks total e.pending_out stream_id body end_stream total 0;
          }))
          stream_id total,
    )

-- `send_reset` does nothing.
unfoldable pub send_reset : Engine → ℕ → Engine
send_reset e stream_id = e

unfoldable pub send_goaway : Engine → ℕ → ℕ → Bytes → Engine
send_goaway e last_stream_id error_code debug_data = record e {
  pending_out = encode_goaway_frame e.pending_out last_stream_id error_code debug_data;
}

unfoldable pub set_initial_window_size : Engine → ℕ → Engine
set_initial_window_size e size = record e {
  initial_window_size = size;
  local_settings = e.local_settings ++ (record { id = initial_window_size; value = size } ∷ []);
  connection_recv_window =
      if ltb default_initial_window_size size
      then e.connection_recv_window +ℤ pos (size - default_initial_window_size)
      else e.connection_recv_window;
}
