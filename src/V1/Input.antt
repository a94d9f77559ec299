-- ===== src/V1/Input.antt =====
-- source/v1/engine.cpp: `input_begin`, `input_end` and `eof`, and the sending operations that may end
-- an exchange and so go on parsing. The bytes that the caller wrote into the span of `input_begin`
-- are the argument of `input_end`.
use stunning_waddle.Base.{
  ℕ, ◌-◌, Bool, true, false, ◌&&◌, ◌||◌, not, [], ◌++◌, Option, none, some, Bytes, codes, length,
  is_empty, if◌then◌else◌, find, erase,
}
use stunning_waddle.Decimal.{to_hex}
use stunning_waddle.ErrorCodes.{connection_reset}
use stunning_waddle.Headers.{Headers}
use stunning_waddle.V2.State.{is_server}
use stunning_waddle.V1.Text.{iequals, find_header_ci}
use stunning_waddle.V1.State.{
  StreamInfo, Engine, start_line, skip_interim, reading_headers, body_length, chunk_size,
  chunk_data, chunk_crlf, chunk_trailer, body_until_close, awaiting_response, done, input_capacity,
  update, append_pending, erase_stream_order, mark_connection_done, connection_error, is_active,
}
use stunning_waddle.V1.Send.{crlf, serialize_response_head}
use stunning_waddle.V1.Exchange.{complete_exchange}
use stunning_waddle.V1.Parse.{parse_available}

-- The free space behind the buffered bytes.
unfoldable pub input_begin : Engine → ℕ
input_begin e = input_capacity - length e.input_buffer

unfoldable pub input_end : Engine → Bytes → Option Engine
input_end e bytes =
    if is_empty bytes
    then some e
    else parse_available (record e { input_buffer = e.input_buffer ++ bytes })

-- The cases of the switch in `eof`.
unfoldable pub eof_in : Engine → Engine
eof_in e = elim e.state [
  | start_line ↦ elim e.active_stream [
    | none ↦ mark_connection_done e
    | some id ↦
        if is_server e.role then mark_connection_done e else connection_error e connection_reset
  ]
  | body_until_close ↦
      let e' = record e { connection_done = true } in
      elim e.active_stream [ none ↦ mark_connection_done e' | some id ↦ complete_exchange e' id ]
  | done ↦ e
  | skip_interim ↦ connection_error e connection_reset
  | reading_headers ↦ connection_error e connection_reset
  | body_length ↦ connection_error e connection_reset
  | chunk_size ↦ connection_error e connection_reset
  | chunk_data ↦ connection_error e connection_reset
  | chunk_crlf ↦ connection_error e connection_reset
  | chunk_trailer ↦ connection_error e connection_reset
  | awaiting_response ↦ connection_error e connection_reset
]

unfoldable pub eof : Engine → Engine
eof e = if e.eof_seen then e else eof_in (record e { eof_seen = true })

-- `close`: whether the connection cannot be used again.
unfoldable pub closes_response : Engine → ℕ → Bool
closes_response e id = elim (find id e.streams) [
  | none ↦ false
  | some info ↦ info.close_after || not info.request_body_done
]

-- The stream of a whole response leaves the connection. (`finished` is set on the stream that is
-- then erased.)
unfoldable pub release_response : Engine → ℕ → Engine
release_response e id =
    record (erase_stream_order (record e { last_stream_id = id; streams = erase id e.streams })
      id) { active_stream = none }

-- The server has sent a whole response.
unfoldable pub complete_response : Engine → ℕ → Option Engine
complete_response e id =
    if closes_response e id || e.connection_done
    then some (mark_connection_done (release_response e id))
    else parse_available (record (release_response e id) { state = start_line })

-- The stream's state behind the head of a response, and the engine with the head in its output.
unfoldable pub write_response_head : Engine → ℕ → StreamInfo → ℕ → Headers → Bool → Engine
write_response_head e stream_id info status_code h end_stream =
    let asked = iequals (find_header_ci h (codes "connection")) (codes "close") in
    let (info', head) =
      serialize_response_head (if asked then record info { close_after = true } else info)
        status_code h end_stream in
    update (append_pending e head) stream_id (record info' { head_sent = true })

unfoldable pub send_response_headers : Engine → ℕ → ℕ → Headers → Bool → Option Engine
send_response_headers e stream_id status_code h end_stream = elim (find stream_id e.streams) [
  | none ↦ some e
  | some info ↦
      let e' = write_response_head e stream_id info status_code h end_stream in
      if info.head_sent
      then some e
      else if end_stream
      then complete_response e' stream_id
      else some e'
]

-- The bytes on the wire for a piece of a body.
unfoldable pub frame_body : Bool → Bytes → Bool → Bytes
frame_body chunked body end_stream =
    if chunked
    then (if is_empty body then [] else to_hex (length body) ++ (crlf ++ (body ++ crlf)))
      ++ (if end_stream then codes "0\r\n\r\n" else [])
    else body

-- The framed bytes go out, or are staged behind a head that waits.
unfoldable pub put_body : Engine → ℕ → StreamInfo → Bytes → Engine
put_body e stream_id info framed =
    if is_active e stream_id
    then append_pending e framed
    else update e stream_id (record info { body_staged = info.body_staged ++ framed })

-- The end of the body.
unfoldable pub end_body : Engine → ℕ → Option Engine
end_body e stream_id =
    if is_server e.role
    then complete_response e stream_id
    else some (elim (find stream_id e.streams) [
      | none ↦ e
      | some info ↦ update e stream_id (record info { request_complete = true })
    ])

-- How many bytes are accepted, and the engine behind it.
unfoldable pub send_data : Engine → ℕ → Bytes → Bool → ℕ × Option Engine
send_data e stream_id body end_stream = elim (find stream_id e.streams) [
  | none ↦ (0, some e)
  | some info ↦
      let e' = put_body e stream_id info (frame_body info.chunked body end_stream) in
      if info.finished || info.request_complete || not info.head_sent
      then (0, some e)
      else if info.no_body
      then (0, if end_stream && is_server e.role then complete_response e stream_id else some e)
      else (length body, if end_stream then end_body e' stream_id else some e')
]
