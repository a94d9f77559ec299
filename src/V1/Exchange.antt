-- ===== src/V1/Exchange.antt =====
-- source/v1/engine.cpp: how an exchange ends, and `handle_headers_complete`. `complete_response`
-- stands in Input, since it goes on parsing.
use stunning_waddle.Base.{
  ℕ, Bool, true, false, ◌&&◌, ◌||◌, not, [], ◌∷◌, none, some, Bytes, codes, is_empty, if◌then◌else◌,
  ◌==◌, find, erase, ℤ, pos, negsuc,
}
use stunning_waddle.ErrorCodes.{protocol_error}
use stunning_waddle.Event.{plain_event, headers_of, stream_closed}
use stunning_waddle.Headers.{Headers, add}
use stunning_waddle.V2.State.{is_server}
use stunning_waddle.V1.Text.{iequals, find_header_ci, contains, parse_content_length, to_string_int}
use stunning_waddle.V1.State.{
  StreamInfo, Engine, start_line, body_length, chunk_size, body_until_close, awaiting_response,
  queue_event, update, append_pending, erase_stream_order, mark_connection_done, connection_error,
  is_active,
}
use stunning_waddle.V1.Send.{flush_pending}

-- The server has read a whole request.
unfoldable pub complete_request : Engine → ℕ → Engine
complete_request e id =
    let e' = record (queue_event e (plain_event id stream_closed)) {
      last_stream_id = id;
      state = awaiting_response;
    } in
    elim (find id e.streams) [
      | none ↦ e'
      | some info ↦ update e' id (record info { request_body_done = true })
    ]

-- `close_after` of a stream, and `false` for one that is gone.
unfoldable pub closes_after : Engine → ℕ → Bool
closes_after e id = elim (find id e.streams) [ none ↦ false | some info ↦ info.close_after ]

-- The stream leaves the connection.
unfoldable pub release_stream : Engine → ℕ → Engine
release_stream e id =
    let e' =
      erase_stream_order (record e { streams = erase id e.streams; last_stream_id = id }) id in
    if is_active e' id then record e' { active_stream = none } else e'

-- The client has read a whole response.
unfoldable pub complete_exchange : Engine → ℕ → Engine
complete_exchange e id =
    let e' = release_stream (queue_event e (plain_event id stream_closed)) id in
    if closes_after e id || e.connection_done
    then mark_connection_done e'
    else flush_pending (record e' { state = start_line })

unfoldable pub finish_message : Engine → Engine
finish_message e = elim e.active_stream [
  | none ↦ connection_error e protocol_error
  | some id ↦ if is_server e.role then complete_request e id else complete_exchange e id
]

unfoldable pub send_100_continue : Engine → Engine
send_100_continue e =
    if iequals (find_header_ci e.message_headers (codes "expect")) (codes "100-continue")
    then append_pending e (codes "HTTP/1.1 100 Continue\r\n\r\n")
    else e

-- The loop that adds the received fields behind the pseudo-headers.
unfoldable pub add_all : Headers → Headers → Headers
add_all hdrs [] = hdrs
add_all hdrs (h ∷ rest) = add_all (add hdrs h.name h.value) rest

abbrev pub is_no_content : ℤ → Bool
is_no_content (pos n) = n == 204 || n == 304
is_no_content (negsuc n) = false

abbrev pub is_chunked : Engine → Bool
is_chunked e =
    contains (codes "chunked") (find_header_ci e.message_headers (codes "transfer-encoding"))

-- A body with a length: `finish` is called when there is none, `start` when it begins.
unfoldable pub begin_body_length : Engine → Bytes → (Engine → Engine) → (Engine → Engine) → Engine
begin_body_length e cl finish start = elim (parse_content_length cl) [
  | none ↦ connection_error e protocol_error
  | some n ↦
      let e' = record e { body_remaining = n } in
      if n == 0 then finish e' else start (record e' { state = body_length })
]

-- The client's part of `handle_headers_complete`.
unfoldable pub response_head_complete : Engine → ℕ → StreamInfo → Engine
response_head_complete e id info =
    let cl = find_header_ci e.message_headers (codes "content-length") in
    let hdrs = add_all (add [] (codes ":status") (to_string_int e.status_code)) e.message_headers in
    let e' = queue_event e (headers_of id hdrs) in
    if iequals info.method (codes "HEAD") || is_no_content e.status_code
    then complete_exchange e' id
    else if is_chunked e
    then record e' { state = chunk_size }
    else if not (is_empty cl)
    then begin_body_length e' cl (λ e1. complete_exchange e1 id) (λ e1. e1)
    else record e' { state = body_until_close }

-- The pseudo-headers that stand for the request line and for Host.
unfoldable pub request_fields : Engine → StreamInfo → Headers
request_fields e info =
    add (add (add [] (codes ":method") info.method) (codes ":path") e.pending_target)
      (codes ":authority") (find_header_ci e.message_headers (codes "host"))

-- The server's part.
unfoldable pub request_head_complete : Engine → ℕ → StreamInfo → Engine
request_head_complete e id info =
    let cl = find_header_ci e.message_headers (codes "content-length") in
    let e' = queue_event e (headers_of id (add_all (request_fields e info) e.message_headers)) in
    if is_chunked e
    then send_100_continue (record e' { state = chunk_size })
    else if not (is_empty cl)
    then begin_body_length e' cl (λ e1. complete_request e1 id) send_100_continue
    else complete_request e' id

-- Whether the head that was read asks to close the connection.
unfoldable pub asks_close : Engine → Bool
asks_close e =
    let conn = find_header_ci e.message_headers (codes "connection") in
    iequals conn (codes "close") || (e.http_minor == 0 && not (iequals conn (codes "keep-alive")))

unfoldable pub handle_headers_complete : Engine → Engine
handle_headers_complete e = elim e.active_stream [
  | none ↦ connection_error e protocol_error
  | some id ↦ elim (find id e.streams) [
    | none ↦ connection_error e protocol_error
    | some info ↦
        let info' = if asks_close e then record info { close_after = true } else info in
        let e' = update e id info' in
        if is_server e.role
        then request_head_complete e' id info'
        else response_head_complete e' id info'
  ]
]
