-- ===== src/V1/Send.antt =====
-- source/v1/engine.cpp: the heads that are sent, and `send_request_headers` with the staging of
-- pipelined requests. A status code that is sent is not negative.
use stunning_waddle.Base.{
  ℕ, Bool, true, ◌&&◌, ◌||◌, not, List, [], ◌∷◌, ◌++◌, none, some, Bytes, codes, is_empty,
  if◌then◌else◌, ◌==◌, leb, ltb, find,
}
use stunning_waddle.Decimal.{to_string}
use stunning_waddle.Headers.{Headers}
use stunning_waddle.V1.Text.{iequals, find_header_ci, reason_phrase}
use stunning_waddle.V1.State.{StreamInfo, Engine, start_line, update, append_pending}

abbrev pub crlf : Bytes
crlf = 13 ∷ 10 ∷ []

-- The loop over the caller's headers.
unfoldable pub header_lines : Headers → Bytes
header_lines [] = []
header_lines (hdr ∷ h) = (hdr.name ++ (58 ∷ 32 ∷ (hdr.value ++ crlf))) ++ header_lines h

abbrev pub chunked_line : Bytes
chunked_line = codes "Transfer-Encoding: chunked" ++ crlf

abbrev pub close_line : Bytes
close_line = codes "Connection: close" ++ crlf

abbrev pub has_header : Headers → Bytes → Bool
has_header h name = not (is_empty (find_header_ci h name))

-- The head, and whether a body of unknown length follows it.
unfoldable pub serialize_request_head :
    StreamInfo → Bytes → Bytes → Bytes → Headers → Bool → StreamInfo × Bytes
serialize_request_head info method path authority h end_stream =
    let host =
      if not (is_empty authority) && not (has_header h (codes "host"))
      then codes "Host: " ++ (authority ++ crlf)
      else [] in
    let stream_body = not end_stream && not (has_header h (codes "content-length")) in
    (
      if stream_body then record info { chunked = true } else info,
      (method ++ (32 ∷ (path ++ (codes " HTTP/1.1" ++ crlf))))
          ++ (host ++ (header_lines h ++ ((if stream_body then chunked_line else []) ++ crlf))),
    )

-- Whether a response to the method with the status carries no body.
unfoldable pub bodiless : Bytes → ℕ → Bool
bodiless method status_code =
    iequals method (codes "HEAD")
    || (leb 100 status_code && ltb status_code 200)
    || status_code == 204
    || status_code == 304

unfoldable pub serialize_response_head : StreamInfo → ℕ → Headers → Bool → StreamInfo × Bytes
serialize_response_head info status_code h end_stream =
    let no_body = bodiless info.method status_code in
    let close =
      if info.close_after && not (has_header h (codes "connection")) then close_line else [] in
    let stream_body =
      not no_body && not end_stream && not (has_header h (codes "content-length")) in
    let info' = record info { no_body = no_body } in
    (
      if stream_body then record info' { chunked = true } else info',
      (codes "HTTP/1.1 " ++ (to_string status_code ++ (32 ∷ (reason_phrase status_code ++ crlf))))
          ++ (close ++ (header_lines h ++ ((if stream_body then chunked_line else []) ++ crlf))),
    )

-- What the loop of `flush_pending` does with the stream that it settles on.
unfoldable pub flush_stream : Engine → ℕ → StreamInfo → Engine
flush_stream e id info =
    if is_empty info.head
    then e
    else record (update (append_pending (append_pending e info.head) info.body_staged) id
        (record info { head = []; body_staged = []; head_sent = true })) {
          active_stream = some id;
          state = start_line;
        }

-- The loop: streams that are gone or finished are passed over.
unfoldable pub flush_loop : Engine → List ℕ → Engine
flush_loop e [] = e
flush_loop e (id ∷ order) =
    let rest = flush_loop e order in
    elim (find id e.streams) [
      | none ↦ rest
      | some info ↦ if info.finished then rest else flush_stream e id info
    ]

unfoldable pub flush_pending : Engine → Engine
flush_pending e = elim e.active_stream [
  | some id ↦ e
  | none ↦ if e.connection_done then e else flush_loop e e.stream_order
]

-- The stream's state behind `send_request_headers`, and before the flush.
unfoldable pub stage_request : StreamInfo → Bytes → Bytes → Bytes → Headers → Bool → StreamInfo
stage_request info method path authority h end_stream =
    let (info', head) =
      serialize_request_head (record info { method = method }) method path authority h end_stream in
    record info' {
      head = head;
      close_after = iequals (find_header_ci h (codes "connection")) (codes "close");
      request_complete = if end_stream then true else info'.request_complete;
    }

unfoldable pub send_request_headers : Engine → ℕ → Bytes → Bytes → Bytes → Headers → Bool → Engine
send_request_headers e stream_id method path authority h end_stream =
    elim (find stream_id e.streams) [
      | none ↦ e
      | some info ↦
          if info.head_sent
          then e
          else flush_pending
              (update e stream_id (stage_request info method path authority h end_stream))
    ]

-- HTTP/1.1 has no stream reset.
unfoldable pub send_reset : Engine → ℕ → ℕ → Engine
send_reset e stream_id ec = e
