-- ===== src/V1/Parse.antt =====
-- source/v1/engine.cpp: the loop of `parse_available`. `rest` holds the buffered bytes from `offset`
-- on, so that `compact(offset)` makes it the buffer; the early returns behind `connection_error`
-- leave the buffer as it is.
use stunning_waddle.Base.{
  ℕ, zero, suc, ◌-◌, min, Bool, false, ◌&&◌, not, [], ◌∷◌, ◌++◌, Option, none, some, Bytes, length,
  take, drop, is_empty, if◌then◌else◌, ◌==◌, ltb, leb, ℤ, pos, negsuc,
}
use stunning_waddle.ErrorCodes.{protocol_error}
use stunning_waddle.Event.{plain_event, data_of, new_stream}
use stunning_waddle.Headers.{add}
use stunning_waddle.V2.State.{is_server}
use stunning_waddle.V1.Text.{
  split_at, to_lower, trim_ows, parse_status_line, parse_request_line, parse_chunk_size,
}
use stunning_waddle.V1.State.{
  Engine, start_line, skip_interim, reading_headers, body_length, chunk_size, chunk_data,
  chunk_crlf, chunk_trailer, body_until_close, awaiting_response, done, input_capacity, queue_event,
  update, info_at, advance_stream_id, connection_error,
}
use stunning_waddle.V1.Exchange.{handle_headers_complete, finish_message}

-- A line without the carriage return before its line feed.
unfoldable pub strip_cr : Bytes → Bytes
strip_cr [] = []
strip_cr (c ∷ s) = let rest = strip_cr s in if is_empty s && c == 13 then [] else c ∷ rest

-- The line, and the bytes behind it.
unfoldable pub find_line : Bytes → Option (Bytes × Bytes)
find_line rest = elim (split_at 10 rest) [
  | none ↦ none
  | some (line, after) ↦ some (strip_cr line, after)
]

-- How a turn of the loop ends: with the bytes that are left, or by a return.
pub data Turn : Type 0 where
  again : Bytes → Engine → Turn
  return : Engine → Turn

unfoldable pub compact : Engine → Bytes → Engine
compact e rest = record e { input_buffer = rest }

-- `take_line` where there is none: a line that fills the whole buffer can never complete.
unfoldable pub wait_for_line : Engine → Bytes → Engine
wait_for_line e rest =
    let e' = compact e rest in
    if length rest == input_capacity then connection_error e' protocol_error else e'

-- `if (!take_line(offset, line)) return;` and what follows it.
unfoldable pub take_line : Engine → Bytes → (Bytes → Bytes → Turn) → Turn
take_line e rest k = elim (find_line rest) [
  | none ↦ return (wait_for_line e rest)
  | some (line, after) ↦ k line after
]

unfoldable pub emit_data : Engine → Bytes → Engine
emit_data e bytes = elim e.active_stream [
  | none ↦ e
  | some id ↦ if is_empty bytes then e else queue_event e (data_of id bytes)
]

abbrev pub set_minor : Engine → Option ℕ → Engine
set_minor e minor = elim minor [ none ↦ e | some m ↦ record e { http_minor = m } ]

-- An interim status, but 101.
abbrev pub is_interim : ℤ → Bool
is_interim (pos n) = leb 100 n && ltb n 200 && not (n == 101)
is_interim (negsuc n) = false

unfoldable pub on_status_line : Engine → Bytes → Bytes → Turn
on_status_line e line rest =
    let r = parse_status_line line in
    let e' = set_minor e r.minor in
    elim r.parts [
      | none ↦ return (connection_error e' protocol_error)
      | some status ↦
          if is_interim status
          then again rest (record e' { state = skip_interim })
          else again rest
              (record e' { status_code = status; message_headers = []; state = reading_headers })
    ]

-- A request opens the next stream.
unfoldable pub begin_request : Engine → Bytes → Bytes → Engine
begin_request e method target =
    let id = e.next_stream_id in
    let e' = advance_stream_id e in
    let info = record (info_at e' id) { id = id; method = method } in
    record (queue_event (update e' id info) (plain_event id new_stream)) {
      stream_order = e.stream_order ++ (id ∷ []);
      active_stream = some id;
      pending_target = target;
      message_headers = [];
      state = reading_headers;
    }

unfoldable pub on_request_line : Engine → Bytes → Bytes → Turn
on_request_line e line rest =
    let r = parse_request_line line in
    let e' = set_minor e r.minor in
    elim r.parts [
      | none ↦ return (connection_error e' protocol_error)
      | some (method, target) ↦ again rest (begin_request e' method target)
    ]

-- `case parse_state::start_line`; the buffer's bytes stay where no request is in flight.
unfoldable pub on_start_line : Engine → Bytes → Turn
on_start_line e rest =
    if is_server e.role then take_line e rest (on_request_line e) else elim e.active_stream [
      | none ↦ return (connection_error e protocol_error)
      | some id ↦ take_line e rest (on_status_line e)
    ]

-- A field line; one without a name or a colon is ignored.
unfoldable pub add_field_line : Engine → Bytes → Engine
add_field_line e line = elim (split_at 58 line) [
  | none ↦ e
  | some (name, value) ↦
      if is_empty name
      then e
      else record e { message_headers = add e.message_headers (to_lower name) (trim_ows value) }
]

unfoldable pub on_header_line : Engine → Bytes → Bytes → Turn
on_header_line e line rest =
    if is_empty line
    then again rest (handle_headers_complete e)
    else again rest (add_field_line e line)

unfoldable pub on_chunk_size : Engine → Bytes → Bytes → Turn
on_chunk_size e line rest = elim (parse_chunk_size line) [
  | none ↦ return (connection_error e protocol_error)
  | some size ↦
      again rest (record e {
        body_remaining = size;
        state = if size == 0 then chunk_trailer else chunk_data;
      })
]

-- Body bytes up to `body_remaining_`; `finish` is called when none remain.
unfoldable pub take_body : Engine → Bytes → (Engine → Engine) → Turn
take_body e rest finish =
    let n = min (length rest) e.body_remaining in
    let e' = record (emit_data e (take n rest)) { body_remaining = e.body_remaining - n } in
    again (drop n rest) (if e.body_remaining - n == 0 then finish e' else e')

unfoldable pub turn : Engine → Bytes → Turn
turn e rest = elim e.state [
  | start_line ↦ on_start_line e rest
  | skip_interim ↦
      take_line e rest
        (λ line after. again after (if is_empty line then record e { state = start_line } else e))
  | reading_headers ↦ take_line e rest (on_header_line e)
  | body_length ↦ take_body e rest finish_message
  | chunk_size ↦ take_line e rest (on_chunk_size e)
  | chunk_data ↦ take_body e rest (λ e'. record e' { state = chunk_crlf })
  | chunk_crlf ↦ take_line e rest (λ line after. again after (record e { state = chunk_size }))
  | chunk_trailer ↦
      take_line e rest (λ line after. again after (if is_empty line then finish_message e else e))
  | body_until_close ↦ again [] (emit_data e rest)
  | awaiting_response ↦ return (compact e rest)
  | done ↦ return (compact e rest)
]

-- `none` means that the fuel ran out.
unfoldable pub parse_loop : ℕ → Engine → Bytes → Option Engine
parse_loop fuel e [] = some (compact e [])
parse_loop zero e (b ∷ rest) = none
parse_loop (suc fuel) e (b ∷ rest) = elim (turn e (b ∷ rest)) [
  | again rest' e' ↦ parse_loop fuel e' rest'
  | return e' ↦ some e'
]

-- A turn that goes on takes a byte at least, so as many turns as bytes are enough.
unfoldable pub parse_from : Engine → Bytes → Option Engine
parse_from e rest = parse_loop (length rest) e rest

unfoldable pub parse_available : Engine → Option Engine
parse_available e = parse_from e e.input_buffer
