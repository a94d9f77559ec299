-- ===== src/V1/Validity.antt =====
-- source/v1/engine.cpp: what holds of an engine between two operations.
use stunning_waddle.Base.{
  not, is_empty, codes, ◌==◌, if_intro, option_intro, ◌||◌, ◌∙◌, ℕ, ◌<◌, ◌≤◌, Bool, true, false,
  ◌≡◌, List, [], ◌∷◌, Option, none, some, Bytes, length, arith, find,
}
use stunning_waddle.V2.State.{is_server}
use stunning_waddle.Event.{Event, plain_event, stream_closed}
use stunning_waddle.ErrorCodes.{protocol_error}
use stunning_waddle.V1.Text.{iequals, find_header_ci, parse_content_length}
use stunning_waddle.V1.State.{
  input_capacity, queue_event, Engine, ParseState, start_line, body_length, chunk_size, chunk_data,
  body_until_close, done, StreamInfo, update, mark_connection_done, connection_error,
  append_pending, maybe_invoke_output_ready, erase_stream_order,
}
use stunning_waddle.V1.Send.{flush_pending, flush_loop, flush_stream}
use stunning_waddle.V1.Exchange.{
  is_chunked, is_no_content, closes_after, complete_request, complete_exchange, release_stream,
  finish_message, handle_headers_complete, begin_body_length, request_head_complete,
  response_head_complete, send_100_continue,
}

abbrev pub is_done : ParseState → Bool
is_done done = true
is_done _ = false

-- The states that read bytes up to `body_remaining_`.
abbrev pub is_sized : ParseState → Bool
is_sized body_length = true
is_sized chunk_data = true
is_sized _ = false

abbrev pub is_none {ℓ} : {A : Type ℓ} → Option A → Bool
is_none none = true
is_none (some a) = false

-- The parser is in `done` exactly when the connection is, no exchange is in flight then, and a
-- body that is read has bytes to come. The buffered bytes fit the buffer.
pub record IsValid (e : Engine) : Type 0 where
  pub closed : e.connection_done ≡ is_done e.state
  pub quiet : is_done e.state ≡ true → is_none e.active_stream ≡ true
  pub positive : is_sized e.state ≡ true → 0 < e.body_remaining
  pub fits : length e.input_buffer ≤ input_capacity

-- An engine whose connection is open, in whatever state.
pub record IsOpen (e : Engine) : Type 0 where
  pub not_done : e.connection_done ≡ false
  pub open_fits : length e.input_buffer ≤ input_capacity

pub mark_connection_done-IsValid :
    (e : Engine) → length e.input_buffer ≤ input_capacity → IsValid (mark_connection_done e)
unfolding mark_connection_done
mark_connection_done-IsValid e f = ground arith

pub connection_error-IsValid : (e : Engine) (ec : ℕ) → IsValid e → IsValid (connection_error e ec)
unfolding connection_error
connection_error-IsValid e ec v = ground arith

pub append_pending-IsValid : (e : Engine) (b : Bytes) → IsValid e → IsValid (append_pending e b)
unfolding append_pending maybe_invoke_output_ready
append_pending-IsValid e b v = ground arith

flush_stream-IsValid :
    (e : Engine) (id : ℕ) (info : StreamInfo)
    → e.connection_done ≡ false
    → IsValid e
    → IsValid (flush_stream e id info)
unfolding flush_stream append_pending maybe_invoke_output_ready
flush_stream-IsValid e id info h v = ground arith

flush_loop-IsValid :
    (e : Engine) (order : List ℕ)
    → e.connection_done ≡ false
    → IsValid e
    → IsValid (flush_loop e order)
unfolding flush_loop
flush_loop-IsValid e [] h v = v
flush_loop-IsValid e (id ∷ order) h v =
    let ih = flush_loop-IsValid e order h v in
    option_intro IsValid (find id e.streams) _ _ (λ _. ih)
      (λ info _.
        if_intro IsValid info.finished _ _ (λ _. ih) (λ _. flush_stream-IsValid e id info h v))

pub flush_pending-IsValid : (e : Engine) → IsValid e → IsValid (flush_pending e)
unfolding flush_pending
flush_pending-IsValid e v = grind (arith, flush_loop-IsValid)

pub complete_request-IsValid : (e : Engine) (id : ℕ) → IsOpen e → IsValid (complete_request e id)
unfolding complete_request
complete_request-IsValid e id h = ground arith

release_stream-kept :
    (e : Engine) (id : ℕ)
    → ((release_stream e id).connection_done ≡ e.connection_done)
      × ((release_stream e id).input_buffer ≡ e.input_buffer)
unfolding release_stream erase_stream_order
release_stream-kept e id = (ground arith, ground arith)

pub start-IsValid : (e : Engine) → IsOpen e → IsValid (record e { state = start_line })
start-IsValid e h = ground arith

pub complete_exchange-IsValid :
    (e : Engine) (id : ℕ)
    → length e.input_buffer ≤ input_capacity
    → IsValid (complete_exchange e id)
unfolding complete_exchange
complete_exchange-IsValid e id f =
    let e1 = release_stream (queue_event e (plain_event id stream_closed)) id in
    let (kept, buffer) = release_stream-kept (queue_event e (plain_event id stream_closed)) id in
    if_intro IsValid (closes_after e id || e.connection_done) _ _
      (λ _. mark_connection_done-IsValid e1 (rw buffer f))
      (λ h. flush_pending-IsValid _ (
        start-IsValid e1 (record { not_done = kept ∙ ground (arith, h); open_fits = rw buffer f })))

open_error-IsValid : (e : Engine) (ec : ℕ) → IsOpen e → IsValid (connection_error e ec)
unfolding connection_error
open_error-IsValid e ec h = ground arith

pub finish_message-IsValid : (e : Engine) → IsOpen e → IsValid (finish_message e)
unfolding finish_message
finish_message-IsValid e h =
    option_intro IsValid e.active_stream _ _ (λ _. open_error-IsValid e protocol_error h)
      (λ id _.
        if_intro IsValid (is_server e.role) _ _ (λ _. complete_request-IsValid e id h)
          (λ _. complete_exchange-IsValid e id h.open_fits))

send_100_continue-IsValid : (e : Engine) → IsValid e → IsValid (send_100_continue e)
unfolding send_100_continue
send_100_continue-IsValid e v = grind (arith, append_pending-IsValid)

begin_body_length-IsValid :
    (e : Engine) (cl : Bytes) (finish start : Engine → Engine)
    → ((e1 : Engine) → IsOpen e1 → IsValid (finish e1))
    → ((e1 : Engine) → IsValid e1 → IsValid (start e1))
    → IsOpen e
    → IsValid e
    → IsValid (begin_body_length e cl finish start)
unfolding begin_body_length
begin_body_length-IsValid e cl finish start f s h v =
    option_intro IsValid (parse_content_length cl) _ _
      (λ _. connection_error-IsValid e protocol_error v)
      (λ n _.
        if_intro IsValid (n == 0) _ _
          (λ _.
            f (record e { body_remaining = n })
              (record { not_done = h.not_done; open_fits = h.open_fits }))
          (λ k. s (record e { body_remaining = n; state = body_length }) (ground (arith, k))))

-- The head's event is queued, and the parser goes on with the body in some state but a sized one.
chunked-IsValid : (e : Engine) → IsOpen e → IsValid (record e { state = chunk_size })
chunked-IsValid e h = ground arith

until_close-IsValid : (e : Engine) → IsOpen e → IsValid (record e { state = body_until_close })
until_close-IsValid e h = ground arith

queue-IsOpen : (e : Engine) (ev : Event) → IsOpen e → IsOpen (queue_event e ev)
queue-IsOpen e ev h = record { not_done = h.not_done; open_fits = h.open_fits }

queue-IsValid : (e : Engine) (ev : Event) → IsValid e → IsValid (queue_event e ev)
queue-IsValid e ev v = ground arith

module _ (e : Engine) (id : ℕ) (info : StreamInfo) (h : IsOpen e) (v : IsValid e) where
  request_head_complete-IsValid : IsValid (request_head_complete e id info)
  unfolding request_head_complete
  request_head_complete-IsValid =
      if_intro IsValid (is_chunked e) _ _
        (λ _. send_100_continue-IsValid _ (chunked-IsValid _ (queue-IsOpen e _ h)))
        (λ _.
          if_intro IsValid
            (not (is_empty (find_header_ci e.message_headers (codes "content-length")))) _ _
            (λ _.
              begin_body_length-IsValid _ _ _ _ (λ e1 o. complete_request-IsValid e1 id o)
                send_100_continue-IsValid (queue-IsOpen e _ h) (queue-IsValid e _ v))
            (λ _. complete_request-IsValid _ id (queue-IsOpen e _ h)))

  response_head_complete-IsValid : IsValid (response_head_complete e id info)
  unfolding response_head_complete
  response_head_complete-IsValid =
      if_intro IsValid (iequals info.method (codes "HEAD") || is_no_content e.status_code) _ _
        (λ _. complete_exchange-IsValid _ id h.open_fits)
        (λ _.
          if_intro IsValid (is_chunked e) _ _ (λ _. chunked-IsValid _ (queue-IsOpen e _ h))
            (λ _.
              if_intro IsValid
                (not (is_empty (find_header_ci e.message_headers (codes "content-length")))) _ _
                (λ _.
                  begin_body_length-IsValid _ _ _ _
                    (λ e1 o. complete_exchange-IsValid e1 id o.open_fits) (λ e1 w. w)
                    (queue-IsOpen e _ h) (queue-IsValid e _ v))
                (λ _. until_close-IsValid _ (queue-IsOpen e _ h))))

pub update-IsValid :
    (e : Engine) (id : ℕ) (info : StreamInfo) → IsValid e → IsValid (update e id info)
update-IsValid e id info v = ground arith

update-IsOpen : (e : Engine) (id : ℕ) (info : StreamInfo) → IsOpen e → IsOpen (update e id info)
update-IsOpen e id info h = record { not_done = h.not_done; open_fits = h.open_fits }

pub handle_headers_complete-IsValid :
    (e : Engine) → IsValid e → IsOpen e → IsValid (handle_headers_complete e)
unfolding handle_headers_complete
handle_headers_complete-IsValid e v h =
    option_intro IsValid e.active_stream _ _ (λ _. connection_error-IsValid e protocol_error v)
      (λ id _.
        option_intro IsValid (find id e.streams) _ _
          (λ _. connection_error-IsValid e protocol_error v)
          (λ info _.
            if_intro IsValid (is_server e.role) _ _
              (λ _.
                request_head_complete-IsValid _ id _ (update-IsOpen e id _ h)
                  (update-IsValid e id _ v))
              (λ _.
                response_head_complete-IsValid _ id _ (update-IsOpen e id _ h)
                  (update-IsValid e id _ v))))
