-- ===== src/V1/Request/Served.antt =====
-- source/v1/engine.cpp: a request without a body, from a client's engine to a server's.
use mathlib.Core.Path.{subst}
use stunning_waddle.Base.{
  ℕ, ◌≤◌, true, false, ◌≡◌, ◌∙◌, sym, [], ◌∷◌, ◌++◌, some, Bytes, length, codes, refl, ap,
  append_assoc, if_true, elim_some, is_empty, if_false,
}
use stunning_waddle.Event.{plain_event, headers_of, new_stream, stream_closed}
use stunning_waddle.Headers.{Headers, add}
use stunning_waddle.V2.State.{server, is_server}
use stunning_waddle.V1.Text.{iequals, tolower, parse_request_line}
use stunning_waddle.V1.State.{
  Engine, StreamInfo, start_line, awaiting_response, input_capacity, queue_event, update, info_at,
  advance_stream_id,
}
use stunning_waddle.V1.Send.{crlf, header_lines, send_request_headers}
use stunning_waddle.V1.Exchange.{complete_request, handle_headers_complete, request_fields}
use stunning_waddle.V1.Parse.{
  again, turn, on_start_line, on_request_line, begin_request, set_minor, parse_available,
  parse_from, compact,
}
use stunning_waddle.V1.Input.{input_end}
use stunning_waddle.V1.Lines.{Lacks, receive_all, find_header_ci-receive_all}
use stunning_waddle.V1.Flush.{
  sent_fields, request_line, request_text, find-insert_self, IsNext, send_request_headers-parts,
  request_text-some,
}
use stunning_waddle.V1.Runs.{
  Runs, Runs-end, Runs-again, Runs-empty_line, Runs-header_lines, take_line-crlf, length-line,
  parse_from-Runs, with_fields,
}
use stunning_waddle.V1.Request.{
  IsListening, IsPlain, request_events, request_event_fields, parse_request_line-request_line,
  complete_request-kept, request_head_complete-bodiless, closing_info, closing_info-method,
  handle_headers_complete-server, sent_fields-IsField, received_none, request_line-Lacks,
}

turn-start_line :
    (e : Engine) (rest : Bytes) → e.state ≡ start_line → turn e rest ≡ on_start_line e rest
unfolding turn
turn-start_line e rest q = simp (q, turn)

-- The first turn of a server, on a whole request line.
turn-request_line :
    (e : Engine) (method path after : Bytes)
    → e.role ≡ server
    → e.state ≡ start_line
    → is_empty method ≡ false
    → is_empty path ≡ false
    → Lacks 32 method
    → Lacks 32 path
    → Lacks 10 (request_line method path)
    → turn e (request_line method path ++ (crlf ++ after))
      ≡ again after (begin_request (record e { http_minor = 1 }) method path)
unfolding on_start_line on_request_line
turn-request_line e method path after r q m p lm lp lf =
    let read = parse_request_line-request_line method path m p lm lp in
    turn-start_line e _ q
    ∙ if_true (is_server e.role) _ _ (ap is_server r)
    ∙ take_line-crlf e (request_line method path) after (on_request_line e) lf
    ∙ elim_some (parse_request_line (request_line method path)).parts _ _ (ap (λ l. l.parts) read)
    ∙ ap (λ l. again after (begin_request (set_minor e l.minor) method path)) read

pseudo_fields-eq :
    {m m' p a a' : Bytes} {rest : Headers}
    → m ≡ m'
    → a ≡ a'
    → ◌≡◌ {A = Headers}
        (record { name = codes ":method"; value = m }
          ∷ record { name = codes ":path"; value = p }
          ∷ record { name = codes ":authority"; value = a }
          ∷ rest)
        (record { name = codes ":method"; value = m' }
          ∷ record { name = codes ":path"; value = p }
          ∷ record { name = codes ":authority"; value = a' }
          ∷ rest)
pseudo_fields-eq q r = cc

module _ (s : Engine) (l : IsListening s) (method path authority : Bytes) (h : Headers)
    (p : IsPlain method path authority h) where
  abbrev text : Bytes
  text = request_text method path (sent_fields authority h)

  abbrev started : Engine
  started = begin_request (record s { input_buffer = text; http_minor = 1 }) method path

  -- The engine at the end of the header block.
  abbrev headed : Engine
  headed = with_fields started (receive_all (sent_fields authority h))

  abbrev request_info : StreamInfo
  request_info = closing_info headed (record (info_at (advance_stream_id s) s.next_stream_id) {
    id = s.next_stream_id;
    method = method;
  })

  abbrev known : Engine
  known = update headed s.next_stream_id request_info

  -- The engine behind the request.
  abbrev completed : Engine
  completed =
      complete_request
        (queue_event known (
          headers_of s.next_stream_id (request_fields known request_info ++ known.message_headers)))
        s.next_stream_id

  handle_headers_complete-completed : handle_headers_complete headed ≡ completed
  unfolding begin_request advance_stream_id info_at iequals tolower
  handle_headers_complete-completed =
      handle_headers_complete-server headed s.next_stream_id _ l.serves refl
        (find-insert_self s.next_stream_id _ s.streams)
      ∙ request_head_complete-bodiless known s.next_stream_id request_info
          (received_none method path authority h p (codes "transfer-encoding") refl p.no_coding)
          (received_none method path authority h p (codes "content-length") refl p.no_length)

  Runs-completed : Runs (record s { input_buffer = text }) text (compact completed [])
  unfolding begin_request advance_stream_id
  Runs-completed =
      Runs-again _ started (compact completed []) text
        (header_lines (sent_fields authority h) ++ (crlf ++ []))
        (turn-request_line _ method path _ l.serves l.starts p.method_given p.path_given
          p.method_word p.path_word (request_line-Lacks method path authority h p))
        (length-line (request_line method path) _)
        (Runs-header_lines (sent_fields authority h) started (compact completed []) (crlf ++ [])
          refl (sent_fields-IsField method path authority h p)
          (Runs-empty_line headed (compact completed []) [] refl (
            subst (λ e. Runs e [] (compact completed [])) (sym handle_headers_complete-completed)
              (Runs-end completed))))

  input_end-completed : input_end s text ≡ some (compact completed [])
  unfolding input_end parse_available
  input_end-completed =
      if_false (is_empty text) _ _ (request_text-some method path (sent_fields authority h))
      ∙ ap (λ b. parse_from (record s { input_buffer = b ++ text }) (b ++ text)) l.drained
      ∙ parse_from-Runs _ (compact completed []) text Runs-completed

  event_fields-eq :
      request_fields known request_info ++ known.message_headers
      ≡ request_event_fields method path (sent_fields authority h)
  unfolding begin_request advance_stream_id request_fields add
  event_fields-eq =
      pseudo_fields-eq (closing_info-method headed _)
        (find_header_ci-receive_all (sent_fields authority h) (codes "host"))

  completed-events :
      (compact completed []).event_queue
      ≡ s.event_queue ++ request_events s.next_stream_id method path (sent_fields authority h)
  unfolding compact begin_request advance_stream_id
  completed-events =
      let id = s.next_stream_id in
      (complete_request-kept _ id).0
      ∙ ap
          (λ f.
            ((s.event_queue ++ (plain_event id new_stream ∷ [])) ++ (headers_of id f ∷ []))
            ++ (plain_event id stream_closed ∷ []))
          event_fields-eq
      ∙ append_assoc (s.event_queue ++ (plain_event id new_stream ∷ [])) _ _
      ∙ append_assoc s.event_queue _ _

-- A request arrives as it was sent. Let a client's engine have no exchange in flight, and its oldest
-- stream no head sent and no body staged; let the server's engine be between two requests with
-- nothing buffered. The method and the path are not empty and have no space, none of the parts has
-- a line feed, names have no colon and are not empty, and no field is Transfer-Encoding or
-- Content-Length. Then `send_request_headers` that ends the stream appends a frame to the client's
-- output and takes up the exchange; and `input_end` of the server on that frame, if the frame fits
-- the buffer, brings exactly three events on the next stream: `new_stream`, `headers` with the
-- method, the path, the authority and the fields in their order, names in lower case and values
-- without the white space around them, and `stream_closed`. The server then awaits the response
-- on that stream, with nothing left in its buffer.
pub input_end-send_request_headers :
    (c s : Engine) (id : ℕ) (info : StreamInfo) (method path authority : Bytes) (h : Headers)
    → IsNext c id info
    → IsListening s
    → IsPlain method path authority h
    → length (request_text method path (sent_fields authority h)) ≤ input_capacity
    → let c' = send_request_headers c id method path authority h true in
      (frame : Bytes) × (s' : Engine) × (c'.pending_out ≡ c.pending_out ++ frame)
      × (c'.active_stream ≡ some id)
      × (input_end s frame ≡ some s')
      × (s'.event_queue
          ≡ s.event_queue ++ request_events s.next_stream_id method path (sent_fields authority h))
      × (s'.state ≡ awaiting_response)
      × (s'.active_stream ≡ some s.next_stream_id)
      × (s'.input_buffer ≡ [])
unfolding compact begin_request
input_end-send_request_headers c s id info method path authority h n l p fits =
    let (out, active) = send_request_headers-parts c id info n method path authority h in
    let s' = compact (completed s l method path authority h p) [] in
    (
      text s l method path authority h p,
      s',
      out,
      active,
      input_end-completed s l method path authority h p,
      completed-events s l method path authority h p,
      (complete_request-kept _ s.next_stream_id).1,
      (complete_request-kept _ s.next_stream_id).2,
      refl,
    )
