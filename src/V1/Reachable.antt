-- ===== src/V1/Reachable.antt =====
-- source/v1/engine.cpp: every history of calls on one engine.
use stunning_waddle.Base.{
  ℕ, ◌≤◌, Bool, not, ◌&&◌, ◌||◌, ◌≡◌, ◌∙◌, Option, none, some, Bytes, length, arith, is_empty, refl,
  find, if_intro, option_intro,
}
use stunning_waddle.ErrorCodes.{connection_reset}
use stunning_waddle.Headers.{Headers}
use stunning_waddle.V2.State.{ConnectionRole, is_server}
use stunning_waddle.V1.State.{
  Engine, ParseState, start_line, body_until_close, done, StreamInfo, advance_stream_id, new_engine,
  open_stream, output_end, next_event, on_output_ready, erase_stream_order, is_active,
}
use stunning_waddle.V1.Send.{send_request_headers, send_reset}
use stunning_waddle.V1.Input.{
  input_begin, input_end, eof, eof_in, send_response_headers, send_data, complete_response,
  write_response_head, put_body, end_body, release_response, closes_response, frame_body,
}
use stunning_waddle.V1.Validity.{
  IsValid, connection_error-IsValid, flush_pending-IsValid, complete_exchange-IsValid,
  mark_connection_done-IsValid, update-IsValid, append_pending-IsValid, start-IsValid,
}
use stunning_waddle.V1.Totality.{longer-IsValid, Returns, parse_available-Returns}

-- An operation that returns, in a valid engine.
abbrev pub Valid : Option Engine → Type 0
Valid none = ⊥
Valid (some e) = IsValid e

Returns→Valid : (o : Option Engine) → Returns o → Valid o
Returns→Valid none r = r
Returns→Valid (some e) r = r.0

open_stream-IsValid : (e : Engine) → IsValid e → IsValid (open_stream e).1
unfolding open_stream advance_stream_id
open_stream-IsValid e v = ground arith

send_request_headers-IsValid :
    (e : Engine) (id : ℕ) (method path authority : Bytes) (h : Headers) (end_stream : Bool)
    → IsValid e
    → IsValid (send_request_headers e id method path authority h end_stream)
unfolding send_request_headers
send_request_headers-IsValid e id method path authority h end_stream v =
    option_intro IsValid (find id e.streams) _ _ (λ _. v)
      (λ info _.
        if_intro IsValid info.head_sent _ _ (λ _. v)
          (λ _. flush_pending-IsValid _ (update-IsValid e id _ v)))

eof_in-IsValid : (e : Engine) (s : ParseState) → e.state ≡ s → IsValid e → IsValid (eof_in e)
unfolding eof_in
eof_in-IsValid e start_line q v =
    rw (q, eof_in)
      (option_intro IsValid e.active_stream _ _ (λ _. mark_connection_done-IsValid e v.fits)
        (λ id _.
          if_intro IsValid (is_server e.role) _ _ (λ _. mark_connection_done-IsValid e v.fits)
            (λ _. connection_error-IsValid e connection_reset v)))
eof_in-IsValid e body_until_close q v =
    rw (q, eof_in)
      (option_intro IsValid e.active_stream _ _ (λ _. mark_connection_done-IsValid _ v.fits)
        (λ id _. complete_exchange-IsValid _ id v.fits))
eof_in-IsValid e done q v = rw (q, eof_in) v
eof_in-IsValid e _ q v = rw (q, eof_in) (connection_error-IsValid e connection_reset v)

eof-IsValid : (e : Engine) → IsValid e → IsValid (eof e)
unfolding eof
eof-IsValid e v =
    if_intro IsValid e.eof_seen _ _ (λ _. v) (λ _. eof_in-IsValid _ e.state refl (ground arith))

release_response-kept :
    (e : Engine) (id : ℕ)
    → ((release_response e id).connection_done ≡ e.connection_done)
      × ((release_response e id).input_buffer ≡ e.input_buffer)
unfolding release_response erase_stream_order
release_response-kept e id = (refl, refl)

complete_response-Valid : (e : Engine) (id : ℕ) → IsValid e → Valid (complete_response e id)
unfolding complete_response
complete_response-Valid e id v =
    if_intro Valid (closes_response e id || e.connection_done) _ _
      (λ _.
        mark_connection_done-IsValid (release_response e id)
          (rw ((release_response-kept e id).1) v.fits))
      (λ h. Returns→Valid _ (
        parse_available-Returns _ (
          start-IsValid (release_response e id) (record {
            not_done = (release_response-kept e id).0 ∙ ground (arith, h);
            open_fits = rw ((release_response-kept e id).1) v.fits;
          }))))

write_response_head-IsValid :
    (e : Engine) (id : ℕ) (info : StreamInfo) (status : ℕ) (h : Headers) (end_stream : Bool)
    → IsValid e
    → IsValid (write_response_head e id info status h end_stream)
unfolding write_response_head
write_response_head-IsValid e id info status h end_stream v =
    update-IsValid _ id _ (append_pending-IsValid e _ v)

send_response_headers-Valid :
    (e : Engine) (id status : ℕ) (h : Headers) (end_stream : Bool)
    → IsValid e
    → Valid (send_response_headers e id status h end_stream)
unfolding send_response_headers
send_response_headers-Valid e id status h end_stream v =
    option_intro Valid (find id e.streams) _ _ (λ _. v)
      (λ info _.
        if_intro Valid info.head_sent _ _ (λ _. v)
          (λ _.
            let w = write_response_head-IsValid e id info status h end_stream v in
            if_intro Valid end_stream _ _ (λ _. complete_response-Valid _ id w) (λ _. w)))

end_body-Valid : (e : Engine) (id : ℕ) → IsValid e → Valid (end_body e id)
unfolding end_body
end_body-Valid e id v =
    if_intro Valid (is_server e.role) _ _ (λ _. complete_response-Valid e id v)
      (λ _.
        option_intro IsValid (find id e.streams) _ _ (λ _. v) (λ info _. update-IsValid e id _ v))

put_body-IsValid :
    (e : Engine) (id : ℕ) (info : StreamInfo) (framed : Bytes)
    → IsValid e
    → IsValid (put_body e id info framed)
unfolding put_body
put_body-IsValid e id info framed v =
    if_intro IsValid (is_active e id) _ _ (λ _. append_pending-IsValid e framed v)
      (λ _. update-IsValid e id _ v)

send_data-Valid :
    (e : Engine) (id : ℕ) (body : Bytes) (end_stream : Bool)
    → IsValid e
    → Valid (send_data e id body end_stream).1
unfolding send_data
send_data-Valid e id body end_stream v =
    option_intro (λ (r : ℕ × Option Engine). Valid r.1) (find id e.streams) _ _ (λ _. v)
      (λ info _.
        if_intro (λ (r : ℕ × Option Engine). Valid r.1)
          (info.finished || info.request_complete || not info.head_sent) _ _ (λ _. v)
          (λ _.
            if_intro (λ (r : ℕ × Option Engine). Valid r.1) info.no_body _ _
              (λ _.
                if_intro Valid (end_stream && is_server e.role) _ _
                  (λ _. complete_response-Valid e id v) (λ _. v))
              (λ _.
                let w = put_body-IsValid e id info (frame_body info.chunked body end_stream) v in
                if_intro Valid end_stream _ _ (λ _. end_body-Valid _ id w) (λ _. w))))

-- What a caller can do with an engine, one call after the other. Input fits the free space that
-- `input_begin` gave; status codes are not negative.
pub data Reachable : Engine → Type 0 where
  constructed : (role : ConnectionRole) → Reachable (new_engine role)
  opened : {e : Engine} → Reachable e → Reachable (open_stream e).1
  requested :
      {e : Engine} (id : ℕ) (method path authority : Bytes) (h : Headers) (end_stream : Bool)
      → Reachable e
      → Reachable (send_request_headers e id method path authority h end_stream)
  responded :
      {e e' : Engine} (id status : ℕ) (h : Headers) (end_stream : Bool)
      → Reachable e
      → send_response_headers e id status h end_stream ≡ some e'
      → Reachable e'
  sent :
      {e e' : Engine} (id : ℕ) (body : Bytes) (end_stream : Bool)
      → Reachable e
      → (send_data e id body end_stream).1 ≡ some e'
      → Reachable e'
  received :
      {e e' : Engine} (bytes : Bytes)
      → Reachable e
      → length bytes ≤ input_begin e
      → input_end e bytes ≡ some e'
      → Reachable e'
  ended : {e : Engine} → Reachable e → Reachable (eof e)
  drained : {e : Engine} (n : ℕ) → Reachable e → Reachable (output_end e n)
  listened : {e : Engine} → Reachable e → Reachable (on_output_ready e)
  polled : {e : Engine} → Reachable e → Reachable (next_event e).1
  reset : {e : Engine} (id ec : ℕ) → Reachable e → Reachable (send_reset e id ec)

Valid-some : (o : Option Engine) {e : Engine} → o ≡ some e → Valid o → IsValid e
Valid-some o q v = let w = (rw q at v) in w

input_end-Valid :
    (e : Engine) (bytes : Bytes)
    → IsValid e
    → length bytes ≤ input_begin e
    → Valid (input_end e bytes)
unfolding input_end input_begin
input_end-Valid e bytes v h =
    if_intro Valid (is_empty bytes) _ _ (λ _. v)
      (λ _. Returns→Valid _ (parse_available-Returns _ (longer-IsValid e bytes v h)))

-- Whatever sequence of calls led to it, an engine is valid: the parser is in `done` exactly when
-- the connection is done, no exchange is in flight then, a body that is being read has bytes to
-- come, and the buffered bytes fit the buffer. The calls are opening a stream, sending a request,
-- a response or body bytes on any stream, input that fits the free space, the end of input, taking
-- output and events, registering the callback, and a reset.
pub Reachable-IsValid : {e : Engine} → Reachable e → IsValid e
unfolding output_end next_event on_output_ready send_reset new_engine
Reachable-IsValid (constructed role) = ground arith
Reachable-IsValid (opened r) = open_stream-IsValid _ (Reachable-IsValid r)
Reachable-IsValid (requested id method path authority h end_stream r) =
    send_request_headers-IsValid _ id method path authority h end_stream (Reachable-IsValid r)
Reachable-IsValid (responded id status h end_stream r q) =
    Valid-some _ q (send_response_headers-Valid _ id status h end_stream (Reachable-IsValid r))
Reachable-IsValid (sent id body end_stream r q) =
    Valid-some _ q (send_data-Valid _ id body end_stream (Reachable-IsValid r))
Reachable-IsValid (received bytes r h q) =
    Valid-some _ q (input_end-Valid _ bytes (Reachable-IsValid r) h)
Reachable-IsValid (ended r) = eof-IsValid _ (Reachable-IsValid r)
Reachable-IsValid (drained n r) = let v = Reachable-IsValid r in ground arith
Reachable-IsValid (listened r) = let v = Reachable-IsValid r in ground arith
Reachable-IsValid (polled r) = let v = Reachable-IsValid r in ground arith
Reachable-IsValid (reset id ec r) = Reachable-IsValid r
