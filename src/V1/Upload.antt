-- ===== src/V1/Upload.antt =====
-- source/v1/engine.cpp: the pieces of a request body, from a client's engine to a server's.
use mathlib.Core.Path.{subst}
use stunning_waddle.Base.{
  ℕ, ◌<◌, ◌≤◌, ◌^◌, Bool, true, false, not, ◌||◌, ◌≡◌, ◌∙◌, sym, List, [], ◌∷◌, ◌++◌, Option, none,
  some, Bytes, length, arith, codes, refl, ap, append_assoc, append-nil, if_true, elim_some,
  is_empty, if_false, if◌then◌else◌, find, length-append, option_intro, ==_iff,
}
use stunning_waddle.Decimal.{to_hex}
use stunning_waddle.Event.{Event, data_of, plain_event, stream_closed}
use stunning_waddle.V2.State.{server, is_server, client}
use stunning_waddle.V1.State.{
  maybe_invoke_output_ready, Engine, StreamInfo, chunk_size, chunk_trailer, awaiting_response,
  append_pending, update, is_active, input_capacity,
}
use stunning_waddle.V1.Send.{crlf}
use stunning_waddle.V1.Exchange.{finish_message, complete_request}
use stunning_waddle.V1.Parse.{parse_from, parse_available, compact}
use stunning_waddle.V1.Input.{send_data, frame_body, put_body, end_body, input_end}
use stunning_waddle.V1.Flush.{append_pending-out}
use stunning_waddle.V1.Runs.{Runs, Runs-end, parse_from-Runs}
use stunning_waddle.V1.Request.{complete_request-kept}
use stunning_waddle.V1.Chunks.{Runs-chunk, Runs-last_chunk, took_chunk}

-- A client in the middle of a chunked request body.
pub record IsSending (c : Engine) (id : ℕ) (info : StreamInfo) : Type 0 where
  pub asks : c.role ≡ client
  pub in_flight : c.active_stream ≡ some id
  pub known : find id c.streams ≡ some info
  pub may_send : info.finished || info.request_complete || not info.head_sent ≡ false
  pub has_body : info.no_body ≡ false
  pub by_chunks : info.chunked ≡ true

-- A server that awaits a chunk, with nothing buffered.
pub record IsReceiving (s : Engine) (k : ℕ) : Type 0 where
  pub serves : s.role ≡ server
  pub awaits_size : s.state ≡ chunk_size
  pub reads : s.active_stream ≡ some k
  pub drained : s.input_buffer ≡ []

-- The events of a piece of a body, the last or not.
abbrev pub body_events : ℕ → Bytes → Bool → List Event
body_events k body fin =
    (if is_empty body then [] else data_of k body ∷ [])
    ++ (if fin then plain_event k stream_closed ∷ [] else [])

-- What a server has made of a piece of a body.
record Took (e : Engine) (k : ℕ) (body : Bytes) (fin : Bool) (r : Engine) : Type 0 where
  events : r.event_queue ≡ e.event_queue ++ body_events k body fin
  goes_on : r.state ≡ (if fin then awaiting_response else chunk_size)
  active : r.active_stream ≡ some k
  left : r.input_buffer ≡ []

finish_message-server :
    (e : Engine) (k : ℕ)
    → e.role ≡ server
    → e.active_stream ≡ some k
    → finish_message e ≡ complete_request e k
unfolding finish_message
finish_message-server e k r a =
    elim_some e.active_stream _ _ a ∙ if_true (is_server e.role) _ _ (ap is_server r)

-- The last chunk, at the end of a message of a request.
Runs-last :
    (e : Engine) (k : ℕ)
    → e.role ≡ server
    → e.state ≡ chunk_size
    → e.active_stream ≡ some k
    → (r : Engine) × Runs e (codes "0\r\n\r\n") r × Took e k [] true r
unfolding compact
Runs-last e k s q a =
    let e1 : Engine = record e { body_remaining = 0; state = chunk_trailer } in
    let done_ = complete_request e1 k in
    let kept = complete_request-kept e1 k in
    (
      compact done_ [],
      Runs-last_chunk e (compact done_ []) [] q (
          subst (λ x. Runs x [] (compact done_ [])) (sym (finish_message-server e1 k s a))
            (Runs-end done_)),
      record { events = kept.0; goes_on = kept.1; active = kept.2 ∙ a; left = refl },
    )

frame_body-cons :
    (b : ℕ) (body : Bytes) (fin : Bool)
    → frame_body true (b ∷ body) fin
      ≡ to_hex (length (b ∷ body))
        ++ (crlf ++ (b ∷ body ++ (crlf ++ (if fin then codes "0\r\n\r\n" else []))))
unfolding frame_body
frame_body-cons b body fin = simp append_assoc

Runs-body :
    (e : Engine) (k : ℕ) (body : Bytes) (fin : Bool)
    → e.role ≡ server
    → e.state ≡ chunk_size
    → e.active_stream ≡ some k
    → length body < 2 ^ 64
    → (r : Engine) × Runs e (frame_body true body fin) r × Took e k body fin r
unfolding frame_body compact
Runs-body e k [] false s q a small = (
  compact e [],
  Runs-end e,
  record { events = sym (append-nil e.event_queue); goes_on = q; active = a; left = refl },
)
Runs-body e k [] true s q a small = Runs-last e k s q a
Runs-body e k (b ∷ body) false s q a small =
    let e1 = took_chunk e k (b ∷ body) in
    (
      compact e1 [],
      subst (λ t. Runs e t (compact e1 [])) (sym (frame_body-cons b body false))
          (Runs-chunk e (compact e1 []) k b body [] q a small (Runs-end e1)),
      record { events = refl; goes_on = refl; active = a; left = refl },
    )
Runs-body e k (b ∷ body) true s q a small =
    let e1 = took_chunk e k (b ∷ body) in
    let (r, runs, took) = Runs-last e1 k s refl a in
    (
      r,
      subst (λ t. Runs e t r) (sym (frame_body-cons b body true))
          (Runs-chunk e r k b body _ q a small runs),
      record {
        events = took.events ∙ append_assoc e.event_queue (data_of k (b ∷ body) ∷ []) _;
        goes_on = took.goes_on;
        active = took.active;
        left = took.left;
      },
    )

body-le-frame : (body : Bytes) (fin : Bool) → length body ≤ length (frame_body true body fin)
body-le-frame [] fin = omega arith
body-le-frame (b ∷ body) fin =
    let rest = crlf ++ (if fin then codes "0\r\n\r\n" else []) in
    omega (
      arith,
      ap length (frame_body-cons b body fin),
      length-append (to_hex (length (b ∷ body))) (crlf ++ (b ∷ body ++ rest)),
      length-append (b ∷ body) rest,
    )

some_frame : (frame : Bytes) → 0 < length frame → is_empty frame ≡ false
some_frame [] h = absurd (omega arith)
some_frame (b ∷ frame) h = refl

-- The receiver gets a whole piece at once.
input_end-some_frame :
    (s : Engine) (k : ℕ) (body : Bytes) (fin : Bool)
    → IsReceiving s k
    → length body < 2 ^ 64
    → is_empty (frame_body true body fin) ≡ false
    → (s' : Engine) × (input_end s (frame_body true body fin) ≡ some s') × Took s k body fin s'
unfolding input_end parse_available
input_end-some_frame s k body fin l small h =
    let frame = frame_body true body fin in
    let (r, runs, took) =
      Runs-body (record s { input_buffer = frame }) k body fin l.serves l.awaits_size l.reads
        small in
    (
      r,
      if_false (is_empty frame) _ _ h
          ∙ ap (λ b. parse_from (record s { input_buffer = b ++ frame }) (b ++ frame)) l.drained
          ∙ parse_from-Runs _ r frame runs,
      record {
        events = took.events;
        goes_on = took.goes_on;
        active = took.active;
        left = took.left;
      },
    )

input_end-frame :
    (s : Engine) (k : ℕ) (body : Bytes) (fin : Bool)
    → IsReceiving s k
    → length body < 2 ^ 64
    → (s' : Engine) × (input_end s (frame_body true body fin) ≡ some s') × Took s k body fin s'
unfolding frame_body input_end
input_end-frame s k [] false l small = (
  s,
  refl,
  record {
    events = sym (append-nil s.event_queue);
    goes_on = l.awaits_size;
    active = l.reads;
    left = l.drained;
  },
)
input_end-frame s k [] true l small = input_end-some_frame s k [] true l small refl
input_end-frame s k (b ∷ body) fin l small =
    input_end-some_frame s k (b ∷ body) fin l small
      (some_frame (frame_body true (b ∷ body) fin) (omega (arith, body-le-frame (b ∷ body) fin)))

-- What becomes of the sender: the framed bytes are in its output.
end_body-client :
    (c : Engine) (id : ℕ)
    → c.role ≡ client
    → (c' : Engine) × (end_body c id ≡ some c') × (c'.pending_out ≡ c.pending_out)
unfolding end_body
end_body-client c id r = (
  elim (find id c.streams) [
    | none ↦ c
    | some info ↦ update c id (record info { request_complete = true })
  ],
  if_false (is_server c.role) _ _ (ap is_server r),
  option_intro (λ (e : Engine). e.pending_out ≡ c.pending_out) (find id c.streams) _ _ (λ _. refl)
      (λ info _. refl),
)

append_pending-role : (e : Engine) (b : Bytes) → (append_pending e b).role ≡ e.role
unfolding append_pending maybe_invoke_output_ready
append_pending-role e b = ground arith

module _ (c : Engine) (id : ℕ) (info : StreamInfo) (body : Bytes) (n : IsSending c id info) where
  put_body-active :
      (fin : Bool)
      → put_body c id info (frame_body info.chunked body fin)
        ≡ append_pending c (frame_body true body fin)
  unfolding put_body is_active
  put_body-active fin =
      if_true (is_active c id) _ _
        (elim_some c.active_stream _ _ n.in_flight ∙ (==_iff id id).1 refl)
      ∙ ap (λ b. append_pending c (frame_body b body fin)) n.by_chunks

  send_data-put :
      (fin : Bool)
      → send_data c id body fin ≡ (
        length body,
        if fin
            then end_body (append_pending c (frame_body true body fin)) id
            else some (append_pending c (frame_body true body fin)),
      )
  unfolding send_data
  send_data-put fin =
      elim_some (find id c.streams) _ _ n.known
      ∙ if_false (info.finished || info.request_complete || not info.head_sent) _ _ n.may_send
      ∙ if_false info.no_body _ _ n.has_body
      ∙ ap (λ e. (length body, if fin then end_body e id else some e)) (put_body-active fin)

  send_data-chunked :
      (fin : Bool)
      → (c' : Engine) × (send_data c id body fin ≡ (length body, some c'))
        × (c'.pending_out ≡ c.pending_out ++ frame_body true body fin)
  send_data-chunked false = (
    append_pending c (frame_body true body false),
    send_data-put false,
    append_pending-out c (frame_body true body false),
  )
  send_data-chunked true =
      let e = append_pending c (frame_body true body true) in
      let (c', ends, out) = end_body-client e id (append_pending-role c _ ∙ n.asks) in
      (
        c',
        send_data-put true ∙ ap (λ (o : Option Engine). (length body, o)) ends,
        out ∙ append_pending-out c (frame_body true body true),
      )

-- A body arrives as it was sent, piece by piece. Let a client's engine be in the middle of a chunked
-- request body, on the stream whose exchange is in flight, and let a server's engine await the
-- size of a chunk on a stream, with nothing buffered. Then `send_data` accepts all of a piece, be
-- it empty or the last, and appends a frame to the output; and `input_end` on that frame, if the
-- frame fits the buffer, brings exactly one `data` event with the very bytes, unless there are
-- none, and behind it `stream_closed` if the piece is the last. The server then awaits the next
-- chunk, or its response if the piece was the last, with nothing left in its buffer.
pub input_end-send_data :
    (c s : Engine) (id k : ℕ) (info : StreamInfo) (body : Bytes) (fin : Bool)
    → IsSending c id info
    → IsReceiving s k
    → length (frame_body true body fin) ≤ input_capacity
    → (frame : Bytes) × (c' : Engine) × (s' : Engine) × (send_data c id body fin
        ≡ (length body, some c'))
      × (c'.pending_out ≡ c.pending_out ++ frame)
      × (input_end s frame ≡ some s')
      × (s'.event_queue ≡ s.event_queue ++ body_events k body fin)
      × (s'.state ≡ (if fin then awaiting_response else chunk_size))
      × (s'.active_stream ≡ some k)
      × (s'.input_buffer ≡ [])
input_end-send_data c s id k info body fin n l fits =
    let (c', sends, out) = send_data-chunked c id info body n fin in
    let (s', reads, took) =
      input_end-frame s k body fin l (omega (arith, body-le-frame body fin, fits)) in
    (
      frame_body true body fin,
      c',
      s',
      sends,
      out,
      reads,
      took.events,
      took.goes_on,
      took.active,
      took.left,
    )
