-- ===== src/V1/Order/Responses.antt =====
-- source/v1/engine.cpp: a client's parser, and every history of calls on a client's engine.
use mathlib.Core.Path.{subst}
use stunning_waddle.Base.{
  ℕ, zero, suc, Bool, true, false, not, ◌||◌, ◌≡◌, ◌∙◌, sym, List, [], ◌∷◌, Option, none, some,
  Bytes, arith, codes, length, min, take, refl, ap, find, if_intro, option_intro, ◌==◌,
  if◌then◌else◌, is_empty, ◌-◌,
}
use stunning_waddle.ErrorCodes.{protocol_error}
use stunning_waddle.Event.{Event}
use stunning_waddle.V2.State.{is_server}
use stunning_waddle.V1.Text.{
  parse_content_length, parse_status_line, parse_chunk_size, split_at, iequals, find_header_ci,
}
use stunning_waddle.V1.State.{
  Engine, StreamInfo, ParseState, start_line, skip_interim, reading_headers, body_length,
  chunk_size, chunk_data, chunk_crlf, chunk_trailer, body_until_close, awaiting_response, done,
  queue_event, input_capacity,
}
use stunning_waddle.V1.Exchange.{
  complete_exchange, finish_message, handle_headers_complete, response_head_complete,
  begin_body_length, is_chunked, is_no_content, asks_close,
}
use stunning_waddle.V1.Parse.{
  Turn, again, return, find_line, compact, wait_for_line, take_line, emit_data, set_minor,
  is_interim, on_status_line, on_start_line, add_field_line, on_header_line, on_chunk_size,
  take_body, turn, parse_loop, parse_from, parse_available,
}
use stunning_waddle.V1.Order.{
  Ordered, InOrder, update-Ordered, connection_error-Ordered, complete_exchange-Ordered, is_waiting,
}

-- A field that the order does not rest on is written.
abbrev TurnOrdered : Turn → Type 0
TurnOrdered (again rest e) = Ordered e
TurnOrdered (return e) = Ordered e

queue-Ordered : (e : Engine) (ev : Event) → Ordered e → Ordered (queue_event e ev)
queue-Ordered e ev v = record { asks = v.asks; in_order = v.in_order }

begin_body_length-Ordered :
    (e : Engine) (cl : Bytes) (id : ℕ)
    → e.active_stream ≡ some id
    → Ordered e
    → Ordered (begin_body_length e cl (λ e1. complete_exchange e1 id) (λ e1. e1))
unfolding begin_body_length
begin_body_length-Ordered e cl id a v =
    option_intro Ordered (parse_content_length cl) _ _
      (λ _. connection_error-Ordered e protocol_error v)
      (λ n _.
        if_intro Ordered (n == 0) _ _
          (λ _.
            complete_exchange-Ordered (record e { body_remaining = n }) id a
              (record { asks = v.asks; in_order = v.in_order }))
          (λ _. record { asks = v.asks; in_order = v.in_order }))

response_head_complete-Ordered :
    (e : Engine) (id : ℕ) (info : StreamInfo)
    → e.active_stream ≡ some id
    → Ordered e
    → Ordered (response_head_complete e id info)
unfolding response_head_complete
response_head_complete-Ordered e id info a v =
    let length_given = not (is_empty (find_header_ci e.message_headers (codes "content-length"))) in
    if_intro Ordered (iequals info.method (codes "HEAD") || is_no_content e.status_code) _ _
      (λ _. complete_exchange-Ordered (queue_event e _) id a (queue-Ordered e _ v))
      (λ _.
        if_intro Ordered (is_chunked e) _ _ (λ _. record { asks = v.asks; in_order = v.in_order })
          (λ _.
            if_intro Ordered length_given _ _
              (λ _. begin_body_length-Ordered (queue_event e _) _ id a (queue-Ordered e _ v))
              (λ _. record { asks = v.asks; in_order = v.in_order })))

not-true : (b : Bool) → not b ≡ true → b ≡ false
not-true true h = cc
not-true false h = refl

-- The stream whose exchange is in flight waits.
active-unfinished :
    (e : Engine) (id : ℕ) (info : StreamInfo)
    → e.active_stream ≡ some id
    → find id e.streams ≡ some info
    → Ordered e
    → info.finished ≡ false
active-unfinished e id info a k v =
    unfinished e.stream_order (subst (InOrder e.streams e.stream_order) a v.in_order)
  where
    unfinished : (order : List ℕ) → InOrder e.streams order (some id) → info.finished ≡ false
    unfinished [] w = absurd w.oldest
    unfinished (first ∷ order) w =
        not-true info.finished
          (sym (ap is_waiting k) ∙ ap (λ x. is_waiting (find x e.streams)) w.oldest ∙ w.waiting.0)

closing_info-finished :
    (e : Engine) (info : StreamInfo)
    → (if asks_close e then record info { close_after = true } else info).finished ≡ info.finished
closing_info-finished e info =
    if_intro (λ (i : StreamInfo). i.finished ≡ info.finished) (asks_close e) _ _ (λ _. refl)
      (λ _. refl)

handle_headers_complete-Ordered : (e : Engine) → Ordered e → Ordered (handle_headers_complete e)
unfolding handle_headers_complete
handle_headers_complete-Ordered e v =
    option_intro Ordered e.active_stream _ _ (λ _. connection_error-Ordered e protocol_error v)
      (λ id a.
        option_intro Ordered (find id e.streams) _ _
          (λ _. connection_error-Ordered e protocol_error v)
          (λ info k.
            let w =
              update-Ordered e id _
                (closing_info-finished e info ∙ active-unfinished e id info a k v) v in
            if_intro Ordered (is_server e.role) _ _
              (λ r. absurd (ground (arith, ap is_server v.asks, r)))
              (λ _. response_head_complete-Ordered _ id _ a w)))

finish_message-Ordered : (e : Engine) → Ordered e → Ordered (finish_message e)
unfolding finish_message
finish_message-Ordered e v =
    option_intro Ordered e.active_stream _ _ (λ _. connection_error-Ordered e protocol_error v)
      (λ id a.
        if_intro Ordered (is_server e.role) _ _
          (λ r. absurd (ground (arith, ap is_server v.asks, r)))
          (λ _. complete_exchange-Ordered e id a v))

take_line-Ordered :
    (e : Engine) (rest : Bytes) (k : Bytes → Bytes → Turn)
    → Ordered e
    → ((line after : Bytes) → TurnOrdered (k line after))
    → TurnOrdered (take_line e rest k)
unfolding take_line wait_for_line compact
take_line-Ordered e rest k v h =
    option_intro TurnOrdered (find_line rest) _ _
      (λ _.
        if_intro Ordered (length rest == input_capacity) _ _
          (λ _.
            connection_error-Ordered _ protocol_error
              (record { asks = v.asks; in_order = v.in_order }))
          (λ _. record { asks = v.asks; in_order = v.in_order }))
      (λ r _. h r.0 r.1)

set_minor-Ordered : (e : Engine) (m : Option ℕ) → Ordered e → Ordered (set_minor e m)
set_minor-Ordered e none v = v
set_minor-Ordered e (some m) v = record { asks = v.asks; in_order = v.in_order }

on_status_line-Ordered :
    (e : Engine) (line after : Bytes) → Ordered e → TurnOrdered (on_status_line e line after)
unfolding on_status_line
on_status_line-Ordered e line after v =
    let r = parse_status_line line in
    let w = set_minor-Ordered e r.minor v in
    option_intro TurnOrdered r.parts _ _
      (λ _. connection_error-Ordered (set_minor e r.minor) protocol_error w)
      (λ status _.
        if_intro TurnOrdered (is_interim status) _ _
          (λ _. record { asks = w.asks; in_order = w.in_order })
          (λ _. record { asks = w.asks; in_order = w.in_order }))

on_start_line-Ordered : (e : Engine) (rest : Bytes) → Ordered e → TurnOrdered (on_start_line e rest)
unfolding on_start_line
on_start_line-Ordered e rest v =
    if_intro TurnOrdered (is_server e.role) _ _
      (λ r. absurd (ground (arith, ap is_server v.asks, r)))
      (λ _.
        option_intro TurnOrdered e.active_stream _ _
          (λ _. connection_error-Ordered e protocol_error v)
          (λ id _.
            take_line-Ordered e rest (on_status_line e) v
              (λ line after. on_status_line-Ordered e line after v)))

add_field_line-Ordered : (e : Engine) (line : Bytes) → Ordered e → Ordered (add_field_line e line)
unfolding add_field_line
add_field_line-Ordered e line v =
    option_intro Ordered (split_at 58 line) _ _ (λ _. v)
      (λ p _.
        if_intro Ordered (is_empty p.0) _ _ (λ _. v)
          (λ _. record { asks = v.asks; in_order = v.in_order }))

emit_data-Ordered : (e : Engine) (bytes : Bytes) → Ordered e → Ordered (emit_data e bytes)
unfolding emit_data
emit_data-Ordered e bytes v =
    option_intro Ordered e.active_stream _ _ (λ _. v)
      (λ id _. if_intro Ordered (is_empty bytes) _ _ (λ _. v) (λ _. queue-Ordered e _ v))

take_body-Ordered :
    (e : Engine) (rest : Bytes) (finish : Engine → Engine)
    → Ordered e
    → ((e1 : Engine) → Ordered e1 → Ordered (finish e1))
    → TurnOrdered (take_body e rest finish)
unfolding take_body
take_body-Ordered e rest finish v f =
    let n = min (length rest) e.body_remaining in
    let w = emit_data-Ordered e (take n rest) v in
    if_intro Ordered (e.body_remaining - n == 0) _ _
      (λ _. f _ (record { asks = w.asks; in_order = w.in_order }))
      (λ _. record { asks = w.asks; in_order = w.in_order })

-- A turn of a client's parser keeps the order, in each state.
turn-Ordered :
    (e : Engine) (rest : Bytes) (s : ParseState)
    → e.state ≡ s
    → Ordered e
    → TurnOrdered (turn e rest)
unfolding turn on_header_line on_chunk_size compact
turn-Ordered e rest start_line q v = rw (q, turn) (on_start_line-Ordered e rest v)
turn-Ordered e rest skip_interim q v =
    rw (q, turn)
      (take_line-Ordered e rest _ v (λ line after.
        if_intro Ordered (is_empty line) _ _ (λ _. record { asks = v.asks; in_order = v.in_order })
          (λ _. v)))
turn-Ordered e rest reading_headers q v =
    rw (q, turn)
      (take_line-Ordered e rest _ v (λ line after.
        if_intro TurnOrdered (is_empty line) _ _ (λ _. handle_headers_complete-Ordered e v)
          (λ _. add_field_line-Ordered e line v)))
turn-Ordered e rest body_length q v =
    rw (q, turn) (take_body-Ordered e rest _ v finish_message-Ordered)
turn-Ordered e rest chunk_size q v =
    rw (q, turn)
      (take_line-Ordered e rest _ v (λ line after.
        option_intro TurnOrdered (parse_chunk_size line) _ _
          (λ _. connection_error-Ordered e protocol_error v)
          (λ size _. record { asks = v.asks; in_order = v.in_order })))
turn-Ordered e rest chunk_data q v =
    rw (q, turn)
      (take_body-Ordered e rest _ v (λ e1 w. record { asks = w.asks; in_order = w.in_order }))
turn-Ordered e rest chunk_crlf q v =
    rw (q, turn)
      (take_line-Ordered e rest _ v (λ line after. record { asks = v.asks; in_order = v.in_order }))
turn-Ordered e rest chunk_trailer q v =
    rw (q, turn)
      (take_line-Ordered e rest _ v (λ line after.
        if_intro Ordered (is_empty line) _ _ (λ _. finish_message-Ordered e v) (λ _. v)))
turn-Ordered e rest body_until_close q v = rw (q, turn) (emit_data-Ordered e rest v)
turn-Ordered e rest awaiting_response q v =
    rw (q, turn) (record { asks = v.asks; in_order = v.in_order })
turn-Ordered e rest done q v = rw (q, turn) (record { asks = v.asks; in_order = v.in_order })

abbrev pub MaybeOrdered : Option Engine → Type 0
MaybeOrdered none = Unit
MaybeOrdered (some e) = Ordered e

goes_on :
    (next : Engine → Bytes → Option Engine)
    → ((e : Engine) (rest : Bytes) → Ordered e → MaybeOrdered (next e rest))
    → (t : Turn) → TurnOrdered t
    → MaybeOrdered (elim t [ again rest e ↦ next e rest | return e ↦ some e ])
goes_on next ih (again rest e) v = ih e rest v
goes_on next ih (return e) v = v

parse_loop-Ordered :
    (fuel : ℕ) (e : Engine) (rest : Bytes) → Ordered e → MaybeOrdered (parse_loop fuel e rest)
unfolding parse_loop compact
parse_loop-Ordered zero e [] v = record { asks = v.asks; in_order = v.in_order }
parse_loop-Ordered (suc fuel) e [] v = record { asks = v.asks; in_order = v.in_order }
parse_loop-Ordered zero e (b ∷ rest) v = tt
parse_loop-Ordered (suc fuel) e (b ∷ rest) v =
    goes_on (parse_loop fuel) (λ e' rest'. parse_loop-Ordered fuel e' rest') (turn e (b ∷ rest))
      (turn-Ordered e (b ∷ rest) e.state refl v)

pub parse_available-Ordered : (e : Engine) → Ordered e → MaybeOrdered (parse_available e)
unfolding parse_available parse_from
parse_available-Ordered e v = parse_loop-Ordered (length e.input_buffer) e e.input_buffer v
