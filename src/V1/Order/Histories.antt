-- ===== src/V1/Order/Histories.antt =====
-- source/v1/engine.cpp: every history of calls on a client's engine.
use stunning_waddle.Base.{
  ℕ, Bool, true, false, not, ◌&&◌, ◌||◌, ◌≡◌, ◌∙◌, sym, List, [], ◌∷◌, ◌++◌, Option, none, some,
  Bytes, arith, refl, ap, elim_none, find, insert, find-insert, All-append, if_intro, option_intro,
  ◌==◌, is_empty, Map, Bool-cases, inl, inr, ==_iff,
}
use stunning_waddle.ErrorCodes.{connection_reset}
use stunning_waddle.Event.{Event}
use stunning_waddle.Headers.{Headers}
use stunning_waddle.V2.State.{client, is_server}
use stunning_waddle.V1.State.{
  Engine, StreamInfo, ParseState, start_line, body_until_close, done, update, new_engine,
  open_stream, advance_stream_id, info_at, output_end, next_event, on_output_ready, is_active,
}
use stunning_waddle.V1.Send.{send_request_headers, stage_request, serialize_request_head}
use stunning_waddle.V1.Input.{input_end, eof, eof_in, send_data, put_body, end_body, frame_body}
use stunning_waddle.V1.Flush.{find-insert_self}
use stunning_waddle.V1.Order.{
  Ordered, AllWait, Distinct, IsOldest, AllWait-insert, mark_connection_done-Ordered,
  connection_error-Ordered, complete_exchange-Ordered, is_waiting, append_pending-Ordered,
  flush_pending-Ordered,
}
use stunning_waddle.V1.Order.Responses.{MaybeOrdered, parse_available-Ordered}

-- A stream that is written over waits as before.
AllWait-update :
    (id : ℕ) (old info : StreamInfo) (streams : Map StreamInfo) (order : List ℕ)
    → find id streams ≡ some old
    → info.finished ≡ old.finished
    → AllWait streams order
    → AllWait (insert id info streams) order
AllWait-update id old info streams [] k f w = tt
AllWait-update id old info streams (j ∷ order) k f (wj, w) = (
  ap is_waiting (find-insert id j info streams)
      ∙ if_intro (λ o. is_waiting o ≡ true) (id == j) _ _
          (λ q.
            ap not f
            ∙ sym (ap is_waiting k)
            ∙ ap (λ x. is_waiting (find x streams)) ((==_iff id j).0 q)
            ∙ wj)
          (λ _. wj),
  AllWait-update id old info streams order k f w,
)

update_known-Ordered :
    (e : Engine) (id : ℕ) (old info : StreamInfo)
    → find id e.streams ≡ some old
    → info.finished ≡ old.finished
    → Ordered e
    → Ordered (update e id info)
update_known-Ordered e id old info k f v = record {
  asks = v.asks;
  in_order = record {
    oldest = v.in_order.oldest;
    waiting = AllWait-update id old info e.streams e.stream_order k f v.in_order.waiting;
    distinct = v.in_order.distinct;
  };
}

stage_request-finished :
    (info : StreamInfo) (method path authority : Bytes) (h : Headers) (fin : Bool)
    → (stage_request info method path authority h fin).finished ≡ info.finished
unfolding stage_request serialize_request_head
stage_request-finished info method path authority h fin = ground arith

send_request_headers-Ordered :
    (e : Engine) (id : ℕ) (method path authority : Bytes) (h : Headers) (fin : Bool)
    → Ordered e
    → Ordered (send_request_headers e id method path authority h fin)
unfolding send_request_headers
send_request_headers-Ordered e id method path authority h fin v =
    option_intro Ordered (find id e.streams) _ _ (λ _. v)
      (λ info k.
        if_intro Ordered info.head_sent _ _ (λ _. v)
          (λ _. flush_pending-Ordered _ (
            update_known-Ordered e id info (stage_request info method path authority h fin) k
              (stage_request-finished info method path authority h fin) v)))

-- A stream that opens goes behind the others.
joins :
    (streams : Map StreamInfo) (id : ℕ) (order : List ℕ)
    → find id streams ≡ none
    → AllWait streams order
    → Distinct order
    → Distinct (order ++ (id ∷ []))
joins streams id [] n w d = (tt, tt)
joins streams id (j ∷ order) n (wj, w) (dj, d) = (
  All-append (λ x. (j == x) ≡ false) order (id ∷ []) dj
      (
        elim (Bool-cases (j == id)) [
          | inl q ↦ cc (
              sym (ap is_waiting n)
              ∙ ap (λ x. is_waiting (find x streams)) (sym ((==_iff j id).0 q))
              ∙ wj)
          | inr q ↦ q
        ],
        tt,
      ),
  joins streams id order n w d,
)

oldest-append :
    (a : Option ℕ) (order : List ℕ) (id : ℕ) → IsOldest a order → IsOldest a (order ++ (id ∷ []))
oldest-append none order id o = tt
oldest-append (some a) [] id o = absurd o
oldest-append (some a) (first ∷ order) id o = o

open_stream-Ordered :
    (e : Engine) → find e.next_stream_id e.streams ≡ none → Ordered e → Ordered (open_stream e).1
unfolding open_stream advance_stream_id info_at
open_stream-Ordered e n v =
    let id = e.next_stream_id in
    let info : StreamInfo = record (info_at e id) { id = id } in
    let f : info.finished ≡ false =
      ap (λ (i : StreamInfo). i.finished) (elim_none (find id e.streams) _ _ n) in
    record {
      asks = v.asks;
      in_order = record {
        oldest = oldest-append e.active_stream e.stream_order id v.in_order.oldest;
        waiting =
            All-append _ e.stream_order (id ∷ [])
              (AllWait-insert id info e.streams e.stream_order f v.in_order.waiting)
              (ap is_waiting (find-insert_self id info e.streams) ∙ ap not f, tt);
        distinct = joins e.streams id e.stream_order n v.in_order.waiting v.in_order.distinct;
      };
    }

put_body-Ordered :
    (e : Engine) (id : ℕ) (info : StreamInfo) (framed : Bytes)
    → find id e.streams ≡ some info
    → Ordered e
    → Ordered (put_body e id info framed)
unfolding put_body
put_body-Ordered e id info framed k v =
    if_intro Ordered (is_active e id) _ _ (λ _. append_pending-Ordered e framed v)
      (λ _. update_known-Ordered e id info _ k refl v)

end_body-Ordered : (e : Engine) (id : ℕ) → Ordered e → MaybeOrdered (end_body e id)
unfolding end_body
end_body-Ordered e id v =
    if_intro MaybeOrdered (is_server e.role) _ _
      (λ r. absurd (ground (arith, ap is_server v.asks, r)))
      (λ _.
        option_intro Ordered (find id e.streams) _ _ (λ _. v)
          (λ info k. update_known-Ordered e id info _ k refl v))

send_data-Ordered :
    (e : Engine) (id : ℕ) (body : Bytes) (fin : Bool)
    → Ordered e
    → MaybeOrdered (send_data e id body fin).1
unfolding send_data
send_data-Ordered e id body fin v =
    let P = λ (r : ℕ × Option Engine). MaybeOrdered r.1 in
    option_intro P (find id e.streams) _ _ (λ _. v)
      (λ info k.
        if_intro P (info.finished || info.request_complete || not info.head_sent) _ _ (λ _. v)
          (λ _.
            if_intro P info.no_body _ _
              (λ _.
                if_intro MaybeOrdered (fin && is_server e.role) _ _
                  (λ r. absurd (ground (arith, ap is_server v.asks, r))) (λ _. v))
              (λ _.
                let w = put_body-Ordered e id info (frame_body info.chunked body fin) k v in
                if_intro MaybeOrdered fin _ _ (λ _. end_body-Ordered _ id w) (λ _. w))))

eof_in-Ordered : (e : Engine) (s : ParseState) → e.state ≡ s → Ordered e → Ordered (eof_in e)
unfolding eof_in
eof_in-Ordered e start_line q v =
    rw (q, eof_in)
      (option_intro Ordered e.active_stream _ _ (λ _. mark_connection_done-Ordered e v)
        (λ id _.
          if_intro Ordered (is_server e.role) _ _ (λ _. mark_connection_done-Ordered e v)
            (λ _. connection_error-Ordered e connection_reset v)))
eof_in-Ordered e body_until_close q v =
    rw (q, eof_in)
      (let e' : Engine = record e { connection_done = true } in
        let w : Ordered e' = record { asks = v.asks; in_order = v.in_order } in
        option_intro Ordered e.active_stream _ _ (λ _. mark_connection_done-Ordered e' w)
          (λ id a. complete_exchange-Ordered e' id a w))
eof_in-Ordered e done q v = rw (q, eof_in) v
eof_in-Ordered e _ q v = rw (q, eof_in) (connection_error-Ordered e connection_reset v)

eof-Ordered : (e : Engine) → Ordered e → Ordered (eof e)
unfolding eof
eof-Ordered e v =
    let e' : Engine = record e { eof_seen = true } in
    if_intro Ordered e.eof_seen _ _ (λ _. v)
      (λ _. eof_in-Ordered e' e.state refl (record { asks = v.asks; in_order = v.in_order }))

input_end-Ordered : (e : Engine) (bytes : Bytes) → Ordered e → MaybeOrdered (input_end e bytes)
unfolding input_end
input_end-Ordered e bytes v =
    if_intro MaybeOrdered (is_empty bytes) _ _ (λ _. v)
      (λ _. parse_available-Ordered _ (record { asks = v.asks; in_order = v.in_order }))

-- What a client can do with its engine, one call after the other. The number of a stream that is
-- opened is not that of a stream that is still there (numbers wrap around).
pub data History : Engine → Type 0 where
  constructed : History (new_engine client)
  opened :
      {e : Engine} → History e → find e.next_stream_id e.streams ≡ none → History (open_stream e).1
  requested :
      {e : Engine} (id : ℕ) (method path authority : Bytes) (h : Headers) (fin : Bool)
      → History e
      → History (send_request_headers e id method path authority h fin)
  sent :
      {e e' : Engine} (id : ℕ) (body : Bytes) (fin : Bool)
      → History e
      → (send_data e id body fin).1 ≡ some e'
      → History e'
  received : {e e' : Engine} (bytes : Bytes) → History e → input_end e bytes ≡ some e' → History e'
  ended : {e : Engine} → History e → History (eof e)
  drained : {e : Engine} (n : ℕ) → History e → History (output_end e n)
  listened : {e : Engine} → History e → History (on_output_ready e)
  polled : {e : Engine} → History e → History (next_event e).1

next_event-Ordered : (e : Engine) → Ordered e → Ordered (next_event e).1
unfolding next_event
next_event-Ordered e v = go e.event_queue
  where
    go :
        (queue : List Event)
        → Ordered (
            (let r : Option Event × Engine = elim queue [
              | [] ↦ (none, e)
              | ev ∷ rest ↦ (some ev, record e { event_queue = rest })
            ] in
              r).1)
    go [] = v
    go (ev ∷ rest) = record { asks = v.asks; in_order = v.in_order }

MaybeOrdered-some : (o : Option Engine) {e : Engine} → o ≡ some e → MaybeOrdered o → Ordered e
MaybeOrdered-some o q v = let w = (rw q at v) in w

-- Responses are matched to requests in the order in which the streams were opened. Whatever a client
-- did with its engine, and whatever bytes it received, the exchange in flight, which the next
-- response is taken for, is that of the oldest stream in `stream_order`; every stream in that order
-- is known with its exchange not ended, and stands there once.
pub History-Ordered : {e : Engine} → History e → Ordered e
unfolding output_end next_event on_output_ready new_engine
History-Ordered constructed = record {
  asks = refl;
  in_order = record { oldest = tt; waiting = tt; distinct = tt };
}
History-Ordered (opened r n) = open_stream-Ordered _ n (History-Ordered r)
History-Ordered (requested id method path authority h fin r) =
    send_request_headers-Ordered _ id method path authority h fin (History-Ordered r)
History-Ordered (sent id body fin r q) =
    MaybeOrdered-some _ q (send_data-Ordered _ id body fin (History-Ordered r))
History-Ordered (received bytes r q) =
    MaybeOrdered-some _ q (input_end-Ordered _ bytes (History-Ordered r))
History-Ordered (ended r) = eof-Ordered _ (History-Ordered r)
History-Ordered (drained n r) =
    let v = History-Ordered r in record { asks = v.asks; in_order = v.in_order }
History-Ordered (listened r) =
    let v = History-Ordered r in record { asks = v.asks; in_order = v.in_order }
History-Ordered (polled r) = next_event-Ordered _ (History-Ordered r)
