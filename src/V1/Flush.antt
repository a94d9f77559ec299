-- ===== src/V1/Flush.antt =====
-- source/v1/engine.cpp: a client's request head goes out.
use stunning_waddle.Base.{
  ℕ, true, false, not, ◌&&◌, ◌≡◌, ◌∙◌, List, [], ◌∷◌, ◌++◌, none, some, Bytes, codes, is_empty,
  if◌then◌else◌, refl, ap, append_assoc, append-nil, ◌==◌, ==_iff, Bool-cases, inl, inr, find,
  insert, find-insert, if_true, if_false, elim_none, elim_some, arith,
}
use stunning_waddle.Headers.{Headers}
use stunning_waddle.V1.State.{Engine, StreamInfo, update, append_pending, maybe_invoke_output_ready}
use stunning_waddle.V1.Send.{
  crlf, header_lines, serialize_request_head, stage_request, send_request_headers, flush_pending,
  flush_loop, flush_stream, has_header,
}

-- The fields that a request head carries: the authority goes before the caller's as Host.
abbrev pub sent_fields : Bytes → Headers → Headers
sent_fields authority h =
    if not (is_empty authority) && not (has_header h (codes "host"))
    then record { name = codes "Host"; value = authority } ∷ h
    else h

abbrev pub request_line : Bytes → Bytes → Bytes
request_line method path = method ++ (32 ∷ (path ++ codes " HTTP/1.1"))

-- A request head, for a method, a path and fields.
abbrev pub request_text : Bytes → Bytes → Headers → Bytes
request_text method path fields =
    request_line method path ++ (crlf ++ (header_lines fields ++ (crlf ++ [])))

serialize_request_head-text :
    (info : StreamInfo) (method path authority : Bytes) (h : Headers)
    → serialize_request_head info method path authority h true
      ≡ (info, request_text method path (sent_fields authority h))
unfolding serialize_request_head header_lines
serialize_request_head-text info method path authority h =
    elim (Bool-cases (not (is_empty authority) && not (has_header h (codes "host")))) [
      | inl q ↦ simp (q, append_assoc)
      | inr q ↦ simp (q, append_assoc)
    ]

pub append_pending-out :
    (e : Engine) (b : Bytes) → (append_pending e b).pending_out ≡ e.pending_out ++ b
unfolding append_pending maybe_invoke_output_ready
append_pending-out e b = ground arith

pub find-insert_self {ℓ} :
    {V : Type ℓ} (k : ℕ) (v : V) (m : List (ℕ × V)) → find k (insert k v m) ≡ some v
find-insert_self k v m = find-insert k k v m ∙ if_true (k == k) _ _ ((==_iff k k).1 refl)

-- A client whose oldest stream has sent no head, while no exchange is in flight.
pub record IsNext (c : Engine) (id : ℕ) (info : StreamInfo) : Type 0 where
  pub free : c.active_stream ≡ none
  pub usable : c.connection_done ≡ false
  pub order : List ℕ
  pub oldest : c.stream_order ≡ id ∷ order
  pub known : find id c.streams ≡ some info
  pub unfinished : info.finished ≡ false
  pub unsent : info.head_sent ≡ false
  pub nothing_staged : info.body_staged ≡ []

pub request_text-some :
    (method path : Bytes) (fields : Headers) → is_empty (request_text method path fields) ≡ false
request_text-some [] path fields = refl
request_text-some (c ∷ method) path fields = refl

module _ (c : Engine) (id : ℕ) (info : StreamInfo) (n : IsNext c id info)
    (method path authority : Bytes) (h : Headers) where
  abbrev staged : StreamInfo
  staged = stage_request info method path authority h true

  abbrev text : Bytes
  text = request_text method path (sent_fields authority h)

  serialized :
      serialize_request_head (record info { method = method }) method path authority h true
      ≡ (record info { method = method }, text)
  serialized = serialize_request_head-text (record info { method = method }) method path authority h

  staged-parts : (staged.head ≡ text) × (staged.body_staged ≡ []) × (staged.finished ≡ false)
  unfolding stage_request
  staged-parts = (
    ap (λ r. r.1) serialized,
    ap (λ r. r.0.body_staged) serialized ∙ n.nothing_staged,
    ap (λ r. r.0.finished) serialized ∙ n.unfinished,
  )

  flush_stream-parts :
      (e : Engine)
      → ((flush_stream e id staged).pending_out ≡ e.pending_out ++ text)
        × ((flush_stream e id staged).active_stream ≡ some id)
  unfolding flush_stream
  flush_stream-parts e =
      let (head, body, _) = staged-parts in
      let sends =
        if_false (is_empty staged.head) _ _
          (ap is_empty head ∙ request_text-some method path (sent_fields authority h)) in
      (
        ap (λ (e' : Engine). e'.pending_out) sends
            ∙ append_pending-out (append_pending e staged.head) staged.body_staged
            ∙ ap (λ b. (append_pending e staged.head).pending_out ++ b) body
            ∙ append-nil (append_pending e staged.head).pending_out
            ∙ append_pending-out e staged.head
            ∙ ap (λ b. e.pending_out ++ b) head,
        ap (λ (e' : Engine). e'.active_stream) sends,
      )

  send_request_headers-flush :
      send_request_headers c id method path authority h true
      ≡ flush_stream (update c id staged) id staged
  unfolding send_request_headers flush_pending flush_loop
  send_request_headers-flush =
      let e = update c id staged in
      elim_some (find id c.streams) _ _ n.known
      ∙ if_false info.head_sent _ _ n.unsent
      ∙ elim_none c.active_stream _ _ n.free
      ∙ if_false c.connection_done _ _ n.usable
      ∙ ap (flush_loop e) n.oldest
      ∙ elim_some (find id e.streams) _ _ (find-insert_self id staged c.streams)
      ∙ if_false staged.finished _ _ (staged-parts.2)

  -- The head goes out at once, and the exchange is in flight.
  pub send_request_headers-parts :
      let c' = send_request_headers c id method path authority h true in
      (c'.pending_out ≡ c.pending_out ++ request_text method path (sent_fields authority h))
      × (c'.active_stream ≡ some id)
  send_request_headers-parts =
      let (out, active) = flush_stream-parts (update c id staged) in
      (
        ap (λ (e' : Engine). e'.pending_out) send_request_headers-flush ∙ out,
        ap (λ (e' : Engine). e'.active_stream) send_request_headers-flush ∙ active,
      )
