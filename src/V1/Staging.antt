-- ===== src/V1/Staging.antt =====
-- source/v1/engine.cpp: what does not go as announced: body bytes for a staged request, and the
-- output callback when nothing is written.
use stunning_waddle.Base.{
  ==_iff, ℕ, ◌+◌, Bool, true, false, not, ◌||◌, ◌≡◌, ◌∙◌, sym, List, [], ◌∷◌, some, Bytes, arith,
  refl, ap, if_true, elim_some, if_false, find, append-nil,
}
use stunning_waddle.Headers.{Headers}
use stunning_waddle.V1.State.{
  Engine, StreamInfo, update, append_pending, maybe_invoke_output_ready, is_active,
}
use stunning_waddle.V1.Send.{
  send_request_headers, stage_request, serialize_request_head, flush_pending,
}
use stunning_waddle.V1.Input.{send_data, put_body, frame_body}
use stunning_waddle.V1.Flush.{find-insert_self, append_pending-out}

stage_request-unsent :
    (info : StreamInfo) (method path authority : Bytes) (h : Headers) (fin : Bool)
    → (stage_request info method path authority h fin).head_sent ≡ info.head_sent
unfolding stage_request serialize_request_head
stage_request-unsent info method path authority h fin = ground arith

refuses : (a b c : Bool) → c ≡ false → a || b || not c ≡ true
refuses true b c h = refl
refuses false true c h = refl
refuses false false c h = ap not h

send_request_headers-staged :
    (c : Engine) (a id : ℕ) (info : StreamInfo) (method path authority : Bytes) (h : Headers)
    → c.active_stream ≡ some a
    → find id c.streams ≡ some info
    → info.head_sent ≡ false
    → send_request_headers c id method path authority h false
      ≡ update c id (stage_request info method path authority h false)
unfolding send_request_headers flush_pending
send_request_headers-staged c a id info method path authority h busy known unsent =
    elim_some (find id c.streams) _ _ known
    ∙ if_false info.head_sent _ _ unsent
    ∙ elim_some c.active_stream _ _ busy

-- A request behind another takes no body. While an exchange is in flight, `send_request_headers` on a
-- stream without a head stages the head; `send_data` on that stream then accepts no byte and
-- changes nothing, whatever the bytes are and also when they end the stream, so that nothing is
-- ever staged behind the head.
pub send_data-staged :
    (c : Engine) (a id : ℕ) (info : StreamInfo) (method path authority : Bytes) (h : Headers)
    (body : Bytes) (fin : Bool)
    → c.active_stream ≡ some a
    → find id c.streams ≡ some info
    → info.head_sent ≡ false
    → let c' = send_request_headers c id method path authority h false in
      send_data c' id body fin ≡ (0, some c')
unfolding send_data
send_data-staged c a id info method path authority h body fin busy known unsent =
    let staged = stage_request info method path authority h false in
    let staging =
      send_request_headers-staged c a id info method path authority h busy known unsent in
    ap (λ e. send_data e id body fin) staging
    ∙ elim_some (find id (update c id staged).streams) _ _ (find-insert_self id staged c.streams)
    ∙ if_true (staged.finished || staged.request_complete || not staged.head_sent) _ _ (
        refuses staged.finished staged.request_complete staged.head_sent
          (stage_request-unsent info method path authority h false ∙ unsent))
    ∙ ap (λ (e : Engine). (0, some e)) (sym staging)

no_bytes : (chunked : Bool) → frame_body chunked [] false ≡ []
unfolding frame_body
no_bytes true = refl
no_bytes false = refl

append_pending-wakes :
    (c : Engine)
    → c.output_ready_cb ≡ true
    → c.had_output ≡ false
    → ((append_pending c []).ready_calls ≡ c.ready_calls + 1)
      × ((append_pending c []).had_output ≡ true)
unfolding append_pending maybe_invoke_output_ready
append_pending-wakes c cb due = (ground arith, ground arith)

append_pending-marked :
    (c : Engine) (bytes : Bytes) → c.had_output ≡ true → (append_pending c bytes).had_output ≡ true
unfolding append_pending maybe_invoke_output_ready
append_pending-marked c bytes due = ground arith

append_pending-silent :
    (c : Engine) (bytes : Bytes)
    → c.had_output ≡ true
    → (append_pending c bytes).ready_calls ≡ c.ready_calls
unfolding append_pending maybe_invoke_output_ready
append_pending-silent c bytes due = ground arith

-- Calls of `append_pending`, one after the other.
abbrev pub append_all : Engine → List Bytes → Engine
append_all c [] = c
append_all c (bytes ∷ pieces) = append_all (append_pending c bytes) pieces

append_all-silent :
    (pieces : List Bytes) (c : Engine)
    → c.had_output ≡ true
    → (append_all c pieces).ready_calls ≡ c.ready_calls
append_all-silent [] c due = refl
append_all-silent (bytes ∷ pieces) c due =
    append_all-silent pieces (append_pending c bytes) (append_pending-marked c bytes due)
    ∙ append_pending-silent c bytes due

-- A wake-up without output, and the next one lost. Let a stream's exchange be in flight, its head
-- sent and its body not ended, with or without chunked coding; let the output be empty and the
-- callback registered and due. Then `send_data` of no bytes, without ending the stream, calls the
-- callback though no output is there. After it, however many pieces are appended to the output with
-- no other call of the engine in between, `output_end` in particular, the callback is not called.
pub send_data-wakes :
    (c : Engine) (id : ℕ) (info : StreamInfo)
    → c.active_stream ≡ some id
    → find id c.streams ≡ some info
    → info.finished || info.request_complete || not info.head_sent ≡ false
    → info.no_body ≡ false
    → c.pending_out ≡ []
    → c.output_ready_cb ≡ true
    → c.had_output ≡ false
    → (c' : Engine) × (send_data c id [] false ≡ (0, some c'))
      × (c'.pending_out ≡ [])
      × (c'.ready_calls ≡ c.ready_calls + 1)
      × ((pieces : List Bytes) → (append_all c' pieces).ready_calls ≡ c'.ready_calls)
unfolding send_data put_body is_active
send_data-wakes c id info active known may has empty cb due =
    let framed = frame_body info.chunked [] false in
    let (called, marked) = append_pending-wakes c cb due in
    (
      append_pending c [],
      elim_some (find id c.streams) _ _ known
          ∙ if_false (info.finished || info.request_complete || not info.head_sent) _ _ may
          ∙ if_false info.no_body _ _ has
          ∙ ap (λ (e : Engine). (0, some e))
              (if_true (is_active c id) _ _
                  (elim_some c.active_stream _ _ active ∙ (==_iff id id).1 refl)
                ∙ ap (append_pending c) (no_bytes info.chunked)),
      append_pending-out c [] ∙ append-nil c.pending_out ∙ empty,
      called,
      λ pieces. append_all-silent pieces (append_pending c []) marked,
    )
