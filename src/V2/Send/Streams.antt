-- ===== src/V2/Send/Streams.antt =====
-- source/v2/engine.cpp: the numbers of the streams that `open_stream` opens, and the connection preface.
use stunning_waddle.Base.{
  ℕ, ◌+◌, ◌^◌, ◌<◌, ◌≡◌, refl, ap, ◌∙◌, ◌-◌, ◌++◌, Bytes, ltb, true, false, ◌&&◌, not, some, arith,
  if◌then◌else◌, ◌==◌, pos, find, find-insert,
}
use stunning_waddle.Frame.{encode_settings_frame, encode_window_update_frame}
use stunning_waddle.V2.State.{
  Engine, is_server, is_idle, stream_send_window, get_or_init_stream_flow_state, set_flow_state,
  maybe_invoke_output_ready, default_initial_window_size,
}
use stunning_waddle.V2.Send.{open_stream, preface, start_client, write_preface, write_settings}

start_client-kept :
    (e : Engine)
    → let e' = start_client e in
      (e'.next_stream_id ≡ e.next_stream_id)
      × (e'.stream_flow_states ≡ e.stream_flow_states)
      × (e'.peer_initial_window_size ≡ e.peer_initial_window_size)
      × ((not (is_server e'.role) && is_idle e'.state) ≡ false)
unfolding start_client write_preface write_settings maybe_invoke_output_ready
start_client-kept e = ground arith

-- What a client that was not started writes: the preface, its settings, and the credit by which its
-- connection window is larger than the default.
abbrev pub greeting : Engine → Bytes
greeting e =
    let out = encode_settings_frame (e.pending_out ++ preface) e.local_settings false in
    if ltb default_initial_window_size e.initial_window_size
    then encode_window_update_frame out 0 (e.initial_window_size - default_initial_window_size)
    else out

start_client-greeting :
    (e : Engine)
    → (start_client e).pending_out
      ≡ (if not (is_server e.role) && is_idle e.state then greeting e else e.pending_out)
unfolding start_client write_preface write_settings maybe_invoke_output_ready
start_client-greeting e = ground arith

start_client-once :
    (e : Engine) → (not (is_server e.role) && is_idle e.state) ≡ false → start_client e ≡ e
unfolding start_client
start_client-once e h = rw (h, start_client) refl

open_stream-states :
    (e : Engine) (k : ℕ)
    → let id = (open_stream e).0 in
      let e' = (open_stream e).1 in
      (stream_send_window e' id ≡ pos e.peer_initial_window_size)
      × ((get_or_init_stream_flow_state e' id).known ≡ true)
      × (find k e'.stream_flow_states ≡ (
          if id == k
          then some (get_or_init_stream_flow_state e' id)
          else find k e.stream_flow_states))
unfolding open_stream set_flow_state stream_send_window get_or_init_stream_flow_state
open_stream-states e k =
    let (n, m, p, started) = start_client-kept e in
    (grind (arith, find-insert, p), grind (arith, find-insert), grind (arith, find-insert, m))

-- Two streams opened one after the other. The numbers are the next one and the one two further, so
-- that they keep the parity of the role. Both calls together write the connection preface, the
-- SETTINGS and the credit for a larger window once, behind the output, if the engine is a client's
-- that was not started, and else nothing; the second call writes nothing at all. The first stream is
-- known, with the peer's initial window, and no other stream is touched by opening it.
pub open_stream-twice :
    (e : Engine) (k : ℕ)
    → e.next_stream_id + 2 < 2 ^ 32
    → let id = (open_stream e).0 in
      let e' = (open_stream e).1 in
      let e'' = (open_stream e').1 in
      (id ≡ e.next_stream_id)
      × ((open_stream e').0 ≡ id + 2)
      × (e''.pending_out
          ≡ (if not (is_server e.role) && is_idle e.state then greeting e else e.pending_out))
      × (e''.pending_out ≡ e'.pending_out)
      × (stream_send_window e' id ≡ pos e.peer_initial_window_size)
      × ((get_or_init_stream_flow_state e' id).known ≡ true)
      × (find k e'.stream_flow_states ≡ (
          if id == k
          then some (get_or_init_stream_flow_state e' id)
          else find k e.stream_flow_states))
unfolding open_stream set_flow_state
open_stream-twice e k h =
    let (n, m, p, started) = start_client-kept e in
    let e1 : Engine = (open_stream e).1 in
    let (w, known, others) = open_stream-states e k in
    let second = ap (λ x. x.pending_out) (start_client-once e1 started) in
    (refl, omega arith, second ∙ start_client-greeting e, second, w, known, others)
