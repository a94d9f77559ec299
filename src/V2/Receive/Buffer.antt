-- ===== src/V2/Receive/Buffer.antt =====
-- source/v2/engine.cpp: the handlers of frames leave the input buffer alone.
use stunning_waddle.Base.{
  ℕ, ◌+◌, ◌*◌, ◌^◌, ◌≡◌, refl, ◌∙◌, [], ◌∷◌, Bytes, Map, ℤ, pos, ◌+ℤ◌, ◌-ℤ◌, arith, if_intro,
  if◌then◌else◌,
}
use stunning_waddle.Frame.{FrameHeader, word_of}
use stunning_waddle.V2.State.{
  Engine, StreamFlowState, queue_event, maybe_invoke_output_ready, set_flow_state,
  notify_open_streams, notify_stream_window_available, notify_connection_window_available,
}
use stunning_waddle.V2.Receive.{
  Run, running, thrown, handle_frame_header, handle_payload_chunk, handle_headers_chunk,
  handle_data_chunk, handle_settings_payload, handle_setting, handle_goaway_payload,
  handle_window_update, when_whole, close_empty, close_headers, note_stream, update_flow_control,
  credit_connection, credit_stream, shift_windows, opens, window_increment,
  apply_peer_initial_window_size, update_connection_window, update_stream_window,
}

abbrev pub run_engine : Run → Engine
run_engine (running e) = e
run_engine (thrown error e) = e

-- The buffer is that of an engine before.
abbrev pub Kept : Engine → Engine → Type 0
Kept e e' = e'.input_buffer ≡ e.input_buffer

pub handle_frame_header-buffer : (h : FrameHeader) (e : Engine) → Kept e (handle_frame_header h e)
unfolding handle_frame_header maybe_invoke_output_ready close_empty queue_event
handle_frame_header-buffer h e = ground arith

handle_data_chunk-buffer :
    (h : FrameHeader) (chunk : Bytes) (e : Engine) → Kept e (handle_data_chunk h chunk e)
unfolding handle_data_chunk update_flow_control credit_connection credit_stream
    maybe_invoke_output_ready set_flow_state queue_event
handle_data_chunk-buffer h chunk e = ground arith

handle_headers_chunk-buffer :
    (h : FrameHeader) (chunk : Bytes) (e : Engine)
    → Kept e (run_engine (handle_headers_chunk h chunk e).1)
unfolding handle_headers_chunk note_stream set_flow_state queue_event close_headers
handle_headers_chunk-buffer h chunk e = ground arith

shift_windows-buffer :
    (delta : ℤ) (e : Engine) (m : Map StreamFlowState) → Kept e (shift_windows delta e m).1
unfolding shift_windows notify_stream_window_available queue_event
shift_windows-buffer delta e [] = refl
shift_windows-buffer delta e ((j, s) ∷ m) = ground (
  arith,
  shift_windows-buffer delta
      (if opens s.send_window (s.send_window +ℤ delta)
        then notify_stream_window_available e j
        else e)
      m,
)

handle_setting-buffer : (e : Engine) (id value : ℕ) → Kept e (handle_setting e id value)
unfolding handle_setting apply_peer_initial_window_size
handle_setting-buffer e id value = ground (
  arith,
  shift_windows-buffer (pos value -ℤ pos e.peer_initial_window_size) e e.stream_flow_states,
)

handle_settings_payload-buffer :
    (payload : Bytes) (e : Engine) → Kept e (handle_settings_payload e payload)
unfolding handle_settings_payload
handle_settings_payload-buffer (a ∷ b ∷ c ∷ d ∷ f ∷ g ∷ payload) e =
    handle_settings_payload-buffer payload (handle_setting e (a * 2 ^ 8 + b) (word_of c d f g))
    ∙ handle_setting-buffer e (a * 2 ^ 8 + b) (word_of c d f g)
handle_settings_payload-buffer _ e = refl

handle_goaway_payload-buffer :
    (e : Engine) (payload : Bytes) (size : ℕ) → Kept e (handle_goaway_payload e payload size)
unfolding handle_goaway_payload queue_event
handle_goaway_payload-buffer e payload size = ground arith

notify_open_streams-buffer :
    (m : Map StreamFlowState) (e : Engine) → Kept e (notify_open_streams e m)
unfolding notify_open_streams queue_event
notify_open_streams-buffer [] e = refl
notify_open_streams-buffer ((j, s) ∷ m) e = notify_open_streams-buffer m _ ∙ ground arith

notify_connection-buffer : (e : Engine) → Kept e (notify_connection_window_available e)
unfolding notify_connection_window_available queue_event
notify_connection-buffer e = notify_open_streams-buffer e.stream_flow_states _

update_connection_window-buffer : (e : Engine) (n : ℕ) → Kept e (update_connection_window e n)
unfolding update_connection_window
update_connection_window-buffer e n =
    let e' : Engine = record e { connection_send_window = e.connection_send_window +ℤ pos n } in
    if_intro (Kept e) (opens e.connection_send_window e'.connection_send_window) _ _
      (λ _. notify_connection-buffer e') (λ _. refl)

update_stream_window-buffer : (e : Engine) (id n : ℕ) → Kept e (update_stream_window e id n)
unfolding update_stream_window notify_stream_window_available queue_event set_flow_state
update_stream_window-buffer e id n = ground arith

handle_window_update-buffer :
    (e : Engine) (id : ℕ) (payload : Bytes) → Kept e (handle_window_update e id payload)
unfolding handle_window_update queue_event
handle_window_update-buffer e id payload = ground (
  arith,
  update_connection_window-buffer e (window_increment payload),
  update_stream_window-buffer e id (window_increment payload),
)

pub handle_payload_chunk-buffer :
    (h : FrameHeader) (chunk : Bytes) (e : Engine)
    → Kept e (run_engine (handle_payload_chunk h chunk e).1)
unfolding handle_payload_chunk when_whole queue_event
handle_payload_chunk-buffer h chunk e = ground (
  arith,
  handle_data_chunk-buffer h chunk e,
  handle_headers_chunk-buffer h chunk e,
  handle_settings_payload-buffer chunk e,
  handle_goaway_payload-buffer e chunk h.length_,
  handle_window_update-buffer e h.stream_id chunk,
)
