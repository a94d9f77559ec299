-- ===== src/V2/Input/WindowUpdate.antt =====
-- source/v2/engine.cpp: a WINDOW_UPDATE frame for a stream, as `encode_window_update_frame` writes it,
-- arrives.
use stunning_waddle.Base.{
  ℕ, ◌%◌, ◌^◌, ◌<◌, ◌≡◌, refl, ap, ◌∙◌, ◌&&◌, [], ◌∷◌, ◌++◌, some, arith, if◌then◌else◌, pos, ◌+ℤ◌,
  ◌==◌, ltb_ℤ,
}
use stunning_waddle.Event.{plain_event, stream_window_available}
use stunning_waddle.Frame.{
  FrameHeader, window_update, make_header, write_frame_header, encode_window_update_frame,
  frame_type_of, frame_type_byte, word_bytes,
}
use stunning_waddle.Frame.Layout.{IsWire, header_bytes, write_frame_header-eq}
use stunning_waddle.FrameParser.Defs.{call_header, call_payload}
use stunning_waddle.FrameParser.OneFrame.{frame_end}
use stunning_waddle.V2.State.{
  Engine, stream_send_window, queue_event, set_flow_state, notify_stream_window_available,
}
use stunning_waddle.V2.Receive.{
  running, handle_frame_header, handle_payload_chunk, handle_window_update, when_whole, opens,
  update_stream_window,
}
use stunning_waddle.V2.Receive.Windows.{handle_window_update-stream, handle_window_update-word}
use stunning_waddle.V2.Input.{callbacks, header_callback, payload_callback, input_end}
use stunning_waddle.V2.Input.Session.{IsWaiting, parse-frame, input_end-parse}

abbrev window_update_header : ℕ → FrameHeader
window_update_header id = record {
  length_ = 4;
  type = window_update;
  flags = 0;
  stream_id = id;
  reserved = 0;
}

window_update-IsWire : (id : ℕ) → id < 2 ^ 31 → IsWire (window_update_header id)
unfolding frame_type_of frame_type_byte
window_update-IsWire id h = record {
  length_fits = omega arith;
  type_named = refl;
  stream_fits = h;
  reserved_zero = refl;
}

window_update_call :
    (e : Engine) (id n : ℕ)
    → let h = window_update_header id in
      call_payload callbacks h (word_bytes n) (call_header callbacks h (running e))
      ≡ (4, running (handle_window_update e id (word_bytes n)))
unfolding call_header header_callback handle_frame_header call_payload payload_callback
    handle_payload_chunk when_whole word_bytes
window_update_call e id n = refl

encode_window_update_frame-eq :
    (id n : ℕ)
    → id < 2 ^ 31
    → n < 2 ^ 31
    → encode_window_update_frame [] id n ≡ header_bytes (window_update_header id) ++ word_bytes n
unfolding encode_window_update_frame
encode_window_update_frame-eq id n h k =
    ap (λ m. write_frame_header [] (make_header 4 window_update 0x00 id) ++ word_bytes m) small
    ∙ ap (λ x. write_frame_header [] x ++ word_bytes n) same
    ∙ ap (λ d. d ++ word_bytes n) (write_frame_header-eq [] (window_update_header id))
  where
    small : n % 2 ^ 31 ≡ n
    small = omega arith

    same : make_header 4 window_update 0x00 id ≡ window_update_header id
    same = unfold make_header in ground arith

handle_window_update-state :
    (e : Engine) (id n : ℕ)
    → 0 < id
    → 0 < n
    → n < 2 ^ 31
    → (handle_window_update e id (word_bytes n)).state ≡ e.state
unfolding update_stream_window notify_stream_window_available queue_event set_flow_state
handle_window_update-state e id n h k l = rw (handle_window_update-word e id n k l) (ground arith)

-- The peer gives credit to a stream. A WINDOW_UPDATE frame that `encode_window_update_frame` wrote for
-- a stream and a positive increment, given whole to an engine that waits for a frame, raises the
-- send window of that stream by the increment, and no other window; `stream_window_available` is
-- queued exactly if that opens the window while the connection's is open.
pub input_end-encode_window_update_frame :
    (s : Engine) (id n : ℕ)
    → IsWaiting s
    → 0 < id
    → id < 2 ^ 31
    → 0 < n
    → n < 2 ^ 31
    → let old = stream_send_window s id in
      (s' : Engine) × (input_end s (encode_window_update_frame [] id n) ≡ some (running s'))
      × ((k : ℕ)
          → stream_send_window s' k ≡ (if id == k then old +ℤ pos n else stream_send_window s k))
      × (s'.event_queue ≡ (
          if opens old (old +ℤ pos n) && ltb_ℤ (pos 0) s.connection_send_window
          then s.event_queue ++ (plain_event id stream_window_available ∷ [])
          else s.event_queue))
      × (s'.connection_send_window ≡ s.connection_send_window)
      × IsWaiting s'
unfolding stream_send_window
input_end-encode_window_update_frame s id n w h k l o =
    let header = window_update_header id in
    let s1 : Engine = record s { input_buffer = header_bytes header ++ word_bytes n } in
    let e : Engine = handle_window_update s1 id (word_bytes n) in
    (
      record e { parser = frame_end s.parser header; input_buffer = [] },
      ap (λ b. input_end s b) (encode_window_update_frame-eq id n k o)
          ∙ input_end-parse s _ _ w.open_ w.drained
          ∙ parse-frame s1 e header (word_bytes n) w.idle (window_update-IsWire id k)
              (unfold word_bytes in refl) (unfold word_bytes in omega arith)
              (window_update_call s1 id n ∙ unfold word_bytes in refl),
      λ i. (handle_window_update-stream s1 id n i h l o).0,
      (handle_window_update-stream s1 id n 0 h l o).1,
      (handle_window_update-stream s1 id n 0 h l o).2,
      record {
        open_ = handle_window_update-state s1 id n h l o ∙ w.open_;
        idle = record { awaits = refl; fresh = refl };
        drained = refl;
      },
    )
