-- ===== src/V2/Input/Settings.antt =====
-- source/v2/engine.cpp: a SETTINGS frame, as `encode_settings_frame` writes it, arrives.
use stunning_waddle.Base.{
  ℕ, ◌*◌, ◌^◌, ◌<◌, ◌≡◌, refl, sym, ap, ◌∙◌, true, false, List, [], ◌∷◌, ◌++◌, some, Bytes, length,
  arith, ltb, leb, pos, ◌+ℤ◌, ◌-ℤ◌, All,
}
use stunning_waddle.Frame.{
  FrameHeader, Setting, settings, make_header, write_frame_header, encode_settings_frame,
  settings_bytes, setting_bytes, frame_type_of, frame_type_byte, word_bytes,
}
use stunning_waddle.Frame.Layout.{IsWire, header_bytes, write_frame_header-eq}
use stunning_waddle.FrameParser.Defs.{call_header, call_payload}
use stunning_waddle.FrameParser.OneFrame.{frame_end}
use stunning_waddle.V2.State.{Engine, stream_send_window, maybe_invoke_output_ready}
use stunning_waddle.V2.Receive.{
  running, handle_frame_header, handle_payload_chunk, handle_settings_payload, when_whole, is_ack,
}
use stunning_waddle.V2.Input.{callbacks, header_callback, payload_callback, input_end}
use stunning_waddle.V2.Input.Session.{IsWaiting, parse-frame, input_end-parse}
use stunning_waddle.V2.Receive.Settings.{
  IsWireSetting, last_size, applied, applied-Shifted, handle_settings_payload-applied,
}

abbrev pub settings_header : ℕ → FrameHeader
settings_header size = record {
  length_ = size;
  type = settings;
  flags = 0;
  stream_id = 0;
  reserved = 0;
}

pub settings_header-IsWire : (size : ℕ) → size < 2 ^ 24 → IsWire (settings_header size)
unfolding frame_type_of frame_type_byte
settings_header-IsWire size h = record {
  length_fits = h;
  type_named = refl;
  stream_fits = omega arith;
  reserved_zero = refl;
}

length-settings_bytes :
    (entries : List Setting) → length (settings_bytes entries) ≡ length entries * 6
unfolding settings_bytes setting_bytes word_bytes
length-settings_bytes [] = refl
length-settings_bytes (s ∷ entries) = omega (arith, length-settings_bytes entries)

encode_settings_frame-eq :
    (entries : List Setting)
    → length entries * 6 < 2 ^ 24
    → encode_settings_frame [] entries false
      ≡ header_bytes (settings_header (length entries * 6)) ++ settings_bytes entries
unfolding encode_settings_frame
encode_settings_frame-eq entries h =
    ap (λ d. d ++ settings_bytes entries)
      (ap (λ x. write_frame_header [] x) same
        ∙ write_frame_header-eq [] (settings_header (length entries * 6)))
  where
    same : make_header (length entries * 6) settings 0x00 0 ≡ settings_header (length entries * 6)
    same = unfold make_header in ground arith

-- The engine behind the header of a SETTINGS frame.
abbrev pub settled : Engine → Engine
settled e =
    maybe_invoke_output_ready
      (record e { pending_out = encode_settings_frame e.pending_out [] true })

settled-kept :
    (e : Engine)
    → ((settled e).pending_out ≡ encode_settings_frame e.pending_out [] true)
      × ((settled e).peer_initial_window_size ≡ e.peer_initial_window_size)
      × ((settled e).connection_send_window ≡ e.connection_send_window)
      × ((settled e).stream_flow_states ≡ e.stream_flow_states)
      × ((settled e).state ≡ e.state)
unfolding maybe_invoke_output_ready
settled-kept e = ground arith

settled-windows : (e : Engine) (k : ℕ) → stream_send_window (settled e) k ≡ stream_send_window e k
unfolding maybe_invoke_output_ready stream_send_window
settled-windows e k = ground arith

settled-applied :
    (e : Engine) (entries : List Setting)
    → let e' = applied (settled e) entries in
      let size = last_size e.peer_initial_window_size entries in
      (e'.pending_out ≡ encode_settings_frame e.pending_out [] true)
      × (e'.peer_initial_window_size ≡ size)
      × ((k : ℕ)
          → stream_send_window e' k
            ≡ stream_send_window e k +ℤ (pos size -ℤ pos e.peer_initial_window_size))
      × (e'.connection_send_window ≡ e.connection_send_window)
      × (e'.state ≡ e.state)
settled-applied e entries =
    let (out, size, connection, _, state) = settled-kept e in
    let sh = applied-Shifted entries (settled e) in
    (
      sh.output ∙ out,
      sh.new_size ∙ ap (λ n. last_size n entries) size,
      λ k.
          sh.windows k
          ∙ ap
              (λ w.
                w
                +ℤ (pos (last_size (settled e).peer_initial_window_size entries)
                    -ℤ pos (settled e).peer_initial_window_size))
              (settled-windows e k)
          ∙ ap (λ n. stream_send_window e k +ℤ (pos (last_size n entries) -ℤ pos n)) size,
      sh.connection ∙ connection,
      sh.state ∙ state,
    )

pub settings_call :
    (e : Engine) (size : ℕ)
    → call_header callbacks (settings_header size) (running e) ≡ running (settled e)
unfolding call_header header_callback handle_frame_header is_ack
settings_call e size = refl

payload_call :
    (e : Engine) (payload : Bytes)
    → 0 < length payload
    → call_payload callbacks (settings_header (length payload)) payload (running e)
      ≡ (length payload, running (handle_settings_payload e payload))
unfolding call_payload payload_callback handle_payload_chunk when_whole
payload_call e payload positive = rw (some_byte, call_payload) (rw whole refl)
  where
    some_byte : ltb 0 (length payload) ≡ true
    some_byte = ground arith

    whole : leb (length payload) (length payload) ≡ true
    whole = ground arith

-- The peer changes its settings. A SETTINGS frame that `encode_settings_frame` wrote, of one setting at
-- least and without the ACK flag, given whole to an engine that waits for a frame, is answered with
-- an ACK frame behind the output. The last initial window size among the settings, if there is
-- one, is that of the peer from then on, and the send window of every stream has moved by the
-- difference to the old size; the connection's send window stays. Nothing is left over, and the
-- engine waits for the next frame.
pub input_end-encode_settings_frame :
    (s : Engine) (entries : List Setting)
    → IsWaiting s
    → 0 < length entries
    → length entries * 6 < 2 ^ 24
    → All IsWireSetting entries
    → let size = last_size s.peer_initial_window_size entries in
      (s' : Engine) × (input_end s (encode_settings_frame [] entries false) ≡ some (running s'))
      × (s'.pending_out ≡ encode_settings_frame s.pending_out [] true)
      × (s'.peer_initial_window_size ≡ size)
      × ((k : ℕ)
          → stream_send_window s' k
            ≡ stream_send_window s k +ℤ (pos size -ℤ pos s.peer_initial_window_size))
      × (s'.connection_send_window ≡ s.connection_send_window)
      × IsWaiting s'
unfolding stream_send_window
input_end-encode_settings_frame s entries w positive small wire =
    let payload = settings_bytes entries in
    let size : length entries * 6 ≡ length payload = sym (length-settings_bytes entries) in
    let h = settings_header (length payload) in
    let s1 : Engine = record s { input_buffer = header_bytes h ++ payload } in
    let some_byte : 0 < length payload = omega arith in
    let (output, new_size, windows, connection, state) = settled-applied s1 entries in
    (
      record (applied (settled s1) entries) { parser = frame_end s.parser h; input_buffer = [] },
      ap (λ b. input_end s b)
            (encode_settings_frame-eq entries small
              ∙ ap (λ n. header_bytes (settings_header n) ++ payload) size)
          ∙ input_end-parse s _ _ w.open_ w.drained
          ∙ parse-frame s1 (applied (settled s1) entries) h payload w.idle
              (settings_header-IsWire (length payload) (omega arith)) refl some_byte
              (ap (λ r. call_payload callbacks h payload r) (settings_call s1 (length payload))
                ∙ payload_call (settled s1) payload some_byte
                ∙ ap (λ e. (length payload, running e))
                    (handle_settings_payload-applied entries (settled s1) wire)),
      output,
      new_size,
      windows,
      connection,
      record {
        open_ = state ∙ w.open_;
        idle = record { awaits = refl; fresh = refl };
        drained = refl;
      },
    )
