-- ===== src/V2/Input/Goaway.antt =====
-- source/v2/engine.cpp: a GOAWAY frame, as `encode_goaway_frame` writes it, arrives.
use stunning_waddle.Base.{
  ℕ, ◌+◌, ◌%◌, ◌^◌, ◌<◌, ◌≡◌, refl, sym, ap, ◌∙◌, true, [], ◌∷◌, ◌++◌, some, Bytes, length, arith,
  ltb, leb,
}
use stunning_waddle.Event.{goaway_of}
use stunning_waddle.Frame.{
  FrameHeader, goaway, make_header, write_frame_header, encode_goaway_frame, frame_type_of,
  frame_type_byte, word_bytes,
}
use stunning_waddle.Frame.Layout.{IsWire, header_bytes, write_frame_header-eq, word_of-word_bytes}
use stunning_waddle.FrameParser.Defs.{call_header, call_payload}
use stunning_waddle.FrameParser.OneFrame.{frame_end}
use stunning_waddle.V2.State.{Engine, queue_event}
use stunning_waddle.V2.Receive.{
  running, handle_frame_header, handle_payload_chunk, handle_goaway_payload, when_whole,
}
use stunning_waddle.V2.Input.{callbacks, header_callback, payload_callback, input_end}
use stunning_waddle.V2.Input.Session.{IsWaiting, parse-frame, input_end-parse}

abbrev goaway_header : ℕ → FrameHeader
goaway_header size = record {
  length_ = size;
  type = goaway;
  flags = 0;
  stream_id = 0;
  reserved = 0;
}

goaway-IsWire : (size : ℕ) → size < 2 ^ 24 → IsWire (goaway_header size)
unfolding frame_type_of frame_type_byte
goaway-IsWire size h = record {
  length_fits = h;
  type_named = refl;
  stream_fits = omega arith;
  reserved_zero = refl;
}

goaway_call :
    (e : Engine) (payload : Bytes)
    → 0 < length payload
    → let h = goaway_header (length payload) in
      call_payload callbacks h payload (call_header callbacks h (running e))
      ≡ (length payload, running (handle_goaway_payload e payload (length payload)))
unfolding call_header header_callback handle_frame_header call_payload payload_callback
    handle_payload_chunk when_whole
goaway_call e payload positive = rw (some_byte, call_payload) (rw whole refl)
  where
    some_byte : ltb 0 (length payload) ≡ true
    some_byte = ground arith

    whole : leb (length payload) (length payload) ≡ true
    whole = ground arith

abbrev goaway_payload : ℕ → ℕ → Bytes → Bytes
goaway_payload last code debug = word_bytes last ++ (word_bytes code ++ debug)

length-goaway_payload :
    (last code : ℕ) (debug : Bytes) → length (goaway_payload last code debug) ≡ 8 + length debug
unfolding word_bytes
length-goaway_payload last code debug = omega arith

abbrev told : Engine → ℕ → ℕ → Engine
told e last code = record e {
  goaway_received = true;
  last_goaway_stream_id = last;
  last_goaway_error_code = code;
  event_queue = e.event_queue ++ (goaway_of 0 (record { last_stream_id = last; ec = code }) ∷ []);
}

handle_goaway_payload-told :
    (e : Engine) (last code : ℕ) (debug : Bytes)
    → last < 2 ^ 31
    → code < 2 ^ 32
    → handle_goaway_payload e
        (goaway_payload last code debug)
        (length (goaway_payload last code debug))
      ≡ told e last code
unfolding handle_goaway_payload word_bytes queue_event
handle_goaway_payload-told e last code debug h k =
    ground (arith, word_of-word_bytes last (omega arith), word_of-word_bytes code k)

encode_goaway_frame-eq :
    (last code : ℕ) (debug : Bytes)
    → last < 2 ^ 31
    → 8 + length debug < 2 ^ 24
    → let payload = goaway_payload last code debug in
      encode_goaway_frame [] last code debug
      ≡ header_bytes (goaway_header (length payload)) ++ payload
unfolding encode_goaway_frame
encode_goaway_frame-eq last code debug h k =
    ap
      (λ n.
        write_frame_header [] (make_header (8 + length debug) goaway 0x00 0)
        ++ (word_bytes n ++ (word_bytes code ++ debug)))
      small
    ∙ ap (λ x. write_frame_header [] x ++ goaway_payload last code debug) same
    ∙ ap (λ d. d ++ goaway_payload last code debug)
        (write_frame_header-eq [] (goaway_header (length (goaway_payload last code debug))))
  where
    small : last % 2 ^ 31 ≡ last
    small = omega arith

    same :
        make_header (8 + length debug) goaway 0x00 0
        ≡ goaway_header (length (goaway_payload last code debug))
    same = unfold make_header in ground (arith, length-goaway_payload last code debug)

-- The peer goes away. A GOAWAY frame that `encode_goaway_frame` wrote, given whole to an engine that
-- waits for a frame, brings one `goaway` event with the last stream and the error code that were
-- written, which the engine keeps; the debug data is dropped, and nothing else changes.
pub input_end-encode_goaway_frame :
    (s : Engine) (last code : ℕ) (debug : Bytes)
    → IsWaiting s
    → last < 2 ^ 31
    → code < 2 ^ 32
    → 8 + length debug < 2 ^ 24
    → (s' : Engine) × (input_end s (encode_goaway_frame [] last code debug) ≡ some (running s'))
      × (s' ≡ record s {
        goaway_received = true;
        last_goaway_stream_id = last;
        last_goaway_error_code = code;
        event_queue =
            s.event_queue ++ (goaway_of 0 (record { last_stream_id = last; ec = code }) ∷ []);
        parser = s'.parser;
      })
      × IsWaiting s'
input_end-encode_goaway_frame s last code debug w h k size =
    let payload = goaway_payload last code debug in
    let header = goaway_header (length payload) in
    let s1 : Engine = record s { input_buffer = header_bytes header ++ payload } in
    let long = length-goaway_payload last code debug in
    (
      record (told s1 last code) { parser = frame_end s.parser header; input_buffer = [] },
      ap (λ b. input_end s b) (encode_goaway_frame-eq last code debug h size)
          ∙ input_end-parse s _ _ w.open_ w.drained
          ∙ parse-frame s1 (told s1 last code) header payload w.idle
              (goaway-IsWire (length payload) (omega arith)) refl (omega arith)
              (goaway_call s1 payload (omega arith)
                ∙ ap (λ e. (length payload, running e))
                    (handle_goaway_payload-told s1 last code debug h k)),
      ap (λ b. record (told s last code) { parser = frame_end s.parser header; input_buffer = b })
          (sym w.drained),
      record { open_ = w.open_; idle = record { awaits = refl; fresh = refl }; drained = refl },
    )
