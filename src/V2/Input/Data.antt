-- ===== src/V2/Input/Data.antt =====
-- source/v2/engine.cpp: a DATA frame, as `encode_data_frame` writes it, arrives.
use stunning_waddle.Base.{
  ℕ, ◌%◌, ◌^◌, ◌<◌, ◌≡◌, refl, ap, ◌∙◌, Bool, true, false, List, [], ◌∷◌, ◌++◌, append_assoc, some,
  Bytes, length, arith, if◌then◌else◌, ltb, pos, ◌≤ℤ◌,
}
use stunning_waddle.Event.{Event, plain_event, data_of, stream_closed}
use stunning_waddle.Frame.{
  FrameHeader, data_frame, make_header, write_frame_header, encode_data_frame, frame_type_of,
  frame_type_byte,
}
use stunning_waddle.Frame.Layout.{IsWire, header_bytes, write_frame_header-eq}
use stunning_waddle.FrameParser.Defs.{call_header, call_payload}
use stunning_waddle.FrameParser.OneFrame.{frame_end}
use stunning_waddle.V2.State.{
  Engine, queue_event, get_or_init_stream_flow_state, new_flow_state, set_flow_state,
  maybe_invoke_output_ready,
}
use stunning_waddle.V2.Receive.{
  running, handle_frame_header, handle_payload_chunk, handle_data_chunk, close_empty, ends_stream,
  update_flow_control, credit_connection, credit_stream,
}
use stunning_waddle.V2.Receive.Credit.{within_connection}
use stunning_waddle.V2.Input.{callbacks, header_callback, payload_callback, input_end}
use stunning_waddle.V2.Input.Session.{IsWaiting, parse-frame, input_end-parse}

abbrev pub data_header : ℕ → Bool → ℕ → FrameHeader
data_header size fin stream_id = record {
  length_ = size;
  type = data_frame;
  flags = if fin then 1 else 0;
  stream_id = stream_id;
  reserved = 0;
}

pub data_header-IsWire :
    (size stream_id : ℕ) (fin : Bool)
    → size < 2 ^ 24
    → stream_id < 2 ^ 31
    → IsWire (data_header size fin stream_id)
unfolding frame_type_of frame_type_byte
data_header-IsWire size stream_id fin h k = record {
  length_fits = h;
  type_named = refl;
  stream_fits = k;
  reserved_zero = refl;
}

pub encode_data_frame-eq :
    (payload : Bytes) (stream_id : ℕ) (fin : Bool)
    → length payload < 2 ^ 24
    → stream_id < 2 ^ 31
    → encode_data_frame [] stream_id payload fin
      ≡ header_bytes (data_header (length payload) fin stream_id) ++ payload
unfolding encode_data_frame
encode_data_frame-eq payload stream_id fin h k =
    ap (λ d. d ++ payload)
      (ap (λ x. write_frame_header [] x) same
        ∙ write_frame_header-eq [] (data_header (length payload) fin stream_id))
  where
    same :
        make_header (length payload) data_frame (if fin then 0x01 else 0x00) stream_id
        ≡ data_header (length payload) fin stream_id
    same = unfold make_header in ground arith

pub quiet_header :
    (s : Engine) (size stream_id : ℕ) (fin : Bool)
    → 0 < size
    → call_header callbacks (data_header size fin stream_id) (running s) ≡ running s
unfolding call_header header_callback handle_frame_header close_empty ends_stream
quiet_header s size stream_id fin positive = ap running (ground arith)

pub data_call :
    (s : Engine) (stream_id : ℕ) (fin : Bool) (payload : Bytes)
    → 0 < length payload
    → let h = data_header (length payload) fin stream_id in
      call_payload callbacks h payload (running s)
      ≡ (length payload, running (handle_data_chunk h payload s))
unfolding call_payload payload_callback handle_payload_chunk
data_call s stream_id fin payload positive = rw (some_byte, call_payload) refl
  where
    some_byte : ltb 0 (length payload) ≡ true
    some_byte = ground arith

update_flow_control-state :
    (e : Engine) (stream_id n : ℕ) → (update_flow_control e stream_id n).state ≡ e.state
unfolding update_flow_control credit_connection credit_stream maybe_invoke_output_ready
    set_flow_state queue_event
update_flow_control-state e stream_id n = ground arith

pub handle_data_chunk-state :
    (h : FrameHeader) (chunk : Bytes) (e : Engine) → (handle_data_chunk h chunk e).state ≡ e.state
unfolding handle_data_chunk queue_event
handle_data_chunk-state h chunk e =
    let same =
      update_flow_control-state (queue_event e (data_of h.stream_id chunk)) h.stream_id
        (length chunk % 2 ^ 32) in
    ground (arith, same)

abbrev pub data_events : ℕ → Bytes → Bool → List Event
data_events stream_id payload fin =
    data_of stream_id payload ∷ (if fin then plain_event stream_id stream_closed ∷ [] else [])

handle_data_chunk-queue :
    (s : Engine) (stream_id : ℕ) (fin : Bool) (payload : Bytes)
    → length payload < 2 ^ 24
    → pos (length payload) ≤ℤ s.connection_recv_window
    → pos (length payload) ≤ℤ (get_or_init_stream_flow_state s stream_id).recv_window
    → (handle_data_chunk (data_header (length payload) fin stream_id) payload s).event_queue
      ≡ s.event_queue ++ data_events stream_id payload fin
unfolding handle_data_chunk queue_event ends_stream get_or_init_stream_flow_state new_flow_state
handle_data_chunk-queue s stream_id fin payload small h k = go fin
  where
    e : Engine
    e = queue_event s (data_of stream_id payload)

    word : length payload % 2 ^ 32 ≡ length payload
    word = omega arith

    kept : (update_flow_control e stream_id (length payload % 2 ^ 32)).event_queue ≡ e.event_queue
    kept = rw word ((within_connection e stream_id (length payload) h k).2)

    go :
        (b : Bool)
        → (handle_data_chunk (data_header (length payload) b stream_id) payload s).event_queue
          ≡ s.event_queue ++ data_events stream_id payload b
    go false = kept
    go true =
        ap (λ q. q ++ (plain_event stream_id stream_closed ∷ [])) kept
        ∙ append_assoc s.event_queue (data_of stream_id payload ∷ [])
            (plain_event stream_id stream_closed ∷ [])

-- Body data arrives as it was sent. A DATA frame that `encode_data_frame` wrote, of one byte at least,
-- within both receive windows and given whole to an engine that waits for a frame, brings one
-- `data` event with the very bytes, and `stream_closed` if the frame ended the stream; nothing is
-- left over and the engine waits for the next frame.
pub input_end-encode_data_frame :
    (s : Engine) (stream_id : ℕ) (payload : Bytes) (fin : Bool)
    → IsWaiting s
    → 0 < length payload
    → length payload < 2 ^ 24
    → stream_id < 2 ^ 31
    → pos (length payload) ≤ℤ s.connection_recv_window
    → pos (length payload) ≤ℤ (get_or_init_stream_flow_state s stream_id).recv_window
    → (s' : Engine) × (input_end s (encode_data_frame [] stream_id payload fin) ≡ some (running s'))
      × (s'.event_queue ≡ s.event_queue ++ data_events stream_id payload fin)
      × IsWaiting s'
unfolding get_or_init_stream_flow_state new_flow_state
input_end-encode_data_frame s stream_id payload fin w positive small k window stream_window =
    let h = data_header (length payload) fin stream_id in
    let s1 : Engine = record s { input_buffer = header_bytes h ++ payload } in
    (
      record (handle_data_chunk h payload s1) { parser = frame_end s.parser h; input_buffer = [] },
      ap (λ b. input_end s b) (encode_data_frame-eq payload stream_id fin small k)
          ∙ input_end-parse s _ _ w.open_ w.drained
          ∙ parse-frame s1 (handle_data_chunk h payload s1) h payload w.idle
              (data_header-IsWire (length payload) stream_id fin small k) refl positive
              (ap (λ r. call_payload callbacks h payload r)
                  (quiet_header s1 (length payload) stream_id fin positive)
                ∙ data_call s1 stream_id fin payload positive),
      handle_data_chunk-queue s1 stream_id fin payload small window stream_window,
      record {
        open_ = handle_data_chunk-state h payload s1 ∙ w.open_;
        idle = record { awaits = refl; fresh = refl };
        drained = refl;
      },
    )
