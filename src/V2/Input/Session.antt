-- ===== src/V2/Input/Session.antt =====
-- source/v2/engine.cpp: two engines that talk: what `send_headers_frame` of one writes, `input_end`
-- of the other reads.
use stunning_waddle.Base.{
  ℕ, ◌+◌, ◌^◌, ◌<◌, ◌≡◌, refl, sym, ap, ◌∙◌, List, [], ◌∷◌, ◌++◌, append-nil, append_assoc, Bool,
  true, false, ◌&&◌, not, some, Bytes, length, drop-all, length-append, All, arith, if◌then◌else◌,
  ltb,
}
use stunning_waddle.Event.{Event, plain_event, headers_of, new_stream, stream_closed}
use stunning_waddle.Headers.{Headers}
use stunning_waddle.Hpack.Result.{ok}
use stunning_waddle.Hpack.Context.{HpackContext, encode, decode, decode_loop}
use stunning_waddle.Hpack.Context.Table.{IsValid}
use stunning_waddle.Hpack.Context.RoundTrip.{FitsField, decode-encode}
use stunning_waddle.Frame.{
  FrameHeader, make_header, headers, headers_flags, encode_headers_frame, frame_type_of,
  frame_type_byte,
}
use stunning_waddle.Frame.Layout.{IsWire, header_bytes, write_frame_header-eq}
use stunning_waddle.FrameParser.Defs.{call_header, call_payload}
use stunning_waddle.FrameParser.OneFrame.{IsIdle, frame_end}
use stunning_waddle.FrameParser.WholeFrame.{consume-frame}
use stunning_waddle.V2.State.{
  Engine, ready, is_server, maybe_invoke_output_ready, queue_event, set_flow_state, new_flow_state,
  get_or_init_stream_flow_state,
}
use stunning_waddle.V2.Send.{send_headers_frame}
use stunning_waddle.V2.Receive.{
  running, handle_payload_chunk, handle_frame_header, close_empty, handle_headers_chunk,
  note_stream, close_headers, ends_stream, ends_headers,
}
use stunning_waddle.V2.Input.{callbacks, header_callback, payload_callback, parse, slide, input_end}

-- The header that `encode_headers_frame` writes, for a block and a stream that fit their fields.
abbrev headers_frame : ℕ → Bool → ℕ → FrameHeader
headers_frame size fin stream_id = record {
  length_ = size;
  type = headers;
  flags = if fin then 5 else 4;
  stream_id = stream_id;
  reserved = 0;
}

make_header-headers_frame :
    (size stream_id : ℕ) (fin : Bool)
    → size < 2 ^ 24
    → stream_id < 2 ^ 31
    → make_header size headers (headers_flags true fin) stream_id ≡ headers_frame size fin stream_id
unfolding make_header headers_flags
make_header-headers_frame size stream_id fin h k = ground arith

headers_frame-IsWire :
    (size stream_id : ℕ) (fin : Bool)
    → size < 2 ^ 24
    → stream_id < 2 ^ 31
    → IsWire (headers_frame size fin stream_id)
unfolding frame_type_of frame_type_byte
headers_frame-IsWire size stream_id fin h k = record {
  length_fits = h;
  type_named = refl;
  stream_fits = k;
  reserved_zero = refl;
}

encode_headers_frame-eq :
    (out block : Bytes) (stream_id : ℕ) (fin : Bool)
    → length block < 2 ^ 24
    → stream_id < 2 ^ 31
    → encode_headers_frame out stream_id block true fin
      ≡ out ++ (header_bytes (headers_frame (length block) fin stream_id) ++ block)
unfolding encode_headers_frame
encode_headers_frame-eq out block stream_id fin h k =
    rw
      (
        make_header-headers_frame (length block) stream_id fin h k,
        write_frame_header-eq out (headers_frame (length block) fin stream_id),
      )
      (append_assoc out (header_bytes (headers_frame (length block) fin stream_id)) block)

abbrev pub new_stream_events : Engine → ℕ → List Event
new_stream_events s stream_id =
    if is_server s.role && not (get_or_init_stream_flow_state s stream_id).known
    then plain_event stream_id new_stream ∷ []
    else []

-- The events that a header block brings, for a stream that the receiver knows or not.
abbrev pub header_events : Engine → ℕ → Headers → Bool → List Event
header_events s stream_id fields fin =
    new_stream_events s stream_id
    ++ (headers_of stream_id fields
        ∷ (if fin then plain_event stream_id stream_closed ∷ [] else []))

note_stream-eq :
    (s : Engine) (stream_id : ℕ)
    → ((note_stream stream_id s).decode_ctx ≡ s.decode_ctx)
      × ((note_stream stream_id s).event_queue ≡ s.event_queue ++ new_stream_events s stream_id)
unfolding note_stream queue_event set_flow_state
note_stream-eq s stream_id =
    let nil = append-nil s.event_queue in (ground arith, ground (arith, nil))

-- The receiver behind the block.
abbrev received : Engine → FrameHeader → Headers → HpackContext → Engine
received s h fields ctx = close_headers h (
    queue_event (record (note_stream h.stream_id s) { decode_ctx = ctx })
      (headers_of h.stream_id fields))

received-eq :
    (s : Engine) (stream_id : ℕ) (fields : Headers) (fin : Bool) (size : ℕ) (ctx : HpackContext)
    → let e = received s (headers_frame size fin stream_id) fields ctx in
      (e.decode_ctx ≡ ctx) × (e.event_queue ≡ s.event_queue ++ header_events s stream_id fields fin)
unfolding close_headers queue_event ends_stream
received-eq s stream_id fields false size ctx =
    (refl, rw ((note_stream-eq s stream_id).1) (append_assoc s.event_queue _ _))
received-eq s stream_id fields true size ctx = (
  refl,
  rw ((note_stream-eq s stream_id).1) (
      ap (λ q. q ++ (plain_event stream_id stream_closed ∷ [])) (append_assoc s.event_queue _ _)
      ∙ append_assoc s.event_queue _ _
      ∙ ap (λ q. s.event_queue ++ q)
          (append_assoc (new_stream_events s stream_id) (headers_of stream_id fields ∷ [])
            (plain_event stream_id stream_closed ∷ []))),
)

received-state :
    (s : Engine) (h : FrameHeader) (fields : Headers) (ctx : HpackContext)
    → (received s h fields ctx).state ≡ s.state
unfolding close_headers queue_event note_stream set_flow_state
received-state s h fields ctx = ground arith

handle_frame_header-quiet :
    (s : Engine) (size stream_id : ℕ) (fin : Bool)
    → 0 < size
    → call_header callbacks (headers_frame size fin stream_id) (running s) ≡ running s
unfolding call_header header_callback handle_frame_header close_empty ends_stream
handle_frame_header-quiet s size stream_id fin pos = ap running (ground arith)

handle_headers :
    (s : Engine) (stream_id : ℕ) (fields : Headers) (fin : Bool) (block : Bytes)
    (ctx : HpackContext)
    → 0 < length block
    → decode s.decode_ctx block ≡ ok (ctx, fields)
    → let h = headers_frame (length block) fin stream_id in
      call_payload callbacks h block (running s) ≡ (length block, running (received s h fields ctx))
unfolding call_payload payload_callback handle_payload_chunk ends_headers handle_headers_chunk
handle_headers s stream_id fields fin block ctx pos d = go fin
  where
    e1 : ltb 0 (length block) ≡ true
    e1 = ground arith

    dec : decode (note_stream stream_id s).decode_ctx block ≡ ok (ctx, fields)
    dec = rw ((note_stream-eq s stream_id).0) d

    go :
        (b : Bool)
        → let h = headers_frame (length block) b stream_id in
          call_payload callbacks h block (running s)
          ≡ (length block, running (received s h fields ctx))
    go false = rw (e1, call_payload) (rw (dec, handle_headers_chunk) refl)
    go true = rw (e1, call_payload) (rw (dec, handle_headers_chunk) refl)

pub parse-frame :
    (s s' : Engine) (h : FrameHeader) (payload : Bytes)
    → IsIdle s.parser
    → IsWire h
    → h.length_ ≡ length payload
    → 0 < length payload
    → call_payload callbacks h payload (call_header callbacks h (running s))
      ≡ (length payload, running s')
    → parse s (header_bytes h ++ payload)
      ≡ some (running (record s' { parser = frame_end s.parser h; input_buffer = [] }))
unfolding parse slide
parse-frame s s' h payload i w n pos c =
    rw (consume-frame callbacks s.parser (running s) (running s') h payload i w n pos c, parse)
      (ap (λ b. some (running (record s' { parser = frame_end s.parser h; input_buffer = b })))
        (drop-all (9 + length payload) (header_bytes h ++ payload)
          (omega (arith, length-append (header_bytes h) payload))))

-- A receiver that has nothing buffered, and is between two frames.
pub record IsWaiting (s : Engine) : Type 0 where
  pub open_ : s.state ≡ ready
  pub idle : IsIdle s.parser
  pub drained : s.input_buffer ≡ []

pub input_end-parse :
    (s : Engine) (b : ℕ) (bytes : Bytes)
    → s.state ≡ ready
    → s.input_buffer ≡ []
    → input_end s (b ∷ bytes) ≡ parse (record s { input_buffer = b ∷ bytes }) (b ∷ bytes)
unfolding input_end
input_end-parse s b bytes r d = rw (r, d, input_end) refl

block_positive :
    (c c' : HpackContext) (block : Bytes) (fields : Headers)
    → decode c block ≡ ok (c', fields)
    → 0 < length fields
    → 0 < length block
unfolding decode decode_loop
block_positive c c' [] [] d h = absurd (omega arith)
block_positive c c' [] (x ∷ fields) d h = absurd (ground (arith, d))
block_positive c c' (b ∷ block) fields d h = omega arith

encode-decode :
    (c : HpackContext) (fields : Headers)
    → IsValid c
    → All (FitsField true) fields
    → (decode c (encode c [] fields true).0 ≡ ok ((encode c [] fields true).1, fields))
encode-decode c fields v f =
    let (block, c', e, d, v') = decode-encode true c [] fields v f in rw e d

send_headers_frame-eq :
    (c : Engine) (stream_id : ℕ) (fields : Headers) (fin : Bool)
    → let e' = send_headers_frame c stream_id fields fin in
      let r = encode c.encode_ctx [] fields true in
      (e'.encode_ctx ≡ r.1)
      × (e'.pending_out ≡ encode_headers_frame c.pending_out stream_id r.0 true fin)
unfolding send_headers_frame maybe_invoke_output_ready
send_headers_frame-eq c stream_id fields fin = (ground arith, ground arith)

-- Header blocks arrive as they were sent. Let the decoder of an engine that waits for a frame be in
-- the state of another engine's encoder, with any entries in its table. Then the frame that
-- `send_headers_frame` appends to the output for fields that fit the decoder's limits and a block
-- that fits one frame, when `input_end` gets it whole, brings exactly these events: `new_stream`
-- if the receiver is a server and the stream is new, `headers` with the very fields in their
-- order, and `stream_closed` if the sender ended the stream. Nothing is thrown or left over,
-- decoder and encoder are in step again, and the receiver waits for the next frame.
pub input_end-send_headers_frame :
    (c s : Engine) (stream_id : ℕ) (fields : Headers) (fin : Bool)
    → IsWaiting s
    → s.decode_ctx ≡ c.encode_ctx
    → IsValid c.encode_ctx
    → All (FitsField true) fields
    → 0 < length fields
    → length (encode c.encode_ctx [] fields true).0 < 2 ^ 24
    → stream_id < 2 ^ 31
    → let c' = send_headers_frame c stream_id fields fin in
      (frame : Bytes) × (s' : Engine) × (c'.pending_out ≡ c.pending_out ++ frame)
      × (input_end s frame ≡ some (running s'))
      × (s'.event_queue ≡ s.event_queue ++ header_events s stream_id fields fin)
      × (s'.decode_ctx ≡ c'.encode_ctx)
      × IsWaiting s'
unfolding get_or_init_stream_flow_state new_flow_state
input_end-send_headers_frame c s stream_id fields fin w same v f pos small k =
    let block = (encode c.encode_ctx [] fields true).0 in
    let ctx = (encode c.encode_ctx [] fields true).1 in
    let h = headers_frame (length block) fin stream_id in
    let s1 : Engine = record s { input_buffer = header_bytes h ++ block } in
    let s2 = received s1 h fields ctx in
    let d : decode s.decode_ctx block ≡ ok (ctx, fields) =
      rw same (encode-decode c.encode_ctx fields v f) in
    let some_byte = block_positive s.decode_ctx ctx block fields d pos in
    let (ectx, out) = send_headers_frame-eq c stream_id fields fin in
    (
      header_bytes h ++ block,
      record s2 { parser = frame_end s.parser h; input_buffer = [] },
      out ∙ encode_headers_frame-eq c.pending_out block stream_id fin small k,
      input_end-parse s _ _ w.open_ w.drained
          ∙ parse-frame s1 s2 h block w.idle
              (headers_frame-IsWire (length block) stream_id fin small k) refl some_byte
              (ap (λ r. call_payload callbacks h block r)
                  (handle_frame_header-quiet s1 (length block) stream_id fin some_byte)
                ∙ handle_headers s1 stream_id fields fin block ctx some_byte d),
      (received-eq s1 stream_id fields fin (length block) ctx).1,
      (received-eq s1 stream_id fields fin (length block) ctx).0 ∙ sym ectx,
      record {
        open_ = received-state s1 h fields ctx ∙ w.open_;
        idle = record { awaits = refl; fresh = refl };
        drained = refl;
      },
    )
