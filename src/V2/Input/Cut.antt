-- ===== src/V2/Input/Cut.antt =====
-- source/v2/engine.cpp: a DATA frame with END_STREAM arrives in two inputs.
use stunning_waddle.Base.{
  ℕ, ◌+◌, ◌^◌, ◌<◌, ◌≡◌, refl, sym, ap, ◌∙◌, true, ltb, [], ◌∷◌, ◌++◌, some, Bytes, length,
  length-append, drop-all, take, drop, take-length-append, drop-length-append, arith,
}
use stunning_waddle.Frame.{FrameHeader, encode_data_frame}
use stunning_waddle.Frame.Layout.{header_bytes}
use stunning_waddle.FrameParser.Defs.{FrameParser, call_payload, consume}
use stunning_waddle.FrameParser.OneFrame.{frame_end}
use stunning_waddle.FrameParser.PartialFrame.{part_read, consume-first_part, consume-last_part}
use stunning_waddle.V2.State.{Engine, ready}
use stunning_waddle.V2.Receive.{running, handle_data_chunk, handle_payload_chunk, ends_stream}
use stunning_waddle.V2.Receive.Partial.{closings, handle_data_chunk-closings}
use stunning_waddle.V2.Input.{callbacks, payload_callback, parse, slide, input_end}
use stunning_waddle.V2.Input.Session.{IsWaiting, parse-frame, input_end-parse}
use stunning_waddle.V2.Input.Data.{
  data_header, data_header-IsWire, encode_data_frame-eq, quiet_header, data_call,
  handle_data_chunk-state,
}

-- `consume` takes the whole buffer.
parse-taken :
    (s s' : Engine) (p' : FrameParser) (buf : Bytes) (n : ℕ)
    → length buf ≡ n
    → consume callbacks s.parser (running s) buf ≡ some (n, p', running s')
    → parse s buf ≡ some (running (record s' { parser = p'; input_buffer = [] }))
unfolding parse slide
parse-taken s s' p' buf n all c =
    rw (c, parse)
      (ap (λ b. some (running (record s' { parser = p'; input_buffer = b })))
        (drop-all n buf (omega arith)))

-- A chunk of the payload of a DATA frame, whatever the frame's size.
chunk_call :
    (size id : ℕ) (chunk : Bytes) (s : Engine)
    → 0 < length chunk
    → let h = data_header size true id in
      call_payload callbacks h chunk (running s)
      ≡ (length chunk, running (handle_data_chunk h chunk s))
unfolding call_payload payload_callback handle_payload_chunk
chunk_call size id chunk s positive = rw (some_byte, call_payload) refl
  where
    some_byte : ltb 0 (length chunk) ≡ true
    some_byte = ground arith

ends : (size id : ℕ) → ends_stream (data_header size true id) ≡ true
unfolding ends_stream
ends size id = refl

take-frame :
    (h : FrameHeader) (first second : Bytes)
    → take (9 + length first) (header_bytes h ++ (first ++ second)) ≡ header_bytes h ++ first
take-frame h first second =
    ap (λ n. take n (header_bytes h ++ (first ++ second)))
      (sym (length-append (header_bytes h) first))
    ∙ take-length-append (header_bytes h ++ first) second

drop-frame :
    (h : FrameHeader) (first second : Bytes)
    → drop (9 + length first) (header_bytes h ++ (first ++ second)) ≡ second
drop-frame h first second =
    ap (λ n. drop n (header_bytes h ++ (first ++ second)))
      (sym (length-append (header_bytes h) first))
    ∙ drop-length-append (header_bytes h ++ first) second

-- The first input: the header and a part of the payload.
first_part :
    (s : Engine) (size id : ℕ) (first : Bytes)
    → IsWaiting s
    → 0 < length first
    → length first < size
    → size < 2 ^ 24
    → id < 2 ^ 31
    → let h = data_header size true id in
      let s0 : Engine = record s { input_buffer = header_bytes h ++ first } in
      input_end s (header_bytes h ++ first)
      ≡ some (
          running (record (handle_data_chunk h first s0) {
            parser = part_read s.parser h (length first);
            input_buffer = [];
          }))
first_part s size id first w positive short small k =
    let h = data_header size true id in
    let s0 : Engine = record s { input_buffer = header_bytes h ++ first } in
    input_end-parse s _ _ w.open_ w.drained
    ∙ parse-taken s0 (handle_data_chunk h first s0) (part_read s.parser h (length first))
        (header_bytes h ++ first) (9 + length first) (length-append (header_bytes h) first)
        (consume-first_part callbacks s.parser (running s0) (running (handle_data_chunk h first s0))
          h first w.idle (data_header-IsWire size id true small k) short positive
          (ap (λ r. call_payload callbacks h first r) (quiet_header s0 size id true (omega arith))
            ∙ chunk_call size id first s0 positive))

-- The second: the rest of the payload.
last_part :
    (s : Engine) (p : FrameParser) (size id n : ℕ) (last : Bytes)
    → s.state ≡ ready
    → s.parser ≡ part_read p (data_header size true id) n
    → s.input_buffer ≡ []
    → 0 < length last
    → n + length last ≡ size
    → let h = data_header size true id in
      let s0 : Engine = record s { input_buffer = last } in
      input_end s last
      ≡ some (
          running
            (record (handle_data_chunk h last s0) { parser = frame_end p h; input_buffer = [] }))
last_part s p size id n [] open_ reads drained positive end = absurd (omega arith)
last_part s p size id n (b ∷ last) open_ reads drained positive end =
    let h = data_header size true id in
    let s0 : Engine = record s { input_buffer = b ∷ last } in
    input_end-parse s b last open_ drained
    ∙ parse-taken s0 (handle_data_chunk h (b ∷ last) s0) (frame_end p h) (b ∷ last)
        (length (b ∷ last)) refl
        (ap (λ q. consume callbacks q (running s0) (b ∷ last)) reads
          ∙ consume-last_part callbacks p (running s0) (running (handle_data_chunk h (b ∷ last) s0))
              h n (b ∷ last) end positive (chunk_call size id (b ∷ last) s0 positive))

-- A DATA frame with END_STREAM, as `encode_data_frame` writes it, is cut anywhere inside its payload,
-- and the two pieces are given one after the other to an engine that waits for a frame. The engine
-- reports the stream closed with the first piece, while the second is still outstanding, and once
-- more with the second; given the frame whole, it reports it closed once. In both ways it waits for
-- the next frame then. This holds whatever the windows are.
pub input_end-cut :
    (s : Engine) (id : ℕ) (first second : Bytes)
    → IsWaiting s
    → 0 < length first
    → 0 < length second
    → length first + length second < 2 ^ 24
    → id < 2 ^ 31
    → let frame = encode_data_frame [] id (first ++ second) true in
      let closed = closings id s.event_queue in
      ((s1 : Engine) × (s2 : Engine) × (input_end s (take (9 + length first) frame)
          ≡ some (running s1))
        × (closings id s1.event_queue ≡ closed + 1)
        × (input_end s1 (drop (9 + length first) frame) ≡ some (running s2))
        × (closings id s2.event_queue ≡ closed + 2)
        × IsWaiting s2)
      × ((s' : Engine) × (input_end s frame ≡ some (running s'))
          × (closings id s'.event_queue ≡ closed + 1)
          × IsWaiting s')
input_end-cut s id first second w positive left small k =
    let payload = first ++ second in
    let size = length payload in
    let sum : size ≡ length first + length second = length-append first second in
    let h = data_header size true id in
    let frame_bytes : encode_data_frame [] id payload true ≡ header_bytes h ++ (first ++ second) =
      encode_data_frame-eq payload id true (omega arith) k in
    let s0 : Engine = record s { input_buffer = header_bytes h ++ first } in
    let s1 : Engine = record (handle_data_chunk h first s0) {
      parser = part_read s.parser h (length first);
      input_buffer = [];
    } in
    let s3 : Engine = record s1 { input_buffer = second } in
    let s5 : Engine = record s { input_buffer = header_bytes h ++ payload } in
    let once = handle_data_chunk-closings h first s0 (ends size id) in
    let open_1 = handle_data_chunk-state h first s0 ∙ w.open_ in
    (
      (
        s1,
        record (handle_data_chunk h second s3) { parser = frame_end s.parser h; input_buffer = [] },
        ap (λ b. input_end s (take (9 + length first) b)) frame_bytes
            ∙ ap (input_end s) (take-frame h first second)
            ∙ first_part s size id first w positive (omega arith) (omega arith) k,
        once,
        ap (λ b. input_end s1 (drop (9 + length first) b)) frame_bytes
            ∙ ap (input_end s1) (drop-frame h first second)
            ∙ last_part s1 s.parser size id (length first) second open_1 refl refl left
                (omega arith),
        handle_data_chunk-closings h second s3 (ends size id) ∙ omega (arith, once),
        record {
          open_ = handle_data_chunk-state h second s3 ∙ open_1;
          idle = record { awaits = refl; fresh = refl };
          drained = refl;
        },
      ),
      (
        record (handle_data_chunk h payload s5) {
          parser = frame_end s.parser h;
          input_buffer = [];
        },
        ap (input_end s) frame_bytes
            ∙ input_end-parse s _ _ w.open_ w.drained
            ∙ parse-frame s5 (handle_data_chunk h payload s5) h payload w.idle
                (data_header-IsWire size id true (omega arith) k) refl (omega arith)
                (ap (λ r. call_payload callbacks h payload r)
                    (quiet_header s5 size id true (omega arith))
                  ∙ data_call s5 id true payload (omega arith)),
        handle_data_chunk-closings h payload s5 (ends size id),
        record {
          open_ = handle_data_chunk-state h payload s5 ∙ w.open_;
          idle = record { awaits = refl; fresh = refl };
          drained = refl;
        },
      ),
    )
