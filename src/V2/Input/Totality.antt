-- ===== src/V2/Input/Totality.antt =====
-- source/v2/engine.cpp: `input_end` returns on every input.
use stunning_waddle.Base.{
  ℕ, ◌≤◌, ◌≡◌, refl, ap, ◌∙◌, if_intro, ltb, [], ◌∷◌, ◌++◌, Option, some, length, drop, Bytes,
  arith, length-append, length-drop, take, str_eq, leb, Bool, true, false,
}
use stunning_waddle.Frame.{
  FrameHeader, FrameType, data_frame, headers, priority, rst_stream, settings, push_promise, ping,
  goaway, window_update, continuation, unnamed,
}
use stunning_waddle.FrameParser.Defs.{FrameParser, call_header, call_payload}
use stunning_waddle.FrameParser.Totality.{IsValid, IsBounded, consume-Ends}
use stunning_waddle.FrameParser.Kept.{consume-kept}
use stunning_waddle.V2.Receive.Buffer.{
  run_engine, handle_frame_header-buffer, handle_payload_chunk-buffer,
}
use stunning_waddle.V2.State.{Engine, input_capacity, maybe_invoke_output_ready, queue_event}
use stunning_waddle.V2.Send.{preface, write_settings}
use stunning_waddle.V2.Receive.{
  Run, running, thrown, handle_payload_chunk, handle_headers_chunk, when_whole,
}
use stunning_waddle.V2.Input.{
  callbacks, header_callback, payload_callback, slide, parse, try_consume_client_preface,
  after_preface, await_preface, input_end, input_begin, is_awaiting_preface,
}

handle_headers_chunk-bounded :
    (h : FrameHeader) (chunk : Bytes) (e : Engine)
    → (handle_headers_chunk h chunk e).0 ≤ length chunk
unfolding handle_headers_chunk
handle_headers_chunk-bounded h chunk e = ground arith

when_whole-bounded :
    (h : FrameHeader) (chunk : Bytes) (e e' : Engine) → (when_whole h chunk e e').0 ≤ length chunk
unfolding when_whole
when_whole-bounded h chunk e e' = ground arith

handle_payload_chunk-bounded :
    (h : FrameHeader) (chunk : Bytes) (e : Engine)
    → (handle_payload_chunk h chunk e).0 ≤ length chunk
unfolding handle_payload_chunk
handle_payload_chunk-bounded h chunk e = go h.type refl
  where
    go : (t : FrameType) → h.type ≡ t → (handle_payload_chunk h chunk e).0 ≤ length chunk
    go data_frame k = rw (k, handle_payload_chunk) (omega arith)
    go headers k = rw (k, handle_payload_chunk) (handle_headers_chunk-bounded h chunk e)
    go rst_stream k = rw (k, handle_payload_chunk) (omega arith)
    go settings k = rw (k, handle_payload_chunk) (when_whole-bounded h chunk e _)
    go goaway k = rw (k, handle_payload_chunk) (when_whole-bounded h chunk e _)
    go window_update k = rw (k, handle_payload_chunk) (when_whole-bounded h chunk e _)
    go priority k = rw (k, handle_payload_chunk) (omega arith)
    go push_promise k = rw (k, handle_payload_chunk) (omega arith)
    go ping k = rw (k, handle_payload_chunk) (omega arith)
    go continuation k = rw (k, handle_payload_chunk) (omega arith)
    go (unnamed b) k = rw (k, handle_payload_chunk) (omega arith)

payload_callback-bounded :
    (h : FrameHeader) (chunk : Bytes) (r : Run) → (payload_callback h chunk r).0 ≤ length chunk
unfolding payload_callback
payload_callback-bounded h chunk (thrown error e) = omega arith
payload_callback-bounded h chunk (running e) = handle_payload_chunk-bounded h chunk e

callbacks-IsBounded : IsBounded callbacks
unfolding call_payload
callbacks-IsBounded h chunk r = ground (arith, payload_callback-bounded h chunk r)

-- A call that returned, or threw: it leaves a valid parser, and a buffer within the limit.
pub record Returns (limit : ℕ) (r : Option Run) : Type 0 where
  pub run : Run
  pub returns : r ≡ some run
  pub valid : IsValid (run_engine run).parser
  pub buffers : length (run_engine run).input_buffer ≤ limit

slide-IsValid :
    (n : ℕ) (p : FrameParser) (buf : Bytes) (r : Run)
    → IsValid p
    → IsValid (run_engine (slide n p buf r)).parser
unfolding slide
slide-IsValid n p buf (running e) v = v
slide-IsValid n p buf (thrown error e) v = v

-- An exception leaves the whole buffer; else what the parser took is gone from it.
slide-buffers :
    (n limit : ℕ) (p : FrameParser) (buf : Bytes) (r : Run)
    → length buf ≤ limit
    → length (run_engine r).input_buffer ≤ limit
    → length (run_engine (slide n p buf r)).input_buffer ≤ limit
unfolding slide
slide-buffers n limit p buf (running e) h k = omega (arith, length-drop n buf)
slide-buffers n limit p buf (thrown error e) h k = k

header_callback-buffer :
    (h : FrameHeader) (r : Run) (buffer : Bytes)
    → (run_engine r).input_buffer ≡ buffer
    → (run_engine (call_header callbacks h r)).input_buffer ≡ buffer
unfolding call_header header_callback
header_callback-buffer h (running e) buffer k = handle_frame_header-buffer h e ∙ k
header_callback-buffer h (thrown error e) buffer k = k

payload_callback-buffer :
    (h : FrameHeader) (chunk : Bytes) (r : Run) (buffer : Bytes)
    → (run_engine r).input_buffer ≡ buffer
    → (run_engine (call_payload callbacks h chunk r).1).input_buffer ≡ buffer
unfolding call_payload payload_callback
payload_callback-buffer h chunk (running e) buffer k =
    if_intro (λ (x : ℕ × Run). (run_engine x.1).input_buffer ≡ buffer) (ltb 0 (length chunk)) _ _
      (λ _. handle_payload_chunk-buffer h chunk e ∙ k) (λ _. k)
payload_callback-buffer h chunk (thrown error e) buffer k =
    if_intro (λ (x : ℕ × Run). (run_engine x.1).input_buffer ≡ buffer) (ltb 0 (length chunk)) _ _
      (λ _. k) (λ _. k)

parse-Returns :
    (limit : ℕ) (e : Engine) (buf : Bytes)
    → IsValid e.parser
    → length buf ≤ limit
    → length e.input_buffer ≤ limit
    → Returns limit (parse e buf)
unfolding parse
parse-Returns limit e buf v h k =
    let x = consume-Ends callbacks callbacks-IsBounded e.parser (running e) buf v in
    let kept : (run_engine x.after).input_buffer ≡ e.input_buffer = rw x.ends at (
      consume-kept callbacks (λ r. (run_engine r).input_buffer ≡ e.input_buffer)
        (λ header r. header_callback-buffer header r e.input_buffer)
        (λ header chunk r. payload_callback-buffer header chunk r e.input_buffer) e.parser
        (running e) buf refl) in
    record {
      run = slide x.taken x.parser buf x.after;
      returns = rw (x.ends, parse) refl;
      valid = slide-IsValid x.taken x.parser buf x.after x.valid;
      buffers = slide-buffers x.taken limit x.parser buf x.after h (rw kept k);
    }

Returns-running :
    (limit : ℕ) (e : Engine)
    → IsValid e.parser
    → length e.input_buffer ≤ limit
    → Returns limit (some (running e))
Returns-running limit e v h = record { run = running e; returns = refl; valid = v; buffers = h }

write_settings-kept :
    (e : Engine)
    → ((write_settings e).parser ≡ e.parser) × ((write_settings e).input_buffer ≡ e.input_buffer)
unfolding write_settings maybe_invoke_output_ready
write_settings-kept e = ground arith

after_preface-Returns :
    (limit : ℕ) (e : Engine)
    → IsValid e.parser
    → length e.input_buffer ≤ limit
    → Returns limit (after_preface e)
unfolding after_preface
after_preface-Returns limit e v k = go (drop (length preface) e.input_buffer) refl
  where
    kept :
        ((write_settings e).parser ≡ e.parser) × ((write_settings e).input_buffer ≡ e.input_buffer)
    kept = write_settings-kept e

    valid : IsValid (write_settings e).parser
    valid = rw kept.0 v

    go :
        (rest : Bytes)
        → drop (length preface) e.input_buffer ≡ rest
        → Returns limit (after_preface e)
    go [] h = rw (h, after_preface) (Returns-running _ _ valid (omega arith))
    go (b ∷ rest) h =
        rw (h, after_preface)
          (parse-Returns limit _ (b ∷ rest) valid
            (omega (arith, length-drop (length preface) e.input_buffer, ap length h)) (rw kept.1 k))

await_preface-Returns :
    (limit : ℕ) (e : Engine)
    → IsValid e.parser
    → length e.input_buffer ≤ limit
    → Returns limit (await_preface e)
unfolding await_preface try_consume_client_preface queue_event
await_preface-Returns limit e v l = go (leb (length preface) (length e.input_buffer)) refl
  where
    valid_or_not :
        (b : Bool)
        → str_eq (take (length preface) e.input_buffer) preface ≡ b
        → leb (length preface) (length e.input_buffer) ≡ true
        → Returns limit (await_preface e)
    valid_or_not true k h = rw (h, k, await_preface) (after_preface-Returns limit e v l)
    valid_or_not false k h = rw (h, k, await_preface) (Returns-running _ _ v l)

    go :
        (b : Bool)
        → leb (length preface) (length e.input_buffer) ≡ b
        → Returns limit (await_preface e)
    go false h = rw (h, await_preface) (Returns-running _ _ v l)
    go true h = valid_or_not _ refl h

-- Every call of `input_end` ends, by returning or by an exception of the HPACK decoder: the parser's
-- loop ends on every input. In both cases it leaves a valid parser, and a buffer that still fits
-- the array. The bytes came through the span that `input_begin` gave out, and the parser was valid
-- and the buffer within the array before.
pub input_end-Returns :
    (e : Engine) (bytes : Bytes)
    → IsValid e.parser
    → length e.input_buffer ≤ input_capacity
    → length bytes ≤ input_begin e
    → Returns input_capacity (input_end e bytes)
unfolding input_end input_begin
input_end-Returns e [] v h k = Returns-running _ _ v h
input_end-Returns e (b ∷ bytes) v h k = go (is_awaiting_preface e.state) refl
  where
    e' : Engine
    e' = record e { input_buffer = e.input_buffer ++ (b ∷ bytes) }

    fits : length e'.input_buffer ≤ input_capacity
    fits = omega (arith, length-append e.input_buffer (b ∷ bytes))

    go :
        (w : Bool)
        → is_awaiting_preface e.state ≡ w
        → Returns input_capacity (input_end e (b ∷ bytes))
    go true s = rw (s, input_end) (await_preface-Returns input_capacity e' v fits)
    go false s = rw (s, input_end) (parse-Returns input_capacity e' e'.input_buffer v fits fits)
