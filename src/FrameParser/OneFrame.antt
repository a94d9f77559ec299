-- ===== src/FrameParser/OneFrame.antt =====
-- Frames written by source/v2/frame.cpp, read by `frame_parser::consume`.
use stunning_waddle.Base.{
  ℕ, ◌+◌, ◌%◌, ◌/◌, drop, ◌^◌, ◌≡◌, refl, ◌∙◌, [], ◌∷◌, ◌++◌, some, length, Bytes, arith,
  if◌then◌else◌, ◌==◌,
}
use stunning_waddle.Frame.{FrameHeader, write_frame_header}
use stunning_waddle.Frame.Layout.{IsWire, header_bytes, write_frame_header-eq, parse_header-bytes}
use stunning_waddle.FrameParser.Defs.{
  reading_header, reading_payload, FrameParser, Callbacks, call_header, consume,
}
use stunning_waddle.FrameParser.Bytewise.{
  feed_all, TakesAll, byte_run, byte_run-append, header_chunk, payload_chunk, consume-byte_run,
}

-- Between two frames: a new header is awaited, and none of it has been read.
pub record IsIdle (p : FrameParser) : Type 0 where
  pub awaits : p.state ≡ reading_header
  pub fresh : p.header_buffer ≡ []

-- The parser behind a frame with header `h`.
abbrev pub frame_end : FrameParser → FrameHeader → FrameParser
frame_end p h = record p {
  state = reading_header;
  header_buffer = [];
  current_header = h;
  payload_bytes_read = h.length_;
}

module _ {E : Type 0} (cbs : Callbacks E) (feed : FrameHeader → ℕ → E → E) where
  header_run :
      (p : FrameParser) (e : E) (h : FrameHeader)
      → IsIdle p
      → IsWire h
      → byte_run cbs feed p e (header_bytes h) ≡ (
        record p {
          state = if h.length_ == 0 then reading_header else reading_payload;
          header_buffer = [];
          current_header = h;
          payload_bytes_read = 0;
        },
        call_header cbs h e,
      )
  header_run p e h i w =
      let q : FrameParser = record p { state = reading_header; header_buffer = [] } in
      let whole =
        header_chunk cbs feed (h.length_ / 2 ^ 16 % 256) (drop 1 (header_bytes h)) q e refl
          (omega arith) in
      ground (arith, whole, i.awaits, i.fresh, parse_header-bytes h w)

  frame_run :
      (p : FrameParser) (e : E) (h : FrameHeader) (payload : Bytes)
      → IsIdle p
      → IsWire h
      → h.length_ ≡ length payload
      → byte_run cbs feed p e (header_bytes h ++ payload)
        ≡ (frame_end p h, feed_all feed h payload (call_header cbs h e))
  frame_run p e h payload i w n =
      byte_run-append cbs feed (header_bytes h) payload p e
      ∙ rw (header_run p e h i w) (body payload n)
    where
      body :
          (payload : Bytes)
          → h.length_ ≡ length payload
          → byte_run cbs feed
              (record p {
                state = if h.length_ == 0 then reading_header else reading_payload;
                header_buffer = [];
                current_header = h;
                payload_bytes_read = 0;
              })
              (call_header cbs h e)
              payload
            ≡ (frame_end p h, feed_all feed h payload (call_header cbs h e))
      body [] n = unfold byte_run in ground arith
      body (b ∷ bs) n = ground (
        arith,
        payload_chunk cbs feed b bs
            (record p {
              state = reading_payload;
              header_buffer = [];
              current_header = h;
              payload_bytes_read = 0;
            })
            (call_header cbs h e),
      )

  module _ (takes : TakesAll cbs feed) where
    -- A frame on the wire, read between two frames: the header callback is called once, on the
    -- header that was written, then the payload callback is given the payload and nothing else,
    -- all of the frame is consumed, and the parser awaits the next frame.
    pub consume_frame :
        (p : FrameParser) (e : E) (h : FrameHeader) (payload : Bytes)
        → IsIdle p
        → IsWire h
        → h.length_ ≡ length payload
        → consume cbs p e (write_frame_header [] h ++ payload)
          ≡ some (9 + length payload, frame_end p h, feed_all feed h payload (call_header cbs h e))
    consume_frame p e h payload i w n = rw (write_frame_header-eq [] h) (
        consume-byte_run cbs feed takes p e _
          (record { header_short = rw i.fresh (omega arith); payload_open = rw i.awaits tt })
        ∙ ground (arith, frame_run p e h payload i w n))
