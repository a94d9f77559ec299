-- ===== src/FrameParser/Defs.antt =====
-- include/http/v2/frame_parser.h and source/v2/frame_parser.cpp: the incremental frame parser.
-- What the callbacks change is a value of a type `E` of the client's, passed through. The callbacks
-- stand beside the parser's own state. `header_buffer` holds the bytes copied so far, so that
-- `header_pos_` is its length.
use stunning_waddle.Base.{
  ℕ, zero, suc, ◌+◌, ◌-◌, min, [], ◌∷◌, ◌++◌, Option, none, some, length, take, drop, Bytes,
  if◌then◌else◌, ◌==◌, ltb,
}
use stunning_waddle.Frame.{FrameHeader, parse_header, data_frame}

pub data ParserState : Type 0 where
  reading_header reading_payload : ParserState

pub record FrameParser : Type 0 where
  pub state : ParserState
  pub header_buffer : Bytes
  pub current_header : FrameHeader
  pub payload_bytes_read : ℕ

pub record Callbacks (E : Type 0) : Type 0 where
  pub header_cb : Option (FrameHeader → E → E)
  pub payload_cb : Option (FrameHeader → Bytes → E → ℕ × E)

abbrev pub initial_parser : FrameParser
initial_parser = record {
  state = reading_header;
  header_buffer = [];
  current_header = record {
    length_ = 0;
    type = data_frame;
    flags = 0;
    stream_id = 0;
    reserved = 0;
  };
  payload_bytes_read = 0;
}

-- One turn of the loop of `consume`: go on, or return, after that many more bytes.
pub data Turn (E : Type 0) : Type 0 where
  again : ℕ → FrameParser → E → Turn E
  return : ℕ → FrameParser → E → Turn E

module _ {E : Type 0} where
  pub on_frame_header : (FrameHeader → E → E) → Callbacks E → Callbacks E
  on_frame_header cb cbs = record cbs { header_cb = some cb }

  pub on_payload_chunk : (FrameHeader → Bytes → E → ℕ × E) → Callbacks E → Callbacks E
  on_payload_chunk cb cbs = record cbs { payload_cb = some cb }

module _ {E : Type 0} (cbs : Callbacks E) where
  -- `if (header_cb_) header_cb_(h)`
  unfoldable pub call_header : FrameHeader → E → E
  call_header h e = elim cbs.header_cb [ none ↦ e | some cb ↦ cb h e ]

  -- `if (payload_cb_ && to_consume > 0) consumed = payload_cb_(…)`, with `consumed = 0` before it.
  unfoldable pub call_payload : FrameHeader → Bytes → E → ℕ × E
  call_payload h chunk e = elim cbs.payload_cb [
    | none ↦ (0, e)
    | some cb ↦ if ltb 0 (length chunk) then cb h chunk e else (0, e)
  ]

  -- `process_header` and the three assignments behind it, on a full header buffer.
  unfoldable pub process_header : FrameParser → Bytes → E → ℕ → Turn E
  process_header p buffer e n =
      let h = parse_header buffer in
      again n
        (record p {
          state = if h.length_ == 0 then reading_header else reading_payload;
          header_buffer = [];
          current_header = h;
          payload_bytes_read = 0;
        })
        (call_header h e)

  -- `case state::reading_header`
  unfoldable pub read_header : FrameParser → E → Bytes → Turn E
  read_header p e rest =
      let to_copy = min (9 - length p.header_buffer) (length rest) in
      let buffer = p.header_buffer ++ take to_copy rest in
      if length buffer == 9
      then process_header p buffer e to_copy
      else again to_copy (record p { header_buffer = buffer }) e

  -- The end of `case state::reading_payload`, once the callback has taken `consumed` bytes.
  unfoldable pub after_payload : FrameParser → ℕ → ℕ → E → Turn E
  after_payload p to_consume consumed e =
      let read = p.payload_bytes_read + consumed in
      if read == p.current_header.length_
      then again consumed (record p { state = reading_header; payload_bytes_read = read }) e
      else if ltb consumed to_consume
      then return consumed (record p { payload_bytes_read = read }) e
      else again consumed (record p { payload_bytes_read = read }) e

  -- `case state::reading_payload`
  unfoldable pub read_payload : FrameParser → E → Bytes → Turn E
  read_payload p e rest =
      let to_consume = min (p.current_header.length_ - p.payload_bytes_read) (length rest) in
      let (consumed, e') = call_payload p.current_header (take to_consume rest) e in
      after_payload p to_consume consumed e'

  unfoldable pub turn : FrameParser → E → Bytes → Turn E
  turn p e rest = elim p.state [
    | reading_header ↦ read_header p e rest
    | reading_payload ↦ read_payload p e rest
  ]

  -- The loop, on the bytes from `offset` on. `none` means that the fuel ran out.
  unfoldable pub consume_loop : ℕ → FrameParser → E → Bytes → ℕ → Option (ℕ × FrameParser × E)
  consume_loop fuel p e [] offset = some (offset, p, e)
  consume_loop zero p e (b ∷ rest) offset = none
  consume_loop (suc fuel) p e (b ∷ rest) offset = elim (turn p e (b ∷ rest)) [
    | again n p' e' ↦ consume_loop fuel p' e' (drop n (b ∷ rest)) (offset + n)
    | return n p' e' ↦ some (offset + n, p', e')
  ]

  -- Every turn that goes on takes a byte at least, so as many turns as bytes are enough.
  unfoldable pub consume : FrameParser → E → Bytes → Option (ℕ × FrameParser × E)
  consume p e buf = consume_loop (length buf) p e buf 0
