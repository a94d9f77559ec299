-- ===== src/FrameParser/WholeFrame.antt =====
-- `frame_parser::consume` on a frame that lies whole in the buffer, for callbacks of any kind.
use stunning_waddle.Base.{
  ℕ, suc, ◌+◌, ◌<◌, ◌≡◌, refl, sym, append-nil, ap, ◌∙◌, [], ◌∷◌, ◌++◌, some, length, drop, Bytes,
  arith, length-append, take-length-append, drop-length-append, ◌==◌, if◌then◌else◌,
}
use stunning_waddle.Frame.{FrameHeader}
use stunning_waddle.Frame.Layout.{IsWire, header_bytes, parse_header-bytes}
use stunning_waddle.FrameParser.Defs.{
  reading_header, reading_payload, FrameParser, Callbacks, again, call_header, call_payload, turn,
  read_header, process_header, read_payload, after_payload, consume_loop, consume,
}
use stunning_waddle.FrameParser.OneFrame.{IsIdle, frame_end}

abbrev pub payload_start : FrameParser → FrameHeader → FrameParser
payload_start p h = record p {
  state = if h.length_ == 0 then reading_header else reading_payload;
  header_buffer = [];
  current_header = h;
  payload_bytes_read = 0;
}

module _ {E : Type 0} (cbs : Callbacks E) where
  pub header_turn :
      (p : FrameParser) (e : E) (h : FrameHeader) (rest : Bytes)
      → IsIdle p
      → IsWire h
      → turn cbs p e (header_bytes h ++ rest) ≡ again 9 (payload_start p h) (call_header cbs h e)
  unfolding turn read_header process_header
  header_turn p e h rest i w = ground (arith, i.awaits, i.fresh, parse_header-bytes h w)

  payload_turn :
      (p : FrameParser) (e e' : E) (h : FrameHeader) (payload rest : Bytes)
      → h.length_ ≡ length payload
      → 0 < length payload
      → call_payload cbs h payload e ≡ (length payload, e')
      → turn cbs (payload_start p h) e (payload ++ rest) ≡ again (length payload) (frame_end p h) e'
  unfolding turn read_payload after_payload
  payload_turn p e e' h payload rest n pos c =
      grind (arith, take-length-append payload rest, length-append payload rest)

  pub loop-again :
      (fuel n offset : ℕ) (p p' : FrameParser) (e e' : E) (rest : Bytes)
      → 0 < length rest
      → turn cbs p e rest ≡ again n p' e'
      → consume_loop cbs (suc fuel) p e rest offset
        ≡ consume_loop cbs fuel p' e' (drop n rest) (offset + n)
  unfolding consume_loop
  loop-again fuel n offset p p' e e' [] pos t = absurd (omega arith)
  loop-again fuel n offset p p' e e' (b ∷ rest) pos t = rw (t, consume_loop)

  -- A frame with a payload takes two turns.
  pub loop-frame :
      (fuel offset : ℕ) (p : FrameParser) (e e' : E) (h : FrameHeader) (payload rest : Bytes)
      → IsIdle p
      → IsWire h
      → h.length_ ≡ length payload
      → 0 < length payload
      → call_payload cbs h payload (call_header cbs h e) ≡ (length payload, e')
      → consume_loop cbs (suc (suc fuel)) p e (header_bytes h ++ (payload ++ rest)) offset
        ≡ consume_loop cbs fuel (frame_end p h) e' rest (offset + 9 + length payload)
  loop-frame fuel offset p e e' h payload rest i w n pos c =
      loop-again (suc fuel) 9 offset p _ e _ (header_bytes h ++ (payload ++ rest)) (omega arith)
        (header_turn p e h (payload ++ rest) i w)
      ∙ loop-again fuel (length payload) (offset + 9) (payload_start p h) _ _ e' (payload ++ rest)
          (omega (arith, length-append payload rest))
          (payload_turn p (call_header cbs h e) e' h payload rest n pos c)
      ∙ ap (λ r. consume_loop cbs fuel (frame_end p h) e' r (offset + 9 + length payload))
          (drop-length-append payload rest)

  -- A frame without one takes one turn.
  pub loop-empty_frame :
      (fuel offset : ℕ) (p : FrameParser) (e : E) (h : FrameHeader) (rest : Bytes)
      → IsIdle p
      → IsWire h
      → h.length_ ≡ 0
      → consume_loop cbs (suc fuel) p e (header_bytes h ++ rest) offset
        ≡ consume_loop cbs fuel (frame_end p h) (call_header cbs h e) rest (offset + 9)
  loop-empty_frame fuel offset p e h rest i w n =
      loop-again fuel 9 offset p (frame_end p h) e _ (header_bytes h ++ rest) (omega arith)
        (header_turn p e h rest i w ∙ ap (λ q. again 9 q (call_header cbs h e)) (ground (arith, n)))

  -- A buffer that holds one frame with a payload, which the callback takes whole.
  pub consume-frame :
      (p : FrameParser) (e e' : E) (h : FrameHeader) (payload : Bytes)
      → IsIdle p
      → IsWire h
      → h.length_ ≡ length payload
      → 0 < length payload
      → call_payload cbs h payload (call_header cbs h e) ≡ (length payload, e')
      → consume cbs p e (header_bytes h ++ payload) ≡ some (9 + length payload, frame_end p h, e')
  unfolding consume
  consume-frame p e e' h payload i w n pos c =
      ap (λ r. consume cbs p e (header_bytes h ++ r)) (sym (append-nil payload))
      ∙ loop-frame (length (drop 2 (header_bytes h ++ (payload ++ [])))) 0 p e e' h payload [] i w n
          pos c
      ∙ unfold consume_loop in refl

  -- A buffer that holds one frame without a payload.
  pub consume-empty_frame :
      (p : FrameParser) (e : E) (h : FrameHeader)
      → IsIdle p
      → IsWire h
      → h.length_ ≡ 0
      → consume cbs p e (header_bytes h) ≡ some (9, frame_end p h, call_header cbs h e)
  unfolding consume
  consume-empty_frame p e h i w n =
      ap (λ r. consume cbs p e r) (sym (append-nil (header_bytes h)))
      ∙ loop-empty_frame 8 0 p e h [] i w n
      ∙ unfold consume_loop in refl
