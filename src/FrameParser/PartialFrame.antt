-- ===== src/FrameParser/PartialFrame.antt =====
-- `frame_parser::consume` on a frame whose payload arrives in two buffers, for callbacks of any kind.
use native.Mathlib.Nat.{zero-add}
use stunning_waddle.Base.{
  ℕ, suc, ◌+◌, ◌<◌, ◌≡◌, refl, ap, ◌∙◌, [], ◌∷◌, ◌++◌, some, length, drop, Bytes, arith, take,
  take-all, drop-all, min, ◌-◌,
}
use stunning_waddle.Frame.{FrameHeader}
use stunning_waddle.Frame.Layout.{IsWire, header_bytes}
use stunning_waddle.FrameParser.Defs.{
  reading_payload, FrameParser, Callbacks, again, call_header, call_payload, turn, read_payload,
  after_payload, consume_loop, consume,
}
use stunning_waddle.FrameParser.OneFrame.{IsIdle, frame_end}
use stunning_waddle.FrameParser.WholeFrame.{payload_start, header_turn, loop-again}

-- The parser when `n` bytes of the payload are read.
abbrev pub part_read : FrameParser → FrameHeader → ℕ → FrameParser
part_read p h n = record p {
  state = reading_payload;
  header_buffer = [];
  current_header = h;
  payload_bytes_read = n;
}

module _ {E : Type 0} (cbs : Callbacks E) where
  part_turn :
      (p : FrameParser) (e e' : E) (h : FrameHeader) (n : ℕ) (part : Bytes)
      → n + length part < h.length_
      → 0 < length part
      → call_payload cbs h part e ≡ (length part, e')
      → turn cbs (part_read p h n) e part ≡ again (length part) (part_read p h (n + length part)) e'
  unfolding turn read_payload after_payload
  part_turn p e e' h n part short pos c =
      let whole : take (min (h.length_ - n) (length part)) part ≡ part =
        take-all (min (h.length_ - n) (length part)) part (omega arith) in
      grind (arith, whole)

  last_turn :
      (p : FrameParser) (e e' : E) (h : FrameHeader) (n : ℕ) (part : Bytes)
      → n + length part ≡ h.length_
      → 0 < length part
      → call_payload cbs h part e ≡ (length part, e')
      → turn cbs (part_read p h n) e part ≡ again (length part) (frame_end p h) e'
  unfolding turn read_payload after_payload
  last_turn p e e' h n part end pos c =
      let whole : take (min (h.length_ - n) (length part)) part ≡ part =
        take-all (min (h.length_ - n) (length part)) part (omega arith) in
      grind (arith, whole)

  -- A turn that takes all that there is ends the loop.
  pub last_loop :
      (fuel offset : ℕ) (p p' : FrameParser) (e e' : E) (rest : Bytes)
      → 0 < length rest
      → turn cbs p e rest ≡ again (length rest) p' e'
      → consume_loop cbs (suc fuel) p e rest offset ≡ some (offset + length rest, p', e')
  last_loop fuel offset p p' e e' rest pos t =
      loop-again cbs fuel (length rest) offset p p' e e' rest pos t
      ∙ ap (λ r. consume_loop cbs fuel p' e' r (offset + length rest))
          (drop-all (length rest) rest (omega arith))
      ∙ unfold consume_loop in refl

  -- The whole header, and a part of the payload that is not all of it.
  pub consume-first_part :
      (p : FrameParser) (e e' : E) (h : FrameHeader) (first : Bytes)
      → IsIdle p
      → IsWire h
      → length first < h.length_
      → 0 < length first
      → call_payload cbs h first (call_header cbs h e) ≡ (length first, e')
      → consume cbs p e (header_bytes h ++ first)
        ≡ some (9 + length first, part_read p h (length first), e')
  unfolding consume
  consume-first_part p e e' h first i w short pos c =
      let body : payload_start p h ≡ part_read p h 0 = ground arith in
      loop-again cbs (length (drop 1 (header_bytes h ++ first))) 9 0 p (payload_start p h) e _
        (header_bytes h ++ first) (omega arith) (header_turn cbs p e h first i w)
      ∙ ap
          (λ q.
            consume_loop cbs (length (drop 1 (header_bytes h ++ first))) q (call_header cbs h e)
              first 9)
          body
      ∙ last_loop (length (drop 2 (header_bytes h ++ first))) 9 (part_read p h 0) _
          (call_header cbs h e) e' first pos
          (part_turn p (call_header cbs h e) e' h 0 first (omega arith) pos c)
      ∙ ap (λ n. some (9 + length first, part_read p h n, e')) (zero-add (length first))

  -- The rest of the payload.
  pub consume-last_part :
      (p : FrameParser) (e e' : E) (h : FrameHeader) (n : ℕ) (last : Bytes)
      → n + length last ≡ h.length_
      → 0 < length last
      → call_payload cbs h last e ≡ (length last, e')
      → consume cbs (part_read p h n) e last ≡ some (length last, frame_end p h, e')
  unfolding consume
  consume-last_part p e e' h n [] whole pos c = absurd (omega arith)
  consume-last_part p e e' h n (b ∷ last) whole pos c =
      last_loop (length last) 0 (part_read p h n) _ e e' (b ∷ last) pos
        (last_turn p e e' h n (b ∷ last) whole pos c)
      ∙ ap (λ k. some (k, frame_end p h, e')) (zero-add (length (b ∷ last)))
