-- ===== src/FrameParser/Kept.antt =====
-- `frame_parser::consume`: what every callback keeps of the client is kept by the whole call.
use stunning_waddle.Base.{
  ℕ, zero, suc, ◌+◌, ◌≡◌, refl, [], ◌∷◌, Option, none, some, Bytes, drop, take, length, min, ◌-◌,
  ◌++◌, if_intro, ltb, ◌==◌,
}
use stunning_waddle.Frame.{FrameHeader}
use stunning_waddle.FrameParser.Defs.{
  ParserState, reading_header, reading_payload, FrameParser, Callbacks, Turn, again, return,
  call_header, call_payload, process_header, read_header, after_payload, read_payload, turn,
  consume_loop, consume,
}

module _ {E : Type 0} (cbs : Callbacks E) (P : E → Type 0)
    (header_keeps : (h : FrameHeader) (e : E) → P e → P (call_header cbs h e))
    (payload_keeps : (h : FrameHeader) (chunk : Bytes) (e : E)
      → P e
      → P (call_payload cbs h chunk e).1) where
  abbrev OfTurn : Turn E → Type 0
  OfTurn (again n p e) = P e
  OfTurn (return n p e) = P e

  abbrev pub OfRun : Option (ℕ × FrameParser × E) → Type 0
  OfRun none = Unit
  OfRun (some r) = P r.2

  read_header-kept :
      (p : FrameParser) (e : E) (rest : Bytes) → P e → OfTurn (read_header cbs p e rest)
  unfolding read_header process_header
  read_header-kept p e rest h =
      if_intro OfTurn
        (length (p.header_buffer ++ take (min (9 - length p.header_buffer) (length rest)) rest)
          == 9)
        _ _ (λ _. header_keeps _ e h) (λ _. h)

  after_payload-kept :
      (p : FrameParser) (to_consume consumed : ℕ) (e : E)
      → P e
      → OfTurn (after_payload cbs p to_consume consumed e)
  unfolding after_payload
  after_payload-kept p to_consume consumed e h =
      if_intro OfTurn (p.payload_bytes_read + consumed == p.current_header.length_) _ _ (λ _. h)
        (λ _. if_intro OfTurn (ltb consumed to_consume) _ _ (λ _. h) (λ _. h))

  turn-kept : (p : FrameParser) (e : E) (rest : Bytes) → P e → OfTurn (turn cbs p e rest)
  unfolding turn read_payload
  turn-kept p e rest h = go p.state refl
    where
      go : (s : ParserState) → p.state ≡ s → OfTurn (turn cbs p e rest)
      go reading_header s = rw (s, turn) (read_header-kept p e rest h)
      go reading_payload s = rw (s, turn) (after_payload-kept p _ _ _ (payload_keeps _ _ e h))

  consume_loop-kept :
      (fuel : ℕ) (p : FrameParser) (e : E) (rest : Bytes) (offset : ℕ)
      → P e
      → OfRun (consume_loop cbs fuel p e rest offset)
  unfolding consume_loop
  consume_loop-kept fuel p e [] offset h = unfold consume_loop in h
  consume_loop-kept zero p e (b ∷ rest) offset h = tt
  consume_loop-kept (suc fuel) p e (b ∷ rest) offset h =
      go (consume_loop-kept fuel) (turn cbs p e (b ∷ rest)) (turn-kept p e (b ∷ rest) h)
    where
      go :
          ((p : FrameParser) (e : E) (rest : Bytes) (offset : ℕ)
            → P e
            → OfRun (consume_loop cbs fuel p e rest offset))
          → (t : Turn E) → OfTurn t
          → OfRun (elim t as (λ _. Option (ℕ × FrameParser × E)) [
            | again n p' e' ↦ consume_loop cbs fuel p' e' (drop n (b ∷ rest)) (offset + n)
            | return n p' e' ↦ some (offset + n, p', e')
          ])
      go ih (again n p' e') k = ih p' e' (drop n (b ∷ rest)) (offset + n) k
      go ih (return n p' e') k = k

  pub consume-kept : (p : FrameParser) (e : E) (buf : Bytes) → P e → OfRun (consume cbs p e buf)
  unfolding consume
  consume-kept p e buf h = consume_loop-kept (length buf) p e buf 0 h
