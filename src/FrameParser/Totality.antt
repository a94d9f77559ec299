-- ===== src/FrameParser/Totality.antt =====
-- The loop of `frame_parser::consume` ends, stays inside its buffer, and keeps the parser's state
-- consistent.
use native.Mathlib.Nat.{zero-add}
use stunning_waddle.Base.{
  ℕ, zero, suc, ◌+◌, ◌-◌, ◌≤◌, ◌<◌, ◌≡◌, refl, [], ◌∷◌, Option, some, length, take, drop, Bytes,
  arith, length-append, length-take, length-drop, min,
}
use stunning_waddle.Frame.{FrameHeader}
use stunning_waddle.FrameParser.Defs.{
  ParserState, reading_header, reading_payload, FrameParser, Callbacks, Turn, again, return,
  call_payload, process_header, read_header, after_payload, read_payload, turn, consume_loop,
  consume,
}

-- `header_pos_` stays below nine, and in the payload state some of the payload is still missing.
abbrev pub StateInv : ParserState → FrameParser → Type 0
StateInv reading_header p = Unit
StateInv reading_payload p = p.payload_bytes_read < p.current_header.length_

pub record IsValid (p : FrameParser) : Type 0 where
  pub header_short : length p.header_buffer < 9
  pub payload_open : StateInv p.state p

-- The documented contract of a payload callback: it takes at most what it is offered.
abbrev pub IsBounded : {E : Type 0} → Callbacks E → Type 0
IsBounded {E} cbs =
    (h : FrameHeader) (chunk : Bytes) (e : E) → (call_payload cbs h chunk e).0 ≤ length chunk

-- A turn on a non-empty rest keeps the state valid, takes no more than there is, and takes a byte
-- at least if the loop goes on.
abbrev pub TurnFits : {E : Type 0} → Bytes → Turn E → Type 0
TurnFits rest (again n p e) = IsValid p × (0 < n) × (n ≤ length rest)
TurnFits rest (return n p e) = IsValid p × (n ≤ length rest)

module _ {E : Type 0} (cbs : Callbacks E) where
  read_header-TurnFits :
      (p : FrameParser) (e : E) (rest : Bytes)
      → length p.header_buffer < 9
      → p.state ≡ reading_header
      → 0 < length rest
      → TurnFits rest (read_header cbs p e rest)
  unfolding read_header process_header
  read_header-TurnFits p e rest h s r = ground (
    arith,
    length-append p.header_buffer (take (min (9 - length p.header_buffer) (length rest)) rest),
    length-take (min (9 - length p.header_buffer) (length rest)) rest,
  )

  after_payload-TurnFits :
      (p : FrameParser) (e : E) (rest : Bytes) (to_consume consumed : ℕ)
      → IsValid p
      → p.state ≡ reading_payload
      → to_consume ≡ min (p.current_header.length_ - p.payload_bytes_read) (length rest)
      → consumed ≤ to_consume
      → 0 < length rest
      → TurnFits rest (after_payload cbs p to_consume consumed e)
  unfolding after_payload
  after_payload-TurnFits p e rest to_consume consumed v s t c r = ground arith

  pub turn-TurnFits :
      (p : FrameParser) (e : E) (rest : Bytes)
      → IsBounded cbs
      → IsValid p
      → 0 < length rest
      → TurnFits rest (turn cbs p e rest)
  unfolding turn read_payload
  turn-TurnFits p e rest b v r = go p.state refl
    where
      go : (s : ParserState) → p.state ≡ s → TurnFits rest (turn cbs p e rest)
      go reading_header s = rw (s, turn) (read_header-TurnFits p e rest v.header_short s r)
      go reading_payload s =
          let n : ℕ = min (p.current_header.length_ - p.payload_bytes_read) (length rest) in
          rw (s, turn)
            (after_payload-TurnFits p _ rest n _ v s refl
              (omega (arith, b p.current_header (take n rest) e, length-take n rest)) r)

-- The outcome of a run of the loop from `offset`: it ends, no further than the end of the buffer,
-- in a valid state.
pub record Ends {E : Type 0} (limit : ℕ) (r : Option (ℕ × FrameParser × E)) : Type 0 where
  pub taken : ℕ
  pub parser : FrameParser
  pub after : E
  pub ends : r ≡ some (taken, parser, after)
  pub within : taken ≤ limit
  pub valid : IsValid parser

module _ {E : Type 0} (cbs : Callbacks E) (bounded : IsBounded cbs) where
  consume_loop-Ends :
      (fuel : ℕ) (p : FrameParser) (e : E) (rest : Bytes) (offset : ℕ)
      → IsValid p
      → length rest ≤ fuel
      → Ends (offset + length rest) (consume_loop cbs fuel p e rest offset)
  unfolding consume_loop
  consume_loop-Ends fuel p e [] offset v h = record {
    taken = offset;
    parser = p;
    after = e;
    ends = unfold consume_loop in refl;
    within = omega arith;
    valid = v;
  }
  consume_loop-Ends zero p e (b ∷ rest) offset v h = absurd (omega arith)
  consume_loop-Ends (suc fuel) p e (b ∷ rest) offset v h =
      go (consume_loop-Ends fuel) (turn cbs p e (b ∷ rest)) refl
        (turn-TurnFits cbs p e (b ∷ rest) bounded v (omega arith))
    where
      widen :
          {limit limit' : ℕ} {r : Option (ℕ × FrameParser × E)}
          → limit ≤ limit'
          → Ends limit r
          → Ends limit' r
      widen le x = record {
        taken = x.taken;
        parser = x.parser;
        after = x.after;
        ends = x.ends;
        within = omega (arith, x.within);
        valid = x.valid;
      }

      go :
          ((p : FrameParser) (e : E) (rest : Bytes) (offset : ℕ)
            → IsValid p
            → length rest ≤ fuel
            → Ends (offset + length rest) (consume_loop cbs fuel p e rest offset))
          → (t : Turn E) → turn cbs p e (b ∷ rest) ≡ t
          → TurnFits (b ∷ rest) t
          → Ends (offset + length (b ∷ rest)) (consume_loop cbs (suc fuel) p e (b ∷ rest) offset)
      go ih (again n p' e') s (v', pos, n_le) =
          let left = length-drop n (b ∷ rest) in
          rw (s, consume_loop)
            (widen (omega (arith, left))
              (ih p' e' (drop n (b ∷ rest)) (offset + n) v' (omega (arith, left))))
      go ih (return n p' e') s (v', n_le) =
          rw (s, consume_loop)
            (record {
              taken = offset + n;
              parser = p';
              after = e';
              ends = refl;
              within = omega arith;
              valid = v';
            })

  -- With a callback that takes at most what it is offered, `consume` returns on every buffer, with
  -- an offset inside it, and leaves a valid parser; no fuel runs out.
  pub consume-Ends :
      (p : FrameParser) (e : E) (buf : Bytes) → IsValid p → Ends (length buf) (consume cbs p e buf)
  unfolding consume
  consume-Ends p e buf v = rw zero-add at (consume_loop-Ends (length buf) p e buf 0 v (omega arith))
