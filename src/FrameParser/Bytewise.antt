-- ===== src/FrameParser/Bytewise.antt =====
-- include/http/v2/frame_parser.h and source/v2/frame_parser.cpp: the frame parser read one byte at
-- a time, for callbacks that act on each byte alone.
use native.Mathlib.Nat.{zero-add}
use stunning_waddle.Base.{
  ℕ, zero, suc, ◌+◌, ◌-◌, ◌≤◌, ◌<◌, ◌≡◌, refl, sym, ap, ◌∙◌, [], ◌∷◌, ◌++◌, some, length, take,
  drop, Bytes, arith, length-append, length-take, length-drop, ◌==◌, min, append_assoc,
  take-append-drop, if◌then◌else◌,
}
use stunning_waddle.Frame.{FrameHeader, parse_header}
use stunning_waddle.FrameParser.Defs.{
  ParserState, reading_header, reading_payload, FrameParser, Callbacks, again, call_header,
  call_payload, process_header, read_header, after_payload, read_payload, turn, consume_loop,
  consume,
}
use stunning_waddle.FrameParser.Totality.{IsValid}

module _ {E : Type 0} where
  -- What a callback that takes every byte does to the client, one byte at a time.
  abbrev pub feed_all : (FrameHeader → ℕ → E → E) → FrameHeader → Bytes → E → E
  feed_all feed h [] e = e
  feed_all feed h (b ∷ bs) e = feed_all feed h bs (feed h b e)

  pub feed_all-append :
      (feed : FrameHeader → ℕ → E → E) (h : FrameHeader) (xs ys : Bytes) (e : E)
      → feed_all feed h (xs ++ ys) e ≡ feed_all feed h ys (feed_all feed h xs e)
  feed_all-append feed h [] ys e = refl
  feed_all-append feed h (x ∷ xs) ys e = feed_all-append feed h xs ys (feed h x e)

-- The callback takes every byte it is offered, and does for each what `feed` says.
abbrev pub TakesAll : {E : Type 0} → Callbacks E → (FrameHeader → ℕ → E → E) → Type 0
TakesAll {E} cbs feed =
    (h : FrameHeader) (chunk : Bytes) (e : E)
    → call_payload cbs h chunk e ≡ (length chunk, feed_all feed h chunk e)

module _ {E : Type 0} (cbs : Callbacks E) (feed : FrameHeader → ℕ → E → E) where
  -- The state that a full header leads to.
  abbrev pub header_done : FrameParser → Bytes → FrameParser
  header_done p buffer =
      let h = parse_header buffer in
      record p {
        state = if h.length_ == 0 then reading_header else reading_payload;
        header_buffer = [];
        current_header = h;
        payload_bytes_read = 0;
      }

  abbrev pub header_byte : FrameParser → E → ℕ → FrameParser × E
  header_byte p e b =
      let buffer = p.header_buffer ++ (b ∷ []) in
      if length buffer == 9
      then (header_done p buffer, call_header cbs (parse_header buffer) e)
      else (record p { header_buffer = buffer }, e)

  abbrev pub payload_byte : FrameParser → E → ℕ → FrameParser × E
  payload_byte p e b =
      let read = p.payload_bytes_read + 1 in
      (
        record p {
          state = if read == p.current_header.length_ then reading_header else reading_payload;
          payload_bytes_read = read;
        },
        feed p.current_header b e,
      )

  -- The machine that looks at one byte.
  unfoldable pub byte_step : FrameParser → E → ℕ → FrameParser × E
  byte_step p e b = elim p.state [
    | reading_header ↦ header_byte p e b
    | reading_payload ↦ payload_byte p e b
  ]

  unfoldable pub byte_run : FrameParser → E → Bytes → FrameParser × E
  byte_run p e [] = (p, e)
  byte_run p e (b ∷ bs) = let (p', e') = byte_step p e b in byte_run p' e' bs

  pub byte_run-append :
      (xs ys : Bytes) (p : FrameParser) (e : E)
      → byte_run p e (xs ++ ys) ≡ byte_run (byte_run p e xs).0 (byte_run p e xs).1 ys
  unfolding byte_run
  byte_run-append [] ys p e = refl
  byte_run-append (x ∷ xs) ys p e = byte_run-append xs ys _ _

  -- A chunk of a header that does not fill it, and one that does.
  pub header_chunk :
      (c : ℕ) (chunk : Bytes) (p : FrameParser) (e : E)
      → p.state ≡ reading_header
      → length p.header_buffer + length (c ∷ chunk) ≤ 9
      → byte_run p e (c ∷ chunk) ≡ (
          if length (p.header_buffer ++ (c ∷ chunk)) == 9
          then (
            header_done p (p.header_buffer ++ (c ∷ chunk)),
            call_header cbs (parse_header (p.header_buffer ++ (c ∷ chunk))) e,
          )
          else (record p { header_buffer = p.header_buffer ++ (c ∷ chunk) }, e))
  unfolding byte_run byte_step
  header_chunk c [] p e s h = rw s
  header_chunk c (d ∷ chunk) p e s h =
      let p' : FrameParser = record p { header_buffer = p.header_buffer ++ (c ∷ []) } in
      ground (
        arith,
        header_chunk d chunk p' e s,
        append_assoc p.header_buffer (c ∷ []) (d ∷ chunk),
        length-append p.header_buffer (c ∷ []),
        length-append p.header_buffer (c ∷ d ∷ chunk),
      )

  pub payload_chunk :
      (c : ℕ) (chunk : Bytes) (p : FrameParser) (e : E)
      → p.state ≡ reading_payload
      → p.payload_bytes_read + length (c ∷ chunk) ≤ p.current_header.length_
      → byte_run p e (c ∷ chunk) ≡ (
        record p {
          state =
              if p.payload_bytes_read + length (c ∷ chunk) == p.current_header.length_
              then reading_header
              else reading_payload;
          payload_bytes_read = p.payload_bytes_read + length (c ∷ chunk);
        },
        feed_all feed p.current_header (c ∷ chunk) e,
      )
  unfolding byte_run byte_step
  payload_chunk c [] p e s h = rw s (ground arith)
  payload_chunk c (d ∷ chunk) p e s h =
      let p' : FrameParser = record p { payload_bytes_read = p.payload_bytes_read + 1 } in
      ground (arith, payload_chunk d chunk p' (feed p.current_header c e) s)

  module _ (takes : TakesAll cbs feed) where
    -- A turn goes on, past the bytes that the machine has read.
    record TurnReads (p : FrameParser) (e : E) (rest : Bytes) : Type 0 where
      n : ℕ
      p' : FrameParser
      e' : E
      turns : turn cbs p e rest ≡ again n p' e'
      reads : byte_run p e (take n rest) ≡ (p', e')
      valid : IsValid p'
      moves : 0 < n
      within : n ≤ length rest

    read_header-TurnReads :
        (p : FrameParser) (e : E) (b : ℕ) (rest : Bytes) (k : ℕ)
        → IsValid p
        → p.state ≡ reading_header
        → min (9 - length p.header_buffer) (length (b ∷ rest)) ≡ suc k
        → TurnReads p e (b ∷ rest)
    unfolding turn read_header process_header
    read_header-TurnReads p e b rest k v s m = record {
      n = suc k;
      p' = (byte_run p e (b ∷ take k rest)).0;
      e' = (byte_run p e (b ∷ take k rest)).1;
      turns = ground (arith, whole, sizes);
      reads = refl;
      valid = ground (arith, whole, sizes);
      moves = omega arith;
      within = omega arith;
    }
      where
        buffer : Bytes
        buffer = p.header_buffer ++ (b ∷ take k rest)

        sizes : length buffer ≡ length p.header_buffer + suc k
        sizes = omega (
          arith,
          length-append p.header_buffer (b ∷ take k rest),
          length-take k rest,
          v.header_short,
        )

        whole : byte_run p e (b ∷ take k rest) ≡ (
            if length buffer == 9
            then (header_done p buffer, call_header cbs (parse_header buffer) e)
            else (record p { header_buffer = buffer }, e))
        whole =
            header_chunk b (take k rest) p e s (omega (arith, length-take k rest, v.header_short))

    read_payload-TurnReads :
        (p : FrameParser) (e : E) (b : ℕ) (rest : Bytes) (k : ℕ)
        → IsValid p
        → p.state ≡ reading_payload
        → min (p.current_header.length_ - p.payload_bytes_read) (length (b ∷ rest)) ≡ suc k
        → TurnReads p e (b ∷ rest)
    unfolding turn read_payload after_payload
    read_payload-TurnReads p e b rest k v s m = record {
      n = suc k;
      p' = (byte_run p e (b ∷ take k rest)).0;
      e' = (byte_run p e (b ∷ take k rest)).1;
      turns = ground (arith, whole, sizes, takes p.current_header (b ∷ take k rest) e);
      reads = refl;
      valid = ground (arith, whole, sizes, inside);
      moves = omega arith;
      within = omega arith;
    }
      where
        inside : p.payload_bytes_read < p.current_header.length_
        inside = rw s at v.payload_open

        sizes : length (take k rest) ≡ k
        sizes = omega (arith, length-take k rest)

        whole : byte_run p e (b ∷ take k rest) ≡ (
          record p {
            state =
                if p.payload_bytes_read + length (b ∷ take k rest) == p.current_header.length_
                then reading_header
                else reading_payload;
            payload_bytes_read = p.payload_bytes_read + length (b ∷ take k rest);
          },
          feed_all feed p.current_header (b ∷ take k rest) e,
        )
        whole = payload_chunk b (take k rest) p e s (omega (arith, sizes))

    turn-TurnReads :
        (p : FrameParser) (e : E) (b : ℕ) (rest : Bytes) → IsValid p → TurnReads p e (b ∷ rest)
    turn-TurnReads p e b rest v = go p.state refl
      where
        go : (s : ParserState) → p.state ≡ s → TurnReads p e (b ∷ rest)
        go reading_header s =
            read_header-TurnReads p e b rest
              (min (9 - length p.header_buffer) (length (b ∷ rest)) - 1) v s
              (omega (arith, v.header_short))
        go reading_payload s =
            let inside : p.payload_bytes_read < p.current_header.length_ = rw s at v.payload_open in
            read_payload-TurnReads p e b rest
              (min (p.current_header.length_ - p.payload_bytes_read) (length (b ∷ rest)) - 1) v s
              (omega arith)

    consume_loop-byte_run :
        (fuel : ℕ) (p : FrameParser) (e : E) (rest : Bytes) (offset : ℕ)
        → IsValid p
        → length rest ≤ fuel
        → consume_loop cbs fuel p e rest offset
          ≡ some (offset + length rest, (byte_run p e rest).0, (byte_run p e rest).1)
    unfolding consume_loop
    consume_loop-byte_run fuel p e [] offset v h = unfold byte_run in ground arith
    consume_loop-byte_run zero p e (b ∷ rest) offset v h = absurd (omega arith)
    consume_loop-byte_run (suc fuel) p e (b ∷ rest) offset v h =
        let t = turn-TurnReads p e b rest v in
        let left = length-drop t.n (b ∷ rest) in
        let split : byte_run p e (b ∷ rest) ≡ byte_run t.p' t.e' (drop t.n (b ∷ rest)) =
          ap (byte_run p e) (sym (take-append-drop t.n (b ∷ rest)))
          ∙ byte_run-append (take t.n (b ∷ rest)) (drop t.n (b ∷ rest)) p e
          ∙ ap (λ q. byte_run q.0 q.1 (drop t.n (b ∷ rest))) t.reads in
        let later =
          consume_loop-byte_run fuel t.p' t.e' (drop t.n (b ∷ rest)) (offset + t.n) t.valid
            (omega (arith, left, t.moves)) in
        let sum : offset + t.n + length (drop t.n (b ∷ rest)) ≡ offset + length (b ∷ rest) =
          omega (arith, left, t.within) in
        rw (t.turns, consume_loop) (later ∙ cc (split, sum))

    -- For a callback that takes every byte and acts on each alone, the loop does what the machine
    -- does, and takes the whole buffer.
    pub consume-byte_run :
        (p : FrameParser) (e : E) (buf : Bytes)
        → IsValid p
        → consume cbs p e buf ≡ some (length buf, (byte_run p e buf).0, (byte_run p e buf).1)
    unfolding consume
    consume-byte_run p e buf v =
        rw zero-add at (consume_loop-byte_run (length buf) p e buf 0 v (omega arith))
