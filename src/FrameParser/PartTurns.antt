-- ===== src/FrameParser/PartTurns.antt =====
-- source/v2/frame_parser.cpp: one turn of `frame_parser::consume` on a part of what it wants.
use native.Mathlib.Nat.{zero-add}
use stunning_waddle.Base.{
  ℕ, zero, suc, ◌+◌, ◌-◌, ◌≤◌, ◌<◌, ◌≡◌, refl, sym, ap, ◌∙◌, Bool, true, false, Bool-cases, ltb→lt,
  ◌⊎◌, inl, inr, [], ◌∷◌, ◌++◌, length, take, drop, Bytes, arith, length-append, min, append_assoc,
  take-all, ltb, if◌then◌else◌, ◌==◌,
}
use stunning_waddle.FrameParser.Defs.{
  ParserState, reading_header, reading_payload, FrameParser, Callbacks, again, return, call_payload,
  process_header, read_header, after_payload, read_payload, turn,
}
use stunning_waddle.FrameParser.Totality.{IsValid, IsBounded}

-- The bytes that a turn wants.
abbrev pub wanted : FrameParser → ℕ
wanted p = elim p.state [
  | reading_header ↦ 9 - length p.header_buffer
  | reading_payload ↦ p.current_header.length_ - p.payload_bytes_read
]

pub take-more : (n : ℕ) (xs ys : Bytes) → n ≤ length xs → take n (xs ++ ys) ≡ take n xs
take-more zero xs ys h = refl
take-more (suc n) [] ys h = absurd (omega arith)
take-more (suc n) (x ∷ xs) ys h = ap (λ l. x ∷ l) (take-more n xs ys (omega arith))

pub drop-more : (n : ℕ) (xs ys : Bytes) → n ≤ length xs → drop n (xs ++ ys) ≡ drop n xs ++ ys
drop-more zero xs ys h = refl
drop-more (suc n) [] ys h = absurd (omega arith)
drop-more (suc n) (x ∷ xs) ys h = drop-more n xs ys (omega arith)

pub take-past : (n : ℕ) (xs ys : Bytes) → take (length xs + n) (xs ++ ys) ≡ xs ++ take n ys
take-past n [] ys = ap (λ m. take m ys) (zero-add n)
take-past n (x ∷ xs) ys =
    let next : length (x ∷ xs) + n ≡ suc (length xs + n) = omega arith in
    ap (λ m. take m (x ∷ (xs ++ ys))) next ∙ ap (λ l. x ∷ l) (take-past n xs ys)

pub drop-past : (n : ℕ) (xs ys : Bytes) → drop (length xs + n) (xs ++ ys) ≡ drop n ys
drop-past n [] ys = ap (λ m. drop m ys) (zero-add n)
drop-past n (x ∷ xs) ys =
    let next : length (x ∷ xs) + n ≡ suc (length xs + n) = omega arith in
    ap (λ m. drop m (x ∷ (xs ++ ys))) next ∙ drop-past n xs ys

module _ {E : Type 0} (cbs : Callbacks E) (bounded : IsBounded cbs) where
  -- What a turn wants lies before the cut.
  pub turn-same :
      (p : FrameParser) (e : E) (xs ys : Bytes)
      → wanted p ≤ length xs
      → turn cbs p e (xs ++ ys) ≡ turn cbs p e xs
  unfolding turn read_header read_payload
  turn-same p e xs ys h = go p.state refl
    where
      whole :
          (n : ℕ)
          → n ≤ length xs
          → take (min n (length (xs ++ ys))) (xs ++ ys) ≡ take (min n (length xs)) xs
      whole n k =
          ap (λ m. take m (xs ++ ys)) (omega (arith, length-append xs ys))
          ∙ take-more (min n (length xs)) xs ys (omega arith)

      size : (n : ℕ) → n ≤ length xs → min n (length (xs ++ ys)) ≡ min n (length xs)
      size n k = omega (arith, length-append xs ys)

      go : (s : ParserState) → p.state ≡ s → turn cbs p e (xs ++ ys) ≡ turn cbs p e xs
      go reading_header s =
          let k : 9 - length p.header_buffer ≤ length xs = rw s at h in
          rw (s, turn)
            (rw
              (
                whole (9 - length p.header_buffer) k,
                size (9 - length p.header_buffer) k,
                read_header,
              )
              refl)
      go reading_payload s =
          let n = p.current_header.length_ - p.payload_bytes_read in
          let k : n ≤ length xs = rw s at h in
          rw (s, turn) (rw (whole n k, size n k, read_payload) refl)

  -- A turn that ends the loop has left bytes.
  pub return-short :
      (p p' : FrameParser) (e e' : E) (n : ℕ) (rest : Bytes)
      → turn cbs p e rest ≡ return n p' e'
      → n < length rest
  unfolding turn read_header read_payload process_header after_payload
  return-short p p' e e' n rest h = go p.state refl
    where
      go : (s : ParserState) → p.state ≡ s → n < length rest
      go reading_header s = ground (arith, h)
      go reading_payload s = ground (arith, h)

  -- A header that is not filled yet.
  pub part_header :
      (p : FrameParser) (e : E) (xs : Bytes)
      → IsValid p
      → p.state ≡ reading_header
      → length xs < 9 - length p.header_buffer
      → turn cbs p e xs ≡ again (length xs) (record p { header_buffer = p.header_buffer ++ xs }) e
  unfolding turn read_header
  part_header p e xs v s h =
      let whole : take (min (9 - length p.header_buffer) (length xs)) xs ≡ xs =
        take-all (min (9 - length p.header_buffer) (length xs)) xs (omega arith) in
      grind (arith, whole, length-append p.header_buffer xs)

  -- It is filled as well in one turn over both pieces.
  pub resumed_header :
      (p : FrameParser) (e : E) (xs ys : Bytes) (n : ℕ) (p' : FrameParser) (e' : E)
      → p.state ≡ reading_header
      → length xs < 9 - length p.header_buffer
      → turn cbs (record p { header_buffer = p.header_buffer ++ xs }) e ys ≡ again n p' e'
      → turn cbs p e (xs ++ ys) ≡ again (length xs + n) p' e'
  unfolding turn read_header process_header
  resumed_header p e xs ys n p' e' s h t =
      let q : FrameParser = record p { header_buffer = p.header_buffer ++ xs } in
      let m = min (9 - length q.header_buffer) (length ys) in
      let size : min (9 - length p.header_buffer) (length (xs ++ ys)) ≡ length xs + m =
        omega (arith, length-append xs ys, length-append p.header_buffer xs) in
      let buffer : p.header_buffer ++ take (length xs + m) (xs ++ ys)
          ≡ q.header_buffer ++ take m ys =
        ap (λ l. p.header_buffer ++ l) (take-past m xs ys)
        ∙ sym (append_assoc p.header_buffer xs (take m ys)) in
      rw (s, turn)
        (rw (size, buffer, read_header)
          (go (length (q.header_buffer ++ take m ys) == 9) m (q.header_buffer ++ take m ys)
            (rw (s, turn) at t)))
    where
      go :
          (full : Bool) (m : ℕ) (buffer : Bytes)
          → (if full
              then process_header cbs
                  (record p { header_buffer = p.header_buffer ++ xs })
                  buffer
                  e
                  m
              else again m (record p { header_buffer = buffer }) e)
            ≡ again n p' e'
          → (if full
              then process_header cbs p buffer e (length xs + m)
              else again (length xs + m) (record p { header_buffer = buffer }) e)
            ≡ again (length xs + n) p' e'
      go true m buffer t = grind arith
      go false m buffer t = grind arith

  -- A payload of which more is missing: the loop ends in it, or has left bytes.
  pub part_payload :
      (p : FrameParser) (e : E) (xs : Bytes)
      → p.state ≡ reading_payload
      → length xs < p.current_header.length_ - p.payload_bytes_read
      → ((n : ℕ) × (p' : FrameParser) × (e' : E) × (turn cbs p e xs ≡ return n p' e')
          × (n < length xs))
        ⊎ ((p' : FrameParser) × (e' : E) × (turn cbs p e xs ≡ again (length xs) p' e')
            × (p'.state ≡ reading_payload))
  unfolding turn read_payload after_payload
  part_payload p e xs s h =
      let to_read = min (p.current_header.length_ - p.payload_bytes_read) (length xs) in
      let whole : take to_read xs ≡ xs = take-all to_read xs (omega arith) in
      let size : to_read ≡ length xs = omega arith in
      let called = call_payload cbs p.current_header xs e in
      let most : called.0 ≤ length xs = bounded p.current_header xs e in
      rw (s, turn)
        (rw (whole, size, read_payload)
          (go called.0 called.1 most (Bool-cases (ltb called.0 (length xs)))))
    where
      go :
          (c : ℕ) (e' : E)
          → c ≤ length xs
          → (ltb c (length xs) ≡ true) ⊎ (ltb c (length xs) ≡ false)
          → let t = after_payload cbs p (length xs) c e' in
            ((n : ℕ) × (p' : FrameParser) × (e'' : E) × (t ≡ return n p' e'') × (n < length xs))
            ⊎ ((p' : FrameParser) × (e'' : E) × (t ≡ again (length xs) p' e'')
                × (p'.state ≡ reading_payload))
      go c e' le (inl short) = inl (
        c,
        record p { payload_bytes_read = p.payload_bytes_read + c },
        e',
        ground (arith, short),
        omega (arith, ltb→lt c (length xs) short),
      )
      go c e' le (inr all) =
          inr
            (record p { payload_bytes_read = p.payload_bytes_read + c }, e', ground (arith, all), s)

  pub header_again :
      (p : FrameParser) (e : E) (rest : Bytes)
      → p.state ≡ reading_header
      → (n : ℕ) × (p' : FrameParser) × (e' : E) × (turn cbs p e rest ≡ again n p' e')
  unfolding turn read_header process_header
  header_again p e rest s =
      let n = min (9 - length p.header_buffer) (length rest) in
      rw (s, turn)
        (go (length (p.header_buffer ++ take n rest) == 9) n (p.header_buffer ++ take n rest))
    where
      go :
          (full : Bool) (n : ℕ) (buffer : Bytes)
          → (m : ℕ) × (p' : FrameParser) × (e' : E) × ((if full
                then process_header cbs p buffer e n
                else again n (record p { header_buffer = buffer }) e)
              ≡ again m p' e')
      go true n buffer = (n, _, _, refl)
      go false n buffer = (n, _, _, refl)

  pub part-IsValid :
      (p : FrameParser) (xs : Bytes)
      → IsValid p
      → p.state ≡ reading_header
      → length xs < 9 - length p.header_buffer
      → IsValid (record p { header_buffer = p.header_buffer ++ xs })
  part-IsValid p xs v s h = record {
    header_short = omega (arith, length-append p.header_buffer xs);
    payload_open = rw s tt;
  }
