-- ===== src/Hpack/Context/RoundTrip.antt =====
-- A decoder in the state of the encoder reads back the fields that were encoded, and ends in the
-- encoder's new state.
use stunning_waddle.Base.{
  ℕ, zero, suc, ◌+◌, ◌^◌, ◌≤◌, ◌<◌, ◌≡◌, ◌∙◌, Bool, [], ◌∷◌, ◌++◌, some, none, min, Bytes, length,
  All, arith, append_assoc, append-nil, length-append, Option-cases, inl, inr,
}
use stunning_waddle.Headers.{Header, Headers}
use stunning_waddle.Hpack.Result.{Result, ok}
use stunning_waddle.Hpack.Ints.{decode_int}
use stunning_waddle.Hpack.Ints.RoundTrip.{
  prefix_int, encode_int-prefix_int, decode_int-prefix_int, prefix_int_head, indexed-IsFlag,
  literal-IsFlag,
}
use stunning_waddle.Hpack.Strings.RoundTrip.{
  string_literal, encode_string-string_literal, decode_string-string_literal, FitsString,
}
use stunning_waddle.Hpack.Context.{
  HpackContext, get_header, find_exact_match, find_name_match, add_to_dynamic_table,
  encode_header_indexed, encode_header_literal_inc_index_indexed_name,
  encode_header_literal_inc_index_new_name, encode_header, encode, decode_name, decode_literal,
  decode_field, decode_loop, decode,
}
use stunning_waddle.Hpack.Context.Table.{IsValid, IsSmall, add_to_dynamic_table-IsValid}
use stunning_waddle.Hpack.Context.Lookup.{get_header-find_exact_match, get_header-find_name_match}

-- A field whose strings the decoder's limit admits, with a size that 32 bits hold.
pub record FitsField (use_huffman : Bool) (h : Header) : Type 0 where
  pub name_fits : FitsString use_huffman 65536 h.name
  pub value_fits : FitsString use_huffman 65536 h.value
  pub small : IsSmall h

-- A first byte with its flag, on a whole prefix integer.
decode_indexed :
    (c : HpackContext) (index : ℕ) (h : Header) (rest : Bytes)
    → index < 2 ^ 28
    → get_header c index ≡ ok h
    → (b : ℕ) × (span : Bytes) × (prefix_int 0x80 7 index ++ rest ≡ b ∷ span)
      × (decode_field c b (b ∷ span) ≡ ok (c, h ∷ [], rest))
      × (length rest ≤ length span)
unfolding decode_field
decode_indexed c index h rest small found =
    let (tail, head) = prefix_int_head 0x80 7 index indexed-IsFlag in
    let int =
      decode_int-prefix_int 0x80 7 index 0xFFFF_FFFF rest indexed-IsFlag (omega arith) (omega arith)
        (omega arith) in
    let int' : decode_int ((128 + min index 127) ∷ (tail ++ rest)) 7 0xFFFF_FFFF
        ≡ ok (index, rest) =
      rw head at int in
    (
      128 + min index 127,
      tail ++ rest,
      rw head,
      ground (arith, int', found),
      omega (arith, length-append tail rest),
    )

decode_literal_field :
    (c : HpackContext) (index : ℕ) (h : Header) (body rest : Bytes)
    → index < 2 ^ 28
    → decode_literal c index (body ++ rest) ≡ ok (h, rest)
    → (b : ℕ) × (span : Bytes) × ((prefix_int 0x40 6 index ++ body) ++ rest ≡ b ∷ span)
      × (decode_field c b (b ∷ span) ≡ ok (add_to_dynamic_table c h, h ∷ [], rest))
      × (length rest ≤ length span)
unfolding decode_field
decode_literal_field c index h body rest small found =
    let (tail, head) = prefix_int_head 0x40 6 index literal-IsFlag in
    let int =
      decode_int-prefix_int 0x40 6 index 0xFFFF_FFFF (body ++ rest) literal-IsFlag (omega arith)
        (omega arith) (omega arith) in
    let int' : decode_int ((64 + min index 63) ∷ (tail ++ (body ++ rest))) 6 0xFFFF_FFFF
        ≡ ok (index, body ++ rest) =
      rw head at int in
    (
      64 + min index 63,
      tail ++ (body ++ rest),
      rw (append_assoc, head),
      ground (arith, int', found),
      omega (arith, length-append tail (body ++ rest), length-append body rest),
    )

-- One turn of the decoder's loop on a field, and then the rest of it.
decode_loop_step :
    (fuel : ℕ) (c c' : HpackContext) (b : ℕ) (span rest : Bytes) (before added : Headers)
    {r : Result (HpackContext × Headers)}
    → length (b ∷ span) ≤ fuel
    → decode_field c b (b ∷ span) ≡ ok (c', added, rest)
    → length rest ≤ length span
    → ((fuel' : ℕ) → length rest ≤ fuel' → decode_loop fuel' c' rest (before ++ added) ≡ r)
    → decode_loop fuel c (b ∷ span) before ≡ r
unfolding decode_loop
decode_loop_step zero c c' b span rest before added n field shorter later = absurd (omega arith)
decode_loop_step (suc fuel) c c' b span rest before added n field shorter later =
    rw field (later fuel (omega arith))

module _ (use_huffman : Bool) where
  -- The bytes of one field.
  pub field_bytes : HpackContext → Header → Bytes
  field_bytes c h = elim (find_exact_match c h) [
    | some index ↦ prefix_int 0x80 7 index
    | none ↦ elim (find_name_match c h.name) [
      | some index ↦ prefix_int 0x40 6 index ++ string_literal h.value use_huffman
      | none ↦
          prefix_int 0x40 6 0
          ++ (string_literal h.name use_huffman ++ string_literal h.value use_huffman)
    ]
  ]

  -- The encoder's context behind it.
  pub field_context : HpackContext → Header → HpackContext
  field_context c h = elim (find_exact_match c h) [
    | some index ↦ c
    | none ↦ add_to_dynamic_table c h
  ]

  literal_inc_index_indexed_name-eq :
      (buf : Bytes) (index : ℕ) (value : Bytes)
      → FitsString use_huffman 65536 value
      → encode_header_literal_inc_index_indexed_name buf index value use_huffman
        ≡ buf ++ (prefix_int 0x40 6 index ++ string_literal value use_huffman)
  unfolding encode_header_literal_inc_index_indexed_name
  literal_inc_index_indexed_name-eq buf index value f =
      rw (encode_int-prefix_int buf 0x40 6 index) (
        encode_string-string_literal (buf ++ prefix_int 0x40 6 index) value use_huffman f
        ∙ append_assoc buf _ _)

  literal_inc_index_new_name-eq :
      (buf name value : Bytes)
      → FitsString use_huffman 65536 name
      → FitsString use_huffman 65536 value
      → encode_header_literal_inc_index_new_name buf name value use_huffman use_huffman
        ≡ buf
          ++ (prefix_int 0x40 6 0
              ++ (string_literal name use_huffman ++ string_literal value use_huffman))
  unfolding encode_header_literal_inc_index_new_name
  literal_inc_index_new_name-eq buf name value f g =
      rw
        (
          encode_int-prefix_int buf 0x40 6 0,
          encode_string-string_literal (buf ++ prefix_int 0x40 6 0) name use_huffman f,
        )
        (encode_string-string_literal _ value use_huffman g ∙ simp append_assoc)

  encode_header-eq :
      (c : HpackContext) (buf : Bytes) (h : Header)
      → FitsField use_huffman h
      → encode_header c buf h use_huffman ≡ (buf ++ field_bytes c h, field_context c h)
  unfolding encode_header field_bytes field_context encode_header_indexed
  encode_header-eq c buf h f = elim (Option-cases (find_exact_match c h)) [
    | inr (index, e) ↦
        rw (e, encode_header, field_bytes, field_context)
          (rw (encode_int-prefix_int buf 0x80 7 index))
    | inl e ↦ elim (Option-cases (find_name_match c h.name)) [
      | inr (index, n) ↦
          rw (e, encode_header, field_bytes, field_context)
            (rw n (rw (literal_inc_index_indexed_name-eq buf index h.value f.value_fits)))
      | inl n ↦
          rw (e, encode_header, field_bytes, field_context)
            (rw n (rw (literal_inc_index_new_name-eq buf h.name h.value f.name_fits f.value_fits)))
    ]
  ]

  decode_literal_named :
      (c : HpackContext) (index : ℕ) (entry h : Header) (rest : Bytes)
      → 1 ≤ index
      → get_header c index ≡ ok entry
      → entry.name ≡ h.name
      → FitsString use_huffman 65536 h.value
      → decode_literal c index (string_literal h.value use_huffman ++ rest) ≡ ok (h, rest)
  unfolding decode_literal decode_name
  decode_literal_named c index entry h rest pos found same f =
      ground (arith, decode_string-string_literal use_huffman h.value rest 65536 f (omega arith))

  decode_literal_new :
      (c : HpackContext) (h : Header) (rest : Bytes)
      → FitsField use_huffman h
      → decode_literal c 0
          ((string_literal h.name use_huffman ++ string_literal h.value use_huffman) ++ rest)
        ≡ ok (h, rest)
  unfolding decode_literal decode_name
  decode_literal_new c h rest f = rw append_assoc (
      ground (
        arith,
        decode_string-string_literal use_huffman h.name (string_literal h.value use_huffman ++ rest)
            65536 f.name_fits (omega arith),
        decode_string-string_literal use_huffman h.value rest 65536 f.value_fits (omega arith),
      ))

  -- One field, read back with the context that the encoder goes on with.
  decode_field-field_bytes :
      (c : HpackContext) (h : Header) (rest : Bytes)
      → IsValid c
      → FitsField use_huffman h
      → (b : ℕ) × (span : Bytes) × (field_bytes c h ++ rest ≡ b ∷ span)
        × (decode_field c b (b ∷ span) ≡ ok (field_context c h, h ∷ [], rest))
        × (length rest ≤ length span)
  unfolding field_bytes field_context
  decode_field-field_bytes c h rest v f = elim (Option-cases (find_exact_match c h)) [
    | inr (index, e) ↦
        let (found, pos, small) = get_header-find_exact_match c h index v e in
        rw (e, field_bytes, field_context) (decode_indexed c index h rest small found)
    | inl e ↦ elim (Option-cases (find_name_match c h.name)) [
      | inr (index, n) ↦
          let (entry, found, same, pos, small) = get_header-find_name_match c h.name index v n in
          rw (e, field_bytes, field_context)
            (rw n (
              decode_literal_field c index h (string_literal h.value use_huffman) rest small
                (decode_literal_named c index entry h rest pos found same f.value_fits)))
      | inl n ↦
          rw (e, field_bytes, field_context)
            (rw n (
              decode_literal_field c 0 h
                (string_literal h.name use_huffman ++ string_literal h.value use_huffman) rest
                (omega arith) (decode_literal_new c h rest f)))
    ]
  ]

  field_context-IsValid :
      (c : HpackContext) (h : Header)
      → IsValid c
      → FitsField use_huffman h
      → IsValid (field_context c h)
  unfolding field_context
  field_context-IsValid c h v f = elim (Option-cases (find_exact_match c h)) [
    | inr (index, e) ↦ rw (e, field_context) v
    | inl e ↦ rw (e, field_context) (add_to_dynamic_table-IsValid c h v f.small)
  ]

  -- All fields.
  pub block_bytes : HpackContext → Headers → Bytes
  block_bytes c [] = []
  block_bytes c (h ∷ headers) = field_bytes c h ++ block_bytes (field_context c h) headers

  pub block_context : HpackContext → Headers → HpackContext
  block_context c [] = c
  block_context c (h ∷ headers) = block_context (field_context c h) headers

  pub encode-eq :
      (c : HpackContext) (buf : Bytes) (headers : Headers)
      → All (FitsField use_huffman) headers
      → encode c buf headers use_huffman ≡ (buf ++ block_bytes c headers, block_context c headers)
  unfolding encode block_bytes block_context
  encode-eq c buf [] f = rw append-nil
  encode-eq c buf (h ∷ headers) (fh, f) =
      rw (encode_header-eq c buf h fh)
        (encode-eq (field_context c h) (buf ++ field_bytes c h) headers f ∙ rw append_assoc)

  decode_loop-block_bytes :
      (headers : Headers) (fuel : ℕ) (c : HpackContext) (before : Headers)
      → length (block_bytes c headers) ≤ fuel
      → IsValid c
      → All (FitsField use_huffman) headers
      → decode_loop fuel c (block_bytes c headers) before
        ≡ ok (block_context c headers, before ++ headers)
  unfolding block_bytes block_context decode_loop
  decode_loop-block_bytes [] fuel c before n v f = rw append-nil
  decode_loop-block_bytes (h ∷ headers) fuel c before n v (fh, f) =
      let c' = field_context c h in
      let (b, span, bytes, field, shorter) =
        decode_field-field_bytes c h (block_bytes c' headers) v fh in
      rw bytes (
        decode_loop_step fuel c c' b span (block_bytes c' headers) before (h ∷ []) (rw bytes at n)
          field shorter
          (λ fuel' le.
            decode_loop-block_bytes headers fuel' c' (before ++ (h ∷ [])) le
              (field_context-IsValid c h v fh) f
            ∙ rw append_assoc))

  block_context-IsValid :
      (headers : Headers) (c : HpackContext)
      → IsValid c
      → All (FitsField use_huffman) headers
      → IsValid (block_context c headers)
  unfolding block_context
  block_context-IsValid [] c v f = v
  block_context-IsValid (h ∷ headers) c v (fh, f) =
      block_context-IsValid headers (field_context c h) (field_context-IsValid c h v fh) f

  -- Encoder and decoder in step: from one context, which may have any entries in its table, the
  -- decoder reads the block that `encode` appended to a buffer as the fields that were encoded,
  -- throws nothing, and both end with the same context, which is valid again.
  pub decode-encode :
      (c : HpackContext) (buf : Bytes) (headers : Headers)
      → IsValid c
      → All (FitsField use_huffman) headers
      → (block : Bytes) × (c' : HpackContext) × (encode c buf headers use_huffman
          ≡ (buf ++ block, c'))
        × (decode c block ≡ ok (c', headers))
        × IsValid c'
  unfolding decode
  decode-encode c buf headers v f = (
    block_bytes c headers,
    block_context c headers,
    encode-eq c buf headers f,
    decode_loop-block_bytes headers (length (block_bytes c headers)) c [] (omega arith) v f,
    block_context-IsValid headers c v f,
  )
