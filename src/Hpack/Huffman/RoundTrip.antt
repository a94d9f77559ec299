-- ===== src/Hpack/Huffman/RoundTrip.antt =====
-- `hpack_decode_huffman` reads back what `encode_huffman` wrote.
use stunning_waddle.Base.{
  ℕ, zero, suc, length-append, ◌%◌, ◌*◌, ◌/◌, ◌≡◌, refl, ap, ◌∙◌, List, [], ◌∷◌, ◌++◌, arith,
  append_assoc, append-nil, Bytes, sym, AreBytes, length, if◌then◌else◌, ◌==◌,
}
use stunning_waddle.Hpack.Result.{ok, ◌>>=◌}
use stunning_waddle.Hpack.Huffman.BitLists.{bits, byte_bits, ones}
use stunning_waddle.Hpack.Huffman.Encode.{code_bits, str_bits, encode_huffman-bits}
use stunning_waddle.Hpack.Huffman.Decode.{
  walk, walk-append, walk_push, decode_bytes-walk, walk-code_bits, padding_accepted,
  padding_ok→PadsFrom,
}
use stunning_waddle.Hpack.Huffman.{
  HuffmanNode, check_padding, decode_bytes, build_hpack_huffman_tree, entry_of, code_length,
  encode_huffman_len, decode_huffman_in, decode_huffman, encode_huffman,
}

walk-str_bits :
    (str result : Bytes)
    → AreBytes str
    → walk build_hpack_huffman_tree (str_bits str) 0 result ≡ ok (0, result ++ str)
walk-str_bits [] result h = unfold walk in rw append-nil
walk-str_bits (c ∷ str) result (hc, hs) =
    walk-append build_hpack_huffman_tree (code_bits c) (str_bits str) 0 result
    ∙ ap (λ r. r >>= λ s. walk build_hpack_huffman_tree (str_bits str) s.0 s.1) one
    ∙ walk-str_bits str (result ++ (c ∷ [])) hs
    ∙ rw append_assoc
  where
    one : walk build_hpack_huffman_tree (code_bits c) 0 result ≡ ok (0, result ++ (c ∷ []))
    one =
        ap (walk build_hpack_huffman_tree (code_bits c) 0) (sym (append-nil result))
        ∙ walk_push build_hpack_huffman_tree (code_bits c) 0 result []
        ∙ rw (walk-code_bits c hc)

decode_huffman_in-ok :
    (tree : List HuffmanNode) (span : Bytes) (node : ℕ) (str : Bytes)
    → decode_bytes tree span 0 [] ≡ ok (node, str)
    → (if node == 0 then ok tt else check_padding tree (length tree) node) ≡ ok tt
    → decode_huffman_in tree span ≡ ok str
unfolding decode_huffman_in
decode_huffman_in-ok tree span node str h padded = rw h (rw padded)

-- Decoding what was encoded gives the string back, for every string of bytes: no exception, and
-- the padding is accepted.
pub decode_huffman-encode_huffman :
    (str : Bytes) → AreBytes str → decode_huffman (encode_huffman str) ≡ ok str
unfolding decode_huffman
decode_huffman-encode_huffman str h =
    let tree = build_hpack_huffman_tree in
    let (k, hk, written) = encode_huffman-bits str h in
    let pad = padding_ok→PadsFrom tree k (padding_accepted k hk) in
    let walked : walk tree (str_bits str ++ ones k) 0 [] ≡ ok (pad.node, str) =
      walk-append tree (str_bits str) (ones k) 0 []
      ∙ ap (λ r. r >>= λ s. walk tree (ones k) s.0 s.1) (walk-str_bits str [] h)
      ∙ ap (walk tree (ones k) 0) (sym (append-nil str))
      ∙ walk_push tree (ones k) 0 str []
      ∙ rw (pad.walks, append-nil) in
    let bits_read : decode_bytes tree (encode_huffman str) 0 [] ≡ ok (pad.node, str) =
      decode_bytes-walk tree (encode_huffman str) 0 []
      ∙ ap (λ t. walk tree t 0 []) written
      ∙ walked in
    decode_huffman_in-ok tree (encode_huffman str) pad.node str bits_read pad.padded

length-byte_bits : (bs : Bytes) → length (byte_bits bs) ≡ 8 * length bs
length-byte_bits [] = refl
length-byte_bits (b ∷ bs) = omega (arith, length-byte_bits bs)

length-bits : (n v : ℕ) → length (bits n v) ≡ n
length-bits zero v = refl
length-bits (suc n) v =
    omega (arith, length-append (bits n (v / 2)) ((v % 2 == 1) ∷ []), length-bits n (v / 2))

length-str_bits : (str : Bytes) → length (str_bits str) ≡ code_length str
unfolding code_length
length-str_bits [] = refl
length-str_bits (c ∷ str) = omega (
  arith,
  length-append (code_bits c) (str_bits str),
  length-bits (entry_of c).len (entry_of c).code,
  length-str_bits str,
)

length-ones : (k : ℕ) → length (ones k) ≡ k
length-ones zero = refl
length-ones (suc k) = ap suc (length-ones k)

-- The length announced before the string is the number of bytes written.
pub length-encode_huffman :
    (str : Bytes) → AreBytes str → length (encode_huffman str) ≡ encode_huffman_len str
unfolding encode_huffman_len
length-encode_huffman str h =
    let (k, hk, written) = encode_huffman-bits str h in
    omega (
      arith,
      length-byte_bits (encode_huffman str),
      ap length written,
      length-append (str_bits str) (ones k),
      length-str_bits str,
      length-ones k,
    )
