-- ===== src/Hpack/Strings.antt =====
-- The string literals of source/v2/hpack.cpp.
pub mod RoundTrip
use stunning_waddle.Base.{
  ℕ, ◌+◌, ◌/◌, ◌%◌, ◌^◌, Bool, true, false, List, [], ◌∷◌, ◌++◌, Bytes, length, take, drop,
  if◌then◌else◌, ◌==◌, ltb,
}
use stunning_waddle.Hpack.Result.{
  Result, ok, err, ◌>>=◌, string_eof, string_limit, string_incomplete,
}
use stunning_waddle.Hpack.Ints.{encode_int, decode_int}
use stunning_waddle.Hpack.Huffman.{encode_huffman_len, encode_huffman, decode_huffman}

-- `hpack_buffer::encode(std::string_view str, bool use_huffman)`
unfoldable pub encode_string : Bytes → Bytes → Bool → Bytes
encode_string buf str use_huffman =
    if use_huffman
    then encode_int (buf ++ (0x80 ∷ [])) (encode_huffman_len str % 2 ^ 32) 7 ++ encode_huffman str
    else encode_int (buf ++ (0x00 ∷ [])) (length str % 2 ^ 32) 7 ++ str

-- The end of `hpack_decode_string`, behind the length: the string, and the bytes behind it.
unfoldable pub decode_payload : Bool → ℕ → Bytes → ℕ → Result (Bytes × Bytes)
decode_payload huffman str_len rest max_len =
    if ltb max_len str_len
    then err string_limit
    else if ltb (length rest) str_len
    then err string_incomplete
    else if huffman
    then (do s ← decode_huffman (take str_len rest); ok (s, drop str_len rest))
    else ok (take str_len rest, drop str_len rest)

unfoldable pub decode_string : Bytes → ℕ → Result (Bytes × Bytes)
decode_string [] max_len = err string_eof
decode_string (b ∷ span) max_len = do
  (str_len, rest) ← decode_int (b ∷ span) 7 max_len
  decode_payload (b / 128 % 2 == 1) str_len rest max_len
