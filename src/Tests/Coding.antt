-- ===== src/Tests/Coding.antt =====
-- source/v2/hpack*.cpp, frame*.cpp and headers.cpp on concrete input.
use stunning_waddle.Base.{◌≡◌, refl, lt_wf, false, [], ◌∷◌, ◌++◌, Bytes, codes, All, arith}
use native.Mathlib.Decide.{dec_le}
use stunning_waddle.Headers.{Header, Headers}
use stunning_waddle.Hpack.Result.{ok, err, int_overflow}
use stunning_waddle.Hpack.Ints.{encode_int, or_back, continuation, decode_int}
use stunning_waddle.Hpack.Ints.RoundTrip.{
  prefix_int, indexed-IsFlag, decode_int-prefix_int, decode_int_too_large,
}
use stunning_waddle.Hpack.Huffman.{encode_huffman, decode_huffman}
use stunning_waddle.Hpack.Huffman.RoundTrip.{decode_huffman-encode_huffman}
use stunning_waddle.Hpack.Strings.{decode_string}
use stunning_waddle.Hpack.Strings.RoundTrip.{
  FitsString, string_literal, decode_string-string_literal,
}
use stunning_waddle.Hpack.Context.{HpackContext, encode, decode, evict_until_size}
use stunning_waddle.Hpack.Context.Table.{IsValid, Evicted, evict_until_size-Evicted}
use stunning_waddle.Hpack.Context.RoundTrip.{FitsField, decode-encode}

abbrev accept : Header
accept = record { name = codes "accept"; value = codes "*/*" }

abbrev agent : Header
agent = record { name = codes "user-agent"; value = codes "bench" }

abbrev two_fields : Headers
two_fields = accept ∷ agent ∷ []

-- A table with two entries, of 41 and 47 bytes.
abbrev table : HpackContext
table = record {
  dynamic_table = agent ∷ accept ∷ [];
  max_table_size = 4096;
  current_table_size = 88;
}

table-IsValid : IsValid table
table-IsValid = record {
  counted = refl;
  within = omega arith;
  max_fits = omega arith;
  small = (omega arith, (omega arith, tt));
}

encode_int_example : encode_int (0x00 ∷ []) 1337 5 ≡ 31 ∷ 154 ∷ 10 ∷ []
unfolding encode_int or_back continuation lt_wf dec_le
encode_int_example = refl

decode_int-prefix_int_example :
    decode_int (prefix_int 0x80 7 1337 ++ (5 ∷ [])) 7 65536 ≡ ok (1337, 5 ∷ [])
decode_int-prefix_int_example =
    decode_int-prefix_int 0x80 7 1337 65536 (5 ∷ []) indexed-IsFlag (omega arith) (omega arith)
      (omega arith)

decode_int_too_large_example :
    decode_int (prefix_int 0x80 7 0xFFFF_FFFF ++ []) 7 0xFFFF_FFFF ≡ err int_overflow
decode_int_too_large_example =
    decode_int_too_large 0x80 7 0xFFFF_FFFF [] indexed-IsFlag (omega arith) (omega arith)

decode_huffman-encode_huffman_example :
    decode_huffman (encode_huffman (97 ∷ 0 ∷ 255 ∷ [])) ≡ ok (97 ∷ 0 ∷ 255 ∷ [])
decode_huffman-encode_huffman_example =
    decode_huffman-encode_huffman (97 ∷ 0 ∷ 255 ∷ [])
      (omega arith, (omega arith, (omega arith, tt)))

fits_plain : FitsString false 65536 (97 ∷ 98 ∷ [])
fits_plain = record { are_bytes = (omega arith, (omega arith, tt)); within = omega arith }

decode_string-string_literal_example :
    decode_string (string_literal (97 ∷ 98 ∷ []) false ++ (7 ∷ [])) 65536
    ≡ ok (97 ∷ 98 ∷ [], 7 ∷ [])
decode_string-string_literal_example =
    decode_string-string_literal false (97 ∷ 98 ∷ []) (7 ∷ []) 65536 fits_plain (omega arith)

evict_until_size-Evicted_example :
    Evicted 50 table.dynamic_table
      (evict_until_size table 50).dynamic_table
      (evict_until_size table 50).current_table_size
evict_until_size-Evicted_example = evict_until_size-Evicted table 50 table-IsValid

plain_fields : All (FitsField false) two_fields
plain_fields = (
  record { name_fits = fits_accept; value_fits = fits_any; small = omega arith },
  (record { name_fits = fits_agent; value_fits = fits_bench; small = omega arith }, tt),
)
  where
    fits_accept : FitsString false 65536 accept.name
    fits_accept = record { are_bytes = ground arith; within = omega arith }

    fits_any : FitsString false 65536 accept.value
    fits_any = record { are_bytes = ground arith; within = omega arith }

    fits_agent : FitsString false 65536 agent.name
    fits_agent = record { are_bytes = ground arith; within = omega arith }

    fits_bench : FitsString false 65536 agent.value
    fits_bench = record { are_bytes = ground arith; within = omega arith }

decode-encode_example :
    (block : Bytes) × (c' : HpackContext) × (encode table [] two_fields false ≡ ([] ++ block, c'))
    × (decode table block ≡ ok (c', two_fields))
    × IsValid c'
decode-encode_example = decode-encode false table [] two_fields table-IsValid plain_fields
