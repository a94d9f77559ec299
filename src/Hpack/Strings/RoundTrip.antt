-- ===== src/Hpack/Strings/RoundTrip.antt =====
-- `hpack_decode_string` reads back what `hpack_buffer::encode` wrote.
use stunning_waddle.Base.{
  ℕ, ◌+◌, ◌/◌, ◌%◌, ◌^◌, ◌≤◌, ◌<◌, ◌≡◌, ◌∙◌, Bool, true, false, ◌∷◌, ◌++◌, Bytes, AreBytes, length,
  length-append, take-length-append, drop-length-append, if◌then◌else◌, ◌==◌, append_assoc, arith,
  min,
}
use stunning_waddle.Hpack.Result.{ok}
use stunning_waddle.Hpack.Ints.{decode_int}
use stunning_waddle.Hpack.Ints.RoundTrip.{
  prefix_int, encode_int-prefix_int, decode_int-prefix_int, IsFlag, indexed-IsFlag,
  plain_string-IsFlag, prefix_int_head,
}
use stunning_waddle.Hpack.Huffman.{encode_huffman_len, encode_huffman}
use stunning_waddle.Hpack.Huffman.RoundTrip.{decode_huffman-encode_huffman, length-encode_huffman}
use stunning_waddle.Hpack.Strings.{encode_string, decode_payload, decode_string}

-- The bytes between the length and the end.
abbrev pub payload : Bytes → Bool → Bytes
payload str use_huffman = if use_huffman then encode_huffman str else str

abbrev pub string_flag : Bool → ℕ
string_flag use_huffman = if use_huffman then 0x80 else 0x00

-- A string that the decoder's limit admits.
pub record FitsString (use_huffman : Bool) (max_len : ℕ) (str : Bytes) : Type 0 where
  pub are_bytes : AreBytes str
  pub within : length (payload str use_huffman) ≤ max_len

pub string_literal : Bytes → Bool → Bytes
string_literal str use_huffman =
    prefix_int (string_flag use_huffman) 7 (length (payload str use_huffman))
    ++ payload str use_huffman

pub encode_string-string_literal :
    (buf str : Bytes) (use_huffman : Bool)
    → FitsString use_huffman 65536 str
    → encode_string buf str use_huffman ≡ buf ++ string_literal str use_huffman
unfolding encode_string string_literal
encode_string-string_literal buf str true f =
    let n : encode_huffman_len str % 2 ^ 32 ≡ length (encode_huffman str) =
      omega (arith, length-encode_huffman str f.are_bytes, f.within) in
    rw (n, encode_int-prefix_int buf 0x80 7 (length (encode_huffman str))) (append_assoc buf _ _)
encode_string-string_literal buf str false f =
    let n : length str % 2 ^ 32 ≡ length str = omega (arith, f.within) in
    rw (n, encode_int-prefix_int buf 0x00 7 (length str)) (append_assoc buf _ _)

decode_payload-payload :
    (use_huffman : Bool) (str rest : Bytes) (max_len : ℕ)
    → FitsString use_huffman max_len str
    → decode_payload use_huffman
        (length (payload str use_huffman))
        (payload str use_huffman ++ rest)
        max_len
      ≡ ok (str, rest)
unfolding decode_payload
decode_payload-payload true str rest max_len f = ground (
  arith,
  length-append (encode_huffman str) rest,
  take-length-append (encode_huffman str) rest,
  drop-length-append (encode_huffman str) rest,
  decode_huffman-encode_huffman str f.are_bytes,
  f.within,
)
decode_payload-payload false str rest max_len f = ground (
  arith,
  length-append str rest,
  take-length-append str rest,
  drop-length-append str rest,
  f.within,
)

string_flag-IsFlag : (use_huffman : Bool) → IsFlag (string_flag use_huffman) 7
string_flag-IsFlag true = indexed-IsFlag
string_flag-IsFlag false = plain_string-IsFlag

-- The flag bit is read off the first byte.
flag_bit :
    (use_huffman : Bool) (v : ℕ)
    → v < 128
    → ((string_flag use_huffman + v) / 128 % 2 == 1) ≡ use_huffman
flag_bit true v h = ground arith
flag_bit false v h = ground arith

decode_string_step :
    (use_huffman : Bool) (b n : ℕ) (span rest : Bytes) (max_len : ℕ)
    → (b / 128 % 2 == 1) ≡ use_huffman
    → decode_int (b ∷ span) 7 max_len ≡ ok (n, rest)
    → decode_string (b ∷ span) max_len ≡ decode_payload use_huffman n rest max_len
unfolding decode_string
decode_string_step use_huffman b n span rest max_len flag int = rw int (rw flag)

-- A string whose payload is within the decoder's limit is read back, Huffman coded or plain, and
-- what follows it is left.
pub decode_string-string_literal :
    (use_huffman : Bool) (str rest : Bytes) (max_len : ℕ)
    → FitsString use_huffman max_len str
    → max_len < 2 ^ 31
    → decode_string (string_literal str use_huffman ++ rest) max_len ≡ ok (str, rest)
unfolding string_literal
decode_string-string_literal use_huffman str rest max_len f cap =
    let body : Bytes = payload str use_huffman in
    let n : ℕ = length body in
    let (tail, head) =
      prefix_int_head (string_flag use_huffman) 7 n (string_flag-IsFlag use_huffman) in
    let int =
      decode_int-prefix_int (string_flag use_huffman) 7 n max_len (body ++ rest)
        (string_flag-IsFlag use_huffman) (omega (arith, f.within)) f.within (omega arith) in
    rw (append_assoc (prefix_int (string_flag use_huffman) 7 n) body rest, head)
      (decode_string_step use_huffman _ n (tail ++ (body ++ rest)) (body ++ rest) max_len
          (flag_bit use_huffman (min n 127) (omega arith)) (rw head at int)
        ∙ decode_payload-payload use_huffman str rest max_len f)
