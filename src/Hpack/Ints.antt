-- ===== src/Hpack/Ints.antt =====
-- The prefix integers of source/v2/hpack.cpp. A span with an `offset` into it is the list of the
-- bytes from the offset on, and a decoder returns the bytes that it has not taken.
pub mod RoundTrip
use mathlib.Core.Logic.{dite}
use mathlib.Core.WellFounded.{Acc}
use native.Mathlib.Decide.{dec_le}
use stunning_waddle.Base.{
  ℕ, ◌+◌, ◌-◌, ◌*◌, ◌/◌, ◌%◌, ◌^◌, ◌≤◌, ◌<◌, List, [], ◌∷◌, ◌++◌, Bytes, if◌then◌else◌, ◌==◌, ltb,
  leb, ◌&&◌, ◌||◌, bit_or, arith, lt_wf,
}
use stunning_waddle.Hpack.Result.{Result, ok, err, int_eof, int_overflow, int_limit, int_incomplete}

-- `back() |= v`. The buffer is never empty there: a flag byte has just been pushed.
unfoldable pub or_back : Bytes → ℕ → Bytes
or_back [] v = []
or_back (x ∷ []) v = bit_or x v ∷ []
or_back (x ∷ y ∷ rest) v = x ∷ or_back (y ∷ rest) v

pub shift_shrinks : (val : ℕ) → 128 ≤ val → val / 128 < val
shift_shrinks val h = omega arith

-- The bytes that `while (val >= 128) …` and the line behind it push.
unfoldable pub continuation : (val : ℕ) → Acc ◌<◌ val → Bytes
continuation val (Acc.intro _ smaller) =
    dite (dec_le 128 val)
      (λ more. (val % 128 + 128) ∷ continuation (val / 128) (smaller _ (shift_shrinks val more)))
      (λ _. val ∷ [])

-- `hpack_buffer::encode(uint32_t val, uint8_t prefix_bits)`
unfoldable pub encode_int : Bytes → ℕ → ℕ → Bytes
encode_int buf val prefix_bits =
    let mask = 2 ^ prefix_bits - 1 in
    if ltb val mask
    then or_back buf val
    else or_back buf mask ++ continuation (val - mask) (lt_wf.apply (val - mask))

-- The loop of `hpack_decode_int`, with its 32-bit variables `val` and `m`.
unfoldable pub decode_int_loop : Bytes → ℕ → ℕ → ℕ → Result (ℕ × Bytes)
decode_int_loop [] val m max_val = err int_incomplete
decode_int_loop (b ∷ rest) val m max_val =
    let chunk = b % 128 in
    let add = chunk * 2 ^ m % 2 ^ 32 in
    let val' = (val + add) % 2 ^ 32 in
    let more = decode_int_loop rest val' (m + 7) max_val in
    if leb 31 m || (m == 28 && ltb 7 chunk)
    then err int_overflow
    else if ltb max_val add || ltb (max_val - add) val
    then err int_limit
    else if b / 128 % 2 == 0
    then ok (val', rest)
    else more

unfoldable pub decode_int : Bytes → ℕ → ℕ → Result (ℕ × Bytes)
decode_int [] prefix_bits max_val = err int_eof
decode_int (b ∷ rest) prefix_bits max_val =
    let mask = 2 ^ prefix_bits - 1 in
    let val = b % 2 ^ prefix_bits in
    if ltb val mask then ok (val, rest) else decode_int_loop rest val 0 max_val
