-- ===== src/Hpack/Ints/RoundTrip.antt =====
-- `hpack_decode_int` reads back what `hpack_buffer::encode` wrote.
use mathlib.Core.WellFounded.{Acc}
use native.Mathlib.Nat.{div-add-mod, pow-suc}
use native.Mathlib.Numerals.{towards_suc}
use stunning_waddle.Base.{
  ℕ, zero, suc, ◌+◌, ◌-◌, ◌*◌, ◌/◌, ◌%◌, ◌^◌, ◌≤◌, ◌<◌, ◌≡◌, refl, ap, [], ◌∷◌, ◌++◌, Bytes, arith,
  lt_wf, append_assoc, min, bit_or, bit_or-0x80, bit_or-0x40, bit_or-0x20, bit_or-0x10, bit_or-0x00,
}
use stunning_waddle.Hpack.Result.{ok, err, int_overflow}
use stunning_waddle.Hpack.Ints.{or_back, continuation, encode_int, decode_int_loop, decode_int}

shift_seven : (m : ℕ) → 2 ^ (m + 7) ≡ 128 * 2 ^ m
shift_seven m = simp towards_suc (omega arith)

-- What is still to be read, split into its lowest seven bits and the rest.
split_chunk : (w m : ℕ) → w * 2 ^ m ≡ w % 128 * 2 ^ m + w / 128 * 2 ^ (m + 7)
split_chunk w m = omega (
  arith,
  ap (λ (t : ℕ). t * 2 ^ m) (div-add-mod w 128),
  ap (λ (t : ℕ). w / 128 * t) (shift_seven m),
)

-- One round of the loop on a last byte, and on a byte that says that more follow.
last_chunk :
    (w acc m max_val : ℕ) (rest : Bytes)
    → w < 128
    → m ≤ 28
    → (m ≡ 28 → w ≤ 7)
    → acc + w * 2 ^ m ≤ max_val
    → max_val < 2 ^ 32
    → decode_int_loop (w ∷ rest) acc m max_val ≡ ok (acc + w * 2 ^ m, rest)
unfolding decode_int_loop
last_chunk w acc m max_val rest hw hm top fits cap = ground arith

inner_chunk :
    (g acc m max_val : ℕ) (rest : Bytes)
    → g < 128
    → m < 28
    → acc + g * 2 ^ m ≤ max_val
    → max_val < 2 ^ 32
    → decode_int_loop ((g + 128) ∷ rest) acc m max_val
      ≡ decode_int_loop rest (acc + g * 2 ^ m) (m + 7) max_val
unfolding decode_int_loop
inner_chunk g acc m max_val rest hg hm fits cap = ground arith

-- `k` bytes follow at most before the one at shift 28, which holds three bits.
decode_int_loop-continuation :
    (k w acc m max_val : ℕ) (a : Acc ◌<◌ w) (rest : Bytes)
    → m + 7 * k ≡ 28
    → w < 8 * 128 ^ k
    → acc + w * 2 ^ m ≤ max_val
    → max_val < 2 ^ 32
    → decode_int_loop (continuation w a ++ rest) acc m max_val ≡ ok (acc + w * 2 ^ m, rest)
unfolding continuation
decode_int_loop-continuation zero w acc m max_val (Acc.intro _ smaller) rest hm hw fits cap =
    ground (arith, last_chunk w acc m max_val rest)
decode_int_loop-continuation (suc k) w acc m max_val (Acc.intro _ smaller) rest hm hw fits cap =
    grind (
      arith,
      last_chunk w acc m max_val rest,
      split_chunk w m,
      λ (a : Acc ◌<◌ (w / 128)).
          inner_chunk (w % 128) acc m max_val (continuation (w / 128) a ++ rest),
      λ (a : Acc ◌<◌ (w / 128)).
          decode_int_loop-continuation k (w / 128) (acc + w % 128 * 2 ^ m) (m + 7) max_val a rest
            (omega arith),
    )

or_back-concat : (buf : Bytes) (x v : ℕ) → or_back (buf ++ (x ∷ [])) v ≡ buf ++ (bit_or x v ∷ [])
unfolding or_back
or_back-concat [] x v = refl
or_back-concat (b ∷ []) x v = refl
or_back-concat (b ∷ c ∷ buf) x v = ap (◌∷◌ b) (or_back-concat (c ∷ buf) x v)

-- A flag byte over `bits` free low bits.
pub record IsFlag (flag bits : ℕ) : Type 0 where
  pub bits_le : bits ≤ 7
  pub mask_pos : 0 < 2 ^ bits - 1
  pub or_add : (v : ℕ) → v < 2 ^ bits → bit_or flag v ≡ flag + v
  pub low : (v : ℕ) → v < 2 ^ bits → (flag + v) % 2 ^ bits ≡ v

pub indexed-IsFlag : IsFlag 0x80 7
indexed-IsFlag = record {
  bits_le = omega arith;
  mask_pos = omega arith;
  or_add = bit_or-0x80;
  low = λ v h. omega arith;
}

pub literal-IsFlag : IsFlag 0x40 6
literal-IsFlag = record {
  bits_le = omega arith;
  mask_pos = omega arith;
  or_add = bit_or-0x40;
  low = λ v h. omega arith;
}

pub size_update-IsFlag : IsFlag 0x20 5
size_update-IsFlag = record {
  bits_le = omega arith;
  mask_pos = omega arith;
  or_add = bit_or-0x20;
  low = λ v h. omega arith;
}

pub never_index-IsFlag : IsFlag 0x10 4
never_index-IsFlag = record {
  bits_le = omega arith;
  mask_pos = omega arith;
  or_add = bit_or-0x10;
  low = λ v h. omega arith;
}

pub no_index-IsFlag : IsFlag 0x00 4
no_index-IsFlag = record {
  bits_le = omega arith;
  mask_pos = omega arith;
  or_add = λ v h. omega (arith, bit_or-0x00 v (omega arith));
  low = λ v h. omega arith;
}

pub plain_string-IsFlag : IsFlag 0x00 7
plain_string-IsFlag = record {
  bits_le = omega arith;
  mask_pos = omega arith;
  or_add = λ v h. omega (arith, bit_or-0x00 v (omega arith));
  low = λ v h. omega arith;
}

-- The bytes that `encode` makes of a flag byte.
pub prefix_int : ℕ → ℕ → ℕ → Bytes
prefix_int flag bits val = encode_int (flag ∷ []) val bits

pub encode_int-prefix_int :
    (buf : Bytes) (flag bits val : ℕ)
    → encode_int (buf ++ (flag ∷ [])) val bits ≡ buf ++ prefix_int flag bits val
unfolding encode_int prefix_int
encode_int-prefix_int buf flag bits val = ground (
  arith,
  or_back-concat buf flag val,
  or_back-concat [] flag val,
  or_back-concat buf flag (2 ^ bits - 1),
  or_back-concat [] flag (2 ^ bits - 1),
  append_assoc buf (bit_or flag (2 ^ bits - 1) ∷ [])
      (continuation (val - (2 ^ bits - 1)) (lt_wf.apply (val - (2 ^ bits - 1)))),
)

-- What the encoder writes, the decoder reads back, as long as the part above the prefix fits 31
-- bits and the value is within the limit; what follows is left.
pub decode_int-prefix_int :
    (flag bits val max_val : ℕ) (rest : Bytes)
    → IsFlag flag bits
    → val < 2 ^ 31 + (2 ^ bits - 1)
    → val ≤ max_val
    → max_val < 2 ^ 32
    → decode_int (prefix_int flag bits val ++ rest) bits max_val ≡ ok (val, rest)
unfolding prefix_int encode_int decode_int or_back
decode_int-prefix_int flag bits val max_val rest f small fits cap = ground (
  arith,
  f.mask_pos,
  f.or_add val,
  f.low val,
  f.or_add (2 ^ bits - 1),
  f.low (2 ^ bits - 1),
  decode_int_loop-continuation 4 (val - (2 ^ bits - 1)) (2 ^ bits - 1) 0 max_val
      (lt_wf.apply (val - (2 ^ bits - 1))) rest,
)

top_chunk :
    (b acc max_val : ℕ) (rest : Bytes)
    → 7 < b % 128
    → decode_int_loop (b ∷ rest) acc 28 max_val ≡ err int_overflow
unfolding decode_int_loop
top_chunk b acc max_val rest h = ground arith

pow_pos : (k : ℕ) → 1 ≤ 128 ^ k
pow_pos zero = omega arith
pow_pos (suc k) = omega (arith, pow-suc 128 k, pow_pos k)

-- At shift 28 a chunk with more than three bits is refused, whatever the limit.
decode_int_loop_too_large :
    (k w acc m : ℕ) (a : Acc ◌<◌ w) (rest : Bytes)
    → m + 7 * k ≡ 28
    → 8 * 128 ^ k ≤ w
    → acc + w * 2 ^ m < 2 ^ 32
    → decode_int_loop (continuation w a ++ rest) acc m 0xFFFF_FFFF ≡ err int_overflow
unfolding continuation
decode_int_loop_too_large zero w acc m (Acc.intro _ smaller) rest hm hw fits =
    let at_top : m ≡ 28 = omega arith in
    let small : w < 128 = omega (arith, rw at_top at fits) in
    rw at_top (ground (arith, top_chunk w acc 0xFFFF_FFFF rest))
decode_int_loop_too_large (suc k) w acc m (Acc.intro _ smaller) rest hm hw fits = grind (
  arith,
  split_chunk w m,
  pow-suc 128 k,
  pow_pos k,
  λ (a : Acc ◌<◌ (w / 128)).
      inner_chunk (w % 128) acc m 0xFFFF_FFFF (continuation (w / 128) a ++ rest),
  λ (a : Acc ◌<◌ (w / 128)).
      decode_int_loop_too_large k (w / 128) (acc + w % 128 * 2 ^ m) (m + 7) a rest (omega arith),
)

-- The decoder refuses every 32-bit value whose part above the prefix needs bit 31, although the
-- encoder writes it and the limit passed is the largest 32-bit value, under any flag byte.
pub decode_int_too_large :
    (flag bits val : ℕ) (rest : Bytes)
    → IsFlag flag bits
    → 2 ^ 31 + (2 ^ bits - 1) ≤ val
    → val < 2 ^ 32
    → decode_int (prefix_int flag bits val ++ rest) bits 0xFFFF_FFFF ≡ err int_overflow
unfolding prefix_int encode_int decode_int or_back
decode_int_too_large flag bits val rest f large fits = ground (
  arith,
  f.mask_pos,
  f.or_add (2 ^ bits - 1),
  f.low (2 ^ bits - 1),
  decode_int_loop_too_large 4 (val - (2 ^ bits - 1)) (2 ^ bits - 1) 0
      (lt_wf.apply (val - (2 ^ bits - 1))) rest,
)

tail_of : Bytes → Bytes
tail_of [] = []
tail_of (b ∷ rest) = rest

-- The first byte holds the flag and as much of the value as fits below it.
pub prefix_int_head :
    (flag bits val : ℕ)
    → IsFlag flag bits
    → (tail : Bytes) × (prefix_int flag bits val ≡ (flag + min val (2 ^ bits - 1)) ∷ tail)
unfolding prefix_int encode_int or_back tail_of
prefix_int_head flag bits val f = (
  tail_of (prefix_int flag bits val),
  ground (arith, f.mask_pos, f.or_add val, f.or_add (2 ^ bits - 1)),
)
