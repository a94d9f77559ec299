-- ===== src/Hpack/Huffman/Encode.antt =====
-- `encode_huffman` writes the codes of its string, one after the other, and then ones up to a whole
-- byte.
use native.Mathlib.Nat.{div-add-mod, mod-lt, pow-suc, lt-mul-div-succ}
use stunning_waddle.Base.{
  ℕ, zero, suc, ◌+◌, ◌-◌, ◌*◌, ◌/◌, ◌%◌, ◌^◌, ◌≤◌, ◌<◌, ◌≡◌, refl, ap, ◌∙◌, Bool, true, List, [],
  ◌∷◌, ◌++◌, arith, append_assoc, append-nil, Bytes, sym, AreBytes, ltb, lt→ltb,
}
use stunning_waddle.Base.{agree_below, agree_below→eq}
use stunning_waddle.Hpack.Huffman.BitLists.{
  bits, byte_bits, ones, bits-add-mul, bits-append, byte_bits-append,
}
use stunning_waddle.Hpack.Huffman.{entry_of, drain, pad_byte, encode_huffman_loop, encode_huffman}

two_pow_pos : (n : ℕ) → 0 < 2 ^ n
two_pow_pos zero = omega arith
two_pow_pos (suc n) = omega (arith, pow-suc 2 n, two_pow_pos n)

-- The lowest `n` bits do not see the rest of the word.
bits-mod : (n v : ℕ) → bits n (v % 2 ^ n) ≡ bits n v
bits-mod n v =
    let whole : v % 2 ^ n + v / 2 ^ n * 2 ^ (n + 0) ≡ v =
      let e : n + 0 ≡ n = omega arith in rw e (omega (arith, div-add-mod v (2 ^ n))) in
    sym (bits-add-mul n 0 (v / 2 ^ n) (v % 2 ^ n)) ∙ ap (bits n) whole

-- A byte cut off at the top.
bits-byte : (n v : ℕ) → bits (8 + n) v ≡ bits 8 (v / 2 ^ n % 256) ++ bits n v
bits-byte n v =
    let whole : v / 2 ^ n * 2 ^ n + v % 2 ^ n ≡ v = omega (arith, div-add-mod v (2 ^ n)) in
    ap (bits (8 + n)) (sym whole)
    ∙ bits-append 8 n (v / 2 ^ n) (v % 2 ^ n) (mod-lt v (two_pow_pos n))
    ∙ ap (λ t. bits 8 (v / 2 ^ n) ++ t) (bits-mod n v)
    ∙ ap (λ t. t ++ bits n v) (sym (bits-mod 8 (v / 2 ^ n)))

drain-bits :
    (bit_buf bit_count : ℕ)
    → byte_bits (drain bit_buf bit_count).0 ++ bits (drain bit_buf bit_count).1 bit_buf
      ≡ bits bit_count bit_buf
unfolding drain
drain-bits bit_buf (suc (suc (suc (suc (suc (suc (suc (suc bit_count)))))))) =
    let top : List Bool = bits 8 (bit_buf / 2 ^ bit_count % 256) in
    let e : 8 + bit_count ≡ suc (suc (suc (suc (suc (suc (suc (suc bit_count))))))) = omega arith in
    append_assoc top (byte_bits (drain bit_buf bit_count).0) _
    ∙ ap (λ t. top ++ t) (drain-bits bit_buf bit_count)
    ∙ sym (bits-byte bit_count bit_buf)
    ∙ ap (λ t. bits t bit_buf) e
drain-bits bit_buf _ = refl

drain-lt : (bit_buf bit_count : ℕ) → (drain bit_buf bit_count).1 < 8
unfolding drain
drain-lt bit_buf (suc (suc (suc (suc (suc (suc (suc (suc bit_count)))))))) =
    drain-lt bit_buf bit_count
drain-lt bit_buf _ = omega arith

-- The first bits of EOS are ones.
eos_ones : (k : ℕ) → k < 8 → (entry_of 256).code / 2 ^ ((entry_of 256).len - k) ≡ 2 ^ k - 1
unfolding entry_of agree_below
eos_ones = agree_below→eq _ _ 8 refl

bits-ones : (k : ℕ) → bits k (2 ^ k - 1) ≡ ones k
bits-ones zero = refl
bits-ones (suc k) =
    let half : (2 ^ suc k - 1) / 2 ≡ 2 ^ k - 1 = omega (arith, pow-suc 2 k, two_pow_pos k) in
    let low : (2 ^ suc k - 1) % 2 ≡ 1 = omega (arith, pow-suc 2 k, two_pow_pos k) in
    rw (half, low) (rw (bits-ones k) (ones_concat k))
  where
    ones_concat : (k : ℕ) → ones k ++ (true ∷ []) ≡ true ∷ ones k
    ones_concat zero = refl
    ones_concat (suc k) = ap (λ t. true ∷ t) (ones_concat k)

-- Bits that a word of 64 has no room for are not among its lowest `n`.
bits-mod-64 : (n v w : ℕ) → n ≤ 64 → bits n (v % 2 ^ 64 + w) ≡ bits n (v + w)
bits-mod-64 n v w h =
    let wide : n + (64 - n) ≡ 64 = omega arith in
    let whole : v % 2 ^ 64 + w + v / 2 ^ 64 * 2 ^ (n + (64 - n)) ≡ v + w = rw wide (omega arith) in
    sym (bits-add-mul n (64 - n) (v / 2 ^ 64) (v % 2 ^ 64 + w)) ∙ ap (bits n) whole

pad_byte-bits :
    (bit_buf bit_count : ℕ)
    → bit_count < 8
    → (k : ℕ) × (k < 8)
      × (byte_bits (pad_byte bit_buf bit_count) ≡ bits bit_count bit_buf ++ ones k)
unfolding pad_byte
pad_byte-bits bit_buf zero h = (0, omega arith, refl)
pad_byte-bits bit_buf (suc n) h =
    let k : ℕ = 8 - suc n in
    let sum : suc n + k ≡ 8 = omega arith in
    let tail : ℕ = (entry_of 256).code / 2 ^ ((entry_of 256).len - k) in
    let tail_is : tail ≡ 2 ^ k - 1 = eos_ones k (omega arith) in
    let tested : ltb 0 (suc n) ≡ true = lt→ltb 0 (suc n) (omega arith) in
    (
      k,
      omega arith,
      rw tested (
          append-nil (bits 8 ((bit_buf * 2 ^ k % 2 ^ 64 + tail) % 256))
          ∙ bits-mod 8 (bit_buf * 2 ^ k % 2 ^ 64 + tail)
          ∙ bits-mod-64 8 (bit_buf * 2 ^ k) tail (omega arith)
          ∙ ap (λ t. bits 8 (bit_buf * 2 ^ k + t)) tail_is
          ∙ ap (λ t. bits t (bit_buf * 2 ^ k + (2 ^ k - 1))) (sym sum)
          ∙ bits-append (suc n) k bit_buf (2 ^ k - 1) (omega (arith, two_pow_pos k))
          ∙ ap (λ t. bits (suc n) bit_buf ++ t) (bits-ones k)),
    )

-- The codes of the table fit their lengths, and the lengths fit the 64-bit buffer.
code_fits : (c : ℕ) → c < 256 → (entry_of c).code / 2 ^ (entry_of c).len ≡ 0
unfolding entry_of agree_below
code_fits = agree_below→eq _ _ 256 refl

len_fits : (c : ℕ) → c < 256 → (entry_of c).len / 31 ≡ 0
unfolding entry_of agree_below
len_fits = agree_below→eq _ _ 256 refl

-- The code of a byte, and of a string.
abbrev pub code_bits : ℕ → List Bool
code_bits c = bits (entry_of c).len (entry_of c).code

abbrev pub str_bits : Bytes → List Bool
str_bits [] = []
str_bits (c ∷ str) = code_bits c ++ str_bits str

lt_of_div_zero : (a b : ℕ) → 0 < b → a / b ≡ 0 → a < b
lt_of_div_zero a b pos h = omega (arith, rw h at (lt-mul-div-succ a pos))

encode_huffman_loop-bits :
    (str : Bytes) (bit_buf bit_count : ℕ)
    → AreBytes str
    → bit_count < 8
    → (k : ℕ) × (k < 8)
      × (byte_bits (encode_huffman_loop str bit_buf bit_count)
          ≡ bits bit_count bit_buf ++ (str_bits str ++ ones k))
unfolding encode_huffman_loop
encode_huffman_loop-bits [] bit_buf bit_count h small = pad_byte-bits bit_buf bit_count small
encode_huffman_loop-bits (c ∷ str) bit_buf bit_count (hc, hs) small =
    let len : ℕ = (entry_of c).len in
    let code : ℕ = (entry_of c).code in
    let buf : ℕ = bit_buf * 2 ^ len % 2 ^ 64 + code in
    let total : ℕ = bit_count + len in
    let short : len ≤ 30 = omega (arith, len_fits c hc) in
    let fits : code < 2 ^ len = lt_of_div_zero code (2 ^ len) (two_pow_pos len) (code_fits c hc) in
    let (k, hk, rest) =
      encode_huffman_loop-bits str buf (drain buf total).1 hs (drain-lt buf total) in
    let joined : bits total buf ≡ bits bit_count bit_buf ++ code_bits c =
      bits-mod-64 total (bit_buf * 2 ^ len) code (omega arith)
      ∙ bits-append bit_count len bit_buf code fits in
    (
      k,
      hk,
      byte_bits-append (drain buf total).0 _
          ∙ ap (λ t. byte_bits (drain buf total).0 ++ t) rest
          ∙ sym (append_assoc (byte_bits (drain buf total).0) _ _)
          ∙ ap (λ t. t ++ (str_bits str ++ ones k)) (drain-bits buf total ∙ joined)
          ∙ append_assoc (bits bit_count bit_buf) (code_bits c) _
          ∙ ap (λ t. bits bit_count bit_buf ++ t)
              (sym (append_assoc (code_bits c) (str_bits str) (ones k))),
    )

-- The bits written are the codes of the string in order, then fewer than eight ones.
pub encode_huffman-bits :
    (str : Bytes)
    → AreBytes str
    → (k : ℕ) × (k < 8) × (byte_bits (encode_huffman str) ≡ str_bits str ++ ones k)
unfolding encode_huffman
encode_huffman-bits str h = encode_huffman_loop-bits str 0 0 h (omega arith)
