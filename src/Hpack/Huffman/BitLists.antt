-- ===== src/Hpack/Huffman/BitLists.antt =====
-- Words as lists of bits, most significant first, for the proofs about the Huffman coding.
use native.Mathlib.Nat.{pow-suc}
use stunning_waddle.Base.{
  ℕ, zero, suc, ◌+◌, ◌*◌, ◌/◌, ◌%◌, ◌^◌, ◌<◌, ◌≡◌, refl, ap, Bool, true, List, [], ◌∷◌, ◌++◌, arith,
  append_assoc, append-nil, Bytes, ◌==◌, sym,
}

-- The lowest `n` bits of `v`.
abbrev pub bits : ℕ → ℕ → List Bool
bits zero v = []
bits (suc n) v = bits n (v / 2) ++ ((v % 2 == 1) ∷ [])

abbrev pub byte_bits : Bytes → List Bool
byte_bits [] = []
byte_bits (b ∷ bs) = bits 8 b ++ byte_bits bs

abbrev pub ones : ℕ → List Bool
ones zero = []
ones (suc n) = true ∷ ones n

-- Higher bits make no difference.
pub bits-add-mul : (n d q v : ℕ) → bits n (v + q * 2 ^ (n + d)) ≡ bits n v
bits-add-mul zero d q v = refl
bits-add-mul (suc n) d q v =
    let wide : 2 ^ (suc n + d) ≡ 2 ^ (n + d) * 2 =
      let e : suc n + d ≡ suc (n + d) = omega arith in rw e (pow-suc 2 (n + d)) in
    let double : q * 2 ^ (suc n + d) ≡ q * 2 ^ (n + d) * 2 =
      omega (arith, ap (λ (t : ℕ). q * t) wide) in
    let half : (v + q * 2 ^ (suc n + d)) / 2 ≡ v / 2 + q * 2 ^ (n + d) = omega (arith, double) in
    let low : (v + q * 2 ^ (suc n + d)) % 2 ≡ v % 2 = omega (arith, double) in
    rw (half, low) (rw (bits-add-mul n d q (v / 2)))

-- A word joined from two.
pub bits-append : (m n a b : ℕ) → b < 2 ^ n → bits (m + n) (a * 2 ^ n + b) ≡ bits m a ++ bits n b
bits-append m zero a b h =
    let e : m + zero ≡ m = omega arith in
    let v : a * 2 ^ 0 + b ≡ a = omega arith in rw (e, v) (sym (append-nil (bits m a)))
bits-append m (suc n) a b h =
    let e : m + suc n ≡ suc (m + n) = omega arith in
    let wide : a * 2 ^ suc n ≡ a * 2 ^ n * 2 = omega (arith, ap (λ (t : ℕ). a * t) (pow-suc 2 n)) in
    let half : (a * 2 ^ suc n + b) / 2 ≡ a * 2 ^ n + b / 2 = omega (arith, wide) in
    let low : (a * 2 ^ suc n + b) % 2 ≡ b % 2 = omega (arith, wide) in
    rw (e, half, low)
      (rw (bits-append m n a (b / 2) (omega (arith, pow-suc 2 n)))
        (append_assoc (bits m a) (bits n (b / 2)) ((b % 2 == 1) ∷ [])))

pub byte_bits-append : (xs ys : Bytes) → byte_bits (xs ++ ys) ≡ byte_bits xs ++ byte_bits ys
byte_bits-append [] ys = refl
byte_bits-append (x ∷ xs) ys =
    rw (byte_bits-append xs ys) (sym (append_assoc (bits 8 x) (byte_bits xs) (byte_bits ys)))
