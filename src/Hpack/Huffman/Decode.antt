-- ===== src/Hpack/Huffman/Decode.antt =====
-- `hpack_decode_huffman` as a walk over the bits of its span, and what the tree built from the table
-- does on every code and on every padding.
use native.Mathlib.Nat.{div-div-eq-div-mul, div-one}
use stunning_waddle.Base.{
  ℕ, zero, suc, ◌/◌, ◌%◌, ◌^◌, ◌<◌, ◌≡◌, refl, ap, ◌∙◌, Bool, true, false, List, [], ◌∷◌, ◌++◌,
  arith, append_assoc, Bytes, ◌==◌, sym, ◌&&◌, str_eq, str_eq_iff, length, if◌then◌else◌,
}
use stunning_waddle.Hpack.Result.{Result, ok, err, ◌>>=◌, >>=_assoc, >>=_congr}
use stunning_waddle.Hpack.Huffman.BitLists.{bits, byte_bits, ones}
use stunning_waddle.Hpack.Huffman.Encode.{code_bits}
use stunning_waddle.Hpack.Huffman.{
  HuffmanNode, build_hpack_huffman_tree, decode_bit, decode_byte, decode_bytes, check_padding,
  entry_of,
}

module _ (tree : List HuffmanNode) where
  unfoldable pub walk : List Bool → ℕ → Bytes → Result (ℕ × Bytes)
  walk [] node result = ok (node, result)
  walk (b ∷ bs) node result = do
    (node', result') ← decode_bit tree b node result
    walk bs node' result'

  pub walk-append :
      (xs ys : List Bool) (node : ℕ) (result : Bytes)
      → walk (xs ++ ys) node result ≡ (walk xs node result >>= λ r. walk ys r.0 r.1)
  unfolding walk
  walk-append [] ys node result = refl
  walk-append (x ∷ xs) ys node result =
      >>=_congr (decode_bit tree x node result) (λ r. walk-append xs ys r.0 r.1)
      ∙ sym
          (>>=_assoc (decode_bit tree x node result) (λ r. walk xs r.0 r.1) (λ r. walk ys r.0 r.1))

  -- The bits of a byte in the order of the decoder's loop.
  loop_bits : ℕ → ℕ → List Bool
  loop_bits zero byte = []
  loop_bits (suc bit) byte = (byte / 2 ^ bit % 2 == 1) ∷ loop_bits bit byte

  decode_byte-walk :
      (bit byte node : ℕ) (result : Bytes)
      → decode_byte tree bit byte node result ≡ walk (loop_bits bit byte) node result
  unfolding walk loop_bits decode_byte
  decode_byte-walk zero byte node result = refl
  decode_byte-walk (suc bit) byte node result =
      >>=_congr (decode_bit tree (byte / 2 ^ bit % 2 == 1) node result)
        (λ r. decode_byte-walk bit byte r.0 r.1)

  loop_bits-bits : (byte : ℕ) → loop_bits 8 byte ≡ bits 8 byte
  unfolding loop_bits
  loop_bits-bits byte = simp (div-div-eq-div-mul, div-one)

  pub decode_bytes-walk :
      (span : Bytes) (node : ℕ) (result : Bytes)
      → decode_bytes tree span node result ≡ walk (byte_bits span) node result
  unfolding decode_bytes
  decode_bytes-walk [] node result = unfold walk in refl
  decode_bytes-walk (byte ∷ span) node result =
      >>=_congr (decode_byte tree 8 byte node result) (λ r. decode_bytes-walk span r.0 r.1)
      ∙ ap (λ m. m >>= λ r. walk (byte_bits span) r.0 r.1)
          (decode_byte-walk 8 byte node result ∙ ap (λ t. walk t node result) (loop_bits-bits byte))
      ∙ sym (walk-append (bits 8 byte) (byte_bits span) node result)

  -- The walk only appends to the result.
  decode_bit_push :
      (b : Bool) (node : ℕ) (before result : Bytes)
      → decode_bit tree b node (before ++ result)
        ≡ (decode_bit tree b node result >>= λ r. ok (r.0, before ++ r.1))
  unfolding decode_bit
  decode_bit_push b node before result = grind (arith, append_assoc)

  pub walk_push :
      (bs : List Bool) (node : ℕ) (before result : Bytes)
      → walk bs node (before ++ result) ≡ (walk bs node result >>= λ r. ok (r.0, before ++ r.1))
  unfolding walk
  walk_push [] node before result = refl
  walk_push (b ∷ bs) node before result =
      ap (λ m. m >>= λ r. walk bs r.0 r.1) (decode_bit_push b node before result)
      ∙ >>=_assoc (decode_bit tree b node result) (λ r. ok (r.0, before ++ r.1))
          (λ r. walk bs r.0 r.1)
      ∙ >>=_congr (decode_bit tree b node result) (λ r. walk_push bs r.0 before r.1)
      ∙ sym (
          >>=_assoc (decode_bit tree b node result) (λ r. walk bs r.0 r.1)
            (λ r. ok (r.0, before ++ r.1)))

  -- The code of byte `c`, read from the root, gives `c` and leads back to the root.
  symbol_ok : ℕ → Bool
  symbol_ok c = elim (walk (code_bits c) 0 []) [
    | ok (node, result) ↦ node == 0 && str_eq result (c ∷ [])
    | err e ↦ false
  ]

  -- `k` ones from the root give nothing, and are accepted as a padding.
  pub padding_ok : ℕ → Bool
  padding_ok k = elim (walk (ones k) 0 []) [
    | ok (node, result) ↦
        elim (if node == 0 then ok tt else check_padding tree (length tree) node) [
          | ok t ↦ str_eq result []
          | err e ↦ false
        ]
    | err e ↦ false
  ]

  all_ok : (ℕ → Bool) → ℕ → Bool
  all_ok p zero = true
  all_ok p (suc n) = p n && all_ok p n

  all_ok→ok : (p : ℕ → Bool) (n : ℕ) → all_ok p n ≡ true → (i : ℕ) → i < n → p i ≡ true
  unfolding all_ok
  all_ok→ok p zero e i h = absurd (omega arith)
  all_ok→ok p (suc n) e i h = ground (arith, all_ok→ok p n (ground arith) i)

  symbol_ok→walk : (c : ℕ) → symbol_ok c ≡ true → walk (code_bits c) 0 [] ≡ ok (0, c ∷ [])
  unfolding symbol_ok
  symbol_ok→walk c h = go (walk (code_bits c) 0 []) h
    where
      go :
          (r : Result (ℕ × Bytes))
          → elim r [ ok (node, result) ↦ node == 0 && str_eq result (c ∷ []) | err e ↦ false ]
            ≡ true
          → r ≡ ok (0, c ∷ [])
      go (ok (node, result)) h = ground (arith, str_eq_iff result (c ∷ []))
      go (err e) h = cc

-- The tree that the library builds decodes every byte, and accepts every padding.
symbols_checked : all_ok build_hpack_huffman_tree (symbol_ok build_hpack_huffman_tree) 256 ≡ true
unfolding all_ok symbol_ok walk decode_bit build_hpack_huffman_tree entry_of str_eq
symbols_checked = refl

paddings_checked : all_ok build_hpack_huffman_tree (padding_ok build_hpack_huffman_tree) 8 ≡ true
unfolding all_ok padding_ok walk decode_bit build_hpack_huffman_tree str_eq check_padding
paddings_checked = refl

pub walk-code_bits :
    (c : ℕ) → c < 256 → walk build_hpack_huffman_tree (code_bits c) 0 [] ≡ ok (0, c ∷ [])
walk-code_bits c h = symbol_ok→walk build_hpack_huffman_tree c (
    all_ok→ok build_hpack_huffman_tree (symbol_ok build_hpack_huffman_tree) 256 symbols_checked c h)

pub padding_accepted : (k : ℕ) → k < 8 → padding_ok build_hpack_huffman_tree k ≡ true
padding_accepted =
    all_ok→ok build_hpack_huffman_tree (padding_ok build_hpack_huffman_tree) 8 paddings_checked

module _ (tree : List HuffmanNode) where
  -- A walk that ends in `node` with nothing to add, whose padding is accepted.
  pub record PadsFrom (k : ℕ) : Type 0 where
    pub node : ℕ
    pub walks : walk tree (ones k) 0 [] ≡ ok (node, [])
    pub padded : (if node == 0 then ok tt else check_padding tree (length tree) node) ≡ ok tt

  pub padding_ok→PadsFrom : (k : ℕ) → padding_ok tree k ≡ true → PadsFrom k
  unfolding padding_ok
  padding_ok→PadsFrom k h = go (walk tree (ones k) 0 []) refl h
    where
      inner :
          (node : ℕ) (result : Bytes) (p : Result (Unit {0}))
          → walk tree (ones k) 0 [] ≡ ok (node, result)
          → (if node == 0 then ok tt else check_padding tree (length tree) node) ≡ p
          → elim p [ ok t ↦ str_eq result [] | err e ↦ false ] ≡ true
          → PadsFrom k
      inner node result (ok tt) w e h = record {
        node = node;
        walks = ground (arith, w, str_eq_iff result []);
        padded = e;
      }
      inner node result (err x) w e h = absurd (cc)

      go :
          (r : Result (ℕ × Bytes))
          → walk tree (ones k) 0 [] ≡ r
          → elim r [
            | ok (node, result) ↦
                elim (if node == 0 then ok tt else check_padding tree (length tree) node) [
                  | ok t ↦ str_eq result []
                  | err e ↦ false
                ]
            | err e ↦ false
          ]
            ≡ true
          → PadsFrom k
      go (ok (node, result)) w h = inner node result _ w refl h
      go (err e) w h = absurd (cc)
