-- ===== src/Hpack/Huffman.antt =====
-- The Huffman coding of source/v2/hpack.cpp and hpack_huffman.cpp.
mod BitLists
mod Encode
mod Decode
pub mod RoundTrip
use stunning_waddle.Base.{
  ℕ, zero, suc, ◌+◌, ◌-◌, ◌*◌, ◌/◌, ◌%◌, ◌^◌, Bool, true, false, List, [], ◌∷◌, ◌++◌, Option, none,
  some, Bytes, if◌then◌else◌, ◌==◌, ltb, leb, get_or, length,
}
use stunning_waddle.Hpack.Result.{
  Result, ok, err, ◌>>=◌, huffman_invalid_code, huffman_eos, huffman_no_padding,
  huffman_padding_not_ones, stuck,
}
use stunning_waddle.Hpack.HuffmanTable.{HuffmanEntry, hpack_huffman_table}

-- A node of the pool; `none` is the index -1.
pub record HuffmanNode : Type 0 where
  pub left : Option ℕ
  pub right : Option ℕ
  pub sym : Option ℕ

abbrev pub new_node : HuffmanNode
new_node = record { left = none; right = none; sym = none }

-- `bit_val ? node.right : node.left`
unfoldable pub child : Bool → HuffmanNode → Option ℕ
child true node = node.right
child false node = node.left

unfoldable pub set_child : Bool → ℕ → HuffmanNode → HuffmanNode
set_child true i node = record node { right = some i }
set_child false i node = record node { left = some i }

-- `tree[i] = …`, a change of one node of the pool.
unfoldable pub modify : ℕ → (HuffmanNode → HuffmanNode) → List HuffmanNode → List HuffmanNode
modify i f [] = []
modify zero f (node ∷ tree) = f node ∷ tree
modify (suc i) f (node ∷ tree) = node ∷ modify i f tree

-- The inner loop of `build_hpack_huffman_tree`, over the bits `bit`, …, 0 that are still to be
-- placed; the result is the pool and `current_idx`.
unfoldable pub place_bits : ℕ → ℕ → List HuffmanNode → ℕ → List HuffmanNode × ℕ
unfolding child set_child modify
place_bits zero code tree current_idx = (tree, current_idx)
place_bits (suc bit) code tree current_idx =
    let bit_val = code / 2 ^ bit % 2 == 1 in
    elim (child bit_val (get_or tree current_idx new_node)) [
      | some next_idx ↦ place_bits bit code tree next_idx
      | none ↦
          place_bits bit code
            (modify current_idx (set_child bit_val (length tree)) tree ++ (new_node ∷ []))
            (length tree)
    ]

-- One symbol: its path, and `sym` on the last node.
unfoldable pub place_symbol : List HuffmanNode → ℕ → HuffmanEntry → List HuffmanNode
unfolding place_bits
place_symbol tree i entry =
    let (tree', leaf) = place_bits entry.len entry.code tree 0 in
    modify leaf (λ node. record node { sym = some i }) tree'

unfoldable pub place_symbols : List HuffmanNode → ℕ → List HuffmanEntry → List HuffmanNode
unfolding place_symbol
place_symbols tree i [] = tree
place_symbols tree i (entry ∷ table) = place_symbols (place_symbol tree i entry) (i + 1) table

unfoldable pub build_hpack_huffman_tree : List HuffmanNode
unfolding place_symbols hpack_huffman_table
build_hpack_huffman_tree = place_symbols (new_node ∷ []) 0 hpack_huffman_table

-- `hpack_huffman_table[c]`, for a byte `c` or 256.
unfoldable pub entry_of : ℕ → HuffmanEntry
unfolding hpack_huffman_table
entry_of c = get_or hpack_huffman_table c (record { code = 0; len = 0 })

-- `hpack_buffer::encode_huffman_len`
unfoldable pub code_length : Bytes → ℕ
code_length [] = 0
code_length (c ∷ str) = (entry_of c).len + code_length str

unfoldable pub encode_huffman_len : Bytes → ℕ
encode_huffman_len str = (code_length str + 7) / 8

-- `while (bit_count >= 8)` of `encode_huffman`: the bytes pushed, and the `bit_count` left.
unfoldable pub drain : ℕ → ℕ → Bytes × ℕ
drain bit_buf (suc (suc (suc (suc (suc (suc (suc (suc bit_count)))))))) =
    let (out, left) = drain bit_buf bit_count in (bit_buf / 2 ^ bit_count % 256 ∷ out, left)
drain bit_buf bit_count = ([], bit_count)

-- The padding behind the loop: the first bits of EOS.
unfoldable pub pad_byte : ℕ → ℕ → Bytes
pad_byte bit_buf bit_count =
    if ltb 0 bit_count
    then (bit_buf * 2 ^ (8 - bit_count) % 2 ^ 64
          + (entry_of 256).code / 2 ^ ((entry_of 256).len - (8 - bit_count)))
        % 256
      ∷ []
    else []

-- The loop of `hpack_buffer::encode_huffman` over the string, with its 64-bit `bit_buf`: the bytes
-- that it pushes. The two sides of each `|` have no bit in common.
unfoldable pub encode_huffman_loop : Bytes → ℕ → ℕ → Bytes
encode_huffman_loop [] bit_buf bit_count = pad_byte bit_buf bit_count
encode_huffman_loop (c ∷ str) bit_buf bit_count =
    let bit_buf' = bit_buf * 2 ^ (entry_of c).len % 2 ^ 64 + (entry_of c).code in
    let (out, left) = drain bit_buf' (bit_count + (entry_of c).len) in
    out ++ encode_huffman_loop str bit_buf' left

unfoldable pub encode_huffman : Bytes → Bytes
encode_huffman str = encode_huffman_loop str 0 0

-- One bit of `hpack_decode_huffman`: the index of the node and the result so far.
unfoldable pub decode_bit : List HuffmanNode → Bool → ℕ → Bytes → Result (ℕ × Bytes)
unfolding child
decode_bit tree bval node result = elim (child bval (get_or tree node new_node)) [
  | none ↦ err huffman_invalid_code
  | some next_idx ↦ elim (get_or tree next_idx new_node).sym [
    | none ↦ ok (next_idx, result)
    | some sym ↦ if sym == 256 then err huffman_eos else ok (0, result ++ (sym ∷ []))
  ]
]

-- `for (int bit = 7; bit >= 0; --bit)`, with `bit + 1` bits left.
unfoldable pub decode_byte : List HuffmanNode → ℕ → ℕ → ℕ → Bytes → Result (ℕ × Bytes)
decode_byte tree zero byte node result = ok (node, result)
decode_byte tree (suc bit) byte node result = do
  (node', result') ← decode_bit tree (byte / 2 ^ bit % 2 == 1) node result
  decode_byte tree bit byte node' result'

unfoldable pub decode_bytes : List HuffmanNode → Bytes → ℕ → Bytes → Result (ℕ × Bytes)
decode_bytes tree [] node result = ok (node, result)
decode_bytes tree (byte ∷ span) node result = do
  (node', result') ← decode_byte tree 8 byte node result
  decode_bytes tree span node' result'

-- `while (!temp->is_leaf())`: down the right children to a leaf. A child has a larger index than
-- its parent, so as many turns as nodes are enough; `stuck` would be a turn too few.
unfoldable pub check_padding : List HuffmanNode → ℕ → ℕ → Result (Unit {0})
check_padding tree zero temp = err stuck
check_padding tree (suc fuel) temp = elim (get_or tree temp new_node).sym [
  | some sym ↦ if sym == 256 then ok tt else err huffman_padding_not_ones
  | none ↦ elim (get_or tree temp new_node).right [
    | none ↦ err huffman_no_padding
    | some next ↦ check_padding tree fuel next
  ]
]

-- `hpack_decode_huffman` on its span, which is the whole payload.
unfoldable pub decode_huffman_in : List HuffmanNode → Bytes → Result Bytes
decode_huffman_in tree span = do
  (node, result) ← decode_bytes tree span 0 []
  padded ← (if node == 0 then ok tt else check_padding tree (length tree) node)
  ok result

unfoldable pub decode_huffman : Bytes → Result Bytes
decode_huffman span = decode_huffman_in build_hpack_huffman_tree span
