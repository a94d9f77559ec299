-- ===== src/Hpack/Context.antt =====
-- `class hpack_context` of source/v2/hpack_context.cpp, and the field encoders of
-- source/v2/hpack.cpp that it calls. The front of the deque is the head of the list.
pub mod Table
pub mod Lookup
pub mod RoundTrip
pub mod Left
use stunning_waddle.Base.{
  ℕ, zero, suc, ◌+◌, ◌-◌, ◌/◌, ◌%◌, ◌^◌, Bool, true, false, ◌&&◌, not, List, [], ◌∷◌, ◌++◌, Option,
  none, some, Bytes, length, get_elem?, is_empty, if◌then◌else◌, ◌==◌, ltb, leb, str_eq,
}
use stunning_waddle.Headers.{Header, Headers, header_eq}
use stunning_waddle.Hpack.Result.{Result, ok, err, ◌>>=◌, dynamic_index_out_of_range, stuck}
use stunning_waddle.Hpack.Ints.{encode_int, decode_int}
use stunning_waddle.Hpack.Strings.{encode_string, decode_string}
use stunning_waddle.Hpack.StaticTable.{
  hpack_static_table, hpack_is_predefined, hpack_lookup_predefined,
}

pub record HpackContext : Type 0 where
  pub dynamic_table : List Header
  pub max_table_size : ℕ
  pub current_table_size : ℕ

abbrev pub new_context : ℕ → HpackContext
new_context max_table_size = record {
  dynamic_table = [];
  max_table_size = max_table_size;
  current_table_size = 0;
}

-- `static_cast<uint32_t>(name.size() + value.size() + 32)`
unfoldable pub entry_size : Header → ℕ
entry_size h = (length h.name + length h.value + 32) % 2 ^ 32

-- `back()` and `pop_back()` of a table whose first entry is `h`.
unfoldable pub oldest : Header → List Header → Header
oldest h [] = h
oldest h (x ∷ table) = oldest x table

unfoldable pub pop_oldest : Header → List Header → List Header
pop_oldest h [] = []
pop_oldest h (x ∷ table) = h ∷ pop_oldest x table

-- The loop of `evict_until_size`. Each turn drops an entry, so as many turns as entries are enough.
unfoldable pub evict : ℕ → ℕ → List Header → ℕ → List Header × ℕ
evict fuel limit [] current = ([], current)
evict zero limit (h ∷ table) current = (h ∷ table, current)
evict (suc fuel) limit (h ∷ table) current =
    let rest =
      evict fuel limit (pop_oldest h table)
        ((current + 2 ^ 32 - entry_size (oldest h table)) % 2 ^ 32) in
    if ltb limit current then rest else (h ∷ table, current)

unfoldable pub evict_until_size : HpackContext → ℕ → HpackContext
evict_until_size c limit =
    let (table, current) =
      evict (length c.dynamic_table) limit c.dynamic_table c.current_table_size in
    record c { dynamic_table = table; current_table_size = current }

unfoldable pub set_max_table_size : HpackContext → ℕ → HpackContext
set_max_table_size c new_max = evict_until_size (record c { max_table_size = new_max }) new_max

unfoldable pub add_to_dynamic_table : HpackContext → Header → HpackContext
add_to_dynamic_table c h =
    if ltb c.max_table_size (entry_size h)
    then record c { dynamic_table = []; current_table_size = 0 }
    else let evicted = evict_until_size c (c.max_table_size - entry_size h) in
      record evicted {
        dynamic_table = h ∷ evicted.dynamic_table;
        current_table_size = (evicted.current_table_size + entry_size h) % 2 ^ 32;
      }

-- `index - 62` wraps in `size_t`.
unfoldable pub get_header : HpackContext → ℕ → Result Header
get_header c index =
    if hpack_is_predefined index
    then elim (hpack_lookup_predefined index) [
      | some h ↦ ok h
      | none ↦ err dynamic_index_out_of_range
    ]
    else elim (get_elem? c.dynamic_table ((index + 2 ^ 64 - 62) % 2 ^ 64)) [
      | some h ↦ ok h
      | none ↦ err dynamic_index_out_of_range
    ]

unfoldable pub dynamic_table_size : HpackContext → ℕ
dynamic_table_size c = length c.dynamic_table

unfoldable pub current_size : HpackContext → ℕ
current_size c = c.current_table_size

-- The first entry that passes a test, counted from `i`: the four search loops.
unfoldable pub find_from : (Header → Bool) → ℕ → List Header → Option ℕ
find_from test i [] = none
find_from test i (h ∷ table) = if test h then some i else find_from test (i + 1) table

-- A search of the static table, numbered from 1, and then of the dynamic one, numbered from 62.
-- `none` is the result -1.
unfoldable pub find_match : HpackContext → (Header → Bool) → Option ℕ
find_match c test = elim (find_from test 1 hpack_static_table) [
  | some i ↦ some i
  | none ↦ find_from test 62 c.dynamic_table
]

unfoldable pub find_exact_match : HpackContext → Header → Option ℕ
find_exact_match c h = find_match c (λ x. header_eq x h)

unfoldable pub find_name_match : HpackContext → Bytes → Option ℕ
find_name_match c name = find_match c (λ x. str_eq x.name name)

-- The field encoders of `hpack_buffer`.
unfoldable pub encode_header_indexed : Bytes → ℕ → Bytes
encode_header_indexed buf index = encode_int (buf ++ (0x80 ∷ [])) index 7

unfoldable pub encode_header_literal_inc_index_indexed_name : Bytes → ℕ → Bytes → Bool → Bytes
encode_header_literal_inc_index_indexed_name buf index value huffman =
    encode_string (encode_int (buf ++ (0x40 ∷ [])) index 6) value huffman

unfoldable pub encode_header_literal_inc_index_new_name :
    Bytes → Bytes → Bytes → Bool → Bool → Bytes
encode_header_literal_inc_index_new_name buf name value name_huffman value_huffman =
    encode_string (encode_string (encode_int (buf ++ (0x40 ∷ [])) 0 6) name name_huffman) value
      value_huffman

unfoldable pub encode_header_literal_no_index_indexed_name : Bytes → ℕ → Bytes → Bool → Bytes
encode_header_literal_no_index_indexed_name buf index value huffman =
    encode_string (encode_int (buf ++ (0x00 ∷ [])) index 4) value huffman

unfoldable pub encode_header_literal_never_index_indexed_name : Bytes → ℕ → Bytes → Bool → Bytes
encode_header_literal_never_index_indexed_name buf index value huffman =
    encode_string (encode_int (buf ++ (0x10 ∷ [])) index 4) value huffman

unfoldable pub encode_table_size_update : Bytes → ℕ → Bytes
encode_table_size_update buf size = encode_int (buf ++ (0x20 ∷ [])) size 5

-- One turn of the loop of `encode`.
unfoldable pub encode_header : HpackContext → Bytes → Header → Bool → Bytes × HpackContext
encode_header c buf h use_huffman = elim (find_exact_match c h) [
  | some index ↦ (encode_header_indexed buf index, c)
  | none ↦ elim (find_name_match c h.name) [
    | some index ↦ (
      encode_header_literal_inc_index_indexed_name buf index h.value use_huffman,
      add_to_dynamic_table c h,
    )
    | none ↦ (
      encode_header_literal_inc_index_new_name buf h.name h.value use_huffman use_huffman,
      add_to_dynamic_table c h,
    )
  ]
]

unfoldable pub encode : HpackContext → Bytes → Headers → Bool → Bytes × HpackContext
encode c buf [] use_huffman = (buf, c)
encode c buf (h ∷ headers) use_huffman =
    let (buf', c') = encode_header c buf h use_huffman in encode c' buf' headers use_huffman

-- The name of a literal field: new for index 0, else that of an entry.
unfoldable pub decode_name : HpackContext → ℕ → Bytes → Result (Bytes × Bytes)
decode_name c index rest =
    if index == 0 then decode_string rest 65536 else (do h ← get_header c index; ok (h.name, rest))

-- A literal field, behind its index: the field, and the bytes behind it.
unfoldable pub decode_literal : HpackContext → ℕ → Bytes → Result (Header × Bytes)
decode_literal c index rest = do
  (name, rest') ← decode_name c index rest
  (value, rest'') ← decode_string rest' 65536
  ok (record { name = name; value = value }, rest'')

-- One turn of the loop of `decode`, on a first byte `b`: the context, the fields that it adds, and
-- the bytes left. A string literal has the default limit of 65536.
unfoldable pub decode_field : HpackContext → ℕ → Bytes → Result (HpackContext × Headers × Bytes)
decode_field c b span =
    if b / 128 % 2 == 1
    then (do
      (index, rest) ← decode_int span 7 0xFFFF_FFFF
      h ← get_header c index
      ok (c, h ∷ [], rest))
    else if b / 64 % 2 == 1
    then (do
      (index, rest) ← decode_int span 6 0xFFFF_FFFF
      (h, rest') ← decode_literal c index rest
      ok (add_to_dynamic_table c h, h ∷ [], rest'))
    else if b / 32 % 2 == 1
    then (do
      (new_size, rest) ← decode_int span 5 0xFFFF_FFFF
      ok (set_max_table_size c new_size, [], rest))
    else (do
      (index, rest) ← decode_int span 4 0xFFFF_FFFF
      (h, rest') ← decode_literal c index rest
      ok (c, h ∷ [], rest'))

-- `while (offset < len)`. Each turn takes a byte at least, so as many turns as bytes are enough.
unfoldable pub decode_loop : ℕ → HpackContext → Bytes → Headers → Result (HpackContext × Headers)
decode_loop fuel c [] headers = ok (c, headers)
decode_loop zero c (b ∷ span) headers = err stuck
decode_loop (suc fuel) c (b ∷ span) headers = do
  (c', added, rest) ← decode_field c b (b ∷ span)
  decode_loop fuel c' rest (headers ++ added)

unfoldable pub decode : HpackContext → Bytes → Result (HpackContext × Headers)
decode c span = decode_loop (length span) c span []

-- The context that `decode` leaves behind, also when it throws: every field that was read before has
-- had its effect on the table, and the field that throws has had none.
unfoldable pub decode_context_loop : ℕ → HpackContext → Bytes → HpackContext
decode_context_loop fuel c [] = c
decode_context_loop zero c (b ∷ span) = c
decode_context_loop (suc fuel) c (b ∷ span) = elim (decode_field c b (b ∷ span)) [
  | err error ↦ c
  | ok r ↦ decode_context_loop fuel r.0 r.2
]

unfoldable pub decode_context : HpackContext → Bytes → HpackContext
decode_context c span = decode_context_loop (length span) c span
