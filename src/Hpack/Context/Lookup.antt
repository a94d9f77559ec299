-- ===== src/Hpack/Context/Lookup.antt =====
-- The index space: what a search finds, `get_header` returns.
use stunning_waddle.Base.{
  ℕ, suc, ◌+◌, ◌-◌, ◌*◌, ◌%◌, ◌^◌, ◌≤◌, ◌<◌, ◌≡◌, refl, ap, ◌∙◌, Bool, true, List, [], ◌∷◌, Option,
  some, none, Bytes, length, arith, Bool-cases, inl, inr, get_elem?, str_eq, str_eq_iff,
}
use stunning_waddle.Headers.{Header, header_eq}
use stunning_waddle.Headers.Laws.{header_eq_iff}
use stunning_waddle.Hpack.Result.{ok}
use stunning_waddle.Hpack.StaticTable.{
  hpack_static_table, hpack_is_predefined, hpack_lookup_predefined,
}
use stunning_waddle.Hpack.Context.{
  HpackContext, get_header, find_from, find_match, find_exact_match, find_name_match,
}
use stunning_waddle.Hpack.Context.Table.{IsValid, table_size}

-- A hit of a search from `i` on.
record Found (test : Header → Bool) (i j : ℕ) (table : List Header) : Type 0 where
  offset : ℕ
  entry : Header
  place : j ≡ i + offset
  inside : offset < length table
  holds : get_elem? table offset ≡ some entry
  passes : test entry ≡ true

find_from-Found :
    (test : Header → Bool) (i j : ℕ) (table : List Header)
    → find_from test i table ≡ some j
    → Found test i j table
unfolding find_from
find_from-Found test i j [] e = absurd (cc)
find_from-Found test i j (h ∷ table) e = elim (Bool-cases (test h)) [
  | inl yes_ ↦ record {
    offset = 0;
    entry = h;
    place = ground arith;
    inside = omega arith;
    holds = refl;
    passes = yes_;
  }
  | inr no_ ↦
      let f = find_from-Found test (i + 1) j table (ground arith) in
      record {
        offset = suc f.offset;
        entry = f.entry;
        place = omega (arith, f.place);
        inside = omega (arith, f.inside);
        holds = f.holds;
        passes = f.passes;
      }
]

-- An index that `get_header` answers with an entry that passes the test, within the index space.
pub record Answers (c : HpackContext) (test : Header → Bool) (index : ℕ) : Type 0 where
  pub entry : Header
  pub answer : get_header c index ≡ ok entry
  pub passes : test entry ≡ true
  pub positive : 1 ≤ index
  pub within : index < 62 + length c.dynamic_table

static_size : length hpack_static_table ≡ 61
unfolding hpack_static_table
static_size = refl

get_header_static :
    (c : HpackContext) (k : ℕ) (h : Header)
    → k < 61
    → get_elem? hpack_static_table k ≡ some h
    → get_header c (1 + k) ≡ ok h
unfolding get_header hpack_lookup_predefined hpack_is_predefined
get_header_static c k h small e = ground (arith, same)
  where
    same : get_elem? hpack_static_table (1 + k - 1) ≡ some h
    same = let n : 1 + k - 1 ≡ k = omega arith in rw n e

get_header_dynamic :
    (c : HpackContext) (k : ℕ) (h : Header)
    → k < 2 ^ 63
    → get_elem? c.dynamic_table k ≡ some h
    → get_header c (62 + k) ≡ ok h
unfolding get_header hpack_is_predefined
get_header_dynamic c k h small e = ground (arith, same)
  where
    same : get_elem? c.dynamic_table ((62 + k + 2 ^ 64 - 62) % 2 ^ 64) ≡ some h
    same = let n : (62 + k + 2 ^ 64 - 62) % 2 ^ 64 ≡ k = omega arith in rw n e

length-le-table_size : (table : List Header) → 32 * length table ≤ table_size table
length-le-table_size [] = omega arith
length-le-table_size (h ∷ table) = omega (arith, length-le-table_size table)

-- The table of a valid context has few entries, since each counts 32 bytes at least.
pub IsValid-length : (c : HpackContext) → IsValid c → length c.dynamic_table < 2 ^ 27
IsValid-length c v =
    omega (arith, length-le-table_size c.dynamic_table, v.counted, v.within, v.max_fits)

-- What a search finds, `get_header` returns.
pub find_match-Answers :
    (c : HpackContext) (test : Header → Bool) (index : ℕ)
    → IsValid c
    → find_match c test ≡ some index
    → Answers c test index
unfolding find_match
find_match-Answers c test index v e = go (find_from test 1 hpack_static_table) refl e
  where
    go :
        (r : Option ℕ)
        → find_from test 1 hpack_static_table ≡ r
        → elim r [ some i ↦ some i | none ↦ find_from test 62 c.dynamic_table ] ≡ some index
        → Answers c test index
    go (some i) r e =
        let f = find_from-Found test 1 index hpack_static_table (cc) in
        record {
          entry = f.entry;
          answer =
              ap (get_header c) f.place
              ∙ (get_header_static c f.offset f.entry (omega (arith, f.inside, static_size))
                  f.holds);
          passes = f.passes;
          positive = omega (arith, f.place);
          within = omega (arith, f.place, f.inside, static_size);
        }
    go none r e =
        let f = find_from-Found test 62 index c.dynamic_table e in
        record {
          entry = f.entry;
          answer =
              ap (get_header c) f.place
              ∙ (get_header_dynamic c f.offset f.entry (omega (arith, f.inside, IsValid-length c v))
                  f.holds);
          passes = f.passes;
          positive = omega (arith, f.place);
          within = omega (arith, f.place, f.inside);
        }

-- In a valid context, the index of an exact match names the very field that was looked for, and fits
-- 28 bits.
pub get_header-find_exact_match :
    (c : HpackContext) (h : Header) (index : ℕ)
    → IsValid c
    → find_exact_match c h ≡ some index
    → (get_header c index ≡ ok h) × (1 ≤ index) × (index < 2 ^ 28)
unfolding find_exact_match
get_header-find_exact_match c h index v e =
    let a = find_match-Answers c (λ x. header_eq x h) index v e in
    let same = (header_eq_iff a.entry h).0 a.passes in
    (rw same at a.answer, a.positive, omega (arith, a.within, IsValid-length c v))

-- In a valid context, the index of a name match names an entry with that name, and fits 28 bits.
pub get_header-find_name_match :
    (c : HpackContext) (name : Bytes) (index : ℕ)
    → IsValid c
    → find_name_match c name ≡ some index
    → (entry : Header) × (get_header c index ≡ ok entry)
      × (entry.name ≡ name)
      × (1 ≤ index)
      × (index < 2 ^ 28)
unfolding find_name_match
get_header-find_name_match c name index v e =
    let a = find_match-Answers c (λ x. str_eq x.name name) index v e in
    (
      a.entry,
      a.answer,
      (str_eq_iff a.entry.name name).0 a.passes,
      a.positive,
      omega (arith, a.within, IsValid-length c v),
    )
