-- ===== src/Hpack/Context/Table.antt =====
-- The size accounting of the dynamic table.
use stunning_waddle.Base.{
  ℕ, zero, suc, ◌+◌, ◌-◌, ◌%◌, ◌^◌, ◌≤◌, ◌<◌, ◌≡◌, refl, sym, ap, ◌∙◌, List, [], ◌∷◌, ◌++◌, length,
  All, ltb, arith, append-nil, append_assoc, Bool-cases, inl, inr, ltb→lt,
}
use stunning_waddle.Headers.{Header}
use stunning_waddle.Hpack.Context.{
  HpackContext, entry_size, oldest, pop_oldest, evict, evict_until_size, set_max_table_size,
  add_to_dynamic_table,
}

-- The size of an entry as RFC 7541 counts it, which the 32-bit sum holds.
abbrev pub full_size : Header → ℕ
full_size h = length h.name + length h.value + 32

abbrev pub IsSmall : Header → Type 0
IsSmall h = full_size h < 2 ^ 32

abbrev pub table_size : List Header → ℕ
table_size [] = 0
table_size (h ∷ table) = full_size h + table_size table

-- The size that is kept is the sum of the sizes of the entries, and within the limit.
pub record IsValid (c : HpackContext) : Type 0 where
  pub counted : c.current_table_size ≡ table_size c.dynamic_table
  pub within : c.current_table_size ≤ c.max_table_size
  pub max_fits : c.max_table_size < 2 ^ 32
  pub small : All IsSmall c.dynamic_table

pub entry_size-full_size : (h : Header) → IsSmall h → entry_size h ≡ full_size h
unfolding entry_size
entry_size-full_size h s = omega arith

pop_oldest-size :
    (h : Header) (table : List Header)
    → table_size (pop_oldest h table) + full_size (oldest h table) ≡ table_size (h ∷ table)
unfolding pop_oldest oldest
pop_oldest-size h [] = omega arith
pop_oldest-size h (x ∷ table) = omega (arith, pop_oldest-size x table)

pop_oldest-IsSmall :
    (h : Header) (table : List Header)
    → All IsSmall (h ∷ table)
    → All IsSmall (pop_oldest h table) × IsSmall (oldest h table)
unfolding pop_oldest oldest
pop_oldest-IsSmall h [] s = (tt, s.0)
pop_oldest-IsSmall h (x ∷ table) (sh, s) =
    let (rest, last) = pop_oldest-IsSmall x table s in ((sh, rest), last)

length-pop_oldest : (h : Header) (table : List Header) → length (pop_oldest h table) ≡ length table
unfolding pop_oldest
length-pop_oldest h [] = refl
length-pop_oldest h (x ∷ table) = ap suc (length-pop_oldest x table)

pop_oldest-append :
    (h : Header) (table : List Header) → pop_oldest h table ++ (oldest h table ∷ []) ≡ h ∷ table
unfolding pop_oldest oldest
pop_oldest-append h [] = refl
pop_oldest-append h (x ∷ table) = ap (λ t. h ∷ t) (pop_oldest-append x table)

-- The newest entry dropped would not have fitted beside the entries kept.
abbrev pub Needed : ℕ → List Header → List Header → Type 0
Needed limit kept [] = Unit
Needed limit kept (x ∷ dropped) = limit < table_size kept + full_size x

-- What the loop leaves: the longest front part of the table that is within the limit.
pub record Evicted (limit : ℕ) (table kept : List Header) (current : ℕ) : Type 0 where
  pub dropped : List Header
  pub front : table ≡ kept ++ dropped
  pub needed : Needed limit kept dropped
  pub counted : current ≡ table_size kept
  pub within : current ≤ limit
  pub small : All IsSmall kept

Needed-concat :
    (limit : ℕ) (table kept dropped : List Header) (x : Header)
    → table ≡ kept ++ dropped
    → Needed limit kept dropped
    → limit < table_size table + full_size x
    → Needed limit kept (dropped ++ (x ∷ []))
Needed-concat limit table kept [] x front n h = rw (front ∙ append-nil kept) at h
Needed-concat limit table kept (y ∷ dropped) x front n h = n

evict-Evicted :
    (fuel limit : ℕ) (table : List Header) (current : ℕ)
    → length table ≤ fuel
    → current ≡ table_size table
    → current < 2 ^ 32
    → All IsSmall table
    → Evicted limit table (evict fuel limit table current).0 (evict fuel limit table current).1
unfolding evict
evict-Evicted fuel limit [] current le n cap s = record {
  dropped = [];
  front = refl;
  needed = tt;
  counted = n;
  within = omega arith;
  small = tt;
}
evict-Evicted zero limit (h ∷ table) current le n cap s = absurd (omega arith)
evict-Evicted (suc fuel) limit (h ∷ table) current le n cap s =
    elim (Bool-cases (ltb limit current)) [
      | inl over ↦
          let kept = pop_oldest h table in
          let last = oldest h table in
          let (small_kept, small_last) = pop_oldest-IsSmall h table s in
          let sizes = pop_oldest-size h table in
          let less : (current + 2 ^ 32 - entry_size last) % 2 ^ 32 ≡ table_size kept =
            omega (arith, entry_size-full_size last small_last, sizes) in
          let e =
            evict-Evicted fuel limit kept ((current + 2 ^ 32 - entry_size last) % 2 ^ 32)
              (omega (arith, length-pop_oldest h table)) less (omega arith) small_kept in
          rw (over, evict)
            (record {
              dropped = e.dropped ++ (last ∷ []);
              front =
                  sym (pop_oldest-append h table)
                  ∙ ap (λ t. t ++ (last ∷ [])) e.front
                  ∙ append_assoc _ e.dropped (last ∷ []);
              needed =
                  Needed-concat limit kept _ e.dropped last e.front e.needed
                    (omega (arith, ltb→lt limit current over, sizes));
              counted = e.counted;
              within = e.within;
              small = e.small;
            })
      | inr fits ↦
          rw (fits, evict)
            (record {
              dropped = [];
              front = sym (append-nil (h ∷ table));
              needed = tt;
              counted = n;
              within = ground arith;
              small = s;
            })
    ]

-- On a valid table, `evict_until_size` drops entries from the old end only, none that would have
-- fitted beside those it keeps, and the size that it keeps is that of the entries left, within the
-- limit.
pub evict_until_size-Evicted :
    (c : HpackContext) (limit : ℕ)
    → IsValid c
    → Evicted limit c.dynamic_table
        (evict_until_size c limit).dynamic_table
        (evict_until_size c limit).current_table_size
unfolding evict_until_size
evict_until_size-Evicted c limit v =
    evict-Evicted (length c.dynamic_table) limit c.dynamic_table c.current_table_size (omega arith)
      v.counted (omega (arith, v.within, v.max_fits)) v.small

-- A new maximum size leaves a valid table, within the new maximum.
pub set_max_table_size-IsValid :
    (c : HpackContext) (new_max : ℕ)
    → IsValid c
    → new_max < 2 ^ 32
    → IsValid (set_max_table_size c new_max)
unfolding set_max_table_size evict_until_size
set_max_table_size-IsValid c new_max v cap =
    let e =
      evict-Evicted (length c.dynamic_table) new_max c.dynamic_table c.current_table_size
        (omega arith) v.counted (omega (arith, v.within, v.max_fits)) v.small in
    record { counted = e.counted; within = e.within; max_fits = cap; small = e.small }

-- Adding an entry leaves a valid table, whether the entry fits or is larger than the whole table.
pub add_to_dynamic_table-IsValid :
    (c : HpackContext) (h : Header) → IsValid c → IsSmall h → IsValid (add_to_dynamic_table c h)
unfolding add_to_dynamic_table evict_until_size
add_to_dynamic_table-IsValid c h v s = elim (Bool-cases (ltb c.max_table_size (entry_size h))) [
  | inl large ↦
      rw (large)
        (record { counted = refl; within = omega arith; max_fits = v.max_fits; small = tt })
  | inr fits ↦
      let room : entry_size h ≤ c.max_table_size = ground arith in
      let e =
        evict-Evicted (length c.dynamic_table) (c.max_table_size - entry_size h) c.dynamic_table
          c.current_table_size (omega arith) v.counted (omega (arith, v.within, v.max_fits))
          v.small in
      let full = entry_size-full_size h s in
      rw fits (record {
        counted = omega (arith, full, e.counted, e.within, v.max_fits);
        within = omega (arith, e.within);
        max_fits = v.max_fits;
        small = (s, e.small);
      })
]
