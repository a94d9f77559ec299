-- ===== src/Headers/Laws.antt =====
-- What a reader of a list of header fields can rely on.
use stunning_waddle.Base.{
  ◌+◌, ◌≡◌, ◌≢◌, ◌↔◌, refl, true, [], ◌∷◌, ◌++◌, some, Bytes, str_eq_iff, str_eq_refl, arith,
}
use stunning_waddle.Headers.{Header, Headers, add, size, at, get, header_eq}

pub header_eq_iff : (a b : Header) → (header_eq a b ≡ true) ↔ (a ≡ b)
unfolding header_eq
header_eq_iff a b = ground (arith, str_eq_iff a.name b.name, str_eq_iff a.value b.value)

-- The name occurs in no field.
abbrev pub Absent : Bytes → Headers → Type 0
Absent name [] = Unit
Absent name (h ∷ data_) = (h.name ≢ name) × Absent name data_

-- `get` returns the value of the first field with the name, when no field before it has the name:
-- fields before it and behind it make no difference.
pub get-append :
    (before after : Headers) (h : Header)
    → Absent h.name before
    → get (before ++ (h ∷ after)) h.name ≡ h.value
unfolding get
get-append [] after h absent = rw (str_eq_refl h.name)
get-append (x ∷ before) after h (ne, absent) =
    ground (arith, str_eq_iff x.name h.name, get-append before after h absent)

-- `add` puts the field at the end: it is found at the old size, which grows by one.
pub at-add :
    (data_ : Headers) (name value : Bytes)
    → (at (add data_ name value) (size data_) ≡ some (record { name = name; value = value }))
      × (size (add data_ name value) ≡ size data_ + 1)
unfolding at add size
at-add [] name value = (refl, refl)
at-add (h ∷ data_) name value =
    let (found, longer) = at-add data_ name value in (found, omega (arith, longer))
