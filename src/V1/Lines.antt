-- ===== src/V1/Lines.antt =====
-- source/v1/engine.cpp: reading back the lines that the sending side writes.
use stunning_waddle.Base.{
  ℕ, false, ◌≡◌, ◌∙◌, sym, [], ◌∷◌, ◌++◌, some, Bytes, arith, is_empty, if◌then◌else◌, refl, ap,
  All, All-append, append_assoc, ◌==◌, Bool-cases, inl, inr,
}
use stunning_waddle.Headers.{Header, Headers, add}
use stunning_waddle.V1.Text.{
  split_at, to_lower, tolower, trim_ows, trim_front, trim_back, iequals, find_header_ci,
}
use stunning_waddle.V1.Send.{crlf, header_lines}
use stunning_waddle.V1.State.{Engine}
use stunning_waddle.V1.Parse.{find_line, strip_cr, add_field_line}

-- A text without the character.
abbrev pub Lacks : ℕ → Bytes → Type 0
Lacks c = All (λ x. (x == c) ≡ false)

pub split_at-append : (c : ℕ) (a b : Bytes) → Lacks c a → split_at c (a ++ (c ∷ b)) ≡ some (a, b)
unfolding split_at
split_at-append c [] b h = ground arith
split_at-append c (x ∷ a) b (hx, h) = let ih = split_at-append c a b h in simp (hx, ih)

strip_cr-cr : (line : Bytes) → strip_cr (line ++ (13 ∷ [])) ≡ line
unfolding strip_cr
strip_cr-cr [] = refl
strip_cr-cr (c ∷ []) = ap (◌∷◌ c) (strip_cr-cr [])
strip_cr-cr (c ∷ d ∷ line) = ap (◌∷◌ c) (strip_cr-cr (d ∷ line))

-- A line that was written is found, whatever follows it.
pub find_line-crlf :
    (line after : Bytes) → Lacks 10 line → find_line (line ++ (crlf ++ after)) ≡ some (line, after)
unfolding find_line
find_line-crlf line after h =
    let found : split_at 10 (line ++ (crlf ++ after)) ≡ some (line ++ (13 ∷ []), after) =
      ap (split_at 10) (sym (append_assoc line (13 ∷ []) (10 ∷ after)))
      ∙ split_at-append 10 (line ++ (13 ∷ [])) after (All-append _ line (13 ∷ []) h (refl, tt)) in
    rw (found, find_line) (ap (λ l. some (l, after)) (strip_cr-cr line))

-- What the receiver makes of a field.
abbrev pub receive : Header → Header
receive hdr = record { name = to_lower hdr.name; value = trim_ows hdr.value }

unfoldable pub receive_all : Headers → Headers
receive_all [] = []
receive_all (hdr ∷ h) = receive hdr ∷ receive_all h

-- A field that a line can carry: a name, without a colon, and no line feed in either part.
pub record IsField (hdr : Header) : Type 0 where
  pub named : is_empty hdr.name ≡ false
  pub no_colon : Lacks 58 hdr.name
  pub name_in_line : Lacks 10 hdr.name
  pub value_in_line : Lacks 10 hdr.value

-- The line of a field, without its end.
abbrev pub field_line : Header → Bytes
field_line hdr = hdr.name ++ (58 ∷ 32 ∷ hdr.value)

pub field_line-Lacks : (hdr : Header) → IsField hdr → Lacks 10 (field_line hdr)
field_line-Lacks hdr f =
    All-append _ hdr.name (58 ∷ 32 ∷ hdr.value) f.name_in_line (refl, (refl, f.value_in_line))

pub field_line-some : (hdr : Header) → IsField hdr → is_empty (field_line hdr) ≡ false
field_line-some hdr f = go hdr.name f.named
  where
    go : (n : Bytes) → is_empty n ≡ false → is_empty (n ++ (58 ∷ 32 ∷ hdr.value)) ≡ false
    go [] h = refl
    go (c ∷ n) h = refl

pub add_field_line-field :
    (e : Engine) (hdr : Header)
    → IsField hdr
    → add_field_line e (field_line hdr)
      ≡ record e { message_headers = e.message_headers ++ (receive hdr ∷ []) }
unfolding add_field_line add trim_ows trim_front
add_field_line-field e hdr f =
    let named = record e { message_headers = e.message_headers ++ (receive hdr ∷ []) } in
    let found : add_field_line e (field_line hdr) ≡ (if is_empty hdr.name then e else named) =
      rw (split_at-append 58 hdr.name (32 ∷ hdr.value) f.no_colon, add_field_line) refl in
    found ∙ ap (λ b. if b then e else named) f.named

pub header_lines-cons :
    (hdr : Header) (h : Headers) (rest : Bytes)
    → header_lines (hdr ∷ h) ++ rest ≡ field_line hdr ++ (crlf ++ (header_lines h ++ rest))
unfolding header_lines
header_lines-cons hdr h rest = simp append_assoc

tolower-twice : (c : ℕ) → tolower (tolower c) ≡ tolower c
unfolding tolower
tolower-twice c = ground arith

iequals-to_lower : (a b : Bytes) → iequals (to_lower a) b ≡ iequals a b
unfolding iequals to_lower
iequals-to_lower [] [] = refl
iequals-to_lower [] (b ∷ t) = refl
iequals-to_lower (a ∷ s) [] = refl
iequals-to_lower (a ∷ s) (b ∷ t) = simp (tolower-twice, iequals-to_lower s t)

-- Fields are looked up in what was received as in what was sent, but for the white space around
-- their values.
pub find_header_ci-receive_all :
    (h : Headers) (name : Bytes)
    → find_header_ci (receive_all h) name ≡ trim_ows (find_header_ci h name)
unfolding find_header_ci receive_all trim_ows trim_front trim_back
find_header_ci-receive_all [] name = refl
find_header_ci-receive_all (hdr ∷ h) name = elim (Bool-cases (iequals hdr.name name)) [
  | inl q ↦ simp (iequals-to_lower, q)
  | inr q ↦ simp (iequals-to_lower, q, find_header_ci-receive_all h name)
]
