-- ===== src/V1/Text.antt =====
-- source/v1/engine.cpp: the helpers on text, and the parsers of a line. A `std::string_view` is the
-- list of its bytes, and `find(c)` with the two `substr` calls that follow it is a split in two.
use stunning_waddle.Base.{
  ℕ, suc, ◌+◌, ◌-◌, ◌^◌, Bool, true, false, not, ◌&&◌, ◌||◌, [], ◌∷◌, ◌++◌, Option, none, some,
  Bytes, codes, length, take, drop, is_empty, str_eq, if◌then◌else◌, ◌==◌, leb, ltb, get_or, ℤ, pos,
  negsuc,
}
use stunning_waddle.Decimal.{from_chars, to_string}
use stunning_waddle.ErrorCodes.{message}
use stunning_waddle.Headers.{Headers}

-- `std::tolower` in the "C" locale.
unfoldable pub tolower : ℕ → ℕ
tolower c = if leb 65 c && leb c 90 then c + 32 else c

unfoldable pub to_lower : Bytes → Bytes
to_lower [] = []
to_lower (c ∷ s) = tolower c ∷ to_lower s

abbrev pub is_ows : ℕ → Bool
is_ows c = c == 32 || c == 9

-- The first loop of `trim_ows`.
unfoldable pub trim_front : Bytes → Bytes
trim_front [] = []
trim_front (c ∷ s) = let rest = trim_front s in if is_ows c then rest else c ∷ s

-- The second loop, which drops what is left of the text once all behind it is gone.
unfoldable pub trim_back : Bytes → Bytes
trim_back [] = []
trim_back (c ∷ s) = let rest = trim_back s in if is_empty rest && is_ows c then [] else c ∷ rest

unfoldable pub trim_ows : Bytes → Bytes
trim_ows s = trim_back (trim_front s)

unfoldable pub iequals : Bytes → Bytes → Bool
iequals [] [] = true
iequals (a ∷ s) (b ∷ t) = tolower a == tolower b && iequals s t
iequals _ _ = false

unfoldable pub find_header_ci : Headers → Bytes → Bytes
find_header_ci [] name = []
find_header_ci (hdr ∷ h) name = if iequals hdr.name name then hdr.value else find_header_ci h name

-- The text before the first `c`, and the text behind it.
unfoldable pub split_at : ℕ → Bytes → Option (Bytes × Bytes)
split_at c [] = none
split_at c (x ∷ s) =
    if x == c
    then some ([], s)
    else elim (split_at c s) [ none ↦ none | some (a, b) ↦ some (x ∷ a, b) ]

abbrev pub starts_with : Bytes → Bytes → Bool
starts_with p s = str_eq (take (length p) s) p

-- `s.find(p) != npos`
unfoldable pub contains : Bytes → Bytes → Bool
contains p [] = is_empty p
contains p (c ∷ s) = starts_with p (c ∷ s) || contains p s

unfoldable pub reason_phrase : ℕ → Bytes
reason_phrase status_code =
    let msg = message status_code in
    if str_eq msg (codes "HTTP " ++ to_string status_code) then [] else msg

-- `std::from_chars` into an `int`, which reads a minus sign.
unfoldable pub from_chars_int : Bytes → Option (ℤ × Bytes)
from_chars_int [] = none
from_chars_int (c ∷ s) =
    if c == 45
    then elim (from_chars 10 (2 ^ 31 + 1) s) [
      | none ↦ none
      | some (n, rest) ↦ some (if n == 0 then pos 0 else negsuc (n - 1), rest)
    ]
    else elim (from_chars 10 (2 ^ 31) (c ∷ s)) [ none ↦ none | some (n, rest) ↦ some (pos n, rest) ]

-- `std::to_string` of an `int`.
unfoldable pub to_string_int : ℤ → Bytes
to_string_int (pos n) = to_string n
to_string_int (negsuc n) = 45 ∷ to_string (suc n)

abbrev pub is_digit : ℕ → Bool
is_digit c = leb 48 c && leb c 57

abbrev pub version_prefix : Bytes
version_prefix = codes "HTTP/1."

-- What the two line parsers do to the engine and tell it: the new `http_minor_`, if they set it,
-- and the parts of the line, if it is accepted.
pub record LineResult (A : Type 0) : Type 0 where
  pub minor : Option ℕ
  pub parts : Option A

abbrev pub refused : {A : Type 0} → LineResult A
refused = record { minor = none; parts = none }

-- A number that fills the whole text.
unfoldable pub whole : {A : Type 0} → Option (A × Bytes) → Option A
whole none = none
whole (some (a, [])) = some a
whole (some (a, c ∷ s)) = none

unfoldable pub parse_status_line : Bytes → LineResult ℤ
parse_status_line line =
    let digit = get_or line 7 0 in
    if ltb (length line) 12
    then refused
    else if not (str_eq (take 7 line) version_prefix)
    then refused
    else if not (get_or line 8 0 == 32)
    then refused
    else if not (is_digit digit)
    then refused
    else record { minor = some (digit - 48); parts = whole (from_chars_int (take 3 (drop 9 line))) }

-- The end of `parse_request_line`, once both spaces are found.
unfoldable pub parse_version : Bytes → Bytes → Bytes → LineResult (Bytes × Bytes)
parse_version method target version =
    let digit = get_or version 7 0 in
    if not (length version == 8) || not (str_eq (take 7 version) version_prefix)
    then refused
    else if not (is_digit digit)
    then refused
    else record {
      minor = some (digit - 48);
      parts = if is_empty target then none else some (method, target);
    }

unfoldable pub parse_request_line : Bytes → LineResult (Bytes × Bytes)
parse_request_line line = elim (split_at 32 line) [
  | none ↦ refused
  | some (method, rest) ↦ if is_empty method then refused else elim (split_at 32 rest) [
    | none ↦ refused
    | some (target, version) ↦ parse_version method target version
  ]
]

unfoldable pub parse_content_length : Bytes → Option ℕ
parse_content_length value = whole (from_chars 10 (2 ^ 64) value)

-- `line.substr(0, line.find(';'))`
unfoldable pub before_semicolon : Bytes → Bytes
before_semicolon line = elim (split_at 59 line) [ none ↦ line | some (a, b) ↦ a ]

-- The size of a `case parse_state::chunk_size` line, with a chunk extension behind `;`.
unfoldable pub parse_chunk_size : Bytes → Option ℕ
parse_chunk_size line = whole (from_chars 16 (2 ^ 64) (trim_ows (before_semicolon line)))
