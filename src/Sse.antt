-- ===== src/Sse.antt =====
-- include/http/sse.h and source/sse.cpp: the parser of server-sent events. The events that a call
-- hands to `on_event` are its second result. `none` is undefined behaviour: `back()` of an empty
-- string.
pub mod Split
pub mod LineEnds
pub mod RoundTrip
use stunning_waddle.Base.{
  ℕ, ◌+◌, ◌^◌, Bool, true, false, ◌&&◌, ◌||◌, not, List, [], ◌∷◌, ◌++◌, Option, none, some, Bytes,
  codes, is_empty, length, str_eq, if◌then◌else◌, ◌==◌, leb, ltb,
}
use stunning_waddle.Decimal.{from_digits}

-- `retry` is the number of milliseconds as `std::stoull` returns it.
pub record SseEvent : Type 0 where
  pub id : Bytes
  pub type : Bytes
  pub data_ : Bytes
  pub retry : Option ℕ

pub data SseState : Type 0 where
  init start_line in_field_name after_colon in_field_value in_comment : SseState

pub record SseParser : Type 0 where
  pub state : SseState
  pub last_was_cr : Bool
  pub current_event : SseEvent
  pub current_field_name : Bytes
  pub current_field_value : Bytes

abbrev pub empty_event : SseEvent
empty_event = record { id = []; type = []; data_ = []; retry = none }

abbrev pub initial_sse : SseParser
initial_sse = record {
  state = init;
  last_was_cr = false;
  current_event = empty_event;
  current_field_name = [];
  current_field_value = [];
}

unfoldable pub strip_utf8_bom : Bytes → Bytes
strip_utf8_bom (a ∷ b ∷ c ∷ rest) =
    if (a == 0xEF) && (b == 0xBB) && (c == 0xBF) then rest else a ∷ b ∷ c ∷ rest
strip_utf8_bom chunk = chunk

unfoldable pub all_digits : Bytes → Bool
all_digits [] = true
all_digits (c ∷ s) = leb 48 c && leb c 57 && all_digits s

-- `value.find('\0') == npos`
unfoldable pub has_no_nul : Bytes → Bool
has_no_nul [] = true
has_no_nul (c ∷ s) = not (c == 0) && has_no_nul s

-- `std::stoull` on digits: out of range from 2^64 on, which leaves `retry` as it is.
unfoldable pub set_retry : SseEvent → Bytes → SseEvent
set_retry ev value =
    let ms = (from_digits 10 0 value).0 in
    if not (is_empty value) && all_digits value && ltb ms (2 ^ 64)
    then record ev { retry = some ms }
    else ev

-- `process_field` on the event.
unfoldable pub process_field : SseEvent → Bytes → Bytes → SseEvent
process_field ev name value =
    if str_eq name (codes "data")
    then record ev { data_ = (ev.data_ ++ value) ++ (10 ∷ []) }
    else if str_eq name (codes "event")
    then record ev { type = value }
    else if str_eq name (codes "id")
    then (if has_no_nul value then record ev { id = value } else ev)
    else if str_eq name (codes "retry")
    then set_retry ev value
    else ev

-- The three assignments after a line end.
unfoldable pub next_line : SseParser → SseEvent → SseParser
next_line p ev = record p {
  state = start_line;
  current_event = ev;
  current_field_name = [];
  current_field_value = [];
}

-- `data.back() == '\n'` and `data.pop_back()`, on a text that is not empty.
unfoldable pub strip_lf : ℕ → Bytes → Bytes
strip_lf c [] = if c == 10 then [] else c ∷ []
strip_lf c (d ∷ s) = c ∷ strip_lf d s

-- An empty line.
unfoldable pub dispatch : SseParser → Option (SseParser × List SseEvent)
dispatch p =
    let ev = p.current_event in
    let cleared = next_line p (record ev { type = []; data_ = [] }) in
    if is_empty ev.data_ && is_empty ev.type && is_empty ev.id
    then some (cleared, [])
    else elim ev.data_ [
      | [] ↦ none
      | c ∷ s ↦ some (cleared, record ev { data_ = strip_lf c s } ∷ [])
    ]

-- A line end, by the state.
unfoldable pub end_line : SseParser → Option (SseParser × List SseEvent)
end_line p = elim p.state [
  | init ↦ dispatch p
  | start_line ↦ dispatch p
  | in_field_name ↦ some (next_line p (process_field p.current_event p.current_field_name []), [])
  | after_colon ↦
      some
        (next_line p (process_field p.current_event p.current_field_name p.current_field_value), [])
  | in_field_value ↦
      some
        (next_line p (process_field p.current_event p.current_field_name p.current_field_value), [])
  | in_comment ↦ some (next_line p p.current_event, [])
]

unfoldable pub name_byte : SseParser → ℕ → SseParser
name_byte p c = record p {
  state = in_field_name;
  current_field_name = p.current_field_name ++ (c ∷ []);
}

unfoldable pub value_byte : SseParser → ℕ → SseParser
value_byte p c = record p {
  state = in_field_value;
  current_field_value = p.current_field_value ++ (c ∷ []);
}

-- Any other byte, by the state.
unfoldable pub line_byte : SseParser → ℕ → SseParser
line_byte p c = elim p.state [
  | init ↦ if c == 58 then record p { state = in_comment } else name_byte p c
  | start_line ↦ if c == 58 then record p { state = in_comment } else name_byte p c
  | in_comment ↦ p
  | in_field_name ↦ if c == 58 then record p { state = after_colon } else name_byte p c
  | after_colon ↦ if c == 32 then record p { state = in_field_value } else value_byte p c
  | in_field_value ↦ value_byte p c
]

-- One turn of the loop.
unfoldable pub parse_byte : SseParser → ℕ → Option (SseParser × List SseEvent)
parse_byte p c =
    if p.last_was_cr && (c == 10)
    then some (record p { last_was_cr = false }, [])
    else if (c == 10) || (c == 13)
    then end_line (record p { last_was_cr = c == 13 })
    else some (line_byte (record p { last_was_cr = false }) c, [])

unfoldable pub parse_bytes : SseParser → Bytes → Option (SseParser × List SseEvent)
parse_bytes p [] = some (p, [])
parse_bytes p (c ∷ bytes) = elim (parse_byte p c) [
  | none ↦ none
  | some r ↦ elim (parse_bytes r.0 bytes) [ none ↦ none | some q ↦ some (q.0, r.1 ++ q.1) ]
]

-- `sse_parser::parse`
unfoldable pub parse_chunk : SseParser → Bytes → Option (SseParser × List SseEvent)
parse_chunk p chunk = elim p.state [
  | init ↦ parse_bytes (record p { state = start_line }) (strip_utf8_bom chunk)
  | start_line ↦ parse_bytes p chunk
  | in_field_name ↦ parse_bytes p chunk
  | after_colon ↦ parse_bytes p chunk
  | in_field_value ↦ parse_bytes p chunk
  | in_comment ↦ parse_bytes p chunk
]

-- `reset` leaves `last_was_cr_` as it is.
unfoldable pub reset : SseParser → SseParser
reset p = record p {
  state = init;
  current_event = empty_event;
  current_field_name = [];
  current_field_value = [];
}
