-- ===== src/Sse/RoundTrip.antt =====
-- source/sse.cpp: an event written in the format is dispatched with the type and the data written.
use stunning_waddle.Base.{
  ℕ, ◌≡◌, refl, sym, ap, ◌∙◌, Bool, true, false, List, [], ◌∷◌, ◌++◌, append_assoc, append-nil,
  none, some, Bytes, codes, All, is_empty, str_eq, ◌==◌, arith,
}
use stunning_waddle.Sse.{
  SseParser, SseEvent, start_line, in_field_name, after_colon, in_field_value, parse_bytes,
  parse_byte, end_line, line_byte, name_byte, value_byte, next_line, dispatch, process_field,
  strip_lf,
}
use stunning_waddle.Sse.Split.{
  and_then, and_then_nil, parse_bytes-append, parse_bytes-cons, parse_bytes-nil,
}

abbrev IsText : ℕ → Type 0
IsText c = ((c == 10) ≡ false) × ((c == 13) ≡ false)

abbrev IsName : ℕ → Type 0
IsName c = IsText c × ((c == 58) ≡ false)

-- A value that stands on one line.
abbrev pub OneLine : Bytes → Type 0
OneLine s = All IsText s

abbrev pub field_line : Bytes → Bytes → Bytes
field_line name value = name ++ (58 ∷ 32 ∷ (value ++ (10 ∷ [])))

abbrev pub data_lines : Bytes → List Bytes → Bytes
data_lines line [] = field_line (codes "data") line
data_lines line (next ∷ lines) = field_line (codes "data") line ++ data_lines next lines

-- The lines of an event's data, with a line feed between them.
abbrev pub joined : Bytes → List Bytes → Bytes
joined line [] = line
joined line (next ∷ lines) = line ++ (10 ∷ joined next lines)

abbrev pub event_text : Bytes → Bytes → List Bytes → Bytes
event_text type line lines = field_line (codes "event") type ++ (data_lines line lines ++ (10 ∷ []))

-- The parser at the beginning of a line.
abbrev pub at_line : SseEvent → SseParser
at_line ev = record {
  state = start_line;
  last_was_cr = false;
  current_event = ev;
  current_field_name = [];
  current_field_value = [];
}

abbrev in_name : Bytes → SseEvent → SseParser
in_name name ev = record (at_line ev) { state = in_field_name; current_field_name = name }

abbrev in_value : Bytes → Bytes → SseEvent → SseParser
in_value name value ev = record (at_line ev) {
  state = in_field_value;
  current_field_name = name;
  current_field_value = value;
}

quiet :
    (p q : SseParser) (c : ℕ) (rest : Bytes)
    → parse_byte p c ≡ some (q, [])
    → parse_bytes p (c ∷ rest) ≡ parse_bytes q rest
quiet p q c rest h =
    parse_bytes-cons c rest p
    ∙ ap (λ r. and_then r (λ x. parse_bytes x rest)) h
    ∙ and_then_nil q (parse_bytes q rest)

name_step :
    (name : Bytes) (ev : SseEvent) (c : ℕ)
    → IsName c
    → parse_byte (in_name name ev) c ≡ some (in_name (name ++ (c ∷ [])) ev, [])
unfolding parse_byte line_byte name_byte
name_step name ev c ((l, r), k) = rw (l, r, parse_byte, k, line_byte) refl

value_step :
    (name value : Bytes) (ev : SseEvent) (c : ℕ)
    → IsText c
    → parse_byte (in_value name value ev) c ≡ some (in_value name (value ++ (c ∷ [])) ev, [])
unfolding parse_byte line_byte value_byte
value_step name value ev c (l, r) = rw (l, r, parse_byte) refl

first_step :
    (ev : SseEvent) (c : ℕ) → IsName c → parse_byte (at_line ev) c ≡ some (in_name (c ∷ []) ev, [])
unfolding parse_byte line_byte name_byte
first_step ev c ((l, r), k) = rw (l, r, parse_byte, k, line_byte) refl

name_run :
    (s rest name : Bytes) (ev : SseEvent)
    → All IsName s
    → parse_bytes (in_name name ev) (s ++ rest) ≡ parse_bytes (in_name (name ++ s) ev) rest
name_run [] rest name ev h = ap (λ n. parse_bytes (in_name n ev) rest) (sym (append-nil name))
name_run (c ∷ s) rest name ev (hc, hs) =
    quiet (in_name name ev) (in_name (name ++ (c ∷ [])) ev) c (s ++ rest) (name_step name ev c hc)
    ∙ name_run s rest (name ++ (c ∷ [])) ev hs
    ∙ ap (λ n. parse_bytes (in_name n ev) rest) (append_assoc name (c ∷ []) s)

value_run :
    (s rest name value : Bytes) (ev : SseEvent)
    → All IsText s
    → parse_bytes (in_value name value ev) (s ++ rest)
      ≡ parse_bytes (in_value name (value ++ s) ev) rest
value_run [] rest name value ev h =
    ap (λ v. parse_bytes (in_value name v ev) rest) (sym (append-nil value))
value_run (c ∷ s) rest name value ev (hc, hs) =
    quiet (in_value name value ev) (in_value name (value ++ (c ∷ [])) ev) c (s ++ rest)
      (value_step name value ev c hc)
    ∙ value_run s rest name (value ++ (c ∷ [])) ev hs
    ∙ ap (λ v. parse_bytes (in_value name v ev) rest) (append_assoc value (c ∷ []) s)

colon_step :
    (name : Bytes) (ev : SseEvent)
    → parse_byte (in_name name ev) 58 ≡ some (record (in_name name ev) { state = after_colon }, [])
unfolding parse_byte line_byte
colon_step name ev = refl

space_step :
    (name : Bytes) (ev : SseEvent)
    → parse_byte (record (in_name name ev) { state = after_colon }) 32
      ≡ some (in_value name [] ev, [])
unfolding parse_byte line_byte
space_step name ev = refl

end_step :
    (name value : Bytes) (ev : SseEvent)
    → parse_byte (in_value name value ev) 10 ≡ some (at_line (process_field ev name value), [])
unfolding parse_byte end_line next_line
end_step name value ev = refl

-- A whole field line.
field_line-run :
    (c : ℕ) (name value rest : Bytes) (ev : SseEvent)
    → All IsName (c ∷ name)
    → OneLine value
    → parse_bytes (at_line ev) (field_line (c ∷ name) value ++ rest)
      ≡ parse_bytes (at_line (process_field ev (c ∷ name) value)) rest
field_line-run c name value rest ev (hc, hs) v =
    let tail : Bytes = 58 ∷ 32 ∷ (value ++ (10 ∷ [])) in
    let whole : Bytes = c ∷ name in
    quiet (at_line ev) (in_name (c ∷ []) ev) c ((name ++ tail) ++ rest) (first_step ev c hc)
    ∙ ap (λ b. parse_bytes (in_name (c ∷ []) ev) b) (append_assoc name tail rest)
    ∙ name_run name (tail ++ rest) (c ∷ []) ev hs
    ∙ quiet (in_name whole ev) (record (in_name whole ev) { state = after_colon }) 58
        (32 ∷ ((value ++ (10 ∷ [])) ++ rest)) (colon_step whole ev)
    ∙ quiet (record (in_name whole ev) { state = after_colon }) (in_value whole [] ev) 32
        ((value ++ (10 ∷ [])) ++ rest) (space_step whole ev)
    ∙ ap (λ b. parse_bytes (in_value whole [] ev) b) (append_assoc value (10 ∷ []) rest)
    ∙ value_run value (10 ∷ rest) whole [] ev v
    ∙ quiet (in_value whole value ev) (at_line (process_field ev whole value)) 10 rest
        (end_step whole value ev)

data_field :
    (ev : SseEvent) (line : Bytes)
    → process_field ev (codes "data") line ≡ record ev { data_ = (ev.data_ ++ line) ++ (10 ∷ []) }
unfolding process_field str_eq
data_field ev line = refl

type_field :
    (ev : SseEvent) (type : Bytes)
    → process_field ev (codes "event") type ≡ record ev { type = type }
unfolding process_field str_eq
type_field ev type = refl

data-IsName : All IsName (codes "data")
data-IsName = ground arith

event-IsName : All IsName (codes "event")
event-IsName = ground arith

data_line-run :
    (line rest : Bytes) (ev : SseEvent)
    → OneLine line
    → parse_bytes (at_line ev) (field_line (codes "data") line ++ rest)
      ≡ parse_bytes (at_line (record ev { data_ = (ev.data_ ++ line) ++ (10 ∷ []) })) rest
data_line-run line rest ev h =
    field_line-run 100 (codes "ata") line rest ev data-IsName h
    ∙ ap (λ e. parse_bytes (at_line e) rest) (data_field ev line)

data_lines-run :
    (line : Bytes) (lines : List Bytes) (rest : Bytes) (ev : SseEvent)
    → OneLine line
    → All OneLine lines
    → parse_bytes (at_line ev) (data_lines line lines ++ rest)
      ≡ parse_bytes
          (at_line (record ev { data_ = (ev.data_ ++ joined line lines) ++ (10 ∷ []) }))
          rest
data_lines-run line [] rest ev h hs = data_line-run line rest ev h
data_lines-run line (next ∷ lines) rest ev h (hn, hs) =
    let more : SseEvent = record ev { data_ = (ev.data_ ++ line) ++ (10 ∷ []) } in
    ap (λ b. parse_bytes (at_line ev) b)
      (append_assoc (field_line (codes "data") line) (data_lines next lines) rest)
    ∙ data_line-run line (data_lines next lines ++ rest) ev h
    ∙ data_lines-run next lines rest more hn hs
    ∙ ap (λ d. parse_bytes (at_line (record ev { data_ = d ++ (10 ∷ []) })) rest)
        (append_assoc (ev.data_ ++ line) (10 ∷ []) (joined next lines)
          ∙ append_assoc ev.data_ line (10 ∷ joined next lines))

strip_lf-append : (c : ℕ) (s : Bytes) → strip_lf c (s ++ (10 ∷ [])) ≡ c ∷ s
unfolding strip_lf
strip_lf-append c [] = refl
strip_lf-append c (d ∷ s) = ap (λ r. c ∷ r) (strip_lf-append d s)

blank_step :
    (ev : SseEvent) (text : Bytes)
    → parse_byte (at_line (record ev { data_ = text ++ (10 ∷ []) })) 10
      ≡ some (at_line (record ev { type = []; data_ = [] }), record ev { data_ = text } ∷ [])
unfolding parse_byte end_line dispatch next_line strip_lf
blank_step ev [] = refl
blank_step ev (c ∷ s) =
    ap (λ d. some (at_line (record ev { type = []; data_ = [] }), record ev { data_ = d } ∷ []))
      (strip_lf-append c s)

-- An event written as an `event` line, one or more `data` lines and an empty line, in texts that
-- hold no line ends, is dispatched as one event with that type, the data lines joined by line feeds,
-- and the id and retry of the events before it. The parser is at the beginning of a line again, with
-- type and data cleared.
pub parse_bytes-event_text :
    (ev : SseEvent) (type line : Bytes) (lines : List Bytes)
    → ev.data_ ≡ []
    → OneLine type
    → OneLine line
    → All OneLine lines
    → parse_bytes (at_line ev) (event_text type line lines)
      ≡ some (
        at_line (record ev { type = []; data_ = [] }),
        record ev { type = type; data_ = joined line lines } ∷ [],
      )
parse_bytes-event_text ev type line lines d t h hs =
    let typed : SseEvent = record ev { type = type } in
    let text : Bytes = joined line lines in
    field_line-run 101 (codes "vent") type (data_lines line lines ++ (10 ∷ [])) ev event-IsName t
    ∙ ap (λ e. parse_bytes (at_line e) (data_lines line lines ++ (10 ∷ []))) (type_field ev type)
    ∙ data_lines-run line lines (10 ∷ []) typed h hs
    ∙ ap (λ p. parse_bytes (at_line (record typed { data_ = (p ++ text) ++ (10 ∷ []) })) (10 ∷ []))
        d
    ∙ parse_bytes-cons 10 [] (at_line (record typed { data_ = text ++ (10 ∷ []) }))
    ∙ ap (λ r. and_then r (λ q. parse_bytes q [])) (blank_step typed text)
    ∙ ap
        (λ y.
          and_then
            (some (
              at_line (record typed { type = []; data_ = [] }),
              record typed { data_ = text } ∷ [],
            ))
            (λ _. y))
        (parse_bytes-nil (at_line (record typed { type = []; data_ = [] })))

blank_undefined :
    (ev : SseEvent) → ev.data_ ≡ [] → is_empty ev.id ≡ false → parse_byte (at_line ev) 10 ≡ none
unfolding parse_byte end_line dispatch
blank_undefined ev d i = go (is_empty ev.type) refl
  where
    go : (b : Bool) → is_empty ev.type ≡ b → parse_byte (at_line ev) 10 ≡ none
    go true t = rw (d, i, t, parse_byte) refl
    go false t = rw (d, t, parse_byte) refl

-- Once an id is set, an empty line behind an event, where the format asks for no event, is undefined
-- behaviour: the parser takes the last character of the empty data.
pub parse_bytes-empty_line :
    (ev : SseEvent) (type line : Bytes) (lines : List Bytes)
    → ev.data_ ≡ []
    → is_empty ev.id ≡ false
    → OneLine type
    → OneLine line
    → All OneLine lines
    → parse_bytes (at_line ev) (event_text type line lines ++ (10 ∷ [])) ≡ none
parse_bytes-empty_line ev type line lines d i t h hs =
    let after : SseEvent = record ev { type = []; data_ = [] } in
    parse_bytes-append (event_text type line lines) (10 ∷ []) (at_line ev)
    ∙ ap (λ r. and_then r (λ q. parse_bytes q (10 ∷ [])))
        (parse_bytes-event_text ev type line lines d t h hs)
    ∙ ap
        (λ y.
          and_then (some (at_line after, record ev { type = type; data_ = joined line lines } ∷ []))
            (λ _. y))
        (parse_bytes-cons 10 [] (at_line after)
          ∙ ap (λ r. and_then r (λ q. parse_bytes q [])) (blank_undefined after refl i))
