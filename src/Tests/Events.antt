-- ===== src/Tests/Events.antt =====
-- source/sse.cpp on concrete input.
use stunning_waddle.Base.{◌≡◌, refl, [], ◌∷◌, ◌++◌, some, none, codes, inr, arith}
use stunning_waddle.Sse.{SseEvent, empty_event, initial_sse, parse_bytes, parse_chunk}
use stunning_waddle.Sse.Split.{and_then, parse_chunk-append}
use stunning_waddle.Sse.LineEnds.{crlf, parse_bytes-crlf}
use stunning_waddle.Sse.RoundTrip.{
  at_line, event_text, joined, parse_bytes-event_text, parse_bytes-empty_line,
}

abbrev numbered : SseEvent
numbered = record empty_event { id = 55 ∷ [] }

parse_chunk-append_example :
    parse_chunk initial_sse (codes "data: a" ++ codes "b")
    ≡ and_then (parse_chunk initial_sse (codes "data: a")) (λ q. parse_chunk q (codes "b"))
parse_chunk-append_example =
    parse_chunk-append initial_sse (codes "data: a") (codes "b") (inr (omega arith))

parse_bytes-crlf_example :
    parse_bytes (at_line numbered) (crlf (codes "data: a" ++ (10 ∷ 10 ∷ [])))
    ≡ parse_bytes (at_line numbered) (codes "data: a" ++ (10 ∷ 10 ∷ []))
parse_bytes-crlf_example =
    parse_bytes-crlf (codes "data: a" ++ (10 ∷ 10 ∷ [])) (at_line numbered) refl (ground arith)

parse_bytes-event_text_example :
    parse_bytes (at_line numbered) (event_text (codes "tick") (codes "one") (codes "two" ∷ []))
    ≡ some (
      at_line (record numbered { type = []; data_ = [] }),
      record numbered { type = codes "tick"; data_ = joined (codes "one") (codes "two" ∷ []) } ∷ [],
    )
parse_bytes-event_text_example =
    parse_bytes-event_text numbered (codes "tick") (codes "one") (codes "two" ∷ []) refl
      (ground arith) (ground arith) (ground arith)

parse_bytes-empty_line_example :
    parse_bytes (at_line numbered) (event_text (codes "tick") (codes "one") [] ++ (10 ∷ [])) ≡ none
parse_bytes-empty_line_example =
    parse_bytes-empty_line numbered (codes "tick") (codes "one") [] refl refl (ground arith)
      (ground arith) tt
