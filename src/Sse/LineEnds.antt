-- ===== src/Sse/LineEnds.antt =====
-- source/sse.cpp: the line ends of the format are one.
use stunning_waddle.Base.{
  ℕ, ◌≡◌, refl, sym, ap, ◌∙◌, Bool, true, false, ◌&&◌, List, [], ◌∷◌, Option, none, some, Bytes,
  is_empty, if◌then◌else◌, ◌==◌, arith, Bool-cases, ==_iff, inl, inr,
}
use stunning_waddle.Sse.{
  SseParser, SseEvent, SseState, init, start_line, in_field_name, after_colon, in_field_value,
  in_comment, parse_bytes, parse_byte, end_line, line_byte, name_byte, value_byte, next_line,
  dispatch,
}
use stunning_waddle.Sse.Split.{and_then, and_then_nil, parse_bytes-cons}

-- A text with every line feed made a carriage return and a line feed.
abbrev pub crlf : Bytes → Bytes
crlf [] = []
crlf (c ∷ s) = if c == 10 then 13 ∷ 10 ∷ crlf s else c ∷ crlf s

abbrev pub Without : ℕ → Bytes → Type 0
Without b [] = Unit
Without b (c ∷ s) = ((c == b) ≡ false) × Without b s

abbrev flag : Bool → Option (SseParser × List SseEvent) → Option (SseParser × List SseEvent)
flag b none = none
flag b (some r) = some (record r.0 { last_was_cr = b }, r.1)

dispatch-flag :
    (b : Bool) (p : SseParser) → dispatch (record p { last_was_cr = b }) ≡ flag b (dispatch p)
unfolding dispatch next_line
dispatch-flag b p =
    go
      (is_empty p.current_event.data_
        && is_empty p.current_event.type
        && is_empty p.current_event.id)
      refl p.current_event.data_ refl
  where
    go :
        (t : Bool)
        → (is_empty p.current_event.data_
            && is_empty p.current_event.type
            && is_empty p.current_event.id)
          ≡ t
        → (d : Bytes) → p.current_event.data_ ≡ d
        → dispatch (record p { last_was_cr = b }) ≡ flag b (dispatch p)
    go true t d k = rw (t, dispatch) refl
    go false t [] k = rw (t, k, dispatch) refl
    go false t (c ∷ s) k = rw (t, k, dispatch) refl

end_line-flag :
    (b : Bool) (p : SseParser) → end_line (record p { last_was_cr = b }) ≡ flag b (end_line p)
unfolding end_line next_line
end_line-flag b p = go p.state refl
  where
    go :
        (s : SseState) → p.state ≡ s → end_line (record p { last_was_cr = b }) ≡ flag b (end_line p)
    go init k = rw (k, end_line) (dispatch-flag b p)
    go start_line k = rw (k, end_line) (dispatch-flag b p)
    go in_field_name k = rw (k, end_line) refl
    go after_colon k = rw (k, end_line) refl
    go in_field_value k = rw (k, end_line) refl
    go in_comment k = rw (k, end_line) refl

cr_ends :
    (p : SseParser)
    → p.last_was_cr ≡ false
    → parse_byte p 13 ≡ end_line (record p { last_was_cr = true })
unfolding parse_byte
cr_ends p h = rw (h, parse_byte) refl

lf_ends :
    (p : SseParser)
    → p.last_was_cr ≡ false
    → parse_byte p 10 ≡ end_line (record p { last_was_cr = false })
unfolding parse_byte
lf_ends p h = rw (h, parse_byte) refl

parse_byte-cr : (p : SseParser) → p.last_was_cr ≡ false → parse_byte p 13 ≡ flag true (end_line p)
parse_byte-cr p h = cr_ends p h ∙ end_line-flag true p

parse_byte-lf : (p : SseParser) → p.last_was_cr ≡ false → parse_byte p 10 ≡ flag false (end_line p)
parse_byte-lf p h = lf_ends p h ∙ end_line-flag false p

skipped :
    (q : SseParser)
    → q.last_was_cr ≡ true
    → parse_byte q 10 ≡ some (record q { last_was_cr = false }, [])
unfolding parse_byte
skipped q h = rw (h, parse_byte) refl

skip_lf :
    (q : SseParser) (s : Bytes)
    → q.last_was_cr ≡ true
    → parse_bytes q (10 ∷ s) ≡ parse_bytes (record q { last_was_cr = false }) s
skip_lf q s h =
    parse_bytes-cons 10 s q
    ∙ ap (λ r. and_then r (λ q'. parse_bytes q' s)) (skipped q h)
    ∙ and_then_nil (record q { last_was_cr = false })
        (parse_bytes (record q { last_was_cr = false }) s)

skip_after :
    (x : Option (SseParser × List SseEvent)) (s : Bytes)
    → and_then (flag true x) (λ q. parse_bytes q (10 ∷ s))
      ≡ and_then (flag false x) (λ q. parse_bytes q s)
skip_after none s = refl
skip_after (some r) s =
    ap (λ y. and_then (some (r.0, r.1)) (λ _. y))
      (skip_lf (record r.0 { last_was_cr = true }) s refl)

two_ends :
    (p : SseParser) (s : Bytes)
    → p.last_was_cr ≡ false
    → parse_bytes p (13 ∷ 10 ∷ s) ≡ parse_bytes p (10 ∷ s)
two_ends p s h =
    parse_bytes-cons 13 (10 ∷ s) p
    ∙ ap (λ r. and_then r (λ q. parse_bytes q (10 ∷ s))) (parse_byte-cr p h)
    ∙ skip_after (end_line p) s
    ∙ sym (ap (λ r. and_then r (λ q. parse_bytes q s)) (parse_byte-lf p h))
    ∙ sym (parse_bytes-cons 10 s p)

abbrev Unflagged : Option (SseParser × List SseEvent) → Type 0
Unflagged none = Unit
Unflagged (some r) = r.0.last_was_cr ≡ false

flag-Unflagged : (x : Option (SseParser × List SseEvent)) → Unflagged (flag false x)
flag-Unflagged none = tt
flag-Unflagged (some r) = refl

line_byte-flag :
    (p : SseParser) (c : ℕ) → p.last_was_cr ≡ false → (line_byte p c).last_was_cr ≡ false
unfolding line_byte name_byte value_byte
line_byte-flag p c h = ground arith

parse_byte-Unflagged :
    (p : SseParser) (c : ℕ) → p.last_was_cr ≡ false → (c == 13) ≡ false → Unflagged (parse_byte p c)
unfolding parse_byte
parse_byte-Unflagged p c h k = go (c == 10) refl
  where
    go : (b : Bool) → (c == 10) ≡ b → Unflagged (parse_byte p c)
    go true t = rw ((==_iff c 10).0 t, parse_byte-lf p h) (flag-Unflagged (end_line p))
    go false t = rw (h, t, k, parse_byte) (line_byte-flag (record p { last_was_cr = false }) c refl)

same_rest :
    (x : Option (SseParser × List SseEvent)) (s t : Bytes)
    → Unflagged x
    → ((q : SseParser) → q.last_was_cr ≡ false → parse_bytes q s ≡ parse_bytes q t)
    → and_then x (λ q. parse_bytes q s) ≡ and_then x (λ q. parse_bytes q t)
same_rest none s t u h = refl
same_rest (some r) s t u h = ap (λ y. and_then (some r) (λ _. y)) (h r.0 u)

-- Lines may end with a carriage return and a line feed or with a line feed alone: on a text without
-- carriage returns, and its copy with both at each line end, the parser dispatches the same events
-- and ends in the same state, unless it starts right after a carriage return.
pub parse_bytes-crlf :
    (text : Bytes) (p : SseParser)
    → p.last_was_cr ≡ false
    → Without 13 text
    → parse_bytes p (crlf text) ≡ parse_bytes p text
parse_bytes-crlf [] p h w = refl
parse_bytes-crlf (c ∷ text) p h (ne, w) = elim (Bool-cases (c == 10)) [
  | inl t ↦
      let e : c ≡ 10 = (==_iff c 10).0 t in
      rw (t, e)
        (two_ends p (crlf text) h
          ∙ parse_bytes-cons 10 (crlf text) p
          ∙ same_rest (parse_byte p 10) (crlf text) text
              (rw (parse_byte-lf p h) (flag-Unflagged (end_line p)))
              (λ q u. parse_bytes-crlf text q u w)
          ∙ sym (parse_bytes-cons 10 text p))
  | inr f ↦ rw f (
      parse_bytes-cons c (crlf text) p
      ∙ same_rest (parse_byte p c) (crlf text) text (parse_byte-Unflagged p c h ne)
          (λ q u. parse_bytes-crlf text q u w)
      ∙ sym (parse_bytes-cons c text p))
]
