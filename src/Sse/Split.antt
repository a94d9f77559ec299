-- ===== src/Sse/Split.antt =====
-- source/sse.cpp: how the stream is cut into chunks, and how its lines end, makes no difference.
use stunning_waddle.Base.{
  ℕ, ◌≤◌, ◌≡◌, refl, sym, ap, ◌∙◌, Bool, true, false, List, [], ◌∷◌, ◌++◌, append_assoc, Option,
  none, some, Bytes, length, arith, ◌==◌, ◌&&◌, ◌||◌, ◌⊎◌, inl, inr, Bool-cases, is_empty,
}
use stunning_waddle.Sse.{
  in_field_name, after_colon, in_field_value, in_comment, SseParser, SseEvent, SseState, init,
  start_line, parse_bytes, parse_byte, parse_chunk, strip_utf8_bom, end_line, line_byte, name_byte,
  value_byte, next_line, dispatch,
}

-- One parse, then another from the state that it leaves, with the events of both in order.
abbrev pub and_then :
    Option (SseParser × List SseEvent)
    → (SseParser → Option (SseParser × List SseEvent))
    → Option (SseParser × List SseEvent)
and_then none next = none
and_then (some r) next = elim (next r.0) [ none ↦ none | some q ↦ some (q.0, r.1 ++ q.1) ]

and_then_assoc :
    (r : Option (SseParser × List SseEvent)) (f g : SseParser → Option (SseParser × List SseEvent))
    → and_then (and_then r f) g ≡ and_then r (λ p. and_then (f p) g)
and_then_assoc none f g = refl
and_then_assoc (some (p, evs)) f g = go (f p)
  where
    go :
        (x : Option (SseParser × List SseEvent))
        → and_then (and_then (some (p, evs)) (λ _. x)) g
          ≡ and_then (some (p, evs)) (λ _. and_then x g)
    go none = refl
    go (some (p2, evs2)) = go2 (g p2)
      where
        go2 :
            (y : Option (SseParser × List SseEvent))
            → and_then (some (p2, evs ++ evs2)) (λ _. y)
              ≡ and_then (some (p, evs)) (λ _. and_then (some (p2, evs2)) (λ _. y))
        go2 none = refl
        go2 (some (p3, evs3)) = ap (λ e. some (p3, e)) (append_assoc evs evs2 evs3)

pub and_then_nil :
    (p : SseParser) (x : Option (SseParser × List SseEvent)) → and_then (some (p, [])) (λ _. x) ≡ x
and_then_nil p none = refl
and_then_nil p (some q) = refl

pub and_then_congr :
    (r : Option (SseParser × List SseEvent)) (f g : SseParser → Option (SseParser × List SseEvent))
    → ((p : SseParser) → f p ≡ g p)
    → and_then r f ≡ and_then r g
and_then_congr none f g h = refl
and_then_congr (some r) f g h = ap (λ y. and_then (some r) (λ _. y)) (h r.0)

pub parse_bytes-cons :
    (c : ℕ) (xs : Bytes) (p : SseParser)
    → parse_bytes p (c ∷ xs) ≡ and_then (parse_byte p c) (λ q. parse_bytes q xs)
unfolding parse_bytes
parse_bytes-cons c xs p = go (parse_byte p c)
  where
    go :
        (r : Option (SseParser × List SseEvent))
        → (elim r as (λ _. Option (SseParser × List SseEvent)) [
          | none ↦ none
          | some r ↦ elim (parse_bytes r.0 xs) as (λ _. Option (SseParser × List SseEvent)) [
            | none ↦ none
            | some q ↦ some (q.0, r.1 ++ q.1)
          ]
        ])
          ≡ and_then r (λ q. parse_bytes q xs)
    go none = refl
    go (some r) = refl

pub parse_bytes-nil : (p : SseParser) → parse_bytes p [] ≡ some (p, [])
unfolding parse_bytes
parse_bytes-nil p = refl

pub parse_bytes-append :
    (xs ys : Bytes) (p : SseParser)
    → parse_bytes p (xs ++ ys) ≡ and_then (parse_bytes p xs) (λ q. parse_bytes q ys)
parse_bytes-append [] ys p =
    sym (and_then_nil p (parse_bytes p ys))
    ∙ ap (λ r. and_then r (λ q. parse_bytes q ys)) (sym (parse_bytes-nil p))
parse_bytes-append (c ∷ xs) ys p =
    parse_bytes-cons c (xs ++ ys) p
    ∙ and_then_congr (parse_byte p c) _ _ (parse_bytes-append xs ys)
    ∙ sym (and_then_assoc (parse_byte p c) (λ q. parse_bytes q xs) (λ q. parse_bytes q ys))
    ∙ ap (λ r. and_then r (λ q. parse_bytes q ys)) (sym (parse_bytes-cons c xs p))

abbrev pub is_init : SseState → Bool
is_init init = true
is_init _ = false

abbrev Started : Option (SseParser × List SseEvent) → Type 0
Started none = Unit
Started (some r) = is_init r.0.state ≡ false

dispatch-Started : (p : SseParser) → Started (dispatch p)
unfolding dispatch next_line
dispatch-Started p =
    go
      (is_empty p.current_event.data_
        && is_empty p.current_event.type
        && is_empty p.current_event.id)
      refl p.current_event.data_ refl
  where
    go :
        (b : Bool)
        → (is_empty p.current_event.data_
            && is_empty p.current_event.type
            && is_empty p.current_event.id)
          ≡ b
        → (d : Bytes) → p.current_event.data_ ≡ d
        → Started (dispatch p)
    go true t d k = rw (t, dispatch) refl
    go false t [] k = rw (t, k, dispatch) tt
    go false t (c ∷ s) k = rw (t, k, dispatch) refl

end_line-Started : (p : SseParser) → Started (end_line p)
unfolding end_line next_line
end_line-Started p = go p.state refl
  where
    go : (s : SseState) → p.state ≡ s → Started (end_line p)
    go init k = rw (k, end_line) (dispatch-Started p)
    go start_line k = rw (k, end_line) (dispatch-Started p)
    go in_field_name k = rw (k, end_line) refl
    go after_colon k = rw (k, end_line) refl
    go in_field_value k = rw (k, end_line) refl
    go in_comment k = rw (k, end_line) refl

line_byte-started :
    (p : SseParser) (c : ℕ) → is_init p.state ≡ false → is_init (line_byte p c).state ≡ false
unfolding line_byte name_byte value_byte
line_byte-started p c h = ground arith

parse_byte-Started : (p : SseParser) (c : ℕ) → is_init p.state ≡ false → Started (parse_byte p c)
unfolding parse_byte
parse_byte-Started p c h = go (p.last_was_cr && (c == 10)) refl ((c == 10) || (c == 13)) refl
  where
    go :
        (a : Bool)
        → (p.last_was_cr && (c == 10)) ≡ a
        → (b : Bool) → ((c == 10) || (c == 13)) ≡ b
        → Started (parse_byte p c)
    go true t b k = rw (t, parse_byte) h
    go false t true k =
        rw (t, k, parse_byte) (end_line-Started (record p { last_was_cr = c == 13 }))
    go false t false k =
        rw (t, k, parse_byte) (line_byte-started (record p { last_was_cr = false }) c h)

parse_bytes-Started :
    (xs : Bytes) (p : SseParser) → is_init p.state ≡ false → Started (parse_bytes p xs)
parse_bytes-Started [] p h = rw (parse_bytes-nil p) h
parse_bytes-Started (c ∷ xs) p h =
    rw (parse_bytes-cons c xs p)
      (go (parse_byte p c) (parse_byte-Started p c h) (λ q. parse_bytes-Started xs q))
  where
    go :
        (r : Option (SseParser × List SseEvent))
        → Started r
        → ((q : SseParser) → is_init q.state ≡ false → Started (parse_bytes q xs))
        → Started (and_then r (λ q. parse_bytes q xs))
    go none s ih = tt
    go (some r) s ih = go2 (parse_bytes r.0 xs) (ih r.0 s)
      where
        go2 :
            (x : Option (SseParser × List SseEvent))
            → Started x
            → Started (and_then (some r) (λ _. x))
        go2 none s2 = tt
        go2 (some q) s2 = s2

parse_chunk-started :
    (p : SseParser) (xs : Bytes) → is_init p.state ≡ false → parse_chunk p xs ≡ parse_bytes p xs
unfolding parse_chunk
parse_chunk-started p xs h = ground arith

and_then-Started :
    (r : Option (SseParser × List SseEvent)) (ys : Bytes)
    → Started r
    → and_then r (λ q. parse_bytes q ys) ≡ and_then r (λ q. parse_chunk q ys)
and_then-Started none ys s = refl
and_then-Started (some r) ys s =
    ap (λ y. and_then (some r) (λ _. y)) (sym (parse_chunk-started r.0 ys s))

strip_utf8_bom-append :
    (xs ys : Bytes) → 3 ≤ length xs → strip_utf8_bom (xs ++ ys) ≡ strip_utf8_bom xs ++ ys
unfolding strip_utf8_bom
strip_utf8_bom-append [] ys h = absurd (omega arith)
strip_utf8_bom-append (a ∷ []) ys h = absurd (omega arith)
strip_utf8_bom-append (a ∷ b ∷ []) ys h = absurd (omega arith)
strip_utf8_bom-append (a ∷ b ∷ c ∷ xs) ys h = ground arith

parse_chunk-init :
    (p : SseParser) (xs : Bytes)
    → p.state ≡ init
    → parse_chunk p xs ≡ parse_bytes (record p { state = start_line }) (strip_utf8_bom xs)
unfolding parse_chunk
parse_chunk-init p xs h = rw (h, parse_chunk) refl

append_started :
    (p : SseParser) (xs ys : Bytes)
    → is_init p.state ≡ false
    → parse_chunk p (xs ++ ys) ≡ and_then (parse_chunk p xs) (λ q. parse_chunk q ys)
append_started p xs ys h =
    parse_chunk-started p (xs ++ ys) h
    ∙ parse_bytes-append xs ys p
    ∙ and_then-Started (parse_bytes p xs) ys (parse_bytes-Started xs p h)
    ∙ ap (λ r. and_then r (λ q. parse_chunk q ys)) (sym (parse_chunk-started p xs h))

append_init :
    (p : SseParser) (xs ys : Bytes)
    → p.state ≡ init
    → 3 ≤ length xs
    → parse_chunk p (xs ++ ys) ≡ and_then (parse_chunk p xs) (λ q. parse_chunk q ys)
append_init p xs ys k h =
    let p' : SseParser = record p { state = start_line } in
    let body : Bytes = strip_utf8_bom xs in
    parse_chunk-init p (xs ++ ys) k
    ∙ ap (λ b. parse_bytes p' b) (strip_utf8_bom-append xs ys h)
    ∙ parse_bytes-append body ys p'
    ∙ and_then-Started (parse_bytes p' body) ys (parse_bytes-Started body p' refl)
    ∙ ap (λ r. and_then r (λ q. parse_chunk q ys)) (sym (parse_chunk-init p xs k))

is_init-eq : (s : SseState) → is_init s ≡ true → s ≡ init
is_init-eq s h = ground arith

-- How the stream is cut makes no difference: parsing two chunks, one after the other, gives the
-- parser and the events of parsing both as one chunk, and is undefined when that is. The first
-- chunk of a stream must hold three bytes at least, as many as a byte order mark.
pub parse_chunk-append :
    (p : SseParser) (xs ys : Bytes)
    → (is_init p.state ≡ false) ⊎ (3 ≤ length xs)
    → parse_chunk p (xs ++ ys) ≡ and_then (parse_chunk p xs) (λ q. parse_chunk q ys)
parse_chunk-append p xs ys (inl h) = append_started p xs ys h
parse_chunk-append p xs ys (inr h) = elim (Bool-cases (is_init p.state)) [
  | inl t ↦ append_init p xs ys (is_init-eq p.state t) h
  | inr f ↦ append_started p xs ys f
]
