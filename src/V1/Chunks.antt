-- ===== src/V1/Chunks.antt =====
-- source/v1/engine.cpp: a chunked body, from `send_data` of one engine to `input_end` of another.
use mathlib.Core.Path.{subst}
use stunning_waddle.Base.{
  ℕ, ◌-◌, ◌<◌, ◌^◌, min, false, ◌≡◌, ◌∙◌, sym, [], ◌∷◌, ◌++◌, none, some, Bytes, length, arith,
  codes, refl, ap, append-nil, elim_some, elim_none, is_empty, if_false, All, ◌==◌, if◌then◌else◌,
  take, drop, take-length-append, drop-length-append, length-append,
}
use stunning_waddle.Decimal.{
  to_hex, to_hex-All, digit_char, from_chars-to_hex, from_chars, from_digits, digit_value,
}
use stunning_waddle.Event.{data_of}
use stunning_waddle.V1.Text.{
  split_at, trim_ows, trim_front, trim_back, is_ows, before_semicolon, parse_chunk_size, whole,
}
use stunning_waddle.V1.State.{
  Engine, chunk_size, chunk_data, chunk_crlf, chunk_trailer, queue_event,
}
use stunning_waddle.V1.Send.{crlf}
use stunning_waddle.V1.Exchange.{finish_message}
use stunning_waddle.V1.Parse.{again, turn, take_line, on_chunk_size, take_body, emit_data}
use stunning_waddle.V1.Lines.{Lacks}
use stunning_waddle.V1.Runs.{Runs, Runs-again, take_line-crlf, length-line}

-- A text without the character is not split at it.
split_at-none : (c : ℕ) (s : Bytes) → Lacks c s → split_at c s ≡ none
unfolding split_at
split_at-none c [] h = refl
split_at-none c (x ∷ s) (hx, h) =
    if_false (x == c) _ _ hx ∙ elim_none (split_at c s) _ _ (split_at-none c s h)

-- A text without white space is not trimmed.
trim_back-none : (s : Bytes) → All (λ x. is_ows x ≡ false) s → trim_back s ≡ s
unfolding trim_back
trim_back-none [] h = refl
trim_back-none (c ∷ s) (hc, h) = let kept = trim_back-none s h in ground (arith, kept)

trim_ows-none : (s : Bytes) → All (λ x. is_ows x ≡ false) s → trim_ows s ≡ s
unfolding trim_ows trim_front
trim_ows-none [] h = trim_back-none [] h
trim_ows-none (c ∷ s) (hc, h) =
    ap trim_back (if_false (is_ows c) _ _ hc) ∙ trim_back-none (c ∷ s) (hc, h)

-- The size that `send_data` writes is read back.
parse_chunk_size-to_hex : (n : ℕ) → n < 2 ^ 64 → parse_chunk_size (to_hex n) ≡ some n
unfolding parse_chunk_size before_semicolon whole digit_char
parse_chunk_size-to_hex n h =
    let no_extension = split_at-none 59 (to_hex n) (to_hex-All _ n (λ d k. ground arith)) in
    let no_space = trim_ows-none (to_hex n) (to_hex-All _ n (λ d k. ground arith)) in
    ap (λ s. whole (from_chars 16 (2 ^ 64) (trim_ows s)))
      (elim_none (split_at 59 (to_hex n)) _ _ no_extension)
    ∙ ap (λ s. whole (from_chars 16 (2 ^ 64) s)) (no_space ∙ sym (append-nil (to_hex n)))
    ∙ ap whole (from_chars-to_hex (2 ^ 64) n [] h tt)

to_hex-Lacks : (n : ℕ) → Lacks 10 (to_hex n)
unfolding digit_char
to_hex-Lacks n = to_hex-All _ n (λ d k. ground arith)

-- Turns in the states of a chunked body.
turn-chunk_size :
    (e : Engine) (rest : Bytes)
    → e.state ≡ chunk_size
    → turn e rest ≡ take_line e rest (on_chunk_size e)
unfolding turn
turn-chunk_size e rest q = simp (q, turn)

Runs-size_line :
    (e r : Engine) (line after : Bytes) (n : ℕ)
    → e.state ≡ chunk_size
    → Lacks 10 line
    → parse_chunk_size line ≡ some n
    → Runs
        (record e { body_remaining = n; state = if n == 0 then chunk_trailer else chunk_data })
        after
        r
    → Runs e (line ++ (crlf ++ after)) r
unfolding on_chunk_size
Runs-size_line e r line after n q lf size runs =
    Runs-again e _ r _ after
      (turn-chunk_size e _ q
        ∙ take_line-crlf e line after (on_chunk_size e) lf
        ∙ elim_some (parse_chunk_size line) _ _ size)
      (length-line line after) runs

turn-chunk_data :
    (e : Engine) (rest : Bytes)
    → e.state ≡ chunk_data
    → turn e rest ≡ take_body e rest (λ e'. record e' { state = chunk_crlf })
unfolding turn
turn-chunk_data e rest q = simp (q, turn)

turn-chunk_crlf :
    (e : Engine) (rest : Bytes)
    → e.state ≡ chunk_crlf
    → turn e rest ≡ take_line e rest (λ line after. again after (record e { state = chunk_size }))
unfolding turn
turn-chunk_crlf e rest q = simp (q, turn)

turn-chunk_trailer :
    (e : Engine) (rest : Bytes)
    → e.state ≡ chunk_trailer
    → turn e rest
      ≡ take_line e rest (λ line after. again after (if is_empty line then finish_message e else e))
unfolding turn
turn-chunk_trailer e rest q = simp (q, turn)

-- All that remains of a body is there.
take_body-whole :
    (e : Engine) (body after : Bytes) (finish : Engine → Engine)
    → e.body_remaining ≡ length body
    → take_body e (body ++ after) finish
      ≡ again after (finish (record (emit_data e body) { body_remaining = 0 }))
unfolding take_body
take_body-whole e body after finish q =
    let all : min (length (body ++ after)) e.body_remaining ≡ length body =
      omega (arith, length-append body after, q) in
    let left : e.body_remaining - length body ≡ 0 = omega (arith, q) in
    ap
      (λ n. again (drop n (body ++ after)) (
        if e.body_remaining - n == 0
        then finish (record (emit_data e (take n (body ++ after))) {
          body_remaining = e.body_remaining - n;
        })
        else record (emit_data e (take n (body ++ after))) {
          body_remaining = e.body_remaining - n;
        }))
      all
    ∙ ap
        (λ m. again (drop (length body) (body ++ after)) (
          if m == 0
          then finish
              (record (emit_data e (take (length body) (body ++ after))) { body_remaining = m })
          else record (emit_data e (take (length body) (body ++ after))) { body_remaining = m }))
        left
    ∙ ap
        (λ t. again t (
          finish
            (record (emit_data e (take (length body) (body ++ after))) { body_remaining = 0 })))
        (drop-length-append body after)
    ∙ ap (λ t. again after (finish (record (emit_data e t) { body_remaining = 0 })))
        (take-length-append body after)

emit_data-active :
    (e : Engine) (id b : ℕ) (body : Bytes)
    → e.active_stream ≡ some id
    → emit_data e (b ∷ body) ≡ queue_event e (data_of id (b ∷ body))
unfolding emit_data
emit_data-active e id b body a = elim_some e.active_stream _ _ a

-- The receiver behind a chunk.
abbrev pub took_chunk : Engine → ℕ → Bytes → Engine
took_chunk e id body = record e {
  event_queue = e.event_queue ++ (data_of id body ∷ []);
  body_remaining = 0;
  state = chunk_size;
}

-- A chunk that is written is read in three turns.
pub Runs-chunk :
    (e r : Engine) (id b : ℕ) (body after : Bytes)
    → e.state ≡ chunk_size
    → e.active_stream ≡ some id
    → length (b ∷ body) < 2 ^ 64
    → Runs (took_chunk e id (b ∷ body)) after r
    → Runs e (to_hex (length (b ∷ body)) ++ (crlf ++ (b ∷ body ++ (crlf ++ after)))) r
Runs-chunk e r id b body after q a small runs =
    let n = length (b ∷ body) in
    let e1 : Engine = record e { body_remaining = n; state = chunk_data } in
    let e2 : Engine = record e1 {
      event_queue = e.event_queue ++ (data_of id (b ∷ body) ∷ []);
      body_remaining = 0;
      state = chunk_crlf;
    } in
    Runs-size_line e r (to_hex n) (b ∷ body ++ (crlf ++ after)) n q (to_hex-Lacks n)
      (parse_chunk_size-to_hex n small)
      (subst
        (λ s. Runs (record e { body_remaining = n; state = s }) (b ∷ body ++ (crlf ++ after)) r)
        (sym (if_false (n == 0) _ _ (ground arith)))
        (Runs-again e1 e2 r (b ∷ body ++ (crlf ++ after)) (crlf ++ after)
          (turn-chunk_data e1 _ refl
            ∙ take_body-whole e1 (b ∷ body) (crlf ++ after) (λ e'. record e' { state = chunk_crlf })
                refl
            ∙ ap
                (λ (x : Engine).
                  again (crlf ++ after) (record x { body_remaining = 0; state = chunk_crlf }))
                (emit_data-active e1 id b body a))
          (omega (arith, length-append (b ∷ body) (crlf ++ after)))
          (Runs-again e2 (took_chunk e id (b ∷ body)) r (crlf ++ after) after
            (turn-chunk_crlf e2 _ refl ∙ take_line-crlf e2 [] after _ tt) (length-line [] after)
            runs)))

last_size : parse_chunk_size (codes "0") ≡ some 0
unfolding parse_chunk_size before_semicolon whole trim_ows trim_front trim_back split_at from_chars
    from_digits digit_value
last_size = refl

-- The last chunk and the empty line behind it end the message.
pub Runs-last_chunk :
    (e r : Engine) (after : Bytes)
    → e.state ≡ chunk_size
    → Runs (finish_message (record e { body_remaining = 0; state = chunk_trailer })) after r
    → Runs e (codes "0" ++ (crlf ++ (crlf ++ after))) r
Runs-last_chunk e r after q runs =
    let e1 : Engine = record e { body_remaining = 0; state = chunk_trailer } in
    Runs-size_line e r (codes "0") (crlf ++ after) 0 q (refl, tt) last_size
      (Runs-again e1 (finish_message e1) r (crlf ++ after) after
        (turn-chunk_trailer e1 _ refl ∙ take_line-crlf e1 [] after _ tt) (length-line [] after)
        runs)
