-- ===== src/V1/Runs.antt =====
-- source/v1/engine.cpp: the parser's loop, a turn at a time.
use stunning_waddle.Base.{
  ℕ, zero, suc, ◌<◌, ◌≤◌, false, ◌≡◌, ◌∙◌, sym, [], ◌∷◌, ◌++◌, some, Bytes, length, arith, refl,
  length-append, is_empty, append_assoc, append-nil, All,
}
use mathlib.Core.Path.{subst}
use stunning_waddle.Headers.{Headers}
use stunning_waddle.V1.State.{Engine, reading_headers}
use stunning_waddle.V1.Send.{crlf, header_lines}
use stunning_waddle.V1.Exchange.{handle_headers_complete}
use stunning_waddle.V1.Parse.{
  Turn, again, turn, parse_loop, parse_from, compact, take_line, on_header_line, add_field_line,
}
use stunning_waddle.V1.Lines.{
  Lacks, find_line-crlf, IsField, receive, receive_all, field_line, field_line-Lacks,
  field_line-some, add_field_line-field, header_lines-cons,
}

-- The loop returns `e'` on the bytes, with any fuel that is enough.
abbrev pub Runs : Engine → Bytes → Engine → Type 0
Runs e rest e' = (fuel : ℕ) → length rest ≤ fuel → parse_loop fuel e rest ≡ some e'

pub Runs-end : (e : Engine) → Runs e [] (compact e [])
unfolding parse_loop
Runs-end e zero h = refl
Runs-end e (suc fuel) h = refl

pub Runs-again :
    (e e1 e' : Engine) (rest rest1 : Bytes)
    → turn e rest ≡ again rest1 e1
    → length rest1 < length rest
    → Runs e1 rest1 e'
    → Runs e rest e'
unfolding parse_loop
Runs-again e e1 e' [] rest1 t less r fuel h = absurd (omega arith)
Runs-again e e1 e' (b ∷ rest) rest1 t less r zero h = absurd (omega arith)
Runs-again e e1 e' (b ∷ rest) rest1 t less r (suc fuel) h =
    rw (t, parse_loop) (r fuel (omega arith))

pub parse_from-Runs : (e e' : Engine) (rest : Bytes) → Runs e rest e' → parse_from e rest ≡ some e'
unfolding parse_from
parse_from-Runs e e' rest r = r (length rest) (omega arith)

-- A turn that takes a whole line.
pub take_line-crlf :
    (e : Engine) (line after : Bytes) (k : Bytes → Bytes → Turn)
    → Lacks 10 line
    → take_line e (line ++ (crlf ++ after)) k ≡ k line after
unfolding take_line
take_line-crlf e line after k h = rw (find_line-crlf line after h, take_line) refl

pub length-line : (line after : Bytes) → length after < length (line ++ (crlf ++ after))
length-line line after = omega (arith, length-append line (crlf ++ after))

turn-header_line :
    (e : Engine) (rest : Bytes)
    → e.state ≡ reading_headers
    → turn e rest ≡ take_line e rest (on_header_line e)
unfolding turn
turn-header_line e rest q = simp (q, turn)

Runs-header_line :
    (e e' : Engine) (line after : Bytes)
    → e.state ≡ reading_headers
    → Lacks 10 line
    → is_empty line ≡ false
    → Runs (add_field_line e line) after e'
    → Runs e (line ++ (crlf ++ after)) e'
unfolding on_header_line
Runs-header_line e e' line after q h some_line =
    Runs-again e (add_field_line e line) e' (line ++ (crlf ++ after)) after
      (turn-header_line e _ q
        ∙ take_line-crlf e line after (on_header_line e) h
        ∙ rw (some_line, on_header_line) refl)
      (length-line line after)

pub Runs-empty_line :
    (e e' : Engine) (after : Bytes)
    → e.state ≡ reading_headers
    → Runs (handle_headers_complete e) after e'
    → Runs e (crlf ++ after) e'
unfolding on_header_line
Runs-empty_line e e' after q =
    Runs-again e (handle_headers_complete e) e' (crlf ++ after) after
      (turn-header_line e _ q ∙ take_line-crlf e [] after (on_header_line e) tt)
      (length-line [] after)

abbrev pub with_fields : Engine → Headers → Engine
with_fields e h = record e { message_headers = e.message_headers ++ h }

-- The field lines of a head are taken up in their order.
pub Runs-header_lines :
    (h : Headers) (e e' : Engine) (after : Bytes)
    → e.state ≡ reading_headers
    → All IsField h
    → Runs (with_fields e (receive_all h)) after e'
    → Runs e (header_lines h ++ after) e'
unfolding receive_all header_lines
Runs-header_lines [] e e' after q f r =
    subst (λ b. Runs (record e { message_headers = b }) after e') (append-nil e.message_headers) r
Runs-header_lines (hdr ∷ h) e e' after q (f, fs) r =
    subst (λ t. Runs e t e') (sym (header_lines-cons hdr h after))
      (Runs-header_line e e' (field_line hdr) (header_lines h ++ after) q (field_line-Lacks hdr f)
        (field_line-some hdr f)
        (subst (λ e1. Runs e1 (header_lines h ++ after) e') (sym (add_field_line-field e hdr f))
          (Runs-header_lines h (with_fields e (receive hdr ∷ [])) e' after q fs (
            subst (λ b. Runs (record e { message_headers = b }) after e')
              (sym (append_assoc e.message_headers (receive hdr ∷ []) (receive_all h))) r))))
