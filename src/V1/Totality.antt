-- ===== src/V1/Totality.antt =====
-- source/v1/engine.cpp: the parser's loop ends, in a valid engine that goes on reading.
use stunning_waddle.Base.{
  ℕ, zero, suc, ◌-◌, ◌<◌, ◌≤◌, inr, [], ◌∷◌, ◌++◌, Option, none, some, Bytes, length, arith,
  is_empty, refl, if_intro, length-append,
}
use stunning_waddle.V1.State.{Engine, input_capacity}
use stunning_waddle.V1.Parse.{
  Turn, again, return, compact, turn, parse_loop, parse_from, parse_available,
}
use stunning_waddle.V1.Input.{input_begin, input_end}
use stunning_waddle.V1.Validity.{IsValid}
use stunning_waddle.V1.Turns.{HasRoom, TurnOk, turn-Ok}

-- An operation that returns, in a valid engine that takes input unless it is blocked.
abbrev pub Returns : Option Engine → Type 0
Returns none = ⊥
Returns (some e) = IsValid e × HasRoom e

compact-Returns : (e : Engine) → IsValid e → Returns (some (compact e []))
unfolding compact
compact-Returns e v = (
  record { closed = v.closed; quiet = v.quiet; positive = v.positive; fits = omega arith },
  inr (omega arith),
)

-- How the loop goes on behind a turn, when it returns on fewer bytes.
goes_on :
    (next : Engine → Bytes → Option Engine) (n : ℕ)
    → n ≤ input_capacity
    → ((e : Engine) (rest : Bytes)
        → length rest < n
        → IsValid e
        → length rest ≤ input_capacity
        → Returns (next e rest))
    → (t : Turn) → TurnOk n t
    → Returns (elim t [ again rest e ↦ next e rest | return e ↦ some e ])
goes_on next n fits ih (again rest e) (less, v) = ih e rest less v (omega arith)
goes_on next n fits ih (return e) ok = ok

parse_loop-Returns :
    (fuel : ℕ) (e : Engine) (rest : Bytes)
    → length rest ≤ fuel
    → IsValid e
    → length rest ≤ input_capacity
    → Returns (parse_loop fuel e rest)
unfolding parse_loop
parse_loop-Returns zero e [] h v fits = compact-Returns e v
parse_loop-Returns (suc fuel) e [] h v fits = compact-Returns e v
parse_loop-Returns zero e (b ∷ rest) h v fits = absurd (omega arith)
parse_loop-Returns (suc fuel) e (b ∷ rest) h v fits =
    goes_on (parse_loop fuel) (length (b ∷ rest)) fits
      (λ e' rest' less. parse_loop-Returns fuel e' rest' (omega arith)) (turn e (b ∷ rest))
      (turn-Ok e b rest e.state refl v fits)

pub parse_available-Returns : (e : Engine) → IsValid e → Returns (parse_available e)
unfolding parse_available parse_from
parse_available-Returns e v =
    parse_loop-Returns (length e.input_buffer) e e.input_buffer (omega arith) v v.fits

pub longer-IsValid :
    (e : Engine) (bytes : Bytes)
    → IsValid e
    → length bytes ≤ input_capacity - length e.input_buffer
    → IsValid (record e { input_buffer = e.input_buffer ++ bytes })
longer-IsValid e bytes v h = record {
  closed = v.closed;
  quiet = v.quiet;
  positive = v.positive;
  fits = omega (arith, length-append e.input_buffer bytes, v.fits);
}

-- What the caller received fits the span of `input_begin`. Then `input_end` returns, whatever the
-- bytes are. The engine is valid again: it is done exactly when the connection is, has no exchange
-- in flight then, and any body that it is reading has bytes to come. If it took input before, it
-- offers room for more, unless the connection is done or a response has to be sent first.
pub input_end-HasRoom :
    (e : Engine) (bytes : Bytes)
    → IsValid e
    → HasRoom e
    → length bytes ≤ input_begin e
    → Returns (input_end e bytes)
unfolding input_end input_begin
input_end-HasRoom e bytes v room h =
    if_intro Returns (is_empty bytes) _ _ (λ _. (v, room))
      (λ _. parse_available-Returns _ (longer-IsValid e bytes v h))
