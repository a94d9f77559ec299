-- ===== src/V2/Input/BadPreface.antt =====
-- source/v2/engine.cpp: `input_end` of a server whose client sent no valid preface.
use stunning_waddle.Base.{
  ℕ, zero, suc, ◌≤◌, ◌≡◌, refl, sym, ap, ◌∙◌, ◌<◌, All, Option, none, append-nil, le→leb, true,
  false, List, [], ◌∷◌, ◌++◌, append_assoc, some, Bytes, length, length-append, take, arith, leb,
  str_eq,
}
use stunning_waddle.ErrorCodes.{protocol_error}
use stunning_waddle.Event.{Event, error_of, connection_error, http_error}
use stunning_waddle.V2.State.{Engine, awaiting_preface, queue_event}
use stunning_waddle.V2.Send.{preface}
use stunning_waddle.V2.Receive.{Run, running, thrown}
use stunning_waddle.V2.Input.{
  try_consume_client_preface, await_preface, is_awaiting_preface, input_end,
}

-- The buffer begins with bytes that are not the preface.
pub record IsBad (buffer : Bytes) : Type 0 where
  pub enough : length preface ≤ length buffer
  pub differs : str_eq (take (length preface) buffer) preface ≡ false

take-more : (n : ℕ) (a b : Bytes) → n ≤ length a → take n (a ++ b) ≡ take n a
take-more zero a b h = refl
take-more (suc n) [] b h = absurd (omega arith)
take-more (suc n) (x ∷ a) b h = ap (λ l. x ∷ l) (take-more n a b (omega arith))

append-IsBad : (buffer bytes : Bytes) → IsBad buffer → IsBad (buffer ++ bytes)
append-IsBad buffer bytes w = record {
  enough = omega (arith, w.enough, length-append buffer bytes);
  differs =
      ap (λ l. str_eq l preface) (take-more (length preface) buffer bytes w.enough) ∙ w.differs;
}

abbrev pub refusal : Event
refusal = error_of 0 connection_error (http_error protocol_error)

input_end-awaiting :
    (s : Engine) (b : ℕ) (bytes : Bytes)
    → s.state ≡ awaiting_preface
    → input_end s (b ∷ bytes)
      ≡ await_preface (record s { input_buffer = s.input_buffer ++ (b ∷ bytes) })
unfolding input_end
input_end-awaiting s b bytes w = rw (waits, input_end) refl
  where
    waits : is_awaiting_preface s.state ≡ true
    waits = rw w refl

await_preface-refused :
    (e : Engine) → IsBad e.input_buffer → await_preface e ≡ some (running (queue_event e refusal))
unfolding await_preface try_consume_client_preface
await_preface-refused e bad = rw (enough, bad.differs, await_preface) refl
  where
    enough : leb (length preface) (length e.input_buffer) ≡ true
    enough = le→leb _ _ bad.enough

-- Inputs one after the other, as long as none throws.
abbrev pub feed : Engine → List Bytes → Option Run
feed s [] = some (running s)
feed s (bytes ∷ inputs) = elim (input_end s bytes) [
  | none ↦ none
  | some (running s') ↦ feed s' inputs
  | some (thrown error s') ↦ some (thrown error s')
]

abbrev pub refusals : List Bytes → List Event
refusals [] = []
refusals (bytes ∷ inputs) = refusal ∷ refusals inputs

abbrev pub all_bytes : List Bytes → Bytes
all_bytes [] = []
all_bytes (bytes ∷ inputs) = bytes ++ all_bytes inputs

-- Once a server has got bytes that are not the client preface, it never reads a frame: however
-- inputs that are not empty go on, each queues another `connection_error` and is kept in the buffer,
-- and nothing else changes.
pub feed-IsBad :
    (inputs : List Bytes) (s : Engine)
    → s.state ≡ awaiting_preface
    → IsBad s.input_buffer
    → All (λ bytes. 0 < length bytes) inputs
    → feed s inputs
      ≡ some (
          running (record s {
            input_buffer = s.input_buffer ++ all_bytes inputs;
            event_queue = s.event_queue ++ refusals inputs;
          }))
unfolding queue_event
feed-IsBad [] s w bad h =
    ap
      (λ (r : Bytes × List Event).
        some (running (record s { input_buffer = r.0; event_queue = r.1 })))
      (λ i. (sym (append-nil s.input_buffer) i, sym (append-nil s.event_queue) i))
feed-IsBad ([] ∷ inputs) s w bad (h, hs) = absurd (omega arith)
feed-IsBad ((b ∷ bytes) ∷ inputs) s w bad (h, hs) =
    let s1 : Engine = record s { input_buffer = s.input_buffer ++ (b ∷ bytes) } in
    let bad1 = append-IsBad s.input_buffer (b ∷ bytes) bad in
    rw (input_end-awaiting s b bytes w ∙ await_preface-refused s1 bad1, feed)
      (feed-IsBad inputs (queue_event s1 refusal) w bad1 hs
        ∙ ap
            (λ (r : Bytes × List Event).
              some (running (record s { input_buffer = r.0; event_queue = r.1 })))
            (λ i. (
              append_assoc s.input_buffer (b ∷ bytes) (all_bytes inputs) i,
              append_assoc s.event_queue (refusal ∷ []) (refusals inputs) i,
            )))
