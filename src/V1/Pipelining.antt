-- ===== src/V1/Pipelining.antt =====
-- source/v1/engine.cpp: bytes that arrive while a response is awaited, or once the connection is done.
use stunning_waddle.Base.{
  codes, ℕ, Bool, true, ◌||◌, ◌≡◌, ◌∙◌, sym, [], ◌∷◌, ◌++◌, Option, none, some, Bytes, arith,
  if◌then◌else◌, refl, find, ap, append-nil, Bool-cases, inl, inr,
}
use stunning_waddle.Headers.{Headers}
use stunning_waddle.V1.Text.{iequals, find_header_ci}
use stunning_waddle.V1.State.{
  update, Engine, ParseState, start_line, awaiting_response, done, StreamInfo, mark_connection_done,
  append_pending, maybe_invoke_output_ready, erase_stream_order,
}
use stunning_waddle.V1.Send.{serialize_response_head}
use stunning_waddle.V1.Input.{
  input_end, send_response_headers, complete_response, write_response_head, closes_response,
  release_response,
}
use stunning_waddle.V1.Parse.{parse_available, parse_from, parse_loop, turn, compact}
use stunning_waddle.V1.Turns.{is_blocked}

abbrev with_buffer : Engine → Bytes → Engine
with_buffer e b = record e { input_buffer = b }

abbrev pub and_then : Option Engine → (Engine → Option Engine) → Option Engine
and_then o k = elim o [ none ↦ none | some e ↦ k e ]

parse_from-blocked :
    (e : Engine) (rest : Bytes) (s : ParseState)
    → e.state ≡ s
    → is_blocked s ≡ true
    → parse_from e rest ≡ some (with_buffer e rest)
unfolding parse_from parse_loop compact turn
parse_from-blocked e [] s q h = refl
parse_from-blocked e (b ∷ rest) awaiting_response q h = rw q refl
parse_from-blocked e (b ∷ rest) done q h = rw q refl
parse_from-blocked e (b ∷ rest) _ q h = cc

-- While a response is awaited, and once the connection is done, received bytes stay in the buffer
-- behind those that are there, and nothing else happens: no event, no output, no change of state.
pub input_end-blocked :
    (e : Engine) (bytes : Bytes)
    → is_blocked e.state ≡ true
    → input_end e bytes ≡ some (record e { input_buffer = e.input_buffer ++ bytes })
unfolding input_end parse_available
input_end-blocked e [] h = ap (λ b. some (with_buffer e b)) (sym (append-nil e.input_buffer))
input_end-blocked e (b ∷ bytes) h =
    parse_from-blocked _ (e.input_buffer ++ b ∷ bytes) e.state refl h

append_pending-with_buffer :
    (e : Engine) (b bytes : Bytes)
    → append_pending (with_buffer e b) bytes ≡ with_buffer (append_pending e bytes) b
unfolding append_pending maybe_invoke_output_ready
append_pending-with_buffer e b bytes = ground arith

write_response_head-with_buffer :
    (e : Engine) (b : Bytes) (id : ℕ) (info : StreamInfo) (status : ℕ) (h : Headers) (fin : Bool)
    → write_response_head (with_buffer e b) id info status h fin
      ≡ with_buffer (write_response_head e id info status h fin) b
unfolding write_response_head
write_response_head-with_buffer e b id info status h fin =
    let asked = iequals (find_header_ci h (codes "connection")) (codes "close") in
    let (info', head) =
      serialize_response_head (if asked then record info { close_after = true } else info) status h
        fin in
    ap (λ e'. update e' id (record info' { head_sent = true }))
      (append_pending-with_buffer e b head)

mark_connection_done-with_buffer :
    (e : Engine) (b : Bytes)
    → mark_connection_done (with_buffer e b) ≡ with_buffer (mark_connection_done e) b
unfolding mark_connection_done
mark_connection_done-with_buffer e b = ground arith

release_response-with_buffer :
    (e : Engine) (b : Bytes) (id : ℕ)
    → release_response (with_buffer e b) id ≡ with_buffer (release_response e id) b
unfolding release_response erase_stream_order
release_response-with_buffer e b id = refl

mark_connection_done-state : (e : Engine) → (mark_connection_done e).state ≡ done
unfolding mark_connection_done
mark_connection_done-state e = ground arith

mark_connection_done-buffer : (e : Engine) → (mark_connection_done e).input_buffer ≡ e.input_buffer
unfolding mark_connection_done
mark_connection_done-buffer e = ground arith

-- An engine with nothing buffered parses what is received as what is buffered.
parse_from-empty :
    (e : Engine) (bytes : Bytes)
    → and_then (parse_from e []) (λ e'. input_end e' bytes) ≡ parse_available (with_buffer e bytes)
unfolding parse_from parse_loop compact input_end parse_available
parse_from-empty e [] = refl
parse_from-empty e (b ∷ bytes) = refl

closing-input_end :
    (e : Engine) (bytes : Bytes)
    → e.input_buffer ≡ []
    → some (with_buffer (mark_connection_done e) bytes) ≡ input_end (mark_connection_done e) bytes
closing-input_end e bytes empty =
    let d = mark_connection_done e in
    ap (λ b. some (with_buffer d (b ++ bytes))) (sym (mark_connection_done-buffer e ∙ empty))
    ∙ sym (input_end-blocked d bytes (ap is_blocked (mark_connection_done-state e)))

going_on-input_end :
    (e : Engine) (bytes : Bytes)
    → e.input_buffer ≡ []
    → parse_available (with_buffer e bytes)
      ≡ and_then (parse_available e) (λ e'. input_end e' bytes)
unfolding parse_available
going_on-input_end e bytes empty =
    sym (parse_from-empty e bytes)
    ∙ ap (λ b. and_then (parse_from e b) (λ e'. input_end e' bytes)) (sym empty)

release_response-buffer :
    (e : Engine) (id : ℕ) → (release_response e id).input_buffer ≡ e.input_buffer
unfolding release_response erase_stream_order
release_response-buffer e id = refl

-- A response that ends, before or behind the next bytes.
complete_response-input_end :
    (e : Engine) (id : ℕ) (bytes : Bytes)
    → e.input_buffer ≡ []
    → complete_response (with_buffer e bytes) id
      ≡ and_then (complete_response e id) (λ e'. input_end e' bytes)
unfolding complete_response closes_response
complete_response-input_end e id bytes empty =
    let r = release_response e id in
    let none_left = release_response-buffer e id ∙ empty in
    elim (Bool-cases (closes_response e id || e.connection_done)) [
      | inl c ↦ rw c (
          ap (λ x. some (mark_connection_done x)) (release_response-with_buffer e bytes id)
          ∙ ap some (mark_connection_done-with_buffer r bytes)
          ∙ closing-input_end r bytes none_left)
      | inr c ↦ rw c (
          ap (λ (x : Engine). parse_available (record x { state = start_line }))
            (release_response-with_buffer e bytes id)
          ∙ going_on-input_end (record r { state = start_line }) bytes none_left)
    ]

write_response_head-buffer :
    (e : Engine) (id : ℕ) (info : StreamInfo) (status : ℕ) (h : Headers) (fin : Bool)
    → (write_response_head e id info status h fin).input_buffer ≡ e.input_buffer
unfolding write_response_head append_pending maybe_invoke_output_ready
write_response_head-buffer e id info status h fin = ground arith

module _ (e : Engine) (id status : ℕ) (h : Headers) (bytes : Bytes)
    (awaits : e.state ≡ awaiting_response) (empty : e.input_buffer ≡ []) where
  blocked : input_end e bytes ≡ some (with_buffer e (e.input_buffer ++ bytes))
  blocked = input_end-blocked e bytes (ap is_blocked awaits)

  write-input_end :
      (info : StreamInfo)
      → complete_response
          (write_response_head (with_buffer e (e.input_buffer ++ bytes)) id info status h true)
          id
        ≡ and_then
            (complete_response (write_response_head e id info status h true) id)
            (λ e'. input_end e' bytes)
  write-input_end info =
      let w = write_response_head e id info status h true in
      ap (λ x. complete_response x id)
        (write_response_head-with_buffer e (e.input_buffer ++ bytes) id info status h true)
      ∙ ap (λ b. complete_response (with_buffer w (b ++ bytes)) id) empty
      ∙ complete_response-input_end w id bytes
          (write_response_head-buffer e id info status h true ∙ empty)

  respond-input_end :
      (o : Option StreamInfo)
      → (elim o [
        | none ↦ some (with_buffer e (e.input_buffer ++ bytes))
        | some info ↦
            if info.head_sent
            then some (with_buffer e (e.input_buffer ++ bytes))
            else complete_response
                (write_response_head
                  (with_buffer e (e.input_buffer ++ bytes))
                  id
                  info
                  status
                  h
                  true)
                id
      ])
        ≡ and_then
            (elim o [
              | none ↦ some e
              | some info ↦
                  if info.head_sent
                  then some e
                  else complete_response (write_response_head e id info status h true) id
            ])
            (λ e'. input_end e' bytes)
  respond-input_end none = sym blocked
  respond-input_end (some info) = elim (Bool-cases info.head_sent) [
    | inl s ↦ simp (s) (sym blocked)
    | inr s ↦ simp (s) (write-input_end info)
  ]

-- Pipelined requests wait for their turn, and lose nothing by it. Let a server await the response
-- to a request, with nothing buffered. Bytes that arrive before the whole response is sent by
-- `send_response_headers` leave the engine as they do when they arrive behind it, for any stream,
-- status and headers, also when the response closes the connection.
pub send_response_headers-input_end :
    (e : Engine) (id status : ℕ) (h : Headers) (bytes : Bytes)
    → e.state ≡ awaiting_response
    → e.input_buffer ≡ []
    → and_then (input_end e bytes) (λ e'. send_response_headers e' id status h true)
      ≡ and_then (send_response_headers e id status h true) (λ e'. input_end e' bytes)
unfolding send_response_headers
send_response_headers-input_end e id status h bytes awaits empty =
    let late = blocked e id status h bytes awaits empty in
    ap (λ o. and_then o (λ e'. send_response_headers e' id status h true)) late
    ∙ respond-input_end e id status h bytes awaits empty (find id e.streams)
