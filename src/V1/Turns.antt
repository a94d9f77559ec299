-- ===== src/V1/Turns.antt =====
-- source/v1/engine.cpp: each turn of the parser's loop takes bytes, or returns a valid engine.
use stunning_waddle.Base.{
  ap, ℕ, ◌-◌, ◌<◌, ◌≤◌, min, Bool, true, false, ◌≡◌, ◌∙◌, ◌⊎◌, inl, inr, [], ◌∷◌, Option, none,
  some, Bytes, length, arith, take, is_empty, if◌then◌else◌, Bool-cases, refl, ◌==◌, if_intro,
  option_intro, length-drop,
}
use stunning_waddle.ErrorCodes.{protocol_error}
use stunning_waddle.V2.State.{is_server}
use stunning_waddle.V1.Text.{split_at, parse_status_line, parse_request_line, parse_chunk_size}
use stunning_waddle.V1.State.{
  Engine, ParseState, start_line, skip_interim, reading_headers, body_length, chunk_size,
  chunk_data, chunk_crlf, chunk_trailer, body_until_close, awaiting_response, done,
  connection_error, input_capacity, advance_stream_id,
}
use stunning_waddle.V1.Parse.{
  Turn, again, return, find_line, compact, wait_for_line, take_line, emit_data, set_minor,
  on_status_line, begin_request, on_request_line, on_start_line, add_field_line, on_header_line,
  on_chunk_size, take_body, turn, is_interim,
}
use stunning_waddle.V1.Validity.{
  is_done, is_sized, IsValid, IsOpen, connection_error-IsValid, handle_headers_complete-IsValid,
  finish_message-IsValid,
}

-- The states that leave received bytes in the buffer, until a response is sent or for good.
abbrev pub is_blocked : ParseState → Bool
is_blocked done = true
is_blocked awaiting_response = true
is_blocked _ = false

abbrev pub HasRoom : Engine → Type 0
HasRoom e = (is_blocked e.state ≡ true) ⊎ (length e.input_buffer < input_capacity)

abbrev pub TurnOk : ℕ → Turn → Type 0
TurnOk n (again rest e) = (length rest < n) × IsValid e
TurnOk n (return e) = IsValid e × HasRoom e

-- What is split off leaves less.
abbrev LeavesLess : Bytes → Option (Bytes × Bytes) → Type 0
LeavesLess s none = Unit
LeavesLess s (some (a, b)) = length b < length s

split_at-LeavesLess : (c : ℕ) (s : Bytes) → LeavesLess s (split_at c s)
unfolding split_at
split_at-LeavesLess c [] = tt
split_at-LeavesLess c (x ∷ s) =
    let ih = split_at-LeavesLess c s in
    if_intro (LeavesLess (x ∷ s)) (x == c) _ _ (λ _. omega arith)
      (λ _.
        option_intro (LeavesLess (x ∷ s)) (split_at c s) _ _ (λ _. tt)
          (λ r e. omega (arith, (rw e at ih))))

find_line-LeavesLess : (rest : Bytes) → LeavesLess rest (find_line rest)
unfolding find_line
find_line-LeavesLess rest =
    let found = split_at-LeavesLess 10 rest in
    option_intro (LeavesLess rest) (split_at 10 rest) _ _ (λ _. tt)
      (λ r e. let shorter = (rw e at found) in shorter)

IsOpen-state : (e : Engine) → IsValid e → is_done e.state ≡ false → IsOpen e
IsOpen-state e v h = record { not_done = v.closed ∙ h; open_fits = v.fits }

error-Ok : (n : ℕ) (e : Engine) → IsValid e → TurnOk n (return (connection_error e protocol_error))
unfolding connection_error
error-Ok n e v = (connection_error-IsValid e protocol_error v, inl (ground arith))

module _ (e : Engine) (rest : Bytes) (v : IsValid e) (fits : length rest ≤ input_capacity) where
  compact-IsValid : IsValid (compact e rest)
  unfolding compact
  compact-IsValid = record {
    closed = v.closed;
    quiet = v.quiet;
    positive = v.positive;
    fits = fits;
  }

  wait_for_line-Ok : (n : ℕ) → TurnOk n (return (wait_for_line e rest))
  unfolding wait_for_line compact
  wait_for_line-Ok n =
      if_intro (λ e'. TurnOk n (return e')) (length rest == input_capacity) _ _
        (λ _. error-Ok n (compact e rest) compact-IsValid)
        (λ h. (compact-IsValid, inr (ground (arith, h))))

  take_line-Ok :
      (k : Bytes → Bytes → Turn)
      → ((line after : Bytes) → length after < length rest → TurnOk (length rest) (k line after))
      → TurnOk (length rest) (take_line e rest k)
  unfolding take_line
  take_line-Ok k h =
      let less = find_line-LeavesLess rest in
      option_intro (TurnOk (length rest)) (find_line rest) _ _ (λ _. wait_for_line-Ok (length rest))
        (λ r found. h r.0 r.1 (let shorter = (rw found at less) in shorter))

set_minor-IsValid : (e : Engine) (m : Option ℕ) → IsValid e → IsValid (set_minor e m)
set_minor-IsValid e none v = v
set_minor-IsValid e (some m) v = ground arith

set_minor-IsOpen : (e : Engine) (m : Option ℕ) → IsOpen e → IsOpen (set_minor e m)
set_minor-IsOpen e none v = v
set_minor-IsOpen e (some m) v = ground arith

begin_request-IsValid : (e : Engine) (m t : Bytes) → IsOpen e → IsValid (begin_request e m t)
unfolding begin_request advance_stream_id
begin_request-IsValid e m t h = ground arith

unsized-IsValid :
    (e : Engine) (s : ParseState)
    → is_done s ≡ false
    → is_sized s ≡ false
    → IsOpen e
    → IsValid (record e { state = s })
unsized-IsValid e s d z h = ground arith

add_field_line-IsValid : (e : Engine) (line : Bytes) → IsValid e → IsValid (add_field_line e line)
unfolding add_field_line
add_field_line-IsValid e line v = ground arith

sized-IsValid :
    (e : Engine) (size : ℕ)
    → IsOpen e
    → IsValid (record e {
      body_remaining = size;
      state = if size == 0 then chunk_trailer else chunk_data;
    })
sized-IsValid e size h = elim (Bool-cases (size == 0)) [
  | inl z ↦
      rw z (record { closed = h.not_done; quiet = λ q. cc; positive = λ q. cc; fits = h.open_fits })
  | inr z ↦ rw z (record {
    closed = h.not_done;
    quiet = λ q. cc;
    positive = λ q. ground (arith, z);
    fits = h.open_fits;
  })
]

module _ (e : Engine) (n : ℕ) (line after : Bytes) (v : IsValid e) (h : IsOpen e)
    (less : length after < n) where
  on_status_line-Ok : TurnOk n (on_status_line e line after)
  unfolding on_status_line
  on_status_line-Ok =
      let r = parse_status_line line in
      let v' = set_minor-IsValid e r.minor v in
      let h' = set_minor-IsOpen e r.minor h in
      option_intro (TurnOk n) r.parts _ _ (λ _. error-Ok n _ v')
        (λ status _.
          if_intro (TurnOk n) (is_interim status) _ _
            (λ _. (less, unsized-IsValid _ skip_interim refl refl h'))
            (λ _. (
              less,
              unsized-IsValid
                  (record (set_minor e r.minor) { status_code = status; message_headers = [] })
                  reading_headers refl refl
                  (record { not_done = h'.not_done; open_fits = h'.open_fits }),
            )))

  on_request_line-Ok : TurnOk n (on_request_line e line after)
  unfolding on_request_line
  on_request_line-Ok =
      let r = parse_request_line line in
      option_intro (TurnOk n) r.parts _ _ (λ _. error-Ok n _ (set_minor-IsValid e r.minor v))
        (λ p _. (less, begin_request-IsValid _ p.0 p.1 (set_minor-IsOpen e r.minor h)))

  on_header_line-Ok : TurnOk n (on_header_line e line after)
  unfolding on_header_line
  on_header_line-Ok =
      if_intro (TurnOk n) (is_empty line) _ _ (λ _. (less, handle_headers_complete-IsValid e v h))
        (λ _. (less, add_field_line-IsValid e line v))

  on_chunk_size-Ok : TurnOk n (on_chunk_size e line after)
  unfolding on_chunk_size
  on_chunk_size-Ok =
      option_intro (TurnOk n) (parse_chunk_size line) _ _ (λ _. error-Ok n e v)
        (λ size _. (less, sized-IsValid e size h))

emit_data-kept :
    (e : Engine) (bytes : Bytes)
    → ((emit_data e bytes).connection_done ≡ e.connection_done)
      × ((emit_data e bytes).state ≡ e.state)
      × ((emit_data e bytes).active_stream ≡ e.active_stream)
      × ((emit_data e bytes).input_buffer ≡ e.input_buffer)
      × ((emit_data e bytes).body_remaining ≡ e.body_remaining)
unfolding emit_data
emit_data-kept e bytes = (ground arith, ground arith, ground arith, ground arith, ground arith)

emit_data-IsValid : (e : Engine) (bytes : Bytes) → IsValid e → IsValid (emit_data e bytes)
emit_data-IsValid e bytes v = let kept = emit_data-kept e bytes in ground (arith, kept)

read_body-kept :
    (e : Engine) (bytes : Bytes) (left : ℕ)
    → IsOpen e
    → IsOpen (record (emit_data e bytes) { body_remaining = left })
read_body-kept e bytes left h =
    let kept = emit_data-kept e bytes in
    record { not_done = kept.0 ∙ h.not_done; open_fits = rw (kept.3) h.open_fits }

-- A state that reads bytes up to a number, which is not 0.
take_body-Ok :
    (e : Engine) (b : ℕ) (rest : Bytes) (finish : Engine → Engine)
    → IsValid e
    → IsOpen e
    → is_sized e.state ≡ true
    → ((e1 : Engine) → IsOpen e1 → IsValid (finish e1))
    → TurnOk (length (b ∷ rest)) (take_body e (b ∷ rest) finish)
unfolding take_body
take_body-Ok e b rest finish v h sized f =
    let n = min (length (b ∷ rest)) e.body_remaining in
    let kept = emit_data-kept e (take n (b ∷ rest)) in
    let some_bytes = v.positive sized in
    let open_ = read_body-kept e (take n (b ∷ rest)) (e.body_remaining - n) h in
    (
      omega (arith, length-drop n (b ∷ rest)),
      if_intro IsValid (e.body_remaining - n == 0) _ _ (λ _. f _ open_)
          (λ k. record {
            closed = open_.not_done ∙ ground (arith, kept);
            quiet = λ q. ground (arith, kept, q);
            positive = λ q. ground (arith, k);
            fits = open_.open_fits;
          }),
    )

on_start_line-Ok :
    (e : Engine) (rest : Bytes)
    → IsValid e
    → IsOpen e
    → length rest ≤ input_capacity
    → TurnOk (length rest) (on_start_line e rest)
unfolding on_start_line
on_start_line-Ok e rest v h fits =
    if_intro (TurnOk (length rest)) (is_server e.role) _ _
      (λ _.
        take_line-Ok e rest v fits _
          (λ line after less. on_request_line-Ok e _ line after v h less))
      (λ _.
        option_intro (TurnOk (length rest)) e.active_stream _ _ (λ _. error-Ok (length rest) e v)
          (λ id _.
            take_line-Ok e rest v fits _
              (λ line after less. on_status_line-Ok e _ line after v h less)))

pub turn-Ok :
    (e : Engine) (b : ℕ) (rest : Bytes) (s : ParseState)
    → e.state ≡ s
    → IsValid e
    → length (b ∷ rest) ≤ input_capacity
    → TurnOk (length (b ∷ rest)) (turn e (b ∷ rest))
unfolding turn compact
turn-Ok e b rest start_line q v fits =
    rw (q, turn) (on_start_line-Ok e (b ∷ rest) v (IsOpen-state e v (ap is_done q)) fits)
turn-Ok e b rest skip_interim q v fits =
    rw (q, turn)
      (let o = IsOpen-state e v (ap is_done q) in
        take_line-Ok e (b ∷ rest) v fits _ (λ line after less. (
          less,
          if_intro IsValid (is_empty line) _ _ (λ _. unsized-IsValid e start_line refl refl o)
              (λ _. v),
        )))
turn-Ok e b rest reading_headers q v fits =
    rw (q, turn)
      (take_line-Ok e (b ∷ rest) v fits _ (λ line after less.
        on_header_line-Ok e _ line after v (IsOpen-state e v (ap is_done q)) less))
turn-Ok e b rest body_length q v fits =
    rw (q, turn)
      (take_body-Ok e b rest _ v (IsOpen-state e v (ap is_done q)) (ap is_sized q)
        finish_message-IsValid)
turn-Ok e b rest chunk_size q v fits =
    rw (q, turn)
      (take_line-Ok e (b ∷ rest) v fits _ (λ line after less.
        on_chunk_size-Ok e _ line after v (IsOpen-state e v (ap is_done q)) less))
turn-Ok e b rest chunk_data q v fits =
    rw (q, turn)
      (take_body-Ok e b rest _ v (IsOpen-state e v (ap is_done q)) (ap is_sized q)
        (λ e1 o. unsized-IsValid e1 chunk_crlf refl refl o))
turn-Ok e b rest chunk_crlf q v fits =
    rw (q, turn)
      (take_line-Ok e (b ∷ rest) v fits _ (λ line after less.
        (less, unsized-IsValid e chunk_size refl refl (IsOpen-state e v (ap is_done q)))))
turn-Ok e b rest chunk_trailer q v fits =
    rw (q, turn)
      (let o = IsOpen-state e v (ap is_done q) in
        take_line-Ok e (b ∷ rest) v fits _ (λ line after less.
          (less, if_intro IsValid (is_empty line) _ _ (λ _. finish_message-IsValid e o) (λ _. v))))
turn-Ok e b rest body_until_close q v fits = rw (q, turn) (omega arith, emit_data-IsValid e _ v)
turn-Ok e b rest awaiting_response q v fits =
    rw (q, turn) (compact-IsValid e (b ∷ rest) v fits, inl (ap is_blocked q))
turn-Ok e b rest done q v fits =
    rw (q, turn) (compact-IsValid e (b ∷ rest) v fits, inl (ap is_blocked q))
