-- ===== src/Coro/Dispatch.antt =====
-- include/http/adapters/coro.h: what the dispatch of one event does to the states of the requests and
-- to their registry, over any engine.
use stunning_waddle.Base.{
  ℕ, zero, suc, ◌≡◌, ◌≢◌, refl, sym, ap, ◌∙◌, Bool, true, false, ◌||◌, ◌⊎◌, inl, inr, Option-cases,
  ==_iff, List, [], ◌∷◌, ◌++◌, Option, none, some, Bytes, get_elem?, find, find-erase, append-nil,
  erase, if◌then◌else◌, ◌==◌, leb, length, drop, ◌+◌, arith,
}
use mathlib.Core.Bool.{true≢false}
use mathlib.Core.Option.{some-injective, none-ne-some}
use stunning_waddle.Event.{
  Event, EventType, new_stream, headers_event, data_event, stream_closed, stream_reset,
  goaway_event, connection_error, stream_window_available, connection_window_available,
}
use stunning_waddle.Context.{ProtocolEngine, Stream, stream_send_data}
use stunning_waddle.Coro.{
  Registry, ResponseState, write, bytes_in, take_headers, take_data, put_state, complete,
  send_remaining, dispatch_to, dispatch, headers_in, error_in,
}

-- The types of event that end a request.
abbrev pub is_final : EventType → Bool
is_final stream_closed = true
is_final stream_reset = true
is_final _ = false

-- What an event adds to the text.
abbrev pub text_of : Event → Bytes
text_of ev = elim ev.type [ data_event ↦ bytes_in ev.payload | _ ↦ [] ]

write-here :
    (states : List ResponseState) (i : ℕ) (s s' : ResponseState)
    → get_elem? states i ≡ some s
    → get_elem? (write states i s') i ≡ some s'
unfolding write
write-here [] i s s' h = ground (arith, h)
write-here (x ∷ states) zero s s' h = refl
write-here (x ∷ states) (suc i) s s' h = write-here states i s s' h

write-elsewhere :
    (states : List ResponseState) (i k : ℕ) (s : ResponseState)
    → k ≢ i
    → get_elem? (write states k s) i ≡ get_elem? states i
unfolding write
write-elsewhere [] i k s h = refl
write-elsewhere (x ∷ states) zero zero s h = absurd (h refl)
write-elsewhere (x ∷ states) zero (suc k) s h = refl
write-elsewhere (x ∷ states) (suc i) zero s h = refl
write-elsewhere (x ∷ states) (suc i) (suc k) s h = write-elsewhere states i k s (λ e. h (ap suc e))

write-same :
    (states : List ResponseState) (k : ℕ) (s : ResponseState)
    → get_elem? states k ≡ some s
    → states ≡ write states k s
unfolding write
write-same [] k s h = refl
write-same (x ∷ states) zero s h = ap (λ y. y ∷ states) (some-injective x s h)
write-same (x ∷ states) (suc k) s h = ap (λ l. x ∷ l) (write-same states k s h)

module _ {En : Type 0} (api : ProtocolEngine En) where
  dispatch_to-entries :
      (r : Registry En) (ev : Event) (i : ℕ) (st : ResponseState)
      → (dispatch_to api r ev i st).entries
        ≡ (if is_final ev.type then erase ev.stream_id r.entries else r.entries)
  unfolding dispatch_to put_state complete send_remaining
  dispatch_to-entries r ev i st = ground arith

  -- The offset behind the bytes that the closure sends.
  abbrev pub resent : Registry En → ResponseState → Stream → ℕ
  resent r st s =
      if leb (length st.pending_body) st.send_offset
      then st.send_offset
      else st.send_offset
        + (stream_send_data api r.ctx s (drop st.send_offset st.pending_body) true).0

  -- The state of a request after an event of its stream.
  abbrev pub served : Registry En → Event → ResponseState → ResponseState
  served r ev st = elim ev.type [
    | headers_event ↦ take_headers st (headers_in ev.payload)
    | data_event ↦ take_data st (bytes_in ev.payload)
    | stream_closed ↦ record st { completed = true }
    | stream_reset ↦ record st { ec = error_in ev.payload; completed = true }
    | stream_window_available ↦ elim st.try_send_remaining [
      | none ↦ st
      | some s ↦ record st { send_offset = resent r st s }
    ]
    | _ ↦ st
  ]

  send_remaining-states :
      (r : Registry En) (k : ℕ) (st : ResponseState) (s : Stream)
      → get_elem? r.states k ≡ some st
      → (send_remaining api r k st s).states
        ≡ write r.states k (record st { send_offset = resent r st s })
  unfolding send_remaining put_state
  send_remaining-states r k st s h = ground (arith, write-same r.states k st h)

  window-states :
      (r : Registry En) (k : ℕ) (st : ResponseState) (o : Option Stream)
      → get_elem? r.states k ≡ some st
      → (elim o as (λ _. Registry En) [ none ↦ r | some s ↦ send_remaining api r k st s ]).states
        ≡ write r.states k
            (elim o [ none ↦ st | some s ↦ record st { send_offset = resent r st s } ])
  window-states r k st none h = write-same r.states k st h
  window-states r k st (some s) h = send_remaining-states r k st s h

  dispatch_to-states :
      (r : Registry En) (ev : Event) (k : ℕ) (st : ResponseState)
      → get_elem? r.states k ≡ some st
      → (dispatch_to api r ev k st).states ≡ write r.states k (served r ev st)
  unfolding dispatch_to put_state complete
  dispatch_to-states r ev k st h = go ev.type refl
    where
      go :
          (t : EventType)
          → ev.type ≡ t
          → (dispatch_to api r ev k st).states ≡ write r.states k (served r ev st)
      go new_stream e = rw (e, dispatch_to) (write-same r.states k st h)
      go headers_event e = rw (e, dispatch_to) refl
      go data_event e = rw (e, dispatch_to) refl
      go stream_closed e = rw (e, dispatch_to) refl
      go stream_reset e = rw (e, dispatch_to) refl
      go goaway_event e = rw (e, dispatch_to) (write-same r.states k st h)
      go connection_error e = rw (e, dispatch_to) (write-same r.states k st h)
      go stream_window_available e =
          rw (e, dispatch_to) (window-states r k st st.try_send_remaining h)
      go connection_window_available e = rw (e, dispatch_to) (write-same r.states k st h)

  pub served-text :
      (r : Registry En) (ev : Event) (st : ResponseState)
      → (served r ev st).res.text ≡ st.res.text ++ text_of ev
  unfolding take_headers take_data
  served-text r ev st = ground (arith, append-nil st.res.text)

  pub served-completed :
      (r : Registry En) (ev : Event) (st : ResponseState)
      → (served r ev st).completed ≡ (st.completed || is_final ev.type)
  unfolding take_headers take_data
  served-completed r ev st = ground arith

  dispatch-found :
      (r : Registry En) (ev : Event) (k : ℕ) (st : ResponseState)
      → find ev.stream_id r.entries ≡ some k
      → get_elem? r.states k ≡ some st
      → dispatch api r ev ≡ dispatch_to api r ev k st
  unfolding dispatch
  dispatch-found r ev k st f g = rw (f, dispatch) (rw g refl)

  dispatch-unknown :
      (r : Registry En) (ev : Event) → find ev.stream_id r.entries ≡ none → dispatch api r ev ≡ r
  unfolding dispatch
  dispatch-unknown r ev f = rw (f, dispatch) refl

  dispatch-dangling :
      (r : Registry En) (ev : Event) (k : ℕ)
      → find ev.stream_id r.entries ≡ some k
      → get_elem? r.states k ≡ none
      → dispatch api r ev ≡ r
  unfolding dispatch
  dispatch-dangling r ev k f g = rw (f, dispatch) (rw g refl)

  -- An event takes no entry out but its own.
  pub dispatch-find :
      (r : Registry En) (ev : Event) (a : ℕ)
      → (find a (dispatch api r ev).entries ≡ find a r.entries)
        ⊎ ((find a (dispatch api r ev).entries ≡ none) × (ev.stream_id ≡ a))
  dispatch-find r ev a = elim (Option-cases (find ev.stream_id r.entries)) [
    | inl f ↦ rw (dispatch-unknown r ev f) (inl refl)
    | inr (k, f) ↦ elim (Option-cases (get_elem? r.states k)) [
      | inl g ↦ rw (dispatch-dangling r ev k f g) (inl refl)
      | inr (st, g) ↦
          rw (dispatch-found r ev k st f g, dispatch_to-entries r ev k st)
            (ground (arith, find-erase ev.stream_id a r.entries))
    ]
  ]

  pub dispatch-elsewhere :
      (r : Registry En) (ev : Event) (i : ℕ)
      → find ev.stream_id r.entries ≢ some i
      → get_elem? (dispatch api r ev).states i ≡ get_elem? r.states i
  dispatch-elsewhere r ev i h = elim (Option-cases (find ev.stream_id r.entries)) [
    | inl f ↦ rw (dispatch-unknown r ev f) refl
    | inr (k, f) ↦ elim (Option-cases (get_elem? r.states k)) [
      | inl g ↦ rw (dispatch-dangling r ev k f g) refl
      | inr (st, g) ↦
          rw (dispatch-found r ev k st f g, dispatch_to-states r ev k st g)
            (write-elsewhere r.states i k _ (λ e. h (f ∙ ap some e)))
    ]
  ]

  pub dispatch-shrinks :
      (r : Registry En) (ev : Event) (id i : ℕ)
      → ((a : ℕ) → find a r.entries ≡ some i → a ≡ id)
      → (a : ℕ) → find a (dispatch api r ev).entries ≡ some i
      → a ≡ id
  dispatch-shrinks r ev id i only a h = elim (dispatch-find r ev a) [
    | inl e ↦ only a (sym e ∙ h)
    | inr (e, _) ↦ absurd (none-ne-some i (sym e ∙ h))
  ]

  -- An event of the request's own stream.
  pub dispatch-own :
      (r : Registry En) (ev : Event) (id i : ℕ) (st : ResponseState)
      → (ev.stream_id == id) ≡ true
      → find id r.entries ≡ some i
      → get_elem? r.states i ≡ some st
      → (get_elem? (dispatch api r ev).states i ≡ some (served r ev st))
        × (find id (dispatch api r ev).entries ≡ (if is_final ev.type then none else some i))
  dispatch-own r ev id i st own f g =
      let same : ev.stream_id ≡ id = (==_iff ev.stream_id id).0 own in
      let known : find ev.stream_id r.entries ≡ some i = ap (λ a. find a r.entries) same ∙ f in
      rw
        (
          dispatch-found r ev i st known g,
          dispatch_to-entries r ev i st,
          dispatch_to-states r ev i st g,
        )
        (
          write-here r.states i st (served r ev st) g,
          ground (arith, find-erase ev.stream_id id r.entries),
        )

  -- An event of another stream.
  pub dispatch-other :
      (r : Registry En) (ev : Event) (id i : ℕ)
      → (ev.stream_id == id) ≡ false
      → ((a : ℕ) → find a r.entries ≡ some i → a ≡ id)
      → (find id (dispatch api r ev).entries ≡ find id r.entries)
        × (get_elem? (dispatch api r ev).states i ≡ get_elem? r.states i)
  dispatch-other r ev id i other only =
      let apart : ev.stream_id ≢ id =
        λ e. true≢false (sym ((==_iff ev.stream_id id).1 e) ∙ other) in
      (
        elim (dispatch-find r ev id) [ inl e ↦ e | inr (_, e) ↦ absurd (apart e) ],
        dispatch-elsewhere r ev i (λ h. apart (only ev.stream_id h)),
      )
