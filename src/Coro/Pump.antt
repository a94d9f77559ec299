-- ===== src/Coro/Pump.antt =====
-- include/http/adapters/coro.h: `pump`, over any engine that keeps the contract of its queue and queues
-- no event when it sends a body.
use stunning_waddle.Base.{
  ℕ, zero, suc, ◌<◌, ◌≡◌, refl, ap, ◌∙◌, ◌==◌, ◌&&◌, option_intro, if_intro, not, Bool, true, false,
  List, [], ◌∷◌, none, some, Option-cases, Bool-cases, inl, inr, Bytes, length, get_elem?, find,
  if◌then◌else◌, arith, drop, leb,
}
use mathlib.Core.Option.{none-ne-some, some-ne-none, some-injective}
use stunning_waddle.Event.{
  Event, EventType, new_stream, headers_event, data_event, stream_closed, stream_reset,
  goaway_event, connection_error, stream_window_available, connection_window_available,
}
use stunning_waddle.V2.State.{Engine, set_flow_state, maybe_invoke_output_ready}
use stunning_waddle.V2.Send.{send_data, spend_windows}
use stunning_waddle.Context.{
  ProtocolEngine, Context, Stream, stream_send_data, set_state, deref, StreamState,
  half_closed_local,
}
use stunning_waddle.Context.Events.{QueueLaws, is_new_stream, first_passed, behind_passed, next_of}
use stunning_waddle.Coro.{
  Registry, ResponseState, put_state, complete, send_remaining, dispatch_to, dispatch, pump,
}
use stunning_waddle.Coro.Collect.{
  Dispatched, drained, skipped, handed, Collected, Dispatched-Collected,
}

behind_none : (events : List Event) → first_passed events ≡ none → behind_passed events ≡ []
behind_none [] h = refl
behind_none (ev ∷ events) h = ground (arith, behind_none events)

behind_shorter :
    (events : List Event) (ev : Event)
    → first_passed events ≡ some ev
    → length (behind_passed events) < length events
behind_shorter [] ev h = absurd (none-ne-some ev h)
behind_shorter (ev' ∷ events) ev h = ground (arith, behind_shorter events ev)

module _ {En : Type 0} (api : ProtocolEngine En) (laws : QueueLaws api)
    (keeps : (e : En) (id : ℕ) (body : Bytes) (fin : Bool)
      → laws.queue (api.engine_send_data e id body fin).1 ≡ laws.queue e) where
  set_state-engine :
      (c : Context En) (st : Stream) (s : StreamState) → (set_state api c st s).engine ≡ c.engine
  unfolding set_state
  set_state-engine c none s = refl
  set_state-engine c (some i) s = refl

  abbrev Keeps : Context En → ℕ × Context En → Type 0
  Keeps c r = laws.queue r.1.engine ≡ laws.queue c.engine

  after_sent :
      (c c' : Context En) (b : Bool) (sent : ℕ) (st : Stream) (s : StreamState)
      → laws.queue c'.engine ≡ laws.queue c.engine
      → Keeps c (if b then (sent, set_state api c' st s) else (sent, c'))
  after_sent c c' true sent st s h = ap laws.queue (set_state-engine c' st s) ∙ h
  after_sent c c' false sent st s h = h

  stream_send_data-queue :
      (c : Context En) (st : Stream) (body : Bytes) (fin : Bool)
      → Keeps c (stream_send_data api c st body fin)
  unfolding stream_send_data
  stream_send_data-queue c st body fin =
      option_intro (Keeps c) (deref api c st) _ _ (λ _. refl)
        (λ s _.
          if_intro (Keeps c) (not s.headers_sent) _ _ (λ _. refl)
            (λ _.
              let kept = keeps c.engine s.id body fin in
              after_sent c (record c { engine = (api.engine_send_data c.engine s.id body fin).1 })
                (fin && ((api.engine_send_data c.engine s.id body fin).0 == length body))
                (api.engine_send_data c.engine s.id body fin).0 st
                (record s { state = half_closed_local }) kept))

  abbrev KeepsRegistry : Registry En → Registry En → Type 0
  KeepsRegistry r r' = laws.queue r'.ctx.engine ≡ laws.queue r.ctx.engine

  send_remaining-queue :
      (r : Registry En) (i : ℕ) (st : ResponseState) (s : Stream)
      → KeepsRegistry r (send_remaining api r i st s)
  unfolding send_remaining put_state
  send_remaining-queue r i st s =
      if_intro (KeepsRegistry r) (leb (length st.pending_body) st.send_offset) _ _ (λ _. refl)
        (λ _. stream_send_data-queue r.ctx s (drop st.send_offset st.pending_body) true)

  dispatch_to-queue :
      (r : Registry En) (ev : Event) (i : ℕ) (st : ResponseState)
      → KeepsRegistry r (dispatch_to api r ev i st)
  unfolding dispatch_to put_state complete
  dispatch_to-queue r ev i st = go ev.type refl
    where
      go : (t : EventType) → ev.type ≡ t → KeepsRegistry r (dispatch_to api r ev i st)
      go new_stream e = rw (e, dispatch_to) refl
      go headers_event e = rw (e, dispatch_to) refl
      go data_event e = rw (e, dispatch_to) refl
      go stream_closed e = rw (e, dispatch_to) refl
      go stream_reset e = rw (e, dispatch_to) refl
      go goaway_event e = rw (e, dispatch_to) refl
      go connection_error e = rw (e, dispatch_to) refl
      go stream_window_available e =
          rw (e, dispatch_to)
            (option_intro (KeepsRegistry r) st.try_send_remaining _ _ (λ _. refl)
              (λ s _. send_remaining-queue r i st s))
      go connection_window_available e = rw (e, dispatch_to) refl

  dispatch-queue : (r : Registry En) (ev : Event) → KeepsRegistry r (dispatch api r ev)
  unfolding dispatch
  dispatch-queue r ev =
      option_intro (KeepsRegistry r) (find ev.stream_id r.entries) _ _ (λ _. refl)
        (λ i _.
          option_intro (KeepsRegistry r) (get_elem? r.states i) _ _ (λ _. refl)
            (λ st _. dispatch_to-queue r ev i st))

  all_skipped :
      (events : List Event) (r : Registry En) (c : Context En)
      → first_passed events ≡ none
      → Dispatched api r events (record r { ctx = c })
  all_skipped [] r c h = drained r c
  all_skipped (ev ∷ events) r c h = elim (Bool-cases (is_new_stream ev.type)) [
    | inl new ↦ skipped ev new (all_skipped events r c (rw new at h))
    | inr passed ↦ absurd (some-ne-none ev (rw passed at h))
  ]

  first_handed :
      (events : List Event) (r r' : Registry En) (c : Context En) (ev : Event)
      → first_passed events ≡ some ev
      → Dispatched api (dispatch api (record r { ctx = c }) ev) (behind_passed events) r'
      → Dispatched api r events r'
  first_handed [] r r' c ev h d = absurd (none-ne-some ev h)
  first_handed (ev' ∷ events) r r' c ev h d = elim (Bool-cases (is_new_stream ev'.type)) [
    | inl new ↦ skipped ev' new (first_handed events r r' c ev (rw new at h) (rw new at d))
    | inr passed ↦
        let same : ev' ≡ ev = some-injective ev' ev (rw passed at h) in
        handed c ev' (rw same (rw passed at d))
  ]

  -- `pump` with enough turns.
  pump_of :
      (fuel inner : ℕ) (r : Registry En) (events : List Event)
      → laws.queue r.ctx.engine ≡ events
      → length events < fuel
      → length events < inner
      → (r' : Registry En) × (pump api fuel inner r ≡ some r')
        × Dispatched api r events r'
        × (laws.queue r'.ctx.engine ≡ [])
  unfolding pump
  pump_of zero inner r events q h k = absurd (omega arith)
  pump_of (suc fuel) inner r events q h k =
      let (c', given, left) = next_of api laws inner r.ctx events q k in
      elim (Option-cases (first_passed events)) [
        | inl n ↦ (
          record r { ctx = c' },
          rw (given, pump) (rw n refl),
          all_skipped events r c' n,
          left ∙ behind_none events n,
        )
        | inr (ev, s) ↦
            let r₁ : Registry En = dispatch api (record r { ctx = c' }) ev in
            let shorter = behind_shorter events ev s in
            let (r', pumped, d, empty) =
              pump_of fuel inner r₁ (behind_passed events)
                (dispatch-queue (record r { ctx = c' }) ev ∙ left) (omega arith) (omega arith) in
            (r', rw (given, pump) (rw s pumped), first_handed events r r' c' ev s d, empty)
      ]

  -- `pump` returns with the engine's queue empty, when it has more turns than events were queued.
  -- The request `id`, whose state no other stream shares, then has its text before and the bytes of
  -- the queued data events of its stream up to the event that closes or resets it, in their order,
  -- whatever the other streams got in between; it is completed, and out of the registry, exactly if
  -- there was such an event (or it was completed before). The engine keeps the contract of its queue,
  -- and queues no event when it sends a body.
  pub pump-Collected :
      (fuel inner : ℕ) (r : Registry En) (id i : ℕ) (st : ResponseState)
      → length (laws.queue r.ctx.engine) < fuel
      → length (laws.queue r.ctx.engine) < inner
      → find id r.entries ≡ some i
      → get_elem? r.states i ≡ some st
      → ((a : ℕ) → find a r.entries ≡ some i → a ≡ id)
      → (r' : Registry En) × (pump api fuel inner r ≡ some r')
        × Collected api r' id i st (laws.queue r.ctx.engine)
        × (laws.queue r'.ctx.engine ≡ [])
  pump-Collected fuel inner r id i st h k f g only =
      let (r', pumped, d, empty) = pump_of fuel inner r (laws.queue r.ctx.engine) refl h k in
      (r', pumped, Dispatched-Collected api id i st d f g only, empty)

-- The HTTP/2 engine queues no event in `send_data`.
pub send_data-event_queue :
    (e : Engine) (id : ℕ) (body : Bytes) (fin : Bool)
    → (send_data e id body fin).1.event_queue ≡ e.event_queue
unfolding send_data spend_windows set_flow_state maybe_invoke_output_ready
send_data-event_queue e id body fin = ground arith
