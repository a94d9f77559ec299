-- ===== src/Context/Events.antt =====
-- source/context_base.cpp: which events `next_event` hands on, over any engine with a queue, and over
-- the HTTP/2 engine.
use stunning_waddle.Base.{
  ℕ, zero, suc, ◌<◌, ◌≡◌, refl, ap, ◌∙◌, Bool, true, false, List, [], ◌∷◌, Option, none, some,
  length, arith, if◌then◌else◌,
}
use stunning_waddle.Event.{
  Event, EventType, new_stream, headers_event, data_event, stream_closed, stream_reset,
  goaway_event, connection_error, stream_window_available, connection_window_available,
}
use stunning_waddle.V2.State.{Engine, next_event, stream_send_window}
use stunning_waddle.V2.Send.{open_stream, send_request_headers, send_response_headers, send_data}
use stunning_waddle.Context.{
  ProtocolEngine, Context, handle_event, context_next_event, on_new_stream_event,
  close_stream_internal, close_found, reset_stream_internal, create_stream_with_state,
}

-- The contract of `next_event`: it takes the first of the events that are queued.
pub record QueueLaws {En : Type 0} (api : ProtocolEngine En) : Type 0 where
  pub queue : En → List Event
  pub next_empty :
      (e : En)
      → queue e ≡ []
      → ((api.engine_next_event e).0 ≡ none) × (queue (api.engine_next_event e).1 ≡ [])
  pub next_first :
      (e : En) (ev : Event) (rest : List Event)
      → queue e ≡ ev ∷ rest
      → ((api.engine_next_event e).0 ≡ some ev) × (queue (api.engine_next_event e).1 ≡ rest)

-- The operations of the HTTP/2 engine.
abbrev pub v2_engine : ProtocolEngine Engine
v2_engine = record {
  engine_next_event = next_event;
  engine_open_stream = open_stream;
  engine_send_request_headers = send_request_headers;
  engine_send_response_headers = send_response_headers;
  engine_send_data = send_data;
  engine_stream_send_window = stream_send_window;
  engine_connection_send_window = λ e. e.connection_send_window;
}

pub next_event-empty :
    (e : Engine)
    → e.event_queue ≡ []
    → ((next_event e).0 ≡ none) × ((next_event e).1.event_queue ≡ [])
unfolding next_event
next_event-empty e h = (rw (h, next_event) refl, rw (h, next_event) h)

pub next_event-first :
    (e : Engine) (ev : Event) (rest : List Event)
    → e.event_queue ≡ ev ∷ rest
    → ((next_event e).0 ≡ some ev) × ((next_event e).1.event_queue ≡ rest)
unfolding next_event
next_event-first e ev rest h = (rw (h, next_event) refl, rw (h, next_event) refl)

abbrev pub v2_queue_laws : QueueLaws v2_engine
v2_queue_laws = record {
  queue = λ e. e.event_queue;
  next_empty = next_event-empty;
  next_first = next_event-first;
}

abbrev pub is_new_stream : EventType → Bool
is_new_stream new_stream = true
is_new_stream _ = false

-- The first event that is no `new_stream`, if there is one.
abbrev pub first_passed : List Event → Option Event
first_passed [] = none
first_passed (ev ∷ events) = if is_new_stream ev.type then first_passed events else some ev

-- The events behind it.
abbrev pub behind_passed : List Event → List Event
behind_passed [] = []
behind_passed (ev ∷ events) = if is_new_stream ev.type then behind_passed events else events

swap {ℓ} :
    {A : Type ℓ} (b p : Bool) (x y : A)
    → p ≡ (if b then false else true)
    → (if p then x else y) ≡ (if b then y else x)
swap true p x y h = rw h refl
swap false p x y h = rw h refl

module _ {En : Type 0} (api : ProtocolEngine En) where
  create-engine : (c : Context En) (id : ℕ) → (on_new_stream_event api c id).engine ≡ c.engine
  unfolding on_new_stream_event create_stream_with_state
  create-engine c id = ground arith

  close-engine : (c : Context En) (id : ℕ) → (close_stream_internal api c id).engine ≡ c.engine
  unfolding close_stream_internal close_found
  close-engine c id = ground arith

  handle_event-engine :
      (c : Context En) (ev : Event)
      → ((handle_event api c ev).0.engine ≡ c.engine)
        × ((handle_event api c ev).1 ≡ (if is_new_stream ev.type then false else true))
  unfolding handle_event reset_stream_internal
  handle_event-engine c ev = go ev.type refl
    where
      go :
          (t : EventType)
          → ev.type ≡ t
          → ((handle_event api c ev).0.engine ≡ c.engine)
            × ((handle_event api c ev).1 ≡ (if is_new_stream ev.type then false else true))
      go new_stream k = rw (k, handle_event) (create-engine c ev.stream_id, refl)
      go stream_closed k = rw (k, handle_event) (close-engine c ev.stream_id, refl)
      go stream_reset k = rw (k, handle_event) (refl, refl)
      go headers_event k = rw (k, handle_event) (refl, refl)
      go data_event k = rw (k, handle_event) (refl, refl)
      go goaway_event k = rw (k, handle_event) (refl, refl)
      go connection_error k = rw (k, handle_event) (refl, refl)
      go stream_window_available k = rw (k, handle_event) (refl, refl)
      go connection_window_available k = rw (k, handle_event) (refl, refl)

  next_none :
      (fuel : ℕ) (c : Context En)
      → (api.engine_next_event c.engine).0 ≡ none
      → context_next_event api (suc fuel) c
        ≡ some (none, record c { engine = (api.engine_next_event c.engine).1 })
  unfolding context_next_event
  next_none fuel c h = rw (h, context_next_event) refl

  abbrev handled : Context En → Event → Context En
  handled c ev = (handle_event api (record c { engine = (api.engine_next_event c.engine).1 }) ev).0

  next_some :
      (fuel : ℕ) (c : Context En) (ev : Event)
      → (api.engine_next_event c.engine).0 ≡ some ev
      → context_next_event api (suc fuel) c ≡ (
          if is_new_stream ev.type
          then context_next_event api fuel (handled c ev)
          else some (some ev, handled c ev))
  unfolding context_next_event
  next_some fuel c ev h =
      rw (h, context_next_event)
        (swap (is_new_stream ev.type) _ _ _
          (handle_event-engine (record c { engine = (api.engine_next_event c.engine).1 }) ev).1)

  module _ (laws : QueueLaws api) where
    pub next_of :
        (fuel : ℕ) (c : Context En) (events : List Event)
        → laws.queue c.engine ≡ events
        → length events < fuel
        → (c' : Context En) × (context_next_event api fuel c ≡ some (first_passed events, c'))
          × (laws.queue c'.engine ≡ behind_passed events)
    next_of zero c events q h = absurd (omega arith)
    next_of (suc fuel) c [] q h = (
      record c { engine = (api.engine_next_event c.engine).1 },
      next_none fuel c (laws.next_empty c.engine q).0,
      (laws.next_empty c.engine q).1,
    )
    next_of (suc fuel) c (ev ∷ rest) q h =
        let (found, left) = laws.next_first c.engine ev rest q in
        let kept : laws.queue (handled c ev).engine ≡ rest =
          ap laws.queue
            (handle_event-engine (record c { engine = (api.engine_next_event c.engine).1 }) ev).0
          ∙ left in
        rw (next_some fuel c ev found)
          (go (is_new_stream ev.type) kept (next_of fuel (handled c ev) rest kept (omega arith)))
      where
        go :
            (b : Bool)
            → laws.queue (handled c ev).engine ≡ rest
            → ((c' : Context En) × (context_next_event api fuel (handled c ev)
                  ≡ some (first_passed rest, c'))
                × (laws.queue c'.engine ≡ behind_passed rest))
            → (c' : Context En) × ((if b
                  then context_next_event api fuel (handled c ev)
                  else some (some ev, handled c ev))
                ≡ some ((if b then first_passed rest else some ev), c'))
              × (laws.queue c'.engine ≡ (if b then behind_passed rest else rest))
        go true kept ih = ih
        go false kept ih = (handled c ev, refl, kept)

    -- `next_event` of a context returns, and hands on the first event in the engine's queue that is
    -- no `new_stream`, which it takes out together with the `new_stream` events before it; it
    -- returns nothing when there is no other. As many turns as there are events, and one more, are
    -- enough. This holds for every engine that keeps the contract of its queue.
    pub context_next_event-first_passed :
        (c : Context En)
        → let events = laws.queue c.engine in
          (c' : Context En) × (context_next_event api (suc (length events)) c
            ≡ some (first_passed events, c'))
          × (laws.queue c'.engine ≡ behind_passed events)
    context_next_event-first_passed c =
        next_of (suc (length (laws.queue c.engine))) c (laws.queue c.engine) refl (omega arith)
