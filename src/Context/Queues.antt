-- ===== src/Context/Queues.antt =====
-- source/client_context.cpp and server_context.cpp: the contract of `next_event` for the engine that a
-- protocol version chooses.
use stunning_waddle.Base.{◌≡◌, refl, List, [], ◌∷◌, none, some}
use stunning_waddle.Event.{Event}
use stunning_waddle.V1.State.{next_event as next_event1}
use stunning_waddle.V2.State.{next_event as next_event2}
use stunning_waddle.Context.Events.{QueueLaws}
use stunning_waddle.Context.Engines.{AnyEngine, http1, http2, any_engine, any_next_event}

abbrev pub any_queue : AnyEngine → List Event
any_queue (http1 e) = e.event_queue
any_queue (http2 e) = e.event_queue

pub any_next_event-empty :
    (e : AnyEngine)
    → any_queue e ≡ []
    → ((any_next_event e).0 ≡ none) × (any_queue (any_next_event e).1 ≡ [])
unfolding any_next_event next_event1 next_event2
any_next_event-empty (http1 e) h = rw (h, next_event1) (refl, h)
any_next_event-empty (http2 e) h = rw (h, next_event2) (refl, h)

pub any_next_event-first :
    (e : AnyEngine) (ev : Event) (rest : List Event)
    → any_queue e ≡ ev ∷ rest
    → ((any_next_event e).0 ≡ some ev) × (any_queue (any_next_event e).1 ≡ rest)
unfolding any_next_event next_event1 next_event2
any_next_event-first (http1 e) ev rest h = rw (h, next_event1) (refl, refl)
any_next_event-first (http2 e) ev rest h = rw (h, next_event2) (refl, refl)

abbrev pub any_queue_laws : QueueLaws any_engine
any_queue_laws = record {
  queue = any_queue;
  next_empty = any_next_event-empty;
  next_first = any_next_event-first;
}
