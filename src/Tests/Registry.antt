-- ===== src/Tests/Registry.antt =====
-- include/http/adapters/coro.h on concrete input.
use stunning_waddle.Base.{ℕ, ◌≡◌, refl, [], ◌∷◌, some, find, arith}
use stunning_waddle.Event.{plain_event, data_of, stream_closed}
use stunning_waddle.V2.State.{Engine, client, new_engine}
use stunning_waddle.Context.Events.{v2_engine, v2_queue_laws}
use stunning_waddle.Coro.{Registry, new_state, pump}
use stunning_waddle.Coro.Collect.{Collected, collected}
use stunning_waddle.Coro.Pump.{pump-Collected, send_data-event_queue}

-- Two requests wait, and the events of their streams are mixed.
abbrev two_requests : Registry Engine
two_requests = record {
  ctx = record {
    kind = client;
    engine = record (new_engine client) {
      event_queue =
          data_of 3 (9 ∷ [])
          ∷ data_of 1 (1 ∷ 2 ∷ [])
          ∷ data_of 1 (3 ∷ [])
          ∷ data_of 3 (8 ∷ [])
          ∷ plain_event 1 stream_closed
          ∷ plain_event 3 stream_closed
          ∷ [];
    };
    heap = [];
    streams = [];
  };
  states = new_state ∷ new_state ∷ [];
  entries = (1, 0) ∷ (3, 1) ∷ [];
  resumed = [];
}

collected_1 : collected 1 two_requests.ctx.engine.event_queue ≡ 1 ∷ 2 ∷ 3 ∷ []
unfolding collected
collected_1 = refl

only_1 : (a : ℕ) → find a two_requests.entries ≡ some 0 → a ≡ 1
unfolding find
only_1 a h = ground (arith, h)

pump-Collected_example :
    (r' : Registry Engine) × (pump v2_engine 7 7 two_requests ≡ some r')
    × Collected v2_engine r' 1 0 new_state two_requests.ctx.engine.event_queue
    × (r'.ctx.engine.event_queue ≡ [])
unfolding find
pump-Collected_example =
    pump-Collected v2_engine v2_queue_laws send_data-event_queue 7 7 two_requests 1 0 new_state
      (omega arith) (omega arith) refl refl only_1
