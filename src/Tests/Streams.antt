-- ===== src/Tests/Streams.antt =====
-- source/context_base.cpp and stream.cpp on concrete input.
use stunning_waddle.Base.{
  suc, ◌≡◌, ◌&&◌, not, refl, true, [], ◌∷◌, some, none, length, find, if◌then◌else◌, ◌==◌,
}
use stunning_waddle.Event.{plain_event, new_stream, stream_closed}
use stunning_waddle.V2.State.{Engine, server, new_engine}
use stunning_waddle.V1.State.{new_engine as new_engine1}
use stunning_waddle.V2.Send.{send_data}
use stunning_waddle.Context.{
  Context, StreamState, open_, half_closed_local, half_closed_remote, closed, is_open,
  context_next_event, close_stream_internal, stream_send_data, stream_state_of,
}
use stunning_waddle.Context.Events.{
  v2_engine, first_passed, behind_passed, context_next_event-first_passed,
}
use stunning_waddle.Context.Engines.{AnyEngine, http1, any_engine}
use stunning_waddle.Context.Queues.{any_queue_laws}
use stunning_waddle.Context.Lifecycle.{close_stream_internal-streams, stream_send_data-orders}

-- An HTTP/1.1 server whose engine has reported a stream.
abbrev busy_server : Context AnyEngine
busy_server = record {
  kind = server;
  engine = http1 (record (new_engine1 server) {
    event_queue = plain_event 1 new_stream ∷ plain_event 1 stream_closed ∷ [];
  });
  heap = [];
  streams = [];
}

context_next_event-first_passed_example :
    let events = any_queue_laws.queue busy_server.engine in
    (c' : Context AnyEngine) × (context_next_event any_engine (suc (length events)) busy_server
      ≡ some (first_passed events, c'))
    × (any_queue_laws.queue c'.engine ≡ behind_passed events)
context_next_event-first_passed_example =
    context_next_event-first_passed any_engine any_queue_laws busy_server

abbrev answered : StreamState
answered = record { id = 1; state = half_closed_remote; headers_sent = true; owner = server }

abbrev one_stream : Context Engine
one_stream = record {
  kind = server;
  engine = new_engine server;
  heap = answered ∷ [];
  streams = (1, 0) ∷ [];
}

registered : find 1 one_stream.streams ≡ some 0
unfolding find
registered = refl

close_stream_internal-streams_example :
    let c' = close_stream_internal v2_engine one_stream 1 in
    (find 1 c'.streams
      ≡ (if (1 == 1) && not (is_open answered.state) then none else find 1 one_stream.streams))
    × (stream_state_of v2_engine c' (some 0)
        ≡ (if is_open answered.state then half_closed_remote else closed))
    × (c'.engine ≡ one_stream.engine)
close_stream_internal-streams_example =
    close_stream_internal-streams v2_engine one_stream 1 0 1 answered registered refl

abbrev asked : StreamState
asked = record { id = 1; state = open_; headers_sent = true; owner = server }

abbrev open_context : Context Engine
open_context = record one_stream { heap = asked ∷ [] }

end_accepted : (v2_engine.engine_send_data open_context.engine asked.id [] true).0 ≡ 0
unfolding send_data
end_accepted = refl

stream_send_data-orders_example :
    let local_first =
      close_stream_internal v2_engine
        (stream_send_data v2_engine open_context (some 0) [] true).1
        1 in
    let remote_first =
      (stream_send_data v2_engine
        (close_stream_internal v2_engine open_context 1)
        (some 0)
        []
        true).1 in
    (stream_state_of v2_engine local_first (some 0) ≡ closed)
    × (find 1 local_first.streams ≡ none)
    × (stream_state_of v2_engine remote_first (some 0) ≡ half_closed_local)
    × (find 1 remote_first.streams ≡ some 0)
    × (remote_first.engine ≡ local_first.engine)
stream_send_data-orders_example =
    stream_send_data-orders v2_engine open_context 0 asked [] refl registered refl refl end_accepted
