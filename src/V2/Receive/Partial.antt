-- ===== src/V2/Receive/Partial.antt =====
-- source/v2/engine.cpp: a DATA frame with END_STREAM whose payload arrives in pieces.
use stunning_waddle.Base.{
  ℕ, ◌&&◌, ◌==◌, ◌+◌, ◌%◌, ◌^◌, ◌≡◌, Bool, true, false, List, [], ◌∷◌, ◌++◌, Bytes, length, arith,
  if◌then◌else◌,
}
use stunning_waddle.Event.{Event, EventType, stream_closed, data_of}
use stunning_waddle.Frame.{FrameHeader}
use stunning_waddle.V2.State.{Engine, queue_event, maybe_invoke_output_ready, set_flow_state}
use stunning_waddle.V2.Receive.{
  handle_data_chunk, update_flow_control, credit_connection, credit_stream, ends_stream,
}

abbrev is_stream_closed : EventType → Bool
is_stream_closed stream_closed = true
is_stream_closed _ = false

-- The `stream_closed` events of a stream in a queue.
abbrev pub closings : ℕ → List Event → ℕ
closings id [] = 0
closings id (ev ∷ events) =
    (if is_stream_closed ev.type && (ev.stream_id == id) then 1 else 0) + closings id events

closings-append :
    (id : ℕ) (xs ys : List Event) → closings id (xs ++ ys) ≡ closings id xs + closings id ys
closings-append id [] ys = omega arith
closings-append id (x ∷ xs) ys = omega (arith, closings-append id xs ys)

update_flow_control-closings :
    (id : ℕ) (e : Engine) (stream_id n : ℕ)
    → closings id (update_flow_control e stream_id n).event_queue ≡ closings id e.event_queue
unfolding update_flow_control credit_connection credit_stream maybe_invoke_output_ready
    set_flow_state queue_event
update_flow_control-closings id e stream_id n = grind (arith, closings-append)

-- A chunk of a frame that ends its stream queues `stream_closed` for it, whatever is outstanding.
pub handle_data_chunk-closings :
    (h : FrameHeader) (chunk : Bytes) (e : Engine)
    → ends_stream h ≡ true
    → closings h.stream_id (handle_data_chunk h chunk e).event_queue
      ≡ closings h.stream_id e.event_queue + 1
unfolding handle_data_chunk queue_event
handle_data_chunk-closings h chunk e fin =
    let flow =
      update_flow_control-closings h.stream_id (queue_event e (data_of h.stream_id chunk))
        h.stream_id (length chunk % 2 ^ 32) in
    grind (arith, fin, flow, closings-append)
