-- ===== src/V2/Input/Overrun.antt =====
-- source/v2/engine.cpp: a DATA frame beyond a receive window arrives.
use stunning_waddle.Base.{
  ℕ, ◌%◌, ◌^◌, ◌<◌, ◌⊎◌, ◌≡◌, refl, ap, ◌∙◌, Bool, true, false, List, [], ◌∷◌, ◌++◌, append_assoc,
  some, Bytes, length, arith, if◌then◌else◌, pos, ◌<ℤ◌,
}
use stunning_waddle.ErrorCodes.{flow_control_error}
use stunning_waddle.Event.{
  Event, plain_event, data_of, error_of, stream_closed, connection_error, http_error,
}
use stunning_waddle.Frame.{encode_data_frame}
use stunning_waddle.Frame.Layout.{header_bytes}
use stunning_waddle.FrameParser.Defs.{call_payload}
use stunning_waddle.FrameParser.OneFrame.{frame_end}
use stunning_waddle.V2.State.{Engine, queue_event, get_or_init_stream_flow_state, new_flow_state}
use stunning_waddle.V2.Receive.{running, handle_data_chunk, ends_stream, update_flow_control}
use stunning_waddle.V2.Receive.Credit.{update_flow_control-overrun}
use stunning_waddle.V2.Input.{callbacks, input_end}
use stunning_waddle.V2.Input.Session.{IsWaiting, parse-frame, input_end-parse}
use stunning_waddle.V2.Input.Data.{
  data_header, data_header-IsWire, encode_data_frame-eq, quiet_header, data_call,
  handle_data_chunk-state,
}

abbrev pub violation : Event
violation = error_of 0 connection_error (http_error flow_control_error)

abbrev pub overrun_events : ℕ → Bytes → Bool → List Event
overrun_events stream_id payload fin =
    data_of stream_id payload
    ∷ violation
    ∷ (if fin then plain_event stream_id stream_closed ∷ [] else [])

handle_data_chunk-overrun :
    (s : Engine) (stream_id : ℕ) (fin : Bool) (payload : Bytes)
    → length payload < 2 ^ 24
    → (s.connection_recv_window <ℤ pos (length payload))
      ⊎ ((get_or_init_stream_flow_state s stream_id).recv_window <ℤ pos (length payload))
    → let s' = handle_data_chunk (data_header (length payload) fin stream_id) payload s in
      (s'.event_queue ≡ s.event_queue ++ overrun_events stream_id payload fin)
      × (s'.pending_out ≡ s.pending_out)
unfolding handle_data_chunk queue_event ends_stream get_or_init_stream_flow_state new_flow_state
handle_data_chunk-overrun s stream_id fin payload small beyond = go fin
  where
    e : Engine
    e = queue_event s (data_of stream_id payload)

    word : length payload % 2 ^ 32 ≡ length payload
    word = omega arith

    kept :
        ((update_flow_control e stream_id (length payload % 2 ^ 32)).event_queue
          ≡ e.event_queue ++ (violation ∷ []))
        × ((update_flow_control e stream_id (length payload % 2 ^ 32)).pending_out ≡ e.pending_out)
    kept =
        let (queue, out, _) = update_flow_control-overrun e stream_id (length payload) beyond in
        rw word (queue, out)

    go :
        (b : Bool)
        → let s' = handle_data_chunk (data_header (length payload) b stream_id) payload s in
          (s'.event_queue ≡ s.event_queue ++ overrun_events stream_id payload b)
          × (s'.pending_out ≡ s.pending_out)
    go false = (
      kept.0 ∙ append_assoc s.event_queue (data_of stream_id payload ∷ []) (violation ∷ []),
      kept.1,
    )
    go true = (
      ap (λ q. q ++ (plain_event stream_id stream_closed ∷ []))
            (kept.0 ∙ append_assoc s.event_queue (data_of stream_id payload ∷ []) (violation ∷ []))
          ∙ append_assoc s.event_queue (data_of stream_id payload ∷ violation ∷ [])
              (plain_event stream_id stream_closed ∷ []),
      kept.1,
    )

-- A peer that sends more than it was allowed. A DATA frame that `encode_data_frame` wrote, of one byte at
-- least and larger than the connection's or the stream's receive window, given whole to an engine
-- that waits for a frame, is handed to the consumer all the same, and then a `connection_error` of
-- FLOW_CONTROL_ERROR; `stream_closed` follows if the frame ended the stream. Nothing is written, no
-- credit in particular and no GOAWAY, and the engine goes on with the next frame.
pub input_end-overrun :
    (s : Engine) (stream_id : ℕ) (payload : Bytes) (fin : Bool)
    → IsWaiting s
    → 0 < length payload
    → length payload < 2 ^ 24
    → stream_id < 2 ^ 31
    → (s.connection_recv_window <ℤ pos (length payload))
      ⊎ ((get_or_init_stream_flow_state s stream_id).recv_window <ℤ pos (length payload))
    → (s' : Engine) × (input_end s (encode_data_frame [] stream_id payload fin) ≡ some (running s'))
      × (s'.event_queue ≡ s.event_queue ++ overrun_events stream_id payload fin)
      × (s'.pending_out ≡ s.pending_out)
      × IsWaiting s'
unfolding get_or_init_stream_flow_state new_flow_state
input_end-overrun s stream_id payload fin w positive small k beyond =
    let h = data_header (length payload) fin stream_id in
    let s1 : Engine = record s { input_buffer = header_bytes h ++ payload } in
    let (queue, out) = handle_data_chunk-overrun s1 stream_id fin payload small beyond in
    (
      record (handle_data_chunk h payload s1) { parser = frame_end s.parser h; input_buffer = [] },
      ap (λ b. input_end s b) (encode_data_frame-eq payload stream_id fin small k)
          ∙ input_end-parse s _ _ w.open_ w.drained
          ∙ parse-frame s1 (handle_data_chunk h payload s1) h payload w.idle
              (data_header-IsWire (length payload) stream_id fin small k) refl positive
              (ap (λ r. call_payload callbacks h payload r)
                  (quiet_header s1 (length payload) stream_id fin positive)
                ∙ data_call s1 stream_id fin payload positive),
      queue,
      out,
      record {
        open_ = handle_data_chunk-state h payload s1 ∙ w.open_;
        idle = record { awaits = refl; fresh = refl };
        drained = refl;
      },
    )
