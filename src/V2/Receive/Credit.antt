-- ===== src/V2/Receive/Credit.antt =====
-- source/v2/engine.cpp: `update_flow_control` keeps the account of what the peer may send.

use stunning_waddle.Base.{
  ◌⊎◌, inl, inr, ℕ, ◌+◌, ◌/◌, ◌%◌, ◌^◌, ◌≡◌, [], ◌∷◌, ◌++◌, Bytes, Option, none, false, ◌||◌, some,
  arith, ℤ, pos, ◌+ℤ◌, ◌-ℤ◌, ◌≤ℤ◌, ◌<ℤ◌, ltb_ℤ, leb, if◌then◌else◌,
}
use stunning_waddle.ErrorCodes.{flow_control_error}
use stunning_waddle.Event.{error_of, connection_error, http_error}
use stunning_waddle.Frame.{encode_window_update_frame}
use stunning_waddle.V2.State.{
  Engine, maybe_invoke_output_ready, get_or_init_stream_flow_state, set_flow_state, queue_event,
}
use stunning_waddle.V2.Receive.{credit_connection, credit_stream, update_flow_control}

-- An account: what the peer may still send, and what it sent and was not yet credited for, are
-- together the whole window.
abbrev pub Balanced : ℕ → ℤ → ℕ → Type 0
Balanced whole window consumed = window +ℤ pos consumed ≡ pos whole

abbrev pub ConnectionBalanced : ℕ → Engine → Type 0
ConnectionBalanced whole e = Balanced whole e.connection_recv_window e.connection_consumed

abbrev pub StreamBalanced : Engine → ℕ → Type 0
StreamBalanced e stream_id =
    let s = get_or_init_stream_flow_state e stream_id in
    Balanced e.initial_window_size s.recv_window s.consumed_bytes

-- `window` and `consumed` after `n` bytes and the credit, for a window of `size`.
abbrev pub credited : ℕ → ℤ → ℕ → ℕ → ℤ × ℕ
credited size window consumed n =
    if leb (size / 2) ((consumed + n) % 2 ^ 32)
    then (window -ℤ pos n +ℤ pos ((consumed + n) % 2 ^ 32), 0)
    else (window -ℤ pos n, (consumed + n) % 2 ^ 32)

-- The credit that is due after `n` more bytes: all that is not credited yet, once that is half the
-- size.
abbrev pub due : ℕ → ℕ → ℕ → Option ℕ
due size consumed n =
    if leb (size / 2) ((consumed + n) % 2 ^ 32) then some ((consumed + n) % 2 ^ 32) else none

abbrev pub amount : Option ℕ → ℕ
amount none = 0
amount (some credit) = credit

-- The WINDOW_UPDATE frame that tells the peer of it, behind the output.
abbrev pub write_credit : Bytes → ℕ → Option ℕ → Bytes
write_credit out stream_id none = out
write_credit out stream_id (some credit) = encode_window_update_frame out stream_id credit

module _ (e : Engine) (stream_id n : ℕ) where
  fits :
      pos n ≤ℤ e.connection_recv_window
      → pos n ≤ℤ (get_or_init_stream_flow_state e stream_id).recv_window
      → (ltb_ℤ (e.connection_recv_window -ℤ pos n) (pos 0)
          || ltb_ℤ ((get_or_init_stream_flow_state e stream_id).recv_window -ℤ pos n) (pos 0))
        ≡ false
  unfolding ◌-ℤ◌
  fits h k = ground arith

  pub within_connection :
      pos n ≤ℤ e.connection_recv_window
      → pos n ≤ℤ (get_or_init_stream_flow_state e stream_id).recv_window
      → let r = credited e.initial_window_size e.connection_recv_window e.connection_consumed n in
        ((update_flow_control e stream_id n).connection_recv_window ≡ r.0)
        × ((update_flow_control e stream_id n).connection_consumed ≡ r.1)
        × ((update_flow_control e stream_id n).event_queue ≡ e.event_queue)
        × ((update_flow_control e stream_id n).initial_window_size ≡ e.initial_window_size)
  unfolding update_flow_control credit_connection credit_stream maybe_invoke_output_ready
      set_flow_state
  within_connection h k = ground (arith, fits h k)

  -- DATA beyond one of the windows queues one event, a FLOW_CONTROL_ERROR of the connection, and
  -- sends no credit.
  pub update_flow_control-overrun :
      (e.connection_recv_window <ℤ pos n)
        ⊎ ((get_or_init_stream_flow_state e stream_id).recv_window <ℤ pos n)
      → ((update_flow_control e stream_id n).event_queue
          ≡ e.event_queue ++ (error_of 0 connection_error (http_error flow_control_error) ∷ []))
        × ((update_flow_control e stream_id n).pending_out ≡ e.pending_out)
        × ((update_flow_control e stream_id n).connection_consumed ≡ e.connection_consumed)
  unfolding update_flow_control queue_event set_flow_state ◌-ℤ◌
  update_flow_control-overrun (inl h) = ground arith
  update_flow_control-overrun (inr h) = ground arith
