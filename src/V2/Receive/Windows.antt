-- ===== src/V2/Receive/Windows.antt =====
-- source/v2/engine.cpp: what WINDOW_UPDATE and SETTINGS frames do to the send windows.
use stunning_waddle.Base.{
  ℕ, ◌%◌, ◌^◌, ◌<◌, ◌≡◌, refl, ◌∙◌, List, [], ◌∷◌, ◌++◌, append-nil, append_assoc, Bool, true,
  false, ◌&&◌, arith, ℤ, pos, ◌+ℤ◌, ◌-ℤ◌, ltb_ℤ, Map, find, find-insert, if◌then◌else◌, ◌==◌,
}
use mathlib.Core.Option.{map}
use stunning_waddle.Event.{Event, plain_event, stream_window_available, connection_window_available}
use stunning_waddle.Frame.{word_bytes, word_of}
use stunning_waddle.V2.State.{
  Engine, StreamFlowState, get_or_init_stream_flow_state, set_flow_state, queue_event,
  new_flow_state, notify_open_streams, notify_connection_window_available,
  notify_stream_window_available, stream_send_window,
}
use stunning_waddle.V2.Receive.{
  opens, window_increment, update_connection_window, update_stream_window, handle_window_update,
  shift_windows, apply_peer_initial_window_size,
}

-- The increment of an encoded WINDOW_UPDATE is read back.
window_increment-word_bytes : (n : ℕ) → window_increment (word_bytes (n % 2 ^ 31)) ≡ n % 2 ^ 31
unfolding window_increment word_bytes word_of
window_increment-word_bytes n = omega arith

abbrev shifted : ℤ → StreamFlowState → StreamFlowState
shifted delta s = record s { send_window = s.send_window +ℤ delta }

shift_windows-find :
    (delta : ℤ) (e : Engine) (m : Map StreamFlowState) (k : ℕ)
    → find k (shift_windows delta e m).0 ≡ map (shifted delta) (find k m)
unfolding shift_windows find
shift_windows-find delta e [] k = refl
shift_windows-find delta e ((j, s) ∷ m) k = ground (
  arith,
  shift_windows-find delta
      (if opens s.send_window (s.send_window +ℤ delta)
        then notify_stream_window_available e j
        else e)
      m k,
)

shift_windows-kept :
    (delta : ℤ) (e : Engine) (m : Map StreamFlowState)
    → let e' = (shift_windows delta e m).1 in
      (e'.connection_send_window ≡ e.connection_send_window)
      × (e'.pending_out ≡ e.pending_out)
      × (e'.connection_recv_window ≡ e.connection_recv_window)
unfolding shift_windows notify_stream_window_available queue_event
shift_windows-kept delta e [] = (refl, refl, refl)
shift_windows-kept delta e ((j, s) ∷ m) = ground (
  arith,
  shift_windows-kept delta
      (if opens s.send_window (s.send_window +ℤ delta)
        then notify_stream_window_available e j
        else e)
      m,
)

-- A new SETTINGS_INITIAL_WINDOW_SIZE moves the send window of every stream, whether it is in the
-- map or not, by the difference to the old size, becomes the size for new streams, and leaves the
-- connection's windows alone. Known streams stay known.
pub apply_peer_initial_window_size-shift :
    (e : Engine) (new_size k : ℕ)
    → let e' = apply_peer_initial_window_size e new_size in
      (stream_send_window e' k
        ≡ stream_send_window e k +ℤ (pos new_size -ℤ pos e.peer_initial_window_size))
      × (e'.peer_initial_window_size ≡ new_size)
      × (e'.connection_send_window ≡ e.connection_send_window)
      × (e'.connection_recv_window ≡ e.connection_recv_window)
      × ((get_or_init_stream_flow_state e' k).known ≡ (get_or_init_stream_flow_state e k).known)
unfolding apply_peer_initial_window_size stream_send_window get_or_init_stream_flow_state
    new_flow_state ◌+ℤ◌ ◌-ℤ◌
apply_peer_initial_window_size-shift e new_size k =
    let delta : ℤ = pos new_size -ℤ pos e.peer_initial_window_size in
    let (a, b, c) = shift_windows-kept delta e e.stream_flow_states in
    let f = shift_windows-find delta e e.stream_flow_states k in
    (ground (arith, f), refl, a, c, ground (arith, f))

-- The `stream_window_available` events for the streams whose own window is open.
abbrev pub open_stream_events : Map StreamFlowState → List Event
open_stream_events [] = []
open_stream_events ((id, s) ∷ m) =
    if ltb_ℤ (pos 0) s.send_window
    then plain_event id stream_window_available ∷ open_stream_events m
    else open_stream_events m

notify_open_streams-eq :
    (e : Engine) (m : Map StreamFlowState)
    → notify_open_streams e m ≡ record e { event_queue = e.event_queue ++ open_stream_events m }
unfolding notify_open_streams queue_event
notify_open_streams-eq e [] = rw append-nil refl
notify_open_streams-eq e ((id, s) ∷ m) =
    go (ltb_ℤ (pos 0) s.send_window) refl (notify_open_streams-eq e m)
      (notify_open_streams-eq (queue_event e (plain_event id stream_window_available)) m)
  where
    more : Engine
    more = queue_event e (plain_event id stream_window_available)

    go :
        (b : Bool)
        → ltb_ℤ (pos 0) s.send_window ≡ b
        → notify_open_streams e m ≡ record e { event_queue = e.event_queue ++ open_stream_events m }
        → notify_open_streams more m
          ≡ record more { event_queue = more.event_queue ++ open_stream_events m }
        → notify_open_streams e ((id, s) ∷ m)
          ≡ record e { event_queue = e.event_queue ++ open_stream_events ((id, s) ∷ m) }
    go false k skip push = rw (k, notify_open_streams) skip
    go true k skip push = rw (k, notify_open_streams) (push ∙ rw append_assoc)

window_increment-word : (n : ℕ) → n < 2 ^ 31 → window_increment (word_bytes n) ≡ n
unfolding window_increment word_bytes word_of
window_increment-word n h = omega arith

pub handle_window_update-word :
    (e : Engine) (stream_id n : ℕ)
    → 0 < n
    → n < 2 ^ 31
    → handle_window_update e stream_id (word_bytes n) ≡ (
        if stream_id == 0 then update_connection_window e n else update_stream_window e stream_id n)
unfolding handle_window_update word_bytes
handle_window_update-word e stream_id n h k = ground (arith, window_increment-word n k)

update_connection_window-eq :
    (e : Engine) (n : ℕ)
    → let window = e.connection_send_window +ℤ pos n in
      update_connection_window e n ≡ record e {
        connection_send_window = window;
        event_queue =
            if opens e.connection_send_window window
            then e.event_queue
              ++ (plain_event 0 connection_window_available
                  ∷ open_stream_events e.stream_flow_states)
            else e.event_queue;
      }
unfolding update_connection_window notify_connection_window_available queue_event
update_connection_window-eq e n = go (opens e.connection_send_window window) refl
  where
    window : ℤ
    window = e.connection_send_window +ℤ pos n

    e' : Engine
    e' = record e { connection_send_window = window }

    go :
        (b : Bool)
        → opens e.connection_send_window window ≡ b
        → update_connection_window e n ≡ record e' {
          event_queue =
              if opens e.connection_send_window window
              then e.event_queue
                ++ (plain_event 0 connection_window_available
                    ∷ open_stream_events e.stream_flow_states)
              else e.event_queue;
        }
    go false k = rw (k, update_connection_window) refl
    go true k =
        rw (k, update_connection_window)
          (notify_open_streams-eq (queue_event e' (plain_event 0 connection_window_available))
              e.stream_flow_states
            ∙ rw append_assoc)

-- A WINDOW_UPDATE for the connection, as `encode_window_update_frame` writes it: the window grows by
-- the increment, and when that opens it, an event says so, followed by one for each stream whose
-- own window is open. Nothing else is queued and no stream's window changes.
pub handle_window_update-connection :
    (e : Engine) (n : ℕ)
    → 0 < n
    → n < 2 ^ 31
    → let window = e.connection_send_window +ℤ pos n in
      handle_window_update e 0 (word_bytes n) ≡ record e {
        connection_send_window = window;
        event_queue =
            if opens e.connection_send_window window
            then e.event_queue
              ++ (plain_event 0 connection_window_available
                  ∷ open_stream_events e.stream_flow_states)
            else e.event_queue;
      }
handle_window_update-connection e n h k =
    handle_window_update-word e 0 n h k ∙ update_connection_window-eq e n

update_stream_window-eq :
    (e : Engine) (stream_id n k : ℕ)
    → let old = stream_send_window e stream_id in
      let e' = update_stream_window e stream_id n in
      (stream_send_window e' k ≡ (if stream_id == k then old +ℤ pos n else stream_send_window e k))
      × (e'.event_queue ≡ (
          if opens old (old +ℤ pos n) && ltb_ℤ (pos 0) e.connection_send_window
          then e.event_queue ++ (plain_event stream_id stream_window_available ∷ [])
          else e.event_queue))
      × (e'.connection_send_window ≡ e.connection_send_window)
unfolding update_stream_window notify_stream_window_available queue_event set_flow_state
    stream_send_window get_or_init_stream_flow_state new_flow_state
update_stream_window-eq e stream_id n k = grind (arith, find-insert)

-- A WINDOW_UPDATE for a stream: its window grows by the increment, an event says so when that opens
-- it while the connection's window is open, and no other stream's window changes.
pub handle_window_update-stream :
    (e : Engine) (stream_id n k : ℕ)
    → 0 < stream_id
    → 0 < n
    → n < 2 ^ 31
    → let old = stream_send_window e stream_id in
      let e' = handle_window_update e stream_id (word_bytes n) in
      (stream_send_window e' k ≡ (if stream_id == k then old +ℤ pos n else stream_send_window e k))
      × (e'.event_queue ≡ (
          if opens old (old +ℤ pos n) && ltb_ℤ (pos 0) e.connection_send_window
          then e.event_queue ++ (plain_event stream_id stream_window_available ∷ [])
          else e.event_queue))
      × (e'.connection_send_window ≡ e.connection_send_window)
handle_window_update-stream e stream_id n k s h l =
    rw (handle_window_update-word e stream_id n h l)
      (ground (arith, update_stream_window-eq e stream_id n k))
