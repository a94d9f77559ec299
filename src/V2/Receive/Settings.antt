-- ===== src/V2/Receive/Settings.antt =====
-- source/v2/engine.cpp: what the entries of a SETTINGS payload do to the windows.
use stunning_waddle.Base.{
  ℕ, ◌+◌, ◌*◌, ◌/◌, ◌%◌, ◌^◌, ◌<◌, ◌≡◌, refl, ap, ◌∙◌, List, [], ◌∷◌, arith, if◌then◌else◌, pos,
  ◌+ℤ◌, ◌-ℤ◌, ℤ, All, Map, int_laws,
}
use stunning_waddle.Frame.{
  Setting, SettingsId, settings_bytes, setting_bytes, settings_id_value, settings_id_of, word_bytes,
  header_table_size, enable_push, max_concurrent_streams, initial_window_size, max_frame_size,
  max_header_list_size, unnamed_setting,
}
use stunning_waddle.Frame.Layout.{word_of-word_bytes}
use stunning_waddle.V2.State.{
  Engine, StreamFlowState, stream_send_window, queue_event, notify_stream_window_available,
}
use stunning_waddle.V2.Receive.{
  handle_setting, handle_settings_payload, apply_peer_initial_window_size, shift_windows, opens,
}
use stunning_waddle.V2.Receive.Windows.{apply_peer_initial_window_size-shift}

-- A setting that its two fields of 16 and 32 bits hold, under the name that it is read by.
pub record IsWireSetting (s : Setting) : Type 0 where
  pub value_fits : s.value < 2 ^ 32
  pub id_fits : settings_id_value s.id < 2 ^ 16
  pub named : settings_id_of (settings_id_value s.id) ≡ s.id

-- What one setting does to an engine: only the initial window size does anything.
abbrev pub apply_setting : Engine → Setting → Engine
apply_setting e s = elim s.id [
  | initial_window_size ↦ apply_peer_initial_window_size e s.value
  | _ ↦ e
]

abbrev pub applied : Engine → List Setting → Engine
applied e [] = e
applied e (s ∷ entries) = applied (apply_setting e s) entries

handle_setting-apply :
    (e : Engine) (s : Setting)
    → settings_id_of (settings_id_value s.id) ≡ s.id
    → handle_setting e (settings_id_value s.id) s.value ≡ apply_setting e s
unfolding handle_setting settings_id_value settings_id_of
handle_setting-apply e s h = ground (arith, h)

pub handle_settings_payload-applied :
    (entries : List Setting) (e : Engine)
    → All IsWireSetting entries
    → handle_settings_payload e (settings_bytes entries) ≡ applied e entries
unfolding handle_settings_payload settings_bytes setting_bytes word_bytes
handle_settings_payload-applied [] e h = refl
handle_settings_payload-applied (s ∷ entries) e (w, ws) =
    let id : ℕ = settings_id_value s.id in
    let id_read : id / 2 ^ 8 % 256 * 2 ^ 8 + id % 256 ≡ id = omega (arith, w.id_fits) in
    ap
      (λ v.
        handle_settings_payload (handle_setting e (id / 2 ^ 8 % 256 * 2 ^ 8 + id % 256) v)
          (settings_bytes entries))
      (word_of-word_bytes s.value w.value_fits)
    ∙ ap (λ j. handle_settings_payload (handle_setting e j s.value) (settings_bytes entries))
        id_read
    ∙ ap (λ e'. handle_settings_payload e' (settings_bytes entries))
        (handle_setting-apply e s w.named)
    ∙ handle_settings_payload-applied entries (apply_setting e s) ws

-- The initial window size that the settings leave.
abbrev pub last_size : ℕ → List Setting → ℕ
last_size n [] = n
last_size n (s ∷ entries) = last_size (elim s.id [ initial_window_size ↦ s.value | _ ↦ n ]) entries

shift_windows-output :
    (delta : ℤ) (e : Engine) (m : Map StreamFlowState)
    → ((shift_windows delta e m).1.pending_out ≡ e.pending_out)
      × ((shift_windows delta e m).1.state ≡ e.state)
unfolding shift_windows notify_stream_window_available queue_event
shift_windows-output delta e [] = (refl, refl)
shift_windows-output delta e ((j, s) ∷ m) = ground (
  arith,
  shift_windows-output delta
      (if opens s.send_window (s.send_window +ℤ delta)
        then notify_stream_window_available e j
        else e)
      m,
)

-- What settings do to the windows and to the output.
pub record Shifted (e e' : Engine) (size : ℕ) : Type 0 where
  pub windows :
      (k : ℕ)
      → stream_send_window e' k
        ≡ stream_send_window e k +ℤ (pos size -ℤ pos e.peer_initial_window_size)
  pub new_size : e'.peer_initial_window_size ≡ size
  pub connection : e'.connection_send_window ≡ e.connection_send_window
  pub output : e'.pending_out ≡ e.pending_out
  pub state : e'.state ≡ e.state

nothing_shifted : (a : ℤ) (n : ℕ) → a ≡ a +ℤ (pos n -ℤ pos n)
nothing_shifted a n = omega int_laws

telescope : (a : ℤ) (n m k : ℕ) → a +ℤ (pos m -ℤ pos n) +ℤ (pos k -ℤ pos m) ≡ a +ℤ (pos k -ℤ pos n)
telescope a n m k = omega int_laws

shifted_twice :
    (a b c : ℤ) (n m k : ℕ)
    → b ≡ a +ℤ (pos m -ℤ pos n)
    → c ≡ b +ℤ (pos k -ℤ pos m)
    → c ≡ a +ℤ (pos k -ℤ pos n)
shifted_twice a b c n m k h h' = h' ∙ ap (λ x. x +ℤ (pos k -ℤ pos m)) h ∙ telescope a n m k

apply_peer_initial_window_size-Shifted :
    (e : Engine) (size : ℕ) → Shifted e (apply_peer_initial_window_size e size) size
unfolding apply_peer_initial_window_size
apply_peer_initial_window_size-Shifted e size =
    let (out, st) =
      shift_windows-output (pos size -ℤ pos e.peer_initial_window_size) e e.stream_flow_states in
    record {
      windows = λ k. (apply_peer_initial_window_size-shift e size k).0;
      new_size = refl;
      connection = (apply_peer_initial_window_size-shift e size 0).2;
      output = out;
      state = st;
    }

Shifted-same : (e : Engine) → Shifted e e e.peer_initial_window_size
Shifted-same e = record {
  windows = λ k. nothing_shifted (stream_send_window e k) e.peer_initial_window_size;
  new_size = refl;
  connection = refl;
  output = refl;
  state = refl;
}

Shifted-trans : {e e' e'' : Engine} {m k : ℕ} → Shifted e e' m → Shifted e' e'' k → Shifted e e'' k
Shifted-trans {e} {e'} {e''} {m} {k} a b = record {
  windows = λ i.
      shifted_twice _ _ _ e.peer_initial_window_size m k (a.windows i)
        (b.windows i ∙ ap (λ n. stream_send_window e' i +ℤ (pos k -ℤ pos n)) a.new_size);
  new_size = b.new_size;
  connection = b.connection ∙ a.connection;
  output = b.output ∙ a.output;
  state = b.state ∙ a.state;
}

apply_setting-Shifted :
    (e : Engine) (s : Setting)
    → Shifted e
        (apply_setting e s)
        (elim s.id [ initial_window_size ↦ s.value | _ ↦ e.peer_initial_window_size ])
apply_setting-Shifted e s = go s.id
  where
    go :
        (id : SettingsId)
        → Shifted e
            (elim id [ initial_window_size ↦ apply_peer_initial_window_size e s.value | _ ↦ e ])
            (elim id [ initial_window_size ↦ s.value | _ ↦ e.peer_initial_window_size ])
    go header_table_size = Shifted-same e
    go enable_push = Shifted-same e
    go max_concurrent_streams = Shifted-same e
    go initial_window_size = apply_peer_initial_window_size-Shifted e s.value
    go max_frame_size = Shifted-same e
    go max_header_list_size = Shifted-same e
    go (unnamed_setting v) = Shifted-same e

pub applied-Shifted :
    (entries : List Setting) (e : Engine)
    → Shifted e (applied e entries) (last_size e.peer_initial_window_size entries)
applied-Shifted [] e = Shifted-same e
applied-Shifted (s ∷ entries) e =
    let first = apply_setting-Shifted e s in
    let rest = applied-Shifted entries (apply_setting e s) in
    Shifted-trans first (rw first.new_size at rest)
