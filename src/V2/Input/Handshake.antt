-- ===== src/V2/Input/Handshake.antt =====
-- source/v2/engine.cpp: what a client writes before its first stream makes a server ready.
use stunning_waddle.Base.{
  ℕ, ◌≤◌, ◌≡◌, refl, ap, ◌∙◌, true, false, ◌&&◌, not, [], ◌∷◌, ◌++◌, append-nil, some, Bytes,
  length, take, arith, ltb, leb, str_eq,
}
use stunning_waddle.Frame.{make_header, encode_settings_frame, settings_bytes}
use stunning_waddle.Frame.Layout.{header_bytes, write_frame_header-eq}
use stunning_waddle.FrameParser.OneFrame.{IsIdle, frame_end}
use stunning_waddle.FrameParser.WholeFrame.{consume-empty_frame}
use stunning_waddle.V2.State.{
  Engine, client, idle, awaiting_preface, ready, is_server, is_idle, maybe_invoke_output_ready,
  set_flow_state, default_initial_window_size,
}
use stunning_waddle.V2.Send.{preface, open_stream, start_client, write_preface, write_settings}
use stunning_waddle.V2.Receive.{running}
use stunning_waddle.V2.Input.{
  callbacks, parse, slide, try_consume_client_preface, after_preface, await_preface,
  is_awaiting_preface, input_end,
}
use stunning_waddle.V2.Input.Settings.{
  settings_header, settings_header-IsWire, settled, settings_call,
}
use stunning_waddle.V2.Input.Session.{IsWaiting}

empty_settings :
    (out : Bytes) → encode_settings_frame out [] false ≡ out ++ header_bytes (settings_header 0)
unfolding encode_settings_frame make_header settings_bytes
empty_settings out = append-nil _ ∙ write_frame_header-eq out (settings_header 0)

parse-settings :
    (e : Engine)
    → IsIdle e.parser
    → parse e (header_bytes (settings_header 0))
      ≡ some (
          running (record (settled e) {
            parser = frame_end e.parser (settings_header 0);
            input_buffer = [];
          }))
unfolding parse slide
parse-settings e i =
    rw
      (
        consume-empty_frame callbacks e.parser (running e) (settings_header 0) i
              (settings_header-IsWire 0 (omega arith)) refl
            ∙ ap (λ r. some (9, frame_end e.parser (settings_header 0), r)) (settings_call e 0),
        parse,
      )
      refl

after_preface-settings :
    (e : Engine)
    → IsIdle e.parser
    → e.input_buffer ≡ preface ++ header_bytes (settings_header 0)
    → after_preface e
      ≡ parse (record (write_settings e) { state = ready }) (header_bytes (settings_header 0))
unfolding after_preface
after_preface-settings e i b = rw (b, after_preface) refl

maybe_invoke_output_ready-kept :
    (e : Engine)
    → let e' = maybe_invoke_output_ready e in
      (e'.pending_out ≡ e.pending_out)
      × (e'.local_settings ≡ e.local_settings)
      × (e'.initial_window_size ≡ e.initial_window_size)
unfolding maybe_invoke_output_ready
maybe_invoke_output_ready-kept e = ground arith

write_settings-pending :
    (e : Engine)
    → e.local_settings ≡ []
    → e.initial_window_size ≤ default_initial_window_size
    → (write_settings e).pending_out ≡ encode_settings_frame e.pending_out [] false
unfolding write_settings
write_settings-pending e l w = (maybe_invoke_output_ready-kept _).0 ∙ rw (small, l) refl
  where
    small : ltb default_initial_window_size e.initial_window_size ≡ false
    small = ground arith

open_stream-preface :
    (c : Engine)
    → c.role ≡ client
    → c.state ≡ idle
    → c.pending_out ≡ []
    → c.local_settings ≡ []
    → c.initial_window_size ≤ default_initial_window_size
    → (open_stream c).1.pending_out ≡ preface ++ header_bytes (settings_header 0)
unfolding open_stream set_flow_state start_client write_preface
open_stream-preface c r s p l w =
    let e : Engine = record c { pending_out = c.pending_out ++ preface } in
    let (out, local, size) = maybe_invoke_output_ready-kept e in
    rw (test, start_client)
      (write_settings-pending (maybe_invoke_output_ready e) (local ∙ l) (rw size w)
        ∙ ap (λ o. encode_settings_frame o [] false) (out ∙ ap (λ o. o ++ preface) p)
        ∙ empty_settings preface)
  where
    test : (not (is_server c.role) && is_idle c.state) ≡ true
    test = rw (r, s) refl

abbrev handshaken : Engine → Engine
handshaken s =
    let e =
      record (write_settings
        (record s { input_buffer = preface ++ header_bytes (settings_header 0) })) {
          state = ready;
        } in
    record (settled e) { parser = frame_end e.parser (settings_header 0); input_buffer = [] }

handshaken-kept :
    (s : Engine)
    → ((handshaken s).event_queue ≡ s.event_queue)
      × ((handshaken s).decode_ctx ≡ s.decode_ctx)
      × ((handshaken s).state ≡ ready)
      × ((handshaken s).role ≡ s.role)
unfolding write_settings maybe_invoke_output_ready
handshaken-kept s = ground arith

write_settings-parser : (e : Engine) → (write_settings e).parser ≡ e.parser
unfolding write_settings maybe_invoke_output_ready
write_settings-parser e = ground arith

input_end-awaiting :
    (s : Engine) (b : ℕ) (bytes : Bytes)
    → s.state ≡ awaiting_preface
    → s.input_buffer ≡ []
    → input_end s (b ∷ bytes) ≡ await_preface (record s { input_buffer = b ∷ bytes })
unfolding input_end
input_end-awaiting s b bytes w d = rw (waits, d, input_end) refl
  where
    waits : is_awaiting_preface s.state ≡ true
    waits = rw w refl

await_preface-valid :
    (e : Engine)
    → e.input_buffer ≡ preface ++ header_bytes (settings_header 0)
    → await_preface e ≡ after_preface e
unfolding await_preface try_consume_client_preface str_eq
await_preface-valid e b = rw (enough, valid, await_preface) refl
  where
    enough : leb (length preface) (length e.input_buffer) ≡ true
    enough = rw b refl

    valid : str_eq (take (length preface) e.input_buffer) preface ≡ true
    valid = rw b refl

-- A connection is set up. Let a client that has written nothing and chosen no settings open its first
-- stream, and let a fresh server get all that is then in the client's output: the server accepts
-- it, queues no event, leaves nothing over, and waits for frames.
pub input_end-open_stream :
    (c s : Engine)
    → c.role ≡ client
    → c.state ≡ idle
    → c.pending_out ≡ []
    → c.local_settings ≡ []
    → c.initial_window_size ≤ default_initial_window_size
    → s.state ≡ awaiting_preface
    → IsIdle s.parser
    → s.input_buffer ≡ []
    → (s' : Engine) × (input_end s (open_stream c).1.pending_out ≡ some (running s'))
      × (s'.event_queue ≡ s.event_queue)
      × (s'.decode_ctx ≡ s.decode_ctx)
      × IsWaiting s'
input_end-open_stream c s role state out local size waits i drained =
    let e : Engine = record s { input_buffer = preface ++ header_bytes (settings_header 0) } in
    let idle_parser : IsIdle (write_settings e).parser = rw (write_settings-parser e) i in
    let (queue, ctx, is_ready, same) = handshaken-kept s in
    (
      handshaken s,
      ap (λ bytes. input_end s bytes) (open_stream-preface c role state out local size)
          ∙ input_end-awaiting s _ _ waits drained
          ∙ await_preface-valid e refl
          ∙ after_preface-settings e i refl
          ∙ parse-settings (record (write_settings e) { state = ready }) idle_parser,
      queue,
      ctx,
      record { open_ = is_ready; idle = record { awaits = refl; fresh = refl }; drained = refl },
    )
