-- ===== src/Context/Lifecycle.antt =====
-- source/context_base.cpp and source/stream.cpp: when a stream leaves the context.
use stunning_waddle.Base.{
  ℕ, zero, suc, ◌≡◌, refl, sym, ◌∙◌, true, ◌&&◌, not, List, [], ◌∷◌, none, some, Bytes, length,
  get_elem?, find, find-erase, if◌then◌else◌, ◌==◌, arith,
}
use stunning_waddle.Context.{
  ProtocolEngine, Context, StreamState, StreamStateEnum, idle, open_, half_closed_local,
  half_closed_remote, closed, close_found, is_open, is_closed, close_remote, write_state, deref,
  set_state, close_stream_internal, stream_send_data, stream_state_of,
}

write_state-get_elem :
    (heap : List StreamState) (i : ℕ) (s s' : StreamState)
    → get_elem? heap i ≡ some s
    → get_elem? (write_state heap i s') i ≡ some s'
unfolding write_state
write_state-get_elem [] i s s' h = ground (arith, h)
write_state-get_elem (x ∷ heap) zero s s' h = refl
write_state-get_elem (x ∷ heap) (suc i) s s' h = write_state-get_elem heap i s s' h

close_remote-is_closed : (s : StreamStateEnum) → is_closed (close_remote s) ≡ not (is_open s)
unfolding close_remote
close_remote-is_closed idle = refl
close_remote-is_closed open_ = refl
close_remote-is_closed half_closed_local = refl
close_remote-is_closed half_closed_remote = refl
close_remote-is_closed closed = refl

close_remote-eq :
    (s : StreamStateEnum) → close_remote s ≡ (if is_open s then half_closed_remote else closed)
unfolding close_remote
close_remote-eq idle = refl
close_remote-eq open_ = refl
close_remote-eq half_closed_local = refl
close_remote-eq half_closed_remote = refl
close_remote-eq closed = refl

module _ {En : Type 0} (api : ProtocolEngine En) where
  close_stream_internal-found :
      (c : Context En) (id i : ℕ) (s : StreamState)
      → find id c.streams ≡ some i
      → get_elem? c.heap i ≡ some s
      → close_stream_internal api c id ≡ close_found api c id i s
  unfolding close_stream_internal
  close_stream_internal-found c id i s f g = rw (f, close_stream_internal) (rw g refl)

  -- `stream_closed` for a stream of the context, by the state it is in: a stream that is open for
  -- sending stays, half closed by the peer; any other is closed and leaves the context, which its
  -- handles still read. No other stream is touched.
  pub close_stream_internal-streams :
      (c : Context En) (id i k : ℕ) (s : StreamState)
      → find id c.streams ≡ some i
      → get_elem? c.heap i ≡ some s
      → let c' = close_stream_internal api c id in
        (find k c'.streams
          ≡ (if (id == k) && not (is_open s.state) then none else find k c.streams))
        × (stream_state_of api c' (some i)
            ≡ (if is_open s.state then half_closed_remote else closed))
        × (c'.engine ≡ c.engine)
  unfolding stream_state_of deref close_found
  close_stream_internal-streams c id i k s f g =
      rw (close_stream_internal-found c id i s f g) (streams, state, engine)
    where
      s' : StreamState
      s' = record s { state = close_remote s.state }

      w : get_elem? (write_state c.heap i s') i ≡ some s'
      w = write_state-get_elem c.heap i s s' g

      left : Context En
      left = close_found api c id i s

      heap : left.heap ≡ write_state c.heap i s'
      heap = ground arith

      engine : left.engine ≡ c.engine
      engine = ground arith

      streams :
          find k left.streams
          ≡ (if (id == k) && not (is_open s.state) then none else find k c.streams)
      streams = ground (arith, find-erase id k c.streams, close_remote-is_closed s.state)

      state :
          stream_state_of api left (some i)
          ≡ (if is_open s.state then half_closed_remote else closed)
      state = rw (heap, w, stream_state_of) (close_remote-eq s.state)

  -- Sending the last data, all of it accepted: the stream's state becomes half closed, whatever it was.
  send_last :
      (c : Context En) (i : ℕ) (s : StreamState) (body : Bytes)
      → get_elem? c.heap i ≡ some s
      → s.headers_sent ≡ true
      → (api.engine_send_data c.engine s.id body true).0 ≡ length body
      → (stream_send_data api c (some i) body true).1 ≡ record c {
        engine = (api.engine_send_data c.engine s.id body true).1;
        heap = write_state c.heap i (record s { state = half_closed_local; headers_sent = true });
      }
  unfolding stream_send_data deref set_state
  send_last c i s body g t a =
      let accepted : ((api.engine_send_data c.engine s.id body true).0 == length body) ≡ true =
        ground (arith, a) in
      rw (g, t, accepted, stream_send_data) refl

  close_open :
      (c : Context En) (i : ℕ) (s : StreamState)
      → get_elem? c.heap i ≡ some s
      → find s.id c.streams ≡ some i
      → s.state ≡ open_
      → close_stream_internal api c s.id
        ≡ record c { heap = write_state c.heap i (record s { state = half_closed_remote }) }
  unfolding close_found close_remote
  close_open c i s g f o = close_stream_internal-found c s.id i s f g ∙ rw (o, close_found) refl

  -- A stream ends on both sides, in either order. Let it be open and in the context, with headers
  -- sent, and let the engine accept all of the last data, after the peer's end as before it. When
  -- the last data is sent first and the peer ends its side then, the stream is closed and leaves
  -- the context; when the peer ends its side first, the very same calls leave it half closed and in
  -- the context, as if the peer were still sending.
  pub stream_send_data-orders :
      (c : Context En) (i : ℕ) (s : StreamState) (body : Bytes)
      → get_elem? c.heap i ≡ some s
      → find s.id c.streams ≡ some i
      → s.state ≡ open_
      → s.headers_sent ≡ true
      → (api.engine_send_data c.engine s.id body true).0 ≡ length body
      → let local_first =
          close_stream_internal api (stream_send_data api c (some i) body true).1 s.id in
        let remote_first =
          (stream_send_data api (close_stream_internal api c s.id) (some i) body true).1 in
        (stream_state_of api local_first (some i) ≡ closed)
        × (find s.id local_first.streams ≡ none)
        × (stream_state_of api remote_first (some i) ≡ half_closed_local)
        × (find s.id remote_first.streams ≡ some i)
        × (remote_first.engine ≡ local_first.engine)
  unfolding stream_state_of deref
  stream_send_data-orders c i s body g f o t a =
      let sent : StreamState = record s { state = half_closed_local; headers_sent = true } in
      let ended : StreamState = record s { state = half_closed_remote } in
      let c1 : Context En = record c {
        engine = (api.engine_send_data c.engine s.id body true).1;
        heap = write_state c.heap i sent;
      } in
      let c2 : Context En = record c { heap = write_state c.heap i ended } in
      let (gone, shut, same) =
        close_stream_internal-streams c1 s.id i s.id sent f
          (write_state-get_elem c.heap i s sent g) in
      let g2 = write_state-get_elem c.heap i s ended g in
      rw (send_last c i s body g t a, close_open c i s g f o, send_last c2 i ended body g2 t a)
        (
          shut,
          gone ∙ ground arith,
          rw (write_state-get_elem (write_state c.heap i ended) i ended sent g2, stream_state_of)
              refl,
          f,
          sym same,
        )
