-- ===== src/V2/Send/Chunks.antt =====
-- source/v2/engine.cpp: the DATA frames that `send_data` writes, and what they cost.
use stunning_waddle.Base.{
  ℕ, zero, suc, ◌+◌, ◌-◌, ◌≤◌, ◌<◌, ◌≡◌, refl, sym, ap, ◌∙◌, List, [], ◌∷◌, ◌++◌, append-nil,
  append_assoc, Bool, true, false, ◌&&◌, Bytes, length, take, drop, All, min, arith, ltb, ◌==◌,
  if◌then◌else◌, length-take, length-drop, drop-drop, take-add, ℤ, pos, pos_part, ◌-ℤ◌, ◌≤ℤ◌, ◌<ℤ◌,
  leb_ℤ, ltb_ℤ, find-insert, ltb→lt,
}
use stunning_waddle.Frame.{encode_data_frame, write_frame_header}
use stunning_waddle.V2.State.{
  Engine, max_frame_size, stream_send_window, maybe_invoke_output_ready, set_flow_state,
  get_or_init_stream_flow_state, new_flow_state,
}
use stunning_waddle.V2.Send.{send_chunks, send_data, min_ℤ, spend_windows}

-- DATA frames on the wire, by their payloads and END_STREAM flags.
abbrev pub frames_bytes : ℕ → List (Bytes × Bool) → Bytes
frames_bytes stream_id [] = []
frames_bytes stream_id (f ∷ frames) =
    encode_data_frame [] stream_id f.0 f.1 ++ frames_bytes stream_id frames

abbrev pub payloads : List (Bytes × Bool) → Bytes
payloads [] = []
payloads (f ∷ frames) = f.0 ++ payloads frames

-- The last frame has the flag, and the others end no stream.
abbrev pub Flagged : Bool → List (Bytes × Bool) → Type 0
Flagged last [] = Unit
Flagged last (f ∷ []) = f.1 ≡ last
Flagged last (f ∷ g ∷ frames) = (f.1 ≡ false) × Flagged last (g ∷ frames)

abbrev pub IsChunk : Bytes × Bool → Type 0
IsChunk f = (0 < length f.0) × (length f.0 ≤ max_frame_size)

encode_data_frame-append :
    (out payload : Bytes) (stream_id : ℕ) (fin : Bool)
    → encode_data_frame out stream_id payload fin
      ≡ out ++ encode_data_frame [] stream_id payload fin
unfolding encode_data_frame write_frame_header
encode_data_frame-append out payload stream_id fin = rw append_assoc

-- What the loop wrote from `offset` on.
pub record Chunks (stream_id : ℕ) (last : Bool) (content out result : Bytes) : Type 0 where
  pub frames : List (Bytes × Bool)
  pub written : result ≡ out ++ frames_bytes stream_id frames
  pub exact : payloads frames ≡ content
  pub chunked : All IsChunk frames
  pub flagged : Flagged last frames
  pub some_frame : 0 < length frames

module _ (stream_id : ℕ) (body : Bytes) (end_stream : Bool) (total : ℕ)
    (within : total ≤ length body) where
  last_chunk :
      (out chunk content : Bytes) (flag last : Bool)
      → IsChunk (chunk, flag)
      → chunk ≡ content
      → flag ≡ last
      → Chunks stream_id last content out (encode_data_frame out stream_id chunk flag)
  last_chunk out chunk content flag last c e f = record {
    frames = (chunk, flag) ∷ [];
    written =
        encode_data_frame-append out chunk stream_id flag
        ∙ ap (λ r. out ++ r) (sym (append-nil (encode_data_frame [] stream_id chunk flag)));
    exact = append-nil chunk ∙ e;
    chunked = (c, tt);
    flagged = f;
    some_frame = omega arith;
  }

  more-Chunks :
      (out chunk rest content result : Bytes) (flag last : Bool)
      → IsChunk (chunk, flag)
      → flag ≡ false
      → chunk ++ rest ≡ content
      → Chunks stream_id last rest (encode_data_frame out stream_id chunk flag) result
      → Chunks stream_id last content out result
  more-Chunks out chunk rest content result flag last c f k x = record {
    frames = (chunk, flag) ∷ x.frames;
    written =
        x.written
        ∙ ap (λ r. r ++ frames_bytes stream_id x.frames)
            (encode_data_frame-append out chunk stream_id flag)
        ∙ append_assoc out (encode_data_frame [] stream_id chunk flag)
            (frames_bytes stream_id x.frames);
    exact = ap (λ r. chunk ++ r) x.exact ∙ k;
    chunked = (c, x.chunked);
    flagged = go x.frames x.some_frame x.flagged;
    some_frame = omega arith;
  }
    where
      go :
          (fs : List (Bytes × Bool))
          → 0 < length fs
          → Flagged last fs
          → Flagged last ((chunk, flag) ∷ fs)
      go [] n g = absurd (omega arith)
      go (g ∷ fs) n h = (f, h)

  send_chunks-Chunks :
      (fuel : ℕ) (out : Bytes) (offset : ℕ)
      → offset < total
      → total - offset ≤ fuel
      → Chunks stream_id
          ((total == length body) && end_stream)
          (take (total - offset) (drop offset body))
          out
          (send_chunks fuel out stream_id body end_stream total offset)
  unfolding send_chunks
  send_chunks-Chunks zero out offset h k = absurd (omega arith)
  send_chunks-Chunks (suc fuel) out offset h k =
      go (ltb offset' total) refl
        (λ t. send_chunks-Chunks fuel out' offset' (ltb→lt _ _ t) (omega arith))
    where
      size : ℕ
      size = min (total - offset) max_frame_size

      offset' : ℕ
      offset' = offset + size

      chunk : Bytes
      chunk = take size (drop offset body)

      out' : Bytes
      out' = encode_data_frame out stream_id chunk ((offset' == length body) && end_stream)

      sized : length chunk ≡ size
      sized = omega (arith, length-take size (drop offset body), length-drop offset body)

      goal : Bytes → Type 0
      goal r =
          Chunks stream_id ((total == length body) && end_stream)
            (take (total - offset) (drop offset body)) out r

      go :
          (b : Bool)
          → ltb offset' total ≡ b
          → (ltb offset' total ≡ true
              → Chunks stream_id
                  ((total == length body) && end_stream)
                  (take (total - offset') (drop offset' body))
                  out'
                  (send_chunks fuel out' stream_id body end_stream total offset'))
          → goal (send_chunks (suc fuel) out stream_id body end_stream total offset)
      go true t ih =
          let lt : offset' < total = ltb→lt offset' total t in
          let open_ : ((offset' == length body) && end_stream) ≡ false = ground arith in
          rw (t, send_chunks)
            (more-Chunks out chunk (take (total - offset') (drop offset' body)) _ _ _ _
              (omega (arith, sized), omega (arith, sized)) open_
              (ap (λ d. chunk ++ take (total - offset') d) (sym (drop-drop offset size body))
                ∙ take-add size (total - offset') (drop offset body)
                ∙ ap (λ n. take n (drop offset body)) (omega arith))
              (ih t))
      go false t ih =
          let same : offset' ≡ total = ground arith in
          let exact : size ≡ total - offset = omega arith in
          rw (t, send_chunks)
            (last_chunk out chunk _ ((offset' == length body) && end_stream) _
              (omega (arith, sized), omega (arith, sized))
              (ap (λ n. take n (drop offset body)) exact)
              (ap (λ n. (n == length body) && end_stream) same))

spend_windows-windows :
    (e : Engine) (stream_id total k : ℕ)
    → let e' = spend_windows e stream_id total in
      (e'.connection_send_window ≡ e.connection_send_window -ℤ pos total)
      × (stream_send_window e' stream_id ≡ stream_send_window e stream_id -ℤ pos total)
      × (stream_send_window e' k ≡ (
          if stream_id == k
          then stream_send_window e stream_id -ℤ pos total
          else stream_send_window e k))
      × (e'.pending_out ≡ e.pending_out)
      × (e'.event_queue ≡ e.event_queue)
unfolding spend_windows set_flow_state get_or_init_stream_flow_state new_flow_state
    stream_send_window
spend_windows-windows e stream_id total k = grind (arith, find-insert)

maybe_invoke_output_ready-eq :
    (e : Engine) (stream_id : ℕ)
    → let e' = maybe_invoke_output_ready e in
      (e'.connection_send_window ≡ e.connection_send_window)
      × (stream_send_window e' stream_id ≡ stream_send_window e stream_id)
      × (e'.pending_out ≡ e.pending_out)
      × (e'.event_queue ≡ e.event_queue)
unfolding maybe_invoke_output_ready stream_send_window
maybe_invoke_output_ready-eq e stream_id = ground arith

-- The smaller of the two windows.
abbrev pub available : Engine → ℕ → ℤ
available e stream_id =
    if ltb_ℤ (stream_send_window e stream_id) e.connection_send_window
    then stream_send_window e stream_id
    else e.connection_send_window

abbrev sent_engine : Engine → ℕ → Bytes → Bool → Engine
sent_engine e stream_id body end_stream =
    let n = min (length body) (pos_part (available e stream_id)) in
    record e { pending_out = send_chunks n e.pending_out stream_id body end_stream n 0 }

send_data-eq :
    (e : Engine) (stream_id : ℕ) (body : Bytes) (end_stream : Bool)
    → 0 < length body
    → pos 0 <ℤ available e stream_id
    → let n = min (length body) (pos_part (available e stream_id)) in
      send_data e stream_id body end_stream ≡ (
        n,
        spend_windows
            (maybe_invoke_output_ready (sent_engine e stream_id body end_stream))
            stream_id
            n,
      )
unfolding send_data min_ℤ
send_data-eq e stream_id [] end_stream h a = absurd (omega arith)
send_data-eq e stream_id (b ∷ body) end_stream h a = rw (blocked, send_data) refl
  where
    blocked : leb_ℤ (available e stream_id) (pos 0) ≡ false
    blocked = ground arith

minus_zero : (n : ℕ) → n - 0 ≡ n
minus_zero n = omega arith

available-le :
    (e : Engine) (stream_id : ℕ)
    → (available e stream_id ≤ℤ e.connection_send_window)
      × (available e stream_id ≤ℤ stream_send_window e stream_id)
available-le e stream_id = (ground arith, ground arith)

-- `send_data` on a body that is not empty, when both windows are positive: it accepts as many bytes
-- as the body has and both windows allow, at least one. The output grows by DATA frames for the
-- stream, of 1 to 16384 bytes, whose payloads are together the accepted bytes in order;
-- END_STREAM is on the last frame alone, and only when the whole body was accepted and the caller
-- asked for it. Both windows fall by what was accepted, never below zero, and the windows of the
-- other streams stay.
pub send_data-frames :
    (e : Engine) (stream_id k : ℕ) (body : Bytes) (end_stream : Bool)
    → 0 < length body
    → pos 0 <ℤ available e stream_id
    → let n = min (length body) (pos_part (available e stream_id)) in
      let e' = (send_data e stream_id body end_stream).1 in
      ((send_data e stream_id body end_stream).0 ≡ n)
      × (0 < n)
      × Chunks stream_id
          ((n == length body) && end_stream)
          (take n body)
          e.pending_out
          e'.pending_out
      × (e'.connection_send_window ≡ e.connection_send_window -ℤ pos n)
      × (stream_send_window e' stream_id ≡ stream_send_window e stream_id -ℤ pos n)
      × (pos 0 ≤ℤ e'.connection_send_window)
      × (pos 0 ≤ℤ stream_send_window e' stream_id)
      × (stream_send_window e' k ≡ (
          if stream_id == k
          then stream_send_window e stream_id -ℤ pos n
          else stream_send_window e k))
unfolding ◌-ℤ◌ stream_send_window
send_data-frames e stream_id k body end_stream h a =
    let n : ℕ = min (length body) (pos_part (available e stream_id)) in
    let positive : 0 < n = omega arith in
    let sent = rw (minus_zero n) at (
      send_chunks-Chunks stream_id body end_stream n (omega arith) n e.pending_out 0 positive
        (omega arith)) in
    let e1 : Engine = sent_engine e stream_id body end_stream in
    let e2 : Engine = maybe_invoke_output_ready e1 in
    let (m1, m2, m3, m4) = maybe_invoke_output_ready-eq e1 stream_id in
    let (s1, s2, s3, s4, s5) = spend_windows-windows e2 stream_id n k in
    let (le1, le2) = available-le e stream_id in
    rw (send_data-eq e stream_id body end_stream h a) (
      refl,
      positive,
      rw (s4, m3) sent,
      s1 ∙ ap (λ w. w -ℤ pos n) m1,
      s2 ∙ ap (λ w. w -ℤ pos n) m2,
      rw (s1, m1) (ground arith),
      rw (s2, m2) (ground arith),
      s3
          ∙ ap (λ w. if stream_id == k then w -ℤ pos n else stream_send_window e2 k) m2
          ∙ ap (λ w. if stream_id == k then stream_send_window e stream_id -ℤ pos n else w)
              (maybe_invoke_output_ready-eq e1 k).1,
    )
