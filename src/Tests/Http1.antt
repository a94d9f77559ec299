-- ===== src/Tests/Http1.antt =====
-- source/v1/engine.cpp: runs of the HTTP/1.1 engine, and its properties at concrete inputs.
use native.Mathlib.Decide.{dec_le}
use stunning_waddle.Base.{
  ◌≤◌, if◌then◌else◌, lt_wf, ◌+◌, ◌≡◌, refl, true, false, [], ◌∷◌, ◌++◌, none, some, List, Bytes,
  codes, length, inr, arith, find,
}
use stunning_waddle.Decimal.{to_hex, to_chars_acc, digit_char}
use stunning_waddle.Headers.{Headers}
use stunning_waddle.V2.State.{client, server}
use stunning_waddle.V1.Text.{find_header_ci, iequals, tolower}
use stunning_waddle.V1.State.{
  Engine, StreamInfo, new_engine, open_stream, awaiting_response, chunk_size, default_info,
}
use stunning_waddle.V1.Send.{send_request_headers, header_lines}
use stunning_waddle.V1.Input.{input_end, send_response_headers, send_data, frame_body, input_begin}
use stunning_waddle.V1.Validity.{IsValid}
use stunning_waddle.V1.Totality.{Returns, input_end-HasRoom}
use stunning_waddle.V1.Reachable.{constructed, opened, requested, Reachable-IsValid}
use stunning_waddle.V1.Pipelining.{send_response_headers-input_end, and_then}
use stunning_waddle.V1.Flush.{IsNext, sent_fields, request_text}
use stunning_waddle.V1.Request.{IsListening, IsPlain, request_events}
use stunning_waddle.V1.Request.Served.{input_end-send_request_headers}
use stunning_waddle.V1.Upload.{IsSending, IsReceiving, body_events, input_end-send_data}
use stunning_waddle.V1.Staging.{send_data-staged, append_all, send_data-wakes}
use stunning_waddle.V1.Order.{Ordered}
use stunning_waddle.V1.Order.Histories.{History, History-Ordered}

abbrev listening : Engine
unfolding new_engine
listening = new_engine server

abbrev calling : Engine
unfolding new_engine
calling = new_engine client

listening-IsValid : IsValid listening
unfolding new_engine
listening-IsValid = ground arith

get_room : length (codes "GET / HT") ≤ input_begin listening
unfolding new_engine input_begin
get_room = omega arith

input_end-HasRoom_example : Returns (input_end listening (codes "GET / HT"))
unfolding new_engine
input_end-HasRoom_example =
    input_end-HasRoom listening (codes "GET / HT") listening-IsValid (inr (omega arith)) get_room

abbrev awaiting : Engine
unfolding new_engine
awaiting = record listening {
  state = awaiting_response;
  active_stream = some 1;
  streams =
      (1, record default_info { id = 1; method = codes "GET"; request_body_done = true }) ∷ [];
  stream_order = 1 ∷ [];
  next_stream_id = 3;
}

send_response_headers-input_end_example :
    and_then (input_end awaiting (codes "GET / HT")) (λ e'. send_response_headers e' 1 204 [] true)
    ≡ and_then
        (send_response_headers awaiting 1 204 [] true)
        (λ e'. input_end e' (codes "GET / HT"))
unfolding new_engine
send_response_headers-input_end_example =
    send_response_headers-input_end awaiting 1 204 [] (codes "GET / HT") refl refl

-- A client with one stream, and with two.
abbrev first_info : StreamInfo
first_info = record default_info { id = 1 }

abbrev opened_one : Engine
unfolding new_engine
opened_one = record calling {
  streams = (1, first_info) ∷ [];
  stream_order = 1 ∷ [];
  next_stream_id = 3;
}

first-IsNext : IsNext opened_one 1 first_info
unfolding new_engine find
first-IsNext = record {
  free = refl;
  usable = refl;
  order = [];
  oldest = refl;
  known = refl;
  unfinished = refl;
  unsent = refl;
  nothing_staged = refl;
}

listening-IsListening : IsListening listening
unfolding new_engine
listening-IsListening = record { serves = refl; starts = refl; drained = refl }

abbrev a_field : Headers
a_field = record { name = codes "X"; value = codes "y" } ∷ []

get-IsPlain : IsPlain (codes "GET") (codes "/") (codes "h") a_field
unfolding find_header_ci iequals tolower
get-IsPlain = record {
  method_given = refl;
  path_given = refl;
  method_word = (refl, (refl, (refl, tt)));
  path_word = (refl, tt);
  method_in_line = (refl, (refl, (refl, tt)));
  path_in_line = (refl, tt);
  authority_in_line = (refl, tt);
  fields = (
    record {
      named = refl;
      no_colon = (refl, tt);
      name_in_line = (refl, tt);
      value_in_line = (refl, tt);
    },
    tt,
  );
  no_coding = refl;
  no_length = refl;
}

get_fits : length (request_text (codes "GET") (codes "/") (sent_fields (codes "h") a_field)) ≤ 16384
unfolding header_lines find_header_ci iequals tolower
get_fits = omega arith

input_end-send_request_headers_example :
    let c' = send_request_headers opened_one 1 (codes "GET") (codes "/") (codes "h") a_field true in
    (frame : Bytes) × (s' : Engine) × (c'.pending_out ≡ opened_one.pending_out ++ frame)
    × (c'.active_stream ≡ some 1)
    × (input_end listening frame ≡ some s')
    × (s'.event_queue
        ≡ listening.event_queue
          ++ request_events listening.next_stream_id
              (codes "GET")
              (codes "/")
              (sent_fields (codes "h") a_field))
    × (s'.state ≡ awaiting_response)
    × (s'.active_stream ≡ some listening.next_stream_id)
    × (s'.input_buffer ≡ [])
unfolding new_engine
input_end-send_request_headers_example =
    input_end-send_request_headers opened_one listening 1 first_info (codes "GET") (codes "/")
      (codes "h") a_field first-IsNext listening-IsListening get-IsPlain get_fits

abbrev sending_info : StreamInfo
sending_info = record first_info { head_sent = true; chunked = true }

abbrev uploading : Engine
unfolding new_engine
uploading = record opened_one {
  streams = (1, sending_info) ∷ [];
  active_stream = some 1;
  output_ready_cb = true;
}

uploading-IsSending : IsSending uploading 1 sending_info
unfolding new_engine find
uploading-IsSending = record {
  asks = refl;
  in_flight = refl;
  known = refl;
  may_send = refl;
  has_body = refl;
  by_chunks = refl;
}

abbrev reading : Engine
unfolding new_engine
reading = record awaiting { state = chunk_size }

reading-IsReceiving : IsReceiving reading 1
unfolding new_engine
reading-IsReceiving = record { serves = refl; awaits_size = refl; reads = refl; drained = refl }

chunk_fits : length (frame_body true (codes "abc") true) ≤ 16384
unfolding frame_body to_hex to_chars_acc digit_char lt_wf dec_le
chunk_fits = omega arith

input_end-send_data_example :
    (frame : Bytes) × (c' : Engine) × (s' : Engine) × (send_data uploading 1 (codes "abc") true
      ≡ (length (codes "abc"), some c'))
    × (c'.pending_out ≡ uploading.pending_out ++ frame)
    × (input_end reading frame ≡ some s')
    × (s'.event_queue ≡ reading.event_queue ++ body_events 1 (codes "abc") true)
    × (s'.state ≡ (if true then awaiting_response else chunk_size))
    × (s'.active_stream ≡ some 1)
    × (s'.input_buffer ≡ [])
unfolding new_engine
input_end-send_data_example =
    input_end-send_data uploading reading 1 1 sending_info (codes "abc") true uploading-IsSending
      reading-IsReceiving chunk_fits

abbrev two_streams : Engine
unfolding new_engine
two_streams = record uploading {
  streams = (1, sending_info) ∷ (3, record first_info { id = 3 }) ∷ [];
  stream_order = 1 ∷ 3 ∷ [];
  next_stream_id = 5;
}

second_known : find 3 two_streams.streams ≡ some (record first_info { id = 3 })
unfolding new_engine find
second_known = refl

send_data-staged_example :
    let c' = send_request_headers two_streams 3 (codes "PUT") (codes "/") [] [] false in
    send_data c' 3 (codes "abc") true ≡ (0, some c')
unfolding new_engine
send_data-staged_example =
    send_data-staged two_streams 1 3 (record first_info { id = 3 }) (codes "PUT") (codes "/") [] []
      (codes "abc") true refl second_known refl

uploading_known : find 1 uploading.streams ≡ some sending_info
unfolding new_engine find
uploading_known = refl

send_data-wakes_example :
    (c' : Engine) × (send_data uploading 1 [] false ≡ (0, some c'))
    × (c'.pending_out ≡ [])
    × (c'.ready_calls ≡ uploading.ready_calls + 1)
    × ((pieces : List Bytes) → (append_all c' pieces).ready_calls ≡ c'.ready_calls)
unfolding new_engine
send_data-wakes_example =
    send_data-wakes uploading 1 sending_info refl uploading_known refl refl refl refl refl

Reachable-IsValid_example : IsValid (
    send_request_headers (open_stream (new_engine client)).1 1 (codes "GET") (codes "/") [] [] true)
Reachable-IsValid_example =
    Reachable-IsValid
      (requested 1 (codes "GET") (codes "/") [] [] true (opened (constructed client)))

first_fresh : find (new_engine client).next_stream_id (new_engine client).streams ≡ none
unfolding new_engine find
first_fresh = refl

History-Ordered_example : Ordered (
    send_request_headers (open_stream (new_engine client)).1 1 (codes "GET") (codes "/") [] [] true)
History-Ordered_example = History-Ordered (
    History.requested 1 (codes "GET") (codes "/") [] [] true
      (History.opened History.constructed first_fresh))
