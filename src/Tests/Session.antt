-- ===== src/Tests/Session.antt =====
-- source/v2/engine.cpp: a client's header block arrives at a server.
use stunning_waddle.Base.{
  ◌<◌, ◌^◌, ◌≡◌, refl, true, [], ◌∷◌, ◌++◌, some, Bytes, length, All, arith, str_eq,
}
use stunning_waddle.Headers.{Headers, header_eq}
use stunning_waddle.Hpack.Ints.{encode_int, or_back}
use stunning_waddle.Hpack.Strings.{encode_string}
use stunning_waddle.Hpack.StaticTable.{hpack_static_table}
use stunning_waddle.Hpack.Huffman.{
  encode_huffman, encode_huffman_loop, drain, entry_of, pad_byte, encode_huffman_len, code_length,
}
use stunning_waddle.Hpack.Strings.RoundTrip.{FitsString}
use stunning_waddle.Hpack.Context.{
  encode, encode_header, find_exact_match, find_name_match, find_match, find_from,
  encode_header_literal_inc_index_new_name,
}
use stunning_waddle.Hpack.Context.Table.{IsValid}
use stunning_waddle.Hpack.Context.RoundTrip.{FitsField}
use stunning_waddle.V2.State.{Engine, client, server, new_engine, ready}
use stunning_waddle.V2.Send.{send_headers_frame}
use stunning_waddle.V2.Receive.{running}
use stunning_waddle.V2.Input.{input_end}
use stunning_waddle.V2.Input.Session.{IsWaiting, header_events, input_end-send_headers_frame}

abbrev sender : Engine
unfolding new_engine
sender = new_engine client

abbrev receiver : Engine
unfolding new_engine
receiver = record (new_engine server) { state = ready }

abbrev one_field : Headers
one_field = record { name = 97 ∷ []; value = 98 ∷ [] } ∷ []

receiver-IsWaiting : IsWaiting receiver
unfolding new_engine
receiver-IsWaiting = record {
  open_ = refl;
  idle = record { awaits = refl; fresh = refl };
  drained = refl;
}

in_step : receiver.decode_ctx ≡ sender.encode_ctx
unfolding new_engine
in_step = refl

sender-IsValid : IsValid sender.encode_ctx
unfolding new_engine
sender-IsValid = record { counted = refl; within = omega arith; max_fits = omega arith; small = tt }

fits_a : FitsString true 65536 (97 ∷ [])
unfolding encode_huffman encode_huffman_loop drain entry_of pad_byte
fits_a = record { are_bytes = (omega arith, tt); within = omega arith }

fits_b : FitsString true 65536 (98 ∷ [])
unfolding encode_huffman encode_huffman_loop drain entry_of pad_byte
fits_b = record { are_bytes = (omega arith, tt); within = omega arith }

field_fits : All (FitsField true) one_field
field_fits = (record { name_fits = fits_a; value_fits = fits_b; small = omega arith }, tt)

block_fits : length (encode sender.encode_ctx [] one_field true).0 < 2 ^ 24
unfolding encode encode_header find_exact_match find_name_match find_match find_from header_eq
    str_eq hpack_static_table encode_header_literal_inc_index_new_name encode_string encode_huffman
    encode_huffman_loop drain entry_of pad_byte encode_int or_back new_engine encode_huffman_len
    code_length
block_fits = omega arith

input_end-send_headers_frame_example :
    let c' = send_headers_frame sender 1 one_field true in
    (frame : Bytes) × (s' : Engine) × (c'.pending_out ≡ sender.pending_out ++ frame)
    × (input_end receiver frame ≡ some (running s'))
    × (s'.event_queue ≡ receiver.event_queue ++ header_events receiver 1 one_field true)
    × (s'.decode_ctx ≡ c'.encode_ctx)
    × IsWaiting s'
input_end-send_headers_frame_example =
    input_end-send_headers_frame sender receiver 1 one_field true receiver-IsWaiting in_step
      sender-IsValid field_fits (omega arith) block_fits (omega arith)
