-- ===== src/Frame.antt =====
-- include/http/v2/frame.h and source/v2/frame.cpp: the HTTP/2 frame header and the frames that the
-- engine writes. A `std::vector<std::byte>` that a function appends to is its first argument.
-- `x >> k` is `x / 2 ^ k`, `x & 0xFF` is `x % 256`, and a bit-field of `w` bits keeps `% 2 ^ w`.
pub mod Layout
use stunning_waddle.Base.{
  ℕ, ◌+◌, ◌*◌, ◌/◌, ◌%◌, ◌^◌, Bool, true, false, List, [], ◌∷◌, ◌++◌, length, get_or, Bytes,
  if◌then◌else◌, ◌==◌,
}

-- `enum class frame_type : uint8_t`. A cast from a byte may give a value with no enumerator.
pub data FrameType : Type 0 where
  data_frame headers priority rst_stream settings push_promise ping goaway : FrameType
  window_update continuation : FrameType
  unnamed : ℕ → FrameType

-- `static_cast<std::byte>(type)`
unfoldable pub frame_type_byte : FrameType → ℕ
frame_type_byte data_frame = 0x00
frame_type_byte headers = 0x01
frame_type_byte priority = 0x02
frame_type_byte rst_stream = 0x03
frame_type_byte settings = 0x04
frame_type_byte push_promise = 0x05
frame_type_byte ping = 0x06
frame_type_byte goaway = 0x07
frame_type_byte window_update = 0x08
frame_type_byte continuation = 0x09
frame_type_byte (unnamed b) = b

-- `static_cast<frame_type>(byte)`
unfoldable pub frame_type_of : ℕ → FrameType
frame_type_of b =
    if b == 0x00
    then data_frame
    else if b == 0x01
    then headers
    else if b == 0x02
    then priority
    else if b == 0x03
    then rst_stream
    else if b == 0x04
    then settings
    else if b == 0x05
    then push_promise
    else if b == 0x06
    then ping
    else if b == 0x07
    then goaway
    else if b == 0x08
    then window_update
    else if b == 0x09
    then continuation
    else unnamed b

-- `enum class settings_id : uint16_t`
pub data SettingsId : Type 0 where
  header_table_size enable_push max_concurrent_streams initial_window_size : SettingsId
  max_frame_size max_header_list_size : SettingsId
  unnamed_setting : ℕ → SettingsId

unfoldable pub settings_id_value : SettingsId → ℕ
settings_id_value header_table_size = 0x01
settings_id_value enable_push = 0x02
settings_id_value max_concurrent_streams = 0x03
settings_id_value initial_window_size = 0x04
settings_id_value max_frame_size = 0x05
settings_id_value max_header_list_size = 0x06
settings_id_value (unnamed_setting v) = v

-- `static_cast<settings_id>(id)`
unfoldable pub settings_id_of : ℕ → SettingsId
settings_id_of v =
    if v == 0x01
    then header_table_size
    else if v == 0x02
    then enable_push
    else if v == 0x03
    then max_concurrent_streams
    else if v == 0x04
    then initial_window_size
    else if v == 0x05
    then max_frame_size
    else if v == 0x06
    then max_header_list_size
    else unnamed_setting v

pub record FrameHeader : Type 0 where
  pub length_ : ℕ
  pub type : FrameType
  pub flags : ℕ
  pub stream_id : ℕ
  pub reserved : ℕ

pub record Setting : Type 0 where
  pub id : SettingsId
  pub value : ℕ

-- The four `push_back` calls that write a 32-bit value, most significant byte first.
unfoldable pub word_bytes : ℕ → Bytes
word_bytes v = v / 2 ^ 24 % 256 ∷ v / 2 ^ 16 % 256 ∷ v / 2 ^ 8 % 256 ∷ v % 256 ∷ []

-- Four bytes or'ed together after their shifts; the bits are disjoint.
unfoldable pub word_of : ℕ → ℕ → ℕ → ℕ → ℕ
word_of a b c d = a * 2 ^ 24 + b * 2 ^ 16 + c * 2 ^ 8 + d

-- A frame header as the encoders build it: `length` is a 24-bit field of a value cast to
-- `uint32_t`, and `stream_id` a 31-bit field.
unfoldable pub make_header : ℕ → FrameType → ℕ → ℕ → FrameHeader
make_header size type flags stream_id = record {
  length_ = size % 2 ^ 32 % 2 ^ 24;
  type = type;
  flags = flags;
  stream_id = stream_id % 2 ^ 31;
  reserved = 0;
}

unfoldable pub write_frame_header : Bytes → FrameHeader → Bytes
write_frame_header dst hdr =
    dst
    ++ (hdr.length_ / 2 ^ 16 % 256
        ∷ hdr.length_ / 2 ^ 8 % 256
        ∷ hdr.length_ % 256
        ∷ frame_type_byte hdr.type
        ∷ hdr.flags
        ∷ word_bytes (hdr.stream_id % 2 ^ 31))

unfoldable pub encode_data_frame : Bytes → ℕ → Bytes → Bool → Bytes
encode_data_frame dst stream_id payload end_stream =
    write_frame_header dst
      (make_header (length payload) data_frame (if end_stream then 0x01 else 0x00) stream_id)
    ++ payload

-- `flags |= 0x01` and `flags |= 0x04` on a byte that starts as 0.
unfoldable pub headers_flags : Bool → Bool → ℕ
headers_flags end_headers end_stream =
    (if end_stream then 0x01 else 0x00) + (if end_headers then 0x04 else 0x00)

unfoldable pub encode_headers_frame : Bytes → ℕ → Bytes → Bool → Bool → Bytes
encode_headers_frame dst stream_id header_block end_headers end_stream =
    write_frame_header dst
      (make_header (length header_block) headers (headers_flags end_headers end_stream) stream_id)
    ++ header_block

-- One entry of the loop of `encode_settings_frame`.
unfoldable pub setting_bytes : Setting → Bytes
setting_bytes s =
    let id = settings_id_value s.id in id / 2 ^ 8 % 256 ∷ id % 256 ∷ word_bytes s.value

unfoldable pub settings_bytes : List Setting → Bytes
settings_bytes [] = []
settings_bytes (s ∷ rest) = setting_bytes s ++ settings_bytes rest

unfoldable pub encode_settings_frame : Bytes → List Setting → Bool → Bytes
encode_settings_frame dst entries ack =
    write_frame_header dst
      (make_header (length entries * 6) settings (if ack then 0x01 else 0x00) 0)
    ++ settings_bytes entries

unfoldable pub encode_window_update_frame : Bytes → ℕ → ℕ → Bytes
encode_window_update_frame dst stream_id increment =
    write_frame_header dst (make_header 4 window_update 0x00 stream_id)
    ++ word_bytes (increment % 2 ^ 31)

unfoldable pub encode_goaway_frame : Bytes → ℕ → ℕ → Bytes → Bytes
encode_goaway_frame dst last_stream_id error_code debug_data =
    write_frame_header dst (make_header (8 + length debug_data) goaway 0x00 0)
    ++ (word_bytes (last_stream_id % 2 ^ 31) ++ (word_bytes error_code ++ debug_data))

-- `frame_parser::process_header` of source/v2/frame_parser.cpp: the header that nine bytes hold.
unfoldable pub parse_header : Bytes → FrameHeader
parse_header b = record {
  length_ = word_of 0 (get_or b 0 0) (get_or b 1 0) (get_or b 2 0);
  type = frame_type_of (get_or b 3 0);
  flags = get_or b 4 0;
  stream_id = word_of (get_or b 5 0 % 2 ^ 7) (get_or b 6 0) (get_or b 7 0) (get_or b 8 0);
  reserved = get_or b 5 0 / 2 ^ 7 % 2;
}
