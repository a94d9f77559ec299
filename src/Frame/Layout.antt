-- ===== src/Frame/Layout.antt =====
-- What the encoders of source/v2/frame.cpp put on the wire, read back by the header parser.
use stunning_waddle.Base.{ℕ, ◌/◌, ◌%◌, ◌^◌, ◌<◌, ◌≡◌, refl, [], ◌∷◌, ◌++◌, arith, Bytes}
use stunning_waddle.Frame.{
  FrameHeader, frame_type_byte, frame_type_of, word_bytes, word_of, write_frame_header,
  parse_header,
}

-- A header whose fields fit their bits, as every header that the encoders build or a parser reads.
pub record IsWire (h : FrameHeader) : Type 0 where
  pub length_fits : h.length_ < 2 ^ 24
  pub type_named : frame_type_of (frame_type_byte h.type) ≡ h.type
  pub stream_fits : h.stream_id < 2 ^ 31
  pub reserved_zero : h.reserved ≡ 0

abbrev pub header_bytes : FrameHeader → Bytes
header_bytes h =
    h.length_ / 2 ^ 16 % 256
    ∷ h.length_ / 2 ^ 8 % 256
    ∷ h.length_ % 256
    ∷ frame_type_byte h.type
    ∷ h.flags
    ∷ h.stream_id % 2 ^ 31 / 2 ^ 24 % 256
    ∷ h.stream_id % 2 ^ 31 / 2 ^ 16 % 256
    ∷ h.stream_id % 2 ^ 31 / 2 ^ 8 % 256
    ∷ h.stream_id % 2 ^ 31 % 256
    ∷ []

pub write_frame_header-eq :
    (dst : Bytes) (h : FrameHeader) → write_frame_header dst h ≡ dst ++ header_bytes h
unfolding write_frame_header word_bytes
write_frame_header-eq dst h = refl

-- The parser reads back the header that was written.
pub parse_header-bytes : (h : FrameHeader) → IsWire h → parse_header (header_bytes h) ≡ h
unfolding parse_header word_of
parse_header-bytes h w = ground (arith, w.type_named)

pub word_of-word_bytes :
    (v : ℕ)
    → v < 2 ^ 32
    → word_of (v / 2 ^ 24 % 256) (v / 2 ^ 16 % 256) (v / 2 ^ 8 % 256) (v % 256) ≡ v
unfolding word_of
word_of-word_bytes v h = omega arith
