-- ===== src/FrameParser.antt =====
-- include/http/v2/frame_parser.h and source/v2/frame_parser.cpp, by definitions, what bounds and
-- ends the parser's loop, its byte-at-a-time reading, the frames of the encoders read back, and frames
-- and headers that arrive in parts.
pub mod Defs
pub mod Totality
pub mod Bytewise
pub mod OneFrame
pub mod WholeFrame
pub mod PartialFrame
pub mod Kept
pub mod PartTurns
pub mod Resume
pub mod Cuts
