-- ===== src/V2.antt =====
-- source/v2/engine.cpp and include/http/v2/engine.h: the HTTP/2 engine.
pub mod State
pub mod Send
pub mod Receive
pub mod Input
