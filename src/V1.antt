-- ===== src/V1.antt =====
-- source/v1/engine.cpp and include/http/v1/engine.h: the HTTP/1.1 engine.
pub mod Text
pub mod State
pub mod Send
pub mod Exchange
pub mod Parse
pub mod Input
pub mod Validity
pub mod Turns
pub mod Totality
pub mod Reachable
pub mod Pipelining
pub mod Lines
pub mod Runs
pub mod Flush
pub mod Chunks
pub mod Upload
pub mod Staging
pub mod Order
pub mod Request
