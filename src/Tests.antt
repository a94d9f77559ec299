-- ===== src/Tests.antt =====
-- Runs of the definitions, and the properties at concrete inputs.
mod Coding
mod Connection
mod Events
mod Handshake
mod Http1
mod Session
mod Streams
mod Registry
