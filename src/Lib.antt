-- ===== src/Lib.antt =====
-- stunning-waddle: a sans-I/O HTTP library in C++. A protocol engine turns received bytes into
-- events and requests into bytes to send; the caller moves the bytes.
--
-- The parts and the files that model them:
--   Headers          include/http/headers.h, source/headers.cpp: a list of name-value fields.
--   ErrorCodes       include/http/error_codes.h, source/error_codes.cpp: the unified codes.
--   Event            include/http/event.h: the events an engine queues.
--   Frame            include/http/v2/frame.h, source/v2/frame.cpp: HTTP/2 frames written.
--   FrameParser      include/http/v2/frame_parser.h, source/v2/frame_parser.cpp: frames read. Defs
--                    has the definitions; `consume` is a loop over `turn`.
--   Hpack            source/v2/hpack.cpp, hpack_huffman.cpp, hpack_context.cpp and their headers:
--                    Ints, Huffman, Strings, StaticTable, and Context with encoder and decoder.
--   V2               include/http/v2/engine.h, source/v2/engine.cpp: State (the members and what both
--                    sides share), Send, Receive (the frame handlers) and Input (`input_end`).
--   V1               include/http/v1/engine.h, source/v1/engine.cpp: Text (lines and words), State (the
--                    members), Send (heads and pipelined requests), Exchange (how a message ends),
--                    Parse (the loop over the parser's states) and Input (`input_end`, `eof` and
--                    the sending operations that go on parsing).
--   Context          include/http/stream.h, context_base.h, source/stream.cpp, context_base.cpp,
--                    client_context.cpp, server_context.cpp: stream handles and their registry,
--                    over the interface of include/http/protocol_engine.h; Context/Events fills
--                    it with the HTTP/2 engine, Context/Engines with the engine that a protocol
--                    version chooses, and has what a context passes on to it.
--   Coro             include/http/adapters/coro.h: the registry that hands the events of a context to
--                    the requests that wait for them (`pump`, `dispatch`), and `execute`.
--   Uri              include/http/uri_type.h: the path of a request.
--   Sse              include/http/sse.h, source/sse.cpp: the parser of server-sent events.
--   Decimal          the number conversions of the standard library that the engines call.
--   Base             shared types, tests, lists, integers, maps and bytes.
--   Tests            runs on concrete input.
--
-- Reading the model. A class is a record of its members, a method a function from the record to the
-- record and its result. Bytes and 32-bit words are natural numbers, with `% 2 ^ w` where the
-- source wraps; `x >> k` is `x / 2 ^ k` and a mask of low bits is `% 2 ^ k`. The 64-bit signed windows
-- are integers; they grow by at most 2 ^ 31 for each frame, and their overflow is not modelled.
-- Exceptions are values: `Result` in Hpack, `Run` in V2, which keeps the engine as the exception
-- leaves it. `std::unordered_map` is an association list, read in the order in which its keys
-- came: the order of the events that a loop over it queues is the model's choice. The parser's
-- callbacks change a state of the client's, which is `Run` for the engine. The caller's output
-- callback is counted, and does not call the engine back. `input_end` takes the bytes that were
-- written into the span of `input_begin`. In V1 a string view is the list of its bytes, `offset` is
-- the list of the bytes from there on, and the status codes that are sent are not negative.
--
-- Fuel. `consume_loop` has as many turns as bytes, `evict` as many as entries, `send_chunks` as
-- many as bytes to send, and the HPACK decoder's loop and the HTTP/1.1 parser's as many as bytes:
-- each turn takes one at least, and the theorems on totality, eviction, sending and round trips hold with that fuel.
-- The loop of a context's `next_event` has one turn more than there are events queued, which is
-- proved enough, and so is that for the registry's `pump`.
--
-- Not modelled: the coroutine and task types of the adapter, and what a coroutine does when it is
-- resumed, which the registry only notes; the plumbing of `std::error_category`; tests and benchmarks.
pub mod Base
pub mod Decimal
pub mod ErrorCodes
pub mod Frame
pub mod FrameParser
pub mod Hpack
pub mod Headers
pub mod Event
pub mod V1
pub mod V2
pub mod Sse
pub mod Context
pub mod Uri
pub mod Coro
pub mod Tests
