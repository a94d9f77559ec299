-- ===== src/ErrorCodes.antt =====
-- include/http/error_codes.h and source/error_codes.cpp: the unified error codes, by their 32-bit
-- values, and their messages.
use Prim.Native.String.{String}
use stunning_waddle.Base.{
  ℕ, Bool, ◌&&◌, [], ◌∷◌, ◌++◌, none, some, Bytes, codes, leb, ltb, find, Map, if◌then◌else◌,
}
use stunning_waddle.Decimal.{to_string}

-- The enumerators that the engines raise.
abbrev pub no_error : ℕ
no_error = 0x00

abbrev pub protocol_error : ℕ
protocol_error = 0x01

abbrev pub flow_control_error : ℕ
flow_control_error = 0x03

abbrev pub connection_reset : ℕ
connection_reset = 0x04

abbrev pub frame_size_error : ℕ
frame_size_error = 0x1001

abbrev pub http_status_code_base : ℕ
http_status_code_base = 100

abbrev pub http2_specific_base : ℕ
http2_specific_base = 0x1000

abbrev pub http3_specific_base : ℕ
http3_specific_base = 0x2000

unfoldable pub is_http_status_code : ℕ → Bool
is_http_status_code ec = leb http_status_code_base ec && ltb ec http2_specific_base

unfoldable pub is_http2_specific : ℕ → Bool
is_http2_specific ec = leb http2_specific_base ec && ltb ec http3_specific_base

unfoldable pub is_http3_specific : ℕ → Bool
is_http3_specific ec = leb http3_specific_base ec

unfoldable pub is_transport_error : ℕ → Bool
is_transport_error ec = ltb ec http_status_code_base

abbrev case : ℕ → String → ℕ × Bytes
case code text = (code, codes text)

-- The cases of the switch in `http_error_category::message`, each with its enumerator's value.
unfoldable pub messages : Map Bytes
messages =
    case 0x00 "No error"
    ∷ case 0x01 "Protocol error"
    ∷ case 0x02 "Internal error"
    ∷ case 0x03 "Flow control error"
    ∷ case 0x04 "Connection reset"
    ∷ case 0x05 "Timeout"
    ∷ case 0x06 "Stream closed"
    ∷ case 0x07 "Refused stream"
    ∷ case 0x08 "Cancelled"
    ∷ case 0x1000 "Settings timeout"
    ∷ case 0x1001 "Frame size error"
    ∷ case 0x1002 "Compression error"
    ∷ case 0x1003 "Connect error"
    ∷ case 0x1004 "Enhance your calm"
    ∷ case 0x1005 "Inadequate security"
    ∷ case 0x1006 "HTTP/1.1 required"
    ∷ case 0x2000 "QUIC error"
    ∷ case 100 "Continue"
    ∷ case 101 "Switching Protocols"
    ∷ case 102 "Processing"
    ∷ case 103 "Early Hints"
    ∷ case 200 "OK"
    ∷ case 201 "Created"
    ∷ case 202 "Accepted"
    ∷ case 203 "Non-Authoritative Information"
    ∷ case 204 "No Content"
    ∷ case 205 "Reset Content"
    ∷ case 206 "Partial Content"
    ∷ case 207 "Multi-Status"
    ∷ case 208 "Already Reported"
    ∷ case 226 "IM Used"
    ∷ case 300 "Multiple Choices"
    ∷ case 301 "Moved Permanently"
    ∷ case 302 "Found"
    ∷ case 303 "See Other"
    ∷ case 304 "Not Modified"
    ∷ case 305 "Use Proxy"
    ∷ case 307 "Temporary Redirect"
    ∷ case 308 "Permanent Redirect"
    ∷ case 400 "Bad Request"
    ∷ case 401 "Unauthorized"
    ∷ case 402 "Payment Required"
    ∷ case 403 "Forbidden"
    ∷ case 404 "Not Found"
    ∷ case 405 "Method Not Allowed"
    ∷ case 406 "Not Acceptable"
    ∷ case 407 "Proxy Authentication Required"
    ∷ case 408 "Request Timeout"
    ∷ case 409 "Conflict"
    ∷ case 410 "Gone"
    ∷ case 411 "Length Required"
    ∷ case 412 "Precondition Failed"
    ∷ case 413 "Payload Too Large"
    ∷ case 414 "URI Too Long"
    ∷ case 415 "Unsupported Media Type"
    ∷ case 416 "Range Not Satisfiable"
    ∷ case 417 "Expectation Failed"
    ∷ case 418 "I'm a teapot"
    ∷ case 422 "Unprocessable Entity"
    ∷ case 425 "Too Early"
    ∷ case 426 "Upgrade Required"
    ∷ case 428 "Precondition Required"
    ∷ case 429 "Too Many Requests"
    ∷ case 431 "Request Header Fields Too Large"
    ∷ case 451 "Unavailable For Legal Reasons"
    ∷ case 500 "Internal Server Error"
    ∷ case 501 "Not Implemented"
    ∷ case 502 "Bad Gateway"
    ∷ case 503 "Service Unavailable"
    ∷ case 504 "Gateway Timeout"
    ∷ case 505 "HTTP Version Not Supported"
    ∷ case 506 "Variant Also Negotiates"
    ∷ case 507 "Insufficient Storage"
    ∷ case 508 "Loop Detected"
    ∷ case 510 "Not Extended"
    ∷ case 511 "Network Authentication Required"
    ∷ []

unfoldable pub message : ℕ → Bytes
message ev = elim (find ev messages) [
  | some text ↦ text
  | none ↦
      if is_http_status_code ev then codes "HTTP " ++ to_string ev else codes "Unknown HTTP error"
]
