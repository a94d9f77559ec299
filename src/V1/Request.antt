-- ===== src/V1/Request.antt =====
-- source/v1/engine.cpp: a request without a body, as its head is read. Served has the whole way from
-- a client's engine to a server's.
pub mod Served
use mathlib.Core.Path.{subst}
use stunning_waddle.Base.{
  All-append, if_true, if_false, elim_some, ℕ, ◌+◌, ◌<◌, ◌≤◌, Bool, true, false, not, ◌&&◌, ◌||◌,
  ◌≡◌, ◌∙◌, sym, List, [], ◌∷◌, ◌++◌, Option, none, some, Bytes, length, arith, codes, is_empty,
  if◌then◌else◌, refl, ap, All, append_assoc, append-nil, ◌==◌, Bool-cases, inl, inr, take, drop,
  str_eq, find, insert, find-insert, if_intro, option_intro,
}
use stunning_waddle.Event.{Event, plain_event, headers_of, new_stream, stream_closed}
use stunning_waddle.Headers.{Header, Headers, add}
use stunning_waddle.V2.State.{server, is_server}
use stunning_waddle.V1.Text.{
  split_at, trim_ows, trim_front, trim_back, find_header_ci, LineResult, parse_request_line,
  parse_version, contains, iequals,
}
use stunning_waddle.V1.State.{
  Engine, StreamInfo, ParseState, start_line, reading_headers, awaiting_response, input_capacity,
  queue_event, update, info_at, advance_stream_id, append_pending, maybe_invoke_output_ready,
}
use stunning_waddle.V1.Send.{
  crlf, header_lines, serialize_request_head, stage_request, send_request_headers, flush_pending,
  flush_loop, flush_stream, has_header,
}
use stunning_waddle.V1.Exchange.{
  complete_request, handle_headers_complete, request_head_complete, request_fields, add_all,
  asks_close, is_chunked,
}
use stunning_waddle.V1.Parse.{
  Turn, again, turn, take_line, on_start_line, on_request_line, begin_request, set_minor,
  parse_available, parse_from, compact,
}
use stunning_waddle.V1.Input.{input_end}
use stunning_waddle.V1.Lines.{
  Lacks, IsField, receive_all, split_at-append, find_header_ci-receive_all,
}
use stunning_waddle.V1.Flush.{
  sent_fields, request_line, request_text, find-insert_self, IsNext, send_request_headers-parts,
}
use stunning_waddle.V1.Runs.{
  Runs, Runs-end, Runs-again, Runs-empty_line, Runs-header_lines, take_line-crlf, length-line,
  parse_from-Runs, with_fields,
}

pub parse_request_line-request_line :
    (method path : Bytes)
    → is_empty method ≡ false
    → is_empty path ≡ false
    → Lacks 32 method
    → Lacks 32 path
    → parse_request_line (request_line method path)
      ≡ record { minor = some 1; parts = some (method, path) }
unfolding parse_request_line parse_version str_eq
parse_request_line-request_line method path m p lm lp =
    elim_some (split_at 32 (request_line method path)) _ _
      (split_at-append 32 method (path ++ codes " HTTP/1.1") lm)
    ∙ if_false (is_empty method) _ _ m
    ∙ elim_some (split_at 32 (path ++ codes " HTTP/1.1")) _ _
        (split_at-append 32 path (codes "HTTP/1.1") lp)
    ∙ ap (λ (b : Bool). record { minor = some 1; parts = if b then none else some (method, path) })
        p

add_all-append : (hdrs rest : Headers) → add_all hdrs rest ≡ hdrs ++ rest
unfolding add_all add
add_all-append hdrs [] = sym (append-nil hdrs)
add_all-append hdrs (h ∷ rest) =
    add_all-append (hdrs ++ (h ∷ [])) rest ∙ append_assoc hdrs (h ∷ []) rest

pub complete_request-kept :
    (e : Engine) (id : ℕ)
    → ((complete_request e id).event_queue ≡ e.event_queue ++ (plain_event id stream_closed ∷ []))
      × ((complete_request e id).state ≡ awaiting_response)
      × ((complete_request e id).active_stream ≡ e.active_stream)
      × ((complete_request e id).input_buffer ≡ e.input_buffer)
unfolding complete_request
complete_request-kept e id = (ground arith, ground arith, ground arith, ground arith)

-- The head is complete: a request that announces no body is complete with it.
pub request_head_complete-bodiless :
    (e : Engine) (id : ℕ) (info : StreamInfo)
    → find_header_ci e.message_headers (codes "transfer-encoding") ≡ []
    → find_header_ci e.message_headers (codes "content-length") ≡ []
    → request_head_complete e id info
      ≡ complete_request
          (queue_event e (headers_of id (request_fields e info ++ e.message_headers)))
          id
unfolding request_head_complete contains
request_head_complete-bodiless e id info te cl =
    if_false (is_chunked e) _ _ (ap (contains (codes "chunked")) te)
    ∙ if_false (not (is_empty (find_header_ci e.message_headers (codes "content-length")))) _ _
        (ap (λ v. not (is_empty v)) cl)
    ∙ ap (λ hdrs. complete_request (queue_event e (headers_of id hdrs)) id)
        (add_all-append (request_fields e info) e.message_headers)

unfoldable pub closing_info : Engine → StreamInfo → StreamInfo
closing_info e info = if asks_close e then record info { close_after = true } else info

pub closing_info-method :
    (e : Engine) (info : StreamInfo) → (closing_info e info).method ≡ info.method
unfolding closing_info
closing_info-method e info = ground arith

pub handle_headers_complete-server :
    (e : Engine) (id : ℕ) (info : StreamInfo)
    → e.role ≡ server
    → e.active_stream ≡ some id
    → find id e.streams ≡ some info
    → handle_headers_complete e
      ≡ request_head_complete (update e id (closing_info e info)) id (closing_info e info)
unfolding handle_headers_complete closing_info
handle_headers_complete-server e id info r a f =
    elim_some e.active_stream _ _ a
    ∙ elim_some (find id e.streams) _ _ f
    ∙ if_true (is_server e.role) _ _ (ap is_server r)

-- A server's engine between two requests.
pub record IsListening (s : Engine) : Type 0 where
  pub serves : s.role ≡ server
  pub starts : s.state ≡ start_line
  pub drained : s.input_buffer ≡ []

-- A request that its head can carry, and that announces no body.
pub record IsPlain (method path authority : Bytes) (h : Headers) : Type 0 where
  pub method_given : is_empty method ≡ false
  pub path_given : is_empty path ≡ false
  pub method_word : Lacks 32 method
  pub path_word : Lacks 32 path
  pub method_in_line : Lacks 10 method
  pub path_in_line : Lacks 10 path
  pub authority_in_line : Lacks 10 authority
  pub fields : All IsField h
  pub no_coding : find_header_ci h (codes "transfer-encoding") ≡ []
  pub no_length : find_header_ci h (codes "content-length") ≡ []

-- The fields that the `headers` event of a request brings.
abbrev pub request_event_fields : Bytes → Bytes → Headers → Headers
request_event_fields method path fields =
    record { name = codes ":method"; value = method }
    ∷ record { name = codes ":path"; value = path }
    ∷ record { name = codes ":authority"; value = trim_ows (find_header_ci fields (codes "host")) }
    ∷ receive_all fields

-- The three events of a request without a body.
abbrev pub request_events : ℕ → Bytes → Bytes → Headers → List Event
request_events id method path fields =
    plain_event id new_stream
    ∷ headers_of id (request_event_fields method path fields)
    ∷ plain_event id stream_closed
    ∷ []

host-IsField :
    (authority : Bytes)
    → Lacks 10 authority
    → IsField (record { name = codes "Host"; value = authority })
host-IsField authority a = record {
  named = refl;
  no_colon = (refl, (refl, (refl, (refl, tt))));
  name_in_line = (refl, (refl, (refl, (refl, tt))));
  value_in_line = a;
}

module _ (method path authority : Bytes) (h : Headers) (p : IsPlain method path authority h) where
  pub sent_fields-IsField : All IsField (sent_fields authority h)
  sent_fields-IsField =
      if_intro (All IsField) (not (is_empty authority) && not (has_header h (codes "host"))) _ _
        (λ _. (host-IsField authority p.authority_in_line, p.fields)) (λ _. p.fields)

  -- Host is no other field.
  pub find_header_ci-sent_fields :
      (name : Bytes)
      → iequals (codes "Host") name ≡ false
      → find_header_ci (sent_fields authority h) name ≡ find_header_ci h name
  unfolding find_header_ci
  find_header_ci-sent_fields name q =
      if_intro (λ fields. find_header_ci fields name ≡ find_header_ci h name)
        (not (is_empty authority) && not (has_header h (codes "host"))) _ _
        (λ _. if_false (iequals (codes "Host") name) _ _ q) (λ _. refl)

  pub received_none :
      (name : Bytes)
      → iequals (codes "Host") name ≡ false
      → find_header_ci h name ≡ []
      → find_header_ci (receive_all (sent_fields authority h)) name ≡ []
  unfolding trim_ows trim_front trim_back
  received_none name q e =
      find_header_ci-receive_all (sent_fields authority h) name
      ∙ ap trim_ows (find_header_ci-sent_fields name q ∙ e)

  pub request_line-Lacks : Lacks 10 (request_line method path)
  request_line-Lacks = All-append _ method (32 ∷ (path ++ codes " HTTP/1.1")) p.method_in_line (
    refl,
    All-append _ path (codes " HTTP/1.1") p.path_in_line
        (refl, (refl, (refl, (refl, (refl, (refl, (refl, (refl, (refl, tt))))))))),
  )
