-- ===== src/Coro.antt =====
-- include/http/adapters/coro.h: the registry that hands events to the requests that wait for them, and
-- `execute`. A `shared_ptr<response_state>` is an index into `states`. A coroutine is a number;
-- `resume` notes the number in `resumed`, and the coroutine does not call the registry back before
-- the dispatch ends. What runs inside a coroutine, and the task types, are the language's.
pub mod Dispatch
pub mod Collect
pub mod Pump
use stunning_waddle.Base.{
  ℕ, zero, suc, ◌+◌, ◌==◌, Bool, true, false, not, ◌&&◌, List, [], ◌∷◌, ◌++◌, Option, none, some,
  Bytes, codes, length, drop, is_empty, if◌then◌else◌, leb, ltb, Map, find, insert, erase,
  get_elem?, ℤ, pos,
}
use stunning_waddle.Decimal.{to_string}
use stunning_waddle.Event.{
  Event, ErrorCode, http_error, errc_protocol_error, new_stream, headers_event, data_event,
  stream_closed, stream_reset, goaway_event, connection_error, stream_window_available,
  connection_window_available, Payload, headers_payload, data_payload, error_payload,
}
use stunning_waddle.Headers.{Headers, add, get}
use stunning_waddle.V1.Text.{from_chars_int}
use stunning_waddle.Context.{
  ProtocolEngine, Context, Stream, stream_send_data, send_headers, stream_id_of, context_next_event,
}

pub record Response : Type 0 where
  pub status_code : ℤ
  pub response_headers : Headers
  pub text : Bytes

-- `stream` is the handle that the closure `try_send_remaining` holds, if it is set.
pub record ResponseState : Type 0 where
  pub res : Response
  pub ec : Option ErrorCode
  pub continuation : Option ℕ
  pub completed : Bool
  pub pending_body : Bytes
  pub send_offset : ℕ
  pub try_send_remaining : Option Stream

abbrev pub new_state : ResponseState
new_state = record {
  res = record { status_code = pos 0; response_headers = []; text = [] };
  ec = none;
  continuation = none;
  completed = false;
  pending_body = [];
  send_offset = 0;
  try_send_remaining = none;
}

-- The registry, with the context that its requests use and the states that they share.
pub record Registry (En : Type 0) : Type 0 where
  pub ctx : Context En
  pub states : List ResponseState
  pub entries : Map ℕ
  pub resumed : List ℕ

unfoldable pub write : List ResponseState → ℕ → ResponseState → List ResponseState
write [] i s = []
write (x ∷ states) zero s = s ∷ states
write (x ∷ states) (suc i) s = x ∷ write states i s

-- `std::get<headers>`, and so on; another alternative, for which it throws, is the empty value.
abbrev pub headers_in : Payload → Headers
headers_in (headers_payload h) = h
headers_in _ = []

abbrev pub bytes_in : Payload → Bytes
bytes_in (data_payload d) = d
bytes_in _ = []

abbrev pub error_in : Payload → Option ErrorCode
error_in (error_payload ec) = some ec
error_in _ = none

-- `case event_type::headers`
unfoldable pub take_headers : ResponseState → Headers → ResponseState
take_headers st h =
    let status = get h (codes ":status") in
    let code : ℤ = elim (from_chars_int status) [
      | none ↦ st.res.status_code
      | some (n, rest) ↦ n
    ] in
    record st {
      res = record st.res {
        response_headers = h;
        status_code = if is_empty status then st.res.status_code else code;
      };
    }

-- `case event_type::data`
unfoldable pub take_data : ResponseState → Bytes → ResponseState
take_data st bytes = record st { res = record st.res { text = st.res.text ++ bytes } }

unfoldable pub await_ready : ResponseState → Bool
await_ready st = st.completed

-- An error code is true when its value is not 0.
abbrev pub is_error : Option ErrorCode → Bool
is_error none = false
is_error (some (http_error n)) = not (n == 0)
is_error (some errc_protocol_error) = true

-- `await_resume` returns the response, or throws the error.
pub data Outcome : Type 0 where
  returned : Response → Outcome
  failed : Option ErrorCode → Outcome

unfoldable pub await_resume : ResponseState → Outcome
await_resume st = if is_error st.ec then failed st.ec else returned st.res

module _ {En : Type 0} where
  unfoldable pub put_state : Registry En → ℕ → ResponseState → Registry En
  put_state r i st = record r { states = write r.states i st }

  -- The request is over: its coroutine goes on, and its entry is erased.
  unfoldable pub complete : Registry En → ℕ → ℕ → ResponseState → Registry En
  complete r id i st =
      let r' = put_state r i (record st { completed = true }) in
      record r' {
        resumed = elim st.continuation [ none ↦ r.resumed | some k ↦ r.resumed ++ (k ∷ []) ];
        entries = erase id r.entries;
      }

  unfoldable pub empty : Registry En → Bool
  empty r = is_empty r.entries

  unfoldable pub register_stream : Registry En → ℕ → ℕ → Registry En
  register_stream r id i = record r { entries = insert id i r.entries }

  -- `await_suspend`
  unfoldable pub await_suspend : Registry En → ℕ → ResponseState → ℕ → Registry En
  await_suspend r i st k = put_state r i (record st { continuation = some k })

module _ {En : Type 0} (api : ProtocolEngine En) where
  -- The closure `try_send_remaining`.
  unfoldable pub send_remaining : Registry En → ℕ → ResponseState → Stream → Registry En
  send_remaining r i st s =
      let (sent, ctx') = stream_send_data api r.ctx s (drop st.send_offset st.pending_body) true in
      if leb (length st.pending_body) st.send_offset
      then r
      else put_state (record r { ctx = ctx' }) i (record st { send_offset = st.send_offset + sent })

  -- The switch of `dispatch`, on the state of the event's stream.
  unfoldable pub dispatch_to : Registry En → Event → ℕ → ResponseState → Registry En
  dispatch_to r ev i st = elim ev.type [
    | headers_event ↦ put_state r i (take_headers st (headers_in ev.payload))
    | data_event ↦ put_state r i (take_data st (bytes_in ev.payload))
    | stream_closed ↦ complete r ev.stream_id i st
    | stream_reset ↦ complete r ev.stream_id i (record st { ec = error_in ev.payload })
    | stream_window_available ↦ elim st.try_send_remaining [
      | none ↦ r
      | some s ↦ send_remaining r i st s
    ]
    | new_stream ↦ r
    | goaway_event ↦ r
    | connection_error ↦ r
    | connection_window_available ↦ r
  ]

  unfoldable pub dispatch : Registry En → Event → Registry En
  dispatch r ev = elim (find ev.stream_id r.entries) [
    | none ↦ r
    | some i ↦ elim (get_elem? r.states i) [ none ↦ r | some st ↦ dispatch_to r ev i st ]
  ]

  -- `pump`: the loop ends when the context has no event to give, which covers that its engine has
  -- no event queued. `none` means that the fuel ran
  -- out, of this loop or of the context's.
  unfoldable pub pump : ℕ → ℕ → Registry En → Option (Registry En)
  pump zero inner r = none
  pump (suc fuel) inner r = elim (context_next_event api inner r.ctx) [
    | none ↦ none
    | some (found, ctx') ↦ elim found [
      | none ↦ some (record r { ctx = ctx' })
      | some ev ↦ pump fuel inner (dispatch (record r { ctx = ctx' }) ev)
    ]
  ]

  -- The headers that `execute` sends.
  unfoldable pub request_headers : Headers → Bytes → Headers
  request_headers h body =
      if not (is_empty body) && is_empty (get h (codes "content-length"))
      then add h (codes "content-length") (to_string (length body))
      else h

  -- The first call of `try_send_remaining`, and the closure kept if bytes are left.
  unfoldable pub start_body : Registry En → ℕ → Stream → Bytes → Registry En
  start_body r i s body =
      let st : ResponseState = record new_state { pending_body = body } in
      let (sent, ctx') = stream_send_data api r.ctx s body true in
      put_state (record r { ctx = ctx' }) i
        (record st {
          send_offset = sent;
          try_send_remaining = if ltb sent (length body) then some s else none;
        })

  -- `execute`: the index of the state that the awaiter shares, and the registry behind it.
  unfoldable pub execute :
      Registry En → Stream → Bytes → Bytes → Bytes → Headers → Bytes → ℕ × Registry En
  execute r s method path host h body =
      let i = length r.states in
      let r' : Registry En =
        register_stream (record r { states = r.states ++ (new_state ∷ []) })
          (stream_id_of api r.ctx s) i in
      let r'' : Registry En = record r' {
        ctx = send_headers api r'.ctx s method path host (request_headers h body) (is_empty body);
      } in
      (i, if is_empty body then r'' else start_body r'' i s body)
