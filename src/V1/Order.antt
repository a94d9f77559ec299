-- ===== src/V1/Order.antt =====
-- source/v1/engine.cpp: a client's streams and the order of its exchanges. Responses has the loop and
-- the histories of calls.
pub mod Responses
pub mod Histories
use mathlib.Core.Path.{subst}
use stunning_waddle.Base.{
  is_empty, ℕ, Bool, true, false, not, ◌&&◌, ◌||◌, ◌≡◌, ◌∙◌, sym, List, [], ◌∷◌, ◌++◌, Option, none,
  some, Bytes, arith, refl, ap, if_true, elim_some, if_false, find, insert, erase, find-insert,
  find-erase, All, All-append, if_intro, option_intro, ◌==◌, if◌then◌else◌, Map, Bool-cases, inl,
  inr, ==_iff,
}
use stunning_waddle.Event.{plain_event, stream_closed}
use stunning_waddle.V2.State.{client}
use stunning_waddle.V1.State.{
  Engine, StreamInfo, update, append_pending, maybe_invoke_output_ready, is_active, erase_first,
  erase_stream_order, mark_connection_done, connection_error, queue_event,
}
use stunning_waddle.V1.Send.{flush_pending, flush_loop, flush_stream}
use stunning_waddle.V1.Exchange.{complete_exchange, release_stream, closes_after}

-- A stream that is known, and whose exchange has not ended.
abbrev pub is_waiting : Option StreamInfo → Bool
is_waiting none = false
is_waiting (some info) = not info.finished

abbrev pub AllWait : Map StreamInfo → List ℕ → Type 0
AllWait streams = All (λ id. is_waiting (find id streams) ≡ true)

abbrev pub Distinct : List ℕ → Type 0
Distinct [] = Unit {0}
Distinct (id ∷ order) = All (λ j. (id == j) ≡ false) order × Distinct order

-- The exchange in flight is that of the oldest stream.
abbrev pub IsOldest : Option ℕ → List ℕ → Type 0
IsOldest none order = Unit {0}
IsOldest (some id) [] = ⊥
IsOldest (some id) (first ∷ order) = id ≡ first

-- What the order of the exchanges rests on. It is about three of the engine's fields.
pub record InOrder (streams : Map StreamInfo) (order : List ℕ) (active : Option ℕ) : Type 0 where
  pub oldest : IsOldest active order
  pub waiting : AllWait streams order
  pub distinct : Distinct order

-- A client's engine whose exchanges are in order.
pub record Ordered (e : Engine) : Type 0 where
  pub asks : e.role ≡ client
  pub in_order : InOrder e.streams e.stream_order e.active_stream

-- A stream that is written over stays as it waits.
pub AllWait-insert :
    (id : ℕ) (info : StreamInfo) (streams : Map StreamInfo) (order : List ℕ)
    → info.finished ≡ false
    → AllWait streams order
    → AllWait (insert id info streams) order
AllWait-insert id info streams [] f w = tt
AllWait-insert id info streams (j ∷ order) f (wj, w) = (
  ap is_waiting (find-insert id j info streams)
      ∙ if_intro (λ o. is_waiting o ≡ true) (id == j) _ _ (λ _. ap not f) (λ _. wj),
  AllWait-insert id info streams order f w,
)

-- The others wait on when a stream is taken out.
AllWait-erase :
    (id : ℕ) (streams : Map StreamInfo) (order : List ℕ)
    → All (λ j. (id == j) ≡ false) order
    → AllWait streams order
    → AllWait (erase id streams) order
AllWait-erase id streams [] d w = tt
AllWait-erase id streams (j ∷ order) (dj, d) (wj, w) = (
  ap is_waiting (find-erase id j streams ∙ if_false (id == j) _ _ dj) ∙ wj,
  AllWait-erase id streams order d w,
)

pub update-Ordered :
    (e : Engine) (id : ℕ) (info : StreamInfo)
    → info.finished ≡ false
    → Ordered e
    → Ordered (update e id info)
update-Ordered e id info f v = record {
  asks = v.asks;
  in_order = record {
    oldest = v.in_order.oldest;
    waiting = AllWait-insert id info e.streams e.stream_order f v.in_order.waiting;
    distinct = v.in_order.distinct;
  };
}

pub inactive :
    {streams : Map StreamInfo} {order : List ℕ} {active : Option ℕ}
    → InOrder streams order active
    → InOrder streams order none
inactive v = record { oldest = tt; waiting = v.waiting; distinct = v.distinct }

pub mark_connection_done-Ordered : (e : Engine) → Ordered e → Ordered (mark_connection_done e)
unfolding mark_connection_done
mark_connection_done-Ordered e v =
    if_intro Ordered e.goaway_sent _ _
      (λ _. record { asks = v.asks; in_order = inactive v.in_order })
      (λ _. record { asks = v.asks; in_order = inactive v.in_order })

pub connection_error-Ordered : (e : Engine) (ec : ℕ) → Ordered e → Ordered (connection_error e ec)
unfolding connection_error
connection_error-Ordered e ec v =
    if_intro Ordered e.connection_done _ _ (λ _. v)
      (λ _. record { asks = v.asks; in_order = inactive v.in_order })

pub append_pending-Ordered : (e : Engine) (b : Bytes) → Ordered e → Ordered (append_pending e b)
unfolding append_pending maybe_invoke_output_ready
append_pending-Ordered e b v =
    if_intro Ordered (e.output_ready_cb && not e.had_output) _ _
      (λ _. record { asks = v.asks; in_order = v.in_order })
      (λ _. record { asks = v.asks; in_order = v.in_order })

append_pending-order : (e : Engine) (b : Bytes) → (append_pending e b).stream_order ≡ e.stream_order
unfolding append_pending maybe_invoke_output_ready
append_pending-order e b = ground arith

-- The stream that is flushed is the oldest.
flush_stream-Ordered :
    (e : Engine) (id : ℕ) (order : List ℕ) (info : StreamInfo)
    → e.stream_order ≡ id ∷ order
    → info.finished ≡ false
    → Ordered e
    → Ordered (flush_stream e id info)
unfolding flush_stream
flush_stream-Ordered e id order info q f v =
    let e1 = append_pending e info.head in
    let e2 = append_pending e1 info.body_staged in
    let sent : StreamInfo = record info { head = []; body_staged = []; head_sent = true } in
    let w =
      update-Ordered e2 id sent f
        (append_pending-Ordered e1 info.body_staged (append_pending-Ordered e info.head v)) in
    let same : e2.stream_order ≡ id ∷ order =
      append_pending-order e1 info.body_staged ∙ append_pending-order e info.head ∙ q in
    if_intro Ordered (is_empty info.head) _ _ (λ _. v)
      (λ _. record {
        asks = w.asks;
        in_order = record {
          oldest = subst (IsOldest (some id)) (sym same) refl;
          waiting = w.in_order.waiting;
          distinct = w.in_order.distinct;
        };
      })

-- The oldest stream waits, so the loop settles on it.
flush_loop-Ordered :
    (e : Engine) (order : List ℕ)
    → e.stream_order ≡ order
    → Ordered e
    → Ordered (flush_loop e order)
unfolding flush_loop
flush_loop-Ordered e [] q v = v
flush_loop-Ordered e (id ∷ order) q v =
    let waits = subst (AllWait e.streams) q v.in_order.waiting in
    option_intro Ordered (find id e.streams) _ _ (λ n. absurd (ground (arith, waits, n)))
      (λ info k.
        if_intro Ordered info.finished _ _ (λ f. absurd (ground (arith, waits, k, f)))
          (λ f. flush_stream-Ordered e id order info q f v))

pub flush_pending-Ordered : (e : Engine) → Ordered e → Ordered (flush_pending e)
unfolding flush_pending
flush_pending-Ordered e v =
    option_intro Ordered e.active_stream _ _
      (λ _.
        if_intro Ordered e.connection_done _ _ (λ _. v)
          (λ _. flush_loop-Ordered e e.stream_order refl v))
      (λ id _. v)

-- The exchange in flight ends, and its stream with it.
released :
    (streams : Map StreamInfo) (id : ℕ) (order : List ℕ)
    → InOrder streams order (some id)
    → InOrder (erase id streams) (erase_first id order) none
unfolding erase_first
released streams id [] v = absurd v.oldest
released streams id (first ∷ order) v =
    let others = subst (λ x. All (λ j. (x == j) ≡ false) order) (sym v.oldest) (v.distinct.0) in
    subst (λ o. InOrder (erase id streams) o none)
      (sym (if_true (first == id) _ _ ((==_iff first id).1 (sym v.oldest))))
      (record {
        oldest = tt;
        waiting = AllWait-erase id streams order others (v.waiting.1);
        distinct = v.distinct.1;
      })

release_stream-Ordered :
    (e : Engine) (id : ℕ) → e.active_stream ≡ some id → Ordered e → Ordered (release_stream e id)
unfolding release_stream erase_stream_order is_active
release_stream-Ordered e id a v =
    let active : is_active e id ≡ true = elim_some e.active_stream _ _ a ∙ (==_iff id id).1 refl in
    let left =
      released e.streams id e.stream_order
        (subst (InOrder e.streams e.stream_order) a v.in_order) in
    if_intro Ordered (is_active e id) _ _ (λ _. record { asks = v.asks; in_order = left })
      (λ f. absurd (ground (arith, active, f)))

-- The response to the oldest request is complete.
pub complete_exchange-Ordered :
    (e : Engine) (id : ℕ) → e.active_stream ≡ some id → Ordered e → Ordered (complete_exchange e id)
unfolding complete_exchange
complete_exchange-Ordered e id a v =
    let e1 = queue_event e (plain_event id stream_closed) in
    let w = release_stream-Ordered e1 id a (record { asks = v.asks; in_order = v.in_order }) in
    if_intro Ordered (closes_after e id || e.connection_done) _ _
      (λ _. mark_connection_done-Ordered (release_stream e1 id) w)
      (λ _. flush_pending-Ordered _ (record { asks = w.asks; in_order = w.in_order }))
