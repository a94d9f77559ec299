-- ===== src/Coro/Collect.antt =====
-- include/http/adapters/coro.h: what a request gets of the events of all streams, over any engine.
use stunning_waddle.Base.{
  ℕ, ◌≡◌, ◌≢◌, refl, sym, ap, ◌∙◌, Bool, true, false, ◌||◌, inl, inr, Bool-cases, append_assoc,
  List, [], ◌∷◌, ◌++◌, none, some, Bytes, get_elem?, find, append-nil, if◌then◌else◌, ◌==◌, arith,
}
use mathlib.Core.Option.{none-ne-some}
use stunning_waddle.Event.{Event}
use stunning_waddle.Context.{ProtocolEngine, Context}
use stunning_waddle.Context.Events.{is_new_stream}
use stunning_waddle.Coro.{Registry, ResponseState, dispatch}
use stunning_waddle.Coro.Dispatch.{
  is_final, text_of, served, served-text, served-completed, dispatch-own, dispatch-other,
  dispatch-shrinks, dispatch-elsewhere, dispatch-find,
}

-- The bytes of a stream's data events, up to the event that ends its request.
unfoldable pub collected : ℕ → List Event → Bytes
collected id [] = []
collected id (ev ∷ events) =
    let rest = collected id events in
    if ev.stream_id == id then (if is_final ev.type then [] else text_of ev ++ rest) else rest

-- Whether an event ends the request.
unfoldable pub ends : ℕ → List Event → Bool
ends id [] = false
ends id (ev ∷ events) =
    let rest = ends id events in
    if ev.stream_id == id then (if is_final ev.type then true else rest) else rest

or_nothing : (a : Bool) → a ≡ (a || false)
or_nothing a = ground arith

or_false : (a b : Bool) → ((a || false) || b) ≡ (a || b)
or_false a b = ground arith

final-text : (ev : Event) → is_final ev.type ≡ true → text_of ev ≡ []
final-text ev h = ground (arith, h)

module _ {En : Type 0} (api : ProtocolEngine En) where
  -- The events that a context had to give, in their order: each is dispatched, but for a
  -- `new_stream`, which may be kept by the context. The context changes in between.
  pub data Dispatched : Registry En → List Event → Registry En → Type 0 where
    drained : (r : Registry En) (c : Context En) → Dispatched r [] (record r { ctx = c })
    skipped :
        {r r' : Registry En} {events : List Event} (ev : Event)
        → is_new_stream ev.type ≡ true
        → Dispatched r events r'
        → Dispatched r (ev ∷ events) r'
    handed :
        {r r' : Registry En} {events : List Event} (c : Context En) (ev : Event)
        → Dispatched (dispatch api (record r { ctx = c }) ev) events r'
        → Dispatched r (ev ∷ events) r'

  -- A state that no stream has is left alone.
  Dispatched-free :
      {r r' : Registry En} {events : List Event} (id i : ℕ)
      → Dispatched r events r'
      → ((a : ℕ) → find a r.entries ≢ some i)
      → find id r.entries ≡ none
      → (get_elem? r'.states i ≡ get_elem? r.states i) × (find id r'.entries ≡ none)
  Dispatched-free id i (drained r c) free f = (refl, f)
  Dispatched-free id i (skipped ev h d) free f = Dispatched-free id i d free f
  Dispatched-free {r} id i (handed c ev d) free f =
      let r₁ : Registry En = record r { ctx = c } in
      let (kept, f') =
        Dispatched-free id i d
          (λ a h. elim (dispatch-find api r₁ ev a) [
            | inl e ↦ free a (sym e ∙ h)
            | inr (e, _) ↦ none-ne-some i (sym e ∙ h)
          ])
          (elim (dispatch-find api r₁ ev id) [ inl e ↦ e ∙ f | inr (e, _) ↦ e ]) in
      (kept ∙ dispatch-elsewhere api r₁ ev i (free ev.stream_id), f')

  -- What holds of the request on stream `id`, with the state `st` at `i`, when `events` are over.
  abbrev pub Collected : Registry En → ℕ → ℕ → ResponseState → List Event → Type 0
  Collected r id i st events =
      (st' : ResponseState) × (get_elem? r.states i ≡ some st')
      × (st'.res.text ≡ st.res.text ++ collected id events)
      × (st'.completed ≡ (st.completed || ends id events))
      × (find id r.entries ≡ (if ends id events then none else some i))

  -- The last event of a request: what comes behind it does not reach its state.
  collect_final :
      {r' : Registry En} {events : List Event} (r : Registry En) (ev : Event) (id i : ℕ)
      (st : ResponseState)
      → Dispatched (dispatch api r ev) events r'
      → is_final ev.type ≡ true
      → (ev.stream_id == id) ≡ true
      → find id r.entries ≡ some i
      → get_elem? r.states i ≡ some st
      → ((a : ℕ) → find a r.entries ≡ some i → a ≡ id)
      → Collected r' id i st (ev ∷ events)
  unfolding collected ends
  collect_final r ev id i st d final own f g only =
      let (at, left) = dispatch-own api r ev id i st own f g in
      let gone : find id (dispatch api r ev).entries ≡ none =
        left ∙ ap (λ b. if b then none else some i) final in
      let free : (a : ℕ) → find a (dispatch api r ev).entries ≢ some i = λ a h. none-ne-some i (
        sym gone
        ∙ sym
            (ap (λ x. find x (dispatch api r ev).entries) (dispatch-shrinks api r ev id i only a h))
        ∙ h) in
      let (kept, still) = Dispatched-free id i d free gone in
      rw (own, final)
        (
          served api r ev st,
          kept ∙ at,
          served-text api r ev st ∙ ap (λ t. st.res.text ++ t) (final-text ev final),
          served-completed api r ev st ∙ ap (λ b. st.completed || b) final,
          still,
        )

  -- Any other event of its stream.
  collect_own :
      (events : List Event) (r₀ r : Registry En) (ev : Event) (id i : ℕ) (st : ResponseState)
      → is_final ev.type ≡ false
      → (ev.stream_id == id) ≡ true
      → Collected r id i (served api r₀ ev st) events
      → Collected r id i st (ev ∷ events)
  unfolding collected ends
  collect_own events r₀ r ev id i st going own (st', at, text, done, left) =
      rw (own, going)
        (
          st',
          at,
          text
              ∙ ap (λ t. t ++ collected id events) (served-text api r₀ ev st)
              ∙ append_assoc st.res.text (text_of ev) (collected id events),
          done
              ∙ ap (λ b. b || ends id events)
                  (served-completed api r₀ ev st ∙ ap (λ b. st.completed || b) going)
              ∙ or_false st.completed (ends id events),
          left,
        )

  collected-skip :
      (ev : Event) (events : List Event) (id : ℕ)
      → is_new_stream ev.type ≡ true
      → (collected id (ev ∷ events) ≡ collected id events)
        × (ends id (ev ∷ events) ≡ ends id events)
  unfolding collected ends
  collected-skip ev events id h = ground (arith, h)

  -- The text of a response is the text before, and the bytes of the data events of its stream up to
  -- the event that closes or resets it, in their order; the request is completed, and out of the
  -- registry, exactly if there was such an event (or it was completed before). No other stream may
  -- share its state.
  pub Dispatched-Collected :
      {r r' : Registry En} {events : List Event} (id i : ℕ) (st : ResponseState)
      → Dispatched r events r'
      → find id r.entries ≡ some i
      → get_elem? r.states i ≡ some st
      → ((a : ℕ) → find a r.entries ≡ some i → a ≡ id)
      → Collected r' id i st events
  unfolding collected ends
  Dispatched-Collected id i st (drained r c) f g only =
      (st, g, sym (append-nil st.res.text), or_nothing st.completed, f)
  Dispatched-Collected id i st (skipped {r} {r'} {events} ev h d) f g only =
      let (same, same_end) = collected-skip ev events id h in
      rw (same, same_end) (Dispatched-Collected id i st d f g only)
  Dispatched-Collected id i st (handed {r} {r'} {events} c ev d) f g only =
      let r₁ : Registry En = record r { ctx = c } in
      let only' = dispatch-shrinks api r₁ ev id i only in
      elim (Bool-cases (ev.stream_id == id)) [
        | inl own ↦
            let (at, left) = dispatch-own api r₁ ev id i st own f g in
            elim (Bool-cases (is_final ev.type)) [
              | inl final ↦ collect_final r₁ ev id i st d final own f g only
              | inr going ↦ collect_own events r₁ r' ev id i st going own (
                  Dispatched-Collected id i (served api r₁ ev st) d
                    (left ∙ ap (λ b. if b then none else some i) going) at only')
            ]
        | inr other ↦
            let (left, at) = dispatch-other api r₁ ev id i other only in
            rw other (Dispatched-Collected id i st d (left ∙ f) (at ∙ g) only')
      ]
