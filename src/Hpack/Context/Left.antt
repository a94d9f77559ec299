-- ===== src/Hpack/Context/Left.antt =====
-- `hpack_context::decode`: the context that it leaves.
use stunning_waddle.Base.{ℕ, zero, suc, ◌≡◌, refl, ap, ◌∙◌, [], ◌∷◌, ◌++◌, Bytes, length}
use stunning_waddle.Headers.{Headers}
use stunning_waddle.Hpack.Result.{Result, ok, err, ◌>>=◌}
use stunning_waddle.Hpack.Context.{
  HpackContext, decode_field, decode_loop, decode, decode_context_loop, decode_context,
}

-- The context of a result, or another one if it threw.
abbrev context_or : HpackContext → Result (HpackContext × Headers) → HpackContext
context_or c (ok r) = r.0
context_or c (err error) = c

decode_context_loop-decode_loop :
    (fuel : ℕ) (c : HpackContext) (span : Bytes) (headers : Headers)
    → decode_context_loop fuel c span
      ≡ context_or (decode_context_loop fuel c span) (decode_loop fuel c span headers)
unfolding decode_context_loop decode_loop
decode_context_loop-decode_loop fuel c [] headers = refl
decode_context_loop-decode_loop zero c (b ∷ span) headers = refl
decode_context_loop-decode_loop (suc fuel) c (b ∷ span) headers =
    go (decode_field c b (b ∷ span))
      (λ x. decode_context_loop-decode_loop fuel x.0 x.2 (headers ++ x.1))
  where
    go :
        (r : Result (HpackContext × Headers × Bytes))
        → ((x : HpackContext × Headers × Bytes)
            → decode_context_loop fuel x.0 x.2
              ≡ context_or
                  (decode_context_loop fuel x.0 x.2)
                  (decode_loop fuel x.0 x.2 (headers ++ x.1)))
        → elim r as (λ _. HpackContext) [ err error ↦ c | ok x ↦ decode_context_loop fuel x.0 x.2 ]
          ≡ context_or
              (elim r as (λ _. HpackContext) [
                | err error ↦ c
                | ok x ↦ decode_context_loop fuel x.0 x.2
              ])
              (r >>= λ x. decode_loop fuel x.0 x.2 (headers ++ x.1))
    go (err error) ih = refl
    go (ok x) ih = ih x

-- When `decode` does not throw, the context that it leaves is the one that it returns.
pub decode_context-decode :
    (c c' : HpackContext) (span : Bytes) (headers : Headers)
    → decode c span ≡ ok (c', headers)
    → decode_context c span ≡ c'
unfolding decode decode_context
decode_context-decode c c' span headers h =
    decode_context_loop-decode_loop (length span) c span []
    ∙ ap (context_or (decode_context_loop (length span) c span)) h
