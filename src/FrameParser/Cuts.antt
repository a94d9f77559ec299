-- ===== src/FrameParser/Cuts.antt =====
-- `frame_parser::consume` on a stream that is cut between two frames or inside a frame's header.
use native.Mathlib.Nat.{zero-add}
use mathlib.Core.Option.{some-injective, none-ne-some}
use stunning_waddle.Base.{
  ℕ, zero, suc, ◌+◌, ◌-◌, ◌≤◌, ◌<◌, ◌≡◌, refl, sym, ap, ◌∙◌, Bool-cases, ltb→lt, inl, inr, [], ◌∷◌,
  ◌++◌, none, some, length, drop, Bytes, arith, length-append, length-drop, ltb, false,
}
use stunning_waddle.FrameParser.Defs.{
  ParserState, reading_header, reading_payload, FrameParser, Callbacks, Turn, again, return, turn,
  consume_loop, consume,
}
use stunning_waddle.FrameParser.PartialFrame.{last_loop}
use stunning_waddle.FrameParser.PartTurns.{wanted, drop-more, turn-same, part_header, part_payload}
use stunning_waddle.FrameParser.Resume.{loop_turn, loop_fuel, loop_return, not_whole, resume_header}
use stunning_waddle.FrameParser.Totality.{IsValid, IsBounded, TurnFits, turn-TurnFits}

not_ltb→le : (a b : ℕ) → ltb a b ≡ false → b ≤ a
not_ltb→le a b h = ground arith

module _ {E : Type 0} (cbs : Callbacks E) (bounded : IsBounded cbs) where
  Resumes : ℕ → Type 0
  Resumes fuel =
      (p p1 : FrameParser) (e e1 : E) (xs ys : Bytes) (offset big small : ℕ)
      → IsValid p
      → length xs ≤ fuel
      → length ys ≤ small
      → length xs + length ys ≤ big
      → p1.state ≡ reading_header
      → consume_loop cbs fuel p e xs offset ≡ some (offset + length xs, p1, e1)
      → consume_loop cbs big p e (xs ++ ys) offset
        ≡ consume_loop cbs small p1 e1 ys (offset + length xs)

  -- The cut is after what the turn wants.
  resume_later :
      (fuel : ℕ)
      → Resumes fuel
      → (p p1 : FrameParser) (e e1 : E) (b : ℕ) (xs ys : Bytes) (offset big small : ℕ) → IsValid p
      → length xs ≤ fuel
      → length ys ≤ small
      → length xs + length ys ≤ big
      → p1.state ≡ reading_header
      → consume_loop cbs (suc fuel) p e (b ∷ xs) offset ≡ some (offset + length (b ∷ xs), p1, e1)
      → turn cbs p e (b ∷ (xs ++ ys)) ≡ turn cbs p e (b ∷ xs)
      → consume_loop cbs (suc big) p e (b ∷ (xs ++ ys)) offset
        ≡ consume_loop cbs small p1 e1 ys (offset + length (b ∷ xs))
  unfolding Resumes
  resume_later fuel ih p p1 e e1 b xs ys offset big small v h k l s run same =
      go (turn cbs p e (b ∷ xs)) refl (turn-TurnFits cbs p e (b ∷ xs) bounded v (omega arith))
    where
      go :
          (t : Turn E)
          → turn cbs p e (b ∷ xs) ≡ t
          → TurnFits (b ∷ xs) t
          → consume_loop cbs (suc big) p e (b ∷ (xs ++ ys)) offset
            ≡ consume_loop cbs small p1 e1 ys (offset + length (b ∷ xs))
      go (again n p' e') t (v', pos, n_le) =
          let left = length-drop n (b ∷ xs) in
          let sum : offset + n + length (drop n (b ∷ xs)) ≡ offset + length (b ∷ xs) =
            omega (arith, left) in
          loop_turn cbs bounded big offset n p p' e e' b (xs ++ ys) (same ∙ t)
          ∙ ap (λ r. consume_loop cbs big p' e' r (offset + n)) (drop-more n (b ∷ xs) ys n_le)
          ∙ ih p' p1 e' e1 (drop n (b ∷ xs)) ys (offset + n) big small v' (omega (arith, left)) k
              (omega (arith, left)) s
              (sym (loop_turn cbs bounded fuel offset n p p' e e' b xs t)
                ∙ run
                ∙ ap (λ o. some (o, p1, e1)) (sym sum))
          ∙ ap (λ o. consume_loop cbs small p1 e1 ys o) sum
      go (return n p' e') t f =
          absurd (not_whole cbs bounded fuel offset n p p' p1 e e' e1 b xs t run)

  -- The cut is inside what the turn wants: it is a header.
  resume_inside :
      (fuel : ℕ) (p p1 : FrameParser) (e e1 : E) (b : ℕ) (xs ys : Bytes) (offset big small : ℕ)
      → IsValid p
      → length ys ≤ small
      → length (b ∷ xs) + length ys ≤ big
      → p1.state ≡ reading_header
      → consume_loop cbs (suc fuel) p e (b ∷ xs) offset ≡ some (offset + length (b ∷ xs), p1, e1)
      → length (b ∷ xs) < wanted p
      → consume_loop cbs big p e (b ∷ (xs ++ ys)) offset
        ≡ consume_loop cbs small p1 e1 ys (offset + length (b ∷ xs))
  resume_inside fuel p p1 e e1 b xs ys offset big small v k l s run short = go p.state refl
    where
      go :
          (q : ParserState)
          → p.state ≡ q
          → consume_loop cbs big p e (b ∷ (xs ++ ys)) offset
            ≡ consume_loop cbs small p1 e1 ys (offset + length (b ∷ xs))
      go reading_header q =
          let less : length (b ∷ xs) < 9 - length p.header_buffer = rw q at short in
          let ends = some-injective _ _ (
            sym (
              last_loop cbs fuel offset p (record p { header_buffer = p.header_buffer ++ (b ∷ xs) })
                e e (b ∷ xs) (omega arith) (part_header cbs bounded p e (b ∷ xs) v q less))
            ∙ run) in
          resume_header cbs bounded big small p e b xs ys offset v q less k l
          ∙ ap
              (λ (r : ℕ × FrameParser × E).
                consume_loop cbs small r.1 r.2 ys (offset + length (b ∷ xs)))
              ends
      go reading_payload q =
          let less : length (b ∷ xs) < p.current_header.length_ - p.payload_bytes_read =
            rw q at short in
          elim (part_payload cbs bounded p e (b ∷ xs) q less) [
            | inl (n, p', e', t, lt) ↦
                absurd (not_whole cbs bounded fuel offset n p p' p1 e e' e1 b xs t run)
            | inr (p', e', t, inside) ↦
                let ends =
                  some-injective _ _
                    (sym (last_loop cbs fuel offset p p' e e' (b ∷ xs) (omega arith) t) ∙ run) in
                let state : p'.state ≡ p1.state =
                  ap (λ (r : ℕ × FrameParser × E). r.1.state) ends in
                absurd (cc (state, inside, s))
          ]

  loop_nil :
      (fuel : ℕ) (p : FrameParser) (e : E) (offset : ℕ)
      → consume_loop cbs fuel p e [] offset ≡ some (offset, p, e)
  unfolding consume_loop
  loop_nil fuel p e offset = refl

  loop_resume : (fuel : ℕ) → Resumes fuel
  unfolding Resumes
  loop_resume fuel p p1 e e1 [] ys offset big small v h k l s run =
      let ends = some-injective _ _ (sym (loop_nil fuel p e offset) ∙ run) in
      loop_fuel cbs bounded big small p e ys offset v (omega arith) k
      ∙ ap (λ (r : ℕ × FrameParser × E). consume_loop cbs small r.1 r.2 ys r.0) ends
  loop_resume zero p p1 e e1 (b ∷ xs) ys offset big small v h k l s run = absurd (omega arith)
  loop_resume (suc fuel) p p1 e e1 (b ∷ xs) ys offset zero small v h k l s run =
      absurd (omega arith)
  loop_resume (suc fuel) p p1 e e1 (b ∷ xs) ys offset (suc big) small v h k l s run =
      elim (Bool-cases (ltb (length (b ∷ xs)) (wanted p))) [
        | inl less ↦
            resume_inside fuel p p1 e e1 b xs ys offset (suc big) small v k l s run
              (ltb→lt (length (b ∷ xs)) (wanted p) less)
        | inr more ↦
            resume_later fuel (loop_resume fuel) p p1 e e1 b xs ys offset big small v (omega arith)
              k (omega arith) s run
              (turn-same cbs bounded p e (b ∷ xs) ys (not_ltb→le (length (b ∷ xs)) (wanted p) more))
      ]

  loop_shift :
      (fuel : ℕ) (p q : FrameParser) (e f : E) (rest : Bytes) (k offset m : ℕ)
      → consume_loop cbs fuel p e rest offset ≡ some (m, q, f)
      → consume_loop cbs fuel p e rest (k + offset) ≡ some (k + m, q, f)
  loop_shift fuel p q e f [] k offset m run =
      let ends = some-injective _ _ (sym (loop_nil fuel p e offset) ∙ run) in
      loop_nil fuel p e (k + offset)
      ∙ ap (λ (r : ℕ × FrameParser × E). some (k + r.0, r.1, r.2)) ends
  loop_shift zero p q e f (b ∷ rest) k offset m run =
      let stopped : consume_loop cbs zero p e (b ∷ rest) offset ≡ none =
        unfold consume_loop in refl in
      absurd (none-ne-some (m, q, f) (sym stopped ∙ run))
  loop_shift (suc fuel) p q e f (b ∷ rest) k offset m run =
      go (loop_shift fuel) (turn cbs p e (b ∷ rest)) refl
    where
      go :
          ((p q : FrameParser) (e f : E) (rest : Bytes) (k offset m : ℕ)
            → consume_loop cbs fuel p e rest offset ≡ some (m, q, f)
            → consume_loop cbs fuel p e rest (k + offset) ≡ some (k + m, q, f))
          → (t : Turn E) → turn cbs p e (b ∷ rest) ≡ t
          → consume_loop cbs (suc fuel) p e (b ∷ rest) (k + offset) ≡ some (k + m, q, f)
      go ih (again n p' e') t =
          let sum : k + offset + n ≡ k + (offset + n) = omega arith in
          loop_turn cbs bounded fuel (k + offset) n p p' e e' b rest t
          ∙ ap (λ o. consume_loop cbs fuel p' e' (drop n (b ∷ rest)) o) sum
          ∙ ih p' q e' f (drop n (b ∷ rest)) k (offset + n) m
              (sym (loop_turn cbs bounded fuel offset n p p' e e' b rest t) ∙ run)
      go ih (return n p' e') t =
          let ends =
            some-injective _ _
              (sym (loop_return cbs bounded fuel offset n p p' e e' b rest t) ∙ run) in
          let sum : k + offset + n ≡ k + (offset + n) = omega arith in
          loop_return cbs bounded fuel (k + offset) n p p' e e' b rest t
          ∙ ap (λ o. some (o, p', e')) sum
          ∙ ap (λ (r : ℕ × FrameParser × E). some (k + r.0, r.1, r.2)) ends

  -- A stream that arrives in two pieces, for every callback that takes at most what it is offered,
  -- and so may refuse bytes or act on a chunk as a whole. If the first call takes its whole piece and
  -- ends outside a payload, between two frames or inside a header, then the second call, on the
  -- other piece, ends with the parser and the state where one call on both pieces ends, and the two
  -- calls take as many bytes as that one. (A cut inside a payload is not covered: there the callback
  -- is called once more.)
  pub consume-resume :
      (p p1 p2 : FrameParser) (e e1 e2 : E) (xs ys : Bytes) (m : ℕ)
      → IsValid p
      → consume cbs p e xs ≡ some (length xs, p1, e1)
      → p1.state ≡ reading_header
      → consume cbs p1 e1 ys ≡ some (m, p2, e2)
      → consume cbs p e (xs ++ ys) ≡ some (length xs + m, p2, e2)
  unfolding consume Resumes
  consume-resume p p1 p2 e e1 e2 xs ys m v first s second =
      let start : 0 + length xs ≡ length xs + 0 = omega arith in
      loop_resume (length xs) p p1 e e1 xs ys 0 (length (xs ++ ys)) (length ys) v (omega arith)
        (omega arith) (omega (arith, length-append xs ys)) s
        (first ∙ ap (λ n. some (n, p1, e1)) (sym (zero-add (length xs))))
      ∙ ap (λ n. consume_loop cbs (length ys) p1 e1 ys n) start
      ∙ loop_shift (length ys) p1 p2 e1 e2 ys (length xs) 0 m second
