-- ===== src/FrameParser/Resume.antt =====
-- source/v2/frame_parser.cpp: the loop of `frame_parser::consume` on a header that arrives in parts.
use mathlib.Core.Option.{some-injective}
use stunning_waddle.Base.{
  ℕ, zero, suc, ◌+◌, ◌-◌, ◌≤◌, ◌<◌, ◌≡◌, refl, sym, ap, ◌∙◌, [], ◌∷◌, ◌++◌, some, length, drop,
  Bytes, arith, length-drop, append-nil,
}
use stunning_waddle.FrameParser.Defs.{
  reading_header, FrameParser, Callbacks, Turn, again, return, turn, consume_loop,
}
use stunning_waddle.FrameParser.PartialFrame.{last_loop}
use stunning_waddle.FrameParser.Totality.{IsValid, IsBounded, TurnFits, turn-TurnFits}
use stunning_waddle.FrameParser.PartTurns.{
  drop-past, return-short, part_header, resumed_header, header_again, part-IsValid,
}

module _ {E : Type 0} (cbs : Callbacks E) (bounded : IsBounded cbs) where
  -- A turn that goes on, in the loop.
  pub loop_turn :
      (fuel offset n : ℕ) (p p' : FrameParser) (e e' : E) (b : ℕ) (rest : Bytes)
      → turn cbs p e (b ∷ rest) ≡ again n p' e'
      → consume_loop cbs (suc fuel) p e (b ∷ rest) offset
        ≡ consume_loop cbs fuel p' e' (drop n (b ∷ rest)) (offset + n)
  unfolding consume_loop
  loop_turn fuel offset n p p' e e' b rest t = rw (t, consume_loop) refl

  -- More fuel than bytes makes no difference.
  pub loop_fuel :
      (fuel fuel' : ℕ) (p : FrameParser) (e : E) (rest : Bytes) (offset : ℕ)
      → IsValid p
      → length rest ≤ fuel
      → length rest ≤ fuel'
      → consume_loop cbs fuel p e rest offset ≡ consume_loop cbs fuel' p e rest offset
  loop_fuel fuel fuel' p e [] offset v h k = unfold consume_loop in refl
  loop_fuel zero fuel' p e (b ∷ rest) offset v h k = absurd (omega arith)
  loop_fuel (suc fuel) zero p e (b ∷ rest) offset v h k = absurd (omega arith)
  loop_fuel (suc fuel) (suc fuel') p e (b ∷ rest) offset v h k =
      go (loop_fuel fuel fuel') (turn cbs p e (b ∷ rest)) refl
        (turn-TurnFits cbs p e (b ∷ rest) bounded v (omega arith))
    where
      go :
          ((p : FrameParser) (e : E) (rest : Bytes) (offset : ℕ)
            → IsValid p
            → length rest ≤ fuel
            → length rest ≤ fuel'
            → consume_loop cbs fuel p e rest offset ≡ consume_loop cbs fuel' p e rest offset)
          → (t : Turn E) → turn cbs p e (b ∷ rest) ≡ t
          → TurnFits (b ∷ rest) t
          → consume_loop cbs (suc fuel) p e (b ∷ rest) offset
            ≡ consume_loop cbs (suc fuel') p e (b ∷ rest) offset
      go ih (again n p' e') s (v', pos, n_le) =
          let left = length-drop n (b ∷ rest) in
          loop_turn fuel offset n p p' e e' b rest s
          ∙ ih p' e' (drop n (b ∷ rest)) (offset + n) v' (omega (arith, left)) (omega (arith, left))
          ∙ sym (loop_turn fuel' offset n p p' e e' b rest s)
      go ih (return n p' e') s f = unfold consume_loop in (rw (s, consume_loop) refl)

  -- A turn that returns, in the loop.
  pub loop_return :
      (fuel offset n : ℕ) (p p' : FrameParser) (e e' : E) (b : ℕ) (rest : Bytes)
      → turn cbs p e (b ∷ rest) ≡ return n p' e'
      → consume_loop cbs (suc fuel) p e (b ∷ rest) offset ≡ some (offset + n, p', e')
  unfolding consume_loop
  loop_return fuel offset n p p' e e' b rest t = rw (t, consume_loop) refl

  pub not_whole :
      (fuel offset n : ℕ) (p p' p1 : FrameParser) (e e' e1 : E) (b : ℕ) (rest : Bytes)
      → turn cbs p e (b ∷ rest) ≡ return n p' e'
      → consume_loop cbs (suc fuel) p e (b ∷ rest) offset
        ≡ some (offset + length (b ∷ rest), p1, e1)
      → ⊥
  not_whole fuel offset n p p' p1 e e' e1 b rest t run =
      let same : offset + n ≡ offset + length (b ∷ rest) =
        ap (λ (x : ℕ × FrameParser × E). x.0)
          (some-injective _ _ (sym (loop_return fuel offset n p p' e e' b rest t) ∙ run)) in
      let short = return-short cbs bounded p p' e e' n (b ∷ rest) t in omega arith

  -- The cut is inside a header.
  pub resume_header :
      (big small : ℕ) (p : FrameParser) (e : E) (b : ℕ) (xs ys : Bytes) (offset : ℕ)
      → IsValid p
      → p.state ≡ reading_header
      → length (b ∷ xs) < 9 - length p.header_buffer
      → length ys ≤ small
      → length (b ∷ xs) + length ys ≤ big
      → consume_loop cbs big p e (b ∷ (xs ++ ys)) offset
        ≡ consume_loop cbs small
            (record p { header_buffer = p.header_buffer ++ (b ∷ xs) })
            e
            ys
            (offset + length (b ∷ xs))
  resume_header zero small p e b xs ys offset v s h k l = absurd (omega arith)
  resume_header (suc big) small p e b xs [] offset v s h k l =
      ap (λ r. consume_loop cbs (suc big) p e (b ∷ r) offset) (append-nil xs)
      ∙ last_loop cbs big offset p (record p { header_buffer = p.header_buffer ++ (b ∷ xs) }) e e
          (b ∷ xs) (omega arith) (part_header cbs bounded p e (b ∷ xs) v s h)
      ∙ unfold consume_loop in refl
  resume_header (suc big) zero p e b xs (c ∷ ys) offset v s h k l = absurd (omega arith)
  resume_header (suc big) (suc small) p e b xs (c ∷ ys) offset v s h k l =
      let q : FrameParser = record p { header_buffer = p.header_buffer ++ (b ∷ xs) } in
      let (m, q', e', t) = header_again cbs bounded q e (c ∷ ys) s in
      let (v', pos, m_le) = rw t at (
        turn-TurnFits cbs q e (c ∷ ys) bounded (part-IsValid cbs bounded p (b ∷ xs) v s h)
          (omega arith)) in
      let left = length-drop m (c ∷ ys) in
      let sum : offset + (length (b ∷ xs) + m) ≡ offset + length (b ∷ xs) + m = omega arith in
      loop_turn big offset (length (b ∷ xs) + m) p q' e e' b (xs ++ (c ∷ ys))
        (resumed_header cbs bounded p e (b ∷ xs) (c ∷ ys) m q' e' s h t)
      ∙ ap (λ r. consume_loop cbs big q' e' r (offset + (length (b ∷ xs) + m)))
          (drop-past m (b ∷ xs) (c ∷ ys))
      ∙ ap (λ o. consume_loop cbs big q' e' (drop m (c ∷ ys)) o) sum
      ∙ loop_fuel big small q' e' (drop m (c ∷ ys)) (offset + length (b ∷ xs) + m) v'
          (omega (arith, left)) (omega (arith, left))
      ∙ sym (loop_turn small (offset + length (b ∷ xs)) m q q' e e' c ys t)
