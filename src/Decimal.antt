-- ===== src/Decimal.antt =====
-- Numbers as text: `std::to_string`, `std::to_chars` and `std::from_chars` of the standard library,
-- on unsigned types, as the engines use them.
use mathlib.Core.Logic.{dite}
use mathlib.Core.WellFounded.{Acc}
use native.Mathlib.Decide.{dec_le}
use native.Mathlib.Nat.{div-add-mod}
use stunning_waddle.Base.{
  ℕ, ◌+◌, ◌-◌, ◌*◌, ◌/◌, ◌%◌, ◌≤◌, ◌<◌, ◌&&◌, [], ◌∷◌, ◌++◌, Option, none, some, Bytes, leb, ltb,
  if◌then◌else◌, arith, lt_wf, ◌≡◌, ◌≢◌, ◌∙◌, ap, refl, append_assoc, length, length-append, All,
  All-append,
}

-- A digit of a base up to 16, in lower case.
unfoldable pub digit_char : ℕ → ℕ
digit_char d = if ltb d 10 then 48 + d else 87 + d

pub quotient_shrinks : (base n : ℕ) → 2 ≤ base → base ≤ n → n / base < n
quotient_shrinks base n h k = grind arith

unfoldable pub to_chars_acc : (base : ℕ) → 2 ≤ base → (n : ℕ) → Acc ◌<◌ n → Bytes
to_chars_acc base two n (Acc.intro _ smaller) =
    dite (dec_le base n)
      (λ h.
        to_chars_acc base two (n / base) (smaller _ (quotient_shrinks base n two h))
        ++ (digit_char (n % base) ∷ []))
      (λ _. digit_char n ∷ [])

pub two_le_ten : 2 ≤ 10
two_le_ten = omega arith

pub two_le_sixteen : 2 ≤ 16
two_le_sixteen = omega arith

-- `std::to_string`
unfoldable pub to_string : ℕ → Bytes
to_string n = to_chars_acc 10 two_le_ten n (lt_wf.apply n)

-- `std::to_chars(…, 16)`
unfoldable pub to_hex : ℕ → Bytes
to_hex n = to_chars_acc 16 two_le_sixteen n (lt_wf.apply n)

below : ℕ → ℕ → Option ℕ
below base d = if ltb d base then some d else none

-- The value of a digit in a base up to 36, of either case.
unfoldable pub digit_value : ℕ → ℕ → Option ℕ
unfolding below
digit_value base c =
    if leb 48 c && leb c 57
    then below base (c - 48)
    else if leb 97 c && leb c 122
    then below base (c - 87)
    else if leb 65 c && leb c 90
    then below base (c - 55)
    else none

unfoldable pub from_digits : ℕ → ℕ → Bytes → ℕ × Bytes
from_digits base acc [] = (acc, [])
from_digits base acc (c ∷ s) = elim (digit_value base c) [
  | some d ↦ from_digits base (acc * base + d) s
  | none ↦ (acc, c ∷ s)
]

-- `std::from_chars` into an unsigned type below `limit`: the value, and the text from `ptr` on.
-- `none` is an error code, for no digit and for a value out of range.
unfoldable pub from_chars : ℕ → ℕ → Bytes → Option (ℕ × Bytes)
from_chars base limit [] = none
from_chars base limit (c ∷ s) = elim (digit_value base c) [
  | none ↦ none
  | some d ↦
      let (value, rest) = from_digits base d s in
      if ltb value limit then some (value, rest) else none
]

-- A text that no digit begins.
abbrev pub StopsAt : ℕ → Bytes → Type 0
StopsAt base [] = Unit
StopsAt base (c ∷ s) = digit_value base c ≡ none

digit_value-digit_char :
    (base d : ℕ) → d < base → base ≤ 16 → digit_value base (digit_char d) ≡ some d
unfolding digit_value digit_char
digit_value-digit_char base d h k = ground arith

from_digits-StopsAt :
    (base acc : ℕ) (s : Bytes) → StopsAt base s → from_digits base acc s ≡ (acc, s)
unfolding from_digits
from_digits-StopsAt base acc [] h = refl
from_digits-StopsAt base acc (c ∷ s) h = rw (h, from_digits)

from_digits_step :
    (base acc d : ℕ) (s : Bytes)
    → d < base
    → base ≤ 16
    → from_digits base acc (digit_char d ∷ s) ≡ from_digits base (acc * base + d) s
unfolding from_digits
from_digits_step base acc d s h k = rw (digit_value-digit_char base d h k, from_digits)

from_digits-to_chars :
    (base : ℕ) (two : 2 ≤ base) (n : ℕ) (w : Acc ◌<◌ n) (rest : Bytes)
    → base ≤ 16
    → from_digits base 0 (to_chars_acc base two n w ++ rest) ≡ from_digits base n rest
unfolding to_chars_acc
from_digits-to_chars base two n (Acc.intro _ smaller) rest k = grind (
  arith,
  from_digits_step base (n / base) (n % base) rest,
  from_digits_step base 0 n rest,
  div-add-mod n base,
  append_assoc,
  λ (h : base ≤ n).
      from_digits-to_chars base two (n / base) (smaller _ (quotient_shrinks base n two h))
        (digit_char (n % base) ∷ rest) k,
)

from_chars-from_digits :
    (base limit : ℕ) (s rest : Bytes) (n : ℕ)
    → s ≢ rest
    → from_digits base 0 s ≡ (n, rest)
    → n < limit
    → from_chars base limit s ≡ some (n, rest)
unfolding from_chars from_digits
from_chars-from_digits base limit [] rest n ne e h = ground arith
from_chars-from_digits base limit (c ∷ s) rest n ne e h = ground arith

to_chars-ne :
    (base : ℕ) (two : 2 ≤ base) (n : ℕ) (w : Acc ◌<◌ n) (rest : Bytes)
    → length rest < length (to_chars_acc base two n w ++ rest)
unfolding to_chars_acc
to_chars-ne base two n (Acc.intro _ smaller) rest = grind (
  arith,
  length-append,
  λ (h : base ≤ n).
      length-append (to_chars_acc base two (n / base) (smaller _ (quotient_shrinks base n two h)))
        (digit_char (n % base) ∷ []),
)

-- What was written in a base is read back, up to the first character that is no digit.
from_chars-to_chars :
    (base limit : ℕ) (two : 2 ≤ base) (n : ℕ) (rest : Bytes)
    → base ≤ 16
    → n < limit
    → StopsAt base rest
    → from_chars base limit (to_chars_acc base two n (lt_wf.apply n) ++ rest) ≡ some (n, rest)
from_chars-to_chars base limit two n rest k h stops =
    from_chars-from_digits base limit (to_chars_acc base two n (lt_wf.apply n) ++ rest) rest n
      (λ e. absurd (omega (arith, to_chars-ne base two n (lt_wf.apply n) rest, ap length e)))
      (from_digits-to_chars base two n (lt_wf.apply n) rest k
        ∙ from_digits-StopsAt base n rest stops)
      h

pub from_chars-to_string :
    (limit n : ℕ) (rest : Bytes)
    → n < limit
    → StopsAt 10 rest
    → from_chars 10 limit (to_string n ++ rest) ≡ some (n, rest)
unfolding to_string
from_chars-to_string limit n rest h stops =
    from_chars-to_chars 10 limit two_le_ten n rest (omega arith) h stops

pub from_chars-to_hex :
    (limit n : ℕ) (rest : Bytes)
    → n < limit
    → StopsAt 16 rest
    → from_chars 16 limit (to_hex n ++ rest) ≡ some (n, rest)
unfolding to_hex
from_chars-to_hex limit n rest h stops =
    from_chars-to_chars 16 limit two_le_sixteen n rest (omega arith) h stops

-- To prove a predicate of a choice, whichever way the decision goes.
dite_intro {ℓ κ μ} :
    {A : Type ℓ} {B : Type κ} (P : B → Type μ) (d : Dec A) (x : A → B) (y : ¬ A → B)
    → ((a : A) → P (x a))
    → ((n : ¬ A) → P (y n))
    → P (dite d x y)
dite_intro P (yes a) x y h k = h a
dite_intro P (no n) x y h k = k n

to_chars-All :
    (P : ℕ → Type 0) (base : ℕ) (two : 2 ≤ base) (n : ℕ) (w : Acc ◌<◌ n)
    → ((d : ℕ) → d < base → P (digit_char d))
    → All P (to_chars_acc base two n w)
unfolding to_chars_acc
to_chars-All P base two n (Acc.intro _ smaller) h =
    dite_intro (All P) (dec_le base n) _ _
      (λ k.
        All-append P (to_chars_acc base two (n / base) (smaller _ (quotient_shrinks base n two k)))
          (digit_char (n % base) ∷ [])
          (to_chars-All P base two (n / base) (smaller _ (quotient_shrinks base n two k)) h)
          (h (n % base) (grind arith), tt))
      (λ k. (h n (omega arith), tt))

-- What holds of every digit holds of every character of a number.
pub to_hex-All : (P : ℕ → Type 0) (n : ℕ) → ((d : ℕ) → d < 16 → P (digit_char d)) → All P (to_hex n)
unfolding to_hex
to_hex-All P n h = to_chars-All P 16 two_le_sixteen n (lt_wf.apply n) h
