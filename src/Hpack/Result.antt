-- ===== src/Hpack/Result.antt =====
-- The exceptions that the HPACK decoder throws, as values.
use stunning_waddle.Base.{◌≡◌, refl}

-- One constructor for each `throw` of source/v2/hpack.cpp and hpack_context.cpp. `stuck` is
-- no exception: it would be a loop of the model out of fuel.
pub data Error : Type 0 where
  int_eof int_overflow int_limit int_incomplete : Error
  huffman_invalid_code huffman_eos huffman_no_padding huffman_padding_not_ones stuck : Error
  string_eof string_limit string_incomplete : Error
  dynamic_index_out_of_range : Error

-- What a decoding function returns: it throws, or it has a value.
pub data Result {ℓ} (Value : Type ℓ) : Type ℓ where
  err : Error → Result Value
  ok : Value → Result Value

-- The code behind a call that may throw.
infixl 5 ◌>>=◌
abbrev pub ◌>>=◌ {ℓ κ} :
    {Value : Type ℓ} {Next : Type κ} → Result Value → (Value → Result Next) → Result Next
err thrown >>= next = err thrown
ok value >>= next = next value

pub >>=_assoc {ℓ κ μ} :
    {A : Type ℓ} {B : Type κ} {C : Type μ} (m : Result A) (f : A → Result B) (g : B → Result C)
    → ((m >>= f) >>= g) ≡ (m >>= λ a. f a >>= g)
>>=_assoc (ok a) f g = refl
>>=_assoc (err e) f g = refl

pub >>=_congr {ℓ κ} :
    {A : Type ℓ} {B : Type κ} (m : Result A) {f g : A → Result B}
    → ((a : A) → f a ≡ g a)
    → (m >>= f) ≡ (m >>= g)
>>=_congr (ok a) h = h a
>>=_congr (err e) h = refl
