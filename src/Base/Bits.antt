-- ===== src/Base/Bits.antt =====
-- `|=` on a flag byte as arithmetic, each case checked over its whole range by evaluation.
use Prim.Native.Nat.{ℕ, zero, suc, ◌+◌, ◌^◌, ◌<◌, bit_or}
use mathlib.Core.Path.{◌≡◌, refl}
use mathlib.Core.Bool.{Bool, true, false}
use mathlib.Core.Logic.{ite}
use mathlib.Core.List.{List}
use native.Mathlib.Decide.{ℕ_discrete}
use native.Mathlib.Omega.{arith}
use stunning_waddle.Base.Lists.{All}

module _ (f g : ℕ → ℕ) where
  unfoldable pub agree_below : ℕ → Bool
  unfolding ℕ_discrete
  agree_below zero = true
  agree_below (suc n) = ite (ℕ_discrete (f n) (g n)) (agree_below n) false

  pub agree_below→eq : (n : ℕ) → agree_below n ≡ true → (i : ℕ) → i < n → f i ≡ g i
  unfolding agree_below
  agree_below→eq zero e i h = absurd (omega arith)
  agree_below→eq (suc n) e i h = ground (arith, agree_below→eq n (ground arith) i)

-- `dst |= v` where `v` lies below the lowest bit of `dst`, for the flag bytes of HPACK.
pub bit_or-0x80 : (v : ℕ) → v < 128 → bit_or 0x80 v ≡ 128 + v
unfolding agree_below
bit_or-0x80 = agree_below→eq _ _ 128 refl

pub bit_or-0x40 : (v : ℕ) → v < 64 → bit_or 0x40 v ≡ 64 + v
unfolding agree_below
bit_or-0x40 = agree_below→eq _ _ 64 refl

pub bit_or-0x20 : (v : ℕ) → v < 32 → bit_or 0x20 v ≡ 32 + v
unfolding agree_below
bit_or-0x20 = agree_below→eq _ _ 32 refl

pub bit_or-0x10 : (v : ℕ) → v < 16 → bit_or 0x10 v ≡ 16 + v
unfolding agree_below
bit_or-0x10 = agree_below→eq _ _ 16 refl

pub bit_or-0x00 : (v : ℕ) → v < 128 → bit_or 0x00 v ≡ v
unfolding agree_below
bit_or-0x00 = agree_below→eq _ _ 128 refl

abbrev pub IsByte : ℕ → Type 0
IsByte b = b < 256

abbrev pub AreBytes : List ℕ → Type 0
AreBytes = All IsByte

abbrev pub IsU32 : ℕ → Type 0
IsU32 v = v < 2 ^ 32
