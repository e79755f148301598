-- ===== src/Prelude/Bits.antt =====
-- Bit tests on bytes as arithmetic; each is a table of 256 entries, checked by evaluation.
use Prim.Native.Nat.{ℕ, zero, suc, ◌-◌, ◌%◌, ◌<◌, bit_and}
use mathlib.Core.Path.{◌≡◌, refl}
use mathlib.Core.Bool.{Bool, true, false}
use mathlib.Core.Logic.{ite}
use native.Mathlib.Decide.{ℕ_discrete}
use native.Mathlib.Omega.{arith}

-- `x &^ mask` clears the bits of the mask that are set in `x`.
abbrev pub and_not : ℕ → ℕ → ℕ
and_not x mask = x - bit_and x mask

module _ (f g : ℕ → ℕ) where
  agree_below : ℕ → Bool
  unfolding ℕ_discrete
  agree_below zero = true
  agree_below (suc n) = ite (ℕ_discrete (f n) (g n)) (agree_below n) false

  agree_below→eq : (n : ℕ) → agree_below n ≡ true → (i : ℕ) → i < n → f i ≡ g i
  unfolding agree_below
  agree_below→eq zero e i h = absurd (omega arith)
  agree_below→eq (suc n) e i h = ground (arith, agree_below→eq n (ground arith) i)

pub bit_and-one : (b : ℕ) → b < 256 → bit_and b 1 ≡ b % 2
unfolding agree_below
bit_and-one = agree_below→eq _ _ 256 refl

pub bit_and-three : (b : ℕ) → b < 256 → bit_and b 3 ≡ b % 4
unfolding agree_below
bit_and-three = agree_below→eq _ _ 256 refl

pub bit_and-seven : (b : ℕ) → b < 256 → bit_and b 7 ≡ b % 8
unfolding agree_below
bit_and-seven = agree_below→eq _ _ 256 refl
