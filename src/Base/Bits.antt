-- ===== src/Base/Bits.antt =====
-- `|` on words, by the lowest binary digit, and a check of every value of a small range.
use Prim.Native.Nat.{
  ℕ, zero, suc, ◌+◌, ◌*◌, ◌/◌, ◌%◌, ◌≤◌, ◌<◌, max, bit_or, digits, bit_or-bitwise,
}
use mathlib.Core.Path.{◌≡◌, refl}
use mathlib.Core.Bool.{Bool, true, ◌&&◌}
use native.Mathlib.Omega.{arith}

-- `p` holds of every number below `n`.
unfoldable pub holds_below : ℕ → (ℕ → Bool) → Bool
holds_below zero p = true
holds_below (suc n) p = p n && holds_below n p

pub holds_below_lem : (n : ℕ) (p : ℕ → Bool) (x : ℕ) → holds_below n p ≡ true → x < n → p x ≡ true
unfolding holds_below
holds_below_lem zero p x h lt = absurd (omega arith)
holds_below_lem (suc n) p x h lt = ground (arith, holds_below_lem n p x)

-- The recursion that `bit_or` stands for, at any count of digits that is large enough.
abbrev or_digits : ℕ → ℕ → ℕ → ℕ
or_digits = digits (λ b. b) max

or_digits-count : (n m a b : ℕ) → a ≤ n → a ≤ m → or_digits n a b ≡ or_digits m a b
or_digits-count zero zero a b h k = refl
or_digits-count zero (suc m) zero b h k = refl
or_digits-count zero (suc m) (suc a) b h k = absurd (omega arith)
or_digits-count (suc n) zero zero b h k = refl
or_digits-count (suc n) zero (suc a) b h k = absurd (omega arith)
or_digits-count (suc n) (suc m) zero b h k = refl
or_digits-count (suc n) (suc m) (suc a) b h k =
    omega (arith, or_digits-count n m (suc a / 2) (b / 2) (omega arith) (omega arith))

zero-bit_or : (b : ℕ) → bit_or 0 b ≡ b
zero-bit_or b = bit_or-bitwise 0 b

bit_or_step : (a b : ℕ) → bit_or a b ≡ bit_or (a / 2) (b / 2) * 2 + max (a % 2) (b % 2)
bit_or_step zero b = omega (arith, zero-bit_or b, zero-bit_or (b / 2))
bit_or_step (suc a) b = omega (
  arith,
  bit_or-bitwise (suc a) b,
  bit_or-bitwise (suc a / 2) (b / 2),
  or_digits-count a (suc a / 2) (suc a / 2) (b / 2) (omega arith) (omega arith),
)

bit_or-zero_below : (n a : ℕ) → a ≤ n → bit_or a 0 ≡ a
bit_or-zero_below n zero h = refl
bit_or-zero_below zero (suc a) h = absurd (omega arith)
bit_or-zero_below (suc n) (suc a) h =
    omega (arith, bit_or_step (suc a) 0, bit_or-zero_below n (suc a / 2) (omega arith))

bit_or-zero : (a : ℕ) → bit_or a 0 ≡ a
bit_or-zero a = bit_or-zero_below a a (omega arith)

-- Below `m` the right operand meets only zeros of a multiple of `m`.
abbrev Joins : ℕ → Type 0
Joins m = (a b : ℕ) → b < m → bit_or (a * m) b ≡ a * m + b

Joins-one : Joins 1
Joins-one a zero h = omega (arith, bit_or-zero (a * 1))
Joins-one a (suc b) h = absurd (omega arith)

Joins-double : (m : ℕ) → Joins m → Joins (m * 2)
Joins-double m ih a b h = rw regroup (omega (arith, stepped, ih a (b / 2) (omega arith)))
  where
    regroup : a * (m * 2) ≡ a * m * 2
    regroup = omega arith

    halved : a * m * 2 / 2 ≡ a * m
    halved = omega arith

    stepped : bit_or (a * m * 2) b ≡ bit_or (a * m) (b / 2) * 2 + max (a * m * 2 % 2) (b % 2)
    stepped = rw halved at (bit_or_step (a * m * 2) b)

-- `(a << 6) | b`, where `b` has six digits at most.
pub bit_or-shift_six : (a b : ℕ) → b < 64 → bit_or (a * 64) b ≡ a * 64 + b
bit_or-shift_six =
    Joins-double 32 (
      Joins-double 16 (Joins-double 8 (Joins-double 4 (Joins-double 2 (Joins-double 1 Joins-one)))))
