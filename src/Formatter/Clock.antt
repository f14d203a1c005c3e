-- ===== src/Formatter/Clock.antt =====
-- The seconds and the microseconds of a time stamp, as the items of pans/src/Logger/formatter.cc
-- write them.
use native.Mathlib.Decide.{ℕ_discrete}
use pans.Base.Int.{ℤ, pos, negsuc, neg_part, neg, quot, rem}
use pans.Base.{ℕ, zero, suc, ◌+◌, ◌*◌, ◌/◌, ◌%◌, ◌<◌, ◌≡◌, ◌≢◌, refl, [], length, arith}
use pans.Decimal.{fill_digits}
use pans.Decimal.Value.{value_from, fill_digits-value, length-fill_digits}
use pans.Formatter.{seconds_of, microseconds_of, raise_negative}

raise_negative-neg : (n : ℕ) → n < 1000000 → raise_negative (neg n) < 1000000
raise_negative-neg zero h = omega arith
raise_negative-neg (suc n) h = omega arith

microseconds_of-rem : (total : ℤ) → raise_negative (rem total 1000000) < 1000000
microseconds_of-rem (pos n) = omega arith
microseconds_of-rem (negsuc n) = raise_negative-neg (suc n % 1000000) (omega arith)

-- From the epoch on, the second of `%d` and the microseconds of `%u` make up the time stamp, to the
-- microsecond.
seconds_of-microseconds_of :
    (n : ℕ)
    → (seconds_of (pos n) ≡ pos (n / 1000000000))
      × (n / 1000000000 * 1000000 + microseconds_of (pos n) ≡ n / 1000)
unfolding seconds_of microseconds_of
seconds_of-microseconds_of n = (refl, omega arith)

minus_raise : (m : ℕ) → 0 < m → m < 1000000 → raise_negative (neg m) + m ≡ 1000000
minus_raise zero p h = absurd (omega arith)
minus_raise (suc m) p h = omega arith

minus_rest :
    (m : ℕ)
    → m % 1000000 ≢ 0
    → raise_negative (rem (neg m) 1000000) + m ≡ (m / 1000000 + 1) * 1000000
minus_rest zero h = absurd (h refl)
minus_rest (suc m) h = omega (arith, minus_raise (suc m % 1000000) (omega arith) (omega arith))

minus_whole : (m : ℕ) → m % 1000000 ≡ 0 → raise_negative (rem (neg m) 1000000) ≡ 0
minus_whole zero h = refl
minus_whole (suc m) h = rw h refl

-- The microseconds since the last whole second: from the epoch on they are what is left of the whole
-- microseconds, and before it what is missing from those to a whole second.
abbrev pub IsSecondPart : ℤ → ℕ → Type 0
IsSecondPart (pos n) value = value ≡ n / 1000 % 1000000
IsSecondPart (negsuc n) value = (value < 1000000) × ((value + suc n / 1000) % 1000000 ≡ 0)

microseconds_of-IsSecondPart : (timestamp : ℤ) → IsSecondPart timestamp (microseconds_of timestamp)
unfolding microseconds_of
microseconds_of-IsSecondPart (pos n) = refl
microseconds_of-IsSecondPart (negsuc n) = (
  microseconds_of-rem (quot (negsuc n) 1000),
  elim (ℕ_discrete (suc n / 1000 % 1000000) 0) [
    | yes whole ↦ omega (arith, minus_whole (suc n / 1000) whole, whole)
    | no rest ↦ omega (arith, minus_rest (suc n / 1000) rest)
  ],
)

microseconds_of_small : (timestamp : ℤ) → microseconds_of timestamp < 1000000
unfolding microseconds_of
microseconds_of_small timestamp = microseconds_of-rem (quot timestamp 1000)

-- `%u` writes six digits for every time stamp, before the epoch too, and they stand for the
-- microseconds since the last whole second: from the epoch on the whole microseconds that are left, and
-- before it what the whole microseconds lack of a whole second.
pub microseconds-six_digits :
    (timestamp : ℤ)
    → (length (fill_digits 6 (microseconds_of timestamp) []) ≡ 6)
      × IsSecondPart timestamp (value_from 0 (fill_digits 6 (microseconds_of timestamp) []))
microseconds-six_digits timestamp = (
  omega (arith, length-fill_digits 6 (microseconds_of timestamp) []),
  rw (fill_digits-value 6 (microseconds_of timestamp) [] (microseconds_of_small timestamp))
      (microseconds_of-IsSecondPart timestamp),
)

neg_part-neg : (n : ℕ) → neg_part (neg n) ≡ n
neg_part-neg zero = refl
neg_part-neg (suc n) = refl

-- Before the epoch, where the time stamp is no whole second, the two together are a second late: the
-- second is rounded towards the epoch, while the microseconds count from the second before.
pub seconds_of-late :
    (n : ℕ)
    → suc n / 1000 % 1000000 ≢ 0
    → microseconds_of (negsuc n) + suc n / 1000 ≡ (neg_part (seconds_of (negsuc n)) + 1) * 1000000
unfolding seconds_of microseconds_of
seconds_of-late n h = omega (arith, minus_rest (suc n / 1000) h, neg_part-neg (suc n / 1000000000))
