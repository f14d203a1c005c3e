-- ===== src/Decimal.antt =====
-- The digits that pans/src/Logger/formatter.cc writes: `std::to_chars` into an array of bounded size,
-- and the six places of the microseconds.
pub mod Value
mod Tests
use mathlib.Core.Option
use pans.Base.Int.{ℤ, pos, negsuc}
use pans.Base.{
  ℕ, zero, suc, ◌+◌, ◌-◌, ◌/◌, ◌%◌, Option, none, some, [], ◌∷◌, ◌++◌, Bytes, ltb, if◌then◌else◌,
}

-- `std::to_chars` of an unsigned number into `room` bytes; `none` is `value_too_large`.
unfoldable pub to_chars : ℕ → ℕ → Option Bytes
to_chars zero n = none
to_chars (suc room) n =
    if ltb n 10
    then some ((b'0' + n) ∷ [])
    else Option.map (λ text. text ++ (b'0' + n % 10) ∷ []) (to_chars room (n / 10))

-- `std::to_chars` of a signed number.
unfoldable pub to_chars_signed : ℕ → ℤ → Option Bytes
unfolding to_chars
to_chars_signed room (pos n) = to_chars room n
to_chars_signed room (negsuc n) = Option.map (◌∷◌ b'-') (to_chars (room - 1) (suc n))

-- `for (std::size_t index = digits.size(); index-- > 0; )`: the places from the last to the first.
unfoldable pub fill_digits : ℕ → ℕ → Bytes → Bytes
fill_digits zero remaining digits = digits
fill_digits (suc index) remaining digits =
    fill_digits index (remaining / 10) ((b'0' + remaining % 10) ∷ digits)
