-- ===== src/Decimal/Tests.antt =====
-- The conversions of numbers at concrete values.
use pans.Base.{◌≡◌, refl, some, codes, arith}
use pans.Base.Int.{negsuc}
use pans.Decimal.{to_chars, to_chars_signed}
use pans.Decimal.Value.{Prints, to_chars-Prints}

to_chars_negative : to_chars_signed 4 (negsuc 41) ≡ some (codes "-42")
unfolding to_chars to_chars_signed
to_chars_negative = refl

to_chars-Prints_example : Prints 3 128 (to_chars 3 128)
to_chars-Prints_example = to_chars-Prints 2 128 (omega arith)
