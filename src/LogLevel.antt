-- ===== src/LogLevel.antt =====
-- The severities of pans/include/pans/Logger/Log_level.h, and their names, of
-- pans/src/Logger/Log_level.cc.
pub mod Names
mod Tests
use mathlib.Core.Option
use pans.Base.{
  ℕ, ◌-◌, Bool, ◌&&◌, Option, none, some, Bytes, codes, equal, zero, suc, [], ◌∷◌, leb,
  if◌then◌else◌,
}

-- `enum class Level : std::uint8_t`, in the source's order.
pub data Level : Type 0 where
  debug info warn error fatal off : Level

-- `static_cast<u8>(level)`.
abbrev pub to_u8 : Level → ℕ
to_u8 debug = 0
to_u8 info = 1
to_u8 warn = 2
to_u8 error = 3
to_u8 fatal = 4
to_u8 off = 5

-- `ToString`. The enumerators are all that a `Level` holds, so that "UNKNOWN" is not reached.
unfoldable pub to_string : Level → Bytes
to_string debug = codes "DEBUG"
to_string info = codes "INFO"
to_string warn = codes "WARN"
to_string error = codes "ERROR"
to_string fatal = codes "FATAL"
to_string off = codes "OFF"

-- `std::toupper` of an unsigned char, in the "C" locale.
unfoldable pub to_upper : ℕ → ℕ
to_upper c = if leb b'a' c && leb c b'z' then c - 32 else c

-- `normalized` has room for this many bytes.
abbrev pub normalized_capacity : ℕ
normalized_capacity = 6

-- The comparisons of the upper-case text, in the source's order.
unfoldable pub level_named : Bytes → Level
level_named upper_value =
    if equal upper_value (codes "DEBUG")
    then debug
    else if equal upper_value (codes "INFO")
    then info
    else if equal upper_value (codes "WARN")
    then warn
    else if equal upper_value (codes "FATAL")
    then fatal
    else if equal upper_value (codes "OFF")
    then off
    else if equal upper_value (codes "ERROR")
    then error
    else off

-- `std::transform` to an array with so much room left, a byte at a time and with no check of the room:
-- `none` is a write behind the end of the array, which is undefined.
unfoldable pub transform : ℕ → Bytes → Option Bytes
transform room [] = some []
transform zero (c ∷ value) = none
transform (suc room) (c ∷ value) =
    let rest = transform room value in Option.map (λ upper. to_upper c ∷ upper) rest

-- `FromString`.
unfoldable pub from_string : Bytes → Option Level
unfolding level_named transform to_upper
from_string value = Option.map level_named (transform normalized_capacity value)
