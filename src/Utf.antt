-- ===== src/Utf.antt =====
-- pans/src/utils/string_utils.cc: conversions between UTF-8 and wide strings, for a `wchar_t` of two
-- bytes (UTF-16) and of four (UTF-32). Bytes and wide characters are unsigned; an offset into a text is
-- read as the part of the text behind it.
pub mod Units
pub mod Sequences
pub mod Decoding
pub mod Strings
pub mod Accepted
pub mod Narrowed
mod Tests
use Prim.Native.Nat.{bit_and, bit_or}
use pans.Base.{
  ℕ, zero, suc, ◌+◌, ◌-◌, ◌*◌, ◌/◌, ◌%◌, ◌^◌, Bool, true, false, not, ◌&&◌, ◌||◌, Option, none,
  some, List, [], ◌∷◌, ◌++◌, Bytes, ltb, leb, ◌==◌, if◌then◌else◌, length, is_empty,
}
use pans.Macros.{Build, Control, falls_through, returns, aborts, assert_retval}

abbrev pub max_unicode_code_point : ℕ
max_unicode_code_point = 0x10FFFF

abbrev pub high_surrogate_first : ℕ
high_surrogate_first = 0xD800

abbrev pub high_surrogate_last : ℕ
high_surrogate_last = 0xDBFF

abbrev pub low_surrogate_first : ℕ
low_surrogate_first = 0xDC00

abbrev pub low_surrogate_last : ℕ
low_surrogate_last = 0xDFFF

abbrev pub is_high_surrogate : ℕ → Bool
is_high_surrogate value = leb high_surrogate_first value && leb value high_surrogate_last

abbrev pub is_low_surrogate : ℕ → Bool
is_low_surrogate value = leb low_surrogate_first value && leb value low_surrogate_last

-- `static_cast<char>`, as an unsigned byte.
abbrev pub to_byte : ℕ → ℕ
to_byte n = n % 256

-- What `AppendUtf8` pushes for a code point. `>> k` is a division and `& 0x3FU` a remainder.
unfoldable pub encode : ℕ → Bytes
encode code_point =
    if leb code_point 0x7F
    then to_byte code_point ∷ []
    else if leb code_point 0x7FF
    then to_byte (bit_or 0xC0 (code_point / 64)) ∷ to_byte (bit_or 0x80 (code_point % 64)) ∷ []
    else if leb code_point 0xFFFF
    then to_byte (bit_or 0xE0 (code_point / 4096))
      ∷ to_byte (bit_or 0x80 (code_point / 64 % 64))
      ∷ to_byte (bit_or 0x80 (code_point % 64))
      ∷ []
    else to_byte (bit_or 0xF0 (code_point / 262144))
      ∷ to_byte (bit_or 0x80 (code_point / 4096 % 64))
      ∷ to_byte (bit_or 0x80 (code_point / 64 % 64))
      ∷ to_byte (bit_or 0x80 (code_point % 64))
      ∷ []

-- `AppendUtf8`.
unfoldable pub append_utf8 : Bytes → ℕ → Bytes
append_utf8 output code_point = output ++ encode code_point

-- `(continuation & 0xC0U) == 0x80U`.
unfoldable pub is_continuation : ℕ → Bool
is_continuation c = bit_and c 0xC0 == 0x80

-- `(code_point << 6U) | (continuation & 0x3FU)`, in 32 bits.
unfoldable pub push_six : ℕ → ℕ → ℕ
push_six code_point c = bit_or (code_point * 64 % 2 ^ 32) (c % 64)

-- The loop over the continuation bytes: the code point and what follows it.
unfoldable pub read_continuations : ℕ → ℕ → Bytes → Option (ℕ × Bytes)
read_continuations zero code_point rest = some (code_point, rest)
read_continuations (suc count) code_point [] = none
read_continuations (suc count) code_point (c ∷ rest) =
    let read = read_continuations count (push_six code_point c) rest in
    if not (is_continuation c) then none else read

-- The test behind the loop.
abbrev pub is_refused : ℕ → ℕ → Bool
is_refused minimum_code_point code_point =
    ltb code_point minimum_code_point
    || (ltb max_unicode_code_point code_point
        || (is_high_surrogate code_point || is_low_surrogate code_point))

abbrev pub refuse : ℕ → Option (ℕ × Bytes) → Option (ℕ × Bytes)
refuse minimum_code_point none = none
refuse minimum_code_point (some (code_point, rest)) =
    if is_refused minimum_code_point code_point then none else some (code_point, rest)

-- Behind the branches on the first byte, at the bits and bounds that they set.
unfoldable pub decode_sequence : ℕ → ℕ → ℕ → Bytes → Option (ℕ × Bytes)
decode_sequence code_point minimum_code_point continuation_count rest =
    if ltb (length rest) continuation_count
    then none
    else refuse minimum_code_point (read_continuations continuation_count code_point rest)

-- `DecodeUtf8CodePoint` at a text that is not empty: `none` is `false`.
unfoldable pub decode_code_point : ℕ → Bytes → Option (ℕ × Bytes)
decode_code_point first rest =
    if leb first 0x7F
    then some (first, rest)
    else if leb 0xC2 first && leb first 0xDF
    then decode_sequence (first % 32) 0x80 1 rest
    else if leb 0xE0 first && leb first 0xEF
    then decode_sequence (first % 16) 0x800 2 rest
    else if leb 0xF0 first && leb first 0xF4
    then decode_sequence (first % 8) 0x10000 3 rest
    else none

-- `sizeof(wchar_t)`: two bytes or four.
pub data Width : Type 0 where
  utf_16 utf_32 : Width

-- The loop of `WStringToString` with two bytes: `none` is a failed assertion.
unfoldable pub narrow_16 : Bytes → List ℕ → Option Bytes
unfolding append_utf8
narrow_16 result [] = some result
narrow_16 result (high ∷ []) =
    if is_high_surrogate high
    then none
    else if is_low_surrogate high
    then none
    else some (append_utf8 result high)
narrow_16 result (high ∷ low ∷ text) =
    let code_point : ℕ =
      0x10000 + (high - high_surrogate_first) * 1024 + (low - low_surrogate_first) in
    let paired = narrow_16 (append_utf8 result code_point) text in
    let single = narrow_16 (append_utf8 result high) (low ∷ text) in
    if is_high_surrogate high
    then (if is_low_surrogate low then paired else none)
    else if is_low_surrogate high
    then none
    else single

-- A code point that the loop with four bytes lets through.
abbrev pub is_scalar : ℕ → Bool
is_scalar code_point =
    leb code_point max_unicode_code_point
    && (not (is_high_surrogate code_point) && not (is_low_surrogate code_point))

-- The loop of `WStringToString` with four bytes.
unfoldable pub narrow_32 : Bytes → List ℕ → Option Bytes
unfolding append_utf8
narrow_32 result [] = some result
narrow_32 result (code_point ∷ text) =
    let rest = narrow_32 (append_utf8 result code_point) text in
    if is_scalar code_point then rest else none

abbrev pub narrow : Width → List ℕ → Option Bytes
narrow utf_16 = narrow_16 []
narrow utf_32 = narrow_32 []

-- What `StringToWString` pushes for a code point.
unfoldable pub wide_units : Width → ℕ → List ℕ
wide_units utf_16 code_point =
    if leb code_point 0xFFFF
    then code_point ∷ []
    else (high_surrogate_first + (code_point - 0x10000) / 1024)
      ∷ (low_surrogate_first + (code_point - 0x10000) % 1024)
      ∷ []
wide_units utf_32 code_point = code_point ∷ []

-- What the loop of `StringToWString` ends with.
pub data Widened : Type 0 where
  widened : List ℕ → Widened
  invalid : Widened
  out_of_fuel : Widened

abbrev pub widen_on : Width → List ℕ → (List ℕ → Bytes → Widened) → Option (ℕ × Bytes) → Widened
widen_on width result again none = invalid
widen_on width result again (some (code_point, rest)) =
    again (result ++ wide_units width code_point) rest

-- The loop of `StringToWString`, with a round for each unit of fuel.
unfoldable pub widen_loop : Width → ℕ → List ℕ → Bytes → Widened
widen_loop width zero result text = out_of_fuel
widen_loop width (suc fuel) result [] = widened result
widen_loop width (suc fuel) result (first ∷ rest) =
    widen_on width result (widen_loop width fuel) (decode_code_point first rest)

unfoldable pub widen : Width → Bytes → Widened
unfolding widen_loop
widen width text = widen_loop width (suc (length text)) [] text

-- `WStringToString` and `StringToWString`, at what their loops end with: a failed assertion gives an
-- empty string, or aborts.
abbrev pub narrowed_string : Build → Option Bytes → Control Bytes
narrowed_string build none = (assert_retval build false []).control
narrowed_string build (some result) = returns result

abbrev pub wstring_to_string : Build → Width → List ℕ → Control Bytes
wstring_to_string build width text = narrowed_string build (narrow width text)

abbrev pub widened_string : Build → Widened → Control (List ℕ)
widened_string build (widened result) = returns result
widened_string build invalid = (assert_retval build false []).control
widened_string build out_of_fuel = falls_through

abbrev pub string_to_wstring : Build → Width → Bytes → Control (List ℕ)
string_to_wstring build width text = widened_string build (widen width text)
