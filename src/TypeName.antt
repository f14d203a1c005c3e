-- ===== src/TypeName.antt =====
-- `ExtractTypeName` of pans/include/pans/type_name.h: the name of a type out of the compiler's
-- signature of a function template. The signature is the argument.
pub mod Compilers
mod Tests
use mathlib.Core.Option
use pans.Base.{
  ℕ, ◌+◌, ◌-◌, Bool, true, false, ◌&&◌, Option, none, some, [], ◌∷◌, Bytes, codes, ◌==◌, leb,
  if◌then◌else◌, drop, take, length, index_of, find_from,
}

abbrev pub marker : Bytes
marker = codes "T = "

abbrev pub starts_with : Bytes → Bytes → Bool
starts_with [] text = true
starts_with (c ∷ cs) [] = false
starts_with (c ∷ cs) (x ∷ xs) = x == c && starts_with cs xs

-- `signature.find(marker)`: the first place where the words stand.
abbrev pub find_text : Bytes → Bytes → Option ℕ
find_text words [] = if starts_with words [] then some 0 else none
find_text words (x ∷ xs) =
    if starts_with words (x ∷ xs) then some 0 else Option.map (λ i. i + 1) (find_text words xs)

-- `semicolon != npos ? semicolon : bracket`.
abbrev pub end_of : Option ℕ → Option ℕ → Option ℕ
end_of (some semicolon) bracket = some semicolon
end_of none bracket = bracket

abbrev pub substring : Bytes → ℕ → Option ℕ → Bytes
substring signature begin none = drop begin signature
substring signature begin (some end) =
    if leb end begin then drop begin signature else take (end - begin) (drop begin signature)

abbrev pub extract_at : Bytes → Option ℕ → Bytes
extract_at signature none = signature
extract_at signature (some marker_pos) =
    substring signature (marker_pos + length marker)
      (end_of (find_from b';' signature (marker_pos + length marker)) (index_of b']' signature))

-- `ExtractTypeName`.
unfoldable pub extract_type_name : Bytes → Bytes
extract_type_name signature = extract_at signature (find_text marker signature)
