-- ===== src/Utf/Tests.antt =====
-- Runs of the conversions of pans/src/Utils/string_utils.cc, and their theorems at concrete texts.
use pans.Base.{arith, ◌≢◌, ◌⊎◌, ◌≡◌, refl, none, some, List, ℕ, [], ◌∷◌, Bytes}
use pans.Utf.{
  Width, narrow_16, narrow_32, narrow, decode_code_point, decode_sequence, read_continuations,
  is_continuation, push_six, wide_units, widen, widened, invalid,
}
use pans.Utf.Accepted.{Accepts, IsNoUtf8, widen-decides, narrow-widen}
use pans.Utf.Sequences.{AreBytes}
use pans.Utf.Narrowed.{narrow-decides}
use pans.Utf.Strings.{AreScalar, encode_all, units_of}

surrogates_refused :
    (narrow Width.utf_16 (0xd800 ∷ []) ≡ none)
    × (narrow Width.utf_16 (0xdc00 ∷ []) ≡ none)
    × (narrow Width.utf_32 (0xd83d ∷ 0xde00 ∷ []) ≡ none)
unfolding narrow_16 narrow_32
surrogates_refused = (refl, refl, refl)

-- An ASCII letter, a letter of two bytes, one of three, and a sign outside the first plane.
abbrev text : List ℕ
text = 0x41 ∷ 0xe9 ∷ 0x20ac ∷ 0x1f600 ∷ []

-- The letter 'A', and an overlong form of it.
abbrev overlong : Bytes
overlong = 0x41 ∷ 0xC1 ∷ 0x81 ∷ []

overlong-AreBytes : AreBytes overlong
overlong-AreBytes = (omega arith, (omega arith, (omega arith, tt)))

widen-decides_example :
    Accepts overlong
      (λ points. widen Width.utf_16 overlong ≡ widened (units_of Width.utf_16 points))
    ⊎ (IsNoUtf8 overlong × (widen Width.utf_16 overlong ≡ invalid))
widen-decides_example = widen-decides Width.utf_16 overlong overlong-AreBytes

-- The euro sign, in UTF-8.
abbrev euro : Bytes
euro = 0xE2 ∷ 0x82 ∷ 0xAC ∷ []

euro-widened : widen Width.utf_32 euro ≡ widened (0x20AC ∷ [])
unfolding widen decode_code_point wide_units decode_sequence read_continuations is_continuation
    push_six
euro-widened = refl

narrow-widen_example : narrow Width.utf_32 (0x20AC ∷ []) ≡ some euro
narrow-widen_example =
    narrow-widen Width.utf_32 euro (0x20AC ∷ []) (omega arith, (omega arith, (omega arith, tt)))
      euro-widened

narrow-decides_example :
    ((points : List ℕ) × AreScalar points
      × (0xD83D ∷ 0xDE00 ∷ [] ≡ units_of Width.utf_16 points)
      × (narrow Width.utf_16 (0xD83D ∷ 0xDE00 ∷ []) ≡ some (encode_all points)))
    ⊎ (((points : List ℕ) → AreScalar points → 0xD83D ∷ 0xDE00 ∷ [] ≢ units_of Width.utf_16 points)
        × (narrow Width.utf_16 (0xD83D ∷ 0xDE00 ∷ []) ≡ none))
narrow-decides_example =
    narrow-decides Width.utf_16 (0xD83D ∷ 0xDE00 ∷ []) (omega arith, (omega arith, tt))
