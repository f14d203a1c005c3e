-- ===== src/Utf/Narrowed.antt =====
-- Which wide texts `WStringToString` (pans/src/utils/string_utils.cc) accepts: UTF-16 or UTF-32, by the
-- width of `wchar_t`.
use pans.Base.{
  ℕ, ◌+◌, ◌-◌, ◌*◌, ◌^◌, ◌<◌, ◌≡◌, ◌≢◌, refl, ap, ◌∙◌, true, false, Option, none, some, List, [],
  ◌∷◌, ◌++◌, Bytes, append-nil, append_assoc, Bool-cases, Option-cases, ◌⊎◌, inl, inr, arith,
}
use pans.Utf.{
  encode, is_scalar, is_high_surrogate, is_low_surrogate, Width, utf_16, utf_32, narrow, narrow_16,
  narrow_32, wide_units,
}
use pans.Utf.Strings.{AreScalar, encode_all, units_of, narrow-units_of}

-- The values of a `wchar_t`.
abbrev pub unit_limit : Width → ℕ
unit_limit utf_16 = 2 ^ 16
unit_limit utf_32 = 2 ^ 32

abbrev pub AreUnits : Width → List ℕ → Type 0
AreUnits width [] = Unit
AreUnits width (u ∷ units) = (u < unit_limit width) × AreUnits width units

-- The code points that were read, and their bytes behind the result.
abbrev Reads : Width → Bytes → List ℕ → Bytes → Type 0
Reads width result units bytes =
    (points : List ℕ) × AreScalar points
    × (units ≡ units_of width points)
    × (bytes ≡ result ++ encode_all points)

-- One more code point in front.
Reads-step :
    (width : Width) (n : ℕ) (result : Bytes) (units rest : List ℕ) (bytes : Bytes)
    → is_scalar n ≡ true
    → units ≡ wide_units width n ++ rest
    → Reads width (result ++ encode n) rest bytes
    → Reads width result units bytes
Reads-step width n result units rest bytes s split (points, scalar, e, written) = (
  n ∷ points,
  (s, scalar),
  split ∙ ap (λ more. wide_units width n ++ more) e,
  written ∙ append_assoc result (encode n) (encode_all points),
)

written :
    {result bytes : Bytes}
    → ◌≡◌ {A = Option Bytes} (some result) (some bytes)
    → bytes ≡ result ++ []
written {result} {bytes} h = cc (append-nil result)

narrow_32-Reads :
    (units : List ℕ) (result bytes : Bytes)
    → narrow_32 result units ≡ some bytes
    → Reads utf_32 result units bytes
unfolding narrow_32
narrow_32-Reads [] result bytes h = ([], tt, refl, written h)
narrow_32-Reads (n ∷ units) result bytes h = elim (Bool-cases (is_scalar n)) [
  | inr other ↦ cc (rw other at h)
  | inl scalar ↦
      Reads-step utf_32 n result (n ∷ units) units bytes scalar (unfold wide_units in refl)
        (narrow_32-Reads units (result ++ encode n) bytes (rw scalar at h))
]

-- A unit that is no surrogate, and a pair of a high and a low one.
single-Units :
    (u : ℕ)
    → u < 2 ^ 16
    → is_high_surrogate u ≡ false
    → is_low_surrogate u ≡ false
    → (is_scalar u ≡ true) × (wide_units utf_16 u ≡ u ∷ [])
unfolding wide_units
single-Units u h p q = ground arith

pair-Units :
    (high low : ℕ)
    → is_high_surrogate high ≡ true
    → is_low_surrogate low ≡ true
    → (is_scalar (0x10000 + (high - 0xD800) * 1024 + (low - 0xDC00)) ≡ true)
      × (wide_units utf_16 (0x10000 + (high - 0xD800) * 1024 + (low - 0xDC00)) ≡ high ∷ low ∷ [])
unfolding wide_units
pair-Units high low p q = ground arith

narrow_16-Reads :
    (units : List ℕ) (result bytes : Bytes)
    → AreUnits utf_16 units
    → narrow_16 result units ≡ some bytes
    → Reads utf_16 result units bytes
unfolding narrow_16
narrow_16-Reads [] result bytes u h = ([], tt, refl, written h)
narrow_16-Reads (high ∷ []) result bytes u h = elim (Bool-cases (is_high_surrogate high)) [
  | inl is_high ↦ cc (rw is_high at h)
  | inr not_high ↦ elim (Bool-cases (is_low_surrogate high)) [
    | inl is_low ↦ cc (rw (not_high, is_low) at h)
    | inr not_low ↦
        let (scalar, one) = single-Units high u.0 not_high not_low in
        Reads-step utf_16 high result (high ∷ []) [] bytes scalar (rw one refl)
          ([], tt, refl, written (rw (not_high, not_low) at h))
  ]
]
narrow_16-Reads (high ∷ low ∷ units) result bytes u h = elim (Bool-cases (is_high_surrogate high)) [
  | inl is_high ↦ elim (Bool-cases (is_low_surrogate low)) [
    | inr not_low ↦ cc (rw (is_high, not_low) at h)
    | inl is_low ↦
        let (scalar, pair) = pair-Units high low is_high is_low in
        Reads-step utf_16 _ result (high ∷ low ∷ units) units bytes scalar (rw pair refl)
          (narrow_16-Reads units (result ++ encode _) bytes u.1.1 (rw (is_high, is_low) at h))
  ]
  | inr not_high ↦ elim (Bool-cases (is_low_surrogate high)) [
    | inl is_low ↦ cc (rw (not_high, is_low) at h)
    | inr not_low ↦
        let (scalar, one) = single-Units high u.0 not_high not_low in
        Reads-step utf_16 high result (high ∷ low ∷ units) (low ∷ units) bytes scalar (rw one refl)
          (narrow_16-Reads (low ∷ units) (result ++ encode high) bytes u.1
            (rw (not_high, not_low) at h))
  ]
]

narrow-Reads :
    (width : Width) (units : List ℕ) (bytes : Bytes)
    → AreUnits width units
    → narrow width units ≡ some bytes
    → Reads width [] units bytes
narrow-Reads utf_16 units bytes u h = narrow_16-Reads units [] bytes u h
narrow-Reads utf_32 units bytes u h = narrow_32-Reads units [] bytes h

-- `WStringToString` decides whether a wide text is UTF-16 or UTF-32, by the width of its units: the
-- units of code points that are no surrogates give the UTF-8 bytes of these, and all others are refused,
-- such as a lone half of a surrogate pair.
pub narrow-decides :
    (width : Width) (units : List ℕ)
    → AreUnits width units
    → ((points : List ℕ) × AreScalar points
        × (units ≡ units_of width points)
        × (narrow width units ≡ some (encode_all points)))
      ⊎ (((points : List ℕ) → AreScalar points → units ≢ units_of width points)
          × (narrow width units ≡ none))
narrow-decides width units u = elim (Option-cases (narrow width units)) [
  | inr (bytes, e) ↦
      let (points, scalar, same, made) = narrow-Reads width units bytes u e in
      inl (points, scalar, same, e ∙ ap some made)
  | inl refused ↦ inr (
    λ points scalar same. cc (refused, ap (narrow width) same, narrow-units_of width points scalar),
    refused,
  )
]
