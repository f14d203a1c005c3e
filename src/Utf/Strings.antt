-- ===== src/Utf/Strings.antt =====
-- The two conversions of pans/src/utils/string_utils.cc undo one another.
use native.Mathlib.Decide.{dec_le}
use pans.Base.{
  ℕ, zero, suc, ◌+◌, ◌-◌, ◌*◌, ◌/◌, ◌%◌, ◌<◌, ◌≤◌, ◌≡◌, refl, sym, ap, ◌∙◌, true, false, Option,
  none, some, List, [], ◌∷◌, ◌++◌, Bytes, leb, length, length-append, append-nil, append_assoc,
  Bool-cases, inl, inr, arith,
}
use pans.Utf.{
  encode, append_utf8, decode_code_point, is_scalar, is_high_surrogate, is_low_surrogate, Width,
  utf_16, utf_32, narrow, narrow_16, narrow_32, wide_units, widened, widen_loop, widen,
}
use pans.Utf.Units.{
  first_one, first_two, first_three, first_four, sequence_two, sequence_three, sequence_four,
  encode_one, encode_two, encode_three, encode_four,
}

-- `DecodeUtf8CodePoint` at a text; there is none to decode in an empty one.
abbrev pub decode : Bytes → Option (ℕ × Bytes)
decode [] = none
decode (first ∷ rest) = decode_code_point first rest

-- A code point that is no surrogate is decoded from its bytes, whatever follows them.
pub decode-encode :
    (n : ℕ) (rest : Bytes) → is_scalar n ≡ true → decode (encode n ++ rest) ≡ some (n, rest)
decode-encode n rest s = elim (dec_le n 0x7F) [
  | yes one ↦ rw (encode_one n one) (first_one n rest one)
  | no more_than_one ↦ elim (dec_le n 0x7FF) [
    | yes two ↦ rw (encode_two n (omega arith) two) (
        first_two (n / 64) _ (omega arith) (omega arith)
        ∙ sequence_two rest n s (n / 64) (n % 64) (omega arith) (omega arith) (omega arith)
            (omega arith))
    | no more_than_two ↦ elim (dec_le n 0xFFFF) [
      | yes three ↦ rw (encode_three n (omega arith) three) (
          first_three (n / 4096) _ (omega arith)
          ∙ sequence_three rest n s (n / 4096) (n / 64 % 64) (n % 64) (omega arith) (omega arith)
              (omega arith) (omega arith) (omega arith))
      | no four ↦ rw (encode_four n (omega arith) (top n s)) (
          first_four (n / 262144) _ (omega (arith, top n s))
          ∙ sequence_four rest n s (n / 262144) (n / 4096 % 64) (n / 64 % 64) (n % 64)
              (omega (arith, top n s)) (omega arith) (omega arith) (omega arith) (omega arith)
              (omega arith))
    ]
  ]
]
  where
    top : (n : ℕ) → is_scalar n ≡ true → n ≤ 0x10FFFF
    top n s = ground arith

abbrev pub AreScalar : List ℕ → Type 0
AreScalar [] = Unit
AreScalar (n ∷ text) = (is_scalar n ≡ true) × AreScalar text

-- The bytes, and the wide characters, of a list of code points.
abbrev pub encode_all : List ℕ → Bytes
encode_all [] = []
encode_all (n ∷ text) = encode n ++ encode_all text

abbrev pub units_of : Width → List ℕ → List ℕ
units_of width [] = []
units_of width (n ∷ text) = wide_units width n ++ units_of width text

narrow_32-encode_all :
    (text : List ℕ) (result : Bytes)
    → AreScalar text
    → narrow_32 result text ≡ some (result ++ encode_all text)
unfolding narrow_32
narrow_32-encode_all [] result s = ap some (sym (append-nil result))
narrow_32-encode_all (n ∷ text) result s =
    rw s.0 (narrow_32-encode_all text (result ++ encode n) s.1 ∙ rw append_assoc)

-- A step of the loop of `StringToWString` over the bytes of one code point.
widen_loop_step :
    (width : Width) (fuel n : ℕ) (result : List ℕ) (rest : Bytes)
    → is_scalar n ≡ true
    → widen_loop width (suc fuel) result (encode n ++ rest)
      ≡ widen_loop width fuel (result ++ wide_units width n) rest
unfolding widen_loop
widen_loop_step width fuel n result rest s = started (encode n ++ rest) (decode-encode n rest s)
  where
    started :
        (text : Bytes)
        → decode text ≡ some (n, rest)
        → widen_loop width (suc fuel) result text
          ≡ widen_loop width fuel (result ++ wide_units width n) rest
    started [] e = cc
    started (first ∷ more) e = rw e refl

widen_loop-encode_all :
    (width : Width) (text : List ℕ) (fuel : ℕ) (result : List ℕ)
    → AreScalar text
    → length text < fuel
    → widen_loop width fuel result (encode_all text) ≡ widened (result ++ units_of width text)
widen_loop-encode_all width text zero result s h = absurd (omega arith)
widen_loop-encode_all width [] (suc fuel) result s h =
    unfold widen_loop in ap widened (sym (append-nil result))
widen_loop-encode_all width (n ∷ text) (suc fuel) result s h =
    widen_loop_step width fuel n result (encode_all text) s.0
    ∙ widen_loop-encode_all width text fuel (result ++ wide_units width n) s.1 (omega arith)
    ∙ ap widened (append_assoc result (wide_units width n) (units_of width text))

pub length-encode_pos : (n : ℕ) → 0 < length (encode n)
unfolding encode
length-encode_pos n = ground arith

length-encode_all_le : (text : List ℕ) → length text ≤ length (encode_all text)
length-encode_all_le [] = omega arith
length-encode_all_le (n ∷ text) = omega (
  arith,
  length-append (encode n) (encode_all text),
  length-encode_pos n,
  length-encode_all_le text,
)

-- `StringToWString` gives the wide characters of every text that is encoded from code points, for
-- both widths, and it ends.
widen-encode_all :
    (width : Width) (text : List ℕ)
    → AreScalar text
    → widen width (encode_all text) ≡ widened (units_of width text)
unfolding widen
widen-encode_all width text s =
    widen_loop-encode_all width text (suc (length (encode_all text))) [] s
      (omega (arith, length-encode_all_le text))

-- A unit that is no surrogate stands for itself.
narrow_16-single :
    (n : ℕ) (us : List ℕ) (result : Bytes)
    → is_high_surrogate n ≡ false
    → is_low_surrogate n ≡ false
    → narrow_16 result (n ∷ us) ≡ narrow_16 (append_utf8 result n) us
unfolding narrow_16
narrow_16-single n [] result p q = rw (p, q) refl
narrow_16-single n (u ∷ us) result p q = rw (p, q) refl

module _ (n : ℕ) (s : is_scalar n ≡ true) where
  not_high : is_high_surrogate n ≡ false
  not_high = ground arith

  not_low : is_low_surrogate n ≡ false
  not_low = ground arith

  abbrev high : ℕ
  high = 0xD800 + (n - 0x10000) / 1024

  abbrev low : ℕ
  low = 0xDC00 + (n - 0x10000) % 1024

  in_range : n ≤ 0x10FFFF
  in_range = ground arith

  narrow_16-pair :
      (us : List ℕ) (result : Bytes)
      → 0xFFFF < n
      → narrow_16 result (high ∷ low ∷ us) ≡ narrow_16 (append_utf8 result n) us
  unfolding narrow_16
  narrow_16-pair us result h = rw (is_high, is_low, paired) refl
    where
      is_high : is_high_surrogate high ≡ true
      is_high = ground (arith, in_range)

      is_low : is_low_surrogate low ≡ true
      is_low = ground arith

      paired : 0x10000 + (high - 0xD800) * 1024 + (low - 0xDC00) ≡ n
      paired = omega (arith, in_range)

  narrow_16_step :
      (us : List ℕ) (result : Bytes)
      → narrow_16 result (wide_units utf_16 n ++ us) ≡ narrow_16 (append_utf8 result n) us
  unfolding wide_units
  narrow_16_step us result = elim (Bool-cases (leb n 0xFFFF)) [
    | inl one ↦ rw one (narrow_16-single n us result not_high not_low)
    | inr two ↦ rw two (narrow_16-pair us result (ground arith))
  ]

narrow_16-units_of :
    (text : List ℕ) (result : Bytes)
    → AreScalar text
    → narrow_16 result (units_of utf_16 text) ≡ some (result ++ encode_all text)
unfolding append_utf8
narrow_16-units_of [] result s = unfold narrow_16 in ap some (sym (append-nil result))
narrow_16-units_of (n ∷ text) result s =
    narrow_16_step n s.0 (units_of utf_16 text) result
    ∙ narrow_16-units_of text (result ++ encode n) s.1
    ∙ ap some (append_assoc result (encode n) (encode_all text))

pub units_of_32 : (text : List ℕ) → units_of utf_32 text ≡ text
unfolding wide_units
units_of_32 [] = refl
units_of_32 (n ∷ text) = ap (◌∷◌ n) (units_of_32 text)

pub narrow-units_of :
    (width : Width) (text : List ℕ)
    → AreScalar text
    → narrow width (units_of width text) ≡ some (encode_all text)
narrow-units_of utf_16 text s = narrow_16-units_of text [] s
narrow-units_of utf_32 text s = rw (units_of_32 text) (narrow_32-encode_all text [] s)

-- For code points that are no surrogates, and both widths of `wchar_t`: the wide text of the code
-- points is narrowed to their UTF-8 bytes, those bytes are widened to the same wide text, and neither
-- conversion fails.
pub widen-narrow :
    (width : Width) (text : List ℕ)
    → AreScalar text
    → (bytes : Bytes) × (narrow width (units_of width text) ≡ some bytes)
      × (widen width bytes ≡ widened (units_of width text))
widen-narrow width text s =
    (encode_all text, narrow-units_of width text s, widen-encode_all width text s)
