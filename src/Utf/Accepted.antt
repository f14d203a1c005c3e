-- ===== src/Utf/Accepted.antt =====
-- Which bytes `StringToWString` (pans/src/utils/string_utils.cc) accepts, and that `WStringToString`
-- gives them back.
use pans.Base.{
  ℕ, zero, suc, ◌<◌, ◌≡◌, ◌≢◌, refl, sym, ap, ◌∙◌, true, none, some, List, [], ◌∷◌, ◌++◌, Bytes,
  length, length-append, append-nil, append_assoc, Option-cases, ◌⊎◌, inl, inr, arith,
}
use pans.Utf.{
  encode, decode_code_point, is_scalar, Width, narrow, wide_units, Widened, widened, invalid,
  widen_loop, widen,
}
use pans.Utf.Sequences.{AreBytes}
use pans.Utf.Decoding.{decode_code_point-Encodes}
use pans.Utf.Strings.{
  decode, decode-encode, AreScalar, encode_all, units_of, length-encode_pos, narrow-units_of,
}

-- The bytes are those of code points, or of none.
abbrev pub Accepts : Bytes → (List ℕ → Type 0) → Type 0
Accepts text ends = (points : List ℕ) × AreScalar points × (text ≡ encode_all points) × ends points

abbrev pub IsNoUtf8 : Bytes → Type 0
IsNoUtf8 text = (points : List ℕ) → AreScalar points → text ≢ encode_all points

-- A text that begins with no code point, or goes on with no text of code points.
undecoded-IsNoUtf8 :
    (first : ℕ) (rest : Bytes) → decode_code_point first rest ≡ none → IsNoUtf8 (first ∷ rest)
undecoded-IsNoUtf8 first rest e [] s same = cc
undecoded-IsNoUtf8 first rest e (n ∷ points) s same =
    cc (e, ap decode same, decode-encode n (encode_all points) s.0)

decoded-IsNoUtf8 :
    (first n : ℕ) (text rest : Bytes)
    → decode_code_point first text ≡ some (n, rest)
    → IsNoUtf8 rest
    → IsNoUtf8 (first ∷ text)
decoded-IsNoUtf8 first n text rest e never [] s same = cc
decoded-IsNoUtf8 first n text rest e never (m ∷ points) s same =
    never points s.1 (cc (e, ap decode same, decode-encode m (encode_all points) s.0))

module _ (width : Width) where
  abbrev Decides : Bytes → List ℕ → Widened → Type 0
  Decides text result ends =
      Accepts text (λ points. ends ≡ widened (result ++ units_of width points))
      ⊎ (IsNoUtf8 text × (ends ≡ invalid))

  -- A text that begins with a code point is decided by what follows it.
  Decides-step :
      (n : ℕ) (text rest : Bytes) (result : List ℕ) (ends : Widened)
      → is_scalar n ≡ true
      → text ≡ encode n ++ rest
      → (IsNoUtf8 rest → IsNoUtf8 text)
      → Decides rest (result ++ wide_units width n) ends
      → Decides text result ends
  Decides-step n text rest result ends s same never (inl (points, scalar, e, ended)) = inl (
    n ∷ points,
    (s, scalar),
    same ∙ ap (λ more. encode n ++ more) e,
    ended ∙ ap widened (append_assoc result (wide_units width n) (units_of width points)),
  )
  Decides-step n text rest result ends s same never (inr (no_text, ended)) =
      inr (never no_text, ended)

  widen_loop-Decides :
      (fuel : ℕ) (result : List ℕ) (text : Bytes)
      → AreBytes text
      → length text < fuel
      → Decides text result (widen_loop width fuel result text)
  unfolding widen_loop
  widen_loop-Decides zero result text b h = absurd (omega arith)
  widen_loop-Decides (suc fuel) result [] b h =
      inl ([], tt, refl, ap widened (sym (append-nil result)))
  widen_loop-Decides (suc fuel) result (first ∷ text) b h =
      elim (Option-cases (decode_code_point first text)) [
        | inl refused ↦ inr (undecoded-IsNoUtf8 first text refused, rw refused refl)
        | inr ((n, rest), e) ↦
            let (scalar, same, bytes) = decode_code_point-Encodes first n text rest b.0 b.1 e in
            rw e (
              Decides-step n (first ∷ text) rest result _ scalar same
                (decoded-IsNoUtf8 first n text rest e)
                (widen_loop-Decides fuel (result ++ wide_units width n) rest bytes (
                  omega
                    (arith, ap length same, length-append (encode n) rest, length-encode_pos n))))
      ]

  -- `StringToWString` ends on every text, and decides whether it is UTF-8: the bytes of code points that
  -- are no surrogates give the wide text of these, in both widths, and all other bytes are refused.
  pub widen-decides :
      (text : Bytes)
      → AreBytes text
      → Accepts text (λ points. widen width text ≡ widened (units_of width points))
        ⊎ (IsNoUtf8 text × (widen width text ≡ invalid))
  unfolding widen
  widen-decides text b = widen_loop-Decides (suc (length text)) [] text b (omega arith)

  -- Whatever `StringToWString` accepts, `WStringToString` gives back byte for byte.
  pub narrow-widen :
      (text : Bytes) (wide : List ℕ)
      → AreBytes text
      → widen width text ≡ widened wide
      → narrow width wide ≡ some text
  narrow-widen text wide b e = elim (widen-decides text b) [
    | inl (points, scalar, same, ended) ↦
        ap (narrow width) (widened_injective (sym e ∙ ended))
        ∙ narrow-units_of width points scalar
        ∙ ap some (sym same)
    | inr (no_text, ended) ↦ cc
  ]
    where
      widened_injective : {xs ys : List ℕ} → widened xs ≡ widened ys → xs ≡ ys
      widened_injective h = cc
