-- ===== src/Utf/Sequences.antt =====
-- What the loop of `DecodeUtf8CodePoint` (pans/src/utils/string_utils.cc) over continuation bytes reads,
-- and what is tested behind it.
use pans.Base.{
  ℕ, zero, suc, ◌+◌, ◌*◌, ◌%◌, ◌^◌, ◌<◌, ◌≤◌, ◌≡◌, sym, ap, ◌∙◌, true, false, Option, none, some,
  [], ◌∷◌, Bytes, ltb, length, arith, Bool-cases, inl, inr,
}
use pans.Utf.{is_continuation, read_continuations, is_refused, refuse, decode_sequence, is_scalar}
use pans.Utf.Units.{is_continuation-range, push_six_lem}

abbrev pub AreBytes : Bytes → Type 0
AreBytes [] = Unit
AreBytes (b ∷ bytes) = (b < 256) × AreBytes bytes

-- A byte that the loop over continuation bytes lets through.
pub record Read (count code_point n : ℕ) (text rest : Bytes) : Type 0 where
  pub bits : ℕ
  pub tail : Bytes
  pub small : bits < 64
  pub split : text ≡ (0x80 + bits) ∷ tail
  pub bytes : AreBytes tail
  pub others : read_continuations count (code_point * 64 + bits) tail ≡ some (n, rest)

pub one-Read :
    (count code_point n : ℕ) (text rest : Bytes)
    → AreBytes text
    → code_point < 2 ^ 26
    → read_continuations (suc count) code_point text ≡ some (n, rest)
    → Read count code_point n text rest
unfolding read_continuations
one-Read count code_point n [] rest b k h = cc
one-Read count code_point n (c ∷ text) rest (byte, b) k h = elim (Bool-cases (is_continuation c)) [
  | inr other ↦ cc (rw other at h)
  | inl continues ↦ record {
    bits = c % 64;
    tail = text;
    small = omega arith;
    split = ap (λ d. d ∷ text) (marked continues);
    bytes = b;
    others = rw (continues, push_six_lem code_point c k) at h;
  }
]
  where
    marked : is_continuation c ≡ true → c ≡ 0x80 + c % 64
    marked continues = ground (arith, sym (is_continuation-range c byte) ∙ continues)

-- What a sequence of bytes passes behind its loop.
pub record Passes (code_point minimum count n : ℕ) (text rest : Bytes) : Type 0 where
  pub reads : read_continuations count code_point text ≡ some (n, rest)
  pub minimum_le : minimum ≤ n
  pub scalar : is_scalar n ≡ true

pub refuse-Passes :
    (minimum n : ℕ) (read : Option (ℕ × Bytes)) (rest : Bytes)
    → refuse minimum read ≡ some (n, rest)
    → (read ≡ some (n, rest)) × (minimum ≤ n) × (is_scalar n ≡ true)
refuse-Passes minimum n none rest h = cc
refuse-Passes minimum n (some (m, more)) rest h = elim (Bool-cases (is_refused minimum m)) [
  | inl refused ↦ cc (rw refused at h)
  | inr passes ↦ passed passes (rw passes at h)
]
  where
    scalar : is_refused minimum m ≡ false → (minimum ≤ m) × (is_scalar m ≡ true)
    scalar passes = ground arith

    passed :
        is_refused minimum m ≡ false
        → ◌≡◌ {A = Option (ℕ × Bytes)} (some (m, more)) (some (n, rest))
        → (◌≡◌ {A = Option (ℕ × Bytes)} (some (m, more)) (some (n, rest)))
          × (minimum ≤ n)
          × (is_scalar n ≡ true)
    passed passes e = ground (arith, scalar passes)

pub decode_sequence-Passes :
    (code_point minimum count n : ℕ) (text rest : Bytes)
    → decode_sequence code_point minimum count text ≡ some (n, rest)
    → Passes code_point minimum count n text rest
unfolding decode_sequence
decode_sequence-Passes code_point minimum count n text rest h =
    elim (Bool-cases (ltb (length text) count)) [
      | inl short ↦ cc (rw short at h)
      | inr enough ↦
          let (reads, minimum_le, scalar) =
            refuse-Passes minimum n (read_continuations count code_point text) rest
              (rw enough at h) in
          record { reads = reads; minimum_le = minimum_le; scalar = scalar }
    ]

pub read_none :
    (code_point n : ℕ) (text rest : Bytes)
    → read_continuations zero code_point text ≡ some (n, rest)
    → (code_point ≡ n) × (text ≡ rest)
unfolding read_continuations
read_none code_point n text rest h = ground arith
