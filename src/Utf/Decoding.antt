-- ===== src/Utf/Decoding.antt =====
-- What `DecodeUtf8CodePoint` (pans/src/utils/string_utils.cc) accepts: the bytes of a code point that
-- is no surrogate, in their shortest form, and nothing else.
use mathlib.Core.Path.{subst}
use pans.Base.{
  ℕ, ◌+◌, ◌*◌, ◌/◌, ◌%◌, ◌^◌, ◌<◌, ◌≤◌, ◌≡◌, sym, true, ◌&&◌, Option, some, ◌∷◌, ◌++◌, Bytes, leb,
  leb→le, arith, Bool-cases, inl, inr,
}
use pans.Utf.{encode, decode_sequence, decode_code_point, is_scalar}
use pans.Utf.Units.{encode_one, encode_two, encode_three, encode_four}
use pans.Utf.Sequences.{AreBytes, one-Read, decode_sequence-Passes, read_none}

-- The bytes that were read are those of the code point.
abbrev pub Encodes : ℕ → Bytes → Bytes → Type 0
Encodes n text rest = (is_scalar n ≡ true) × (text ≡ encode n ++ rest) × AreBytes rest

scalar_le : (n : ℕ) → is_scalar n ≡ true → n ≤ 0x10FFFF
scalar_le n s = ground arith

-- Room for one more continuation byte.
second : (a b : ℕ) → a < 16 → b < 64 → a * 64 + b < 2 ^ 26
second a b ha hb = omega arith

third : (a b c : ℕ) → a < 5 → b < 64 → c < 64 → (a * 64 + b) * 64 + c < 2 ^ 26
third a b c ha hb hc = omega arith

-- The bytes of a sequence put together.
two_bytes :
    (n a b : ℕ) (text t rest : Bytes)
    → b < 64
    → 0x80 ≤ n
    → a < 32
    → a * 64 + b ≡ n
    → text ≡ (0x80 + b) ∷ t
    → t ≡ rest
    → (0xC0 + a) ∷ text ≡ encode n ++ rest
two_bytes n a b text t rest small low top e split same =
    rw (encode_two n (omega arith) (omega arith), quotient, last) cc
  where
    quotient : n / 64 ≡ a
    quotient = omega (arith, small, low, top, e)

    last : n % 64 ≡ b
    last = omega (arith, small, low, top, e)

three_bytes :
    (n a b c : ℕ) (text t u rest : Bytes)
    → b < 64
    → c < 64
    → 0x800 ≤ n
    → a < 16
    → (a * 64 + b) * 64 + c ≡ n
    → text ≡ (0x80 + b) ∷ t
    → t ≡ (0x80 + c) ∷ u
    → u ≡ rest
    → (0xE0 + a) ∷ text ≡ encode n ++ rest
three_bytes n a b c text t u rest hb hc low top e split more same =
    rw (encode_three n (omega arith) (omega arith), quotient, middle, last) cc
  where
    quotient : n / 4096 ≡ a
    quotient = omega (arith, hb, hc, e)

    middle : n / 64 % 64 ≡ b
    middle = omega (arith, hb, hc, e)

    last : n % 64 ≡ c
    last = omega (arith, hb, hc, e)

four_bytes :
    (n a b c d : ℕ) (text t u v rest : Bytes)
    → b < 64
    → c < 64
    → d < 64
    → 0x10000 ≤ n
    → n ≤ 0x10FFFF
    → ((a * 64 + b) * 64 + c) * 64 + d ≡ n
    → text ≡ (0x80 + b) ∷ t
    → t ≡ (0x80 + c) ∷ u
    → u ≡ (0x80 + d) ∷ v
    → v ≡ rest
    → (0xF0 + a) ∷ text ≡ encode n ++ rest
four_bytes n a b c d text t u v rest hb hc hd low high e split more most same =
    rw (encode_four n (omega arith) high, quotient, upper, middle, last) cc
  where
    quotient : n / 262144 ≡ a
    quotient = omega (arith, hb, hc, hd, e)

    upper : n / 4096 % 64 ≡ b
    upper = omega (arith, hb, hc, hd, e)

    middle : n / 64 % 64 ≡ c
    middle = omega (arith, hb, hc, hd, e)

    last : n % 64 ≡ d
    last = omega (arith, hb, hc, hd, e)

module _ (n : ℕ) (text rest : Bytes) (b : AreBytes text) where
  sequence_two-Encodes :
      (a : ℕ)
      → a < 32
      → decode_sequence a 0x80 1 text ≡ some (n, rest)
      → Encodes n ((0xC0 + a) ∷ text) rest
  sequence_two-Encodes a small h =
      let p = decode_sequence-Passes a 0x80 1 n text rest h in
      let r = one-Read 0 a n text rest b (omega arith) p.reads in
      let (e, same) = read_none (a * 64 + r.bits) n r.tail rest r.others in
      (
        p.scalar,
        two_bytes n a r.bits text r.tail rest r.small p.minimum_le small e r.split same,
        subst AreBytes same r.bytes,
      )

  sequence_three-Encodes :
      (a : ℕ)
      → a < 16
      → decode_sequence a 0x800 2 text ≡ some (n, rest)
      → Encodes n ((0xE0 + a) ∷ text) rest
  sequence_three-Encodes a small h =
      let p = decode_sequence-Passes a 0x800 2 n text rest h in
      let r = one-Read 1 a n text rest b (omega arith) p.reads in
      let s =
        one-Read 0 (a * 64 + r.bits) n r.tail rest r.bytes (second a r.bits small r.small)
          r.others in
      let (e, same) = read_none ((a * 64 + r.bits) * 64 + s.bits) n s.tail rest s.others in
      (
        p.scalar,
        three_bytes n a r.bits s.bits text r.tail s.tail rest r.small s.small p.minimum_le small e
            r.split s.split same,
        subst AreBytes same s.bytes,
      )

  sequence_four-Encodes :
      (a : ℕ)
      → a < 5
      → decode_sequence a 0x10000 3 text ≡ some (n, rest)
      → Encodes n ((0xF0 + a) ∷ text) rest
  sequence_four-Encodes a small h =
      let p = decode_sequence-Passes a 0x10000 3 n text rest h in
      let r = one-Read 2 a n text rest b (omega arith) p.reads in
      let second_small = second a r.bits (omega arith) r.small in
      let s = one-Read 1 (a * 64 + r.bits) n r.tail rest r.bytes second_small r.others in
      let t =
        one-Read 0 ((a * 64 + r.bits) * 64 + s.bits) n s.tail rest s.bytes
          (third a r.bits s.bits small r.small s.small) s.others in
      let (e, same) =
        read_none (((a * 64 + r.bits) * 64 + s.bits) * 64 + t.bits) n t.tail rest t.others in
      (
        p.scalar,
        four_bytes n a r.bits s.bits t.bits text r.tail s.tail t.tail rest r.small s.small t.small
            p.minimum_le (scalar_le n p.scalar) e r.split s.split t.split same,
        subst AreBytes same t.bytes,
      )

-- Where a text is decoded, what was read is the encoding of the code point, which is no surrogate.
pub decode_code_point-Encodes :
    (first n : ℕ) (text rest : Bytes)
    → first < 256
    → AreBytes text
    → decode_code_point first text ≡ some (n, rest)
    → Encodes n (first ∷ text) rest
unfolding decode_code_point
decode_code_point-Encodes first n text rest byte b h = elim (Bool-cases (leb first 0x7F)) [
  | inl one ↦ single one (rw one at h)
  | inr more_than_one ↦ elim (Bool-cases (leb 0xC2 first && leb first 0xDF)) [
    | inl two ↦
        subst (λ f. Encodes n (f ∷ text) rest) (sym (low_two two))
          (sequence_two-Encodes n text rest b (first % 32) (omega arith)
            (rw (more_than_one, two) at h))
    | inr more_than_two ↦ elim (Bool-cases (leb 0xE0 first && leb first 0xEF)) [
      | inl three ↦
          subst (λ f. Encodes n (f ∷ text) rest) (sym (low_three three))
            (sequence_three-Encodes n text rest b (first % 16) (omega arith)
              (rw (more_than_one, more_than_two, three) at h))
      | inr more_than_three ↦ elim (Bool-cases (leb 0xF0 first && leb first 0xF4)) [
        | inl four ↦
            subst (λ f. Encodes n (f ∷ text) rest) (sym (low_four four).0)
              (sequence_four-Encodes n text rest b (first % 8) (low_four four).1
                (rw (more_than_one, more_than_two, more_than_three, four) at h))
        | inr more ↦ cc (rw (more_than_one, more_than_two, more_than_three, more) at h)
      ]
    ]
  ]
]
  where
    single :
        leb first 0x7F ≡ true
        → ◌≡◌ {A = Option (ℕ × Bytes)} (some (first, text)) (some (n, rest))
        → Encodes n (first ∷ text) rest
    single one e =
        let same : first ≡ n = ground (arith, e) in
        let behind : text ≡ rest = cc in
        (
          subst (λ m. is_scalar m ≡ true) same (ground arith),
          rw (encode_one n (omega (arith, leb→le first 0x7F one))) cc,
          subst AreBytes behind b,
        )

    low_two : (leb 0xC2 first && leb first 0xDF) ≡ true → first ≡ 0xC0 + first % 32
    low_two two = ground arith

    low_three : (leb 0xE0 first && leb first 0xEF) ≡ true → first ≡ 0xE0 + first % 16
    low_three three = ground arith

    low_four :
        (leb 0xF0 first && leb first 0xF4) ≡ true → (first ≡ 0xF0 + first % 8) × (first % 8 < 5)
    low_four four = ground arith
